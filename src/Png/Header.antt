-- ===== src/Png/Header.antt =====
-- source/shared/enil_png.c: the header of an image, as the format has it.
use enil.Common.{
  ◌≢◌, none, some_inj, if◌then◌else◌, ◌+◌, ◌*◌, ◌<◌, ◌^◌, ◌≤◌, ◌⊎◌, ℕ, ◌≡◌, refl, ap, Bool, true,
  false, some, List, [], ◌∷◌, length, arith,
}
use enil.Png.{valid_depth, be32, Size, header_size}

-- The depths that a colour type allows.
abbrev pub IsDepth : ℕ → ℕ → Type 0
IsDepth color depth =
    ((color ≡ 0) × ((depth ≡ 1) ⊎ (depth ≡ 2) ⊎ (depth ≡ 4) ⊎ (depth ≡ 8) ⊎ (depth ≡ 16)))
    ⊎ ((color ≡ 2) × ((depth ≡ 8) ⊎ (depth ≡ 16)))
    ⊎ ((color ≡ 3) × ((depth ≡ 1) ⊎ (depth ≡ 2) ⊎ (depth ≡ 4) ⊎ (depth ≡ 8)))
    ⊎ ((color ≡ 4) × ((depth ≡ 8) ⊎ (depth ≡ 16)))
    ⊎ ((color ≡ 6) × ((depth ≡ 8) ⊎ (depth ≡ 16)))

-- A number in four bytes, the highest first.
abbrev pub four_bytes : ℕ → ℕ → ℕ → ℕ → ℕ
four_bytes a b c d = ((a * 256 + b) * 256 + c) * 256 + d

-- The thirteen bytes of a header: width, height, depth, colour type, compression, filter, interlace.
abbrev pub IsHeader : List ℕ → Size → Type 0
IsHeader header (width, height) =
    (a : ℕ) × (b : ℕ) × (c : ℕ) × (d : ℕ) × (e : ℕ) × (f : ℕ) × (g : ℕ) × (h : ℕ) × (depth : ℕ)
    × (color : ℕ) × (interlace : ℕ) × (header
        ≡ a ∷ b ∷ c ∷ d ∷ e ∷ f ∷ g ∷ h ∷ depth ∷ color ∷ 0 ∷ 0 ∷ interlace ∷ [])
    × (width ≡ four_bytes a b c d)
    × (height ≡ four_bytes e f g h)
    × (1 ≤ width)
    × (width < 2 ^ 31)
    × (1 ≤ height)
    × (height < 2 ^ 31)
    × IsDepth color depth
    × (interlace ≤ 1)

valid_depth-IsDepth : (color depth : ℕ) → valid_depth color depth ≡ true → IsDepth color depth
valid_depth-IsDepth color depth h = ground (arith, h)

unless :
    (bad : Bool) (p size : Size)
    → (if bad then none else some p) ≡ some size
    → (bad ≡ false) × (p ≡ size)
unless true p size h = absurd (cc h)
unless false p size h = (refl, some_inj h)

abbrev first_of : Size → ℕ
first_of (x, y) = x

abbrev second_of : Size → ℕ
second_of (x, y) = y

fits :
    (a b c d e f g h depth color u v interlace : ℕ) (size : Size)
    → header_size (a ∷ b ∷ c ∷ d ∷ e ∷ f ∷ g ∷ h ∷ depth ∷ color ∷ u ∷ v ∷ interlace ∷ [])
      ≡ some size
    → IsHeader (a ∷ b ∷ c ∷ d ∷ e ∷ f ∷ g ∷ h ∷ depth ∷ color ∷ u ∷ v ∷ interlace ∷ []) size
unfolding header_size be32
fits a b c d e f g h depth color u v interlace (x, y) says =
    let p : Size =
      (a * 2 ^ 24 + b * 2 ^ 16 + c * 2 ^ 8 + d, e * 2 ^ 24 + f * 2 ^ 16 + g * 2 ^ 8 + h) in
    let (fine, same) = unless _ p (x, y) says in
    let wide : p.0 ≡ x = ap first_of same in
    let high : p.1 ≡ y = ap second_of same in
    let u0 : u ≡ 0 = ground (arith, fine) in
    let v0 : v ≡ 0 = ground (arith, fine) in
    let right : valid_depth color depth ≡ true = ground (arith, fine) in
    let bounds : (p.0 ≢ 0) × (p.1 ≢ 0) × (p.0 < 2 ^ 31) × (p.1 < 2 ^ 31) × (interlace ≤ 1) =
      ground (arith, fine) in
    (
      a,
      b,
      c,
      d,
      e,
      f,
      g,
      h,
      depth,
      color,
      interlace,
      rw (u0, v0) refl,
      omega (arith, wide),
      omega (arith, high),
      omega (arith, wide, bounds),
      omega (arith, wide, bounds),
      omega (arith, high, bounds),
      omega (arith, high, bounds),
      valid_depth-IsDepth color depth right,
      bounds.4,
    )

-- A header of thirteen bytes that the code finds right.
pub header-IsHeader :
    (header : List ℕ) (size : Size)
    → length header ≡ 13
    → header_size header ≡ some size
    → IsHeader header size
header-IsHeader (a ∷ b ∷ c ∷ d ∷ e ∷ f ∷ g ∷ h ∷ depth ∷ color ∷ u ∷ v ∷ interlace ∷ []) size len
      says =
    fits a b c d e f g h depth color u v interlace size says
header-IsHeader _ size len says = absurd (omega (arith, len))
