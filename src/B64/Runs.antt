-- ===== src/B64/Runs.antt =====
-- A concrete block code in the place of OpenSSL's, and the theorem at a concrete text.
use enil.Common.{
  ℕ, ◌+◌, ◌-◌, ◌*◌, ◌/◌, ◌≡◌, refl, ap, ◌∙◌, true, Option, none, some, List, [], ◌∷◌, ◌++◌, arith,
  leb, ◌==◌, length,
}
use enil.Common.Text.{Text}
use enil.B64.{Evp, enil_b64_encode, enil_b64_decode, enil_b64_decode_alloc}
use enil.B64.Inverse.{EvpLaws, pad, pad_zeros, b64_decode-encode}

-- Each byte shifted by 100, and a fourth character without content.
abbrev pub shift_encode : List ℕ → Text
shift_encode [] = []
shift_encode (a ∷ []) = (a + 100) ∷ 0 ∷ 61 ∷ 61 ∷ []
shift_encode (a ∷ b ∷ []) = (a + 100) ∷ (b + 100) ∷ 0 ∷ 61 ∷ []
shift_encode (a ∷ b ∷ c ∷ s) = (a + 100) ∷ (b + 100) ∷ (c + 100) ∷ 0 ∷ shift_encode s

abbrev pub prepend : ℕ → ℕ → ℕ → Option (List ℕ) → Option (List ℕ)
prepend a b c none = none
prepend a b c (some s) = some ((a - 100) ∷ (b - 100) ∷ (c - 100) ∷ s)

abbrev pub shift_decode : Text → Option (List ℕ)
shift_decode [] = some []
shift_decode (a ∷ []) = none
shift_decode (a ∷ b ∷ []) = none
shift_decode (a ∷ b ∷ c ∷ []) = none
shift_decode (a ∷ b ∷ c ∷ d ∷ s) = prepend a b c (shift_decode s)

abbrev pub shift_evp : Evp
shift_evp = record { encode_block = λ s n. shift_encode s; decode_block = λ t n. shift_decode t }

shift_length : (s : List ℕ) → length (shift_encode s) ≡ (length s + 2) / 3 * 4
shift_length [] = refl
shift_length (a ∷ []) = refl
shift_length (a ∷ b ∷ []) = refl
shift_length (a ∷ b ∷ c ∷ s) = omega (arith, shift_length s)

shift_inverse : (s : List ℕ) → shift_decode (shift_encode s) ≡ some (s ++ pad_zeros (pad s))
shift_inverse [] = refl
shift_inverse (a ∷ []) = let e : a + 100 - 100 ≡ a = omega arith in rw e refl
shift_inverse (a ∷ b ∷ []) =
    let e : a + 100 - 100 ≡ a = omega arith in
    let e' : b + 100 - 100 ≡ b = omega arith in rw (e, e') refl
shift_inverse (a ∷ b ∷ c ∷ s) =
    let same : pad (a ∷ b ∷ c ∷ s) ≡ pad s = omega arith in
    let ea : a + 100 - 100 ≡ a = omega arith in
    let eb : b + 100 - 100 ≡ b = omega arith in
    let ec : c + 100 - 100 ≡ c = omega arith in
    ap (prepend (a + 100) (b + 100) (c + 100)) (shift_inverse s) ∙ rw (same, ea, eb, ec) refl

abbrev End : ℕ → List ℕ → Type 0
End x s =
    (u : List ℕ) × (c : ℕ) × (d : ℕ) × (shift_encode (x ∷ s) ≡ u ++ (c ∷ d ∷ []))
    × ((c == b'=') ≡ leb 2 (pad (x ∷ s)))
    × ((d == b'=') ≡ leb 1 (pad (x ∷ s)))

shift_last : (x : ℕ) (s : List ℕ) → End x s
shift_last a [] = ((a + 100) ∷ 0 ∷ [], 61, 61, refl, refl, refl)
shift_last a (b ∷ []) = ((a + 100) ∷ (b + 100) ∷ [], 0, 61, refl, refl, refl)
shift_last a (b ∷ c ∷ []) = ((a + 100) ∷ (b + 100) ∷ [], c + 100, 0, refl, ground arith, refl)
shift_last a (b ∷ c ∷ y ∷ s) =
    let (u, d, e, h, hd, he) = shift_last y s in
    let same : pad (a ∷ b ∷ c ∷ y ∷ s) ≡ pad (y ∷ s) = omega arith in
    (
      (a + 100) ∷ (b + 100) ∷ (c + 100) ∷ 0 ∷ u,
      d,
      e,
      ap (λ (t : List ℕ). (a + 100) ∷ (b + 100) ∷ (c + 100) ∷ 0 ∷ t) h,
      rw same hd,
      rw same he,
    )

pub shift_laws : EvpLaws shift_evp
shift_laws = record {
  encode_length = λ s small. shift_length s;
  encode_end = λ x s small. shift_last x s;
  decode_encode = λ s small. shift_inverse s;
}

b64_decode-encode_example :
    (enil_b64_decode shift_evp (101 ∷ 102 ∷ 0 ∷ 61 ∷ []) ≡ some (1 ∷ 2 ∷ []))
    × (enil_b64_decode_alloc shift_evp (λ n. true) (101 ∷ 102 ∷ 0 ∷ 61 ∷ []) ≡ some (1 ∷ 2 ∷ []))
unfolding enil_b64_encode
b64_decode-encode_example =
    b64_decode-encode shift_evp shift_laws (λ n. true) (λ n. true) (1 ∷ 2 ∷ []) _ (omega arith) refl
      (λ n. refl)
