-- ===== src/Png/Chunk.antt =====
-- source/shared/enil_png.c: what the loops over the bytes of a chunk have read.
use enil.Common.{
  ℕ, zero, suc, ◌+◌, ◌-◌, ◌≤◌, ◌≡◌, refl, sym, ap, ◌∙◌, Bool, true, false, Option, some, List, [],
  ◌++◌, leb, ◌==◌, length, take, drop, arith, inl, inr, Bool-cases, Option-cases, ==_iff, some_inj,
  take-append-drop, length-take, append_assoc, length-append,
}
use mathlib.Core.Path.{subst}
use enil.Png.{Zlib, Size, fread, header_size, min_buf, pieces}

pub fread_inv : (n : ℕ) (s a b : List ℕ) → fread n s ≡ some (a, b) → (s ≡ a ++ b) × (length a ≡ n)
unfolding fread
fread_inv n s a b h = elim (Bool-cases (leb n (length s))) [
  | inl enough ↦
      let pair = some_inj (rw (enough, fread) at h) in
      let first : take n s ≡ a = ap (λ (p : List ℕ × List ℕ). p.0) pair in
      let second : drop n s ≡ b = ap (λ (p : List ℕ × List ℕ). p.1) pair in
      (
        sym (take-append-drop n s) ∙ ap (λ t. t ++ drop n s) first ∙ ap (λ t. a ++ t) second,
        ap (λ (t : List ℕ). length t) (sym first) ∙ ground (arith, length-take n s, enough),
      )
  | inr short ↦ absurd (cc (rw (short, fread) at h))
]

min_buf_le : (n : ℕ) → min_buf n ≤ n
min_buf_le n = ground arith

min_buf_positive : (n : ℕ) → (n == 0) ≡ false → 1 ≤ min_buf n
min_buf_positive n h = ground (arith, h)

module _ (zlib : Zlib) where
  -- What has been read of a chunk: its bytes, their number, and their checksum behind `crc`.
  abbrev pub HasRead : List ℕ → List ℕ → ℕ → ℕ → ℕ → List ℕ → Type 0
  HasRead s rest n crc crc' bytes =
      (s ≡ bytes ++ rest) × (length bytes ≡ n) × (crc' ≡ zlib.crc32 crc bytes)

  HasRead-append :
      (s t rest a b : List ℕ) (n m crc mid crc' : ℕ)
      → HasRead s t n crc mid a
      → HasRead t rest m mid crc' b
      → HasRead s rest (n + m) crc crc' (a ++ b)
  HasRead-append s t rest a b n m crc mid crc' (e, len, sum) (e', len', sum') = (
    e ∙ ap (λ u. a ++ u) e' ∙ sym (append_assoc a b rest),
    length-append a b ∙ ground (arith, len, len'),
    sum' ∙ ap (λ c. zlib.crc32 c b) sum ∙ zlib.crc32_append crc a b,
  )

  nothing_read :
      (crc n : ℕ) (size : Size) (s : List ℕ) (crc' : ℕ) (size' : Size) (rest : List ℕ)
      → n ≡ 0
      → ◌≡◌ {A = Option (ℕ × Size × List ℕ)} (some (crc, size, s)) (some (crc', size', rest))
      → (bytes : List ℕ) × HasRead s rest n crc crc' bytes × (size' ≡ size)
  nothing_read crc n size s crc' size' rest none_left h =
      let old : ℕ × Size × List ℕ = (crc, size, s) in
      let new : ℕ × Size × List ℕ = (crc', size', rest) in
      let e : old ≡ new = some_inj h in
      (
        [],
        (
          ap (λ (r : ℕ × Size × List ℕ). r.2) e,
          sym none_left,
          sym (ap (λ (r : ℕ × Size × List ℕ). r.0) e) ∙ sym (zlib.crc32_nil crc),
        ),
        sym (ap (λ (r : ℕ × Size × List ℕ). r.1) e),
      )

  -- Every piece of a chunk that is no header.
  pub pieces_inv :
      (fuel crc n : ℕ) (size : Size) (s : List ℕ) (crc' : ℕ) (size' : Size) (rest : List ℕ)
      → n ≤ fuel
      → pieces zlib fuel false crc n size s ≡ some (crc', size', rest)
      → (bytes : List ℕ) × HasRead s rest n crc crc' bytes × (size' ≡ size)
  unfolding pieces
  pieces_inv zero crc n size s crc' size' rest few h =
      nothing_read crc n size s crc' size' rest (omega arith) h
  pieces_inv (suc fuel) crc n size s crc' size' rest few h = elim (Bool-cases (n == 0)) [
    | inl over ↦
        nothing_read crc n size s crc' size' rest ((==_iff n 0).0 over) (rw (over, pieces) at h)
    | inr more ↦ elim (Option-cases (fread (min_buf n) s)) [
      | inl short ↦ absurd (cc (rw (more, short, pieces) at h))
      | inr ((buf, t), e) ↦
          let (split, len) = fread_inv (min_buf n) s buf t e in
          let le = min_buf_le n in
          let ge = min_buf_positive n more in
          let (bytes, has, same) =
            pieces_inv fuel (zlib.crc32 crc buf) (n - min_buf n) size t crc' size' rest
              (omega arith) (rw (more, e, pieces) at h) in
          let total : min_buf n + (n - min_buf n) ≡ n = omega arith in
          (
            buf ++ bytes,
            subst (λ k. HasRead s rest k crc crc' (buf ++ bytes)) total
                (HasRead-append s t rest buf bytes (min_buf n) (n - min_buf n) crc
                  (zlib.crc32 crc buf) crc' (split, len, refl) has),
            same,
          )
    ]
  ]

  -- The header chunk, which is one piece.
  pub header_pieces :
      (crc : ℕ) (size : Size) (s : List ℕ) (crc' : ℕ) (size' : Size) (rest : List ℕ)
      → pieces zlib 13 true crc 13 size s ≡ some (crc', size', rest)
      → (bytes : List ℕ) × HasRead s rest 13 crc crc' bytes × (header_size bytes ≡ some size')
  unfolding pieces
  header_pieces crc size s crc' size' rest h = elim (Option-cases (fread 13 s)) [
    | inl short ↦ absurd (cc (rw (short, pieces) at h))
    | inr ((buf, t), e) ↦ elim (Option-cases (header_size buf)) [
      | inl bad ↦ absurd (cc (rw (e, bad, pieces) at h))
      | inr (found, e') ↦
          let (split, len) = fread_inv 13 s buf t e in
          let old : ℕ × Size × List ℕ = (zlib.crc32 crc buf, found, t) in
          let new : ℕ × Size × List ℕ = (crc', size', rest) in
          let same : old ≡ new = some_inj (rw (e, e', pieces) at h) in
          (
            buf,
            (
              split ∙ ap (λ (r : ℕ × Size × List ℕ). buf ++ r.2) same,
              len,
              sym (ap (λ (r : ℕ × Size × List ℕ). r.0) same),
            ),
            e' ∙ ap (λ (r : ℕ × Size × List ℕ). some r.1) same,
          )
    ]
  ]

  -- The size is the header's if the chunk is one, and stays else.
  abbrev pub SizeOf : Bool → List ℕ → Size → Size → Type 0
  SizeOf false bytes size size' = size' ≡ size
  SizeOf true bytes size size' = header_size bytes ≡ some size'

  pub all_pieces :
      (ihdr : Bool) (crc n : ℕ) (size : Size) (s : List ℕ) (crc' : ℕ) (size' : Size) (rest : List ℕ)
      → (ihdr ≡ true → n ≡ 13)
      → pieces zlib n ihdr crc n size s ≡ some (crc', size', rest)
      → (bytes : List ℕ) × HasRead s rest n crc crc' bytes × SizeOf ihdr bytes size size'
  all_pieces false crc n size s crc' size' rest len h =
      pieces_inv n crc n size s crc' size' rest (omega arith) h
  all_pieces true crc n size s crc' size' rest len h =
      let e = len refl in
      let (bytes, has, says) = header_pieces crc size s crc' size' rest (rw e at h) in
      (bytes, subst (λ k. HasRead s rest k crc crc' bytes) (sym e) has, says)
