-- ===== src/B64/Inverse.antt =====
-- source/shared/enil_b64.c: the decoders undo the encoder.
use enil.Common.{
  ℕ, ◌+◌, ◌-◌, ◌*◌, ◌/◌, ◌%◌, ◌≡◌, refl, sym, ap, ◌∙◌, Bool, true, some, List, [], ◌∷◌, ◌++◌, arith,
  leb, ltb, ◌<◌, ◌^◌, false, ◌==◌, if◌then◌else◌, length, get_or, take-length, take-append,
  length-append, get_or-append, append_assoc, Bool-cases, inl, inr, ==_iff,
}
use enil.Common.Int.{pos, of_i32, of_i32-pos}
use enil.Common.Text.{Text}
use enil.B64.{Evp, evp_decode_exact, enil_b64_encode, enil_b64_decode, enil_b64_decode_alloc}

-- How many bytes the last group lacks.
abbrev pub pad : List ℕ → ℕ
pad s = (3 - length s % 3) % 3

abbrev pub pad_zeros : ℕ → List ℕ
pad_zeros n = if n == 0 then [] else if n == 1 then (0 ∷ []) else (0 ∷ 0 ∷ [])

-- What OpenSSL documents of its block functions: four characters for every three bytes, `=` in the
-- place of missing bytes and at no other end, and a decoder that writes a zero for each of these.
-- A text whose base64 has a length that an int holds.
abbrev pub IsSmall : List ℕ → Type 0
IsSmall s = (length s + 2) / 3 * 4 < 2 ^ 31

-- The base64 of a text, with the length that it has.
abbrev pub encoding : Evp → List ℕ → Text
encoding evp s = evp.encode_block s (pos (length s))

pub record EvpLaws (evp : Evp) : Type 0 where
  pub encode_length : (s : List ℕ) → IsSmall s → length (encoding evp s) ≡ (length s + 2) / 3 * 4
  pub encode_end :
      (x : ℕ) (s : List ℕ)
      → IsSmall (x ∷ s)
      → (u : List ℕ) × (c : ℕ) × (d : ℕ) × (encoding evp (x ∷ s) ≡ u ++ (c ∷ d ∷ []))
        × ((c == b'=') ≡ leb 2 (pad (x ∷ s)))
        × ((d == b'=') ≡ leb 1 (pad (x ∷ s)))
  pub decode_encode :
      (s : List ℕ)
      → IsSmall s
      → evp.decode_block (encoding evp s) (pos (length (encoding evp s)))
        ≡ some (s ++ pad_zeros (pad s))

length-pad_zeros : (n : ℕ) → length (pad_zeros (n % 3)) ≡ n % 3
length-pad_zeros n = ground arith

last : (u : List ℕ) (c d : ℕ) → get_or (u ++ (c ∷ d ∷ [])) (length (u ++ (c ∷ d ∷ [])) - 1) 0 ≡ d
last u c d =
    let split : u ++ (c ∷ d ∷ []) ≡ (u ++ (c ∷ [])) ++ (d ∷ []) =
      sym (append_assoc u (c ∷ []) (d ∷ [])) in
    let size : length ((u ++ (c ∷ [])) ++ (d ∷ [])) - 1 ≡ length (u ++ (c ∷ [])) =
      omega (arith, length-append (u ++ (c ∷ [])) (d ∷ [])) in
    rw (split, size) (get_or-append (u ++ (c ∷ [])) d [] 0)

last_but_one :
    (u : List ℕ) (c d : ℕ) → get_or (u ++ (c ∷ d ∷ [])) (length (u ++ (c ∷ d ∷ [])) - 2) 0 ≡ c
last_but_one u c d =
    let size : length (u ++ (c ∷ d ∷ [])) - 2 ≡ length u =
      omega (arith, length-append u (c ∷ d ∷ [])) in
    rw size (get_or-append u c (d ∷ []) 0)

-- The number of `=` among the last two characters.
ends_with : ℕ → ℕ → ℕ
ends_with d c = (if d == b'=' then 1 else 0) + (if c == b'=' then 1 else 0)

ends_with-pad :
    (c d n : ℕ) → (c == b'=') ≡ leb 2 (n % 3) → (d == b'=') ≡ leb 1 (n % 3) → ends_with d c ≡ n % 3
unfolding ends_with
ends_with-pad c d n hc hd = ground (arith, hc, hd)

module _ (evp : Evp) (laws : EvpLaws evp) where
  -- The padding that `evp_decode_exact` takes off.
  ends_with-encode :
      (x : ℕ) (s : List ℕ)
      → IsSmall (x ∷ s)
      → ends_with
          (get_or (encoding evp (x ∷ s)) (length (encoding evp (x ∷ s)) - 1) 0)
          (get_or (encoding evp (x ∷ s)) (length (encoding evp (x ∷ s)) - 2) 0)
        ≡ pad (x ∷ s)
  ends_with-encode x s small =
      let (u, c, d, e, hc, hd) = laws.encode_end x s small in
      rw (e, last u c d, last_but_one u c d) (ends_with-pad c d (3 - length (x ∷ s) % 3) hc hd)

  exact :
      (s : List ℕ)
      → IsSmall s
      → evp_decode_exact evp (encoding evp s) (length (encoding evp s)) ≡ some s
  unfolding evp_decode_exact ends_with
  exact [] small =
      let e : length (encoding evp []) ≡ 0 = omega (arith, laws.encode_length [] small) in rw e refl
  exact (x ∷ s) small =
      let t = encoding evp (x ∷ s) in
      let size = laws.encode_length (x ∷ s) small in
      let whole : length ((x ∷ s) ++ pad_zeros (pad (x ∷ s))) - pad (x ∷ s) ≡ length (x ∷ s) =
        omega (
          arith,
          length-append (x ∷ s) (pad_zeros (pad (x ∷ s))),
          length-pad_zeros (3 - length (x ∷ s) % 3),
        ) in
      let enough : ltb (length ((x ∷ s) ++ pad_zeros (pad (x ∷ s)))) (pad (x ∷ s)) ≡ false =
        ground (
          arith,
          length-append (x ∷ s) (pad_zeros (pad (x ∷ s))),
          length-pad_zeros (3 - length (x ∷ s) % 3),
        ) in
      elim (Bool-cases (length t == 0)) [
        | inl zero_length ↦ absurd (ground (arith, zero_length, size))
        | inr some_length ↦
            rw
              (
                some_length,
                take-length (length t) t (omega arith),
                of_i32-pos (length t) (omega (arith, size, small)),
                laws.decode_encode (x ∷ s) small,
                ends_with-encode x s small,
                enough,
                whole,
                take-append (x ∷ s) (pad_zeros (pad (x ∷ s))),
              )
              refl
      ]

  pub decode-encode_block : (s : List ℕ) → IsSmall s → enil_b64_decode evp (encoding evp s) ≡ some s
  unfolding enil_b64_decode
  decode-encode_block s small =
      let t = encoding evp s in
      let size = laws.encode_length s small in
      let groups : length t - length t % 4 ≡ length t = omega arith in
      ap (evp_decode_exact evp t) groups ∙ exact s small

  pub decode_alloc-encode_block :
      (grants : ℕ → Bool) (s : List ℕ)
      → IsSmall s
      → ((n : ℕ) → grants n ≡ true)
      → enil_b64_decode_alloc evp grants (encoding evp s) ≡ some s
  unfolding enil_b64_decode_alloc
  decode_alloc-encode_block grants s small all =
      let t = encoding evp s in
      let size = laws.encode_length s small in
      let groups : length t % 4 ≡ 0 = omega arith in
      rw ((==_iff (length t % 4) 0).1 groups, all (length t / 4 * 3 + 1)) (exact s small)

  -- With block functions as OpenSSL documents them and memory granted, both decoders give back
  -- the bytes that enil_b64_encode was given, if their base64 is below 2^31 bytes.
  pub b64_decode-encode :
      (grants grants' : ℕ → Bool) (s : List ℕ) (t : Text)
      → (length s + 2) / 3 * 4 < 2 ^ 31
      → enil_b64_encode evp grants s ≡ some t
      → ((n : ℕ) → grants' n ≡ true)
      → (enil_b64_decode evp t ≡ some s) × (enil_b64_decode_alloc evp grants' t ≡ some s)
  unfolding enil_b64_encode
  b64_decode-encode grants grants' s t small h all =
      let given : evp.encode_block s (of_i32 (length s)) ≡ t = ground (arith, h) in
      let e : encoding evp s ≡ t =
        ap (evp.encode_block s) (sym (of_i32-pos (length s) (omega (arith, small)))) ∙ given in
      (
        ap (enil_b64_decode evp) (sym e) ∙ decode-encode_block s small,
        ap (enil_b64_decode_alloc evp grants') (sym e)
            ∙ decode_alloc-encode_block grants' s small all,
      )
