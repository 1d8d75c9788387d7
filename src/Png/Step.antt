-- ===== src/Png/Step.antt =====
-- source/shared/enil_png.c: what a round of the loop over chunks has read.
use enil.Common.{
  ℕ, suc, ◌≤◌, ◌≡◌, refl, sym, ap, ◌∙◌, Bool, true, false, not, ◌&&◌, ◌||◌, Option, none, some,
  List, [], ◌∷◌, ◌++◌, ltb, ◌==◌, length, take, drop, arith, inl, inr, ◌⊎◌, Bool-cases,
  Option-cases, ==_iff, some_inj, take-append-drop, length-take, length-drop, append_assoc,
}
use enil.Common.Text.{Text, codes, text_eq}
use enil.Png.{
  Zlib, Size, Found, Round, go, stop, int_max, be32, fread, pieces, out_of_place, at_end,
  next_chunk, checksum, on_chunk, chunks,
}
use enil.Png.Chunk.{fread_inv, HasRead, SizeOf, all_pieces}

-- What the guards let through.
pub placed :
    (len : ℕ) (ihdr iend seen data_seen : Bool)
    → (ltb int_max len
        || ((not seen && not ihdr)
            || ((ihdr && (seen || not (len == 13)))
                || (iend && (not (len == 0) || not data_seen)))))
      ≡ false
    → (len ≤ int_max)
      × (ihdr ≡ true → (seen ≡ false) × (len ≡ 13))
      × (seen ≡ false → ihdr ≡ true)
      × (iend ≡ true → (len ≡ 0) × (data_seen ≡ true))
placed len ihdr iend seen data_seen h = (
  ground (arith, h),
  (λ e. (ground (arith, h, e), ground (arith, h, e))),
  (λ e. ground (arith, h, e)),
  λ e. (ground (arith, h, e), ground (arith, h, e)),
)

be32-take : (s : List ℕ) → be32 (take 4 s) ≡ be32 s
unfolding be32
be32-take [] = refl
be32-take (a ∷ []) = refl
be32-take (a ∷ b ∷ []) = refl
be32-take (a ∷ b ∷ c ∷ []) = refl
be32-take (a ∷ b ∷ c ∷ d ∷ s) = refl

four_parts : (a b c d e : List ℕ) → (a ++ (b ++ (c ++ d))) ++ e ≡ a ++ (b ++ (c ++ (d ++ e)))
four_parts a b c d e =
    append_assoc a (b ++ (c ++ d)) e
    ∙ ap (λ t. a ++ t) (append_assoc b (c ++ d) e ∙ ap (λ t. b ++ t) (append_assoc c d e))

module _ (zlib : Zlib) where
  -- A chunk as the standard has it: length, type, body, and the checksum of type and body.
  pub record IsChunk (type body bytes : List ℕ) : Type 0 where
    pub len : List ℕ
    pub sum : List ℕ
    pub parts : bytes ≡ len ++ (type ++ (body ++ sum))
    pub type_length : length type ≡ 4
    pub len_length : length len ≡ 4
    pub len_value : be32 len ≡ length body
    pub sum_length : length sum ≡ 4
    pub sum_value : be32 sum ≡ zlib.crc32 0 (type ++ body)
    pub bounded : length body ≤ int_max

  abbrev is_ihdr : List ℕ → Bool
  is_ihdr header = text_eq (drop 4 header) (codes "IHDR")

  -- A chunk that was read, and what the round makes of it.
  abbrev Read : Bool → Found → List ℕ → List ℕ → Round → Type 0
  Read read_error f header s r =
      (body : List ℕ) × (bytes : List ℕ) × (size' : Size) × (rest : List ℕ) × (header ++ s
        ≡ bytes ++ rest)
      × IsChunk (drop 4 header) body bytes
      × (out_of_place f (drop 4 header) (length body) ≡ false)
      × SizeOf zlib (is_ihdr header) body f.size size'
      × (r ≡ next_chunk read_error f (drop 4 header) (length body) size' rest)

  summed :
      (read_error : Bool) (f : Found) (header s body t : List ℕ) (crc : ℕ) (size' : Size)
      (r : Round)
      → length header ≡ 8
      → be32 header ≡ length body
      → out_of_place f (drop 4 header) (length body) ≡ false
      → HasRead zlib s t (length body) (zlib.crc32 0 (drop 4 header)) crc body
      → SizeOf zlib (is_ihdr header) body f.size size'
      → checksum zlib read_error f (drop 4 header) (length body) (some (crc, size', t)) ≡ r
      → (r ≡ stop none) ⊎ Read read_error f header s r
  unfolding out_of_place
  summed read_error f header s body t crc size' r eight len place (split, n, crc_eq) says h =
      elim (Option-cases (fread 4 t)) [
        | inl short ↦ inl (sym (rw (short, checksum) at h))
        | inr ((sum, rest), e) ↦ elim (Bool-cases (be32 sum == crc)) [
          | inr other ↦ inl (sym (rw (e, other, checksum) at h))
          | inl same ↦
              let (split', four) = fread_inv 4 t sum rest e in
              let type = drop 4 header in
              let bound =
                placed (length body) (text_eq type (codes "IHDR")) (text_eq type (codes "IEND"))
                  f.seen_header f.seen_data place in
              inr (
                body,
                take 4 header ++ (type ++ (body ++ sum)),
                size',
                rest,
                ap (λ u. u ++ s) (sym (take-append-drop 4 header))
                    ∙ append_assoc (take 4 header) type s
                    ∙ ap (λ u. take 4 header ++ (type ++ u)) (split ∙ ap (λ u. body ++ u) split')
                    ∙ sym (four_parts (take 4 header) type body sum rest),
                record {
                  len = take 4 header;
                  sum = sum;
                  parts = refl;
                  type_length = omega (arith, length-drop 4 header, eight);
                  len_length = omega (arith, length-take 4 header, eight);
                  len_value = be32-take header ∙ len;
                  sum_length = four;
                  sum_value =
                      (==_iff (be32 sum) crc).0 same ∙ crc_eq ∙ zlib.crc32_append 0 type body;
                  bounded = bound.0;
                },
                place,
                says,
                sym (rw (e, same, checksum) at h),
              )
        ]
      ]

  pub chunk_inv :
      (read_error : Bool) (f : Found) (header s : List ℕ) (r : Round)
      → length header ≡ 8
      → on_chunk zlib read_error f header s ≡ r
      → (r ≡ stop none) ⊎ Read read_error f header s r
  unfolding on_chunk out_of_place
  chunk_inv read_error f header s r eight h =
      let len = be32 header in
      let type = drop 4 header in
      elim (Bool-cases (out_of_place f type len)) [
        | inl out ↦ inl (sym (rw (out, on_chunk) at h))
        | inr place ↦
            elim (Option-cases
              (pieces zlib len (is_ihdr header) (zlib.crc32 0 type) len f.size s)) [
                | inl short ↦ inl (sym (rw (place, short, on_chunk) at h))
                | inr ((crc, size', t), e) ↦
                    let bound =
                      placed len (is_ihdr header) (text_eq type (codes "IEND")) f.seen_header
                        f.seen_data place in
                    let (body, (split, n, sum), says) =
                      all_pieces zlib (is_ihdr header) (zlib.crc32 0 type) len f.size s crc size' t
                        (λ i. (bound.1 i).1) e in
                    let rest : checksum zlib read_error f type len (some (crc, size', t)) ≡ r =
                      rw (place, e, on_chunk) at h in
                    summed read_error f header s body t crc size' r eight (sym n)
                      (ap (out_of_place f type) n ∙ place) (split, refl, sum) says
                      (ap (λ k. checksum zlib read_error f type k (some (crc, size', t))) n ∙ rest)
              ]
      ]

  -- The state behind a chunk that is not the last.
  abbrev pub after : Found → Text → ℕ → Size → Found
  after f type len size' = record {
    size = size';
    seen_header = f.seen_header || text_eq type (codes "IHDR");
    seen_data = f.seen_data || (text_eq type (codes "IDAT") && not (len == 0));
  }

  -- The ways in which a chunk is followed.
  abbrev Follows : Found → Text → ℕ → Size → List ℕ → Round → Type 0
  Follows f type len size' rest r =
      (r ≡ stop none)
      ⊎ (((text_eq type (codes "IEND") ≡ true) × (rest ≡ []) × (r ≡ stop (some size')))
          ⊎ ((text_eq type (codes "IEND") ≡ false) × (r ≡ go (after f type len size') rest)))

  end_inv :
      (read_error : Bool) (f : Found) (type : Text) (len : ℕ) (size' : Size) (rest : List ℕ)
      (r : Round)
      → text_eq type (codes "IEND") ≡ true
      → r ≡ at_end read_error size' rest
      → Follows f type len size' rest r
  end_inv read_error f type len size' (c ∷ s) r iend h = inl h
  end_inv true f type len size' [] r iend h = inl h
  end_inv false f type len size' [] r iend h = inr (inl (iend, refl, h))

  pub next_inv :
      (read_error : Bool) (f : Found) (type : Text) (len : ℕ) (size' : Size) (rest : List ℕ)
      (r : Round)
      → r ≡ next_chunk read_error f type len size' rest
      → Follows f type len size' rest r
  unfolding next_chunk
  next_inv read_error f type len size' rest r h = elim (Bool-cases (text_eq type (codes "IEND"))) [
    | inr goes_on ↦ inr (inr (goes_on, rw (goes_on, next_chunk) at h))
    | inl iend ↦ end_inv read_error f type len size' rest r iend (rw (iend, next_chunk) at h)
  ]

  -- The answer of the loop from a round on.
  abbrev pub answer : ℕ → Bool → Round → Option Size
  answer fuel read_error (stop a) = a
  answer fuel read_error (go f s) = chunks zlib fuel read_error f s

  -- A chunk on the way to an answer: the last one, or one with others behind it.
  abbrev pub LeadsOn : ℕ → Bool → Found → List ℕ → Size → Type 0
  LeadsOn fuel read_error f s size =
      (type : Text) × (body : List ℕ) × (bytes : List ℕ) × (size' : Size) × (rest : List ℕ) × (s
        ≡ bytes ++ rest)
      × IsChunk type body bytes
      × (out_of_place f type (length body) ≡ false)
      × SizeOf zlib (text_eq type (codes "IHDR")) body f.size size'
      × (((text_eq type (codes "IEND") ≡ true) × (rest ≡ []) × (size' ≡ size))
          ⊎ ((text_eq type (codes "IEND") ≡ false)
              × (chunks zlib fuel read_error (after f type (length body) size') rest ≡ some size)))

  pub round_inv :
      (fuel : ℕ) (read_error : Bool) (f : Found) (header s : List ℕ) (size : Size)
      → length header ≡ 8
      → answer fuel read_error (on_chunk zlib read_error f header s) ≡ some size
      → LeadsOn fuel read_error f (header ++ s) size
  round_inv fuel read_error f header s size eight h =
      let r = on_chunk zlib read_error f header s in
      elim (chunk_inv read_error f header s r eight refl) [
        | inl bad ↦ absurd (cc (sym (ap (answer fuel read_error) bad) ∙ h))
        | inr (body, bytes, size', rest, split, chunk, place, says, e) ↦
            elim (next_inv read_error f (drop 4 header) (length body) size' rest r e) [
              | inl bad ↦ absurd (cc (sym (ap (answer fuel read_error) bad) ∙ h))
              | inr (inl (iend, over, e')) ↦ (
                drop 4 header,
                body,
                bytes,
                size',
                rest,
                split,
                chunk,
                place,
                says,
                inl (iend, over, some_inj (sym (ap (answer fuel read_error) e') ∙ h)),
              )
              | inr (inr (more, e')) ↦ (
                drop 4 header,
                body,
                bytes,
                size',
                rest,
                split,
                chunk,
                place,
                says,
                inr (more, sym (ap (answer fuel read_error) e') ∙ h),
              )
            ]
      ]

  pub answered :
      (fuel : ℕ) (read_error : Bool) (f : Found) (header t : List ℕ) (r : Round)
      → answer fuel read_error r
        ≡ elim r [ stop a ↦ a | go f' s' ↦ chunks zlib fuel read_error f' s' ]
  answered fuel read_error f header t (stop a) = refl
  answered fuel read_error f header t (go f' s') = refl

  pub chunks_inv :
      (fuel : ℕ) (read_error : Bool) (f : Found) (s : List ℕ) (size : Size)
      → chunks zlib (suc fuel) read_error f s ≡ some size
      → LeadsOn fuel read_error f s size
  unfolding chunks
  chunks_inv fuel read_error f s size h = elim (Option-cases (fread 8 s)) [
    | inl short ↦ absurd (cc (rw (short, chunks) at h))
    | inr ((header, t), e) ↦
        let (split, eight) = fread_inv 8 s header t e in
        let here : answer fuel read_error (on_chunk zlib read_error f header t) ≡ some size =
          answered fuel read_error f header t (on_chunk zlib read_error f header t)
          ∙ rw (e, chunks) at h in
        rw split (round_inv fuel read_error f header t size eight here)
  ]
