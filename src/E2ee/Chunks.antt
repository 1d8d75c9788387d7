-- ===== src/E2ee/Chunks.antt =====
-- source/shared/enil_line.c and source/shared/enil_sync.c: what is cut for sending is joined again by a
-- receiver, with the key numbers of both sides.
use enil.Common.{
  ℕ, ◌+◌, ◌*◌, ◌/◌, ◌^◌, ◌≤◌, ◌<◌, ◌≡◌, refl, sym, ap, ◌∙◌, Bool, true, some, List, [], ◌∷◌, ◌++◌,
  arith, ltb, length, take, drop, get_elem?, take-append-drop, drop-drop, length-take, length-drop,
  Bool-cases, inl, inr,
}
use enil.Common.Int.{ℤ, pos, of_u64, of_i32-pos}
use enil.Common.Text.{Text}
use enil.Common.Json.{Children, Cjson, ArrayLaws, string, array, nil, node}
use enil.B64.{Evp, enil_b64_encode}
use enil.B64.Inverse.{EvpLaws, IsSmall, encoding, decode-encode_block, decode_alloc-encode_block}
use enil.E2ee.{
  key_bytes, big_endian, split_v2_ciphertext, cut, parse_key_id, join_chunks, build_ciphertext,
}

-- The chunks as the JSON array of a message.
abbrev pub chunk_nodes : List Text → Children
chunk_nodes [] = nil
chunk_nodes (c ∷ cs) = node [] (string c) (chunk_nodes cs)

big_endian-key_bytes :
    (k : ℕ) → k < 2 ^ 31 → of_u64 (big_endian 0 (take 32 (key_bytes (pos k)))) ≡ pos k
unfolding key_bytes big_endian
big_endian-key_bytes k h =
    let e : big_endian 0 (take 32 (key_bytes (pos k))) ≡ k = omega arith in rw e (ground arith)

pieces : (raw : List ℕ) → take 16 raw ++ (take 12 (drop 16 raw) ++ drop 28 raw) ≡ raw
pieces raw =
    ap (λ (t : List ℕ). take 16 raw ++ (take 12 (drop 16 raw) ++ t)) (sym (drop-drop 16 12 raw))
    ∙ (ap (λ (t : List ℕ). take 16 raw ++ t) (take-append-drop 12 (drop 16 raw))
        ∙ take-append-drop 16 raw)

module _ (evp : Evp) (laws : EvpLaws evp) (grants : ℕ → Bool)
    (all : (n : ℕ) → grants n ≡ true) where
  encoded : (s : List ℕ) → length s < 2 ^ 31 → enil_b64_encode evp grants s ≡ some (encoding evp s)
  unfolding enil_b64_encode
  encoded s small =
      rw (all ((length s + 2) / 3 * 4 + 1))
        (ap (λ n. some (evp.encode_block s n)) (of_i32-pos (length s) small))

  abbrev five : List ℕ → ℤ → ℤ → List Text
  five raw s r =
      encoding evp (take 16 raw)
      ∷ encoding evp (drop 28 raw)
      ∷ encoding evp (take 12 (drop 16 raw))
      ∷ encoding evp (key_bytes s)
      ∷ encoding evp (key_bytes r)
      ∷ []

  -- The parts are as small as the whole.
  first-IsSmall : (n : ℕ) (raw : List ℕ) → IsSmall raw → IsSmall (take n raw)
  first-IsSmall n raw small = ground (arith, length-take n raw, small)

  last-IsSmall : (n : ℕ) (raw : List ℕ) → IsSmall raw → IsSmall (drop n raw)
  last-IsSmall n raw small = omega (arith, length-drop n raw, small)

  short : (s : List ℕ) → IsSmall s → length s < 2 ^ 31
  short s small = omega (arith, small)

  length-key_bytes : (k : ℤ) → length (key_bytes k) ≡ 4
  unfolding key_bytes
  length-key_bytes k = refl

  cut-five : (raw : List ℕ) (s r : ℤ) → IsSmall raw → cut evp grants raw s r ≡ some (five raw s r)
  cut-five raw s r small =
      rw
        (
          encoded (take 16 raw) (short _ (first-IsSmall 16 raw small)),
          encoded (drop 28 raw) (short _ (last-IsSmall 28 raw small)),
          encoded (take 12 (drop 16 raw))
              (short _ (first-IsSmall 12 (drop 16 raw) (last-IsSmall 16 raw small))),
          encoded (key_bytes s) (omega (arith, length-key_bytes s)),
          encoded (key_bytes r) (omega (arith, length-key_bytes r)),
        )
        refl

  split-five :
      (raw : List ℕ) (s r : ℤ)
      → 29 ≤ length raw
      → IsSmall raw
      → split_v2_ciphertext evp grants (encoding evp raw) s r ≡ some (five raw s r)
  unfolding split_v2_ciphertext
  split-five raw s r long small =
      rw (split_v2_ciphertext, decode_alloc-encode_block evp laws grants raw small all)
        (elim (Bool-cases (ltb (length raw) 29)) [
          | inl short ↦ absurd (ground (arith, short, long))
          | inr long' ↦ rw long' (cut-five raw s r small)
        ])

  join-five :
      (raw : List ℕ)
      → IsSmall raw
      → join_chunks evp grants 2
          (some (encoding evp (take 16 raw)))
          (some (encoding evp (drop 28 raw)))
          (some (encoding evp (take 12 (drop 16 raw))))
        ≡ some (encoding evp raw)
  unfolding join_chunks
  join-five raw small =
      rw
        (
          decode-encode_block evp laws (take 16 raw) (first-IsSmall 16 raw small),
          decode-encode_block evp laws (drop 28 raw) (last-IsSmall 28 raw small),
          decode-encode_block evp laws (take 12 (drop 16 raw))
              (first-IsSmall 12 (drop 16 raw) (last-IsSmall 16 raw small)),
          all (
              (length (encoding evp (take 16 raw))
                  + length (encoding evp (drop 28 raw))
                  + length (encoding evp (take 12 (drop 16 raw))))
                * 3
                / 4
              + 4),
        )
        (ap (enil_b64_encode evp grants) (pieces raw) ∙ encoded raw (short raw small))

  parse-key_bytes :
      (k : ℕ) → k < 2 ^ 31 → parse_key_id evp (some (encoding evp (key_bytes (pos k)))) ≡ pos k
  unfolding parse_key_id
  parse-key_bytes k h =
      rw
        (
          parse_key_id,
          decode-encode_block evp laws (key_bytes (pos k))
              (omega (arith, length-key_bytes (pos k))),
        )
        (big_endian-key_bytes k h)

  build-five :
      (cjson : Cjson)
      → ArrayLaws cjson
      → (raw : List ℕ) (s r : ℤ) → IsSmall raw
      → build_ciphertext evp grants cjson (array (chunk_nodes (five raw s r))) 2
        ≡ some (encoding evp raw)
  unfolding build_ciphertext
  build-five cjson arrays raw s r small =
      let kids = chunk_nodes (five raw s r) in
      rw
        (
          arrays.get_array_size_lem kids,
          arrays.get_array_item_lem kids 0,
          arrays.get_array_item_lem kids 1,
          arrays.get_array_item_lem kids 2,
        )
        (join-five raw small)

  -- With memory granted, base64 as documented and a cJSON array of the chunks: an encrypted
  -- message of 29 bytes or more, whose base64 is below 2^31 bytes, is cut into five chunks,
  -- build_ciphertext gives back the message from them in version 2, and parse_key_id gives back
  -- both key ids below 2^31.
  pub build_ciphertext-split :
      (cjson : Cjson)
      → ArrayLaws cjson
      → (raw : List ℕ) (sender receiver : ℕ) → 29 ≤ length raw
      → (length raw + 2) / 3 * 4 < 2 ^ 31
      → sender < 2 ^ 31
      → receiver < 2 ^ 31
      → (chunks : List Text) × (split_v2_ciphertext evp grants
            (encoding evp raw)
            (pos sender)
            (pos receiver)
          ≡ some chunks)
        × (build_ciphertext evp grants cjson (array (chunk_nodes chunks)) 2
            ≡ some (encoding evp raw))
        × (parse_key_id evp (get_elem? chunks 3) ≡ pos sender)
        × (parse_key_id evp (get_elem? chunks 4) ≡ pos receiver)
  build_ciphertext-split cjson arrays raw sender receiver long small s r = (
    five raw (pos sender) (pos receiver),
    split-five raw (pos sender) (pos receiver) long small,
    build-five cjson arrays raw (pos sender) (pos receiver) small,
    parse-key_bytes sender s,
    parse-key_bytes receiver r,
  )
