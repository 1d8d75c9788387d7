-- ===== src/E2ee.antt =====
-- source/shared/enil_line.c and source/shared/enil_sync.c: the five chunks of an encrypted message, as
-- they are cut for sending and joined after receiving.
use enil.Common.{
  ℕ, ◌+◌, ◌-◌, ◌*◌, ◌/◌, ◌%◌, ◌^◌, Bool, true, false, not, ◌||◌, Option, none, some, List, [], ◌∷◌,
  ◌++◌, ltb, ◌==◌, if◌then◌else◌, length, take, drop,
}
use enil.Common.Int.{ℤ, pos, to_u64, of_u64}
use enil.Common.Text.{Text}
use enil.Common.Json.{Json, Cjson, is_array, string_value}
use enil.B64.{Evp, enil_b64_encode, enil_b64_decode, enil_b64_decode_alloc}
pub mod Chunks
mod Runs

-- The four bytes of an `int`, the highest first.
unfoldable pub key_bytes : ℤ → List ℕ
key_bytes k =
    let w = to_u64 k % 2 ^ 32 in
    (w / 2 ^ 24 % 256) ∷ (w / 2 ^ 16 % 256) ∷ (w / 2 ^ 8 % 256) ∷ (w % 256) ∷ []

abbrev pub all_five :
    Option Text → Option Text → Option Text → Option Text → Option Text → Option (List Text)
all_five (some a) (some b) (some c) (some d) (some e) = some (a ∷ b ∷ c ∷ d ∷ e ∷ [])
all_five _ _ _ _ _ = none

-- `out = out * 256 + buf[i]` over the bytes, on the 64 bits of a `long long`.
unfoldable pub big_endian : ℕ → List ℕ → ℕ
big_endian out [] = out
big_endian out (b ∷ s) = big_endian ((out * 256 + b) % 2 ^ 64) s

-- At most 32 bytes are read.
unfoldable pub parse_key_id : Evp → Option Text → ℤ
unfolding big_endian
parse_key_id evp none = pos 0
parse_key_id evp (some chunk) = elim (enil_b64_decode evp chunk) [
  | none ↦ pos 0
  | some bytes ↦ of_u64 (big_endian 0 (take 32 bytes))
]

module _ (evp : Evp) (grants : ℕ → Bool) where
  abbrev pub encode : List ℕ → Option Text
  encode s = enil_b64_encode evp grants s

  abbrev pub cut : List ℕ → ℤ → ℤ → Option (List Text)
  cut raw sender_key_id receiver_key_id =
      all_five (encode (take 16 raw)) (encode (drop 28 raw)) (encode (take 12 (drop 16 raw)))
        (encode (key_bytes sender_key_id)) (encode (key_bytes receiver_key_id))

  -- `none` is the result 0, with no chunk left.
  unfoldable pub split_v2_ciphertext : Text → ℤ → ℤ → Option (List Text)
  split_v2_ciphertext b64 sender_key_id receiver_key_id =
      elim (enil_b64_decode_alloc evp grants b64) [
        | none ↦ none
        | some raw ↦ if ltb (length raw) 29 then none else cut raw sender_key_id receiver_key_id
      ]

  abbrev pub joined : Option (List ℕ) → Option (List ℕ) → Option (List ℕ) → Option Text
  joined (some a) (some b) (some c) = encode (a ++ (b ++ c))
  joined _ _ _ = none

  -- The three texts, in the order of their version.
  unfoldable pub join_chunks : ℕ → Option Text → Option Text → Option Text → Option Text
  join_chunks version (some c0) (some c1) (some c2) =
      let n0 = enil_b64_decode evp c0 in
      let n1 = enil_b64_decode evp c1 in
      let n2 = enil_b64_decode evp c2 in
      if not (grants ((length c0 + length c1 + length c2) * 3 / 4 + 4))
      then none
      else if version == 1
      then joined n0 n1 n2
      else joined n0 n2 n1
  join_chunks version _ _ _ = none

  unfoldable pub build_ciphertext : Cjson → Json → ℕ → Option Text
  unfolding join_chunks
  build_ciphertext cjson chunks version =
      if not (is_array chunks) || ltb (cjson.get_array_size chunks) 3
      then none
      else join_chunks version (string_value (cjson.get_array_item chunks 0))
          (string_value (cjson.get_array_item chunks 1))
          (string_value (cjson.get_array_item chunks 2))
