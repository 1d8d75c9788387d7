-- ===== src/B64.antt =====
-- source/shared/enil_b64.c: base64 over OpenSSL's block functions.
use enil.Common.{
  ℕ, ◌+◌, ◌-◌, ◌*◌, ◌/◌, ◌%◌, Bool, Option, none, some, List, length, take, get_or, ltb, ◌==◌,
  if◌then◌else◌,
}
use enil.Common.Int.{ℤ, of_i32}
use enil.Common.Text.{Text}
pub mod Inverse
pub mod Runs

-- OpenSSL's `EVP_EncodeBlock` and `EVP_DecodeBlock` of a memory and the length that they are given, which is
-- an int; `none` is below 0. The decoder writes three bytes for every four characters, those of the padding
-- included.
pub record Evp : Type 0 where
  pub encode_block : List ℕ → ℤ → Text
  pub decode_block : Text → ℤ → Option (List ℕ)

module _ (evp : Evp) where
  -- The true bytes of the first `n4` characters: one byte less for each `=` at their end.
  unfoldable pub evp_decode_exact : Text → ℕ → Option (List ℕ)
  unfolding of_i32
  evp_decode_exact s n4 =
      if n4 == 0 then some (take 0 s) else elim (evp.decode_block (take n4 s) (of_i32 n4)) [
        | none ↦ none
        | some out ↦
            let pads =
              (if get_or s (n4 - 1) 0 == b'=' then 1 else 0)
              + (if get_or s (n4 - 2) 0 == b'=' then 1 else 0) in
            if ltb (length out) pads then none else some (take (length out - pads) out)
      ]

  -- `grants` says whether `malloc` provides a size.
  unfoldable pub enil_b64_encode : (ℕ → Bool) → List ℕ → Option Text
  unfolding of_i32
  enil_b64_encode grants s =
      if grants ((length s + 2) / 3 * 4 + 1)
      then some (evp.encode_block s (of_i32 (length s)))
      else none

  -- A trailing partial group is ignored.
  unfoldable pub enil_b64_decode : Text → Option (List ℕ)
  unfolding evp_decode_exact
  enil_b64_decode s = evp_decode_exact s (length s - length s % 4)

  unfoldable pub enil_b64_decode_alloc : (ℕ → Bool) → Text → Option (List ℕ)
  unfolding evp_decode_exact
  enil_b64_decode_alloc grants s =
      if length s % 4 == 0
      then (if grants (length s / 4 * 3 + 1) then evp_decode_exact s (length s) else none)
      else none
