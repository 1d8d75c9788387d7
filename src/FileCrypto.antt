-- ===== src/FileCrypto.antt =====
-- source/shared/enil_crypto.c: the encryption of uploaded and downloaded files, over OpenSSL's HMAC and
-- AES-CTR. A NULL argument only returns -1 and is left out.
use enil.Common.{
  ℕ, zero, suc, ◌+◌, ◌-◌, ◌%◌, ◌^◌, ◌<◌, ◌≡◌, Bool, true, not, Option, none, some, List, [], ◌∷◌,
  ◌++◌, ltb, ◌==◌, if◌then◌else◌, length, take, drop,
}
use enil.Common.Int.{ℤ, pos, of_i32}
use enil.Common.Text.{codes, text_eq}
pub mod Keys
pub mod Inverse
mod Runs

-- HMAC-SHA256 of a key and a text; AES-256-CTR of a key, a counter block and a text. The laws are the
-- sizes that OpenSSL documents, and that the counter mode is its own inverse. `crypt`: what the calls for a
-- cipher make of a memory and the length they are given, an int, which is `ctr` for the length that it has, if
-- `ready`, which says that the context is there and the calls succeed; `rand_bytes`: what `RAND_bytes` answers for a size.
pub record OpenSsl : Type 0 where
  pub hmac : List ℕ → List ℕ → List ℕ
  pub ctr : List ℕ → List ℕ → List ℕ → List ℕ
  pub ready : Bool
  pub crypt : List ℕ → List ℕ → List ℕ → ℤ → Option (List ℕ)
  pub rand_bytes : ℕ → Option (List ℕ)
  pub hmac_length : (k s : List ℕ) → length (hmac k s) ≡ 32
  pub crypt_lem :
      (k c s : List ℕ)
      → length s < 2 ^ 31
      → crypt k c s (pos (length s)) ≡ (if ready then some (ctr k c s) else none)
  pub ctr_length : (k c s : List ℕ) → length (ctr k c s) ≡ length s
  pub ctr_twice : (k c s : List ℕ) → ctr k c (ctr k c s) ≡ s

abbrev pub replicate : ℕ → ℕ → List ℕ
replicate zero x = []
replicate (suc n) x = x ∷ replicate n x

abbrev pub file_km_len : ℕ
file_km_len = 32

abbrev pub file_tag_len : ℕ
file_tag_len = 32

abbrev pub min_32 : ℕ → ℕ
min_32 n = if ltb 32 n then 32 else n

-- `enc_key`, `mac_key` and `nonce`
pub record FileKeys : Type 0 where
  pub enc_key : List ℕ
  pub mac_key : List ℕ
  pub nonce : List ℕ

module _ (ssl : OpenSsl) where
  -- The loop of `file_hkdf`, on fuel: `left` is out_len - written, and a round writes a byte at least.
  unfoldable pub hkdf_loop : ℕ → List ℕ → List ℕ → ℕ → ℕ → List ℕ
  hkdf_loop zero prk t_prev counter left = []
  hkdf_loop (suc fuel) prk t_prev counter left =
      let t = ssl.hmac prk (t_prev ++ (codes "FileEncryption" ++ (counter ∷ []))) in
      let rest = hkdf_loop fuel prk t ((counter + 1) % 256) (left - min_32 left) in
      if left == 0 then [] else (take (min_32 left) t ++ rest)

  unfoldable pub file_hkdf : List ℕ → ℕ → List ℕ
  unfolding hkdf_loop
  file_hkdf ikm out_len = hkdf_loop out_len (ssl.hmac (replicate 32 0) ikm) [] 1 out_len

  unfoldable pub file_derive_keys : List ℕ → FileKeys
  file_derive_keys km =
      let out = file_hkdf km 76 in
      record {
        enc_key = take 32 out;
        mac_key = take 32 (drop 32 out);
        nonce = take 12 (drop 64 out);
      }

  -- `grants` says which sizes `malloc` provides.
  unfoldable pub file_ctr_crypt : (ℕ → Bool) → List ℕ → List ℕ → List ℕ → Option (List ℕ)
  unfolding of_i32
  file_ctr_crypt grants enc_key nonce s =
      if not (grants (if length s == 0 then 1 else length s))
      then none
      else ssl.crypt enc_key (nonce ++ replicate 4 0) s (of_i32 (length s))

  abbrev with_tag : (ℕ → Bool) → List ℕ → Option (List ℕ) → Option (List ℕ)
  with_tag grants mac_key none = none
  with_tag grants mac_key (some cipher) =
      if grants (length cipher + file_tag_len)
      then some (cipher ++ ssl.hmac mac_key cipher)
      else none

  unfoldable pub enil_crypto_file_encrypt_with_km : (ℕ → Bool) → List ℕ → List ℕ → Option (List ℕ)
  unfolding file_ctr_crypt
  enil_crypto_file_encrypt_with_km grants plain km =
      let keys = file_derive_keys km in
      with_tag grants keys.mac_key (file_ctr_crypt grants keys.enc_key keys.nonce plain)

  -- The key material drawn, and the file.
  unfoldable pub enil_crypto_file_encrypt : (ℕ → Bool) → List ℕ → Option (List ℕ × List ℕ)
  unfolding enil_crypto_file_encrypt_with_km
  enil_crypto_file_encrypt grants plain = elim (ssl.rand_bytes file_km_len) [
    | none ↦ none
    | some km ↦ elim (enil_crypto_file_encrypt_with_km grants plain km) [
      | none ↦ none
      | some enc ↦ some (km, enc)
    ]
  ]

  -- The file split into ciphertext and tag.
  unfoldable pub open_file : (ℕ → Bool) → FileKeys → List ℕ → List ℕ → Option (List ℕ)
  unfolding file_ctr_crypt
  open_file grants keys cipher tag =
      if text_eq (ssl.hmac keys.mac_key cipher) tag
      then file_ctr_crypt grants keys.enc_key keys.nonce cipher
      else none

  unfoldable pub enil_crypto_file_decrypt : (ℕ → Bool) → List ℕ → List ℕ → Option (List ℕ)
  unfolding open_file
  enil_crypto_file_decrypt grants km enc =
      let ct_len = length enc - file_tag_len in
      if ltb (length enc) file_tag_len
      then none
      else open_file grants (file_derive_keys km) (take ct_len enc) (drop ct_len enc)
