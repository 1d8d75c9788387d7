-- ===== src/FileCrypto/Runs.antt =====
-- Concrete functions in the place of OpenSSL, and the theorems at a concrete file.
use enil.Common.{ℕ, ◌≡◌, refl, true, none, some, List, [], ◌∷◌, length, take}
use enil.FileCrypto.{OpenSsl, replicate, file_derive_keys, enil_crypto_file_decrypt}
use enil.FileCrypto.Keys.{first_block, second_block, third_block, file_derive_keys_blocks}

-- A tag that repeats the text's length, and a cipher that leaves the text as it is.
abbrev plain_ssl : OpenSsl
plain_ssl = record {
  hmac = λ k s. replicate 32 (length s);
  ctr = λ k c s. s;
  ready = true;
  crypt = λ k c s n. some s;
  crypt_lem = λ k c s small. refl;
  rand_bytes = λ n. some (replicate n 7);
  hmac_length = λ k s. refl;
  ctr_length = λ k c s. refl;
  ctr_twice = λ k c s. refl;
}

abbrev small_file : List ℕ
small_file = 5 ∷ 6 ∷ 3 ∷ []

tampered : enil_crypto_file_decrypt plain_ssl (λ n. true) [] (small_file) ≡ none
unfolding enil_crypto_file_decrypt
tampered = refl

file_derive_keys_blocks_example : file_derive_keys plain_ssl (1 ∷ []) ≡ record {
  enc_key = first_block plain_ssl (1 ∷ []);
  mac_key = second_block plain_ssl (1 ∷ []);
  nonce = take 12 (third_block plain_ssl (1 ∷ []));
}
file_derive_keys_blocks_example = file_derive_keys_blocks plain_ssl (1 ∷ [])
