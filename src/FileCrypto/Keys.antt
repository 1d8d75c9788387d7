-- ===== src/FileCrypto/Keys.antt =====
-- source/shared/enil_crypto.c: the derived keys.
use enil.Common.{
  ℕ, ◌≡◌, List, [], ◌∷◌, ◌++◌, arith, length, take, drop, length-take, take-length, take-append,
  drop-append, append-nil, append_assoc, refl, ap, ◌∙◌, sym, length-append,
}
use enil.Common.Text.{codes}
use enil.FileCrypto.{OpenSsl, FileKeys, replicate, hkdf_loop, file_hkdf, file_derive_keys}

take_exact : (n : ℕ) (xs ys : List ℕ) → length xs ≡ n → take n (xs ++ ys) ≡ xs
take_exact n xs ys h = ap (λ m. take m (xs ++ ys)) (sym h) ∙ take-append xs ys

drop_exact : (n : ℕ) (xs ys : List ℕ) → length xs ≡ n → drop n (xs ++ ys) ≡ ys
drop_exact n xs ys h = ap (λ m. drop m (xs ++ ys)) (sym h) ∙ drop-append xs ys

-- Keys cut from three parts of 32, 32 and 12 bytes.
abbrev cut_keys : List ℕ → FileKeys
cut_keys out = record {
  enc_key = take 32 out;
  mac_key = take 32 (drop 32 out);
  nonce = take 12 (drop 64 out);
}

cut_keys-parts :
    (a b c : List ℕ)
    → length a ≡ 32
    → length b ≡ 32
    → length c ≡ 12
    → cut_keys (a ++ (b ++ c)) ≡ record { enc_key = a; mac_key = b; nonce = c }
cut_keys-parts a b c ha hb hc =
    let deep : drop 64 (a ++ (b ++ c)) ≡ c =
      ap (drop 64) (sym (append_assoc a b c))
      ∙ drop_exact 64 (a ++ b) c (omega (arith, length-append a b, ha, hb)) in
    rw
      (
        take_exact 32 a (b ++ c) ha,
        drop_exact 32 a (b ++ c) ha,
        take_exact 32 b c hb,
        deep,
        take-length 12 c (omega (arith, hc)),
      )
      refl

module _ (ssl : OpenSsl) where
  -- The blocks of HKDF-SHA256 with a salt of 32 zeros: each is the HMAC of the one before it, the
  -- purpose and its number.
  abbrev pub hkdf_key : List ℕ → List ℕ
  hkdf_key km = ssl.hmac (replicate 32 0) km

  abbrev pub first_block : List ℕ → List ℕ
  first_block km = ssl.hmac (hkdf_key km) (codes "FileEncryption" ++ (1 ∷ []))

  abbrev pub second_block : List ℕ → List ℕ
  second_block km = ssl.hmac (hkdf_key km) (first_block km ++ (codes "FileEncryption" ++ (2 ∷ [])))

  abbrev pub third_block : List ℕ → List ℕ
  third_block km = ssl.hmac (hkdf_key km) (second_block km ++ (codes "FileEncryption" ++ (3 ∷ [])))

  pub file_hkdf_blocks :
      (km : List ℕ)
      → file_hkdf ssl km 76 ≡ first_block km ++ (second_block km ++ (take 12 (third_block km)))
  unfolding file_hkdf hkdf_loop
  file_hkdf_blocks km =
      rw
        (
          take-length 32 (first_block km)
              (omega (arith, ssl.hmac_length (hkdf_key km) (codes "FileEncryption" ++ (1 ∷ [])))),
          take-length 32 (second_block km) (
              omega (
                arith,
                ssl.hmac_length (hkdf_key km)
                    (first_block km ++ (codes "FileEncryption" ++ (2 ∷ []))),
              )),
          append-nil (take 12 (third_block km)),
        )
        refl

  -- The keys of a file are what HKDF-SHA256 with a salt of 32 zeros and the purpose
  -- FileEncryption makes of any key material: the first block is the key of the cipher, the
  -- second that of the tag, and the first 12 bytes of the third are the nonce.
  pub file_derive_keys_blocks :
      (km : List ℕ)
      → file_derive_keys ssl km ≡ record {
        enc_key = first_block km;
        mac_key = second_block km;
        nonce = take 12 (third_block km);
      }
  unfolding file_derive_keys
  file_derive_keys_blocks km =
      ap cut_keys (file_hkdf_blocks km)
      ∙ cut_keys-parts (first_block km) (second_block km) (take 12 (third_block km))
          (ssl.hmac_length (hkdf_key km) (codes "FileEncryption" ++ (1 ∷ [])))
          (ssl.hmac_length (hkdf_key km) (first_block km ++ (codes "FileEncryption" ++ (2 ∷ []))))
          (omega (
            arith,
            length-take 12 (third_block km),
            ssl.hmac_length (hkdf_key km) (second_block km ++ (codes "FileEncryption" ++ (3 ∷ []))),
          ))
