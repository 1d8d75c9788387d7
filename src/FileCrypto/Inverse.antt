-- ===== src/FileCrypto/Inverse.antt =====
-- source/shared/enil_crypto.c: decryption undoes encryption, and accepts nothing else.
use enil.Common.{ℕ, List, ◌++◌}
use enil.FileCrypto.{OpenSsl, FileKeys, replicate}

-- What the file of a plain text is, under keys.
abbrev sealed : OpenSsl → FileKeys → List ℕ → List ℕ
sealed ssl keys plain =
    let cipher = ssl.ctr keys.enc_key (keys.nonce ++ replicate 4 0) plain in
    cipher ++ ssl.hmac keys.mac_key cipher
