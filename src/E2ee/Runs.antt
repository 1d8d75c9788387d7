-- ===== src/E2ee/Runs.antt =====
-- A concrete message cut and joined, and the theorem at it.
use enil.Common.{ℕ, ◌≡◌, refl, true, none, some, List, [], ◌∷◌, arith, get_elem?}
use enil.Common.Int.{pos, negsuc}
use enil.Common.Text.{Text}
use enil.Common.Json.{array}
use enil.Common.Samples.{sample_cjson, sample_arrays}
use enil.B64.{enil_b64_decode_alloc}
use enil.B64.Inverse.{encoding}
use enil.B64.Runs.{shift_evp, shift_laws}
use enil.E2ee.{key_bytes, split_v2_ciphertext, build_ciphertext, parse_key_id}
use enil.E2ee.Chunks.{chunk_nodes, build_ciphertext-split}

key_bytes_example : key_bytes (negsuc 0) ≡ 255 ∷ 255 ∷ 255 ∷ 255 ∷ []
unfolding key_bytes
key_bytes_example = refl

abbrev sealed : List ℕ
sealed =
    1 ∷ 2 ∷ 3 ∷ 4 ∷ 5 ∷ 6 ∷ 7 ∷ 8 ∷ 9 ∷ 10 ∷ 11 ∷ 12 ∷ 13 ∷ 14 ∷ 15 ∷ 16 ∷ 17 ∷ 18 ∷ 19 ∷ 20 ∷ 21
    ∷ 22 ∷ 23 ∷ 24 ∷ 25 ∷ 26 ∷ 27 ∷ 28 ∷ 29 ∷ 30 ∷ []

too_short : split_v2_ciphertext shift_evp (λ n. true) [] (pos 1) (pos 2) ≡ none
unfolding split_v2_ciphertext enil_b64_decode_alloc
too_short = refl

build_ciphertext-split_example :
    (chunks : List Text) × (split_v2_ciphertext shift_evp
        (λ n. true)
        (encoding shift_evp sealed)
        (pos 7)
        (pos 8)
      ≡ some chunks)
    × (build_ciphertext shift_evp (λ n. true) sample_cjson (array (chunk_nodes chunks)) 2
        ≡ some (encoding shift_evp sealed))
    × (parse_key_id shift_evp (get_elem? chunks 3) ≡ pos 7)
    × (parse_key_id shift_evp (get_elem? chunks 4) ≡ pos 8)
build_ciphertext-split_example =
    build_ciphertext-split shift_evp shift_laws (λ n. true) (λ n. refl) sample_cjson sample_arrays
      sealed 7 8 (omega arith) (omega arith) (omega arith) (omega arith)
