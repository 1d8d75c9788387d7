-- ===== src/Png/Runs.antt =====
-- source/shared/enil_png.c: a concrete image, and the theorem at it.
use enil.Common.{ℕ, ◌+◌, ◌≡◌, refl, false, none, some, List, [], ◌∷◌, ◌++◌, arith}
use enil.Common.Text.{codes, text_eq}
use enil.Png.{
  Zlib, signature, enil_png_info, chunks, on_chunk, pieces, next_chunk, out_of_place, fread,
  header_size, be32,
}
use enil.Png.Whole.{IsPng, info-IsPng}

abbrev total : List ℕ → ℕ
total [] = 0
total (c ∷ s) = c + total s

total-append : (s t : List ℕ) → total (s ++ t) ≡ total s + total t
total-append [] t = omega arith
total-append (c ∷ s) t = omega (arith, total-append s t)

-- A checksum that is the sum of the bytes.
abbrev sum_zlib : Zlib
sum_zlib = record {
  crc32 = λ c s. c + total s;
  crc32_nil = λ c. omega arith;
  crc32_append = λ c s t. omega (arith, total-append s t);
}

-- One pixel wide and two high, with a byte of data.
abbrev small_image : List ℕ
small_image =
    signature
    ++ ((0 ∷ 0 ∷ 0 ∷ 13 ∷ codes "IHDR")
        ++ ((0 ∷ 0 ∷ 0 ∷ 1 ∷ 0 ∷ 0 ∷ 0 ∷ 2 ∷ 8 ∷ 2 ∷ 0 ∷ 0 ∷ 0 ∷ 0 ∷ 0 ∷ 1 ∷ 52 ∷ [])
            ++ ((0 ∷ 0 ∷ 0 ∷ 1 ∷ codes "IDAT")
                ++ ((5 ∷ 0 ∷ 0 ∷ 1 ∷ 39 ∷ 0 ∷ 0 ∷ 0 ∷ 0 ∷ codes "IEND") ++ (0 ∷ 0 ∷ 1 ∷ 32 ∷ [])))))

small_accepted : enil_png_info sum_zlib false small_image ≡ some (1, 2)
unfolding enil_png_info chunks on_chunk pieces next_chunk out_of_place fread header_size be32
    text_eq
small_accepted = refl

something_behind : enil_png_info sum_zlib false (small_image ++ (7 ∷ [])) ≡ none
unfolding enil_png_info chunks on_chunk pieces next_chunk out_of_place fread header_size be32
    text_eq
something_behind = refl

info-IsPng_example : IsPng sum_zlib (1, 2) small_image
info-IsPng_example = info-IsPng sum_zlib false small_image (1, 2) small_accepted
