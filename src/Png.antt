-- ===== src/Png.antt =====
-- source/shared/enil_png.c: whether a file is a whole PNG image, and its size. The file is the list of its
-- bytes, from which `fread` takes the first ones; `read_error` is what `ferror` says at the end.
use enil.Common.{
  ℕ, zero, suc, ◌+◌, ◌-◌, ◌*◌, ◌^◌, ◌≡◌, Bool, true, false, not, ◌&&◌, ◌||◌, Option, none, some,
  List, [], ◌∷◌, ◌++◌, ltb, leb, ◌==◌, if◌then◌else◌, length, take, drop, get_or,
}
use enil.Common.Text.{Text, codes, text_eq}
pub mod Chunk
pub mod Step
pub mod Header
pub mod Whole
pub mod Fuel
mod Runs

-- zlib's checksum of a text, from one of what stands before it.
pub record Zlib : Type 0 where
  pub crc32 : ℕ → List ℕ → ℕ
  pub crc32_nil : (c : ℕ) → crc32 c [] ≡ c
  pub crc32_append : (c : ℕ) (s t : List ℕ) → crc32 (crc32 c s) t ≡ crc32 c (s ++ t)

abbrev pub int_max : ℕ
int_max = 2 ^ 31 - 1

abbrev pub signature : List ℕ
signature = 137 ∷ 80 ∷ 78 ∷ 71 ∷ 13 ∷ 10 ∷ 26 ∷ 10 ∷ []

unfoldable pub be32 : List ℕ → ℕ
be32 p = get_or p 0 0 * 2 ^ 24 + get_or p 1 0 * 2 ^ 16 + get_or p 2 0 * 2 ^ 8 + get_or p 3 0

-- `fread(buf, 1, n, f) == n`: the bytes, and the rest of the file.
unfoldable pub fread : ℕ → List ℕ → Option (List ℕ × List ℕ)
fread n s = if leb n (length s) then some (take n s, drop n s) else none

abbrev pub valid_depth : ℕ → ℕ → Bool
valid_depth color depth =
    ((color == 0)
      && ((depth == 1) || ((depth == 2) || ((depth == 4) || ((depth == 8) || (depth == 16))))))
    || (((color == 3) && ((depth == 1) || ((depth == 2) || ((depth == 4) || (depth == 8)))))
        || (((color == 2) || ((color == 4) || (color == 6))) && ((depth == 8) || (depth == 16))))

-- Width and height.
abbrev pub Size : Type 0
Size = ℕ × ℕ

-- The body of the header chunk.
unfoldable pub header_size : List ℕ → Option Size
unfolding be32
header_size buf =
    let x = be32 buf in
    let y = be32 (drop 4 buf) in
    if (x == 0)
      || ((y == 0)
          || (ltb int_max x
              || (ltb int_max y
                  || (not (valid_depth (get_or buf 9 0) (get_or buf 8 0))
                      || (not (get_or buf 10 0 == 0)
                          || (not (get_or buf 11 0 == 0) || ltb 1 (get_or buf 12 0)))))))
    then none
    else some (x, y)

abbrev pub new_size : Bool → List ℕ → Size → Option Size
new_size false buf size = some size
new_size true buf size = header_size buf

abbrev pub min_buf : ℕ → ℕ
min_buf n = if ltb n 8192 then n else 8192

-- `w`, `h`, `seen_header`, `seen_data`
pub record Found : Type 0 where
  pub size : Size
  pub seen_header : Bool
  pub seen_data : Bool

-- What a round of the loop over chunks decides.
pub data Round : Type 0 where
  go : Found → List ℕ → Round
  stop : Option Size → Round

-- The guards at the head of a chunk.
unfoldable pub out_of_place : Found → Text → ℕ → Bool
out_of_place f type len =
    let ihdr = text_eq type (codes "IHDR") in
    let iend = text_eq type (codes "IEND") in
    ltb int_max len
    || ((not f.seen_header && not ihdr)
        || ((ihdr && (f.seen_header || not (len == 13)))
            || (iend && (not (len == 0) || not f.seen_data))))

-- The end of the image: nothing may follow.
abbrev pub at_end : Bool → Size → List ℕ → Round
at_end read_error size [] = stop (if read_error then none else some size)
at_end read_error size (c ∷ s) = stop none

-- Behind a chunk whose checksum is right.
unfoldable pub next_chunk : Bool → Found → Text → ℕ → Size → List ℕ → Round
next_chunk read_error f type len size rest =
    if text_eq type (codes "IEND")
    then at_end read_error size rest
    else go
        (record {
          size = size;
          seen_header = f.seen_header || text_eq type (codes "IHDR");
          seen_data = f.seen_data || (text_eq type (codes "IDAT") && not (len == 0));
        })
        rest

module _ (zlib : Zlib) where
  -- `while (remaining)`, on fuel: the checksum, the size and the rest of the file.
  unfoldable pub pieces : ℕ → Bool → ℕ → ℕ → Size → List ℕ → Option (ℕ × Size × List ℕ)
  unfolding fread header_size
  pieces zero ihdr crc remaining size s = some (crc, size, s)
  pieces (suc fuel) ihdr crc remaining size s =
      if remaining == 0 then some (crc, size, s) else elim (fread (min_buf remaining) s) [
        | none ↦ none
        | some (buf, rest) ↦ elim (new_size ihdr buf size) [
          | none ↦ none
          | some size' ↦
              pieces fuel ihdr (zlib.crc32 crc buf) (remaining - min_buf remaining) size' rest
        ]
      ]

  abbrev pub checksum : Bool → Found → Text → ℕ → Option (ℕ × Size × List ℕ) → Round
  checksum read_error f type len none = stop none
  checksum read_error f type len (some (crc, size, s)) = elim (fread 4 s) [
    | none ↦ stop none
    | some (sum, rest) ↦
        if be32 sum == crc then next_chunk read_error f type len size rest else stop none
  ]

  -- A chunk, behind its eight bytes of length and type.
  unfoldable pub on_chunk : Bool → Found → List ℕ → List ℕ → Round
  unfolding pieces out_of_place next_chunk
  on_chunk read_error f header s =
      let len = be32 header in
      let type = drop 4 header in
      if out_of_place f type len
      then stop none
      else checksum read_error f type len
          (pieces len (text_eq type (codes "IHDR")) (zlib.crc32 0 type) len f.size s)

  -- The loop over the chunks, on fuel.
  unfoldable pub chunks : ℕ → Bool → Found → List ℕ → Option Size
  unfolding on_chunk
  chunks zero read_error f s = none
  chunks (suc fuel) read_error f s = elim (fread 8 s) [
    | none ↦ none
    | some (header, rest) ↦ elim (on_chunk read_error f header rest) [
      | stop answer ↦ answer
      | go f' s' ↦ chunks fuel read_error f' s'
    ]
  ]

  -- `none` is the result 0. Each chunk has twelve bytes at least.
  unfoldable pub enil_png_info : Bool → List ℕ → Option Size
  unfolding chunks
  enil_png_info read_error file = elim (fread 8 file) [
    | none ↦ none
    | some (header, rest) ↦
        if text_eq header signature
        then chunks (length file) read_error
            (record { size = (0, 0); seen_header = false; seen_data = false }) rest
        else none
  ]
