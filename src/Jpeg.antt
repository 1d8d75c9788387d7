-- ===== src/Jpeg.antt =====
-- source/shared/enil_jpeg.c: whether a file is a whole JPEG image. The file is the list of its bytes;
-- `fgetc` takes the first one, and `read_error` is what `ferror` says at the end.
use enil.Common.{
  ℕ, zero, suc, ◌+◌, ◌-◌, ◌*◌, Bool, true, false, not, ◌&&◌, ◌||◌, Option, none, some, List, [],
  ◌∷◌, ltb, leb, ◌==◌, if◌then◌else◌, length,
}
pub mod Marker
mod Runs

-- `do { c = fgetc(f); } while (c != EOF && c != 0xff)`: what follows the 0xff, `none` at the end.
unfoldable pub skip_scan : List ℕ → Option (List ℕ)
skip_scan [] = none
skip_scan (c ∷ s) = let rest = skip_scan s in if c == 255 then some s else rest

-- `do { marker = fgetc(f); } while (marker == 0xff)`
unfoldable pub read_marker : List ℕ → Option (ℕ × List ℕ)
read_marker [] = none
read_marker (c ∷ s) = let rest = read_marker s in if c == 255 then rest else some (c, s)

-- `while (remaining--) if (fgetc(f) == EOF) goto done;`
unfoldable pub skip_bytes : ℕ → List ℕ → Option (List ℕ)
skip_bytes zero s = some s
skip_bytes (suc n) [] = none
skip_bytes (suc n) (c ∷ s) = skip_bytes n s

abbrev expect_ff : List ℕ → Option (List ℕ)
expect_ff [] = none
expect_ff (c ∷ s) = if c == 255 then some s else none

-- The 0xff that begins a marker: the next one in a scan, and the next byte else.
unfoldable pub find_ff : Bool → List ℕ → Option (List ℕ)
unfolding skip_scan
find_ff true s = skip_scan s
find_ff false s = expect_ff s

-- The segment behind a marker, by its length; the marker 1 has none.
unfoldable pub skip_segment : ℕ → List ℕ → Option (List ℕ)
unfolding skip_bytes
skip_segment marker [] = if marker == 1 then some [] else none
skip_segment marker (hi ∷ []) = if marker == 1 then some (hi ∷ []) else none
skip_segment marker (hi ∷ lo ∷ s) =
    if marker == 1
    then some (hi ∷ lo ∷ s)
    else if ltb (hi * 256 + lo) 2
    then none
    else skip_bytes (hi * 256 + lo - 2) s

abbrev pub is_restart : ℕ → Bool
is_restart marker = leb 208 marker && leb marker 215

-- What a round decides: to go on with the two flags, or the answer.
pub data Round : Type 0 where
  go : Bool → Bool → List ℕ → Round
  stop : Bool → Round

abbrev pub after_segment : ℕ → Bool → Option (List ℕ) → Round
after_segment marker seen_scan none = stop false
after_segment marker seen_scan (some s) = go (marker == 218) (seen_scan || marker == 218) s

unfoldable pub on_marker : Bool → Bool → ℕ → List ℕ → Round
unfolding skip_segment
on_marker scan seen_scan marker s =
    if scan && (marker == 0 || is_restart marker)
    then go scan seen_scan s
    else if marker == 217
    then stop seen_scan
    else if marker == 0 || marker == 216 || is_restart marker
    then stop false
    else after_segment marker seen_scan (skip_segment marker s)

abbrev pub marked : Bool → Bool → Option (ℕ × List ℕ) → Round
marked scan seen_scan none = stop false
marked scan seen_scan (some (marker, s)) = on_marker scan seen_scan marker s

abbrev pub from_ff : Bool → Bool → Option (List ℕ) → Round
from_ff scan seen_scan none = stop false
from_ff scan seen_scan (some s) = marked scan seen_scan (read_marker s)

-- One round of `for (;;)`.
unfoldable pub round : Bool → Bool → List ℕ → Round
unfolding find_ff read_marker on_marker
round scan seen_scan s = from_ff scan seen_scan (find_ff scan s)

-- The loop, on fuel: every round that goes on has taken two bytes.
unfoldable pub rounds : ℕ → Bool → Bool → List ℕ → Bool
unfolding round
rounds zero scan seen_scan s = false
rounds (suc fuel) scan seen_scan s = elim (round scan seen_scan s) [
  | stop answer ↦ answer
  | go scan' seen_scan' s' ↦ rounds fuel scan' seen_scan' s'
]

unfoldable pub enil_jpeg_complete : Bool → List ℕ → Bool
unfolding rounds
enil_jpeg_complete read_error [] = false
enil_jpeg_complete read_error (c ∷ []) = false
enil_jpeg_complete read_error (c ∷ d ∷ s) =
    c == 255 && d == 216 && (rounds (length s) false false s && not read_error)
