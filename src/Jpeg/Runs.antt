-- ===== src/Jpeg/Runs.antt =====
-- Concrete files for the JPEG check, and its theorem at one of them.
use enil.Common.{ℕ, ◌≡◌, refl, true, false, List, [], ◌∷◌}
use enil.Jpeg.{enil_jpeg_complete}
use enil.Jpeg.Marker.{HoldsEnd, jpeg_complete-HoldsEnd}

-- A start, a scan with a stuffed 0xff and a restart marker, and the end.
abbrev small : List ℕ
small = 255 ∷ 216 ∷ 255 ∷ 218 ∷ 0 ∷ 3 ∷ 1 ∷ 7 ∷ 255 ∷ 0 ∷ 8 ∷ 255 ∷ 208 ∷ 9 ∷ 255 ∷ 255 ∷ 217 ∷ []

accepted : enil_jpeg_complete false small ≡ true
unfolding enil_jpeg_complete
accepted = refl

truncated : enil_jpeg_complete false (255 ∷ 216 ∷ 255 ∷ 218 ∷ 0 ∷ 3 ∷ 1 ∷ 7 ∷ 255 ∷ []) ≡ false
unfolding enil_jpeg_complete
truncated = refl

-- An end marker with no scan before it.
no_scan : enil_jpeg_complete false (255 ∷ 216 ∷ 255 ∷ 217 ∷ []) ≡ false
unfolding enil_jpeg_complete
no_scan = refl

jpeg_complete-HoldsEnd_example :
    (false ≡ false) × ((s : List ℕ) × (small ≡ 255 ∷ 216 ∷ s) × HoldsEnd s)
jpeg_complete-HoldsEnd_example = jpeg_complete-HoldsEnd false small accepted
