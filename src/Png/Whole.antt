-- ===== src/Png/Whole.antt =====
-- source/shared/enil_png.c: a file that is found whole is an image with the size that was found.
use enil.Common.{
  ℕ, zero, suc, ◌≡◌, refl, sym, ap, ◌∙◌, Bool, true, false, not, ◌&&◌, ◌||◌, some, List, [], ◌∷◌,
  ◌++◌, ◌==◌, length, arith, inl, inr, Bool-cases, Option-cases, append-nil,
}
use mathlib.Core.Path.{subst}
use enil.Common.Text.{Text, codes, text_eq, text_eq→eq}
use enil.Png.{Zlib, Size, Found, signature, fread, header_size, out_of_place, chunks, enil_png_info}
use enil.Png.Chunk.{fread_inv, SizeOf}
use enil.Png.Step.{placed, IsChunk, LeadsOn, after, chunks_inv}
use enil.Png.Header.{IsHeader, header-IsHeader}

module _ (zlib : Zlib) where
  abbrev has_data : Bool → Text → List ℕ → Bool
  has_data seen type body = seen || (text_eq type (codes "IDAT") && not (length body == 0))

  -- The chunks behind the header: a last one that is empty, data before it, and no second header.
  pub data IsBody : Bool → List ℕ → Type 0 where
    last : {bytes : List ℕ} → IsChunk zlib (codes "IEND") [] bytes → IsBody true bytes
    one :
        {seen : Bool} {type body bytes rest : List ℕ}
        → IsChunk zlib type body bytes
        → text_eq type (codes "IHDR") ≡ false
        → text_eq type (codes "IEND") ≡ false
        → IsBody (has_data seen type body) rest
        → IsBody seen (bytes ++ rest)

  -- The whole image: the header says the size.
  pub record IsPng (size : Size) (file : List ℕ) : Type 0 where
    pub header : List ℕ
    pub header_bytes : List ℕ
    pub rest : List ℕ
    pub parts : file ≡ signature ++ (header_bytes ++ rest)
    pub is_chunk : IsChunk zlib (codes "IHDR") header header_bytes
    pub says : IsHeader header size
    pub body : IsBody false rest

  size_stays :
      (ihdr : Bool) (body : List ℕ) (size size' : Size)
      → ihdr ≡ false
      → SizeOf zlib ihdr body size size'
      → size' ≡ size
  size_stays false body size size' e says = says
  size_stays true body size size' e says = absurd (cc e)

  size_says :
      (ihdr : Bool) (body : List ℕ) (size size' : Size)
      → ihdr ≡ true
      → SizeOf zlib ihdr body size size'
      → header_size body ≡ some size'
  size_says true body size size' e says = says
  size_says false body size size' e says = absurd (cc e)

  last_body :
      (type body bytes rest s : List ℕ) (seen : Bool)
      → s ≡ bytes ++ rest
      → rest ≡ []
      → type ≡ codes "IEND"
      → length body ≡ 0
      → seen ≡ true
      → IsChunk zlib type body bytes
      → IsBody seen s
  last_body type [] bytes rest s seen split over named len data_seen chunk =
      let whole : s ≡ bytes = split ∙ ap (λ t. bytes ++ t) over ∙ append-nil bytes in
      rw (whole, data_seen) (last (subst (λ t. IsChunk zlib t [] bytes) named chunk))
  last_body type (x ∷ body) bytes rest s seen split over named len data_seen chunk =
      absurd (omega arith)

  body_found :
      (fuel : ℕ) (read_error : Bool) (f : Found) (s : List ℕ) (size : Size)
      → f.seen_header ≡ true
      → chunks zlib fuel read_error f s ≡ some size
      → IsBody f.seen_data s × (size ≡ f.size)
  unfolding out_of_place chunks
  body_found zero read_error f s size seen h = absurd (cc h)
  body_found (suc fuel) read_error f s size seen h =
      let (type, body, bytes, size', rest, split, chunk, place, says, how) =
        chunks_inv zlib fuel read_error f s size h in
      let ihdr = text_eq type (codes "IHDR") in
      let bound =
        placed (length body) ihdr (text_eq type (codes "IEND")) f.seen_header f.seen_data place in
      let plain : ihdr ≡ false = no_header ihdr f.seen_header seen (λ i. (bound.1 i).0) in
      let stays = size_stays ihdr body f.size size' plain says in
      elim how [
        | inl (iend, over, same) ↦ (
          last_body type body bytes rest s f.seen_data split over
              (text_eq→eq type (codes "IEND") iend) (bound.3 iend).0 (bound.3 iend).1 chunk,
          sym same ∙ stays,
        )
        | inr (more, h') ↦
            let (inner, e) =
              body_found fuel read_error (after zlib f type (length body) size') rest size
                (rw seen refl) h' in
            (subst (IsBody f.seen_data) (sym split) (one chunk plain more inner), e ∙ stays)
      ]
    where
      no_header : (i seen : Bool) → seen ≡ true → (i ≡ true → seen ≡ false) → i ≡ false
      no_header true seen e h = absurd (cc (sym e ∙ h refl))
      no_header false seen e h = refl

  first_chunk :
      (fuel : ℕ) (read_error : Bool) (f : Found) (s : List ℕ) (size : Size)
      → chunks zlib fuel read_error f s ≡ some size
      → (n : ℕ) × LeadsOn zlib n read_error f s size
  unfolding chunks
  first_chunk zero read_error f s size h = absurd (cc h)
  first_chunk (suc fuel) read_error f s size h = (fuel, chunks_inv zlib fuel read_error f s size h)

  -- The state before the first chunk.
  abbrev at_start : Found
  at_start = record { size = (0, 0); seen_header = false; seen_data = false }

  no_data : (type body : List ℕ) → type ≡ codes "IHDR" → has_data false type body ≡ false
  unfolding text_eq
  no_data type body named = rw named refl

  no_end : (type : Text) → type ≡ codes "IHDR" → text_eq type (codes "IEND") ≡ false
  unfolding text_eq
  no_end type named = rw named refl

  image_found :
      (read_error : Bool) (fuel : ℕ) (file s : List ℕ) (size : Size)
      → file ≡ signature ++ s
      → chunks zlib fuel read_error at_start s ≡ some size
      → IsPng size file
  unfolding out_of_place
  image_found read_error fuel file s size begins h =
      let (n, (type, body, bytes, size', rest, split, chunk, place, says, how)) =
        first_chunk fuel read_error at_start s size h in
      let ihdr = text_eq type (codes "IHDR") in
      let bound = placed (length body) ihdr (text_eq type (codes "IEND")) false false place in
      let i = bound.2 refl in
      let named = text_eq→eq type (codes "IHDR") i in
      elim how [
        | inl (iend, over, same) ↦ absurd (cc (sym (no_end type named) ∙ iend))
        | inr (more, h') ↦
            let (inner, e) =
              body_found n read_error (after zlib at_start type (length body) size') rest size i
                h' in
            record {
              header = body;
              header_bytes = bytes;
              rest = rest;
              parts = begins ∙ ap (λ t. signature ++ t) split;
              is_chunk = subst (λ t. IsChunk zlib t body bytes) named chunk;
              says =
                  header-IsHeader body size (bound.1 i).1
                    (size_says ihdr body (0, 0) size' i says ∙ ap some (sym e));
              body = subst (λ b. IsBody b rest) (no_data type body named) inner;
            }
      ]

  -- With zlib's checksum as documented: a file for which enil_png_info finds a size is a PNG
  -- image, by an independent description of the format: the signature, a header chunk of 13
  -- bytes with this width and height, both from 1 to 2^31 - 1, a depth that the colour type
  -- allows and methods that exist, chunks with right lengths and checksums and no second header,
  -- data in some IDAT before an empty IEND, and nothing behind it.
  pub info-IsPng :
      (read_error : Bool) (file : List ℕ) (size : Size)
      → enil_png_info zlib read_error file ≡ some size
      → IsPng size file
  unfolding enil_png_info
  info-IsPng read_error file size h = elim (Option-cases (fread 8 file)) [
    | inl short ↦ absurd (cc (rw (short, enil_png_info) at h))
    | inr ((header, rest), e) ↦
        let (split, eight) = fread_inv 8 file header rest e in
        elim (Bool-cases (text_eq header signature)) [
          | inr other ↦ absurd (cc (rw (e, other, enil_png_info) at h))
          | inl signed ↦
              image_found read_error (length file) file rest size
                (split ∙ ap (λ t. t ++ rest) (text_eq→eq header signature signed))
                (rw (e, signed, enil_png_info) at h)
        ]
  ]
