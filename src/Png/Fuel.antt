-- ===== src/Png/Fuel.antt =====
-- source/shared/enil_png.c: the loop over the chunks ends by itself.
use enil.Common.{
  ℕ, zero, suc, ◌≤◌, ◌<◌, ◌≡◌, refl, sym, ap, ◌∙◌, Bool, true, false, List, [], ◌++◌, length, arith,
  inl, inr, Option-cases, length-append,
}
use enil.Png.{Zlib, Found, Round, go, stop, fread, on_chunk, chunks}
use enil.Png.Chunk.{fread_inv}
use enil.Png.Step.{IsChunk, chunk_inv, next_inv, answer, answered}

go_rest : Round → List ℕ → List ℕ
go_rest (go f s) d = s
go_rest (stop a) d = d

is_go : Round → Bool
is_go (go f s) = true
is_go (stop a) = false

module _ (zlib : Zlib) where
  chunk_length : (type body bytes : List ℕ) → IsChunk zlib type body bytes → 12 ≤ length bytes
  chunk_length type body bytes c =
      let outer = ap (λ (t : List ℕ). length t) c.parts in
      omega (
        arith,
        outer,
        c.len_length,
        c.type_length,
        c.sum_length,
        length-append c.len (type ++ (body ++ c.sum)),
        length-append type (body ++ c.sum),
        length-append body c.sum,
      )

  -- A round that goes on has taken a chunk.
  on_chunk-shorter :
      (read_error : Bool) (f : Found) (header t : List ℕ) (f' : Found) (s : List ℕ)
      → length header ≡ 8
      → on_chunk zlib read_error f header t ≡ go f' s
      → length s ≤ length t
  unfolding go_rest is_go
  on_chunk-shorter read_error f header t f' s eight h =
      elim (chunk_inv zlib read_error f header t (go f' s) eight h) [
        | inl bad ↦ absurd (cc (ap is_go bad))
        | inr (body, bytes, size', rest, split, chunk, place, says, e) ↦
            elim (next_inv zlib read_error f _ (length body) size' rest (go f' s) e) [
              | inl bad ↦ absurd (cc (ap is_go bad))
              | inr (inl (iend, over, bad)) ↦ absurd (cc (ap is_go bad))
              | inr (inr (more, e')) ↦
                  let same : s ≡ rest = ap (λ r. go_rest r []) e' in
                  let lengths = ap (λ (u : List ℕ). length u) split in
                  let rests = ap (λ (u : List ℕ). length u) same in
                  omega (
                    arith,
                    chunk_length _ body bytes chunk,
                    lengths,
                    rests,
                    eight,
                    length-append header t,
                    length-append bytes rest,
                  )
            ]
      ]

  rounds_agree :
      (m n : ℕ) (read_error : Bool) (r : Round)
      → ((f : Found) (s : List ℕ)
          → r ≡ go f s
          → chunks zlib m read_error f s ≡ chunks zlib n read_error f s)
      → answer zlib m read_error r ≡ answer zlib n read_error r
  rounds_agree m n read_error (stop a) same = refl
  rounds_agree m n read_error (go f s) same = same f s refl

  -- The loop over the chunks ends by itself on any bytes: any two amounts of fuel above the
  -- number of bytes left give the same answer.
  pub png_chunks-fuel :
      (m n : ℕ) (read_error : Bool) (f : Found) (s : List ℕ)
      → length s < m
      → length s < n
      → chunks zlib m read_error f s ≡ chunks zlib n read_error f s
  unfolding chunks
  png_chunks-fuel zero n read_error f s few few' = absurd (omega arith)
  png_chunks-fuel (suc m) zero read_error f s few few' = absurd (omega arith)
  png_chunks-fuel (suc m) (suc n) read_error f s few few' = elim (Option-cases (fread 8 s)) [
    | inl short ↦ rw (short, chunks) refl
    | inr ((header, t), e) ↦
        let (split, eight) = fread_inv 8 s header t e in
        let lengths = ap (λ (u : List ℕ). length u) split in
        let fewer : length t < length s = omega (arith, lengths, eight, length-append header t) in
        let r = on_chunk zlib read_error f header t in
        rw (e, chunks)
          (sym (answered zlib m read_error f header t r)
            ∙ rounds_agree m n read_error r (λ f' s' h.
              let le = on_chunk-shorter read_error f header t f' s' eight h in
              png_chunks-fuel m n read_error f' s' (omega arith) (omega arith))
            ∙ answered zlib n read_error f header t r)
  ]
