-- ===== src/StrBuf/Escape.antt =====
-- source/shared/enil_strbuf.c: the escapes, against a byte-by-byte description.
use enil.Common.{
  ℕ, ◌+◌, ◌^◌, ◌≤◌, ◌<◌, ◌≡◌, sym, ap, ◌∙◌, Bool, Option, none, some, List, [], ◌∷◌, ◌++◌,
  append-nil, append_assoc, arith, length, length-append, inl, inr, Option-cases,
}
use enil.Common.Libc.{Allocator}
use enil.StrBuf.{
  StrBuf, content, html_entity, js_escape, url_piece, esb_append, flush, escape_loop, esb_html_core,
  esb_js, url_loop, esb_url_core,
}
use enil.StrBuf.Growth.{IsValid, Appended, Holds, Grants, esb_append_lem, esb_append-Holds}

-- What one byte becomes.
abbrev pub piece : (ℕ → Option (List ℕ)) → ℕ → List ℕ
piece esc c = elim (esc c) [ none ↦ c ∷ [] | some e ↦ e ]

-- The text with every byte escaped in its place.
abbrev pub escaped : (ℕ → Option (List ℕ)) → List ℕ → List ℕ
escaped esc [] = []
escaped esc (c ∷ s) = piece esc c ++ escaped esc s

abbrev pub url_escaped : Bool → List ℕ → List ℕ
url_escaped keep [] = []
url_escaped keep (c ∷ s) = url_piece keep c ++ url_escaped keep s

-- The old text stands in front, whatever the allocator refused, and `n` bytes at most are new.
abbrev pub Kept : StrBuf → ℕ → StrBuf → Type 0
Kept b n b' = IsValid b' × (b'.len ≤ b.len + n) × ((u : List ℕ) × (content b' ≡ content b ++ u))

module _ (al : Allocator) where
  append-Kept :
      (b : StrBuf) (s : List ℕ)
      → IsValid b
      → b.len + length s + 1 < 2 ^ 63
      → Kept b (length s) (esb_append al b s)
  append-Kept b s v small = go (esb_append al b s) (esb_append_lem al b s v small)
    where
      go : (b' : StrBuf) → Appended b s b' → Kept b (length s) b'
      go b' (v', inl same) = (
        v',
        omega (arith, ap (λ (x : StrBuf). x.len) same),
        ([], ap content same ∙ sym (append-nil (content b))),
      )
      go b' (v', inr (text, len)) = (v', omega arith, (s, text))

  Kept-trans : (a b c : StrBuf) (n k j : ℕ) → Kept a n b → Kept b k c → n + k ≤ j → Kept a j c
  Kept-trans a b c n k j (va, la, (u, eu)) (vb, lb, (w, ew)) le = (
    vb,
    omega arith,
    (u ++ w, ew ∙ ap (λ (t : List ℕ). t ++ w) eu ∙ append_assoc (content a) u w),
  )

  Kept-refl : (b : StrBuf) (n : ℕ) → IsValid b → Kept b n b
  Kept-refl b n v = (v, omega arith, ([], sym (append-nil (content b))))

  flush-Kept :
      (b : StrBuf) (run : List ℕ)
      → IsValid b
      → b.len + length run + 1 < 2 ^ 63
      → Kept b (length run) (flush al b run)
  flush-Kept b [] v small = Kept-refl b 0 v
  flush-Kept b (c ∷ run) v small = append-Kept b (c ∷ run) v small

  flush-Holds :
      (b : StrBuf) (t run : List ℕ)
      → Grants al
      → Holds b t
      → length t + length run + 1 < 2 ^ 63
      → Holds (flush al b run) (t ++ run)
  flush-Holds b t [] all h small = rw append-nil h
  flush-Holds b t (c ∷ run) all h small = esb_append-Holds al b t (c ∷ run) all h small

  module _ (esc : ℕ → Option (List ℕ)) where
    plain_step :
        (b : StrBuf) (run s : List ℕ) (c : ℕ)
        → esc c ≡ none
        → escape_loop al esc b run (c ∷ s) ≡ escape_loop al esc b (run ++ (c ∷ [])) s
    unfolding escape_loop
    plain_step b run s c e = rw (e, escape_loop)

    special_step :
        (b : StrBuf) (run s e : List ℕ) (c : ℕ)
        → esc c ≡ some e
        → escape_loop al esc b run (c ∷ s)
          ≡ escape_loop al esc (esb_append al (flush al b run) e) [] s
    unfolding escape_loop
    special_step b run s e c h = rw (h, escape_loop)

    plain_text : (c : ℕ) (s : List ℕ) → esc c ≡ none → escaped esc (c ∷ s) ≡ c ∷ escaped esc s
    plain_text c s e = rw (e, piece)

    special_text :
        (c : ℕ) (e s : List ℕ) → esc c ≡ some e → escaped esc (c ∷ s) ≡ e ++ escaped esc s
    special_text c e s h = rw (h, piece)

    -- Whatever the allocator refuses, an escape loop on a valid buffer leaves a valid buffer
    -- with the old text in front and at most the pending bytes and the escaped length added, if
    -- the length with its NUL is below 2^63.
    pub escape_loop-Kept :
        (b : StrBuf) (run s : List ℕ)
        → IsValid b
        → b.len + (length run + length (escaped esc s)) + 1 < 2 ^ 63
        → Kept b (length run + length (escaped esc s)) (escape_loop al esc b run s)
    escape_loop-Kept b run [] v small =
        let (v', l', more) = flush-Kept b run v (omega arith) in
        unfold escape_loop in (v', omega arith, more)
    escape_loop-Kept b run (c ∷ s) v small = elim (Option-cases (esc c)) [
      | inl plain ↦
          let text = plain_text c s plain in
          let (v', l', more) =
            escape_loop-Kept b (run ++ (c ∷ [])) s v
              (omega (arith, length-append run (c ∷ []), ap (λ (u : List ℕ). length u) text)) in
          rw (plain_step b run s c plain, text)
            (v', omega (arith, length-append run (c ∷ [])), more)
      | inr (e, special) ↦
          let text = special_text c e s special in
          let size : length (escaped esc (c ∷ s)) ≡ length e + length (escaped esc s) =
            ap (λ (u : List ℕ). length u) text ∙ length-append e (escaped esc s) in
          let flushed = flush-Kept b run v (omega (arith, size)) in
          let put = append-Kept (flush al b run) e flushed.0 (omega (arith, size, flushed.1)) in
          let next = esb_append al (flush al b run) e in
          let rest = escape_loop-Kept next [] s put.0 (omega (arith, size, flushed.1, put.1)) in
          let front =
            Kept-trans b (flush al b run) next _ _ (length run + length e) flushed put
              (omega arith) in
          rw (special_step b run s e c special) (
            Kept-trans b next (escape_loop al esc next [] s) _ _ _ front rest (omega (arith, size)))
    ]

    pub escape_loop-Holds :
        (b : StrBuf) (t run s : List ℕ)
        → Grants al
        → Holds b t
        → length t + (length run + length (escaped esc s)) + 1 < 2 ^ 63
        → Holds (escape_loop al esc b run s) (t ++ (run ++ escaped esc s))
    escape_loop-Holds b t run [] all h small =
        let held = flush-Holds b t run all h (omega arith) in
        unfold escape_loop in rw append-nil held
    escape_loop-Holds b t run (c ∷ s) all h small = elim (Option-cases (esc c)) [
      | inl plain ↦
          let text = plain_text c s plain in
          rw (plain_step b run s c plain, text)
            (rw append_assoc at (
              escape_loop-Holds b t (run ++ (c ∷ [])) s all h
                (omega (arith, length-append run (c ∷ []), ap (λ (u : List ℕ). length u) text))))
      | inr (e, special) ↦
          let text = special_text c e s special in
          let size : length (escaped esc (c ∷ s)) ≡ length e + length (escaped esc s) =
            ap (λ (u : List ℕ). length u) text ∙ length-append e (escaped esc s) in
          let held = flush-Holds b t run all h (omega (arith, size)) in
          let next =
            esb_append-Holds al (flush al b run) (t ++ run) e all held
              (omega (arith, size, length-append t run)) in
          rw (special_step b run s e c special, text)
            (rw (append_assoc, append_assoc) at
              (escape_loop-Holds (esb_append al (flush al b run) e) ((t ++ run) ++ e) [] s all next
                (omega (arith, size, length-append t run, length-append (t ++ run) e))))
    ]

  -- `esb_html` and `esb_html_br` append the text with each byte escaped in its place.
  pub esb_html_core-Holds :
      (b : StrBuf) (t s : List ℕ) (br : Bool)
      → Grants al
      → Holds b t
      → length t + length (escaped (html_entity br) s) + 1 < 2 ^ 63
      → Holds (esb_html_core al b (some s) br) (t ++ escaped (html_entity br) s)
  unfolding esb_html_core
  esb_html_core-Holds b t [] br all h small = rw append-nil h
  esb_html_core-Holds b t (c ∷ s) br all h small =
      escape_loop-Holds (html_entity br) b t [] (c ∷ s) all h (omega arith)

  pub esb_js-Holds :
      (b : StrBuf) (t s : List ℕ)
      → Grants al
      → Holds b t
      → length t + length (escaped js_escape s) + 1 < 2 ^ 63
      → Holds (esb_js al b (some s)) (t ++ escaped js_escape s)
  unfolding esb_js
  esb_js-Holds b t [] all h small = rw append-nil h
  esb_js-Holds b t (c ∷ s) all h small =
      escape_loop-Holds js_escape b t [] (c ∷ s) all h (omega arith)

  url_loop-Holds :
      (b : StrBuf) (t s : List ℕ) (keep : Bool)
      → Grants al
      → Holds b t
      → length t + length (url_escaped keep s) + 1 < 2 ^ 63
      → Holds (url_loop al b s keep) (t ++ url_escaped keep s)
  unfolding url_loop
  url_loop-Holds b t [] keep all h small = rw append-nil h
  url_loop-Holds b t (c ∷ s) keep all h small =
      let size = length-append (url_piece keep c) (url_escaped keep s) in
      let next = esb_append-Holds al b t (url_piece keep c) all h (omega (arith, size)) in
      rw append_assoc at (
        url_loop-Holds (esb_append al b (url_piece keep c)) (t ++ url_piece keep c) s keep all next
          (omega (arith, size, length-append t (url_piece keep c))))

  pub esb_url_core-Holds :
      (b : StrBuf) (t s : List ℕ) (keep : Bool)
      → Grants al
      → Holds b t
      → length t + length (url_escaped keep s) + 1 < 2 ^ 63
      → Holds (esb_url_core al b (some s) keep) (t ++ url_escaped keep s)
  unfolding esb_url_core
  esb_url_core-Holds b t s keep all h small = url_loop-Holds b t s keep all h small
