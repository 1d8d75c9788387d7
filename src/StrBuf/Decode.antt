-- ===== src/StrBuf/Decode.antt =====
-- source/shared/enil_strbuf.c: what a reader of the escaped text gets back. The readers here are
-- not code of the program: each undoes one escape by the rules of HTML, JavaScript and URLs.
use enil.Common.{
  ℕ, zero, suc, ◌+◌, ◌*◌, ◌≡◌, ◌≢◌, refl, ap, ◌∙◌, Bool, true, false, not, ◌&&◌, Option, none, some,
  List, [], ◌∷◌, ◌++◌, arith, length, ◌≤◌, length-append, All, IsByte, All-append, ◌==◌, leb,
  if◌then◌else◌, holds_to, holds_to-at, ◌-◌,
}
use enil.StrBuf.{html_entity, js_escape, url_piece}
use enil.StrBuf.Escape.{piece, escaped, url_escaped}

-- `some rest` if the text begins with `p`.
abbrev strip : List ℕ → List ℕ → Option (List ℕ)
strip [] s = some s
strip (c ∷ p) [] = none
strip (c ∷ p) (d ∷ s) = if c == d then strip p s else none

-- One character of JavaScript string text: `\` takes the next letter along.
abbrev js_letter : ℕ → ℕ
js_letter c = if c == b'n' then 10 else if c == b'r' then 13 else c

abbrev pub js_read : List ℕ → List ℕ
js_read [] = []
js_read (c ∷ []) = c ∷ []
js_read (c ∷ d ∷ s) =
    let one = c ∷ js_read (d ∷ s) in
    let two = js_letter d ∷ js_read s in if c == 92 then two else one

js_read-piece : (c : ℕ) (s : List ℕ) → js_read (piece js_escape c ++ s) ≡ c ∷ js_read s
unfolding js_escape
js_read-piece c [] = ground arith
js_read-piece c (d ∷ s) = ground arith

pub js_read-escaped : (s : List ℕ) → js_read (escaped js_escape s) ≡ s
js_read-escaped [] = refl
js_read-escaped (c ∷ s) =
    js_read-piece c (escaped js_escape s) ∙ ap (λ t. c ∷ t) (js_read-escaped s)

-- One URL byte: `%` takes two hexadecimal digits along.
abbrev hex_value : ℕ → ℕ
hex_value d = if leb b'A' d then d - 55 else d - 48

abbrev pub url_read : List ℕ → List ℕ
url_read [] = []
url_read (c ∷ []) = c ∷ []
url_read (c ∷ d ∷ []) = c ∷ d ∷ []
url_read (c ∷ d ∷ e ∷ s) =
    let one = c ∷ url_read (d ∷ e ∷ s) in
    let three = (hex_value d * 16 + hex_value e) ∷ url_read s in if c == b'%' then three else one

-- The two shapes of a URL piece, from a table of all bytes.
abbrev url_shape : ℕ → List ℕ → Bool
url_shape c [] = false
url_shape c (d ∷ []) = d == c && not (c == b'%')
url_shape c (d ∷ h ∷ []) = false
url_shape c (d ∷ h ∷ l ∷ []) = d == b'%' && hex_value h * 16 + hex_value l == c
url_shape c (d ∷ h ∷ l ∷ m ∷ p) = false

url_table : (keep : Bool) → holds_to (λ c. url_shape c (url_piece keep c)) 256 ≡ true
unfolding holds_to url_piece
url_table true = refl
url_table false = refl

url_plain : (c : ℕ) (s : List ℕ) → (c == b'%') ≡ false → url_read (c ∷ s) ≡ c ∷ url_read s
url_plain c [] h = refl
url_plain c (d ∷ []) h = refl
url_plain c (d ∷ e ∷ s) h = rw h

url_read_shape : (c : ℕ) (p s : List ℕ) → url_shape c p ≡ true → url_read (p ++ s) ≡ c ∷ url_read s
url_read_shape c [] s h = cc
url_read_shape c (d ∷ []) s h = ground (arith, url_plain d s)
url_read_shape c (d ∷ x ∷ []) s h = cc
url_read_shape c (d ∷ x ∷ l ∷ []) s h = ground arith
url_read_shape c (d ∷ x ∷ l ∷ m ∷ p) s h = cc

-- Percent-decoding gives back every byte string, with `/` kept or not.
pub url_read-escaped : (keep : Bool) (s : List ℕ) → All IsByte s → url_read (url_escaped keep s) ≡ s
url_read-escaped keep [] h = refl
url_read-escaped keep (c ∷ s) (hc, hs) =
    url_read_shape c (url_piece keep c) (url_escaped keep s)
      (holds_to-at (λ c. url_shape c (url_piece keep c)) 256 c hc (url_table keep))
    ∙ ap (λ t. c ∷ t) (url_read-escaped keep s hs)

-- What a browser shows for each reference that the escapes write.
abbrev references : List (List ℕ × ℕ)
references =
    (b'&' ∷ b'a' ∷ b'm' ∷ b'p' ∷ b';' ∷ [], b'&')
    ∷ (b'&' ∷ b'l' ∷ b't' ∷ b';' ∷ [], b'<')
    ∷ (b'&' ∷ b'g' ∷ b't' ∷ b';' ∷ [], b'>')
    ∷ (b'&' ∷ b'q' ∷ b'u' ∷ b'o' ∷ b't' ∷ b';' ∷ [], 34)
    ∷ (b'<' ∷ b'b' ∷ b'r' ∷ b'>' ∷ [], 10)
    ∷ []

abbrev first_reference : List (List ℕ × ℕ) → List ℕ → Option (ℕ × List ℕ)
first_reference [] s = none
first_reference ((p, c) ∷ refs) s =
    let later = first_reference refs s in
    elim (strip p s) [ none ↦ later | some rest ↦ some (c, rest) ]

abbrev read_one : List ℕ → Option (ℕ × List ℕ)
read_one [] = none
read_one (c ∷ s) = elim (first_reference references (c ∷ s)) [
  | none ↦ some (c, s)
  | some r ↦ some r
]

-- `n` characters of HTML text at most.
abbrev pub html_read : ℕ → List ℕ → List ℕ
html_read zero s = []
html_read (suc n) s = elim (read_one s) [ none ↦ [] | some (c, rest) ↦ c ∷ html_read n rest ]

read_one-piece :
    (br : Bool) (c : ℕ) (s : List ℕ) → read_one (piece (html_entity br) c ++ s) ≡ some (c, s)
unfolding html_entity
read_one-piece br c s = ground arith

html_read_step :
    (n c : ℕ) (s rest : List ℕ)
    → read_one s ≡ some (c, rest)
    → html_read (suc n) s ≡ c ∷ html_read n rest
html_read_step n c s rest h = rw (h, html_read)

-- All of a text: a round takes a byte at least.
abbrev pub html_text : List ℕ → List ℕ
html_text s = html_read (length s) s

html_read-nil : (n : ℕ) → html_read n [] ≡ []
html_read-nil zero = refl
html_read-nil (suc n) = refl

piece-length : (br : Bool) (c : ℕ) → 1 ≤ length (piece (html_entity br) c)
unfolding html_entity
piece-length br c = ground arith

html_read-enough :
    (br : Bool) (s : List ℕ) (n : ℕ) → length s ≤ n → html_read n (escaped (html_entity br) s) ≡ s
html_read-enough br [] n h = html_read-nil n
html_read-enough br (c ∷ s) zero h = absurd (omega (arith, h))
html_read-enough br (c ∷ s) (suc n) h =
    html_read_step n c (piece (html_entity br) c ++ escaped (html_entity br) s)
      (escaped (html_entity br) s) (read_one-piece br c (escaped (html_entity br) s))
    ∙ ap (λ t. c ∷ t) (html_read-enough br s n (omega (arith, h)))

escaped-length : (br : Bool) (s : List ℕ) → length s ≤ length (escaped (html_entity br) s)
escaped-length br [] = omega arith
escaped-length br (c ∷ s) =
    let p = piece (html_entity br) c in
    omega
      (arith, length-append p (escaped (html_entity br) s), piece-length br c, escaped-length br s)

-- A browser shows exactly the text that was escaped, and nothing behind it.
pub html_text-escaped : (br : Bool) (s : List ℕ) → html_text (escaped (html_entity br) s) ≡ s
html_text-escaped br s = html_read-enough br s _ (escaped-length br s)

-- No byte that opens a tag, closes one, or ends an attribute.
abbrev pub IsInert : ℕ → Type 0
IsInert c = (c ≢ b'<') × (c ≢ b'>') × (c ≢ 34)

piece-IsInert : (c : ℕ) → All IsInert (piece (html_entity false) c)
unfolding html_entity
piece-IsInert c = ground arith

-- Text escaped without `<br>` holds no `<`, no `>` and no quotation mark.
pub escaped-IsInert : (s : List ℕ) → All IsInert (escaped (html_entity false) s)
escaped-IsInert [] = tt
escaped-IsInert (c ∷ s) =
    All-append IsInert (piece (html_entity false) c) (escaped (html_entity false) s)
      (piece-IsInert c) (escaped-IsInert s)
