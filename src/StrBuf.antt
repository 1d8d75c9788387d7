-- ===== src/StrBuf.antt =====
-- source/shared/enil_strbuf.c: the growable byte buffer, and the HTML, JavaScript and URL escapes
-- that write to it.
--
-- A C string is the list of its bytes before the NUL, a null pointer is `none`. The allocator is
-- a parameter. An `esb_append` whose `realloc` is refused leaves the buffer as it was.
use enil.Common.{
  ℕ, zero, suc, ◌+◌, ◌*◌, ◌/◌, ◌%◌, ◌≤◌, ◌≡◌, Bool, true, false, ◌&&◌, ◌||◌, Option, none, some,
  List, [], ◌∷◌, ◌++◌, ltb, leb, ◌==◌, if◌then◌else◌, length, take, set, get_or, write_at, add_size,
  mul_size,
}
use enil.Common.Libc.{Allocator}
pub mod Growth
pub mod Escape
pub mod Decode
pub mod ReadBack
mod Runs

-- `ENILStrBuf`: `buf` is the block that the pointer names, `none` for NULL.
pub record StrBuf : Type 0 where
  pub buf : Option (List ℕ)
  pub len : ℕ
  pub cap : ℕ

abbrev pub or_empty : Option (List ℕ) → List ℕ
or_empty none = []
or_empty (some m) = m

-- The bytes appended so far.
abbrev pub content : StrBuf → List ℕ
content b = take b.len (or_empty b.buf)

-- `while (ncap <= target) ncap *= 2;`, on fuel.
pub grow_cap : ℕ → ℕ → ℕ → ℕ
grow_cap zero ncap target = ncap
grow_cap (suc fuel) ncap target =
    let rest = grow_cap fuel (mul_size ncap 2) target in if leb ncap target then rest else ncap

-- What `esb_html_core` writes for one byte, `none` for a byte that it copies.
pub html_entity : Bool → ℕ → Option (List ℕ)
html_entity br c =
    if c == b'&'
    then some (b'&' ∷ b'a' ∷ b'm' ∷ b'p' ∷ b';' ∷ [])
    else if c == b'<'
    then some (b'&' ∷ b'l' ∷ b't' ∷ b';' ∷ [])
    else if c == b'>'
    then some (b'&' ∷ b'g' ∷ b't' ∷ b';' ∷ [])
    else if c == 34
    then some (b'&' ∷ b'q' ∷ b'u' ∷ b'o' ∷ b't' ∷ b';' ∷ [])
    else if c == 10 && br
    then some (b'<' ∷ b'b' ∷ b'r' ∷ b'>' ∷ [])
    else none

pub js_escape : ℕ → Option (List ℕ)
js_escape c =
    if c == 92
    then some (92 ∷ 92 ∷ [])
    else if c == 34
    then some (92 ∷ 34 ∷ [])
    else if c == 10
    then some (92 ∷ b'n' ∷ [])
    else if c == 13
    then some (92 ∷ b'r' ∷ [])
    else none

pub is_url_unreserved : ℕ → Bool
is_url_unreserved c =
    if leb b'A' c && leb c b'Z'
    then true
    else if leb b'a' c && leb c b'z'
    then true
    else if leb b'0' c && leb c b'9'
    then true
    else c == b'-' || c == b'_' || c == b'.' || c == b'~'

-- `static const char hex[]`
abbrev pub hex : List ℕ
hex =
    b'0' ∷ b'1' ∷ b'2' ∷ b'3' ∷ b'4' ∷ b'5' ∷ b'6' ∷ b'7' ∷ b'8' ∷ b'9' ∷ b'A' ∷ b'B' ∷ b'C' ∷ b'D'
    ∷ b'E' ∷ b'F' ∷ []

-- The bytes that `esb_url_core` appends for one byte: `*p >> 4` and `*p & 15` pick the digits.
pub url_piece : Bool → ℕ → List ℕ
unfolding is_url_unreserved
url_piece keep_slash p =
    if is_url_unreserved p || (keep_slash && p == b'/')
    then p ∷ []
    else b'%' ∷ get_or hex (p / 16) 0 ∷ get_or hex (p % 16) 0 ∷ []

-- `memcpy(b->buf + b->len, s, n); b->len += n; b->buf[b->len] = '\0';`
abbrev pub store : StrBuf → List ℕ → StrBuf
store b s =
    let end = add_size b.len (length s) in
    record b { buf = some (set (write_at (or_empty b.buf) b.len s) end 0); len = end }

-- `b->buf` is the answer of `malloc(1024)`.
init_block : Option (List ℕ) → StrBuf × Bool
init_block none = (record { buf = none; len = 0; cap = 0 }, false)
init_block (some m) = (record { buf = some (set m 0 0); len = 0; cap = 1024 }, true)

module _ (al : Allocator) where
  pub esb_init : StrBuf × Bool
  unfolding init_block
  esb_init = init_block (al.malloc 1024)

  -- `none` is the result 0, with `b` untouched.
  pub esb_grow : StrBuf → ℕ → Option StrBuf
  esb_grow b need = elim b.buf [
    | none ↦ none
    | some m ↦
        if ltb (add_size b.len need) b.cap
        then some b
        else let ncap =
            grow_cap 64 (if b.cap == 0 then 1024 else mul_size b.cap 2) (add_size b.len need) in
          elim (al.realloc m ncap) [
            | none ↦ none
            | some nb ↦ some (record b { buf = some nb; cap = ncap })
          ]
  ]

  pub esb_append : StrBuf → List ℕ → StrBuf
  esb_append b s = elim (esb_grow b (add_size (length s) 1)) [ none ↦ b | some g ↦ store g s ]

  pub esb_append_str : StrBuf → Option (List ℕ) → StrBuf
  esb_append_str b none = b
  esb_append_str b (some s) = esb_append b s

  -- `decimal` is what `snprintf(t, 16, "%d", v)` writes.
  pub esb_int {ℓ} : {I : Type ℓ} → (I → List ℕ) → StrBuf → I → StrBuf
  esb_int decimal b v = if ltb 0 (length (decimal v)) then esb_append b (decimal v) else b

  -- `if (i > run) esb_append(b, s + run, i - run)`
  abbrev pub flush : StrBuf → List ℕ → StrBuf
  flush b [] = b
  flush b (c ∷ run) = esb_append b (c ∷ run)

  -- The escape loop of `esb_html_core` and `esb_js`: `run` holds the bytes from index `run` up to
  -- the current one, which were read and are not yet copied.
  pub escape_loop : (ℕ → Option (List ℕ)) → StrBuf → List ℕ → List ℕ → StrBuf
  escape_loop esc b run [] = flush b run
  escape_loop esc b run (c ∷ s) = elim (esc c) [
    | none ↦ escape_loop esc b (run ++ (c ∷ [])) s
    | some e ↦ escape_loop esc (esb_append (flush b run) e) [] s
  ]

  pub esb_html_core : StrBuf → Option (List ℕ) → Bool → StrBuf
  esb_html_core b none br = b
  esb_html_core b (some []) br = b
  esb_html_core b (some (c ∷ s)) br = escape_loop (html_entity br) b [] (c ∷ s)

  pub esb_html : StrBuf → Option (List ℕ) → StrBuf
  esb_html b none = b
  esb_html b (some s) = esb_html_core b (some s) false

  -- `n` is at most the length of the text at `s`.
  pub esb_html_n : StrBuf → Option (List ℕ) → ℕ → StrBuf
  esb_html_n b none n = esb_html_core b none false
  esb_html_n b (some s) n = esb_html_core b (some (take n s)) false

  pub esb_html_br : StrBuf → Option (List ℕ) → StrBuf
  esb_html_br b none = b
  esb_html_br b (some s) = esb_html_core b (some s) true

  pub esb_html_br_n : StrBuf → Option (List ℕ) → ℕ → StrBuf
  esb_html_br_n b none n = esb_html_core b none true
  esb_html_br_n b (some s) n = esb_html_core b (some (take n s)) true

  pub esb_js : StrBuf → Option (List ℕ) → StrBuf
  esb_js b none = b
  esb_js b (some []) = b
  esb_js b (some (c ∷ s)) = escape_loop js_escape b [] (c ∷ s)

  pub url_loop : StrBuf → List ℕ → Bool → StrBuf
  url_loop b [] keep_slash = b
  url_loop b (p ∷ s) keep_slash = url_loop (esb_append b (url_piece keep_slash p)) s keep_slash

  pub esb_url_core : StrBuf → Option (List ℕ) → Bool → StrBuf
  esb_url_core b none keep_slash = b
  esb_url_core b (some s) keep_slash = url_loop b s keep_slash

  pub esb_url : StrBuf → Option (List ℕ) → StrBuf
  esb_url b s = esb_url_core b s false

  pub esb_url_path : StrBuf → Option (List ℕ) → StrBuf
  esb_url_path b s = esb_url_core b s true
