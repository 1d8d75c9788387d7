-- ===== src/Format.antt =====
-- source/shared/enil_message_format.c: the text of a message as HTML, with its sticon markers replaced
-- by images.
use enil.Common.{
  ℕ, zero, suc, ◌+◌, ◌-◌, ◌*◌, ◌/◌, ◌%◌, Bool, true, false, not, ◌&&◌, ◌||◌, Option, none, some,
  List, [], ◌∷◌, ltb, leb, ◌==◌, if◌then◌else◌, length, get_or, take, drop,
}
use enil.Common.Int.{ℤ, pos, leb_ℤ}
use enil.Common.Text.{Text, codes}
use enil.Common.Json.{Json, Children, Cjson, bool, number, string, nil, node}
use enil.Common.Libc.{Allocator}
use enil.StrBuf.{StrBuf, esb_init, esb_append_str, esb_html_br, esb_html_br_n}
pub mod Spans
mod Runs

-- What the code takes from the C library and cJSON: `whole` is the value of a double that is a whole
-- number in [0, INT_MAX]; `to_int` is `(int)cJSON_GetNumberValue(...)`; `box` and `zoom` are the
-- `snprintf` results for a size and a scale (true for the jumbo one).
pub record Env : Type 0 where
  pub al : Allocator
  pub cjson : Cjson
  pub whole : ℕ → Option ℕ
  pub to_int : Option Json → ℤ
  pub box : ℤ → ℤ → Bool → Text
  pub zoom : Bool → Text

-- The first byte of a UTF-8 sequence: how many bytes follow, and its bits of the code point.
unfoldable pub lead : ℕ → Option (ℕ × ℕ)
lead c =
    if ltb c 128
    then some (0, c)
    else if leb 194 c && leb c 223
    then some (1, c % 32)
    else if leb 224 c && leb c 239
    then some (2, c % 16)
    else if leb 240 c && leb c 244
    then some (3, c % 8)
    else none

-- The bytes that follow; the NUL at the end of the text is none of them.
unfoldable pub continue_with : ℕ → ℕ → Text → Option (ℕ × Text)
continue_with zero cp text = some (cp, text)
continue_with (suc n) cp [] = none
continue_with (suc n) cp (c ∷ text) =
    let rest = continue_with n (cp * 64 + c % 64) text in if c / 64 == 2 then rest else none

-- Overlong forms, surrogates and what is above U+10FFFF.
abbrev pub malformed : ℕ → ℕ → Bool
malformed n cp =
    n == 3 && ltb cp 2048
    || n == 4 && ltb cp 65536
    || leb 55296 cp && leb cp 57343
    || ltb 1114111 cp

abbrev checked : ℕ → Option (ℕ × Text) → Option (ℕ × ℕ × Text)
checked n none = none
checked n (some (cp, text)) = if malformed n cp then none else some (n, cp, text)

-- One round of the loop: the number of bytes, the code point, and the text behind it.
unfoldable pub next_code : Text → Option (ℕ × ℕ × Text)
unfolding lead continue_with
next_code [] = none
next_code (c ∷ text) = elim (lead c) [
  | none ↦ none
  | some (n, cp) ↦ checked (n + 1) (continue_with n cp text)
]

abbrev is_empty : Text → Bool
is_empty [] = true
is_empty (c ∷ s) = false

-- The loop, on fuel: every round takes a byte at least, so the length of the text is enough.
unfoldable pub boundary_loop : ℕ → Text → ℕ → ℕ → ℕ → Option ℕ
boundary_loop zero text target units p = if units == target then some p else none
boundary_loop (suc fuel) text target units p =
    if ltb units target && not (is_empty text)
    then elim (next_code text) [
      | none ↦ none
      | some (n, cp, rest) ↦
          boundary_loop fuel rest target (units + (if ltb 65535 cp then 2 else 1)) (p + n)
    ]
    else (if units == target then some p else none)

unfoldable pub utf16_boundary : Text → ℕ → Option ℕ
unfolding boundary_loop
utf16_boundary text target = boundary_loop (length text) text target 0 0

abbrev pub plain : ℕ → Bool
plain c = not (c == b'(' || c == b')' || c == 10 || c == 13)

abbrev pub all_plain : List ℕ → Bool
all_plain [] = true
all_plain (c ∷ s) = plain c && all_plain s

-- `text[s .. e)` is `$`, or a text in parentheses. The `len` of the code is the length of `text`.
unfoldable pub marker_span : Text → ℕ → ℕ → Bool
marker_span text s e =
    if leb e s || ltb (length text) e
    then false
    else if e - s == 1 && get_or text s 0 == b'$'
    then true
    else if ltb (e - s) 3 || not (get_or text s 0 == b'(') || not (get_or text (e - 1) 0 == b')')
    then false
    else all_plain (take (e - s - 2) (drop (s + 1) text))

abbrev pub is_true : Option Json → Bool
is_true (some (bool true)) = true
is_true _ = false

abbrev pub number_at : Option Json → Option ℕ
number_at (some (number d)) = some d
number_at _ = none

abbrev pub string_value : Option Json → Option Text
string_value (some (string s)) = some s
string_value _ = none

abbrev pub both {ℓ} : {A : Type ℓ} → Option A → Option A → Option (A × A)
both (some a) (some b) = some (a, b)
both _ _ = none

-- A span if it is a marker.
unfoldable pub marker_at : Text → ℕ × ℕ → Option (ℕ × ℕ)
unfolding marker_span
marker_at text (s, e) = if marker_span text s e then some (s, e) else none

abbrev pub or_else {ℓ} : {A : Type ℓ} → Option A → Option A → Option A
or_else none b = b
or_else (some a) b = some a

abbrev pub marker_in : Text → Option (ℕ × ℕ) → Option (ℕ × ℕ)
marker_in text none = none
marker_in text (some span) = marker_at text span

-- The marker between two numbers, by UTF-16 units unless `bytes`, and by bytes else.
unfoldable pub span_between : Text → Bool → ℕ → ℕ → Option (ℕ × ℕ)
unfolding marker_at utf16_boundary
span_between text bytes a b =
    let units = marker_in text (both (utf16_boundary text a) (utf16_boundary text b)) in
    if bytes then marker_at text (a, b) else or_else units (marker_at text (a, b))

abbrev pub span_of : Text → Bool → Option (ℕ × ℕ) → Option (ℕ × ℕ)
span_of text bytes none = none
span_of text bytes (some (a, b)) = if ltb a b then span_between text bytes a b else none

abbrev blank : ℕ → Bool
blank c = c == b' ' || c == 9 || c == 10 || c == 13

unfoldable pub run_is_blank : List ℕ → Bool
run_is_blank [] = true
run_is_blank (c ∷ s) = blank c && run_is_blank s

-- `text[s .. e)`
abbrev pub slice : Text → ℕ → ℕ → Text
slice text s e = take (e - s) (drop s text)

-- `none` is a NULL or empty string.
abbrev pub nonempty : Option Text → Option Text
nonempty none = none
nonempty (some []) = none
nonempty (some (c ∷ s)) = some (c ∷ s)

abbrev pub is_some {ℓ} : {A : Type ℓ} → Option A → Bool
is_some none = false
is_some (some a) = true

module _ (env : Env) where
  -- `cJSON_GetObjectItem(r, name)`
  abbrev pub item : Json → Text → Option Json
  item r name = env.cjson.get_object_item r name

  abbrev pub whole_at : Option ℕ → Option ℕ
  whole_at none = none
  whole_at (some d) = env.whole d

  -- Two whole numbers S < E, and the marker between them.
  unfoldable pub resource_span : Text → Json → Option (ℕ × ℕ)
  unfolding span_between
  resource_span text r =
      let s = whole_at (number_at (item r (codes "S"))) in
      let e = whole_at (number_at (item r (codes "E"))) in
      span_of text (is_true (item r (codes "byte_offsets"))) (both s e)

  abbrev pub image_of : Json → Option Text
  image_of r = nonempty (string_value (item r (codes "image_path")))

  -- One resource of the first pass; the state is the cursor and whether all is sticons so far.
  abbrev pub accept : Text → Json → ℕ → Bool → Option (ℕ × ℕ) → Option (ℕ × Bool)
  accept text r cursor jumbo none = none
  accept text r cursor jumbo (some (start, end)) =
      if ltb start cursor
      then none
      else some (end, jumbo && (run_is_blank (slice text cursor start) && is_some (image_of r)))

  -- The first pass: `none` is `valid = 0`.
  unfoldable pub check_spans : Text → Children → ℕ → Bool → Option (ℕ × Bool)
  unfolding resource_span run_is_blank
  check_spans text nil cursor jumbo = some (cursor, jumbo)
  check_spans text (node k r rs) cursor jumbo =
      elim (accept text r cursor jumbo (resource_span text r)) [
        | none ↦ none
        | some (end, jumbo') ↦ check_spans text rs end jumbo'
      ]

  abbrev sizes : StrBuf → ℤ → ℤ → Bool → StrBuf
  sizes b width height jumbo =
      if leb_ℤ (pos 1) width && leb_ℤ (pos 1) height
      then esb_append_str env.al b (some (env.box width height jumbo))
      else esb_append_str env.al b (some (env.zoom jumbo))

  -- The path is not empty and the divisor positive where this is called.
  unfoldable pub append_sticon_img : StrBuf → Text → ℤ → ℤ → Bool → Text → StrBuf
  append_sticon_img b path width height jumbo marker =
      let b1 = esb_append_str env.al b (some (codes "<img class=\"enil-sticon-inline\" src=\"")) in
      let b2 = esb_html_br env.al b1 (some path) in
      let b3 = esb_append_str env.al b2 (some (codes "\" alt=\"")) in
      let b4 = esb_html_br_n env.al b3 (some marker) (length marker) in
      let b5 = esb_append_str env.al b4 (some (codes "\"")) in
      esb_append_str env.al (sizes b5 width height jumbo) (some (codes ">"))

  -- `path[512]` holds 511 bytes of the path.
  unfoldable pub resolve_resource : Json → Option (Text × ℤ × ℤ)
  resolve_resource r = elim (image_of r) [
    | none ↦ none
    | some path ↦ some (
      take 511 path,
      env.to_int (item r (codes "image_width")),
      env.to_int (item r (codes "image_height")),
    )
  ]

  abbrev put_marker : StrBuf → Bool → Text → Option (Text × ℤ × ℤ) → StrBuf
  put_marker b jumbo marker none = esb_html_br_n env.al b (some marker) (length marker)
  put_marker b jumbo marker (some (path, width, height)) =
      append_sticon_img b path width height jumbo marker

  -- One resource of the second pass. The first pass has found a span already, so there is one.
  abbrev put_resource : StrBuf → Text → Bool → Json → ℕ → Option (ℕ × ℕ) → StrBuf × ℕ
  put_resource b text jumbo r cursor none = (b, cursor)
  put_resource b text jumbo r cursor (some (start, end)) =
      let b' = esb_html_br_n env.al b (some (drop cursor text)) (start - cursor) in
      (put_marker b' jumbo (slice text start end) (resolve_resource r), end)

  unfoldable pub put_spans : StrBuf → Text → Bool → Children → ℕ → StrBuf
  unfolding resource_span append_sticon_img resolve_resource
  put_spans b text jumbo nil cursor =
      esb_html_br_n env.al b (some (drop cursor text)) (length text - cursor)
  put_spans b text jumbo (node k r rs) cursor =
      let (b', end) = put_resource b text jumbo r cursor (resource_span text r) in
      put_spans b' text jumbo rs end

  -- What follows the first pass, of which `pass` is the result.
  unfoldable pub render : StrBuf → Text → Children → Option (ℕ × Bool) → StrBuf
  unfolding put_spans
  render b text resources none = esb_html_br env.al b (some text)
  render b text nil (some pass) = esb_html_br env.al b (some text)
  render b text (node k r rs) (some (cursor, jumbo)) =
      put_spans b text (jumbo && run_is_blank (slice text cursor (length text))) (node k r rs) 0

  abbrev start_html : Text → Children → StrBuf × Bool → Option (List ℕ)
  start_html text resources (b, false) = none
  start_html text resources (b, true) =
      (render b text resources (check_spans text resources 0 true)).buf

  abbrev copy_empty : Option (List ℕ) → Option (List ℕ)
  copy_empty none = none
  copy_empty (some m) = some (0 ∷ [])

  -- `strdup("")` for no text; the block with the HTML else.
  unfoldable pub format_text_html : Option Text → Children → Option (List ℕ)
  unfolding check_spans render
  format_text_html none resources = copy_empty (env.al.malloc 1)
  format_text_html (some []) resources = copy_empty (env.al.malloc 1)
  format_text_html (some (c ∷ text)) resources = start_html (c ∷ text) resources (esb_init env.al)
