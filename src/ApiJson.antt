-- ===== src/ApiJson.antt =====
-- source/shared/enil_api_json.c: typed fields of JSON objects. `none` is the result -1 (or NULL).
-- `strdup` copies a text; `grants` says whether it finds the memory.
use enil.Common.{ℕ, ◌+◌, Bool, true, false, Option, none, some, if◌then◌else◌, length}
use enil.Common.Int.{ℤ, pos}
use enil.Common.Text.{Text}
use enil.Common.Json.{Json, Cjson, Numbers, bool, number, string}

abbrev pub copied : (ℕ → Bool) → Text → Option Text
copied grants s = if grants (length s + 1) then some s else none

abbrev pub text_of : (ℕ → Bool) → Option Json → Option Text
text_of grants (some (string s)) = copied grants s
text_of grants _ = none

module _ (cjson : Cjson) where
  unfoldable pub enil_json_dup_string : (ℕ → Bool) → Json → Text → Option Text
  enil_json_dup_string grants obj key =
      text_of grants (cjson.get_object_item_case_sensitive obj key)

  -- An absent field is no error: `some none` is a result 0 with NULL stored.
  abbrev pub opt_text_of : (ℕ → Bool) → Option Json → Option (Option Text)
  opt_text_of grants (some (string s)) = elim (copied grants s) [
    | none ↦ none
    | some t ↦ some (some t)
  ]
  opt_text_of grants _ = some none

  unfoldable pub enil_json_dup_string_opt : (ℕ → Bool) → Json → Text → Option (Option Text)
  enil_json_dup_string_opt grants obj key =
      opt_text_of grants (cjson.get_object_item_case_sensitive obj key)

  -- `(int)item->valuedouble`, by the caller's conversion.
  abbrev pub int_of : (ℕ → ℤ) → Option Json → Option ℤ
  int_of to_int (some (number d)) = some (to_int d)
  int_of to_int _ = none

  unfoldable pub enil_json_get_int : (ℕ → ℤ) → Json → Text → Option ℤ
  enil_json_get_int to_int obj key = int_of to_int (cjson.get_object_item_case_sensitive obj key)

  abbrev pub bool_of : Option Json → Option Bool
  bool_of (some (bool x)) = some x
  bool_of _ = none

  unfoldable pub enil_json_get_bool : Json → Text → Option Bool
  enil_json_get_bool obj key = bool_of (cjson.get_object_item_case_sensitive obj key)

-- A number, or a text read as far as `strtoll` goes; 0 for all else.
unfoldable pub enil_json_coerce_int64 : Numbers → Option Json → ℤ
enil_json_coerce_int64 numbers (some (number d)) = numbers.to_i64 d
enil_json_coerce_int64 numbers (some (string s)) = numbers.strtoll_prefix s
enil_json_coerce_int64 numbers _ = pos 0

abbrev pub coercible : Option Json → Bool
coercible (some (number d)) = true
coercible (some (string s)) = true
coercible _ = false

unfoldable pub enil_json_get_int64 : Cjson → Numbers → Json → Text → Option ℤ
unfolding enil_json_coerce_int64
enil_json_get_int64 cjson numbers obj key =
    let item = cjson.get_object_item_case_sensitive obj key in
    if coercible item then some (enil_json_coerce_int64 numbers item) else none
