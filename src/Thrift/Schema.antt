-- ===== src/Thrift/Schema.antt =====
-- source/shared/enil_thrift.c: the field schema and the type codes of the compact protocol.
-- The schema itself is generated (enil_thrift_schema.inc) and is a parameter of reader and writer.
use enil.Common.{ℕ, Bool, Option, none, some, List, [], if◌then◌else◌, ◌||◌}
use enil.Common.Text.{Text, codes, text_eq}
use enil.Common.Json.{Cjson, Numbers}
use enil.B64.{Evp}

-- A field type: a name, or an array of a kind and one or two types, `["list", t]`, `["map", k, v]`.
pub data FieldType : Type 0 where
  named : Text → FieldType
  unary : Text → FieldType → FieldType
  binary : Text → FieldType → FieldType → FieldType

-- `[field ID, field name, field type]`
pub record Field : Type 0 where
  pub id : ℕ
  pub name : Text
  pub type : FieldType

-- What the codec calls: memory, JSON, numbers, base64, and the schema's structs by name.
pub record Env : Type 0 where
  pub grants : ℕ → Bool
  pub cjson : Cjson
  pub numbers : Numbers
  pub evp : Evp
  pub schema : Text → Option (List Field)

-- `json_string(t)` for a type that is a plain name, "" for every other.
abbrev pub type_name : Option FieldType → Text
type_name none = []
type_name (some (named s)) = s
type_name (some (unary k a)) = []
type_name (some (binary k a b)) = []

abbrev pub schema_kind : Option FieldType → Text
schema_kind none = []
schema_kind (some (named s)) = s
schema_kind (some (unary k a)) = k
schema_kind (some (binary k a b)) = k

-- `array_item(t, 1)` and `array_item(t, 2)`
abbrev pub first_arg : Option FieldType → Option FieldType
first_arg none = none
first_arg (some (named s)) = none
first_arg (some (unary k a)) = some a
first_arg (some (binary k a b)) = some a

abbrev pub second_arg : Option FieldType → Option FieldType
second_arg none = none
second_arg (some (named s)) = none
second_arg (some (unary k a)) = none
second_arg (some (binary k a b)) = some b

unfoldable pub compact_type : Option FieldType → ℕ
compact_type t =
    if text_eq (schema_kind t) (codes "bool")
    then 1
    else if text_eq (schema_kind t) (codes "byte")
    then 3
    else if text_eq (schema_kind t) (codes "i16")
    then 4
    else if text_eq (schema_kind t) (codes "i32")
    then 5
    else if text_eq (schema_kind t) (codes "i64")
    then 6
    else if text_eq (schema_kind t) (codes "double")
    then 7
    else if text_eq (schema_kind t) (codes "string") || text_eq (schema_kind t) (codes "binary")
    then 8
    else if text_eq (schema_kind t) (codes "list")
    then 9
    else if text_eq (schema_kind t) (codes "set")
    then 10
    else if text_eq (schema_kind t) (codes "map")
    then 11
    else 12
