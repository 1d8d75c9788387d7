-- ===== src/Common/Json.antt =====
-- JSON values as the trees of the cJSON library, and its calls, which the program uses and does not
-- implement.
use enil.Common.Text.{Text, text_eq}
use enil.Common.Tests.{if◌then◌else◌}
use enil.Common.Int.{ℤ}
use Prim.Native.Nat.{ℕ, zero, suc}
use mathlib.Core.List.{List, [], ◌∷◌}
use mathlib.Core.Path.{◌≡◌}
use mathlib.Core.Bool.{Bool, true, false}
use mathlib.Core.Option.{Option, none, some}

-- The public `struct cJSON`: arrays and objects share the `child` chain, whose nodes carry the key
-- `string` in an object. A number is the bit pattern of its `valuedouble`.
mutual
  pub data Json : Type 0 where
    null : Json
    bool : Bool → Json
    number : ℕ → Json
    string : Text → Json
    array : Children → Json
    object : Children → Json

  pub data Children : Type 0 where
    nil : Children
    node : Text → Json → Children → Children

abbrev pub is_object : Json → Bool
is_object (object kids) = true
is_object _ = false

abbrev pub is_array : Json → Bool
is_array (array kids) = true
is_array _ = false

-- `v->child`
abbrev pub child : Json → Children
child (array kids) = kids
child (object kids) = kids
child _ = nil

-- The child at an index, and how many there are.
abbrev pub nth : Children → ℕ → Option Json
nth nil i = none
nth (node k v kids) zero = some v
nth (node k v kids) (suc i) = nth kids i

abbrev pub size : Children → ℕ
size nil = 0
size (node k v kids) = suc (size kids)

-- cJSON's functions. `create` is the making of a node, `none` when memory is out; the `add`
-- functions answer `none` when they fail.
pub record Cjson : Type 0 where
  pub get_array_item : Json → ℕ → Option Json
  pub get_object_item_case_sensitive : Json → Text → Option Json
  pub get_object_item : Json → Text → Option Json
  pub get_array_size : Json → ℕ
  pub has_object_item : Json → Text → Bool
  pub create : Json → Option Json
  pub add_item_to_object : Json → Text → Json → Option Json
  pub add_item_to_array : Json → Json → Option Json
  pub parse : Text → Option Json
  pub print_unformatted : Json → Option Text
  -- the item and what is left of the object
  pub detach_item_from_object : Json → Text → Option (Json × Json)
  pub duplicate : Json → Option Json

-- Doubles, by their bit patterns, and the C library's number formats.
pub record Numbers : Type 0 where
  -- `strtoll` read the whole text without an error.
  pub strtoll : Text → Option ℤ
  -- the value of `strtoll` where the caller does not look at errors
  pub strtoll_prefix : Text → ℤ
  -- |v| ≤ 2^53 - 1
  pub is_safe : ℕ → Bool
  pub to_i64 : ℕ → ℤ
  pub of_i64 : ℤ → ℕ
  pub double_eq : ℕ → ℕ → Bool
  pub print_lld : ℤ → Text
  -- `%.0f`
  pub print_whole : ℕ → Text

-- What cJSON documents of arrays.
pub record ArrayLaws (cjson : Cjson) : Type 0 where
  pub get_array_size_lem : (kids : Children) → cjson.get_array_size (array kids) ≡ size kids
  pub get_array_item_lem :
      (kids : Children) (i : ℕ) → cjson.get_array_item (array kids) i ≡ nth kids i

-- The first child with a key, and the chain with a child behind it.
abbrev pub find_key : Children → Text → Option Json
find_key nil key = none
find_key (node k v kids) key = if text_eq k key then some v else find_key kids key

abbrev pub snoc : Children → Text → Json → Children
snoc nil k v = node k v nil
snoc (node j w kids) k v = node j w (snoc kids k v)

-- What cJSON documents of objects: nodes are as they were asked for, a new item goes behind the
-- others, and a key finds the first item that has it.
pub record ObjectLaws (cjson : Cjson) : Type 0 where
  pub create_lem : (v w : Json) → cjson.create v ≡ some w → w ≡ v
  pub add_item_lem :
      (kids : Children) (k : Text) (v o : Json)
      → cjson.add_item_to_object (object kids) k v ≡ some o
      → o ≡ object (snoc kids k v)
  pub get_item_lem :
      (kids : Children) (k : Text)
      → cjson.get_object_item_case_sensitive (object kids) k ≡ find_key kids k

-- Memory is never out: nodes are made, and items added.
pub record Grants (cjson : Cjson) : Type 0 where
  pub creates : (v : Json) → cjson.create v ≡ some v
  pub adds :
      (kids : Children) (k : Text) (v : Json)
      → cjson.add_item_to_object (object kids) k v ≡ some (object (snoc kids k v))

-- The children of an object with some fields behind others; a field without a value is left out.
abbrev pub extend : Children → Text → Option Json → Children
extend kids k none = kids
extend kids k (some v) = snoc kids k v

abbrev pub fields : Children → List (Text × Option Json) → Children
fields kids [] = kids
fields kids ((k, v) ∷ rest) = fields (extend kids k v) rest

-- `cJSON_AddItemToObject` of a node that may be NULL, whose result nobody looks at.
abbrev pub put : Cjson → Json → Text → Option Json → Json
put cjson o key none = o
put cjson o key (some item) = elim (cjson.add_item_to_object o key item) [ none ↦ o | some o' ↦ o' ]

-- `cJSON_GetObjectItemCaseSensitive` of an object that may be NULL.
abbrev pub field : Cjson → Option Json → Text → Option Json
field cjson none key = none
field cjson (some o) key = cjson.get_object_item_case_sensitive o key

abbrev pub string_value : Option Json → Option Text
string_value (some (string s)) = some s
string_value _ = none
