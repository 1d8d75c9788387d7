-- ===== src/Thrift/Read.antt =====
-- source/shared/enil_thrift.c: from the compact protocol to JSON values.
use enil.Common.{
  ℕ, zero, suc, ◌+◌, ◌-◌, ◌*◌, ◌/◌, ◌%◌, ◌^◌, Bool, true, false, not, ◌&&◌, ◌||◌, Option, none,
  some, List, [], ◌∷◌, ltb, leb, ◌==◌, if◌then◌else◌, length, take, drop,
}
use enil.Common.Int.{ℤ, pos, negsuc, leb_ℤ, to_u64}
use enil.Common.Text.{Text, codes, text_eq, c_string}
use enil.Common.Json.{Json, bool, number, string, array, object, nil}
use enil.B64.{enil_b64_encode}
use enil.Thrift.Wire.{max_wire_size, Reader, read_byte, read_varint, zigzag_decode}
use enil.Thrift.Schema.{
  Field, FieldType, Env, type_name, schema_kind, first_arg, second_arg, compact_type,
}

-- `(int)n`, on two's complement.
abbrev to_int : ℤ → ℤ
to_int n = let w = to_u64 n % 2 ^ 32 in if ltb w (2 ^ 31) then pos w else negsuc (2 ^ 32 - 1 - w)

-- `last + step`
abbrev add_step : ℤ → ℕ → ℤ
add_step (pos a) k = pos (a + k)
add_step (negsuc a) k = if ltb a k then pos (k - a - 1) else negsuc (a - k)

abbrev eq_ℤ : ℤ → ℤ → Bool
eq_ℤ (pos a) (pos b) = a == b
eq_ℤ (pos a) (negsuc b) = false
eq_ℤ (negsuc a) (pos b) = false
eq_ℤ (negsuc a) (negsuc b) = a == b

abbrev fail : Reader → Reader
fail r = record r { bad = true }

abbrev has_zero : List ℕ → Bool
has_zero [] = false
has_zero (c ∷ s) = c == 0 || has_zero s

-- The schema's entry for a field ID, if a schema is given.
unfoldable pub find_field : ℤ → List Field → Option Field
find_field id [] = none
find_field id (f ∷ fs) = if eq_ℤ (pos f.id) id then some f else find_field id fs

-- A reader's function: the cursor afterwards, and a node or NULL.
abbrev pub Result : Type 0
Result = Reader × Option Json

-- `read_value(r, t, code, depth, field)` at a fixed depth.
abbrev pub ReadValue : Type 0
ReadValue = Option FieldType → ℕ → Bool → Reader → Result

module _ (env : Env) (p : List ℕ) (strict_strings : Bool) where
  -- In a field the header has told the value; in a container a byte follows.
  unfoldable pub read_bool : ℕ → Bool → Reader → Result
  read_bool code field r =
      let (r', c) = if field then (r, code) else read_byte p r in
      (if c == 1 || c == 2 then r' else fail r', env.cjson.create (bool (c == 1)))

  unfoldable pub read_integer : ℕ → Reader → Result
  read_integer code r =
      let (rb, c) = read_byte p r in
      let (rv, w) = read_varint p r in
      let r' = if code == 3 then rb else rv in
      let n =
        if code == 3 then (if ltb c 128 then pos c else negsuc (255 - c)) else zigzag_decode w in
      (
        r',
        env.cjson.create
            (if code == 6 then string (env.numbers.print_lld n) else number (env.numbers.of_i64 n)),
      )

  -- The bytes i, ..., 7 of a double, lowest first, as a bit pattern; `left` is 8 - i.
  unfoldable pub read_bits : ℕ → ℕ → ℕ → Reader → Reader × ℕ
  read_bits zero i bits r = (r, bits)
  read_bits (suc left) i bits r =
      let (r', c) = read_byte p r in read_bits left (i + 1) (bits + c * 2 ^ (i * 8)) r'

  unfoldable pub read_double : Reader → Result
  unfolding read_bits
  read_double r = let (r', bits) = read_bits 8 0 0 r in (r', env.cjson.create (number bits))

  abbrev is_some {ℓ} : {A : Type ℓ} → Option A → Bool
  is_some none = false
  is_some (some a) = true

  -- The node for the text `s`, or NULL where the text could not be made.
  abbrev text_node : Option Text → Option Json
  text_node none = none
  text_node (some s) = env.cjson.create (string s)

  unfoldable pub read_text : Option FieldType → Reader → Result
  read_text t r =
      let (r', n) = read_varint p r in
      let bytes = take n (drop r'.pos p) in
      let r'' = record r' { pos = r'.pos + n } in
      if ltb (length p - r'.pos) n || ltb max_wire_size n
      then (fail r', none)
      else if text_eq (schema_kind t) (codes "binary")
      then (r'', text_node (enil_b64_encode env.evp env.grants bytes))
      else if (is_some t || strict_strings) && has_zero bytes
      then (fail r', none)
      else (r'', text_node (if env.grants (n + 1) then some (c_string bytes) else none))

  -- Adding one entry to the container `o`.
  unfoldable pub add_item : Json → Json → Json
  add_item o v = elim (env.cjson.add_item_to_array o v) [ none ↦ o | some o' ↦ o' ]

  unfoldable pub add_entry : Json → Text → Json → Json
  add_entry o k v = elim (env.cjson.add_item_to_object o k v) [ none ↦ o | some o' ↦ o' ]

  -- The loop over the items of a list or set; `left` is n - i.
  unfoldable pub read_items : ReadValue → Option FieldType → ℕ → ℕ → Json → Reader → Result
  unfolding add_item
  read_items value t vt zero o r = (r, some o)
  read_items value t vt (suc left) o r =
      let (r', v) = value (first_arg t) vt false r in
      let next = λ (j : Json). read_items value t vt left (add_item o j) r' in
      if r.bad then (r, some o) else elim v [ none ↦ (fail r', some o) | some j ↦ next j ]

  -- One entry of a map under the key node `k`.
  unfoldable pub put_entry : Json → Json → Json → Reader → Reader × Json
  unfolding add_entry
  put_entry o (string k) v r = (r, add_entry o k v)
  put_entry o (number d) v r = (r, add_entry o (env.numbers.print_whole d) v)
  put_entry o _ v r = (fail r, o)

  unfoldable pub read_entries : ReadValue → Option FieldType → ℕ → ℕ → ℕ → Json → Reader → Result
  unfolding put_entry
  read_entries value t kt vt zero o r = (r, some o)
  read_entries value t kt vt (suc left) o r =
      let (rk, k) = value (first_arg t) kt false r in
      let (rv, v) = value (second_arg t) vt false rk in
      let next = λ (kj vj : Json).
        let (r', o') = put_entry o kj vj rv in read_entries value t kt vt left o' r' in
      if r.bad then (r, some o) else elim k [
        | none ↦ (fail rv, some o)
        | some kj ↦ elim v [ none ↦ (fail rv, some o) | some vj ↦ next kj vj ]
      ]

  -- `if (n > 100000 || n > r->n - r->pos || !o)`, then the loop.
  unfoldable pub bounded : ℕ → Option Json → (Json → Reader → Result) → Reader → Result
  bounded n none loop r = (fail r, none)
  bounded n (some o) loop r =
      if ltb 100000 n || ltb (length p - r.pos) n then (fail r, some o) else loop o r

  unfoldable pub read_list : ReadValue → Option FieldType → Reader → Result
  unfolding bounded read_items
  read_list value t r =
      let (r', h) = read_byte p r in
      let (rl, long) = read_varint p r' in
      let r'' = if h / 16 == 15 then rl else r' in
      let n = if h / 16 == 15 then long else h / 16 in
      bounded n (env.cjson.create (array nil)) (read_items value t (h % 16) n) r''

  unfoldable pub read_map : ReadValue → Option FieldType → Reader → Result
  unfolding bounded read_entries
  read_map value t r =
      let (r', n) = read_varint p r in
      let (rt, types) = read_byte p r' in
      let r'' = if n == 0 then r' else rt in
      let h = if n == 0 then 0 else types in
      bounded n (env.cjson.create (object nil)) (read_entries value t (h / 16) (h % 16) n) r''

  -- The name under which a field is stored: its schema name, or its ID in decimal.
  abbrev pub field_name : ℤ → Option Field → Text
  field_name id none = env.numbers.print_lld id
  field_name id (some f) = f.name

  abbrev pub field_type : Option Field → Option FieldType
  field_type none = none
  field_type (some f) = some f.type

  -- Storing a field that was read: a name twice is an error.
  unfoldable pub store_field : Json → Text → Json → Option Json
  store_field o name v =
      if env.cjson.has_object_item o name then none else env.cjson.add_item_to_object o name v

  -- The field ID behind the header byte `h`.
  unfoldable pub read_id : ℤ → ℕ → Reader → Reader × ℤ
  read_id last h r =
      let (r', w) = read_varint p r in
      if h / 16 == 0 then (r', to_int (zigzag_decode w)) else (r, add_step last (h / 16))

  -- `while (!r->bad)` of `read_struct`, on fuel: every round but the last takes a byte.
  unfoldable pub read_fields : ReadValue → List Field → ℕ → ℤ → Json → Reader → Result
  unfolding store_field read_id
  read_fields value fs zero last o r = (fail r, some o)
  read_fields value fs (suc fuel) last o r =
      let (rh, h) = read_byte p r in
      let (ri, id) = read_id last h rh in
      let f = find_field id fs in
      let (rv, v) = value (field_type f) (h % 16) true ri in
      let next = λ (o' : Json). read_fields value fs fuel id o' rv in
      if r.bad
      then (r, some o)
      else if h == 0
      then (rh, some o)
      else if not (leb_ℤ (negsuc 32767) id && leb_ℤ id (pos 32767))
      then (fail ri, some o)
      else elim v [
        | none ↦ (fail rv, some o)
        | some j ↦ elim (store_field o (field_name id f) j) [
          | none ↦ (fail rv, some o)
          | some o' ↦ next o'
        ]
      ]

  abbrev pub fields_or_none : Option (List Field) → List Field
  fields_or_none none = []
  fields_or_none (some fs) = fs

  unfoldable pub read_struct_with : ReadValue → Option (List Field) → Reader → Result
  unfolding read_fields
  read_struct_with value fs r = elim (env.cjson.create (object nil)) [
    | none ↦ (fail r, none)
    | some o ↦ read_fields value (fields_or_none fs) (length p + 2) (pos 0) o r
  ]

  -- `depth > 40` in `read_struct`: the new object is returned empty, or NULL.
  abbrev pub too_deep : Reader → Result
  too_deep r = (fail r, env.cjson.create (object nil))

  abbrev wrong_type : Option FieldType → ℕ → Bool
  wrong_type none code = false
  wrong_type (some t) code =
      not (text_eq (schema_kind (some t)) (codes "_any"))
      && not (code == compact_type (some t))
      && not (compact_type (some t) == 1 && code == 2)

  -- The body of `read_value`: `value` is `read_value` and `struct` is `read_struct` one level down.
  unfoldable pub read_node : ReadValue → (Reader → Result) → ReadValue
  unfolding read_bool read_integer read_double read_text read_list read_map
  read_node value struct t code field r =
      if wrong_type t code
      then (fail r, none)
      else if code == 1 || code == 2
      then read_bool code field r
      else if leb 3 code && leb code 6
      then read_integer code r
      else if code == 7
      then read_double r
      else if code == 8
      then read_text t r
      else if code == 12
      then struct r
      else if code == 9 || code == 10
      then read_list value t r
      else if code == 11
      then read_map value t r
      else (fail r, none)

  -- The first argument is 41 - depth, as in `write_value`.
  unfoldable pub read_value : ℕ → ReadValue
  unfolding read_node read_struct_with
  read_value zero t code field r = (fail r, none)
  read_value (suc zero) t code field r =
      read_node (λ t' code' field' r'. (fail r', none)) too_deep t code field r
  read_value (suc (suc left)) t code field r =
      read_node (read_value (suc left))
        (read_struct_with (read_value left) (env.schema (type_name t))) t code field r

  -- `read_struct(&r, fs, 0)`
  unfoldable pub read_struct : Option (List Field) → Reader → Result
  unfolding read_value
  read_struct fs r = read_struct_with (read_value 40) fs r
