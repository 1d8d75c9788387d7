-- ===== src/Thrift/Write.antt =====
-- source/shared/enil_thrift.c: from JSON values to the compact protocol. `none` is the result 0.
use enil.Common.{
  ◌>>=◌, ℕ, zero, suc, ◌+◌, ◌-◌, ◌*◌, ◌/◌, ◌%◌, ◌^◌, Bool, true, ◌&&◌, ◌||◌, Option, none, some,
  List, [], ◌∷◌, ltb, leb, ◌==◌, if◌then◌else◌, length, take, ◌++◌,
}
use enil.Common.Int.{ℤ, pos, negsuc, leb_ℤ, to_u64}
use enil.Common.Text.{Text, codes, text_eq}
use enil.Common.Json.{
  Json, Children, null, bool, number, string, nil, node, is_object, is_array, child,
}
use enil.B64.{enil_b64_decode_alloc}
use enil.Thrift.Wire.{append_bytes, write_byte, write_varint, zigzag_encode}
use enil.Thrift.Schema.{
  Field, FieldType, Env, type_name, schema_kind, first_arg, second_arg, compact_type,
}

abbrev pub Writer : Type 0
Writer = List ℕ → Option (List ℕ)

module _ (env : Env) where
  unfoldable pub json_integer : Json → Option ℤ
  json_integer (string s) = env.numbers.strtoll s
  json_integer (number d) =
      let n = env.numbers.to_i64 d in
      if env.numbers.is_safe d && env.numbers.double_eq (env.numbers.of_i64 n) d
      then some n
      else none
  json_integer _ = none

  -- The ranges that `write_value` allows for the codes 3 (byte), 4 (i16) and 5 (i32).
  unfoldable pub in_range : ℕ → ℤ → Bool
  in_range code n =
      if code == 3
      then leb_ℤ (negsuc 127) n && leb_ℤ n (pos 127)
      else if code == 4
      then leb_ℤ (negsuc 32767) n && leb_ℤ n (pos 32767)
      else if code == 5
      then leb_ℤ (negsuc (2 ^ 31 - 1)) n && leb_ℤ n (pos (2 ^ 31 - 1))
      else true

  unfoldable pub write_integer : ℕ → Json → Writer
  unfolding json_integer in_range
  write_integer code v b = json_integer v >>= λ n.
      if in_range code n
      then (if code == 3
          then write_byte env.grants b (to_u64 n % 256)
          else write_varint env.grants b (zigzag_encode n))
      else none

  -- The eight bytes of the bit pattern, lowest first; `left` counts those still to write.
  unfoldable pub write_bits : ℕ → ℕ → Writer
  write_bits zero bits b = some b
  write_bits (suc left) bits b =
      write_byte env.grants b (bits % 256) >>= write_bits left (bits / 256)

  unfoldable pub write_double : Json → Writer
  unfolding write_bits
  write_double (number d) b = write_bits 8 d b
  write_double _ b = none

  unfoldable pub write_text : Option FieldType → Json → Writer
  write_text t (string s) b =
      if text_eq (schema_kind t) (codes "binary")
      then (do
        bytes ← enil_b64_decode_alloc env.evp env.grants s
        b' ← write_varint env.grants b (length bytes)
        append_bytes env.grants b' bytes)
      else (do b' ← write_varint env.grants b (length s); append_bytes env.grants b' s)
  write_text t _ b = none

  -- The loop over the items; `write` is `write_value` at the next depth.
  unfoldable pub write_items : (Json → Writer) → Children → Writer
  write_items write nil b = some b
  write_items write (node k v kids) b = write v b >>= write_items write kids

  unfoldable pub write_list : (Json → Writer) → Option FieldType → Json → Writer
  unfolding write_items
  write_list write t v b =
      let count = env.cjson.get_array_size v in
      if is_array v
      then (do
        b' ←
            write_byte env.grants b
              ((if ltb count 15 then count else 15) * 16 + compact_type (first_arg t))
        b'' ← (if leb 15 count then write_varint env.grants b' count else some b')
        write_items write (child v) b'')
      else none

  -- The keys of a map are written as JSON strings.
  unfoldable pub write_entries : (Json → Writer) → (Json → Writer) → Children → Writer
  write_entries write_key write nil b = some b
  write_entries write_key write (node k v kids) b = do
    key ← env.cjson.create (string k)
    b' ← write_key key b
    b'' ← write v b'
    write_entries write_key write kids b''

  unfoldable pub write_map : (Json → Writer) → (Json → Writer) → Option FieldType → Json → Writer
  unfolding write_entries
  write_map write_key write t v b =
      let count = env.cjson.get_array_size v in
      if is_object v
      then (do
        b' ← write_varint env.grants b count
        b'' ←
            (if count == 0
              then some b'
              else write_byte env.grants b'
                  (compact_type (first_arg t) * 16 + compact_type (second_arg t)))
        write_entries write_key write (child v) b'')
      else none

  -- `cJSON_IsArray(v) ? array_item(v, index) : cJSON_GetObjectItemCaseSensitive(v, name)`
  unfoldable pub field_value : Json → ℕ → Field → Option Json
  field_value v index f =
      if is_array v
      then env.cjson.get_array_item v index
      else env.cjson.get_object_item_case_sensitive v f.name

  -- The field header: the code with the step from the last ID, or the ID itself behind the code.
  unfoldable pub write_header : ℕ → ℕ → ℕ → Writer
  write_header last id code b =
      if ltb last id && ltb (id - last) 16
      then write_byte env.grants b ((id - last) * 16 + code)
      else (write_byte env.grants b code >>= λ b'.
          write_varint env.grants b' (zigzag_encode (pos id)))

  -- `!val || cJSON_IsNull(val)` is the `none` here.
  abbrev present : Option Json → Option Json
  present none = none
  present (some null) = none
  present (some v) = some v

  -- One present field. A Boolean is its header.
  unfoldable pub write_field : (Option FieldType → Json → Writer) → ℕ → Field → Json → Writer
  unfolding write_header
  write_field write last f (bool x) b =
      if compact_type (some f.type) == 1
      then write_header last f.id (if x then 1 else 2) b
      else (write_header last f.id (compact_type (some f.type)) b >>= write (some f.type) (bool x))
  write_field write last f v b =
      if compact_type (some f.type) == 1
      then none
      else (write_header last f.id (compact_type (some f.type)) b >>= write (some f.type) v)

  -- The loop of `write_struct`: an absent or null field is passed over.
  unfoldable pub write_fields :
      (Option FieldType → Json → Writer) → Json → ℕ → ℕ → List Field → Writer
  unfolding write_field field_value
  write_fields write v last index [] b = some b
  write_fields write v last index (f ∷ fs) b = elim (present (field_value v index f)) [
    | none ↦ write_fields write v last (index + 1) fs b
    | some val ↦ write_field write last f val b >>= write_fields write v f.id (index + 1) fs
  ]

  unfoldable pub write_struct_with :
      (Option FieldType → Json → Writer) → Option (List Field) → Json → Writer
  unfolding write_fields
  write_struct_with write none v b = none
  write_struct_with write (some fs) v b =
      if is_object v || is_array v
      then (write_fields write v 0 0 fs b >>= λ b'. write_byte env.grants b' 0)
      else none

  unfoldable pub write_flag : Json → Writer
  write_flag (bool x) b = write_byte env.grants b (if x then 1 else 2)
  write_flag _ b = none

  -- The body of `write_value`: `write` is `write_value` at the next depth, `fields` is what
  -- `write_struct` writes there.
  unfoldable pub write_node :
      (Option FieldType → Json → Writer) → Writer → Option FieldType → Json → Writer
  unfolding write_flag write_integer write_double write_text write_list write_map
  write_node write fields t v b =
      let code = compact_type t in
      if code == 1
      then write_flag v b
      else if leb 3 code && leb code 6
      then write_integer code v b
      else if code == 7
      then write_double v b
      else if code == 8
      then write_text t v b
      else if code == 9 || code == 10
      then write_list (write (first_arg t)) t v b
      else if code == 11
      then write_map (write (first_arg t)) (write (second_arg t)) t v b
      else fields b

  -- The first argument is 41 - depth, so it is 0 exactly where the source's `depth > 40` holds.
  -- The fields of a struct below a value are two levels deeper: `write_struct` checks the level
  -- between.
  unfoldable pub write_value : ℕ → Option FieldType → Json → Writer
  unfolding write_node write_struct_with
  write_value zero t v b = none
  write_value (suc zero) t v b = write_node (λ t' v' b'. none) (λ b'. none) t v b
  write_value (suc (suc left)) t v b =
      write_node (write_value (suc left))
        (write_struct_with (write_value left) (env.schema (type_name t)) v) t v b

  -- `write_struct(b, fs, v, 0)`
  unfoldable pub write_struct : Option (List Field) → Json → Writer
  unfolding write_value
  write_struct fs v b = write_struct_with (write_value 40) fs v b

  -- `enil_thrift_encode` into an empty buffer: a failure frees it.
  unfoldable pub enil_thrift_encode : Text → Json → Option (List ℕ)
  unfolding write_struct
  enil_thrift_encode method args = elim (env.schema (take 159 (method ++ codes "_args"))) [
    | none ↦ none
    | some fs ↦ do
      b0 ← write_byte env.grants [] 0x82
      b1 ← write_byte env.grants b0 0x21
      b2 ← write_varint env.grants b1 0
      b3 ← write_varint env.grants b2 (length method)
      b4 ← append_bytes env.grants b3 method
      write_struct (some fs) args b4
  ]
