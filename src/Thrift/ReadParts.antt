-- ===== src/Thrift/ReadParts.antt =====
-- source/shared/enil_thrift.c: on any bytes at all, the readers of single values and of lists and maps stay
-- within them, if the reader of their elements does.
use enil.Common.{
  ℕ, zero, suc, ◌+◌, ◌*◌, ◌^◌, ◌≤◌, ◌≡◌, Bool, true, false, Option, none, some, List, arith, length,
  Option-cases, ◌≢◌, inl, inr,
}
use enil.Common.Json.{Json, null, string, number, array, object, nil}
use enil.Common.Int.{ℤ}
use enil.Thrift.Wire.{Reader, read_byte, read_varint}
use enil.Thrift.RoundTrip.{Within, read_byte-Within, varint_loop-Within}
use enil.Thrift.Schema.{Env, FieldType, first_arg, second_arg}
use enil.Thrift.Read.{
  Result, ReadValue, read_bool, read_integer, read_bits, read_text, read_items, read_entries,
  add_item, put_entry, bounded, read_list, read_map, read_id,
}

module _ (env : Env) (p : List ℕ) (strict : Bool) where
  -- A byte other than 0 moves the cursor on.
  pub read_byte_progress :
      (r : Reader) → r.pos ≤ length p → (read_byte p r).1 ≢ 0 → (read_byte p r).0.pos ≡ r.pos + 1
  unfolding read_byte
  read_byte_progress r h = ground arith

  read_varint-Within : (r : Reader) → r.pos ≤ length p → Within p r (read_varint p r).0
  unfolding read_varint
  read_varint-Within r h = varint_loop-Within p 10 0 0 r h

  pub read_bool-Within :
      (code : ℕ) (field : Bool) (r : Reader)
      → r.pos ≤ length p
      → Within p r (read_bool env p strict code field r).0
  unfolding read_bool
  read_bool-Within code field r h = ground (arith, read_byte-Within p r)

  pub read_integer-Within :
      (code : ℕ) (r : Reader) → r.pos ≤ length p → Within p r (read_integer env p strict code r).0
  unfolding read_integer
  read_integer-Within code r h = ground (arith, read_byte-Within p r, read_varint-Within r)

  pub read_bits-Within :
      (left i bits : ℕ) (r : Reader)
      → r.pos ≤ length p
      → Within p r (read_bits env p strict left i bits r).0
  unfolding read_bits
  read_bits-Within zero i bits r h = ground arith
  read_bits-Within (suc left) i bits r h = ground (
    arith,
    read_byte-Within p r,
    read_bits-Within left (i + 1) (bits + (read_byte p r).1 * 2 ^ (i * 8)) (read_byte p r).0,
  )

  pub read_text-Within :
      (t : Option FieldType) (r : Reader)
      → r.pos ≤ length p
      → Within p r (read_text env p strict t r).0
  unfolding read_text
  read_text-Within t r h = ground (arith, read_varint-Within r)

  put_entry-pos :
      (o k v : Json) (r : Reader)
      → ((put_entry env p strict o k v r).0.pos ≡ r.pos)
        × (r.bad ≡ true → (put_entry env p strict o k v r).0.bad ≡ true)
  unfolding put_entry
  put_entry-pos o null v r = ground arith
  put_entry-pos o (string k) v r = ground arith
  put_entry-pos o (number d) v r = ground arith
  put_entry-pos o _ v r = ground arith

  -- A reader of values that keeps to the message.
  abbrev pub Safe : ReadValue → Type 0
  Safe value =
      (t : Option FieldType) (code : ℕ) (field : Bool) (r : Reader)
      → r.pos ≤ length p
      → Within p r (value t code field r).0

  module _ (value : ReadValue) (safe : Safe value) where
    read_items-Within :
        (t : Option FieldType) (vt left : ℕ) (o : Json) (r : Reader)
        → r.pos ≤ length p
        → Within p r (read_items env p strict value t vt left o r).0
    unfolding read_items
    read_items-Within t vt zero o r h = ground arith
    read_items-Within t vt (suc left) o r h =
        let first = safe (first_arg t) vt false r h in
        elim (Option-cases (value (first_arg t) vt false r).1) [
          | inl e ↦ ground (arith, e, first)
          | inr (j, e) ↦ ground (
            arith,
            e,
            first,
            read_items-Within t vt left (add_item env p strict o j)
                (value (first_arg t) vt false r).0,
          )
        ]

    read_entries-Within :
        (t : Option FieldType) (kt vt left : ℕ) (o : Json) (r : Reader)
        → r.pos ≤ length p
        → Within p r (read_entries env p strict value t kt vt left o r).0
    unfolding read_entries
    read_entries-Within t kt vt zero o r h = ground arith
    read_entries-Within t kt vt (suc left) o r h =
        let first = safe (first_arg t) kt false r h in
        let rk = (value (first_arg t) kt false r).0 in
        let second = safe (second_arg t) vt false rk first.1 in
        let rv = (value (second_arg t) vt false rk).0 in
        elim (Option-cases (value (first_arg t) kt false r).1) [
          | inl e ↦ ground (arith, e, first, second)
          | inr (kj, e) ↦ elim (Option-cases (value (second_arg t) vt false rk).1) [
            | inl e' ↦ ground (arith, e, e', first, second)
            | inr (vj, e') ↦
                let put = put_entry env p strict o kj vj rv in
                ground (
                  arith,
                  e,
                  e',
                  first,
                  second,
                  put_entry-pos o kj vj rv,
                  read_entries-Within t kt vt left put.1 put.0,
                )
          ]
        ]

    bounded-Within :
        (n : ℕ) (c : Option Json) (loop : Json → Reader → Result) (r r' : Reader)
        → ((o : Json) → Within p r' (loop o r').0)
        → Within p r r'
        → Within p r (bounded env p strict n c loop r').0
    unfolding bounded
    bounded-Within n none loop r r' each h = ground arith
    bounded-Within n (some o) loop r r' each h = ground (arith, each o)

    pub read_list-Within :
        (t : Option FieldType) (r : Reader)
        → r.pos ≤ length p
        → Within p r (read_list env p strict value t r).0
    unfolding read_list
    read_list-Within t r h =
        let rh = (read_byte p r).0 in
        let head = read_byte-Within p r h in
        let long = read_varint-Within rh head.1 in
        bounded-Within _ (env.cjson.create (array nil)) _ r _
          (λ o. read_items-Within t _ _ o _ (ground (arith, head, long)))
          (ground (arith, head, long))

    pub read_map-Within :
        (t : Option FieldType) (r : Reader)
        → r.pos ≤ length p
        → Within p r (read_map env p strict value t r).0
    unfolding read_map
    read_map-Within t r h =
        let rn = (read_varint p r).0 in
        let size = read_varint-Within r h in
        let types = read_byte-Within p rn size.1 in
        bounded-Within _ (env.cjson.create (object nil)) _ r _
          (λ o. read_entries-Within t _ _ _ o _ (ground (arith, size, types)))
          (ground (arith, size, types))

    pub read_id-Within :
        (last : ℤ) (h : ℕ) (r : Reader)
        → r.pos ≤ length p
        → Within p r (read_id env p strict last h r).0
    unfolding read_id
    read_id-Within last h r b = ground (arith, read_varint-Within r)
