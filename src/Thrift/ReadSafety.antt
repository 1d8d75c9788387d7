-- ===== src/Thrift/ReadSafety.antt =====
-- source/shared/enil_thrift.c: on any bytes at all, the reader stays within them.
use enil.Common.{
  ℕ, zero, suc, ◌+◌, ◌-◌, ◌%◌, ◌≤◌, ◌<◌, ◌≡◌, Bool, true, Option, none, List, arith, length,
  Option-cases, Bool-cases, ◌==◌, inl, inr,
}
use enil.Common.Json.{Json, object, nil}
use enil.Common.Int.{ℤ, pos}
use enil.Thrift.Wire.{Reader, read_byte}
use enil.Thrift.RoundTrip.{Within, read_byte-Within}
use enil.Thrift.Schema.{Env, Field, type_name}
use enil.Thrift.Read.{
  Result, ReadValue, read_fields, read_struct_with, read_node, read_value, read_struct, read_id,
  fields_or_none, too_deep, find_field, field_type, field_name, store_field,
}
use enil.Thrift.ReadParts.{
  Safe, read_byte_progress, read_bool-Within, read_integer-Within, read_bits-Within,
  read_text-Within, read_list-Within, read_map-Within, read_id-Within,
}

module _ (env : Env) (p : List ℕ) (strict : Bool) where
  module _ (value : ReadValue) (safe : Safe env p strict value) where
    read_fields-Within :
        (fs : List Field) (fuel : ℕ) (last : ℤ) (o : Json) (r : Reader)
        → r.pos ≤ length p
        → Within p r (read_fields env p strict value fs fuel last o r).0
    unfolding read_fields
    read_fields-Within fs zero last o r h = ground arith
    read_fields-Within fs (suc fuel) last o r h =
        let rh = (read_byte p r).0 in
        let head = read_byte-Within p r h in
        let x = read_id env p strict last (read_byte p r).1 rh in
        let idw = read_id-Within env p strict value safe last (read_byte p r).1 rh head.1 in
        let f = find_field x.1 fs in
        let v = value (field_type env p strict f) ((read_byte p r).1 % 16) true x.0 in
        let vw = safe (field_type env p strict f) ((read_byte p r).1 % 16) true x.0 idw.1 in
        elim (Option-cases v.1) [
          | inl e ↦ ground (arith, e, head, idw, vw)
          | inr (j, e) ↦
              elim (Option-cases (store_field env p strict o (field_name env p strict x.1 f) j)) [
                | inl e' ↦ ground (arith, e, e', head, idw, vw)
                | inr (o', e') ↦
                    ground (arith, e, e', head, idw, vw, read_fields-Within fs fuel x.1 o' v.0)
              ]
        ]

    -- A round that goes on has taken a byte, so more fuel than bytes left changes nothing.
    read_fields-fuel :
        (fs : List Field) (m n : ℕ) (last : ℤ) (o : Json) (r : Reader)
        → r.pos ≤ length p
        → length p - r.pos < m
        → length p - r.pos < n
        → read_fields env p strict value fs m last o r
          ≡ read_fields env p strict value fs n last o r
    unfolding read_fields
    read_fields-fuel fs zero n last o r h hm hn = absurd (omega arith)
    read_fields-fuel fs (suc m) zero last o r h hm hn = absurd (omega arith)
    read_fields-fuel fs (suc m) (suc n) last o r h hm hn =
        let rh = (read_byte p r).0 in
        let head = read_byte-Within p r h in
        let step = read_byte_progress env p strict r h in
        let x = read_id env p strict last (read_byte p r).1 rh in
        let idw = read_id-Within env p strict value safe last (read_byte p r).1 rh head.1 in
        let f = find_field x.1 fs in
        let v = value (field_type env p strict f) ((read_byte p r).1 % 16) true x.0 in
        let vw = safe (field_type env p strict f) ((read_byte p r).1 % 16) true x.0 idw.1 in
        elim (Bool-cases ((read_byte p r).1 == 0)) [
          | inl stop ↦ ground (arith, stop)
          | inr goes ↦ elim (Option-cases v.1) [
            | inl e ↦ ground (arith, e, goes)
            | inr (j, e) ↦
                elim (Option-cases (store_field env p strict o (field_name env p strict x.1 f) j)) [
                  | inl e' ↦ ground (arith, e, e', goes)
                  | inr (o', e') ↦
                      ground (
                        arith,
                        e,
                        e',
                        goes,
                        step,
                        head,
                        idw,
                        vw,
                        read_fields-fuel fs m n x.1 o' v.0,
                      )
                ]
          ]
        ]

    read_struct_with-Within :
        (fs : Option (List Field)) (r : Reader)
        → r.pos ≤ length p
        → Within p r (read_struct_with env p strict value fs r).0
    unfolding read_struct_with
    read_struct_with-Within fs r h = elim (Option-cases (env.cjson.create (object nil))) [
      | inl e ↦ rw (e, read_struct_with) (ground arith)
      | inr (o, e) ↦
          rw (e, read_struct_with)
            (read_fields-Within (fields_or_none env p strict fs) (length p + 2) (pos 0) o r h)
    ]

    read_node-Within :
        (struct : Reader → Result)
        → ((r : Reader) → r.pos ≤ length p → Within p r (struct r).0)
        → Safe env p strict (read_node env p strict value struct)
    unfolding read_node
    read_node-Within struct inner t code field r h = ground (
      arith,
      read_bool-Within env p strict code field r,
      read_integer-Within env p strict code r,
      read_bits-Within env p strict 8 0 0 r,
      read_text-Within env p strict t r,
      inner r,
      read_list-Within env p strict value safe t r,
      read_map-Within env p strict value safe t r,
    )

  read_value-Safe : (left : ℕ) → Safe env p strict (read_value env p strict left)
  unfolding read_value
  read_value-Safe zero t code field r h = ground arith
  read_value-Safe (suc zero) t code field r h =
      read_node-Within (λ t' c f r'. (record r' { bad = true }, none))
        (λ t' c f r' h'. ground arith) (too_deep env p strict) (λ r' h'. ground arith) t code field
        r h
  read_value-Safe (suc (suc left)) t code field r h =
      read_node-Within (read_value env p strict (suc left)) (read_value-Safe (suc left))
        (read_struct_with env p strict (read_value env p strict left) (env.schema (type_name t)))
        (λ r' h'.
          read_struct_with-Within (read_value env p strict left) (read_value-Safe left)
            (env.schema (type_name t)) r' h')
        t code field r h

  -- Reading a struct from any bytes, at any schema and any starting place in them, keeps the
  -- cursor at or behind that place and within the message, and an error that was noted stays
  -- noted.
  pub read_struct-Within :
      (fs : Option (List Field)) (r : Reader)
      → r.pos ≤ length p
      → Within p r (read_struct env p strict fs r).0
  unfolding read_struct
  read_struct-Within fs r h =
      read_struct_with-Within (read_value env p strict 40) (read_value-Safe 40) fs r h

  -- The loop over the fields of a struct ends by itself on any bytes: any two amounts of fuel
  -- above the number of bytes left give the same result.
  pub read_struct_fields-fuel :
      (left : ℕ) (fs : List Field) (m n : ℕ) (last : ℤ) (o : Json) (r : Reader)
      → r.pos ≤ length p
      → length p - r.pos < m
      → length p - r.pos < n
      → read_fields env p strict (read_value env p strict left) fs m last o r
        ≡ read_fields env p strict (read_value env p strict left) fs n last o r
  read_struct_fields-fuel left fs m n last o r h hm hn =
      read_fields-fuel (read_value env p strict left) (read_value-Safe left) fs m n last o r h hm hn
