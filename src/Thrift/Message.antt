-- ===== src/Thrift/Message.antt =====
-- source/shared/enil_thrift.c: whole reply messages.
use enil.Common.{
  ℕ, ◌+◌, ◌-◌, ◌/◌, ◌%◌, Bool, true, false, not, ◌&&◌, ◌||◌, Option, none, some, List, ◌++◌, ltb,
  ◌==◌, if◌then◌else◌, length, take, drop, get_or,
}
use enil.Common.Text.{Text, codes, text_eq}
use enil.Common.Json.{Json}
use enil.Thrift.Wire.{max_wire_size, Reader, read_byte, read_varint}
use enil.Thrift.Schema.{Env}
use enil.Thrift.Read.{read_struct}

-- `some kind` once the type byte is accepted: whether the reply is an exception (message type 3).
-- `wanted` is `exception != NULL`, where an exception is a reply too.
unfoldable pub reply_kind : Bool → ℕ → Option Bool
reply_kind wanted mt =
    if not (mt % 32 == 1) || (not (mt / 32 == 2) && not (wanted && mt / 32 == 3))
    then none
    else some (mt / 32 == 3)

module _ (env : Env) where
  -- `decode_message`. With the result comes what `*exception` then holds, which is 0 at the start.
  unfoldable pub decode_message : Text → List ℕ → Bool → Option Json × Bool
  unfolding reply_kind
  decode_message method p wanted =
      let start : Reader = record { pos = 0; bad = false } in
      let (r1, magic) = read_byte p start in
      let (r2, mt) = read_byte p r1 in
      let (r3, seq) = read_varint p r2 in
      let (r4, n) = read_varint p r3 in
      let r5 = record r4 { pos = r4.pos + n } in
      let fs = if wanted then none else env.schema (take 159 (method ++ codes "_result")) in
      let (r6, o) = read_struct env p wanted fs r5 in
      -- Some servers append one redundant STOP.
      let extra = ltb r6.pos (length p) && length p - r6.pos == 1 && get_or p r6.pos 0 == 0 in
      let last = if extra then r6.pos + 1 else r6.pos in
      if ltb max_wire_size (length p) || not (magic == 0x82)
      then (none, false)
      else elim (reply_kind wanted mt) [
        | none ↦ (none, false)
        | some exception ↦
            if not (seq == 0)
              || not (n == length method)
              || ltb (length p - r4.pos) n
              || not (text_eq (take n (drop r4.pos p)) method)
              || r6.bad
              || not (last == length p)
            then (none, exception)
            else (o, exception)
      ]

  unfoldable pub enil_thrift_decode : Text → List ℕ → Option Json
  unfolding decode_message
  enil_thrift_decode method p = (decode_message method p false).0

  unfoldable pub enil_thrift_decode_raw : Text → List ℕ → Option Json × Bool
  unfolding decode_message
  enil_thrift_decode_raw method p = decode_message method p true
