-- ===== src/Thrift/Runs.antt =====
-- Concrete runs of the codec, and the theorems at concrete inputs.
use enil.Common.{ℕ, ◌≡◌, refl, true, false, some, List, [], ◌∷◌, ◌++◌, arith}
use enil.Common.Int.{pos, negsuc}
use enil.Common.Text.{codes, text_eq, c_string}
use enil.Common.Json.{Json, bool, string, object, nil, node}
use enil.Common.Samples.{sample_cjson, sample_numbers, sample_evp}
use enil.Thrift.Wire.{
  Reader, write_byte, write_varint, zigzag_encode, zigzag_decode, read_byte, read_varint,
}
use enil.Thrift.RoundTrip.{zigzag_decode-encode, read_varint-write_varint, Within}
use enil.Thrift.Schema.{Env, Field, named, compact_type}
use enil.Thrift.Write.{enil_thrift_encode}
use enil.Thrift.Read.{read_struct, read_fields, read_value, find_field}
use enil.Thrift.Message.{enil_thrift_decode}
use enil.Thrift.ReadSafety.{read_struct-Within, read_struct_fields-fuel}

abbrev ping_fields : List Field
ping_fields =
    record { id = 1; name = codes "ok"; type = named (codes "bool") }
    ∷ record { id = 20; name = codes "text"; type = named (codes "string") }
    ∷ []

abbrev sample_env : Env
sample_env = record {
  grants = λ n. true;
  cjson = sample_cjson;
  numbers = sample_numbers;
  evp = sample_evp;
  schema = λ name. some ping_fields;
}

abbrev ping : Json
ping = object (node (codes "text") (string (codes "hi")) (node (codes "ok") (bool true) nil))

ping_bytes :
    enil_thrift_encode sample_env (codes "p") ping
    ≡ some (0x82 ∷ 0x21 ∷ 0 ∷ 1 ∷ b'p' ∷ 0x11 ∷ 8 ∷ 40 ∷ 2 ∷ b'h' ∷ b'i' ∷ 0 ∷ [])
unfolding enil_thrift_encode compact_type text_eq write_byte write_varint zigzag_encode
ping_bytes = refl

ping_back :
    enil_thrift_decode sample_env
      (codes "p")
      (0x82 ∷ 0x41 ∷ 0 ∷ 1 ∷ b'p' ∷ 0x11 ∷ 8 ∷ 40 ∷ 2 ∷ b'h' ∷ b'i' ∷ 0 ∷ [])
    ≡ some (object (node (codes "ok") (bool true) (node (codes "text") (string (codes "hi")) nil)))
unfolding enil_thrift_decode read_struct read_byte read_varint zigzag_decode text_eq compact_type
    find_field c_string
ping_back = refl

zigzag_decode-encode_example : zigzag_decode (zigzag_encode (negsuc 6)) ≡ negsuc 6
zigzag_decode-encode_example = zigzag_decode-encode (negsuc 6) (omega arith)

read_varint-write_varint_example :
    read_varint ((7 ∷ 0xac ∷ 2 ∷ []) ++ (9 ∷ [])) (record { pos = 1; bad = false })
    ≡ (record { pos = 3; bad = false }, 300)
unfolding write_varint write_byte
read_varint-write_varint_example =
    read_varint-write_varint (λ n. true) (7 ∷ []) (9 ∷ []) 300 false (omega arith) refl

abbrev cut : List ℕ
cut = 0x11 ∷ 8 ∷ 40 ∷ 9 ∷ b'h' ∷ []

abbrev start : Reader
start = record { pos = 0; bad = false }

read_struct-Within_example :
    Within cut start (read_struct sample_env cut false (some ping_fields) start).0
read_struct-Within_example =
    read_struct-Within sample_env cut false (some ping_fields) start (omega arith)

read_struct_fields-fuel_example :
    read_fields sample_env cut false
      (read_value sample_env cut false 40)
      ping_fields
      6
      (pos 0)
      (object nil)
      start
    ≡ read_fields sample_env cut false
        (read_value sample_env cut false 40)
        ping_fields
        99
        (pos 0)
        (object nil)
        start
read_struct_fields-fuel_example =
    read_struct_fields-fuel sample_env cut false 40 ping_fields 6 99 (pos 0) (object nil) start
      (omega arith) (omega arith) (omega arith)
