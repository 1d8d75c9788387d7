-- ===== src/Thrift/Wire.antt =====
-- source/shared/enil_thrift.c: bytes, varints and zigzag numbers, on the writer's buffer and the
-- reader's cursor.
use enil.Common.{
  ℕ, ◌>>=◌, zero, suc, ◌+◌, ◌-◌, ◌*◌, ◌/◌, ◌%◌, ◌^◌, Bool, true, ◌&&◌, ◌||◌, Option, none, some,
  List, [], ◌∷◌, ◌++◌, ltb, leb, ◌==◌, if◌then◌else◌, length, get_or,
}
use enil.Common.Int.{ℤ, is_negative, to_u64, of_u64}

-- `MAX_WIRE_SIZE`, 8 MiB.
abbrev pub max_wire_size : ℕ
max_wire_size = 8 * 1024 * 1024

-- `n >>= 7` on the lowest group and what is above it.
abbrev pub low_group : ℕ → ℕ
low_group n = n % 128

-- The writer. `b` is the bytes of the `ENILBuf`; `none` is the result 0. `grants` says which sizes
-- `realloc` provides.
module _ (grants : ℕ → Bool) where
  unfoldable pub append_bytes : List ℕ → List ℕ → Option (List ℕ)
  append_bytes b p =
      if ltb max_wire_size (length p) || ltb (max_wire_size - length p) (length b)
      then none
      else if grants (length b + length p + 1)
      then some (b ++ p)
      else none

  unfoldable pub write_byte : List ℕ → ℕ → Option (List ℕ)
  unfolding append_bytes
  write_byte b c = append_bytes b (c ∷ [])

  -- The `do ... while (n)`, on fuel: each round drops seven of the 64 bits.
  unfoldable pub varint_rounds : ℕ → List ℕ → ℕ → Option (List ℕ)
  varint_rounds zero b n = none
  varint_rounds (suc fuel) b n =
      let more = λ (b' : List ℕ). varint_rounds fuel b' (n / 128) in
      if n / 128 == 0
      then write_byte b (low_group n)
      else (write_byte b (low_group n + 128) >>= more)

  unfoldable pub write_varint : List ℕ → ℕ → Option (List ℕ)
  unfolding varint_rounds
  write_varint b n = varint_rounds 10 b n

-- `((uint64_t)n << 1) ^ (uint64_t)-(n < 0)`: the mask is all ones or 0.
unfoldable pub zigzag_encode : ℤ → ℕ
zigzag_encode n =
    let twice = to_u64 n * 2 % 2 ^ 64 in if is_negative n then 2 ^ 64 - 1 - twice else twice

-- `(int64_t)(n >> 1) ^ -(int64_t)(n & 1)`, on the bit pattern.
unfoldable pub zigzag_decode : ℕ → ℤ
zigzag_decode n = of_u64 (if n % 2 == 1 then 2 ^ 64 - 1 - n / 2 else n / 2)

-- `Reader`, without `p`, `n` and `strict_strings`, which do not change.
pub record Reader : Type 0 where
  pub pos : ℕ
  pub bad : Bool

-- The bytes `p`; the field `n` is their number.
module _ (p : List ℕ) where
  unfoldable pub read_byte : Reader → Reader × ℕ
  read_byte r =
      if leb (length p) r.pos
      then (record r { bad = true }, 0)
      else (record r { pos = r.pos + 1 }, get_or p r.pos 0)

  -- The rounds `i`, ..., 9 of the loop; `left` is 10 - i. The groups are below one another, so
  -- `|` adds them.
  unfoldable pub varint_loop : ℕ → ℕ → ℕ → Reader → Reader × ℕ
  varint_loop zero i n r = (record r { bad = true }, 0)
  varint_loop (suc left) i n r =
      let (r', c) = read_byte r in
      let s = record r' { bad = r'.bad || (i == 9 && ltb 1 c) } in
      let n' = (n + c % 128 * 2 ^ (i * 7)) % 2 ^ 64 in
      let more = varint_loop left (i + 1) n' s in if c / 128 % 2 == 0 then (s, n') else more

  unfoldable pub read_varint : Reader → Reader × ℕ
  unfolding varint_loop
  read_varint r = varint_loop 10 0 0 r
