-- ===== src/Thrift/RoundTrip.antt =====
-- source/shared/enil_thrift.c: what the reader makes of what the writer wrote.
use enil.Common.{
  ◌>>=◌, ℕ, zero, suc, ◌+◌, ◌*◌, ◌/◌, ◌%◌, ◌^◌, ◌<◌, ◌≤◌, ◌≡◌, refl, sym, ap, ◌∙◌, Bool, true,
  false, Option, none, some, List, [], ◌∷◌, ◌++◌, ltb, ◌==◌, if◌then◌else◌, length, arith,
  length-append, append_assoc, get_or-append, Bool-cases, inl, inr, or_false, ◌||◌, ◌&&◌,
}
use enil.Common.Int.{ℤ, pos, negsuc, IsI64}
use enil.Thrift.Wire.{
  append_bytes, write_byte, varint_rounds, write_varint, zigzag_encode, zigzag_decode, Reader,
  read_byte, varint_loop, read_varint, max_wire_size,
}
use native.Mathlib.Numerals.{towards_suc}
use native.Mathlib.Nat.{div-add-mod, pow-suc}

-- Zigzag_decode gives back every int64_t that zigzag_encode was given.
pub zigzag_decode-encode : (n : ℤ) → IsI64 n → zigzag_decode (zigzag_encode n) ≡ n
unfolding zigzag_decode zigzag_encode
zigzag_decode-encode (pos n) h = ground arith
zigzag_decode-encode (negsuc n) h = ground arith

-- Zigzag_encode gives back every 64-bit code that zigzag_decode was given.
pub zigzag_encode-decode : (w : ℕ) → w < 2 ^ 64 → zigzag_encode (zigzag_decode w) ≡ w
unfolding zigzag_decode zigzag_encode
zigzag_encode-decode w h = ground arith

-- The groups of seven bits that `write_varint` writes.
abbrev pub groups : ℕ → ℕ → List ℕ
groups zero n = n ∷ []
groups (suc k) n =
    let rest = groups k (n / 128) in if n / 128 == 0 then n % 128 ∷ [] else (n % 128 + 128) ∷ rest

bind_some {ℓ κ} :
    {A : Type ℓ} {B : Type κ} (m : Option A) (f : A → Option B) {b : B}
    → (m >>= f) ≡ some b
    → (a : A) × (m ≡ some a) × (f a ≡ some b)
bind_some none f h = cc
bind_some (some a) f h = (a, refl, h)

module _ (grants : ℕ → Bool) where
  -- Success appends exactly `p`, and the buffer stays within 8 MiB.
  pub append_bytes_lem :
      (b p : List ℕ) {b' : List ℕ}
      → append_bytes grants b p ≡ some b'
      → (b' ≡ b ++ p) × (length b' ≤ max_wire_size)
  unfolding append_bytes
  append_bytes_lem b p e = ground (arith, length-append b p)

  write_byte_lem :
      (b : List ℕ) (c : ℕ) (b' : List ℕ) → write_byte grants b c ≡ some b' → b' ≡ b ++ (c ∷ [])
  unfolding write_byte
  write_byte_lem b c b' e = (append_bytes_lem b (c ∷ []) {b' = b'} e).0

  varint_rounds_lem :
      (k n : ℕ) (b : List ℕ) {b' : List ℕ}
      → n < 128 ^ suc k
      → varint_rounds grants (suc k) b n ≡ some b'
      → b' ≡ b ++ groups k n
  unfolding varint_rounds
  varint_rounds_lem zero n b {b'} small e =
      let last : (n / 128 == 0) ≡ true = ground arith in
      let low : n % 128 ≡ n = omega arith in
      rw low at (write_byte_lem b (n % 128) b' (rw last at e))
  varint_rounds_lem (suc k) n b {b'} small e = elim (Bool-cases (n / 128 == 0)) [
    | inl last ↦ rw last (write_byte_lem b (n % 128) b' (rw last at e))
    | inr more ↦
        let (m, first, others) = bind_some (write_byte grants b (n % 128 + 128)) _ (rw more at e) in
        rw more (
          varint_rounds_lem k (n / 128) m (omega (arith, pow-suc 128 (suc k))) others
          ∙ ap (λ (t : List ℕ). t ++ groups k (n / 128)) (write_byte_lem b (n % 128 + 128) m first)
          ∙ append_assoc b ((n % 128 + 128) ∷ []) (groups k (n / 128)))
  ]

same_read :
    (a b : ℕ) (bad : Bool) (x y : ℕ)
    → a ≡ b
    → x ≡ y
    → ◌≡◌ {A = Reader × ℕ} (record { pos = a; bad = bad }, x) (record { pos = b; bad = bad }, y)
same_read a b bad x y e f = cc

seven_more : (s : ℕ) → 2 ^ (s + 7) ≡ 128 * 2 ^ s
seven_more s = simp towards_suc (omega arith)

-- The lowest group of `n` and the rest, at the places where they are read.
split_group :
    (n i : ℕ) → n * 2 ^ (i * 7) ≡ (n % 128 + 128) % 128 * 2 ^ (i * 7) + n / 128 * 2 ^ ((i + 1) * 7)
split_group n i =
    let next : (i + 1) * 7 ≡ i * 7 + 7 = omega arith in
    let low : (n % 128 + 128) % 128 ≡ n % 128 = omega arith in
    rw (next, low)
      (omega (
        arith,
        ap (λ (t : ℕ). t * 2 ^ (i * 7)) (div-add-mod n 128),
        ap (λ (t : ℕ). n / 128 * t) (seven_more (i * 7)),
      ))

module _ (p : List ℕ) where
  read_byte_at :
      (front rest : List ℕ) (c : ℕ) (bad : Bool)
      → p ≡ front ++ (c ∷ rest)
      → read_byte p (record { pos = length front; bad = bad })
        ≡ (record { pos = length front + 1; bad = bad }, c)
  unfolding read_byte
  read_byte_at front rest c bad e =
      rw e (ground (arith, length-append front (c ∷ rest), get_or-append front c rest 0))

  inner_byte :
      (left i acc c : ℕ) (front rest : List ℕ) (bad : Bool)
      → p ≡ front ++ (c ∷ rest)
      → 128 ≤ c
      → c < 256
      → i < 9
      → acc + c % 128 * 2 ^ (i * 7) < 2 ^ 64
      → varint_loop p (suc left) i acc (record { pos = length front; bad = bad })
        ≡ varint_loop p left
            (i + 1)
            (acc + c % 128 * 2 ^ (i * 7))
            (record { pos = length front + 1; bad = bad })
  unfolding varint_loop
  inner_byte left i acc c front rest bad e lo hi hi' fits =
      let set_bit : (c / 128 % 2 == 0) ≡ false = ground arith in
      let early : (i == 9) ≡ false = ground arith in
      let exact : (acc + c % 128 * 2 ^ (i * 7)) % 2 ^ 64 ≡ acc + c % 128 * 2 ^ (i * 7) =
        omega arith in
      rw (read_byte_at front rest c bad e, set_bit, early, exact, or_false bad)

  varint_loop-groups :
      (k i n acc : ℕ) (front rest : List ℕ) (bad : Bool)
      → p ≡ front ++ (groups k n ++ rest)
      → i + k ≡ 9
      → acc + n * 2 ^ (i * 7) < 2 ^ 64
      → n < 128 ^ suc k
      → varint_loop p (suc k) i acc (record { pos = length front; bad = bad })
        ≡ (record { pos = length front + length (groups k n); bad = bad }, acc + n * 2 ^ (i * 7))
  unfolding varint_loop
  varint_loop-groups zero i n acc front rest bad e hi fits small =
      let i9 : i ≡ 9 = omega arith in
      rw i9 (ground (arith, read_byte_at front rest n bad e, rw i9 at fits))
  varint_loop-groups (suc k) i n acc front rest bad e hi fits small =
      elim (Bool-cases (n / 128 == 0)) [
        | inl last ↦ rw last (ground (arith, read_byte_at front rest (n % 128) bad (rw last at e)))
        | inr more ↦
            let c = n % 128 + 128 in
            let split = split_group n i in
            rw more (
              inner_byte (suc k) i acc c front (groups k (n / 128) ++ rest) bad (rw more at e)
                (omega arith) (omega arith) (omega arith) (omega (arith, split))
              ∙ rw (length-append front (c ∷ [])) at (
                  varint_loop-groups k (i + 1) (n / 128) (acc + c % 128 * 2 ^ (i * 7))
                    (front ++ (c ∷ [])) rest bad
                    (rw more at e ∙ sym (append_assoc front (c ∷ []) (groups k (n / 128) ++ rest)))
                    (omega arith) (omega (arith, split)) (omega (arith, pow-suc 128 (suc k))))
              ∙ same_read _ _ bad _ _ (omega arith) (omega (arith, split)))
      ]

-- For every 64-bit number, what write_varint appends to a message, if it succeeds, is what
-- read_varint reads at that place, whatever follows; the cursor moves to the end of what was
-- written and the error flag is as before.
pub read_varint-write_varint :
    (grants : ℕ → Bool) (b rest : List ℕ) (n : ℕ) (bad : Bool) {b' : List ℕ}
    → n < 2 ^ 64
    → write_varint grants b n ≡ some b'
    → read_varint (b' ++ rest) (record { pos = length b; bad = bad })
      ≡ (record { pos = length b'; bad = bad }, n)
unfolding read_varint write_varint
read_varint-write_varint grants b rest n bad {b'} h e =
    let text : b' ≡ b ++ groups 9 n = varint_rounds_lem grants 9 n b (omega arith) e in
    varint_loop-groups (b' ++ rest) 9 0 n 0 b rest bad
      (ap (λ (t : List ℕ). t ++ rest) text ∙ append_assoc b (groups 9 n) rest) refl (omega arith)
      (omega arith)
    ∙ same_read _ _ bad _ _
        (sym (ap (λ (t : List ℕ). length t) text ∙ length-append b (groups 9 n))) (omega arith)

length-groups : (k n : ℕ) → (1 ≤ length (groups k n)) × (length (groups k n) ≤ k + 1)
length-groups zero n = omega arith
length-groups (suc k) n = ground (arith, length-groups k (n / 128))

write_byte_total :
    (grants : ℕ → Bool) (b : List ℕ) (c : ℕ)
    → ((size : ℕ) → grants size ≡ true)
    → length b + 1 ≤ max_wire_size
    → write_byte grants b c ≡ some (b ++ (c ∷ []))
unfolding write_byte
write_byte_total grants b c all room = ground (arith, all (length b + 1 + 1))

varint_rounds_total :
    (grants : ℕ → Bool)
    → ((size : ℕ) → grants size ≡ true)
    → (k n : ℕ) (b : List ℕ) → length b + suc k ≤ max_wire_size
    → n < 128 ^ suc k
    → varint_rounds grants (suc k) b n ≡ some (b ++ groups k n)
unfolding varint_rounds
varint_rounds_total grants all zero n b room h =
    let last : (n / 128 == 0) ≡ true = ground arith in
    let low : n % 128 ≡ n = omega arith in
    rw (last, low) (write_byte_total grants b n all (omega arith))
varint_rounds_total grants all (suc k) n b room h = elim (Bool-cases (n / 128 == 0)) [
  | inl last ↦ rw last (write_byte_total grants b (n % 128) all (omega arith))
  | inr more ↦
      rw (more, write_byte_total grants b (n % 128 + 128) all (omega arith))
        (varint_rounds_total grants all k (n / 128) (b ++ ((n % 128 + 128) ∷ []))
            (omega (arith, length-append b ((n % 128 + 128) ∷ [])))
            (omega (arith, pow-suc 128 (suc k)))
          ∙ ap some (append_assoc b ((n % 128 + 128) ∷ []) (groups k (n / 128))))
]

-- With memory granted and ten bytes of room below 8 MiB, write_varint ends and appends exactly
-- the groups of seven bits of a 64-bit number.
pub write_varint_total :
    (grants : ℕ → Bool) (b : List ℕ) (n : ℕ)
    → ((size : ℕ) → grants size ≡ true)
    → length b + 10 ≤ max_wire_size
    → n < 2 ^ 64
    → write_varint grants b n ≡ some (b ++ groups 9 n)
unfolding write_varint
write_varint_total grants b n all room h = varint_rounds_total grants all 9 n b room (omega arith)

module _ (p : List ℕ) where
  -- The cursor never passes the end of the message and never moves back, and an error stays.
  abbrev pub Within : Reader → Reader → Type 0
  Within r s = (r.pos ≤ s.pos) × (s.pos ≤ length p) × (r.bad ≡ true → s.bad ≡ true)

  pub read_byte-Within : (r : Reader) → r.pos ≤ length p → Within r (read_byte p r).0
  unfolding read_byte
  read_byte-Within r h = ground arith

  pub varint_loop-Within :
      (left i n : ℕ) (r : Reader) → r.pos ≤ length p → Within r (varint_loop p left i n r).0
  unfolding varint_loop
  varint_loop-Within zero i n r h = ground arith
  varint_loop-Within (suc left) i n r h = ground (
    arith,
    read_byte-Within r,
    varint_loop-Within left (i + 1) ((n + (read_byte p r).1 % 128 * 2 ^ (i * 7)) % 2 ^ 64)
        (record (read_byte p r).0 {
          bad = (read_byte p r).0.bad || (i == 9 && ltb 1 (read_byte p r).1);
        }),
  )
