-- ===== src/Common/Int.antt =====
-- Signed integers over the native numbers, and the 64-bit patterns that stand for them.
use Prim.Native.Nat.{ℕ, ◌-◌, ◌^◌, ◌%◌, ◌<◌}
use mathlib.Core.Bool.{Bool, true, false}
use mathlib.Core.Path.{◌≡◌, refl, ap}
use mathlib.Core.Logic.{inl, inr}
use native.Mathlib.Omega.{arith}
use enil.Common.Tests.{ltb, leb, ◌==◌, if◌then◌else◌, Bool-cases}

-- `negsuc n` is -(n + 1).
pub data ℤ : Type 0 where
  pos : ℕ → ℤ
  negsuc : ℕ → ℤ

abbrev pub is_negative : ℤ → Bool
is_negative (pos n) = false
is_negative (negsuc n) = true

abbrev pub leb_ℤ : ℤ → ℤ → Bool
leb_ℤ (pos a) (pos b) = leb a b
leb_ℤ (pos a) (negsuc b) = false
leb_ℤ (negsuc a) (pos b) = true
leb_ℤ (negsuc a) (negsuc b) = leb b a

-- An `int64_t`: -2^63 up to 2^63 - 1.
abbrev pub IsI64 : ℤ → Type 0
IsI64 (pos n) = n < 2 ^ 63
IsI64 (negsuc n) = n < 2 ^ 63

-- `(uint64_t)n` and back.
abbrev pub to_u64 : ℤ → ℕ
to_u64 (pos n) = n % 2 ^ 64
to_u64 (negsuc n) = 2 ^ 64 - 1 - n % 2 ^ 64

abbrev pub of_u64 : ℕ → ℤ
of_u64 w = if ltb w (2 ^ 63) then pos w else negsuc (2 ^ 64 - 1 - w)

-- `(int)n` of a `size_t`.
unfoldable pub of_i32 : ℕ → ℤ
of_i32 n = let w = n % 2 ^ 32 in if ltb w (2 ^ 31) then pos w else negsuc (2 ^ 32 - 1 - w)

pub of_i32-pos : (n : ℕ) → n < 2 ^ 31 → of_i32 n ≡ pos n
unfolding of_i32
of_i32-pos n h = let e : n % 2 ^ 32 ≡ n = omega arith in rw e (ground (arith, h))

abbrev pub eq_ℤ : ℤ → ℤ → Bool
eq_ℤ (pos m) (pos n) = m == n
eq_ℤ (negsuc m) (negsuc n) = m == n
eq_ℤ _ _ = false

-- The later of two timestamps.
abbrev pub max_ℤ : ℤ → ℤ → ℤ
max_ℤ a b = if leb_ℤ a b then b else a

pub leb_ℤ_refl : (a : ℤ) → leb_ℤ a a ≡ true
leb_ℤ_refl (pos a) = ground arith
leb_ℤ_refl (negsuc a) = ground arith

pub leb_ℤ_trans : (a b c : ℤ) → leb_ℤ a b ≡ true → leb_ℤ b c ≡ true → leb_ℤ a c ≡ true
leb_ℤ_trans (pos a) (pos b) (pos c) h k = ground (arith, h, k)
leb_ℤ_trans (pos a) (pos b) (negsuc c) h k = absurd (cc k)
leb_ℤ_trans (pos a) (negsuc b) c h k = absurd (cc h)
leb_ℤ_trans (negsuc a) b (pos c) h k = refl
leb_ℤ_trans (negsuc a) (pos b) (negsuc c) h k = absurd (cc k)
leb_ℤ_trans (negsuc a) (negsuc b) (negsuc c) h k = ground (arith, h, k)

pub leb_ℤ_total : (a b : ℤ) → leb_ℤ a b ≡ false → leb_ℤ b a ≡ true
leb_ℤ_total (pos a) (pos b) h = ground (arith, h)
leb_ℤ_total (pos a) (negsuc b) h = refl
leb_ℤ_total (negsuc a) (pos b) h = absurd (cc h)
leb_ℤ_total (negsuc a) (negsuc b) h = ground (arith, h)

pub le_max_left : (a b : ℤ) → leb_ℤ a (max_ℤ a b) ≡ true
le_max_left a b = elim (Bool-cases (leb_ℤ a b)) [
  | inl le ↦ rw (le, max_ℤ) le
  | inr gt ↦ rw (gt, max_ℤ) (leb_ℤ_refl a)
]

pub le_max_right : (a b : ℤ) → leb_ℤ b (max_ℤ a b) ≡ true
le_max_right a b = elim (Bool-cases (leb_ℤ a b)) [
  | inl le ↦ rw (le, max_ℤ) (leb_ℤ_refl b)
  | inr gt ↦ rw (gt, max_ℤ) (leb_ℤ_total a b gt)
]

-- A value that two others stay below.
pub max_le : (a b c : ℤ) → leb_ℤ a c ≡ true → leb_ℤ b c ≡ true → leb_ℤ (max_ℤ a b) c ≡ true
max_le a b c h k = elim (Bool-cases (leb_ℤ a b)) [
  | inl le ↦ rw (le, max_ℤ) k
  | inr gt ↦ rw (gt, max_ℤ) h
]

pub leb_ℤ_antisym : (a b : ℤ) → leb_ℤ a b ≡ true → leb_ℤ b a ≡ true → a ≡ b
leb_ℤ_antisym (pos a) (pos b) h k = let e : a ≡ b = ground (arith, h, k) in ap pos e
leb_ℤ_antisym (pos a) (negsuc b) h k = absurd (cc h)
leb_ℤ_antisym (negsuc a) (pos b) h k = absurd (cc k)
leb_ℤ_antisym (negsuc a) (negsuc b) h k = let e : a ≡ b = ground (arith, h, k) in ap negsuc e
