-- ===== src/Common/Bytes.antt =====
-- Bytes, machine sizes, and facts about single bytes that are checked by running through all 256.
use Prim.Native.Nat.{ℕ, zero, suc, ◌+◌, ◌*◌, ◌%◌, ◌^◌, ◌<◌}
use mathlib.Core.Path.{◌≡◌}
use mathlib.Core.Bool.{Bool, true, false}
use native.Mathlib.Omega.{arith}
use enil.Common.Tests.{if◌then◌else◌}

abbrev pub IsByte : ℕ → Type 0
IsByte b = b < 256

-- `size_t` arithmetic.
abbrev pub size_mod : ℕ
size_mod = 2 ^ 64

abbrev pub add_size : ℕ → ℕ → ℕ
add_size a b = (a + b) % size_mod

abbrev pub mul_size : ℕ → ℕ → ℕ
mul_size a b = a * b % size_mod

-- A test that every number under a bound passes, counted down from the bound.
unfoldable pub holds_to : (ℕ → Bool) → ℕ → Bool
holds_to test zero = true
holds_to test (suc last) = if holds_to test last then test last else false

pub holds_to-at :
    (test : ℕ → Bool) (bound b : ℕ) → b < bound → holds_to test bound ≡ true → test b ≡ true
unfolding holds_to
holds_to-at test zero b below all = absurd (omega arith)
holds_to-at test (suc last) b below all = ground (arith, holds_to-at test last b)
