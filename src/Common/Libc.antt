-- ===== src/Common/Libc.antt =====
-- The C library's allocator, which the program calls and does not implement.
use Prim.Native.Nat.{ℕ, ◌≤◌}
use mathlib.Core.Path.{◌≡◌}
use mathlib.Core.List.{List}
use mathlib.Core.Option.{Option, some}
use enil.Common.Lists.{length, take}

-- A block is the list of its bytes; `none` is a refused request. The fields behind the calls are
-- what ISO C says of `malloc` and `realloc`: the size asked for, and the old bytes kept.
pub record Allocator : Type 0 where
  pub malloc : ℕ → Option (List ℕ)
  pub realloc : List ℕ → ℕ → Option (List ℕ)
  pub malloc_length : (n : ℕ) (m : List ℕ) → malloc n ≡ some m → length m ≡ n
  pub realloc_length : (b : List ℕ) (n : ℕ) (m : List ℕ) → realloc b n ≡ some m → length m ≡ n
  pub realloc_keeps :
      (b : List ℕ) (n : ℕ) (m : List ℕ)
      → realloc b n ≡ some m
      → length b ≤ n
      → take (length b) m ≡ b
