-- ===== src/Common/Lists.antt =====
-- Lists measured and indexed by native numbers; memory blocks are lists of bytes.
use Prim.Native.Nat.{ℕ, zero, suc, ◌+◌, ◌-◌, ◌≤◌, ◌<◌, min}
use mathlib.Core.Path.{◌≡◌, refl, ap, sym, ◌∙◌}
use mathlib.Core.List.{List, [], ◌∷◌, ◌++◌}
use mathlib.Core.Option.{Option, none, some}
use native.Mathlib.Omega.{arith}

module _ {ℓ} {A : Type ℓ} where
  abbrev pub length : List A → ℕ
  length [] = 0
  length (x ∷ xs) = suc (length xs)

  abbrev pub get_elem? : List A → ℕ → Option A
  get_elem? [] i = none
  get_elem? (x ∷ xs) zero = some x
  get_elem? (x ∷ xs) (suc i) = get_elem? xs i

  abbrev pub get_or : List A → ℕ → A → A
  get_or [] i d = d
  get_or (x ∷ xs) zero d = x
  get_or (x ∷ xs) (suc i) d = get_or xs i d

  abbrev pub set : List A → ℕ → A → List A
  set [] i v = []
  set (x ∷ xs) zero v = v ∷ xs
  set (x ∷ xs) (suc i) v = x ∷ set xs i v

  abbrev pub take : ℕ → List A → List A
  take zero xs = []
  take (suc n) [] = []
  take (suc n) (x ∷ xs) = x ∷ take n xs

  abbrev pub drop : ℕ → List A → List A
  drop zero xs = xs
  drop (suc n) [] = []
  drop (suc n) (x ∷ xs) = drop n xs

  abbrev pub All {κ} : (A → Type κ) → List A → Type κ
  All P [] = Unit {κ}
  All P (x ∷ xs) = P x × All P xs

module _ {ℓ} {A : Type ℓ} where
  -- `memcpy(block + off, s, n)`. What would fall behind the block's end is not written.
  abbrev pub overlay : List A → List A → List A
  overlay [] m = m
  overlay (x ∷ s) [] = []
  overlay (x ∷ s) (y ∷ m) = x ∷ overlay s m

  abbrev pub write_at : List A → ℕ → List A → List A
  write_at m zero s = overlay s m
  write_at [] (suc off) s = []
  write_at (x ∷ m) (suc off) s = x ∷ write_at m off s

  pub length-append : (xs ys : List A) → length (xs ++ ys) ≡ length xs + length ys
  length-append [] ys = omega arith
  length-append (x ∷ xs) ys = omega (arith, length-append xs ys)

  pub length-set : (xs : List A) (i : ℕ) (v : A) → length (set xs i v) ≡ length xs
  length-set [] i v = refl
  length-set (x ∷ xs) zero v = refl
  length-set (x ∷ xs) (suc i) v = ap suc (length-set xs i v)

  pub length-take : (n : ℕ) (xs : List A) → length (take n xs) ≡ min n (length xs)
  length-take zero xs = omega arith
  length-take (suc n) [] = omega arith
  length-take (suc n) (x ∷ xs) = omega (arith, length-take n xs)

  pub length-drop : (n : ℕ) (xs : List A) → length (drop n xs) ≡ length xs - n
  length-drop zero xs = omega arith
  length-drop (suc n) [] = omega arith
  length-drop (suc n) (x ∷ xs) = omega (arith, length-drop n xs)

  pub length-overlay : (s m : List A) → length (overlay s m) ≡ length m
  length-overlay [] m = refl
  length-overlay (x ∷ s) [] = refl
  length-overlay (x ∷ s) (y ∷ m) = ap suc (length-overlay s m)

  pub length-write_at : (m : List A) (off : ℕ) (s : List A) → length (write_at m off s) ≡ length m
  length-write_at m zero s = length-overlay s m
  length-write_at [] (suc off) s = refl
  length-write_at (x ∷ m) (suc off) s = ap suc (length-write_at m off s)

  pub get_elem?-set_self :
      (xs : List A) (i : ℕ) (v : A) → i < length xs → get_elem? (set xs i v) i ≡ some v
  get_elem?-set_self [] i v h = elim h [ ]
  get_elem?-set_self (x ∷ xs) zero v h = refl
  get_elem?-set_self (x ∷ xs) (suc i) v h = get_elem?-set_self xs i v (omega arith)

  pub take-set : (n i : ℕ) (xs : List A) (v : A) → n ≤ i → take n (set xs i v) ≡ take n xs
  take-set zero i xs v h = refl
  take-set (suc n) i [] v h = refl
  take-set (suc n) zero (x ∷ xs) v h = absurd (omega arith)
  take-set (suc n) (suc i) (x ∷ xs) v h = ap (λ t. x ∷ t) (take-set n i xs v (omega arith))

  pub take-overlay : (s m : List A) → length s ≤ length m → take (length s) (overlay s m) ≡ s
  take-overlay [] m h = refl
  take-overlay (x ∷ s) [] h = absurd (omega arith)
  take-overlay (x ∷ s) (y ∷ m) h = ap (λ t. x ∷ t) (take-overlay s m (omega arith))

  pub take-write_at :
      (m : List A) (off : ℕ) (s : List A) (n : ℕ)
      → n ≡ off + length s
      → n ≤ length m
      → take n (write_at m off s) ≡ take off m ++ s
  take-write_at m zero s n e h =
      let e' : n ≡ length s = omega arith in rw e' (take-overlay s m (omega arith))
  take-write_at m (suc off) s zero e h = absurd (omega arith)
  take-write_at [] (suc off) s (suc n) e h = absurd (omega arith)
  take-write_at (x ∷ m) (suc off) s (suc n) e h =
      ap (λ t. x ∷ t) (take-write_at m off s n (omega arith) (omega arith))

  -- What a longer block keeps of a shorter one's first bytes.
  pub take-take : (k n : ℕ) (xs : List A) → k ≤ n → take k (take n xs) ≡ take k xs
  take-take zero n xs h = refl
  take-take (suc k) zero xs h = absurd (omega arith)
  take-take (suc k) (suc n) [] h = refl
  take-take (suc k) (suc n) (x ∷ xs) h = ap (λ t. x ∷ t) (take-take k n xs (omega arith))

  pub get_elem?-take : (n i : ℕ) (xs : List A) → i < n → get_elem? (take n xs) i ≡ get_elem? xs i
  get_elem?-take zero i xs h = absurd (omega arith)
  get_elem?-take (suc n) i [] h = refl
  get_elem?-take (suc n) zero (x ∷ xs) h = refl
  get_elem?-take (suc n) (suc i) (x ∷ xs) h = get_elem?-take n i xs (omega arith)

  pub take-length : (n : ℕ) (xs : List A) → length xs ≤ n → take n xs ≡ xs
  take-length zero [] h = refl
  take-length zero (x ∷ xs) h = absurd (omega arith)
  take-length (suc n) [] h = refl
  take-length (suc n) (x ∷ xs) h = ap (λ t. x ∷ t) (take-length n xs (omega arith))

module _ {ℓ κ} {A : Type ℓ} (P : A → Type κ) where
  pub All-append : (xs ys : List A) → All P xs → All P ys → All P (xs ++ ys)
  All-append [] ys hx hy = hy
  All-append (x ∷ xs) ys hx hy = (hx.0, All-append xs ys hx.1 hy)

module _ {ℓ} {A : Type ℓ} where
  pub get_or-append :
      (xs : List A) (y : A) (ys : List A) (d : A) → get_or (xs ++ (y ∷ ys)) (length xs) d ≡ y
  get_or-append [] y ys d = refl
  get_or-append (x ∷ xs) y ys d = get_or-append xs y ys d

  pub take-append : (xs ys : List A) → take (length xs) (xs ++ ys) ≡ xs
  take-append [] ys = refl
  take-append (x ∷ xs) ys = ap (λ t. x ∷ t) (take-append xs ys)

  pub drop-append : (xs ys : List A) → drop (length xs) (xs ++ ys) ≡ ys
  drop-append [] ys = refl
  drop-append (x ∷ xs) ys = drop-append xs ys

  pub take-append-drop : (n : ℕ) (xs : List A) → take n xs ++ drop n xs ≡ xs
  take-append-drop zero xs = refl
  take-append-drop (suc n) [] = refl
  take-append-drop (suc n) (x ∷ xs) = ap (λ t. x ∷ t) (take-append-drop n xs)

  drop-nil : (n : ℕ) → drop {A = A} n [] ≡ []
  drop-nil zero = refl
  drop-nil (suc n) = refl

  pub drop-drop : (n m : ℕ) (xs : List A) → drop m (drop n xs) ≡ drop (n + m) xs
  drop-drop zero m xs = ap (λ k. drop k xs) (omega arith)
  drop-drop (suc n) m [] = drop-nil m ∙ sym (drop-nil (suc n + m))
  drop-drop (suc n) m (x ∷ xs) =
      let e : suc n + m ≡ suc (n + m) = omega arith in rw e (drop-drop n m xs)
