-- ===== src/StrBuf/Growth.antt =====
-- source/shared/enil_strbuf.c: growth and appending, against the list of the bytes appended.
use enil.Common.{
  ℕ, zero, suc, ◌+◌, ◌*◌, ◌^◌, ◌<◌, ◌≡◌, refl, true, Option, none, some, List, [], ◌++◌, ltb, leb,
  arith, length, take, get_elem?, write_at, add_size, mul_size, length-set, length-write_at,
  get_elem?-set_self, take-set, take-write_at, take-take, Option-cases, inl, inr, Bool-cases,
  leb→le, ap, ◌==◌, if◌then◌else◌, length-append, [], true, Ensures, sym, ◌⊎◌, ◌≢◌, ◌∙◌,
  get_elem?-take,
}
use enil.Common.Libc.{Allocator}
use enil.StrBuf.{
  init_block, StrBuf, or_empty, content, grow_cap, esb_init, esb_grow, esb_append, store,
}
use native.Mathlib.Nat.{pow-suc}

-- A buffer between two calls: NULL with nothing in it, or a block of `cap` bytes that holds the
-- text and its NUL.
abbrev pub IsValid : StrBuf → Type 0
IsValid b = elim b.buf [
  | none ↦ (b.len ≡ 0) × (b.cap ≡ 0)
  | some m ↦ (length m ≡ b.cap) × (b.len < b.cap) × (get_elem? m b.len ≡ some 0)
]

-- Doubling from a positive size passes every target that 63 bits hold, and does not wrap.
pub grow_cap_lt :
    (fuel ncap target : ℕ)
    → target < 2 ^ fuel * ncap
    → target < 2 ^ 63
    → target < grow_cap fuel ncap target
unfolding grow_cap
grow_cap_lt zero ncap target h t = omega arith
grow_cap_lt (suc fuel) ncap target h t = elim (Bool-cases (leb ncap target)) [
  | inl more ↦
      let wide : mul_size ncap 2 ≡ ncap * 2 = omega (arith, leb→le ncap target more) in
      rw more (
        grow_cap_lt fuel (mul_size ncap 2) target
          (rw wide (omega (arith, ap (λ (t : ℕ). t * ncap) (pow-suc 2 fuel)))) t)
  | inr done ↦ rw done (ground arith)
]

store_block :
    (m s : List ℕ) (len cap : ℕ)
    → length m ≡ cap
    → len + length s < cap
    → len + length s < 2 ^ 63
    → IsValid (store (record { buf = some m; len = len; cap = cap }) s)
      × (content (store (record { buf = some m; len = len; cap = cap }) s) ≡ take len m ++ s)
store_block m s len cap hc room small =
    let e : add_size len (length s) ≡ len + length s = omega arith in
    rw e (
      (
        length-set (write_at m len s) (len + length s) 0 ∙ length-write_at m len s ∙ hc,
        room,
        get_elem?-set_self (write_at m len s) (len + length s) 0
            (omega (arith, length-write_at m len s)),
      ),
      take-set (len + length s) (len + length s) (write_at m len s) 0 (omega arith)
          ∙ take-write_at m len s (len + length s) refl (omega arith),
    )

store_lem :
    (b : StrBuf) (s : List ℕ)
    → IsValid b
    → b.len + length s < b.cap
    → b.len + length s < 2 ^ 63
    → IsValid (store b s) × (content (store b s) ≡ content b ++ s)
store_lem b s v room small = go b.buf v
  where
    go :
        (o : Option (List ℕ))
        → IsValid (record { buf = o; len = b.len; cap = b.cap })
        → IsValid (store (record { buf = o; len = b.len; cap = b.cap }) s)
          × (content (store (record { buf = o; len = b.len; cap = b.cap }) s)
              ≡ take b.len (or_empty o) ++ s)
    go none h = absurd (omega arith)
    go (some m) h = store_block m s b.len b.cap h.0 room small

-- What an append of `s` may leave of the buffer `b`.
abbrev pub Appended : StrBuf → List ℕ → StrBuf → Type 0
Appended b s b' =
    IsValid b' × ((b' ≡ b) ⊎ ((content b' ≡ content b ++ s) × (b'.len ≡ b.len + length s)))

-- A buffer with a block that holds the text `t`.
abbrev pub Holds : StrBuf → List ℕ → Type 0
Holds b t = IsValid b × (0 < b.cap) × (content b ≡ t) × (b.len ≡ length t)

-- The allocator refuses nothing.
abbrev pub Grants : Allocator → Type 0
Grants al =
    ((n : ℕ) → (m : List ℕ) × (al.malloc n ≡ some m))
    × ((b : List ℕ) (n : ℕ) → (m : List ℕ) × (al.realloc b n ≡ some m))

module _ (al : Allocator) where
  abbrev Grown : ℕ → ℕ → List ℕ → StrBuf → Type 0
  Grown len need text g = IsValid g × (g.len ≡ len) × (len + need < g.cap) × (content g ≡ text)

  -- `esb_grow` on a block keeps the text, and makes room for `need` bytes behind it.
  grow_block :
      (m : List ℕ) (len cap need : ℕ)
      → length m ≡ cap
      → len < cap
      → get_elem? m len ≡ some 0
      → len + need < 2 ^ 63
      → Ensures
          (Grown len need (take len m))
          (esb_grow al (record { buf = some m; len = len; cap = cap }) need)
  unfolding esb_grow
  grow_block m len cap need hc hl hz room = elim (Bool-cases (ltb (add_size len need) cap)) [
    | inl fits ↦ rw fits ((hc, hl, hz), refl, ground arith, refl)
    | inr full ↦
        let ncap = grow_cap 64 (if cap == 0 then 1024 else mul_size cap 2) (add_size len need) in
        let roomy : len + need < ncap =
          ground (
            arith,
            grow_cap_lt 64 (if cap == 0 then 1024 else mul_size cap 2) (add_size len need),
          ) in
        elim (Option-cases (al.realloc m ncap)) [
          | inl refused ↦ rw (full, refused) tt
          | inr (nb, granted) ↦
              let size : length nb ≡ ncap = al.realloc_length m ncap nb granted in
              let kept : take (length m) nb ≡ m =
                al.realloc_keeps m ncap nb granted (ground arith) in
              let zero_kept : get_elem? nb len ≡ some 0 =
                sym (get_elem?-take (length m) len nb (omega arith))
                ∙ ap (λ (t : List ℕ). get_elem? t len) kept
                ∙ hz in
              let text_kept : take len nb ≡ take len m =
                sym (take-take len (length m) nb (omega arith)) ∙ ap (take len) kept in
              rw (full, granted) ((size, omega arith, zero_kept), refl, roomy, text_kept)
        ]
  ]

  grow_lem :
      (b : StrBuf) (need : ℕ)
      → IsValid b
      → b.len + need < 2 ^ 63
      → Ensures (Grown b.len need (content b)) (esb_grow al b need)
  grow_lem b need v small = go b.buf v
    where
      go :
          (o : Option (List ℕ))
          → IsValid (record { buf = o; len = b.len; cap = b.cap })
          → Ensures
              (Grown b.len need (take b.len (or_empty o)))
              (esb_grow al (record { buf = o; len = b.len; cap = b.cap }) need)
      go none h = unfold esb_grow in tt
      go (some m) h = grow_block m b.len b.cap need h.0 h.1 h.2 small

  -- If the new length with its NUL is below 2^63, appending to a valid buffer leaves a valid
  -- buffer (block of cap bytes, length below cap, NUL behind the text) that is the old one, or
  -- holds the old text followed by all of the new.
  pub esb_append_lem :
      (b : StrBuf) (s : List ℕ)
      → IsValid b
      → b.len + length s + 1 < 2 ^ 63
      → Appended b s (esb_append al b s)
  unfolding esb_append
  esb_append_lem b s v small = elim (Option-cases (esb_grow al b (add_size (length s) 1))) [
    | inl refused ↦ rw (refused, esb_append) (v, inl refl)
    | inr (g, grown) ↦
        let (valid, same, room, text) : Grown b.len (add_size (length s) 1) (content b) g =
          rw grown at (grow_lem b (add_size (length s) 1) v (omega arith)) in
        let (v', t') = store_lem g s valid (omega arith) (omega arith) in
        rw (grown, esb_append) (v', inr (t' ∙ ap (λ (t : List ℕ). t ++ s) text, omega arith))
  ]

  grow_granted :
      (o : Option (List ℕ)) (len cap need : ℕ)
      → Grants al
      → IsValid (record { buf = o; len = len; cap = cap })
      → 0 < cap
      → esb_grow al (record { buf = o; len = len; cap = cap }) need ≢ none
  unfolding esb_grow
  grow_granted none len cap need all v live = absurd (omega arith)
  grow_granted (some m) len cap need all v live = elim (Bool-cases (ltb (add_size len need) cap)) [
    | inl fits ↦ rw fits (λ e. cc)
    | inr full ↦
        let (nb, e) =
          all.1 m (grow_cap 64 (if cap == 0 then 1024 else mul_size cap 2) (add_size len need)) in
        rw (full, e) (λ h. cc)
  ]

  -- With an allocator that refuses nothing, a buffer with a block that holds a text holds that
  -- text followed by the new bytes after esb_append, if the length with its NUL is below 2^63.
  pub esb_append-Holds :
      (b : StrBuf) (t s : List ℕ)
      → Grants al
      → Holds b t
      → length t + length s + 1 < 2 ^ 63
      → Holds (esb_append al b s) (t ++ s)
  unfolding esb_append
  esb_append-Holds b t s all (v, live, text, size) small =
      elim (Option-cases (esb_grow al b (add_size (length s) 1))) [
        | inl refused ↦
            absurd (grow_granted b.buf b.len b.cap (add_size (length s) 1) all v live refused)
        | inr (g, grown) ↦
            let (valid, same, room, kept) : Grown b.len (add_size (length s) 1) (content b) g =
              rw grown at (grow_lem b (add_size (length s) 1) v (omega arith)) in
            let (v', t') = store_lem g s valid (omega arith) (omega arith) in
            rw (grown, esb_append)
              (
                v',
                omega arith,
                t' ∙ ap (λ (u : List ℕ). u ++ s) (kept ∙ text),
                omega (arith, length-append t s),
              )
      ]

  -- `esb_init` gives an empty valid buffer, or reports failure with a buffer that takes nothing.
  pub esb_init_lem : IsValid (esb_init al).0 × ((esb_init al).1 ≡ true → Holds (esb_init al).0 [])
  unfolding esb_init
  esb_init_lem = go (al.malloc 1024) refl
    where
      go :
          (o : Option (List ℕ))
          → al.malloc 1024 ≡ o
          → IsValid (init_block o).0 × ((init_block o).1 ≡ true → Holds (init_block o).0 [])
      go none e = ((refl, refl), λ h. cc)
      go (some m) e =
          let size : length m ≡ 1024 = al.malloc_length 1024 m e in
          let valid : IsValid (init_block (some m)).0 =
            (length-set m 0 0 ∙ size, omega arith, get_elem?-set_self m 0 0 (omega arith)) in
          (valid, λ h. (valid, omega arith, refl, refl))
