-- ===== src/Session/Counts.antt =====
-- The children of a cJSON object: how often a key stands in them.
use enil.Common.{
  ℕ, suc, ◌+◌, ◌-◌, ◌≤◌, ◌≡◌, refl, sym, ap, ◌∙◌, none, if◌then◌else◌, arith, Bool-cases, inl, inr,
}
use enil.Common.Text.{Text, text_eq, text_eq→eq}
use enil.Common.Json.{Json, Children, nil, node, find_key, snoc}
use enil.Session.Partial.{replaced}
use enil.Session.Stamps.{removed}

abbrev pub count : Children → Text → ℕ
count nil key = 0
count (node k v kids) key = if text_eq k key then suc (count kids key) else count kids key

pub find_count : (kids : Children) (key : Text) → count kids key ≡ 0 → find_key kids key ≡ none
find_count nil key h = refl
find_count (node k v kids) key h = elim (Bool-cases (text_eq k key)) [
  | inl e ↦ let no : suc (count kids key) ≡ 0 = rw (e, count) at h in absurd (omega arith)
  | inr e ↦ rw (e, find_key) (find_count kids key (rw (e, count) at h))
]

pub count-none : (kids : Children) (key : Text) → find_key kids key ≡ none → count kids key ≡ 0
count-none nil key h = refl
count-none (node k v kids) key h = elim (Bool-cases (text_eq k key)) [
  | inl e ↦ absurd (cc (rw (e, find_key) at h))
  | inr e ↦ rw (e, count) (count-none kids key (rw (e, find_key) at h))
]

pub count-snoc :
    (kids : Children) (j : Text) (v : Json) (key : Text)
    → count (snoc kids j v) key ≡ count kids key + count (node j v nil) key
count-snoc nil j v key = omega arith
count-snoc (node k w kids) j v key =
    let rest = count-snoc kids j v key in
    elim (Bool-cases (text_eq k key)) [
      | inl e ↦ rw (e, count, rest) (omega arith)
      | inr e ↦ rw (e, count, rest) refl
    ]

pub count-snoc-none :
    (kids : Children) (key : Text) (v : Json)
    → find_key kids key ≡ none
    → (n : Text) → count kids n ≤ 1
    → count (snoc kids key v) n ≤ 1
count-snoc-none kids key v fresh n h =
    let total = count-snoc kids key v n in
    elim (Bool-cases (text_eq key n)) [
      | inl e ↦
          let zero_n : count kids n ≡ 0 =
            ap (count kids) (sym (text_eq→eq key n e)) ∙ count-none kids key fresh in
          let one : count (node key v nil) n ≡ 1 = rw (e, count) refl in
          omega (arith, total, zero_n, one)
      | inr e ↦
          let no_more : count (node key v nil) n ≡ 0 = rw (e, count) refl in
          omega (arith, total, no_more)
    ]

pub count-replaced :
    (kids : Children) (j : Text) (v : Json) (key : Text)
    → count (replaced kids j v) key ≡ count kids key
count-replaced nil j v key = refl
count-replaced (node k w kids) j v key = elim (Bool-cases (text_eq k j)) [
  | inl e ↦ rw (e, replaced) refl
  | inr e ↦ rw (e, replaced, count, count-replaced kids j v key) refl
]

pub count-removed_le :
    (kids : Children) (j key : Text) → count (removed kids j) key ≤ count kids key
count-removed_le nil j key = omega arith
count-removed_le (node k w kids) j key =
    let rest = count-removed_le kids j key in
    elim (Bool-cases (text_eq k j)) [
      | inl e ↦ rw (e, removed) (ground arith)
      | inr e ↦ rw (e, removed, count) (ground (arith, rest))
    ]

pub count-removed_same :
    (kids : Children) (key : Text) → count (removed kids key) key ≡ count kids key - 1
count-removed_same nil key = refl
count-removed_same (node k w kids) key = elim (Bool-cases (text_eq k key)) [
  | inl e ↦ rw (e, removed, count) (omega arith)
  | inr e ↦ rw (e, removed, count, e) (count-removed_same kids key)
]

pub find_removed_once :
    (kids : Children) (key : Text) → count kids key ≤ 1 → find_key (removed kids key) key ≡ none
find_removed_once kids key h =
    find_count (removed kids key) key (let e = count-removed_same kids key in omega (arith, e))
