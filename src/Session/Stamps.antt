-- ===== src/Session/Stamps.antt =====
-- source/shared/enil_session.c: merge_partial_timestamp and partial_map, seen as functions from categories to
-- timestamps.
use enil.Common.{
  ◌≡◌, refl, sym, ap, ◌∙◌, Bool, true, false, Option, none, some, if◌then◌else◌, Bool-cases, inl,
  inr, ◌⊎◌, some_inj,
}
use enil.Common.Int.{ℤ, IsI64, leb_ℤ, max_ℤ, leb_ℤ_total, leb_ℤ_antisym}
use enil.Common.Text.{Text, text_eq, text_eq→eq, text_eq_refl}
use enil.Common.Json.{Json, Children, string, object, nil, node, find_key, snoc, ObjectLaws}
use enil.ApiJson.{enil_json_coerce_int64}
use enil.Session.Partial.{
  PartialStore, replaced, stamp, merged, merge_item, merge_partial_timestamp,
}

-- The children without the first one that has the key.
abbrev pub removed : Children → Text → Children
removed nil key = nil
removed (node k v kids) key =
    let rest = removed kids key in if text_eq k key then kids else node k v rest

-- A timestamp as the code reads it from an item that may be missing.
abbrev pub coerced : PartialStore → Option Json → ℤ
coerced m item = enil_json_coerce_int64 m.store.numbers item

-- What cJSON and the C library document of the calls: a key is found whatever its case is, only an
-- item that is there is replaced, the first one with the key is the one removed, two texts compare by
-- strcmp, and a 64-bit number is read as it was printed.
pub record PartialLaws (m : PartialStore) : Type 0 where
  pub objects : ObjectLaws m.store.cjson
  pub has_item_lem :
      (kids : Children) (k : Text)
      → m.store.cjson.has_object_item (object kids) k ≡ false
      → find_key kids k ≡ none
  pub replace_item_lem :
      (kids : Children) (k : Text) (v o : Json)
      → m.replace_item (object kids) k v ≡ some o
      → (w : Json) × (find_key kids k ≡ some w) × (o ≡ object (replaced kids k v))
  pub add_object_lem :
      (kids : Children) (k : Text) (o : Json)
      → m.add_object (object kids) k ≡ some o
      → o ≡ object (snoc kids k (object nil))
  pub delete_item_lem :
      (kids : Children) (k : Text) → m.delete_item (object kids) k ≡ object (removed kids k)
  pub print_lld_lem :
      (v : ℤ)
      → IsI64 v
      → enil_json_coerce_int64 m.store.numbers (some (string (m.store.numbers.print_lld v))) ≡ v
  pub coerce_lem : (item : Option Json) → IsI64 (enil_json_coerce_int64 m.store.numbers item)

pub find_snoc_same :
    (kids : Children) (k : Text) (v : Json)
    → find_key kids k ≡ none
    → find_key (snoc kids k v) k ≡ some v
find_snoc_same nil k v h = rw (text_eq_refl k, find_key) refl
find_snoc_same (node j w kids) k v h = elim (Bool-cases (text_eq j k)) [
  | inl e ↦ absurd (cc (rw (e, find_key) at h))
  | inr e ↦ rw (e, find_key) (find_snoc_same kids k v (rw (e, find_key) at h))
]

pub find_snoc_other :
    (kids : Children) (k j : Text) (v : Json)
    → text_eq k j ≡ false
    → find_key (snoc kids k v) j ≡ find_key kids j
find_snoc_other nil k j v h = rw (h, find_key) refl
find_snoc_other (node i w kids) k j v h = rw (find_snoc_other kids k j v h, find_key) refl

pub find_replaced_same :
    (kids : Children) (k : Text) (v w : Json)
    → find_key kids k ≡ some w
    → find_key (replaced kids k v) k ≡ some v
find_replaced_same nil k v w h = absurd (cc h)
find_replaced_same (node j u kids) k v w h = elim (Bool-cases (text_eq j k)) [
  | inl e ↦ rw (e, replaced, find_key, e) refl
  | inr e ↦ rw (e, replaced, find_key, e) (find_replaced_same kids k v w (rw (e, find_key) at h))
]

pub find_replaced_other :
    (kids : Children) (k j : Text) (v : Json)
    → text_eq k j ≡ false
    → find_key (replaced kids k v) j ≡ find_key kids j
find_replaced_other nil k j v h = refl
find_replaced_other (node i u kids) k j v h = elim (Bool-cases (text_eq i k)) [
  | inl e ↦
      let apart : text_eq i j ≡ false = ap (λ t. text_eq t j) (text_eq→eq i k e) ∙ h in
      rw (e, replaced, find_key, apart) refl
  | inr e ↦ rw (e, replaced, find_key, find_replaced_other kids k j v h) refl
]

pub find_removed_other :
    (kids : Children) (k j : Text)
    → text_eq k j ≡ false
    → find_key (removed kids k) j ≡ find_key kids j
find_removed_other nil k j h = refl
find_removed_other (node i u kids) k j h = elim (Bool-cases (text_eq i k)) [
  | inl e ↦
      let apart : text_eq i j ≡ false = ap (λ t. text_eq t j) (text_eq→eq i k e) ∙ h in
      rw (e, removed, find_key, apart) refl
  | inr e ↦ rw (e, removed, find_key, find_removed_other kids k j h) refl
]

-- A map after a timestamp was merged: that key has the later one, all others what they had.
abbrev pub IsMerged : PartialStore → Children → Text → ℤ → Json → Type 0
IsMerged m kids key value map =
    (kids' : Children) × (map ≡ object kids')
    × (stamp m map key ≡ max_ℤ (stamp m (object kids) key) value)
    × ((j : Text) → text_eq key j ≡ false → stamp m map j ≡ stamp m (object kids) j)

at_most : (value before : ℤ) → leb_ℤ value before ≡ true → before ≡ max_ℤ before value
at_most value before h = elim (Bool-cases (leb_ℤ before value)) [
  | inr gt ↦ rw (gt, max_ℤ) refl
  | inl le ↦ rw (le, max_ℤ) (leb_ℤ_antisym before value le h)
]

merged_inv :
    (m : PartialStore) (o : Option Json) (map : Json) (changed : Bool)
    → merged m o ≡ some (map, changed)
    → o ≡ some map
merged_inv m none map changed h = absurd (cc h)
merged_inv m (some o) map changed h = ap (λ (r : Json × Bool). some r.0) (some_inj h)

module _ (m : PartialStore) (laws : PartialLaws m) where
  pub stamp-find :
      (kids : Children) (key : Text)
      → stamp m (object kids) key ≡ enil_json_coerce_int64 m.store.numbers (find_key kids key)
  unfolding stamp
  stamp-find kids key =
      ap (λ f. enil_json_coerce_int64 m.store.numbers f) (laws.objects.get_item_lem kids key)

  pub stamp_at :
      (kids : Children) (key : Text) (v : Option Json)
      → find_key kids key ≡ v
      → stamp m (object kids) key ≡ enil_json_coerce_int64 m.store.numbers v
  stamp_at kids key v e = stamp-find kids key ∙ ap (λ f. enil_json_coerce_int64 m.store.numbers f) e

  module _ (kids : Children) (key : Text) (value : ℤ) (range : IsI64 value) where
    abbrev text : Json
    text = string (m.store.numbers.print_lld value)

    written :
        (later : leb_ℤ value (stamp m (object kids) key) ≡ false) (kids' : Children) (o : Json)
        → o ≡ object kids'
        → find_key kids' key ≡ some text
        → ((j : Text) → text_eq key j ≡ false → find_key kids' j ≡ find_key kids j)
        → IsMerged m kids key value o
    written later kids' o e same other =
        let before = leb_ℤ_total value (stamp m (object kids) key) later in
        rw e (
          kids',
          refl,
          stamp_at kids' key (some text) same
              ∙ (laws.print_lld_lem value range ∙ rw (before, max_ℤ) refl),
          λ j apart. stamp_at kids' j (find_key kids j) (other j apart) ∙ sym (stamp-find kids j),
        )

    by_case :
        (later : leb_ℤ value (stamp m (object kids) key) ≡ false) (map : Json)
        → (m.store.cjson.has_object_item (object kids) key ≡ true)
            × (m.replace_item (object kids) key text ≡ some map)
          ⊎ (m.store.cjson.has_object_item (object kids) key ≡ false)
            × (m.store.cjson.add_item_to_object (object kids) key text ≡ some map)
        → IsMerged m kids key value map
    by_case later map (inl (has, h)) =
        let (w, found, e) = laws.replace_item_lem kids key text map h in
        written later (replaced kids key text) map e (find_replaced_same kids key text w found)
          (λ j apart. find_replaced_other kids key j text apart)
    by_case later map (inr (has, h)) =
        written later (snoc kids key text) map (laws.objects.add_item_lem kids key text map h)
          (find_snoc_same kids key text (laws.has_item_lem kids key has))
          (λ j apart. find_snoc_other kids key j text apart)

    merge_inv :
        (later : leb_ℤ value (stamp m (object kids) key) ≡ false) (map : Json) (changed : Bool)
        (created : Option Json)
        → m.store.cjson.create text ≡ created
        → merge_item m (object kids) key created ≡ some (map, changed)
        → IsMerged m kids key value map
    merge_inv later map changed none c h = absurd (cc h)
    merge_inv later map changed (some w) c h =
        let e = laws.objects.create_lem text w c in
        elim (Bool-cases (m.store.cjson.has_object_item (object kids) key)) [
          | inl has ↦
              by_case later map
                (inl (has, merged_inv m _ map changed (rw (has, e, merge_item) at h)))
          | inr has ↦
              by_case later map
                (inr (has, merged_inv m _ map changed (rw (has, e, merge_item) at h)))
        ]

    pub merge_lem :
        (map : Json) (changed : Bool)
        → merge_partial_timestamp m (object kids) key value ≡ some (map, changed)
        → IsMerged m kids key value map
    unfolding merge_partial_timestamp
    merge_lem map changed h = elim (Bool-cases (leb_ℤ value (stamp m (object kids) key))) [
      | inr later ↦
          merge_inv later map changed (m.store.cjson.create text) refl
            (rw (later, merge_partial_timestamp) at h)
      | inl old ↦
          let e : object kids ≡ map =
            ap (λ (r : Json × Bool). r.0) (some_inj (rw (old, merge_partial_timestamp) at h)) in
          rw (sym e) (kids, refl, at_most value _ old, λ j apart. refl)
    ]

  never_same : (o : Option Json) (map : Json) → merged m o ≡ some (map, false) → ⊥
  never_same none map h = cc h
  never_same (some o) map h = cc h

  same_item :
      (old map : Json) (key : Text) (created : Option Json)
      → merge_item m old key created ≡ some (map, false)
      → map ≡ old
  same_item old map key none h = absurd (cc h)
  same_item old map key (some item) h = elim (Bool-cases (m.store.cjson.has_object_item old key)) [
    | inl has ↦ absurd (never_same _ map (rw (has, merge_item) at h))
    | inr has ↦ absurd (never_same _ map (rw (has, merge_item) at h))
  ]

  -- A merge that reports no change made none.
  pub merge_same :
      (old map : Json) (key : Text) (value : ℤ)
      → merge_partial_timestamp m old key value ≡ some (map, false)
      → map ≡ old
  unfolding merge_partial_timestamp
  merge_same old map key value h = elim (Bool-cases (leb_ℤ value (stamp m old key))) [
    | inr later ↦
        same_item old map key (m.store.cjson.create _) (rw (later, merge_partial_timestamp) at h)
    | inl before ↦
        ap (λ (r : Json × Bool). r.0) (sym (some_inj (rw (before, merge_partial_timestamp) at h)))
  ]
