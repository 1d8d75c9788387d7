-- ===== src/Session/Merge.antt =====
-- source/shared/enil_session.c: the three-way merge of enil_session_save, field by field.
use enil.Common.{
  ◌-◌, ◌≤◌, ◌≡◌, refl, sym, ap, ◌∙◌, Bool, true, false, Option, none, some, if◌then◌else◌, arith,
  Bool-cases, inl, inr, suc,
}
use mathlib.Core.Path.{subst}
use enil.Common.Text.{Text, text_eq, text_eq→eq, text_eq_refl}
use enil.Common.Json.{Json, Children, object, nil, node, field, find_key, snoc, put, ObjectLaws}
use enil.Session.Partial.{PartialStore}
use enil.Session.Stamps.{removed, find_snoc_same, find_snoc_other, find_removed_other}
use enil.Session.Counts.{
  count, count-removed_le, count-removed_same, find_count, find_removed_once, count-snoc,
}
use enil.Session.Save.{is_unchanged, save_field, save_fields, drop_field, drop_fields}

-- What cJSON documents of the calls, with memory granted.
pub record SaveLaws (m : PartialStore) : Type 0 where
  pub objects : ObjectLaws m.store.cjson
  pub duplicate_lem : (v : Json) → m.store.cjson.duplicate v ≡ some v
  pub add_lem :
      (kids : Children) (k : Text) (v : Json)
      → m.store.cjson.add_item_to_object (object kids) k v ≡ some (object (snoc kids k v))
  pub delete_item_lem :
      (kids : Children) (k : Text) → m.delete_item (object kids) k ≡ object (removed kids k)

module _ (m : PartialStore) where
  -- A field after the caller's fields were put in: its own value if it is a new one.
  abbrev pub after_saved : Option Json → Option Json → Option Json → Option Json
  after_saved old none now = now
  after_saved old (some mine) now = if is_unchanged m old mine then now else some mine

  -- A field of the snapshot that the caller has no more is dropped.
  abbrev pub after_dropped : Bool → Option Json → Option Json → Option Json
  after_dropped has none now = now
  after_dropped has (some old) now = if has then now else none

  -- The field from the snapshot's value, the caller's and the file's.
  abbrev pub three_way : Bool → Option Json → Option Json → Option Json → Option Json
  three_way has old mine now = after_dropped has old (after_saved old mine now)

module _ (m : PartialStore) (laws : SaveLaws m) where
  abbrev old_of : Json → Text → Option Json
  old_of baseline key = field m.store.cjson (some baseline) key

  -- One field of the caller's.
  abbrev IsPut : Json → Children → Text → Json → Json → Type 0
  IsPut baseline ck k v current =
      (ck' : Children) × (current ≡ object ck')
      × ((j : Text) → text_eq k j ≡ false → find_key ck' j ≡ find_key ck j)
      × ((j : Text) → count ck j ≤ 1 → count ck' j ≤ 1)
      × (count ck k ≤ 1
          → find_key ck' k ≡ after_saved m (old_of baseline k) (some v) (find_key ck k))

  put_lem :
      (kids : Children) (k : Text) (v : Json)
      → put m.store.cjson (object kids) k (some v) ≡ object (snoc kids k v)
  put_lem kids k v = rw (laws.add_lem kids k v, put) refl

  count_put :
      (ck : Children) (k : Text) (v : Json) (j : Text)
      → count ck j ≤ 1
      → count (snoc (removed ck k) k v) j ≤ 1
  count_put ck k v j few =
      let total = count-snoc (removed ck k) k v j in
      elim (Bool-cases (text_eq k j)) [
        | inr e ↦
            let no_more : count (node k v nil) j ≡ 0 = rw (e, count) refl in
            let fewer = count-removed_le ck k j in omega (arith, total, no_more, fewer)
        | inl e ↦
            let one : count (node k v nil) j ≡ 1 = rw (e, count) refl in
            let rest : count (removed ck k) j ≡ count ck j - 1 =
              subst (λ x. count (removed ck x) j ≡ count ck j - 1) (sym (text_eq→eq k j e))
                (count-removed_same ck j) in
            omega (arith, total, one, rest)
      ]

  field-IsPut :
      (baseline : Json) (ck : Children) (k : Text) (v : Json)
      → IsPut baseline ck k v (save_field m baseline (object ck) k v)
  field-IsPut baseline ck k v = elim (Bool-cases (is_unchanged m (old_of baseline k) v)) [
    | inl same ↦ rw (same, save_field) (ck, refl, λ j apart. refl, λ j few. few, λ few. refl)
    | inr new ↦
        rw
          (
            new,
            save_field,
            laws.delete_item_lem ck k,
            laws.duplicate_lem v,
            put_lem (removed ck k) k v,
          )
          (
            snoc (removed ck k) k v,
            refl,
            λ j apart. find_snoc_other (removed ck k) k j v apart ∙ find_removed_other ck k j apart,
            λ j few. count_put ck k v j few,
            λ few. find_snoc_same (removed ck k) k v (find_removed_once ck k few),
          )
  ]

  -- All fields of the caller's.
  abbrev ArePut : Json → Children → Children → Json → Type 0
  ArePut baseline kids ck current =
      (ck' : Children) × (current ≡ object ck')
      × ((key : Text)
          → count kids key ≤ 1
          → count ck key ≤ 1
          → (find_key ck' key
              ≡ after_saved m (old_of baseline key) (find_key kids key) (find_key ck key))
            × (count ck' key ≤ 1))

  -- The field at a key that was put, when no later one has its key.
  abbrev IsSavedAt : Json → Children → Children → Children → Text → Type 0
  IsSavedAt baseline kids ck ck2 key =
      count kids key ≤ 1
      → count ck key ≤ 1
      → (find_key ck2 key
          ≡ after_saved m (old_of baseline key) (find_key kids key) (find_key ck key))
        × (count ck2 key ≤ 1)

  put_at :
      (baseline : Json) (k : Text) (v : Json) (kids ck ck1 ck2 : Children)
      → (count ck k ≤ 1 → count ck1 k ≤ 1)
      → (count ck k ≤ 1
          → find_key ck1 k ≡ after_saved m (old_of baseline k) (some v) (find_key ck k))
      → IsSavedAt baseline kids ck1 ck2 k
      → IsSavedAt baseline (node k v kids) ck ck2 k
  put_at baseline k v kids ck ck1 ck2 counts same at once few =
      let once_more : suc (count kids k) ≤ 1 = rw (text_eq_refl k, count) at once in
      let (found, fewer) = at (omega (arith, once_more)) (counts few) in
      let absent : find_key kids k ≡ none = find_count kids k (omega (arith, once_more)) in
      let new : find_key ck2 k ≡ after_saved m (old_of baseline k) (some v) (find_key ck k) =
        found
        ∙ (ap (λ o. after_saved m (old_of baseline k) o (find_key ck1 k)) absent ∙ same few) in
      let first : find_key (node k v kids) k ≡ some v = rw (text_eq_refl k, find_key) refl in
      (new ∙ ap (λ o. after_saved m (old_of baseline k) o (find_key ck k)) (sym first), fewer)

  next_put :
      (baseline : Json) (k : Text) (v : Json) (kids ck : Children) (first current : Json)
      → IsPut baseline ck k v first
      → ((ck1 : Children) → first ≡ object ck1 → ArePut baseline kids ck1 current)
      → ArePut baseline (node k v kids) ck current
  next_put baseline k v kids ck first current (ck1, e1, other, counts, same) rest =
      let (ck2, e2, at) = rest ck1 e1 in
      (
        ck2,
        e2,
        λ key once few. elim (Bool-cases (text_eq k key)) [
          | inr apart ↦
              let (found, fewer) = at key (rw (apart, count) at once) (counts key few) in
              rw (apart, find_key)
                (
                  found
                      ∙ ap (after_saved m (old_of baseline key) (find_key kids key))
                          (other key apart),
                  fewer,
                )
          | inl hit ↦
              subst (IsSavedAt baseline (node k v kids) ck ck2) (text_eq→eq k key hit)
                (put_at baseline k v kids ck ck1 ck2 (counts k) same (at k)) once few
        ],
      )

  pub fields_put :
      (baseline : Json) (kids ck : Children)
      → ArePut baseline kids ck (save_fields m baseline kids (object ck))
  unfolding save_fields
  fields_put baseline nil ck = (ck, refl, λ key once few. (refl, few))
  fields_put baseline (node k v kids) ck =
      next_put baseline k v kids ck (save_field m baseline (object ck) k v) _
        (field-IsPut baseline ck k v)
        (λ ck1 e1.
          subst (λ o. ArePut baseline kids ck1 (save_fields m baseline kids o)) (sym e1)
            (fields_put baseline kids ck1))

  dropped_twice :
      (has : Bool) (old : Option Json) (v : Json) (now : Option Json)
      → after_dropped m has old (after_dropped m has (some v) now)
        ≡ after_dropped m has (some v) now
  dropped_twice true none v now = refl
  dropped_twice true (some w) v now = refl
  dropped_twice false none v now = refl
  dropped_twice false (some w) v now = refl

  -- The fields of the snapshot that the caller has no more are dropped.
  abbrev AreDropped : Json → Children → Children → Json → Type 0
  AreDropped next kids ck current =
      (ck' : Children) × (current ≡ object ck')
      × ((key : Text)
          → count ck key ≤ 1
          → (find_key ck' key
              ≡ after_dropped m (m.store.cjson.has_object_item next key) (find_key kids key)
                  (find_key ck key))
            × (count ck' key ≤ 1))

  field_dropped :
      (next : Json) (ck : Children) (k : Text) (v : Json)
      → AreDropped next (node k v nil) ck (drop_field m next (object ck) k)
  field_dropped next ck k v =
      let has = m.store.cjson.has_object_item next in
      elim (Bool-cases (has k)) [
        | inl kept ↦
            rw (kept, drop_field)
              (
                ck,
                refl,
                λ key few. elim (Bool-cases (text_eq k key)) [
                  | inr apart ↦ rw (apart, find_key) (refl, few)
                  | inl hit ↦
                      let kept_key : has key ≡ true =
                        subst (λ t. has t ≡ true) (text_eq→eq k key hit) kept in
                      rw (hit, kept_key, find_key) (refl, few)
                ],
              )
        | inr gone ↦
            rw (gone, drop_field, laws.delete_item_lem ck k)
              (
                removed ck k,
                refl,
                λ key few.
                    let rest = count-removed_le ck k key in
                    let fewer : count (removed ck k) key ≤ 1 = omega (arith, rest, few) in
                    elim (Bool-cases (text_eq k key)) [
                      | inr apart ↦ rw (apart, find_key) (find_removed_other ck k key apart, fewer)
                      | inl hit ↦
                          let e = text_eq→eq k key hit in
                          let gone_key : has key ≡ false = subst (λ t. has t ≡ false) e gone in
                          rw (hit, gone_key, find_key)
                            (
                              subst (λ t. find_key (removed ck t) key ≡ none) (sym e)
                                  (find_removed_once ck key few),
                              fewer,
                            )
                    ],
              )
      ]

  next_dropped :
      (next : Json) (k : Text) (v : Json) (kids ck : Children) (first current : Json)
      → AreDropped next (node k v nil) ck first
      → ((ck1 : Children) → first ≡ object ck1 → AreDropped next kids ck1 current)
      → AreDropped next (node k v kids) ck current
  next_dropped next k v kids ck first current (ck1, e1, at1) rest =
      let (ck2, e2, at2) = rest ck1 e1 in
      let has = m.store.cjson.has_object_item next in
      (
        ck2,
        e2,
        λ key few.
            let (found1, few1) = at1 key few in
            let (found2, few2) = at2 key few1 in
            let both = found2 ∙ ap (after_dropped m (has key) (find_key kids key)) found1 in
            elim (Bool-cases (text_eq k key)) [
              | inr apart ↦ (both ∙ rw (apart, find_key) refl, few2)
              | inl hit ↦ (
                both
                    ∙ rw (hit, find_key)
                        (dropped_twice (has key) (find_key kids key) v (find_key ck key)),
                few2,
              )
            ],
      )

  pub fields_dropped :
      (next : Json) (kids ck : Children)
      → AreDropped next kids ck (drop_fields m next kids (object ck))
  unfolding drop_fields
  fields_dropped next nil ck = (ck, refl, λ key few. (refl, few))
  fields_dropped next (node k v kids) ck =
      next_dropped next k v kids ck (drop_field m next (object ck) k) _ (field_dropped next ck k v)
        (λ ck1 e1.
          subst (λ o. AreDropped next kids ck1 (drop_fields m next kids o)) (sym e1)
            (fields_dropped next kids ck1))
