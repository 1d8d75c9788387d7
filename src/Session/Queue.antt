-- ===== src/Session/Queue.antt =====
-- source/shared/enil_session.c: what enil_session_update_partial_full_syncs writes, by the timestamps of each
-- category.
use enil.Common.{
  ◌≡◌, refl, sym, ap, ◌∙◌, Bool, true, false, not, ◌&&◌, ◌||◌, Option, none, some, if◌then◌else◌,
  ◌>>=◌, Bool-cases, Option-cases, inl, inr, some_inj, or_false,
}
use enil.Common.Int.{ℤ, leb_ℤ, max_ℤ}
use enil.Common.Text.{Text, text_eq, text_eq→eq, text_eq_refl}
use enil.Common.Json.{Json, Children, object, nil, node}
use enil.ApiJson.{enil_json_coerce_int64}
use enil.Session.Partial.{
  PartialStore, stamp, Requests, queued, update_item, update_items, merge_partial_timestamp,
}
use enil.Session.Stamps.{coerced, PartialLaws, merge_lem, merge_same}

module _ (m : PartialStore) where
  -- Of the requests for a category, those later than what is completed count, the latest at last.
  unfoldable pub asked : (Text → ℤ) → Children → Text → ℤ → ℤ
  unfolding enil_json_coerce_int64
  asked completed nil key best = best
  asked completed (node k v kids) key best =
      let value = enil_json_coerce_int64 m.store.numbers (some v) in
      asked completed kids key
        (if text_eq k key && not (leb_ℤ value (completed k)) then max_ℤ best value else best)

  -- Some request is later than what is completed.
  unfoldable pub is_needed : (Text → ℤ) → Children → Bool
  unfolding enil_json_coerce_int64
  is_needed completed nil = false
  is_needed completed (node k v kids) =
      not (leb_ℤ (enil_json_coerce_int64 m.store.numbers (some v)) (completed k))
      || is_needed completed kids

  -- The pending map after some requests; a run that reports no change made none.
  abbrev pub IsQueued : (Text → ℤ) → Children → Children → Bool → Bool → Requests → Type 0
  IsQueued completed kids pk needed changed (map, (needed', changed')) =
      (pk' : Children) × (map ≡ object pk')
      × ((key : Text) → stamp m map key ≡ asked completed kids key (stamp m (object pk) key))
      × (needed' ≡ needed || is_needed completed kids)
      × (changed' ≡ false → (changed ≡ false) × (map ≡ object pk))

kept_else : (t : Bool) (a b : ℤ) → (if t && false then a else b) ≡ b
kept_else true a b = refl
kept_else false a b = refl

neither : (a b : Bool) → (a || b) ≡ false → (a ≡ false) × (b ≡ false)
neither true b h = absurd (cc h)
neither false b h = (refl, h)

regrouped : (a b c : Bool) → ((a || (b || false)) || c) ≡ (a || (b || c))
regrouped true b c = refl
regrouped false true c = refl
regrouped false false c = refl

or_true : (a : Bool) → (a || true) ≡ true
or_true true = refl
or_true false = refl

module _ (m : PartialStore) (laws : PartialLaws m) where
  queued_inv :
      (pk : Children) (completed : Json) (k : Text) (v : Json) (needed changed : Bool)
      (q : Requests) (r : Option (Json × Bool))
      → leb_ℤ (coerced m (some v)) (stamp m completed k) ≡ false
      → merge_partial_timestamp m (object pk) k (coerced m (some v)) ≡ r
      → queued m changed r ≡ some q
      → IsQueued m (stamp m completed) (node k v nil) pk needed changed q
  unfolding asked is_needed
  queued_inv pk completed k v needed changed q none later f h = absurd (cc h)
  queued_inv pk completed k v needed changed q (some (map, now)) later f h =
      let (pk', e, same, other) =
        merge_lem m laws pk k (coerced m (some v)) (laws.coerce_lem (some v)) map now f in
      let at : (key : Text)
          → stamp m map key ≡ (
              if text_eq k key && true
              then max_ℤ (stamp m (object pk) key) (coerced m (some v))
              else stamp m (object pk) key) =
        λ key. elim (Bool-cases (text_eq k key)) [
          | inr apart ↦ rw apart (other key apart)
          | inl hit ↦ rw (sym (text_eq→eq k key hit), text_eq_refl k) same
        ] in
      rw (sym (some_inj h), later)
        (
          pk',
          e,
          at,
          sym (or_true needed),
          λ c.
              let (c0, c1) = neither changed now c in
              (
                c0,
                merge_same m laws (object pk) map k (coerced m (some v))
                    (f ∙ ap (λ b. some (map, b)) c1),
              ),
        )

  item_inv :
      (pk : Children) (completed : Json) (k : Text) (v : Json) (needed changed : Bool)
      (q : Requests)
      → update_item m completed k (coerced m (some v)) (object pk, (needed, changed)) ≡ some q
      → IsQueued m (stamp m completed) (node k v nil) pk needed changed q
  unfolding asked is_needed
  item_inv pk completed k v needed changed q h =
      elim (Bool-cases (leb_ℤ (coerced m (some v)) (stamp m completed k))) [
        | inr later ↦
            queued_inv pk completed k v needed changed q
              (merge_partial_timestamp m (object pk) k (coerced m (some v))) later refl
              (rw (later, update_item) at h)
        | inl before ↦
            let e : (object pk, (needed, changed)) ≡ q = some_inj (rw (before, update_item) at h) in
            rw (sym e, before)
              (
                pk,
                refl,
                λ key. sym (kept_else (text_eq k key) _ _),
                sym (or_false needed),
                λ c. (c, refl),
              )
      ]

  next_inv :
      (kids pk : Children) (completed : Json) (k : Text) (v : Json) (needed changed : Bool)
      (first q : Requests)
      → IsQueued m (stamp m completed) (node k v nil) pk needed changed first
      → ((pk' : Children)
          → first.0 ≡ object pk'
          → IsQueued m (stamp m completed) kids pk' first.1.0 first.1.1 q)
      → IsQueued m (stamp m completed) (node k v kids) pk needed changed q
  unfolding asked is_needed
  next_inv kids pk completed k v needed changed first q (pk', e, at, need, same) rest =
      let (pk2, e2, at2, need2, same2) = rest pk' e in
      (
        pk2,
        e2,
        λ key.
            at2 key
            ∙ ap (asked m (stamp m completed) kids key) (ap (λ o. stamp m o key) (sym e) ∙ at key),
        need2 ∙ (ap (λ b. b || is_needed m (stamp m completed) kids) need ∙ regrouped needed _ _),
        λ c. let (c1, s1) = same2 c in let (c0, s0) = same c1 in (c0, s1 ∙ (sym e ∙ s0)),
      )

  pub items_inv :
      (kids pk : Children) (completed : Json) (needed changed : Bool) (q : Requests)
      → update_items m completed kids (object pk, (needed, changed)) ≡ some q
      → IsQueued m (stamp m completed) kids pk needed changed q
  unfolding update_items asked is_needed
  items_inv nil pk completed needed changed q h =
      rw (sym (some_inj h)) (pk, refl, λ key. refl, sym (or_false needed), λ c. (c, refl))
  items_inv (node k v kids) pk completed needed changed q h =
      let first = update_item m completed k (coerced m (some v)) (object pk, (needed, changed)) in
      elim (Option-cases first) [
        | inl bad ↦ absurd (cc (rw (bad, ◌>>=◌) at h))
        | inr (q1, e) ↦
            next_inv kids pk completed k v needed changed q1 q
              (item_inv pk completed k v needed changed q1 e)
              (λ pk' e1.
                items_inv kids pk' completed q1.1.0 q1.1.1 q
                  (ap (λ o. update_items m completed kids (o, q1.1)) (sym e1) ∙ rw (e, ◌>>=◌) at h))
      ]
