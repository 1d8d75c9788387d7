-- ===== src/Session/Acknowledge.antt =====
-- source/shared/enil_session.c: the loop of enil_session_complete_partial_full_syncs, by the timestamps of each
-- category.
use enil.Common.{
  ◌≤◌, ◌≡◌, refl, sym, ap, ◌∙◌, Bool, true, false, ◌&&◌, Option, none, some, if◌then◌else◌, arith,
  ◌>>=◌, Bool-cases, Option-cases, inl, inr, ◌⊎◌, some_inj,
}
use mathlib.Core.Path.{subst}
use enil.Common.Int.{ℤ, pos, leb_ℤ, max_ℤ, le_max_left, le_max_right, leb_ℤ_trans}
use enil.Common.Text.{Text, text_eq, text_eq→eq, text_eq_refl}
use enil.Common.Json.{Json, Children, object, nil, node, find_key}
use enil.ApiJson.{enil_json_coerce_int64}
use enil.Session.Partial.{
  PartialStore, stamp, MapPair, acknowledged, complete_item, complete_items,
  merge_partial_timestamp,
}
use enil.Session.Stamps.{
  coerced, PartialLaws, stamp-find, stamp_at, IsMerged, merge_lem, removed, find_removed_other,
}
use enil.Session.Counts.{count, count-removed_le, find_removed_once}

module _ (m : PartialStore) where
  -- The latest of a category's requests and of what is completed.
  unfoldable pub acked : Children → Text → ℤ → ℤ
  unfolding enil_json_coerce_int64
  acked nil key best = best
  acked (node k v kids) key best =
      acked kids key (
        if text_eq k key
        then max_ℤ best (enil_json_coerce_int64 m.store.numbers (some v))
        else best)

  -- What stays pending: nothing, if some request is as late.
  unfoldable pub left : Children → Text → ℤ → ℤ
  unfolding enil_json_coerce_int64
  left nil key stays = stays
  left (node k v kids) key stays = left kids key (
      if text_eq k key && leb_ℤ stays (enil_json_coerce_int64 m.store.numbers (some v))
      then pos 0
      else stays)

  -- The two maps after some requests.
  abbrev pub IsDone : Children → Children → Children → MapPair → Type 0
  IsDone kids pk ck (pending, completed) =
      (pk' ck' : Children) × (pending ≡ object pk')
      × (completed ≡ object ck')
      × ((key : Text) → stamp m completed key ≡ acked kids key (stamp m (object ck) key))
      × ((key : Text)
          → count pk key ≤ 1
          → (count pk' key ≤ 1) × (stamp m pending key ≡ left kids key (stamp m (object pk) key)))
      × ((key : Text) (v : ℤ)
          → leb_ℤ v (stamp m (object pk) key) ≡ true
          → (leb_ℤ v (stamp m pending key) ≡ true) ⊎ (leb_ℤ v (stamp m completed key) ≡ true))

  -- The pending map after one category was acknowledged.
  abbrev pub IsAcknowledged : Children → Text → ℤ → Json → Type 0
  IsAcknowledged pk k value pending =
      (pk' : Children) × (pending ≡ object pk')
      × ((j : Text) → text_eq k j ≡ false → stamp m pending j ≡ stamp m (object pk) j)
      × (count pk k ≤ 1
          → stamp m pending k
            ≡ (if leb_ℤ (stamp m (object pk) k) value then pos 0 else stamp m (object pk) k))
      × ((stamp m pending k ≡ stamp m (object pk) k) ⊎ (leb_ℤ (stamp m (object pk) k) value ≡ true))
      × ((j : Text) → count pk j ≤ 1 → count pk' j ≤ 1)

stays_if : (x : ℤ) (b : Bool) → (x ≡ pos 0) ⊎ (b ≡ false) → x ≡ (if b then pos 0 else x)
stays_if x false h = refl
stays_if x true (inl e) = e
stays_if x true (inr e) = absurd (cc e)

module _ (m : PartialStore) (laws : PartialLaws m) where
  pub le_acked :
      (kids : Children) (key : Text) (best v : ℤ)
      → leb_ℤ v best ≡ true
      → leb_ℤ v (acked m kids key best) ≡ true
  unfolding acked
  le_acked nil key best v h = h
  le_acked (node k w kids) key best v h = elim (Bool-cases (text_eq k key)) [
    | inr apart ↦ rw apart (le_acked kids key best v h)
    | inl hit ↦ rw hit (
        le_acked kids key (max_ℤ best (coerced m (some w))) v
          (leb_ℤ_trans v best _ h (le_max_left best (coerced m (some w)))))
  ]

  module _ (pk : Children) (k : Text) (value : ℤ) where
    unchanged :
        (stamp m (object pk) k ≡ pos 0) ⊎ (leb_ℤ (stamp m (object pk) k) value ≡ false)
        → IsAcknowledged m pk k value (object pk)
    unchanged why = (pk, refl, λ j apart. refl, λ once. stays_if _ _ why, inl refl, λ j once. once)

    at :
        (item : Option Json)
        → find_key pk k ≡ item
        → leb_ℤ (stamp m (object pk) k) value ≡ leb_ℤ (coerced m item) value
    at item f = ap (λ x. leb_ℤ x value) (stamp_at m laws pk k item f)

    gone :
        leb_ℤ (stamp m (object pk) k) value ≡ true
        → IsAcknowledged m pk k value (object (removed pk k))
    unfolding enil_json_coerce_int64
    gone done = (
      removed pk k,
      refl,
      λ j apart.
          stamp_at m laws (removed pk k) j (find_key pk j) (find_removed_other pk k j apart)
          ∙ sym (stamp-find m laws pk j),
      λ once. rw done (stamp_at m laws (removed pk k) k none (find_removed_once pk k once)),
      inr done,
      λ j once. let e = count-removed_le pk k j in omega (arith, e, once),
    )

    acknowledged_inv :
        (queued : Option Json)
        → find_key pk k ≡ queued
        → IsAcknowledged m pk k value (acknowledged m (object pk) value queued k)
    unfolding enil_json_coerce_int64
    acknowledged_inv none f = unchanged (inl (stamp_at m laws pk k none f))
    acknowledged_inv (some item) f = elim (Bool-cases (leb_ℤ (coerced m (some item)) value)) [
      | inr later ↦ rw (later, acknowledged) (unchanged (inr (at (some item) f ∙ later)))
      | inl done ↦
          rw (done, acknowledged, laws.delete_item_lem pk k) (gone (at (some item) f ∙ done))
    ]

  -- One category's request.
  item-IsDone :
      (pk ck : Children) (k : Text) (v pending completed : Json)
      → IsAcknowledged m pk k (coerced m (some v)) pending
      → IsMerged m ck k (coerced m (some v)) completed
      → IsDone m (node k v nil) pk ck (pending, completed)
  unfolding acked left
  item-IsDone pk ck k v pending completed (pk', ep, elsewhere, once, stays, counts)
        (ck', ec, same, other) =
      (
        pk',
        ck',
        ep,
        ec,
        λ key. elim (Bool-cases (text_eq k key)) [
          | inr apart ↦ rw apart (other key apart)
          | inl hit ↦ rw (sym (text_eq→eq k key hit), text_eq_refl k) same
        ],
        λ key few. (
          counts key few,
          elim (Bool-cases (text_eq k key)) [
            | inr apart ↦ rw apart (elsewhere key apart)
            | inl hit ↦
                let e = text_eq→eq k key hit in
                let few_k : count pk k ≤ 1 = subst (λ t. count pk t ≤ 1) (sym e) few in
                rw (sym e, text_eq_refl k) (once few_k)
          ],
        ),
        λ key w h. elim (Bool-cases (text_eq k key)) [
          | inr apart ↦ inl (ap (leb_ℤ w) (elsewhere key apart) ∙ h)
          | inl hit ↦
              let e = text_eq→eq k key hit in
              let h_k = ap (λ t. leb_ℤ w (stamp m (object pk) t)) e ∙ h in
              elim stays [
                | inl u ↦
                    inl (ap (λ t. leb_ℤ w (stamp m pending t)) (sym e) ∙ (ap (leb_ℤ w) u ∙ h_k))
                | inr done ↦
                    let bound = le_max_right (stamp m (object ck) k) (coerced m (some v)) in
                    inr (
                      ap (λ t. leb_ℤ w (stamp m completed t)) (sym e)
                      ∙ (ap (leb_ℤ w) same
                          ∙ leb_ℤ_trans w (coerced m (some v)) _
                              (leb_ℤ_trans w _ (coerced m (some v)) h_k done) bound))
              ]
        ],
      )

  complete_item_inv :
      (pk ck : Children) (k : Text) (v : Json) (maps : MapPair)
      → complete_item m k (coerced m (some v)) (object pk, object ck) ≡ some maps
      → IsDone m (node k v nil) pk ck maps
  complete_item_inv pk ck k v maps h =
      let value = coerced m (some v) in
      elim (Option-cases (merge_partial_timestamp m (object ck) k value)) [
        | inl bad ↦ absurd (cc (rw (bad, complete_item, ◌>>=◌) at h))
        | inr ((map, changed), e) ↦
            let found = laws.objects.get_item_lem pk k in
            let done = rw (e, complete_item, ◌>>=◌, found) at h in
            rw (sym (some_inj done)) (
              item-IsDone pk ck k v _ map (acknowledged_inv pk k value (find_key pk k) refl)
                (merge_lem m laws ck k value (laws.coerce_lem (some v)) map changed e))
      ]

  next-IsDone :
      (kids pk ck : Children) (k : Text) (v : Json) (first maps : MapPair)
      → IsDone m (node k v nil) pk ck first
      → ((pk' ck' : Children)
          → first.0 ≡ object pk'
          → first.1 ≡ object ck'
          → IsDone m kids pk' ck' maps)
      → IsDone m (node k v kids) pk ck maps
  unfolding acked left
  next-IsDone kids pk ck k v first maps (pk', ck', ep, ec, at, stays, reach) rest =
      let (pk2, ck2, ep2, ec2, at2, stays2, reach2) = rest pk' ck' ep ec in
      (
        pk2,
        ck2,
        ep2,
        ec2,
        λ key. at2 key ∙ ap (acked m kids key) (ap (λ o. stamp m o key) (sym ec) ∙ at key),
        λ key few.
            let (few1, left1) = stays key few in
            let (few2, left2) = stays2 key few1 in
            (few2, left2 ∙ ap (left m kids key) (ap (λ o. stamp m o key) (sym ep) ∙ left1)),
        λ key w h. elim (reach key w h) [
          | inl p ↦ reach2 key w (ap (λ o. leb_ℤ w (stamp m o key)) (sym ep) ∙ p)
          | inr c ↦ inr (
              ap (leb_ℤ w) (at2 key)
              ∙ le_acked kids key (stamp m (object ck') key) w
                  (ap (λ o. leb_ℤ w (stamp m o key)) (sym ec) ∙ c))
        ],
      )

  pub complete_items_inv :
      (kids pk ck : Children) (maps : MapPair)
      → complete_items m kids (object pk, object ck) ≡ some maps
      → IsDone m kids pk ck maps
  unfolding complete_items acked left
  complete_items_inv nil pk ck maps h =
      rw (sym (some_inj h))
        (pk, ck, refl, refl, λ key. refl, λ key few. (few, refl), λ key w h. inl h)
  complete_items_inv (node k v kids) pk ck maps h =
      elim (Option-cases (complete_item m k (coerced m (some v)) (object pk, object ck))) [
        | inl bad ↦ absurd (cc (rw (bad, ◌>>=◌) at h))
        | inr (first, e) ↦
            next-IsDone kids pk ck k v first maps (complete_item_inv pk ck k v first e)
              (λ pk' ck' ep ec.
                complete_items_inv kids pk' ck' maps
                  (ap (complete_items m kids) (λ i. (sym ep i, sym ec i)) ∙ rw (e, ◌>>=◌) at h))
      ]
