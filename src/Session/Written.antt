-- ===== src/Session/Written.antt =====
-- source/shared/enil_session.c: the file that the completion of partial syncs writes, by its timestamps.
use enil.Common.{
  ◌≤◌, arith, ◌≡◌, refl, sym, ap, ◌∙◌, Bool, true, false, Option, none, some, Bool-cases, inl, inr,
  ◌⊎◌,
}
use mathlib.Core.Path.{subst}
use enil.Common.Int.{ℤ, pos, leb_ℤ}
use enil.Common.Text.{Text, text_eq_refl}
use enil.Common.Json.{
  Json, Children, null, bool, number, string, array, object, nil, node, field, find_key,
}
use enil.ApiJson.{enil_json_coerce_int64}
use enil.Session.{Sessions, write_file, put_file}
use enil.Session.Partial.{
  PartialStore, replaced, within, stamp, pending_name, completed_name, MapPair, both_maps,
  complete_items, without_bare, complete_write, complete_maps, complete_requests,
}
use enil.Session.Stamps.{
  coerced, PartialLaws, stamp_at, find_replaced_same, find_replaced_other, find_removed_other,
  removed,
}
use enil.Session.Counts.{count, count-replaced, find_removed_once}
use enil.Session.Maps.{
  AreMaps, names_apart, names_apart', both_maps_inv, view, saved_stamp, saved_stamp-view, view_put,
}
use enil.Session.Acknowledge.{acked, left, IsDone, complete_items_inv}
use enil.Session.Acks.{map_children, IsPlain, AcksRequests}

module _ (m : PartialStore) (laws : PartialLaws m) (s : Sessions) (path : Text)
    (requests : Children) where
  abbrev Writes : Sessions × Bool → Type 0
  Writes (s', answer) = ((s' ≡ s) × (answer ≡ false)) ⊎ AcksRequests m s path requests s'

  module _ (kids : Children) (f : s.files path ≡ some (object kids)) where
    -- The maps after the loop, by the stamps of the file.
    Acked : Json → Json → Type 0
    Acked p' c' =
        ((key : Text)
          → stamp m c' key ≡ acked m requests key (saved_stamp m s path completed_name key))
        × ((key : Text)
            → IsPlain (s.files path) key
            → stamp m p' key ≡ left m requests key (saved_stamp m s path pending_name key))
        × ((key : Text) (v : ℤ)
            → leb_ℤ v (saved_stamp m s path pending_name key) ≡ true
            → (leb_ℤ v (stamp m p' key) ≡ true) ⊎ (leb_ℤ v (stamp m c' key) ≡ true))

    few_inv :
        (pk : Children) (key : Text)
        → (find_key kids pending_name ≡ some (object pk)) ⊎ (pk ≡ nil)
        → IsPlain (some (object kids)) key
        → count pk key ≤ 1
    few_inv pk key (inl e) plain = rw e at plain.1
    few_inv pk key (inr e) plain = rw (e, count) (omega arith)

    Acked-inv :
        (rk pk ck : Children) (p' c' : Json)
        → IsDone m requests pk ck (p', c')
        → ((key : Text) → stamp m (object pk) key ≡ view m kids pending_name key)
        → ((key : Text) → stamp m (object ck) key ≡ view m kids completed_name key)
        → (find_key kids pending_name ≡ some (object pk)) ⊎ (pk ≡ nil)
        → Acked p' c'
    unfolding Acked
    Acked-inv rk pk ck p' c' (pk', ck', ep, ec, at, stays, reach) sp sc src =
        let start : (key : Text) → stamp m (object pk) key ≡ saved_stamp m s path pending_name key =
          λ key. sp key ∙ sym (saved_stamp-view m laws s path kids f pending_name key) in
        let done : (key : Text)
            → stamp m (object ck) key ≡ saved_stamp m s path completed_name key =
          λ key. sc key ∙ sym (saved_stamp-view m laws s path kids f completed_name key) in
        (
          λ key. at key ∙ ap (acked m requests key) (done key),
          λ key plain.
              let few = few_inv pk key src (subst (λ o. IsPlain o key) f plain) in
              (stays key few).1 ∙ ap (left m requests key) (start key),
          λ key v h. reach key v (ap (leb_ℤ v) (start key) ∙ h),
        )

    -- The object that is written: its maps are those of the loop, and the pending map goes when it is
    -- empty.
    written_inv :
        (p' c' root' : Json) (fk ck' : Children)
        → Acked p' c'
        → c' ≡ object ck'
        → root' ≡ object fk
        → find_key fk completed_name ≡ some (object ck')
        → ((key : Text) → IsPlain (s.files path) key → view m fk pending_name key ≡ stamp m p' key)
        → ((key : Text) (v : ℤ)
            → leb_ℤ v (pos 0) ≡ false
            → leb_ℤ v (stamp m p' key) ≡ true
            → leb_ℤ v (view m fk pending_name key) ≡ true)
        → AcksRequests m s path requests (record s { files = put_file s.files path root' })
    unfolding Acked
    written_inv p' c' root' fk ck' (at, stays, reach) ec er fc plain_view late_view =
        let s' : Sessions = record s { files = put_file s.files path root' } in
        let file : s'.files path ≡ some (object fk) =
          rw (text_eq_refl path, put_file) (ap (λ o. some o) er) in
        let pend : (key : Text)
            → saved_stamp m s' path pending_name key ≡ view m fk pending_name key =
          λ key. saved_stamp-view m laws s' path fk file pending_name key in
        let comp : (key : Text) → saved_stamp m s' path completed_name key ≡ stamp m c' key = λ key.
          view_put m laws s path root' fk ck' completed_name er fc key
          ∙ ap (λ o. stamp m o key) (sym ec) in
        (
          λ p apart. rw (apart, put_file) refl,
          λ key. comp key ∙ at key,
          λ key plain. pend key ∙ (plain_view key plain ∙ stays key plain),
          λ key v above h. elim (reach key v h) [
            | inl p ↦ inl (ap (leb_ℤ v) (pend key) ∙ late_view key v above p)
            | inr c ↦ inr (ap (leb_ℤ v) (comp key) ∙ c)
          ],
        )

    -- `kids2` are the children of the object with both maps put back.
    bare_inv :
        (p' c' : Json) (kids2 pk' ck' : Children)
        → Acked p' c'
        → p' ≡ object pk'
        → c' ≡ object ck'
        → find_key kids2 pending_name ≡ some p'
        → find_key kids2 completed_name ≡ some c'
        → ((n : Text) → count kids n ≤ 1 → count kids2 n ≤ 1)
        → AcksRequests m s path requests
            (record s { files = put_file s.files path (without_bare m (object kids2) p') })
    unfolding stamp enil_json_coerce_int64
    bare_inv p' c' kids2 (node k v rest) ck' acks ep ec fp fc once =
        let seen : (key : Text) → view m kids2 pending_name key ≡ stamp m p' key =
          λ key. ap (λ o. coerced m (field m.store.cjson o key)) fp in
        rw (ep, without_bare)
          (written_inv p' c' (object kids2) kids2 ck' acks ec refl (fc ∙ ap (λ o. some o) ec)
            (λ key plain. seen key) (λ key v above h. ap (leb_ℤ v) (seen key) ∙ h))
    bare_inv p' c' kids2 nil ck' acks ep ec fp fc once =
        let zero : (key : Text) → stamp m p' key ≡ pos 0 =
          λ key. ap (λ o. stamp m o key) ep ∙ stamp_at m laws nil key none refl in
        rw (ep, without_bare, laws.delete_item_lem kids2 pending_name)
          (written_inv p' c' (object (removed kids2 pending_name)) (removed kids2 pending_name) ck'
            acks ec refl
            (find_removed_other kids2 pending_name completed_name names_apart
              ∙ (fc ∙ ap (λ o. some o) ec))
            (λ key plain.
              let at_once = (subst (λ o. IsPlain o key) f plain).0 in
              ap (λ o. coerced m (field m.store.cjson o key))
                (find_removed_once kids2 pending_name (once pending_name at_once))
              ∙ sym (zero key))
            (λ key v above h. absurd (cc (sym above ∙ (ap (leb_ℤ v) (sym (zero key)) ∙ h)))))

    write_inv :
        (root pending completed : Json) (done : Option MapPair)
        → AreMaps m kids (root, (pending, completed))
        → complete_items m requests (pending, completed) ≡ done
        → Writes (complete_write m s path root done)
    write_inv root pending completed none maps e = inl (refl, refl)
    write_inv root pending completed (some (p', c'))
          (rk, pk, ck, er, ep, ec, fp, fc, sp, sc, src, once) e =
        let done =
          complete_items_inv m laws requests pk ck (p', c')
            (ap (complete_items m requests) (λ i. (sym ep i, sym ec i)) ∙ e) in
        let (pk', ck', ep', ec', at, stays, reach) = done in
        let kids1 = replaced rk pending_name p' in
        let kids2 = replaced kids1 completed_name c' in
        let object2 = within (within root pending_name p') completed_name c' in
        let root2 : object2 ≡ object kids2 =
          ap (λ o. within (within o pending_name p') completed_name c') er in
        let acks =
          bare_inv p' c' kids2 pk' ck' (Acked-inv rk pk ck p' c' done sp sc src) ep' ec'
            (find_replaced_other kids1 completed_name pending_name c' names_apart'
              ∙ find_replaced_same rk pending_name p' (object pk) fp)
            (find_replaced_same kids1 completed_name c' (object ck)
              (find_replaced_other rk pending_name completed_name p' names_apart ∙ fc))
            (λ n h.
              let c1 = count-replaced rk pending_name p' n in
              let c2 = count-replaced kids1 completed_name c' n in
              let few = once n h in omega (arith, c1, c2, few)) in
        elim (Bool-cases (m.store.replaces (without_bare m object2 p'))) [
          | inr refused ↦ inl (rw (refused, write_file) (refl, refl))
          | inl written ↦
              rw (written, write_file)
                (inr (
                  subst
                    (λ o.
                      AcksRequests m s path requests
                        (record s { files = put_file s.files path (without_bare m o p') }))
                    (sym root2) acks))
        ]

    maps_inv :
        (r : Option (Json × MapPair))
        → both_maps m (object kids) ≡ r
        → Writes (complete_maps m s path requests r)
    maps_inv none e = inl (refl, refl)
    maps_inv (some (root, (pending, completed))) e =
        write_inv root pending completed (complete_items m requests (pending, completed))
          (both_maps_inv m laws kids (root, (pending, completed)) e) refl

  abbrev pub Completes : Sessions × Bool → Type 0
  Completes (s', answer) =
      ((s' ≡ s) × (answer ≡ true → requests ≡ nil)) ⊎ AcksRequests m s path requests s'

  weakened : (r : Sessions × Bool) → Writes r → Completes r
  weakened r (inl (e, failed)) = inl (e, λ h. absurd (cc (sym failed ∙ h)))
  weakened r (inr acks) = inr acks

  pub requests_inv :
      (kids : Children)
      → s.files path ≡ some (object kids)
      → (asked : Option Json) → map_children asked ≡ requests
      → Completes (complete_requests m s path (object kids) asked)
  requests_inv kids f none e = inl (refl, λ h. sym e)
  requests_inv kids f (some (object nil)) e = inl (refl, λ h. sym e)
  requests_inv kids f (some (object (node k v rest))) e =
      rw e (weakened _ (maps_inv kids f (both_maps m (object kids)) refl))
  requests_inv kids f (some null) e = inl (refl, λ h. absurd (cc h))
  requests_inv kids f (some (bool x)) e = inl (refl, λ h. absurd (cc h))
  requests_inv kids f (some (number x)) e = inl (refl, λ h. absurd (cc h))
  requests_inv kids f (some (string x)) e = inl (refl, λ h. absurd (cc h))
  requests_inv kids f (some (array x)) e = inl (refl, λ h. absurd (cc h))
