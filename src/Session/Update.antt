-- ===== src/Session/Update.antt =====
-- source/shared/enil_session.c: enil_session_update_partial_full_syncs as a change of the timestamps in session.json.
use enil.Common.{
  ℕ, ◌≡◌, refl, sym, ap, ◌∙◌, Bool, true, false, Option, none, some, Bool-cases, inl, inr, ◌⊎◌,
  some_inj,
}
use enil.Common.Text.{Text, text_eq}
use enil.Common.Json.{Json, Children, null, bool, number, string, array, object, child}
use enil.Session.{Sessions, write_file, put_file, current_binding}
use enil.Session.Partial.{
  PartialStore, replaced, within, stamp, pending_name, completed_name, MapPair, Requests, both_maps,
  update_items, update_saved, update_write, update_maps, other_login, update_root,
  enil_session_update_partial_full_syncs,
}
use enil.Session.Stamps.{PartialLaws, find_replaced_same, find_replaced_other}
use enil.Session.Maps.{AreMaps, names_apart, both_maps_inv, saved_stamp, saved_stamp-view, view_put}
use enil.Session.Queue.{asked, is_needed, items_inv}

module _ (m : PartialStore) where
  -- The stamps of the file after the requests, and the answer, if there is one.
  abbrev pub TakesRequests : Sessions → Text → Children → Sessions × Option Bool → Type 0
  TakesRequests s path kids (s', answer) =
      ((p : Text) → text_eq p path ≡ false → s'.files p ≡ s.files p)
      × ((key : Text)
          → saved_stamp m s' path pending_name key
            ≡ asked m (saved_stamp m s path completed_name) kids key
                (saved_stamp m s path pending_name key))
      × ((key : Text)
          → saved_stamp m s' path completed_name key ≡ saved_stamp m s path completed_name key)
      × ((needed : Bool)
          → answer ≡ some needed
          → needed ≡ is_needed m (saved_stamp m s path completed_name) kids)

  -- Nothing changes and the answer is -1, or the requests are taken.
  abbrev pub UpdatesStamps : Sessions → Text → Children → Sessions × Option Bool → Type 0
  UpdatesStamps s path kids r = (r ≡ (s, none)) ⊎ TakesRequests s path kids r

module _ (m : PartialStore) (laws : PartialLaws m) (s : Sessions) (path : Text)
    (target : Children) where
  module _ (kids : Children) (f : s.files path ≡ some (object kids)) where
    -- What the loop made of the pending map, by the stamps of the file.
    Counted : Json → Bool → Type 0
    Counted map needed =
        ((key : Text)
          → stamp m map key
            ≡ asked m (saved_stamp m s path completed_name) target key
                (saved_stamp m s path pending_name key))
        × (needed ≡ is_needed m (saved_stamp m s path completed_name) target)

    Counted-inv :
        (root pending completed map : Json) (needed changed : Bool)
        → AreMaps m kids (root, (pending, completed))
        → update_items m completed target (pending, (false, false)) ≡ some (map, (needed, changed))
        → Counted map needed
          × ((pk' : Children) × (map ≡ object pk'))
          × (changed ≡ false
              → (key : Text) → stamp m map key ≡ saved_stamp m s path pending_name key)
    unfolding Counted
    Counted-inv root pending completed map needed changed
          (rk, pk, ck, er, ep, ec, fp, fc, sp, sc, src, once) e =
        let (pk', em, at, need, same) =
          items_inv m laws target pk completed false false (map, (needed, changed))
            (ap (λ o. update_items m completed target (o, (false, false))) (sym ep) ∙ e) in
        let start : (key : Text) → stamp m (object pk) key ≡ saved_stamp m s path pending_name key =
          λ key. sp key ∙ sym (saved_stamp-view m laws s path kids f pending_name key) in
        let done : (key : Text) → stamp m completed key ≡ saved_stamp m s path completed_name key =
          λ key.
            ap (λ o. stamp m o key) ec
            ∙ (sc key ∙ sym (saved_stamp-view m laws s path kids f completed_name key)) in
        let all : stamp m completed ≡ saved_stamp m s path completed_name = λ i key. done key i in
        (
          (
            λ key.
                at key
                ∙ (ap (λ c. asked m c target key (stamp m (object pk) key)) all
                    ∙ ap (asked m (saved_stamp m s path completed_name) target key) (start key)),
            need ∙ ap (λ c. is_needed m c target) all,
          ),
          (pk', em),
          λ c key. ap (λ o. stamp m o key) (same c).1 ∙ start key,
        )

    -- The answer is -1 where the directory was not synchronised.
    answered :
        (needed synced : Bool) (s' : Sessions)
        → TakesRequests m s path target (s', some needed)
        → TakesRequests m s path target (update_saved m needed (s', synced))
    answered needed true s' (others, pending, completed, answer) =
        (others, pending, completed, answer)
    answered needed false s' (others, pending, completed, answer) =
        (others, pending, completed, λ n h. absurd (cc h))

    put_inv :
        (root pending completed map : Json) (needed : Bool)
        → AreMaps m kids (root, (pending, completed))
        → Counted map needed
        → (pk' : Children) → map ≡ object pk'
        → UpdatesStamps m s path target
            (update_saved m needed (write_file m.store s path (within root pending_name map)))
    unfolding Counted
    put_inv root pending completed map needed (rk, pk, ck, er, ep, ec, fp, fc, sp, sc, src, once)
          counted pk' em =
        let root' = within root pending_name map in
        let s' : Sessions = record s { files = put_file s.files path root' } in
        elim (Bool-cases (m.store.replaces root')) [
          | inr refused ↦ inl (rw (refused, write_file) refl)
          | inl written ↦
              let eo : root' ≡ object (replaced rk pending_name map) =
                ap (λ o. within o pending_name map) er in
              rw (written, write_file)
                (inr (
                  answered needed (m.store.syncs root') s' (
                    λ p apart. rw (apart, put_file) refl,
                    λ key.
                        view_put m laws s path root' (replaced rk pending_name map) pk' pending_name
                          eo
                          (find_replaced_same rk pending_name map (object pk) fp
                            ∙ ap (λ o. some o) em)
                          key
                        ∙ (ap (λ o. stamp m o key) (sym em) ∙ counted.0 key),
                    λ key.
                        view_put m laws s path root' (replaced rk pending_name map) ck
                          completed_name eo
                          (find_replaced_other rk pending_name completed_name map names_apart ∙ fc)
                          key
                        ∙ (sc key ∙ sym (saved_stamp-view m laws s path kids f completed_name key)),
                    λ n h. sym (some_inj h) ∙ counted.1,
                  )))
        ]

    write_inv :
        (root pending completed : Json) (queue : Option Requests)
        → AreMaps m kids (root, (pending, completed))
        → update_items m completed target (pending, (false, false)) ≡ queue
        → UpdatesStamps m s path target (update_write m s path root queue)
    unfolding Counted
    write_inv root pending completed none maps e = inl refl
    write_inv root pending completed (some (map, (needed, false))) maps e =
        let (counted, is_map, same) = Counted-inv root pending completed map needed false maps e in
        inr (
          λ p apart. refl,
          λ key. sym (same refl key) ∙ counted.0 key,
          λ key. refl,
          λ n h. sym (some_inj h) ∙ counted.1,
        )
    write_inv root pending completed (some (map, (needed, true))) maps e =
        let (counted, is_map, same) = Counted-inv root pending completed map needed true maps e in
        put_inv root pending completed map needed maps counted is_map.0 is_map.1

    maps_inv :
        (r : Option (Json × MapPair))
        → both_maps m (object kids) ≡ r
        → UpdatesStamps m s path target (update_maps m s path (object target) r)
    maps_inv none e = inl refl
    maps_inv (some (root, (pending, completed))) e =
        write_inv root pending completed (update_items m completed target (pending, (false, false)))
          (both_maps_inv m laws kids (root, (pending, completed)) e) refl

  pub root_inv :
      (thread : ℕ) (root : Option Json)
      → s.files path ≡ root
      → UpdatesStamps m s path target (update_root m s thread path (object target) root)
  root_inv thread none f = inl refl
  root_inv thread (some (object kids)) f =
      elim (Bool-cases
        (other_login m s thread path (current_binding m.store s thread) (some (object kids)))) [
          | inl other ↦ inl (rw (other, update_root) refl)
          | inr own ↦ rw (own, update_root) (maps_inv kids f (both_maps m (object kids)) refl)
        ]
  root_inv thread (some null) f = inl refl
  root_inv thread (some (bool x)) f = inl refl
  root_inv thread (some (number x)) f = inl refl
  root_inv thread (some (string x)) f = inl refl
  root_inv thread (some (array x)) f = inl refl

-- With cJSON and number formats as documented: enil_session_update_partial_full_syncs changes
-- nothing and answers -1, or the pending time of each category becomes the latest of what it was
-- and the requests later than the completed time, the completed times and all other files are as
-- they were, and the answer, if it is not -1, says whether some request was later than the
-- completed time.
pub update_partial_full_syncs-UpdatesStamps :
    (m : PartialStore) (laws : PartialLaws m) (s : Sessions) (thread : ℕ) (path : Text)
    (target : Json)
    → UpdatesStamps m s path
        (child target)
        (enil_session_update_partial_full_syncs m s thread path target)
unfolding enil_session_update_partial_full_syncs
update_partial_full_syncs-UpdatesStamps m laws s thread path (object kids) =
    root_inv m laws s path kids thread (s.files path) refl
update_partial_full_syncs-UpdatesStamps m laws s thread path (array kids) = inl refl
update_partial_full_syncs-UpdatesStamps m laws s thread path null = inl refl
update_partial_full_syncs-UpdatesStamps m laws s thread path (bool x) = inl refl
update_partial_full_syncs-UpdatesStamps m laws s thread path (number x) = inl refl
update_partial_full_syncs-UpdatesStamps m laws s thread path (string x) = inl refl
