-- ===== src/Session/Complete.antt =====
-- source/shared/enil_session.c: enil_session_complete_partial_full_syncs as a change of the timestamps in session.json.
use enil.Common.{◌≡◌, refl, ap, ◌∙◌, true, false, Option, none, some, Bool-cases, inl, inr}
use enil.Common.Text.{Text, codes}
use enil.Common.Json.{Json, null, bool, number, string, array, object, is_object, field}
use enil.Session.{Sessions}
use enil.Session.Partial.{
  PartialStore, pending_name, same_snapshot, complete_root,
  enil_session_complete_partial_full_syncs,
}
use enil.Session.Stamps.{PartialLaws}
use enil.Session.Acks.{map_children, CompletesStamps}
use enil.Session.Written.{requests_inv}

module _ (m : PartialStore) (laws : PartialLaws m) (s : Sessions) (path : Text)
    (snapshot : Json) where
  refused : CompletesStamps m s path snapshot (s, false)
  refused = inl (refl, λ h. absurd (cc h))

  root_inv :
      (root : Option Json)
      → s.files path ≡ root
      → CompletesStamps m s path snapshot (complete_root m s path snapshot root)
  root_inv none f = refused
  root_inv (some (object kids)) f =
      let asked = field m.store.cjson (some snapshot) pending_name in
      let same =
        same_snapshot m (field m.store.cjson (some snapshot) (codes "loginId"))
          (field m.store.cjson (some (object kids)) (codes "loginId")) in
      elim (Bool-cases same) [
        | inr other ↦ rw (other, complete_root) refused
        | inl own ↦
            rw (own, complete_root)
              (elim (requests_inv m laws s path (map_children asked) kids f asked refl) [
                | inl same_state ↦ inl same_state
                | inr acks ↦ inr (
                  ap
                        (λ o.
                          same_snapshot m (field m.store.cjson (some snapshot) (codes "loginId"))
                            (field m.store.cjson o (codes "loginId")))
                        f
                      ∙ own,
                  acks,
                )
              ])
      ]
  root_inv (some null) f = refused
  root_inv (some (bool x)) f = refused
  root_inv (some (number x)) f = refused
  root_inv (some (string x)) f = refused
  root_inv (some (array x)) f = refused

-- With cJSON and number formats as documented and a snapshot that is an object:
-- enil_session_complete_partial_full_syncs changes nothing, and answers yes then only if the
-- snapshot has no requests; or the login ids agree, the completed time of each category is the
-- latest of what it was and the requests, in a file with one pending map and no category twice
-- the pending time of a category becomes 0 exactly if some request is as late and is kept
-- otherwise, and a pending time above 0 stays pending or is completed.
pub complete_partial_full_syncs-CompletesStamps :
    (m : PartialStore) (laws : PartialLaws m) (s : Sessions) (path : Text) (snapshot : Json)
    → is_object snapshot ≡ true
    → CompletesStamps m s path snapshot (enil_session_complete_partial_full_syncs m s path snapshot)
unfolding enil_session_complete_partial_full_syncs
complete_partial_full_syncs-CompletesStamps m laws s path snapshot obj =
    rw obj (root_inv m laws s path snapshot (s.files path) refl)
