-- ===== src/Session/Saved.antt =====
-- source/shared/enil_session.c: enil_session_save as a three-way merge of the snapshot, the caller's session and the file.
use enil.Common.{
  ◌≤◌, ◌≡◌, refl, sym, ap, ◌∙◌, Bool, true, false, Option, none, some, Bool-cases, inl, inr, ◌⊎◌,
}
use mathlib.Core.Path.{subst}
use enil.Common.Text.{Text, codes, text_eq, text_eq_refl}
use enil.Common.Json.{
  Json, Children, null, bool, number, string, array, object, child, field, find_key,
}
use enil.Session.{Sessions, write_file, put_file}
use enil.Session.Partial.{PartialStore}
use enil.Session.Counts.{count}
use enil.Session.Fields.{FieldStore, SessionFields, enil_session_to_json}
use enil.Session.Save.{
  drop_fields, merged_fields, is_same_login, save_into, save_json, baseline_of, enil_session_save,
}
use enil.Session.Merge.{SaveLaws, after_saved, after_dropped, three_way, fields_put, fields_dropped}
use enil.Session.Acks.{map_children}

module _ (m : PartialStore) where
  -- The field of a session file.
  abbrev pub file_field : Sessions → Text → Text → Option Json
  file_field s path key = field m.store.cjson (s.files path) key

  -- The file after a save over the login of the snapshot.
  abbrev pub Merges : Sessions → Text → Json → Json → Sessions → Type 0
  Merges s path next baseline s' =
      (is_same_login m (field m.store.cjson (some baseline) (codes "loginId"))
          (file_field s path (codes "loginId"))
        ≡ true)
      × ((p : Text) → text_eq p path ≡ false → s'.files p ≡ s.files p)
      × ((key : Text)
          → count (child next) key ≤ 1
          → count (map_children (s.files path)) key ≤ 1
          → file_field s' path key
            ≡ three_way m (m.store.cjson.has_object_item next key)
                (field m.store.cjson (some baseline) key) (field m.store.cjson (some next) key)
                (file_field s path key))

  abbrev pub SavesFields : Sessions → Text → Json → Json → Sessions × Bool → Type 0
  SavesFields s path next baseline r = (r ≡ (s, false)) ⊎ Merges s path next baseline r.0

module _ (m : PartialStore) (laws : SaveLaws m) (s : Sessions) (path : Text)
    (nk bk : Children) where
  abbrev find_at : Json → Text → Option Json
  find_at o key = field m.store.cjson (some o) key

  -- The merge of the file's fields.
  merged_at :
      (ck : Children)
      → (ck' : Children) × (merged_fields m (object nk) (object bk) (object ck) ≡ object ck')
        × ((key : Text)
            → count nk key ≤ 1
            → count ck key ≤ 1
            → find_key ck' key
              ≡ three_way m
                  (m.store.cjson.has_object_item (object nk) key)
                  (find_at (object bk) key)
                  (find_key nk key)
                  (find_key ck key))
  merged_at ck =
      let (ck1, e1, at1) = fields_put m laws (object bk) nk ck in
      let (ck2, e2, at2) = fields_dropped m laws (object nk) bk ck1 in
      (
        ck2,
        ap (drop_fields m (object nk) bk) e1 ∙ e2,
        λ key once few.
            let (found1, few1) = at1 key once few in
            let (found2, few2) = at2 key few1 in
            let has = m.store.cjson.has_object_item (object nk) key in
            let saved =
              after_saved m (find_at (object bk) key) (find_key nk key) (find_key ck key) in
            found2
            ∙ (ap (after_dropped m has (find_key bk key)) found1
                ∙ ap (λ o. after_dropped m has o saved) (sym (laws.objects.get_item_lem bk key))),
      )

  written_inv :
      (ck : Children)
      → s.files path ≡ some (object ck)
      → is_same_login m
          (find_at (object bk) (codes "loginId"))
          (find_at (object ck) (codes "loginId"))
        ≡ true
      → SavesFields m s path
          (object nk)
          (object bk)
          (write_file m.store s path (merged_fields m (object nk) (object bk) (object ck)))
  written_inv ck f own =
      let merged = merged_fields m (object nk) (object bk) (object ck) in
      let s' : Sessions = record s { files = put_file s.files path merged } in
      let (ck', e, at) = merged_at ck in
      let file : s'.files path ≡ some (object ck') =
        rw (text_eq_refl path, put_file) (ap (λ o. some o) e) in
      let of_file : (o : Option Json)
          → o ≡ some (object ck)
          → (key : Text) → field m.store.cjson o key ≡ find_key ck key =
        λ o eq key. ap (λ o. field m.store.cjson o key) eq ∙ laws.objects.get_item_lem ck key in
      elim (Bool-cases (m.store.replaces merged)) [
        | inr refused ↦ inl (rw (refused, write_file) refl)
        | inl written ↦
            rw (written, write_file)
              (inr (
                ap
                      (λ o.
                        is_same_login m (find_at (object bk) (codes "loginId"))
                          (field m.store.cjson o (codes "loginId")))
                      f
                    ∙ own,
                λ p apart. rw (apart, put_file) refl,
                λ key once few.
                    let few_ck : count ck key ≤ 1 =
                      subst (λ o. count (map_children o) key ≤ 1) f few in
                    let has = m.store.cjson.has_object_item (object nk) key in
                    let old = find_at (object bk) key in
                    ap (λ o. field m.store.cjson o key) file
                    ∙ (laws.objects.get_item_lem ck' key
                        ∙ (at key once few_ck ∙ λ i.
                            three_way m has old (sym (laws.objects.get_item_lem nk key) i)
                              (sym (of_file (s.files path) f key) i))),
              ))
      ]

  root_inv :
      (root : Option Json)
      → s.files path ≡ root
      → SavesFields m s path
          (object nk)
          (object bk)
          (save_into m s path (object nk) (object bk) root)
  root_inv none f = inl refl
  root_inv (some (object ck)) f =
      let same =
        is_same_login m (find_at (object bk) (codes "loginId"))
          (find_at (object ck) (codes "loginId")) in
      elim (Bool-cases same) [
        | inr other ↦ inl (rw (other, save_into) refl)
        | inl own ↦ rw (own, save_into) (written_inv ck f own)
      ]
  root_inv (some null) f = inl refl
  root_inv (some (bool x)) f = inl refl
  root_inv (some (number x)) f = inl refl
  root_inv (some (string x)) f = inl refl
  root_inv (some (array x)) f = inl refl

-- With memory granted, cJSON as documented, and a session and its snapshot that are written as
-- objects: enil_session_save fails without a change, or the file has the login of the snapshot,
-- no other file is touched, and each field that the session and the file have once at most is
-- merged three ways: the caller's value where it differs from the snapshot's, no value where the
-- caller dropped that of the snapshot (in any case of its key), and the file's own value
-- otherwise.
pub session_save-SavesFields :
    (f : FieldStore) (laws : SaveLaws f.partial) (s : Sessions) (path : Text)
    (session : SessionFields) (nk bk : Children)
    → enil_session_to_json f session ≡ some (object nk)
    → baseline_of f session.snapshot ≡ some (object bk)
    → SavesFields f.partial s path (object nk) (object bk) (enil_session_save f s path session)
unfolding enil_session_save save_json
session_save-SavesFields f laws s path session nk bk next baseline =
    subst
      (λ o.
        SavesFields f.partial s path (object nk) (object bk)
          (save_json f.partial s path o (baseline_of f session.snapshot)))
      (sym next)
      (subst
        (λ o.
          SavesFields f.partial s path (object nk) (object bk)
            (save_json f.partial s path (some (object nk)) o))
        (sym baseline) (root_inv f.partial laws s path nk bk (s.files path) refl))
