-- ===== src/Session/Named.antt =====
-- source/shared/enil_session.c: enil_session_login_id gives a session file its login id once.
use enil.Common.{
  ℕ, ◌+◌, length, ◌≡◌, refl, sym, ap, ◌∙◌, Bool, true, false, Option, none, some, Bool-cases, inl,
  inr, some_inj,
}
use mathlib.Core.Path.{subst}
use enil.Common.Text.{Text, codes, text_eq_refl}
use enil.Common.Json.{
  Json, Children, null, bool, number, string, array, object, field, find_key, snoc,
}
use enil.ApiJson.{copied}
use enil.Session.{Sessions, is_empty, write_file, put_file}
use enil.Session.Partial.{PartialStore}
use enil.Session.Stamps.{PartialLaws, find_snoc_same}
use enil.Session.Saved.{file_field}
use enil.Session.Settings.{
  with_added, with_created, with_new_id, id_of_item, add_login_id, id_written, keep_id, login_id_in,
  enil_session_login_id,
}

abbrev pub login_key : Text
login_key = codes "loginId"

module _ (m : PartialStore) (laws : PartialLaws m)
    (grants : (n : ℕ) → m.store.grants n ≡ true) where
  -- A file that has an id keeps it.
  abbrev pub IsNamed : Sessions → Text → Text → Type 0
  IsNamed s path id =
      (file_field m s path login_key ≡ some (string id))
      × ((next : Option Text) → enil_session_login_id m next s path ≡ (s, some id))

  has_id :
      (kids : Children) (v : Json)
      → find_key kids login_key ≡ some v
      → m.store.cjson.has_object_item (object kids) login_key ≡ true
  has_id kids v e = elim (Bool-cases (m.store.cjson.has_object_item (object kids) login_key)) [
    | inl yes_it_has ↦ yes_it_has
    | inr lacks ↦ absurd (cc (sym (laws.has_item_lem kids login_key lacks) ∙ e))
  ]

  named :
      (s : Sessions) (path : Text) (kids : Children) (id : Text)
      → s.files path ≡ some (object kids)
      → find_key kids login_key ≡ some (string id)
      → is_empty id ≡ false
      → IsNamed s path id
  unfolding enil_session_login_id add_login_id
  named s path kids id f e full =
      let item = laws.objects.get_item_lem kids login_key ∙ e in
      let copy : copied m.store.grants id ≡ some id = rw (grants (length id + 1), copied) refl in
      (
        ap (λ o. field m.store.cjson o login_key) f ∙ item,
        λ next.
            let added : add_login_id m next (object kids) ≡ (object kids, some id) =
              ap (id_of_item m next (object kids)) item
              ∙ rw (full, id_of_item) (ap (λ o. (object kids, o)) copy) in
            ap (login_id_in m next s path) f
            ∙ (ap (keep_id m s path (m.store.cjson.has_object_item (object kids) login_key)) added
                ∙ ap (λ b. keep_id m s path b (object kids, some id)) (has_id kids (string id) e)),
      )

  module _ (s : Sessions) (path : Text) (id : Text) (full : is_empty id ≡ false) where
    -- What an answer says.
    abbrev Says : Sessions × Option Text → Type 0
    Says r = r.1 ≡ some id → IsNamed r.0 path id

    answered :
        (synced : Bool) (s' : Sessions) (n : Text) (ck : Children)
        → s'.files path ≡ some (object ck)
        → find_key ck login_key ≡ some (string n)
        → Says (id_written m (some n) (s', synced))
    answered false s' n ck f e h = absurd (cc h)
    answered true s' n ck f e h =
        named s' path ck id f (e ∙ ap (λ t. some (string t)) (some_inj h)) full

    written :
        (root : Json) (ck : Children) (n : Text)
        → root ≡ object ck
        → find_key ck login_key ≡ some (string n)
        → Says (id_written m (some n) (write_file m.store s path root))
    written root ck n er e = elim (Bool-cases (m.store.replaces root)) [
      | inr refused ↦ rw (refused, write_file) (λ h. absurd (cc h))
      | inl done ↦
          let s' : Sessions = record s { files = put_file s.files path root } in
          let file : s'.files path ≡ some (object ck) =
            rw (text_eq_refl path, put_file) (ap (λ o. some o) er) in
          rw (done, write_file) (answered (m.store.syncs root) s' n ck file e)
    ]

    module _ (kids : Children) (f : s.files path ≡ some (object kids)) where
      added_inv :
          (n : Text) (item : Json) (added : Option Json)
          → find_key kids login_key ≡ none
          → item ≡ string n
          → m.store.cjson.add_item_to_object (object kids) login_key item ≡ added
          → Says (keep_id m s path false (with_added m (object kids) n added))
      added_inv n item none e ei ea = λ h. absurd (cc h)
      added_inv n item (some root) e ei ea =
          written root (snoc kids login_key item) n
            (laws.objects.add_item_lem kids login_key item root ea)
            (find_snoc_same kids login_key item e ∙ ap (λ o. some o) ei)

      created_inv :
          (n : Text) (item : Option Json)
          → find_key kids login_key ≡ none
          → m.store.cjson.create (string n) ≡ item
          → Says (keep_id m s path false (with_created m (object kids) n item))
      created_inv n none e ec = λ h. absurd (cc h)
      created_inv n (some item) e ec =
          added_inv n item (m.store.cjson.add_item_to_object (object kids) login_key item) e
            (laws.objects.create_lem (string n) item ec) refl

      new_inv :
          (new_id : Option Text)
          → find_key kids login_key ≡ none
          → Says (keep_id m s path false (with_new_id m (object kids) new_id))
      new_inv none e = λ h. absurd (cc h)
      new_inv (some n) e = created_inv n (m.store.cjson.create (string n)) e refl

      item_inv :
          (new_id : Option Text) (item : Option Json)
          → find_key kids login_key ≡ item
          → (m.store.cjson.has_object_item (object kids) login_key ≡ true
              → (v : Json) × (find_key kids login_key ≡ some v))
          → Says (
              keep_id m s path
                (m.store.cjson.has_object_item (object kids) login_key)
                (id_of_item m new_id (object kids) item))
      item_inv new_id none e exact =
          elim (Bool-cases (m.store.cjson.has_object_item (object kids) login_key)) [
            | inl has ↦ absurd (cc (sym e ∙ (exact has).1))
            | inr lacks ↦ rw lacks (new_inv new_id e)
          ]
      item_inv new_id (some (string i)) e exact =
          let copy : copied m.store.grants i ≡ some i = rw (grants (length i + 1), copied) refl in
          rw (has_id kids (string i) e) (elim (Bool-cases (is_empty i)) [
            | inl empty ↦ rw (empty, id_of_item) (λ h. absurd (cc h))
            | inr filled ↦
                rw (filled, id_of_item, copy)
                  (λ h. named s path kids id f (e ∙ ap (λ t. some (string t)) (some_inj h)) full)
          ])
      item_inv new_id (some null) e exact = λ h. absurd (cc h)
      item_inv new_id (some (bool x)) e exact = λ h. absurd (cc h)
      item_inv new_id (some (number x)) e exact = λ h. absurd (cc h)
      item_inv new_id (some (array x)) e exact = λ h. absurd (cc h)
      item_inv new_id (some (object x)) e exact = λ h. absurd (cc h)

-- With memory granted, cJSON as documented and a file with an object that has no key like
-- loginId in another case only: if enil_session_login_id answers with a login id that is not
-- empty, the file has this id afterwards, and every later call gives the same id and changes
-- nothing.
pub login_id-IsNamed :
    (m : PartialStore) (laws : PartialLaws m) (grants : (n : ℕ) → m.store.grants n ≡ true)
    (s : Sessions) (path : Text) (new_id : Option Text) (id : Text) (kids : Children)
    → s.files path ≡ some (object kids)
    → (m.store.cjson.has_object_item (object kids) login_key ≡ true
        → (v : Json) × (find_key kids login_key ≡ some v))
    → is_empty id ≡ false
    → (enil_session_login_id m new_id s path).1 ≡ some id
    → IsNamed m laws grants (enil_session_login_id m new_id s path).0 path id
unfolding enil_session_login_id add_login_id
login_id-IsNamed m laws grants s path new_id id kids f exact full h =
    let found = laws.objects.get_item_lem kids login_key in
    let path_to : enil_session_login_id m new_id s path
        ≡ keep_id m s path (m.store.cjson.has_object_item (object kids) login_key)
            (id_of_item m new_id (object kids) (find_key kids login_key)) =
      ap (login_id_in m new_id s path) f
      ∙ ap
          (λ o.
            keep_id m s path (m.store.cjson.has_object_item (object kids) login_key)
              (id_of_item m new_id (object kids) o))
          found in
    subst (λ (r : Sessions × Option Text). r.1 ≡ some id → IsNamed m laws grants r.0 path id)
      (sym path_to)
      (item_inv m laws grants s path id full kids f new_id (find_key kids login_key) refl exact) h
