-- ===== src/Identity/RoundTrip.antt =====
-- source/shared/enil_identity.c: an identity that was written is read again.
use enil.Common.{
  ℕ, ◌≡◌, refl, sym, ap, ◌∙◌, Bool, true, false, Option, none, some, inl, inr, Option-cases,
}
use enil.Common.Int.{pos}
use enil.Common.Text.{Text, codes, text_eq, has_prefix}
use enil.Common.Json.{
  Json, Children, Cjson, Numbers, ObjectLaws, bool, number, object, string, nil, node, find_key,
  snoc,
}
use enil.Identity.{
  Identity, enil_identity_default, fits, is_transport, up_to_tab, accepted, make, checked,
  read_string, read_identity, enil_identity_parse, add, enil_identity_to_json,
}
use enil.Identity.Shape.{
  IsProfile, chrome, windows, old_windows, android, IsIdentity, identity_parse-IsIdentity,
}

-- A profile is accepted as it stands.
accepted-Profile :
    (auto : Bool) (t p app agent system model gateway name : Text)
    → IsProfile p t name
    → has_prefix name app ≡ true
    → checked (some (make auto t p app agent system model gateway))
      ≡ some (make auto t p app agent system model gateway)
unfolding accepted enil_identity_default up_to_tab text_eq
accepted-Profile auto t p app agent system model gateway name chrome named = rw named refl
accepted-Profile auto t p app agent system model gateway name windows named = rw named refl
accepted-Profile auto t p app agent system model gateway name old_windows named = rw named refl
accepted-Profile auto t p app agent system model gateway name android named = rw named refl

profile_fits :
    (p t name : Text) → IsProfile p t name → (fits 16 false p ≡ true) × (is_transport t ≡ true)
unfolding fits text_eq
profile_fits p t name chrome = (refl, refl)
profile_fits p t name windows = (refl, refl)
profile_fits p t name old_windows = (refl, refl)
profile_fits p t name android = (refl, refl)

-- The fields that an identity is written to.
abbrev pub fields : Numbers → Identity → Children
fields numbers i = node (codes "schemaVersion") (number (numbers.of_i64 (pos 1))) (
    node (codes "transport") (string i.transport) (
      node (codes "profileId") (string i.profile_id) (
        node (codes "application") (string i.application) (
          node (codes "userAgent") (string i.user_agent) (
            node (codes "systemName") (string i.system_name) (
              node (codes "modelName") (string i.model_name) (
                node (codes "gatewayVersion") (string i.gateway_version)
                  (node (codes "autoLoginIsRequired") (bool i.auto_login_required) nil))))))))

module _ (cjson : Cjson) (laws : ObjectLaws cjson) where
  -- If there is an object, it has these children.
  abbrev Holds : Option Json → Children → Type 0
  Holds o kids = (p : Json) → o ≡ some p → p ≡ object kids

  add-created :
      (o : Json) (key : Text) (v item : Json)
      → cjson.create v ≡ some item
      → add cjson (some o) key v ≡ cjson.add_item_to_object o key item
  add-created o key v item e = rw (e, add) refl

  add-Holds :
      (o : Option Json) (kids : Children) (key : Text) (v : Json)
      → Holds o kids
      → Holds (add cjson o key v) (snoc kids key v)
  add-Holds none kids key v has o' h = absurd (cc h)
  add-Holds (some o) kids key v has o' h = elim (Option-cases (cjson.create v)) [
    | inl no_memory ↦ absurd (cc (rw (no_memory, add) at h))
    | inr (item, e) ↦
        let same : item ≡ v = laws.create_lem v item e in
        laws.add_item_lem kids key v o' (
          ap (λ p. cjson.add_item_to_object p key v) (sym (has o refl))
          ∙ ap (cjson.add_item_to_object o key) (sym same)
          ∙ sym (add-created o key v item e)
          ∙ h)
  ]

  to_json-Holds :
      (numbers : Numbers) (i : Identity)
      → Holds (enil_identity_to_json cjson numbers i) (fields numbers i)
  unfolding enil_identity_to_json
  to_json-Holds numbers i = add-Holds _ _ _ _ (
      add-Holds _ _ _ _ (
        add-Holds _ _ _ _ (
          add-Holds _ _ _ _ (
            add-Holds _ _ _ _ (
              add-Holds _ _ _ _ (
                add-Holds _ _ _ _ (
                  add-Holds _ _ _ _
                    (add-Holds _ nil _ _ (λ p e. laws.create_lem (object nil) p e)))))))))

  read_string-found :
      (numbers : Numbers) (kids : Children) (key : Text) (size : ℕ) (tabs : Bool) (s : Text)
      → find_key kids key ≡ some (string s)
      → fits size tabs s ≡ true
      → read_string cjson numbers (object kids) key size tabs ≡ some s
  read_string-found numbers kids key size tabs s e f = rw (laws.get_item_lem kids key, e, f) refl

  found :
      (kids : Children) (key : Text) (v : Json)
      → find_key kids key ≡ some v
      → cjson.get_object_item_case_sensitive (object kids) key ≡ some v
  found kids key v e = laws.get_item_lem kids key ∙ e

  read_identity-fields :
      (numbers : Numbers) (i : Identity)
      → IsIdentity i
      → read_identity cjson numbers (object (fields numbers i)) ≡ some i
  unfolding read_identity text_eq
  read_identity-fields numbers i good =
      let kids = fields numbers i in
      let (short, sent) = profile_fits i.profile_id i.transport good.name good.profile in
      rw
        (
          found kids (codes "autoLoginIsRequired") (bool i.auto_login_required) refl,
          found kids (codes "transport") (string i.transport) refl,
          sent,
          read_string-found numbers kids (codes "profileId") 16 false i.profile_id refl short,
          read_string-found numbers kids (codes "application") 160 true i.application refl
              good.application_fits,
          read_string-found numbers kids (codes "userAgent") 256 false i.user_agent refl
              good.user_agent_fits,
          read_string-found numbers kids (codes "systemName") 64 false i.system_name refl
              good.system_name_fits,
          read_string-found numbers kids (codes "modelName") 64 false i.model_name refl
              good.model_name_fits,
          read_string-found numbers kids (codes "gatewayVersion") 32 false i.gateway_version refl
              good.gateway_version_fits,
        )
        refl

  module _ (numbers : Numbers)
      (one : numbers.double_eq (numbers.of_i64 (pos 1)) (numbers.of_i64 (pos 1)) ≡ true) where
    parse-fields :
        (i : Identity)
        → IsIdentity i
        → enil_identity_parse cjson numbers (some (object (fields numbers i))) ≡ some i
    unfolding enil_identity_parse text_eq
    parse-fields i good =
        let version =
          found (fields numbers i) (codes "schemaVersion") (number (numbers.of_i64 (pos 1))) refl in
        rw (version, one, read_identity-fields numbers i good)
          (accepted-Profile i.auto_login_required i.transport i.profile_id i.application
            i.user_agent i.system_name i.model_name i.gateway_version good.name good.profile
            good.named)

    -- With cJSON objects as documented and 1 equal to itself as a double: an identity that was
    -- read from any JSON and written by enil_identity_to_json, if that succeeds, is read again
    -- as it was.
    pub identity_parse-to_json :
        (json : Option Json) (i : Identity) (json' : Json)
        → enil_identity_parse cjson numbers json ≡ some i
        → enil_identity_to_json cjson numbers i ≡ some json'
        → enil_identity_parse cjson numbers (some json') ≡ some i
    identity_parse-to_json json i json' h w =
        rw (to_json-Holds numbers i json' w)
          (parse-fields i (identity_parse-IsIdentity cjson numbers json i h))
