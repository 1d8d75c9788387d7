-- ===== src/Identity/Shape.antt =====
-- source/shared/enil_identity.c: what an identity that was read is like.
use enil.Common.{
  ℕ, ◌≡◌, refl, sym, ap, Bool, true, false, ◌&&◌, ◌||◌, Option, none, some, ◌⊎◌, inl, inr,
  Bool-cases, Option-cases, some_inj, arith,
}
use enil.Common.Text.{Text, codes, text_eq, text_eq→eq, has_prefix}
use enil.Common.Json.{Json, Cjson, Numbers, null, bool, number, array, object, string, is_object}
use enil.Identity.{
  Identity, legacy_chrome_identity, windows_identity, android_identity, enil_identity_default, fits,
  text_field, has_some_prefix, up_to_tab, accepted, make, apply, checked, is_version_1,
  read_identity, enil_identity_parse,
}

-- The profiles, the transports that they may use, and the name before the tab in `application`: the
-- native transport is no Chrome profile's, and the Chrome gateway no Android profile's.
pub data IsProfile : Text → Text → Text → Type 0 where
  chrome : IsProfile (codes "chrome") (codes "chrome-gateway") (codes "CHROMEOS\t")
  windows : IsProfile (codes "desktopwin") (codes "native-thrift") (codes "DESKTOPWIN\t")
  old_windows : IsProfile (codes "desktopwin") (codes "chrome-gateway") (codes "DESKTOPWIN\t")
  android : IsProfile (codes "android") (codes "native-thrift") (codes "ANDROIDSECONDARY\t")

-- An identity of a profile, with texts that fit their arrays and have no control characters.
pub record IsIdentity (i : Identity) : Type 0 where
  pub name : Text
  pub profile : IsProfile i.profile_id i.transport name
  pub named : has_prefix name i.application ≡ true
  pub application_fits : fits 160 true i.application ≡ true
  pub user_agent_fits : fits 256 false i.user_agent ≡ true
  pub system_name_fits : fits 64 false i.system_name ≡ true
  pub model_name_fits : fits 64 false i.model_name ≡ true
  pub gateway_version_fits : fits 32 false i.gateway_version ≡ true

pub legacy-IsIdentity : IsIdentity legacy_chrome_identity
unfolding fits has_prefix
legacy-IsIdentity = record {
  name = codes "CHROMEOS\t";
  profile = chrome;
  named = refl;
  application_fits = refl;
  user_agent_fits = refl;
  system_name_fits = refl;
  model_name_fits = refl;
  gateway_version_fits = refl;
}

-- Which of the three profiles a default is of.
default_cases :
    (p : Text) (k : Identity)
    → enil_identity_default p ≡ some k
    → ((p ≡ codes "chrome") × (k ≡ legacy_chrome_identity))
      ⊎ (((p ≡ codes "desktopwin") × (k ≡ windows_identity))
          ⊎ ((p ≡ codes "android") × (k ≡ android_identity)))
unfolding enil_identity_default
default_cases p k h = elim (Bool-cases (text_eq p (codes "chrome"))) [
  | inl is_chrome ↦
      inl (text_eq→eq p _ is_chrome, sym (some_inj (rw (is_chrome, enil_identity_default) at h)))
  | inr no_chrome ↦ elim (Bool-cases (text_eq p (codes "desktopwin"))) [
    | inl is_windows ↦ inr (
        inl (
          text_eq→eq p _ is_windows,
          sym (some_inj (rw (no_chrome, is_windows, enil_identity_default) at h)),
        ))
    | inr no_windows ↦ elim (Bool-cases (text_eq p (codes "android"))) [
      | inl is_android ↦ inr (
          inr (
            text_eq→eq p _ is_android,
            sym (some_inj (rw (no_chrome, no_windows, is_android, enil_identity_default) at h)),
          ))
      | inr no_android ↦
          absurd (cc (rw (no_chrome, no_windows, no_android, enil_identity_default) at h))
    ]
  ]
]

accepted_inv :
    (v k i : Identity)
    → accepted v (some k) ≡ some i
    → (v ≡ i)
      × ((text_eq v.transport k.transport
            || (text_eq v.profile_id (codes "desktopwin")
                && text_eq v.transport (codes "chrome-gateway")))
          ≡ true)
      × (has_some_prefix (up_to_tab k.application) v.application ≡ true)
unfolding accepted
accepted_inv v k i h = ground (arith, h)

or_cases : (a b : Bool) → (a || b) ≡ true → (a ≡ true) ⊎ (b ≡ true)
or_cases true b h = inl refl
or_cases false b h = inr h

or_false : (a : Bool) → (a || false) ≡ true → a ≡ true
or_false true h = refl
or_false false h = h

-- The profile that a text, a transport and an application name.
abbrev Named : Text → Text → Text → Type 0
Named p t app = (name : Text) × IsProfile p t name × (has_prefix name app ≡ true)

profile-Named :
    (p t app : Text) (k : Identity)
    → enil_identity_default p ≡ some k
    → (text_eq t k.transport
        || (text_eq p (codes "desktopwin") && text_eq t (codes "chrome-gateway")))
      ≡ true
    → has_some_prefix (up_to_tab k.application) app ≡ true
    → Named p t app
unfolding up_to_tab text_eq
profile-Named p t app k h fit named = elim (default_cases p k h) [
  | inl (e, d) ↦
      let t_eq : t ≡ codes "chrome-gateway" = text_eq→eq t _ (or_false _ (rw (d, e) at fit)) in
      rw (e, t_eq) (codes "CHROMEOS\t", chrome, rw d at named)
  | inr (inl (e, d)) ↦ elim (or_cases _ _ (rw (d, e) at fit)) [
    | inl same ↦
        rw (e, text_eq→eq t (codes "native-thrift") same)
          (codes "DESKTOPWIN\t", windows, rw d at named)
    | inr old ↦
        rw (e, text_eq→eq t (codes "chrome-gateway") old)
          (codes "DESKTOPWIN\t", old_windows, rw d at named)
  ]
  | inr (inr (e, d)) ↦
      let t_eq : t ≡ codes "native-thrift" = text_eq→eq t _ (or_false _ (rw (d, e) at fit)) in
      rw (e, t_eq) (codes "ANDROIDSECONDARY\t", android, rw d at named)
]

-- Where the fields of an identity come from.
fields_inv :
    (auto : Option Bool) (transport profile application agent system model gateway : Option Text)
    (v : Identity)
    → apply
        (apply
          (apply
            (apply
              (apply (apply (apply (apply (some make) auto) transport) profile) application)
              agent)
            system)
          model)
        gateway
      ≡ some v
    → (application ≡ some v.application)
      × (agent ≡ some v.user_agent)
      × (system ≡ some v.system_name)
      × (model ≡ some v.model_name)
      × (gateway ≡ some v.gateway_version)
fields_inv none t p n u s m g v h = absurd (cc h)
fields_inv (some a) none p n u s m g v h = absurd (cc h)
fields_inv (some a) (some t) none n u s m g v h = absurd (cc h)
fields_inv (some a) (some t) (some p) none u s m g v h = absurd (cc h)
fields_inv (some a) (some t) (some p) (some n) none s m g v h = absurd (cc h)
fields_inv (some a) (some t) (some p) (some n) (some u) none m g v h = absurd (cc h)
fields_inv (some a) (some t) (some p) (some n) (some u) (some s) none g v h = absurd (cc h)
fields_inv (some a) (some t) (some p) (some n) (some u) (some s) (some m) none v h = absurd (cc h)
fields_inv (some a) (some t) (some p) (some n) (some u) (some s) (some m) (some g) v h =
    rw⁻¹ (some_inj h) (refl, refl, refl, refl, refl)

text_field-fits :
    (size : ℕ) (tabs : Bool) (item : Option Json) (s : Text)
    → text_field size tabs item ≡ some s
    → fits size tabs s ≡ true
text_field-fits size tabs none s h = absurd (cc h)
text_field-fits size tabs (some (string t)) s h = elim (Bool-cases (fits size tabs t)) [
  | inl fit ↦ rw (some_inj (rw fit at h)) at fit
  | inr unfit ↦ absurd (cc (rw unfit at h))
]
text_field-fits size tabs (some null) s h = absurd (cc h)
text_field-fits size tabs (some (bool b)) s h = absurd (cc h)
text_field-fits size tabs (some (number d)) s h = absurd (cc h)
text_field-fits size tabs (some (array kids)) s h = absurd (cc h)
text_field-fits size tabs (some (object kids)) s h = absurd (cc h)

module _ (cjson : Cjson) (numbers : Numbers) where
  read_identity-fits :
      (json : Json) (v : Identity)
      → read_identity cjson numbers json ≡ some v
      → (fits 160 true v.application ≡ true)
        × (fits 256 false v.user_agent ≡ true)
        × (fits 64 false v.system_name ≡ true)
        × (fits 64 false v.model_name ≡ true)
        × (fits 32 false v.gateway_version ≡ true)
  unfolding read_identity
  read_identity-fits json v h =
      let (e1, e2, e3, e4, e5) = fields_inv _ _ _ _ _ _ _ _ v h in
      (
        text_field-fits 160 true _ v.application e1,
        text_field-fits 256 false _ v.user_agent e2,
        text_field-fits 64 false _ v.system_name e3,
        text_field-fits 64 false _ v.model_name e4,
        text_field-fits 32 false _ v.gateway_version e5,
      )

  checked_inv :
      (r : Option Identity) (i : Identity)
      → checked r ≡ some i
      → (k : Identity) × (r ≡ some i)
        × (enil_identity_default i.profile_id ≡ some k)
        × ((text_eq i.transport k.transport
              || (text_eq i.profile_id (codes "desktopwin")
                  && text_eq i.transport (codes "chrome-gateway")))
            ≡ true)
        × (has_some_prefix (up_to_tab k.application) i.application ≡ true)
  unfolding accepted
  checked_inv none i h = absurd (cc h)
  checked_inv (some v) i h = elim (Option-cases (enil_identity_default v.profile_id)) [
    | inl unknown ↦ absurd (cc (rw unknown at h))
    | inr (k, e) ↦
        let (same, fit, named) = accepted_inv v k i (rw e at h) in
        (k, ap some same, rw same at e, rw same at fit, rw same at named)
  ]

  opened :
      (json : Json) (i : Identity)
      → enil_identity_parse cjson numbers (some json) ≡ some i
      → checked (read_identity cjson numbers json) ≡ some i
  unfolding enil_identity_parse
  opened json i h =
      let version = cjson.get_object_item_case_sensitive json (codes "schemaVersion") in
      elim (Bool-cases (is_object json)) [
        | inr no_object ↦ absurd (cc (rw (no_object, enil_identity_parse) at h))
        | inl an_object ↦ elim (Bool-cases (is_version_1 cjson numbers version)) [
          | inr other ↦ absurd (cc (rw (an_object, other, enil_identity_parse) at h))
          | inl first ↦ rw (an_object, first, enil_identity_parse) at h
        ]
      ]

  -- Every identity that enil_identity_parse accepts, from any JSON or none, is of one of four
  -- pairs of profile and transport (so only an old Windows login and Chrome use the Chrome
  -- gateway), its application begins with the name of the profile, and its texts fit their
  -- arrays and have no control characters.
  pub identity_parse-IsIdentity :
      (json : Option Json) (i : Identity)
      → enil_identity_parse cjson numbers json ≡ some i
      → IsIdentity i
  unfolding enil_identity_parse
  identity_parse-IsIdentity none i h = rw⁻¹ (some_inj h) legacy-IsIdentity
  identity_parse-IsIdentity (some json) i h =
      let c = opened json i h in
      let (k, e, known, fit, named) = checked_inv (read_identity cjson numbers json) i c in
      let (name, profile, starts) =
        profile-Named i.profile_id i.transport i.application k known fit named in
      let (f1, f2, f3, f4, f5) = read_identity-fits json i e in
      record {
        name = name;
        profile = profile;
        named = starts;
        application_fits = f1;
        user_agent_fits = f2;
        system_name_fits = f3;
        model_name_fits = f4;
        gateway_version_fits = f5;
      }
