-- ===== src/Session/Bound.antt =====
-- source/shared/enil_session.c: an operation keeps to the login that it began with.
use enil.Common.{
  ℕ, ◌≡◌, refl, ap, ◌∙◌, Bool, true, false, ◌&&◌, Option, none, some, Bool-cases, inl, inr,
}
use enil.Common.Text.{Text, codes, text_eq, text_eq→eq}
use enil.Common.Json.{Json, field, is_object}
use enil.Identity.{Identity, enil_identity_parse, enil_identity_current}
use enil.Session.{
  Binding, Sessions, Store, BindCall, same_identity, same_login, is_saved, matches, binding_matches,
  go_on_with,
}

module _ (store : Store) where
  -- The file holds an object with the login of the binding and the identity of the thread.
  abbrev pub HasLogin : Sessions → ℕ → Binding → Type 0
  HasLogin s thread b =
      (root : Json) × (identity : Identity) × (saved : Identity) × (s.files b.path ≡ some root)
      × (enil_identity_current store.identity_ready s.identities thread ≡ some identity)
      × (is_object root ≡ true)
      × (same_login b.login_id (field store.cjson (some root) (codes "loginId")) ≡ true)
      × (enil_identity_parse store.cjson store.numbers
            (field store.cjson (some root) (codes "clientIdentity"))
          ≡ some saved)
      × (same_identity identity saved ≡ true)

  both : (a b : Bool) → (a && b) ≡ true → (a ≡ true) × (b ≡ true)
  both true b h = (refl, h)
  both false b h = absurd (cc h)

  saved_inv :
      (identity : Identity) (r : Option Identity)
      → is_saved identity r ≡ true
      → (saved : Identity) × (r ≡ some saved) × (same_identity identity saved ≡ true)
  saved_inv identity none h = absurd (cc h)
  saved_inv identity (some saved) h = (saved, refl, h)

  matches_inv :
      (s : Sessions) (thread : ℕ) (b : Binding) (i : Option Identity) (r : Option Json)
      → enil_identity_current store.identity_ready s.identities thread ≡ i
      → s.files b.path ≡ r
      → matches store i (some b) r ≡ true
      → HasLogin s thread b
  unfolding matches
  matches_inv s thread b none r e f h = absurd (cc h)
  matches_inv s thread b (some identity) none e f h = absurd (cc h)
  matches_inv s thread b (some identity) (some root) e f h =
      let (obj, rest) = both (is_object root) _ h in
      let (login, same) =
        both (same_login b.login_id (field store.cjson (some root) (codes "loginId"))) _ rest in
      let (saved, p, q) = saved_inv identity _ same in
      (root, identity, saved, f, e, obj, login, p, q)

  pub binding_matches_inv :
      (s : Sessions) (thread : ℕ) (b : Binding)
      → binding_matches store s thread (some b) (s.files b.path) ≡ true
      → HasLogin s thread b
  unfolding binding_matches
  binding_matches_inv s thread b h =
      matches_inv s thread b (enil_identity_current store.identity_ready s.identities thread)
        (s.files b.path) refl refl h

  pub continue_bound :
      (call : BindCall) (s : Sessions) (thread : ℕ) (path : Text) (b : Binding)
      → ((go_on_with store call s thread path (some b)).0 ≡ s)
        × ((go_on_with store call s thread path (some b)).1 ≡ true
            → (b.path ≡ path) × HasLogin s thread b)
  continue_bound call s thread path b = elim (Bool-cases (text_eq b.path path)) [
    | inr other ↦ rw (other, go_on_with) (refl, λ h. absurd (cc h))
    | inl same ↦
        let e = text_eq→eq b.path path same in
        rw (same, go_on_with)
          (
            refl,
            λ h. (
              e,
              binding_matches_inv s thread b
                  (ap (λ p. binding_matches store s thread (some b) (s.files p)) e ∙ h),
            ),
          )
  ]
