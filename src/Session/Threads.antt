-- ===== src/Session/Threads.antt =====
-- source/shared/enil_session.c: an operation leaves the bindings of other threads as they are.
use enil.Common.{
  ℕ, ◌≡◌, refl, ap, ◌∙◌, Bool, true, false, not, ◌||◌, Option, none, some, ◌==◌, arith, Bool-cases,
  inl, inr,
}
use enil.Common.Text.{Text}
use enil.Common.Json.{Json, is_object}
use enil.Identity.{Identity}
use enil.Session.{
  Binding, Sessions, Store, BindCall, set_binding, bind_identity, settled, bound_to, bind_to,
  bind_root, cleared, unbound, enil_session_bind_identity, go_on_with, rotate, accept_for,
  binding_matches, is_empty, has_line_end,
}
use enil.Session.Bound.{continue_bound}

module _ (store : Store) where
  module _ (thread t : ℕ) (other : (t == thread) ≡ false) where
    set_other :
        (sets : Bool) (s : Sessions) (b : Option Binding)
        → (set_binding store sets s t b).0.bound thread ≡ s.bound thread
    unfolding set_binding
    set_other sets s b = elim (Bool-cases (not store.binding_ready || not sets)) [
      | inl bad ↦ rw (bad, set_binding) refl
      | inr fine ↦
          let apart : (thread == t) ≡ false = ground (arith, other) in
          rw (fine, set_binding, apart) refl
    ]

    settled_other :
        (call : BindCall) (r : Sessions × Bool)
        → (settled store call t r).0.bound thread ≡ r.0.bound thread
    settled_other call (s, true) = refl
    settled_other call (s, false) = refl

    bound_to_other :
        (call : BindCall) (b : Binding) (r : Sessions × Bool)
        → (bound_to store call t b r).0.bound thread ≡ r.0.bound thread
    bound_to_other call b (s, false) = refl
    bound_to_other call b (s, true) =
        settled_other call (set_binding store call.sets s t (some b))
        ∙ set_other call.sets s (some b)

    bind_to_other :
        (call : BindCall) (s : Sessions) (i : Option Identity) (b : Option Binding)
        → (bind_to store call s t i b).0.bound thread ≡ s.bound thread
    bind_to_other call s none b = refl
    bind_to_other call s (some i) none = refl
    bind_to_other call s (some i) (some b) =
        bound_to_other call b (bind_identity store call.bind_identity s t (some i))

    bind_root_other :
        (call : BindCall) (s : Sessions) (path : Text) (root : Option Json)
        → (bind_root store call s t path root).0.bound thread ≡ s.bound thread
    bind_root_other call s path none = refl
    bind_root_other call s path (some root) = elim (Bool-cases (is_object root)) [
      | inl obj ↦ rw (obj, bind_root) (bind_to_other call s _ _)
      | inr bad ↦ rw (bad, bind_root) refl
    ]

    cleared_other :
        (call : BindCall) (path : Text) (r : Sessions × Bool)
        → (cleared store call t path r).0.bound thread ≡ r.0.bound thread
    cleared_other call path (s, false) = refl
    cleared_other call path (s, true) = bind_root_other call s path (s.files path)

    unbound_other :
        (call : BindCall) (path : Text) (r : Sessions × Bool)
        → (unbound store call t path r).0.bound thread ≡ r.0.bound thread
    unbound_other call path (s, false) = refl
    unbound_other call path (s, true) =
        cleared_other call path (bind_identity store call.clear_identity s t none)

    pub bind_other :
        (call : BindCall) (s : Sessions) (path : Text)
        → (enil_session_bind_identity store call s t path).0.bound thread ≡ s.bound thread
    unfolding enil_session_bind_identity
    bind_other call s path =
        unbound_other call path (set_binding store call.clears s t none)
        ∙ set_other call.clears s none

    pub continue_other :
        (call : BindCall) (s : Sessions) (path : Text) (b : Option Binding)
        → (go_on_with store call s t path b).0.bound thread ≡ s.bound thread
    continue_other call s path none = bind_other call s path
    continue_other call s path (some b) =
        ap (λ (s' : Sessions). s'.bound thread) (continue_bound store call s t path b).0

  rotate_bound :
      (s : Sessions) (path previous next : Text) (root : Option Json) (token : Option Text)
      → (rotate store s path previous next root token).0.bound ≡ s.bound
  rotate_bound s path previous next none token = refl
  rotate_bound s path previous next (some root) none = refl
  rotate_bound s path previous next (some root) (some token) = ground arith

  pub accept_bound :
      (s : Sessions) (t : ℕ) (previous next : Text) (b : Option Binding)
      → (accept_for store s t previous next b).0.bound ≡ s.bound
  accept_bound s t previous next none = refl
  accept_bound s t previous next (some b) = elim (Bool-cases (is_empty next || has_line_end next)) [
    | inl bad ↦ rw (bad, accept_for) refl
    | inr fine ↦ elim (Bool-cases (binding_matches store s t (some b) (s.files b.path))) [
      | inr gone ↦ rw (fine, gone, accept_for) refl
      | inl kept ↦
          rw (fine, kept, accept_for) (rotate_bound s b.path previous next (s.files b.path) _)
    ]
  ]
