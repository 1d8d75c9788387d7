-- ===== src/Session/Run.antt =====
-- source/shared/enil_session.c: operations of several threads, one after another.
use enil.Common.{
  ℕ, ◌≡◌, refl, sym, ap, ◌∙◌, Bool, true, false, ◌||◌, Option, none, some, List, [], ◌∷◌, ◌==◌,
  if◌then◌else◌, arith, Bool-cases, inl, inr, ◌⊎◌, ==_iff,
}
use enil.Common.Text.{Text, text_eq}
use enil.Common.Json.{Json}
use enil.Session.{
  Binding, Sessions, Store, BindCall, current_binding, enil_session_bind_identity, go_on_with,
  enil_session_continue_identity, rotate, accept_for, enil_session_accept_next_access,
  binding_matches, is_empty, has_line_end,
}
use enil.Session.Threads.{bind_other, continue_other, accept_bound}
use enil.Session.Bound.{HasLogin, continue_bound, binding_matches_inv}

-- What a thread does, and what anyone does to a file.
pub data Op : Type 0 where
  binds continues : BindCall → ℕ → Text → Op
  accepts : ℕ → Text → Text → Op
  saves : Text → Option Json → Op

-- The thread itself binds a session anew.
abbrev pub rebinds : ℕ → Op → Bool
rebinds thread (binds call t path) = t == thread
rebinds thread _ = false

abbrev pub put_any : (Text → Option Json) → Text → Option Json → Text → Option Json
put_any files path root p = if text_eq p path then root else files p

module _ (store : Store) where
  abbrev pub step : Sessions → Op → Sessions
  step s (binds call t path) = (enil_session_bind_identity store call s t path).0
  step s (continues call t path) = (enil_session_continue_identity store call s t path).0
  step s (accepts t previous next) = (enil_session_accept_next_access store s t previous next).0
  step s (saves path root) = record s { files = put_any s.files path root }

  abbrev pub run : Sessions → List Op → Sessions
  run s [] = s
  run s (op ∷ ops) = run (step s op) ops

  ready_binding :
      (s : Sessions) (t : ℕ) (b : Binding)
      → store.binding_ready ≡ true
      → s.bound t ≡ some b
      → current_binding store s t ≡ some b
  ready_binding s t b ready h = ground (arith, ready, h)

  step_kept :
      (s : Sessions) (thread : ℕ) (b : Binding) (op : Op)
      → store.binding_ready ≡ true
      → rebinds thread op ≡ false
      → s.bound thread ≡ some b
      → (step s op).bound thread ≡ some b
  unfolding enil_session_continue_identity enil_session_accept_next_access
  step_kept s thread b (binds call t path) ready other h =
      bind_other store thread t other call s path ∙ h
  step_kept s thread b (accepts t previous next) ready other h =
      ap (λ (f : ℕ → Option Binding). f thread)
        (accept_bound store s t previous next (current_binding store s t))
      ∙ h
  step_kept s thread b (saves path root) ready other h = h
  step_kept s thread b (continues call t path) ready other h = elim (Bool-cases (t == thread)) [
    | inr apart ↦ continue_other store thread t apart call s path (current_binding store s t) ∙ h
    | inl same ↦
        let own : current_binding store s t ≡ some b =
          ready_binding s t b ready (ap s.bound ((==_iff t thread).0 same) ∙ h) in
        ap (λ (s' : Sessions). s'.bound thread)
          (ap (λ c. (go_on_with store call s t path c).0) own
            ∙ (continue_bound store call s t path b).0)
        ∙ h
  ]

  -- No operation binds the thread anew.
  abbrev pub Leaves : ℕ → List Op → Type 0
  Leaves thread [] = Unit {0}
  Leaves thread (op ∷ ops) = (rebinds thread op ≡ false) × Leaves thread ops

  run_kept :
      (ops : List Op) (s : Sessions) (thread : ℕ) (b : Binding)
      → store.binding_ready ≡ true
      → Leaves thread ops
      → s.bound thread ≡ some b
      → (run s ops).bound thread ≡ some b
  run_kept [] s thread b ready leaves h = h
  run_kept (op ∷ ops) s thread b ready (first, others) h =
      run_kept ops (step s op) thread b ready others (step_kept s thread b op ready first h)

  continue_own :
      (call : BindCall) (s : Sessions) (thread : ℕ) (path : Text) (b : Binding)
      → current_binding store s thread ≡ some b
      → ((enil_session_continue_identity store call s thread path).0 ≡ s)
        × ((enil_session_continue_identity store call s thread path).1 ≡ true
            → (b.path ≡ path) × HasLogin store s thread b)
  unfolding enil_session_continue_identity
  continue_own call s thread path b own =
      let e = ap (go_on_with store call s thread path) own in
      let (same, kept) = continue_bound store call s thread path b in
      (
        ap (λ (r : Sessions × Bool). r.0) e ∙ same,
        λ h. kept (sym (ap (λ (r : Sessions × Bool). r.1) e) ∙ h),
      )

  -- A thread that is bound keeps its binding over any operations of any threads and any changes
  -- of the files, if it does not bind anew itself; and after them enil_session_continue_identity
  -- changes nothing, and says yes only for the bound path while the file has the login id of the
  -- binding and the identity of the thread.
  pub session_run-HasLogin :
      (ops : List Op) (s : Sessions) (thread : ℕ) (b : Binding) (call : BindCall) (path : Text)
      → store.binding_ready ≡ true
      → Leaves thread ops
      → s.bound thread ≡ some b
      → ((enil_session_continue_identity store call (run s ops) thread path).0 ≡ run s ops)
        × ((enil_session_continue_identity store call (run s ops) thread path).1 ≡ true
            → (b.path ≡ path) × HasLogin store (run s ops) thread b)
  session_run-HasLogin ops s thread b call path ready leaves h =
      continue_own call (run s ops) thread path b
        (ready_binding (run s ops) thread b ready (run_kept ops s thread b ready leaves h))

  rotate_elsewhere :
      (s : Sessions) (path previous next p : Text) (root : Option Json) (token : Option Text)
      → text_eq p path ≡ false
      → (rotate store s path previous next root token).0.files p ≡ s.files p
  rotate_elsewhere s path previous next p none token h = refl
  rotate_elsewhere s path previous next p (some root) none h = refl
  rotate_elsewhere s path previous next p (some root) (some token) h = ground (arith, h)

  -- Refused without a change, or for the login of the binding, with no other file touched.
  abbrev pub RotatesFor : Sessions → ℕ → Binding → Sessions × Bool → Type 0
  RotatesFor s thread b r =
      (r ≡ (s, false))
      ⊎ (HasLogin store s thread b
          × ((p : Text) → text_eq p b.path ≡ false → r.0.files p ≡ s.files p))

  accept_own :
      (s : Sessions) (thread : ℕ) (previous next : Text) (b : Binding)
      → RotatesFor s thread b (accept_for store s thread previous next (some b))
  accept_own s thread previous next b = elim (Bool-cases (is_empty next || has_line_end next)) [
    | inl bad ↦ inl (rw (bad, accept_for) refl)
    | inr fine ↦ elim (Bool-cases (binding_matches store s thread (some b) (s.files b.path))) [
      | inr gone ↦ inl (rw (fine, gone, accept_for) refl)
      | inl kept ↦
          rw (fine, kept, accept_for)
            (inr (
              binding_matches_inv store s thread b kept,
              λ p h. rotate_elsewhere s b.path previous next p (s.files b.path) _ h,
            ))
    ]
  ]

  -- For a bound thread, enil_session_accept_next_access fails without a change, or the bound
  -- file has the login id of the binding and the identity of the thread, and no other file is
  -- touched.
  pub accept_next_access-RotatesFor :
      (s : Sessions) (thread : ℕ) (previous next : Text) (b : Binding)
      → store.binding_ready ≡ true
      → s.bound thread ≡ some b
      → RotatesFor s thread b (enil_session_accept_next_access store s thread previous next)
  unfolding enil_session_accept_next_access
  accept_next_access-RotatesFor s thread previous next b ready h =
      rw (ready_binding s thread b ready h) (accept_own s thread previous next b)
