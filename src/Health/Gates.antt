-- ===== src/Health/Gates.antt =====
-- source/shared/enil_health.c: failures stay until they are cleared, and stay where they belong.
use enil.Common.{
  ℕ, ◌≡◌, ◌≢◌, refl, Bool, true, false, ◌||◌, Option, none, some, List, [], ◌∷◌, arith, All,
  Option-cases, inl, inr,
}
use enil.Health.{
  Health, Source, none_source, worker, line, same, bind, create, destroy, set_failure,
  clear_failure, is_failed, any_failed,
}

-- Whether two threads have the same account bound.
abbrev pub share : Health → ℕ → ℕ → Bool
share s t u = elim (s.bound t) [ none ↦ false | some h ↦ same (s.bound u) h ]

-- Exactly who sees a reported failure: a failure of the worker, every thread; a failure of LINE,
-- the threads with the same account bound as the reporting thread; every other gate answers as
-- before.
pub is_failed-set_failure :
    (s : Health) (t u : ℕ) (src : Source)
    → (is_failed (set_failure s t src) u worker
        ≡ (is_failed s u worker || elim src [ worker ↦ true | _ ↦ false ]))
      × (is_failed (set_failure s t src) u line
          ≡ (is_failed s u line || elim src [ line ↦ share s t u | _ ↦ false ]))
unfolding is_failed set_failure
is_failed-set_failure s t u none_source = ground arith
is_failed-set_failure s t u worker = ground arith
is_failed-set_failure s t u line = elim (Option-cases (s.bound t)) [
  | inl e ↦ ground (arith, e)
  | inr (h, e) ↦ elim (Option-cases (s.bound u)) [
    | inl e' ↦ ground (arith, e, e')
    | inr (g, e') ↦ ground (arith, e, e')
  ]
]

-- What a thread may do to the gates.
pub data Op : Type 0 where
  bind_op : ℕ → Option ℕ → Op
  create_op : ℕ → Op
  destroy_op : ℕ → Option ℕ → Op
  set_op clear_op : ℕ → Source → Op

unfoldable pub step : Health → Op → Health
step s (bind_op t h) = bind s t h
step s (create_op h) = create s h
step s (destroy_op t h) = destroy s t h
step s (set_op t src) = set_failure s t src
step s (clear_op t src) = clear_failure s t src

unfoldable pub run : Health → List Op → Health
run s [] = s
run s (op ∷ ops) = run (step s op) ops

-- What can end a failure of the worker: clearing it.
abbrev pub KeepsWorker : Op → Type 0
KeepsWorker (clear_op t src) = src ≢ worker
KeepsWorker _ = Unit {0}

pub step-worker_failed :
    (s : Health) (op : Op)
    → KeepsWorker op
    → s.worker_failed ≡ true
    → (step s op).worker_failed ≡ true
unfolding step bind create destroy set_failure clear_failure
step-worker_failed s (bind_op t h) k f = f
step-worker_failed s (create_op h) k f = f
step-worker_failed s (destroy_op t none) k f = f
step-worker_failed s (destroy_op t (some h)) k f = ground arith
step-worker_failed s (set_op t none_source) k f = f
step-worker_failed s (set_op t worker) k f = refl
step-worker_failed s (set_op t line) k f = elim (Option-cases (s.bound t)) [
  | inl e ↦ ground (arith, e)
  | inr (g, e) ↦ ground (arith, e)
]
step-worker_failed s (clear_op t none_source) k f = f
step-worker_failed s (clear_op t worker) k f = absurd (k refl)
step-worker_failed s (clear_op t line) k f = elim (Option-cases (s.bound t)) [
  | inl e ↦ ground (arith, e)
  | inr (g, e) ↦ ground (arith, e)
]

-- Once the worker has failed, every thread finds it failed after any operations by any threads
-- in which no thread clears the failure of the worker.
pub run-worker_failed :
    (s : Health) (ops : List Op) (u : ℕ)
    → All KeepsWorker ops
    → s.worker_failed ≡ true
    → (is_failed (run s ops) u worker ≡ true) × (any_failed (run s ops) u ≡ true)
unfolding run is_failed any_failed
run-worker_failed s [] u k f = ground arith
run-worker_failed s (op ∷ ops) u (k, ks) f =
    run-worker_failed (step s op) ops u ks (step-worker_failed s op k f)

-- What can end a failure of account `h`: clearing LINE's failure on a thread, or a new object in its place.
abbrev pub KeepsLine : ℕ → Op → Type 0
KeepsLine h (clear_op t src) = src ≢ line
KeepsLine h (create_op g) = g ≢ h
KeepsLine h _ = Unit {0}

pub step-line_failed :
    (s : Health) (h : ℕ) (op : Op)
    → KeepsLine h op
    → s.line_failed h ≡ true
    → (step s op).line_failed h ≡ true
unfolding step bind create destroy set_failure clear_failure
step-line_failed s h (bind_op t g) k f = f
step-line_failed s h (create_op g) k f = ground arith
step-line_failed s h (destroy_op t none) k f = f
step-line_failed s h (destroy_op t (some g)) k f = ground arith
step-line_failed s h (set_op t none_source) k f = f
step-line_failed s h (set_op t worker) k f = f
step-line_failed s h (set_op t line) k f = elim (Option-cases (s.bound t)) [
  | inl e ↦ ground (arith, e)
  | inr (g, e) ↦ ground (arith, e)
]
step-line_failed s h (clear_op t none_source) k f = f
step-line_failed s h (clear_op t worker) k f = ground arith
step-line_failed s h (clear_op t line) k f = absurd (k refl)

-- Once the gate of an account has failed, every thread that has the account bound finds LINE
-- failed after any operations in which no thread clears a failure of LINE and no new object
-- takes the place of this one.
pub run-line_failed :
    (s : Health) (h : ℕ) (ops : List Op) (u : ℕ)
    → All (KeepsLine h) ops
    → s.line_failed h ≡ true
    → (run s ops).bound u ≡ some h
    → (is_failed (run s ops) u line ≡ true) × (any_failed (run s ops) u ≡ true)
unfolding run is_failed any_failed
run-line_failed s h [] u k f b = ground (arith, b)
run-line_failed s h (op ∷ ops) u (k, ks) f b =
    run-line_failed (step s op) h ops u ks (step-line_failed s h op k f) b
