-- ===== src/Worker/Gate.antt =====
-- source/shared/enil_worker.c: no request goes out behind the closed gate, and every failure closes it.
use enil.Common.{
  ℕ, ◌≡◌, refl, ◌∙◌, Bool, true, false, ◌&&◌, ◌||◌, Option, none, some, List, [], ◌∷◌, arith, All,
  Bool-cases, ◌⊎◌, inl, inr,
}
use enil.Common.Text.{Text}
use enil.Health.{worker, set_failure, is_failed}
use enil.Health.Gates.{Op, KeepsWorker, step, step-worker_failed}
use enil.Worker.{
  Client, Exchange, Request, Net, is_success, worker_post, content_type_header, is_cancelled,
  worker_credentials_copy, post_to, send, settle,
}

-- An answer that leaves the gate open: a 2xx, or one that the caller no longer waits for.
unfoldable pub is_clean : Exchange → Bool
is_clean x = x.cancelled || (x.reply.transported && is_success x.reply.status)

abbrev pub Clean : Exchange → Type 0
Clean x = is_clean x ≡ true

pub settle_cases :
    (s : Client) (thread : ℕ) (x : Exchange)
    → ((is_clean x ≡ true) × ((settle s thread x).0 ≡ s))
      ⊎ ((is_clean x ≡ false)
          × (settle s thread x ≡ (record s { health = set_failure s.health thread worker }, none)))
unfolding settle is_clean
settle_cases s thread x = elim (Bool-cases x.cancelled) [
  | inl e ↦ ground (arith, e)
  | inr e ↦ elim (Bool-cases x.reply.transported) [
    | inl e' ↦ ground (arith, e, e')
    | inr e' ↦ ground (arith, e, e')
  ]
]

pub post_to_cases :
    (net : Net) (s : Client) (thread : ℕ) (body : Text) (cancel : Option Bool)
    → (target : Option (Text × Text))
    → (post_to net s thread body cancel target ≡ (s, none))
      ⊎ ((req : Request) × (post_to net s thread body cancel target ≡ send net s thread cancel req))
unfolding post_to
post_to_cases net s thread body cancel none = inl refl
post_to_cases net s thread body cancel (some (url, header)) = elim (Bool-cases net.handle) [
  | inl e ↦ elim (Bool-cases (net.slist_append content_type_header && net.slist_append header)) [
    | inl e' ↦ rw (e, e') (inr (_, refl))
    | inr e' ↦ rw (e, e') (inl refl)
  ]
  | inr e ↦ rw (e) (inl refl)
]

-- What one call of `worker_post` can do: nothing at all, or, with the gate open, one request.
pub worker_post_cases :
    (net : Net) (s : Client) (thread : ℕ) (path body : Text) (cancel : Option Bool)
    → (worker_post net s thread path body cancel ≡ (s, none))
      ⊎ ((req : Request) × (is_failed s.health thread worker ≡ false)
          × (worker_post net s thread path body cancel ≡ send net s thread cancel req))
unfolding worker_post
worker_post_cases net s thread path body cancel = elim (Bool-cases (is_cancelled cancel)) [
  | inl e ↦ rw (e) (inl refl)
  | inr e ↦ elim (Bool-cases (is_failed s.health thread worker)) [
    | inl e' ↦ rw (e, e') (inl refl)
    | inr e' ↦ elim (post_to_cases net s thread body cancel (worker_credentials_copy net s path)) [
      | inl p ↦ rw (e, e') (inl p)
      | inr (req, p) ↦ rw (e, e') (inr (req, refl, p))
    ]
  ]
]

-- What may happen around the worker: a request, or anything else that the gates allow.
pub data Event : Type 0 where
  post : ℕ → Text → Text → Option Bool → Event
  gate : Op → Event

abbrev pub KeepsGate : Event → Type 0
KeepsGate (post t path body cancel) = Unit {0}
KeepsGate (gate op) = KeepsWorker op

unfoldable pub step_client : Net → Client → Event → Client
step_client net s (post t path body cancel) = (worker_post net s t path body cancel).0
step_client net s (gate op) = record s { health = step s.health op }

unfoldable pub run_client : Net → Client → List Event → Client
run_client net s [] = s
run_client net s (e ∷ es) = run_client net (step_client net s e) es

step_client-silent :
    (net : Net) (s : Client) (e : Event)
    → KeepsGate e
    → s.health.worker_failed ≡ true
    → ((step_client net s e).wire ≡ s.wire) × ((step_client net s e).health.worker_failed ≡ true)
unfolding step_client is_failed
step_client-silent net s (post t path body cancel) keeps failed =
    elim (worker_post_cases net s t path body cancel) [
      | inl p ↦ rw (step_client, p) (refl, failed)
      | inr (req, opened, p) ↦ absurd (ground (arith, opened, failed))
    ]
step_client-silent net s (gate op) keeps failed =
    (refl, step-worker_failed s.health op keeps failed)

-- Once the worker has failed, nothing goes out to it any more, by any requests and other uses of
-- the gates on any threads in which nobody clears the failure of the worker.
pub run_client-silent :
    (net : Net) (s : Client) (es : List Event)
    → All KeepsGate es
    → s.health.worker_failed ≡ true
    → (run_client net s es).wire ≡ s.wire
unfolding run_client
run_client-silent net s [] ks failed = refl
run_client-silent net s (e ∷ es) (k, ks) failed =
    let (same, still) = step_client-silent net s e k failed in
    run_client-silent net (step_client net s e) es ks still ∙ same
