-- ===== src/Worker/Interleaved.antt =====
-- source/shared/enil_worker.c: calls of `worker_post` by several threads, which take turns within the calls:
-- no lock is held from the gate's check to the report of a failure.
--
-- The state is the client, the calls that have passed the gate, and the exchanges whose answers have not
-- been looked at yet, each with the thread of its call.
use enil.Common.{
  Bool-cases, ℕ, ◌+◌, ◌≤◌, ◌≡◌, refl, sym, ap, ◌∙◌, Bool, true, false, none, Option, List, [], ◌∷◌,
  ◌++◌, arith, length, length-append, if◌then◌else◌, ◌⊎◌, inl, inr,
}
use mathlib.Core.Path.{subst}
use enil.Common.Text.{Text}
use enil.Health.{worker, set_failure, is_failed}
use enil.Health.Gates.{Op, KeepsWorker, step, step-worker_failed}
use enil.Worker.{
  Client, Exchange, Request, Net, is_cancelled, worker_post, worker_credentials_copy, post_to, send,
  settle, exchange,
}
use enil.Worker.Gate.{is_clean, settle_cases, post_to_cases}

pub record Call : Type 0 where
  pub thread : ℕ
  pub path : Text
  pub body : Text
  pub cancel : Option Bool

pub record Due : Type 0 where
  pub thread : ℕ
  pub exchange : Exchange

pub record Calls : Type 0 where
  pub client : Client
  pub checked : List Call
  pub due : List Due

module _ (net : Net) where
  -- What `worker_post` comes to for a call behind the gate.
  abbrev pub behind_gate : Client → Call → Client × Option Text
  behind_gate s c = post_to net s c.thread c.body c.cancel (worker_credentials_copy net s c.path)

  abbrev pub on_wire : Client → Exchange → Client
  on_wire s x = record s { wire = x ∷ s.wire }

  -- One turn of a thread.
  pub data Step : Calls → Calls → Type 0 where
    begins :
        (s : Calls) (c : Call)
        → is_cancelled c.cancel ≡ false
        → is_failed s.client.health c.thread worker ≡ false
        → Step s (record s { checked = c ∷ s.checked })
    gives_up :
        (s : Calls) (before after : List Call) (c : Call)
        → s.checked ≡ before ++ (c ∷ after)
        → behind_gate s.client c ≡ (s.client, none)
        → Step s (record s { checked = before ++ after })
    sends :
        (s : Calls) (before after : List Call) (c : Call) (req : Request)
        → s.checked ≡ before ++ (c ∷ after)
        → behind_gate s.client c ≡ send net s.client c.thread c.cancel req
        → Step s (record {
          client = on_wire s.client (exchange net s.client c.cancel req);
          checked = before ++ after;
          due = record { thread = c.thread; exchange = exchange net s.client c.cancel req } ∷ s.due;
        })
    settles :
        (s : Calls) (before after : List Due) (d : Due)
        → s.due ≡ before ++ (d ∷ after)
        → Step s
            (record s { client = (settle s.client d.thread d.exchange).0; due = before ++ after })
    gates :
        (s : Calls) (op : Op)
        → KeepsWorker op
        → Step s (record s { client = record s.client { health = step s.client.health op } })

  pub data Steps : Calls → Calls → Type 0 where
    ended : (s : Calls) → Steps s s
    next : (s t u : Calls) → Step s t → Steps t u → Steps s u

abbrev weight : Exchange → ℕ
weight x = if is_clean x then 0 else 1

-- How many exchanges failed.
abbrev pub failures : List Exchange → ℕ
failures [] = 0
failures (x ∷ xs) = weight x + failures xs

abbrev pub failures_due : List Due → ℕ
failures_due [] = 0
failures_due (d ∷ ds) = weight d.exchange + failures_due ds

failures_due-split :
    (before after : List Due) (d : Due)
    → failures_due (before ++ (d ∷ after)) ≡ weight d.exchange + failures_due (before ++ after)
failures_due-split [] after d = refl
failures_due-split (e ∷ before) after d = omega (arith, failures_due-split before after d)

-- The gate is closed, or the failed exchanges are among those whose calls are about to close it.
abbrev pub IsTracked : Calls → Type 0
IsTracked s = (s.client.health.worker_failed ≡ true) ⊎ (failures s.client.wire ≤ failures_due s.due)

-- Behind a closed gate: it stays closed, and what goes out and what may still go out is at most what
-- had gone out and what had passed the gate.
abbrev pub Drains : Calls → Calls → Type 0
Drains s t =
    (t.client.health.worker_failed ≡ true)
    × (length t.client.wire + length t.checked ≤ length s.client.wire + length s.checked)

fewer :
    (xs before after : List Call) (c : Call)
    → xs ≡ before ++ (c ∷ after)
    → length (before ++ after) + 1 ≤ length xs
fewer xs before after c e =
    omega (arith, ap length e, length-append before (c ∷ after), length-append before after)

module _ (net : Net) where
  Step-IsTracked : (s t : Calls) → Step net s t → IsTracked s → IsTracked t
  unfolding set_failure
  Step-IsTracked s t (begins u c e f) q = q
  Step-IsTracked s t (gives_up u before after c e f) q = q
  Step-IsTracked s t (sends u before after c req e f) (inl failed) = inl failed
  Step-IsTracked s t (sends u before after c req e f) (inr few) = inr (omega (arith, few))
  Step-IsTracked s t (settles u before after d e) q =
      elim (settle_cases u.client d.thread d.exchange) [
        | inr (unclean, h) ↦ inl (ap (λ (r : Client × Option Text). r.0.health.worker_failed) h)
        | inl (clean, h) ↦ elim q [
          | inl failed ↦ inl (ap (λ (r : Client). r.health.worker_failed) h ∙ failed)
          | inr few ↦ inr (
              subst (λ (r : Client). failures r.wire ≤ failures_due (before ++ after)) (sym h)
                (let none_due : weight d.exchange ≡ 0 = rw clean refl in
                  omega
                    (arith, few, ap failures_due e, failures_due-split before after d, none_due)))
        ]
      ]
  Step-IsTracked s t (gates u op keeps) (inl failed) =
      inl (step-worker_failed u.client.health op keeps failed)
  Step-IsTracked s t (gates u op keeps) (inr few) = inr few

  Step-Drains : (s t : Calls) → Step net s t → s.client.health.worker_failed ≡ true → Drains s t
  unfolding set_failure is_failed
  Step-Drains s t (begins u c e f) failed = absurd (cc (sym failed ∙ f))
  Step-Drains s t (gives_up u before after c e f) failed =
      (failed, omega (arith, fewer u.checked before after c e))
  Step-Drains s t (sends u before after c req e f) failed =
      (failed, omega (arith, fewer u.checked before after c e))
  Step-Drains s t (settles u before after d e) failed =
      elim (settle_cases u.client d.thread d.exchange) [
        | inr (unclean, h) ↦ (
          ap (λ (r : Client × Option Text). r.0.health.worker_failed) h,
          omega (arith, ap (λ (r : Client × Option Text). length r.0.wire) h),
        )
        | inl (clean, h) ↦ (
          ap (λ (r : Client). r.health.worker_failed) h ∙ failed,
          omega (arith, ap (λ (r : Client). length r.wire) h),
        )
      ]
  Step-Drains s t (gates u op keeps) failed =
      (step-worker_failed u.client.health op keeps failed, omega arith)

  -- Calls by several threads take turns within the calls, at the check of the gate, the transfer
  -- and the look at the answer, with any other use of the gates in which nobody clears the
  -- failure of the worker: if at the start the gate is closed or the exchanges that failed are
  -- at most those with an answer not looked at yet, the same holds afterwards; and from a closed
  -- gate, it stays closed, and the requests sent with the calls behind the check that may still
  -- send are no more than at the start.
  pub steps-Tracks :
      (s t : Calls)
      → Steps net s t
      → IsTracked s
      → IsTracked t × (s.client.health.worker_failed ≡ true → Drains s t)
  steps-Tracks s t (ended u) q = (q, λ failed. (failed, omega arith))
  steps-Tracks s t (next u v w first rest) q =
      let (tracked, drains) = steps-Tracks v w rest (Step-IsTracked u v first q) in
      (
        tracked,
        λ failed.
            let (still, small) = Step-Drains u v first failed in
            let (closed, small') = drains still in (closed, omega (arith, small, small')),
      )

  -- The steps are those of the code: one thread alone comes to what `worker_post` does.
  abbrev pub with_checked : Client → List Call → Calls
  with_checked s calls = record { client = s; checked = calls; due = [] }

  behind_gate-Steps :
      (s : Client) (c : Call)
      → Steps net (with_checked s (c ∷ [])) (with_checked (behind_gate net s c).0 [])
  unfolding send
  behind_gate-Steps s c =
      elim (post_to_cases net s c.thread c.body c.cancel (worker_credentials_copy net s c.path)) [
        | inl p ↦
            subst
              (λ (r : Client × Option Text).
                Steps net (with_checked s (c ∷ [])) (with_checked r.0 []))
              (sym p) (next _ _ _ (gives_up (with_checked s (c ∷ [])) [] [] c refl p) (ended _))
        | inr (req, p) ↦
            subst
              (λ (r : Client × Option Text).
                Steps net (with_checked s (c ∷ [])) (with_checked r.0 []))
              (sym p)
              (next _ _ _ (sends (with_checked s (c ∷ [])) [] [] c req refl p) (
                next _ _ _
                  (settles
                    (record {
                      client = on_wire net s (exchange net s c.cancel req);
                      checked = [];
                      due =
                          record { thread = c.thread; exchange = exchange net s c.cancel req } ∷ [];
                    })
                    [] [] (record { thread = c.thread; exchange = exchange net s c.cancel req })
                    refl)
                  (ended _)))
      ]

  pub worker_post-Steps :
      (s : Client) (c : Call)
      → Steps net
          (with_checked s [])
          (with_checked (worker_post net s c.thread c.path c.body c.cancel).0 [])
  unfolding worker_post
  worker_post-Steps s c = elim (Bool-cases (is_cancelled c.cancel)) [
    | inl e ↦ rw (e, worker_post) (ended _)
    | inr e ↦ elim (Bool-cases (is_failed s.health c.thread worker)) [
      | inl e' ↦ rw (e, e', worker_post) (ended _)
      | inr e' ↦
          rw (e, e', worker_post)
            (next _ _ _ (begins (with_checked s []) c e e') (behind_gate-Steps s c))
    ]
  ]
