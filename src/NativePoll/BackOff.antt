-- ===== src/NativePoll/BackOff.antt =====
-- source/shared/enil_native_poll.c: a poller whose requests fail gives up at the fifth failure.
use enil.Common.{
  ℕ, suc, ◌+◌, ◌≤◌, ◌<◌, ◌≡◌, refl, ap, ◌∙◌, true, false, ◌||◌, Option, none, some, List, [], ◌∷◌,
  ◌++◌, arith, ◌==◌, leb, length, Bool-cases, inl, inr, ◌⊎◌, length-append,
}
use enil.Common.Text.{Text, codes}
use enil.Common.Json.{field, string_value}
use enil.Sse.{Env, State}
use enil.NativePoll.{
  Round, Poller, Turn, leave, again, count_failure, on_data, on_response, request, turn, polls,
  enil_native_poll, sync_body,
}

module _ (env : Env) where
  -- A turn in which nothing but the request fails, with a status that neither ends the loop nor
  -- clears the streak.
  pub record IsLost (round : Round) : Type 0 where
    pub gate_open : round.failed ≡ false
    pub goes_on : round.stop_first ≡ false
    pub same_identity : round.identity_kept ≡ true
    pub token : Text
    pub has_token : string_value (field env.cjson round.saved (codes "accessToken")) ≡ some token
    pub not_stopped : round.stop ≡ false
    pub not_kicked : round.kick ≡ false
    pub not_ok : (round.status == 200) ≡ false
    pub not_idle : (round.status == 204) ≡ false
    pub not_refused : (round.status == 400) ≡ false

  -- The client goes on polling.
  pub record IsPolling (s : State) : Type 0 where
    pub runs : s.stop ≡ false
    pub healthy : s.line_failed ≡ false

  pub data AllLost : List Round → Type 0 where
    nothing : AllLost []
    also :
        {round : Round} {rounds : List Round}
        → IsLost round
        → AllLost rounds
        → AllLost (round ∷ rounds)

  failed_response :
      (round : Round) (p : Poller) (status : ℕ) (body : Option Text)
      → p.client.reconnect ≡ false
      → p.client.stop ≡ false
      → (status == 200) ≡ false
      → (status == 204) ≡ false
      → (status == 400) ≡ false
      → on_response env round p status body ≡ count_failure env p (p.client, false)
  unfolding on_response on_data
  failed_response round p status body k s n200 n204 n400 = rw (k, s, n200, n204, n400) refl

  -- A turn that counts one failure, and posts one request at most.
  abbrev Counts : Poller → Turn → Type 0
  Counts p t =
      (q : Poller) × (t ≡ count_failure env q (q.client, false))
      × (q.failures ≡ p.failures)
      × IsPolling q.client
      × (length q.posted ≤ suc (length p.posted))

  lost_request :
      (round : Round) (p : Poller) (body : Option Text)
      → IsLost round
      → IsPolling p.client
      → p.client.reconnect ≡ false
      → Counts p (request env round p body)
  unfolding request
  lost_request round p none l c k =
      (p, failed_response round p 0 none k c.runs refl refl refl, refl, c, omega arith)
  lost_request round p (some body) l c k =
      let s : State = record p.client {
        stop = p.client.stop || round.stop;
        reconnect = p.client.reconnect || round.kick;
      } in
      let q : Poller = record p { client = s; posted = p.posted ++ (body ∷ []) } in
      let runs : s.stop ≡ false = rw (c.runs, l.not_stopped) refl in
      (
        q,
        failed_response round q round.status round.body (rw (k, l.not_kicked) refl) runs l.not_ok
            l.not_idle l.not_refused,
        refl,
        record { runs = runs; healthy = c.healthy },
        rw (length-append p.posted (body ∷ [])) (omega arith),
      )

  turn-request :
      (round : Round) (p : Poller)
      → (l : IsLost round) → IsPolling p.client
      → turn env round p
        ≡ request env round
            (record p { client = record p.client { reconnect = false } })
            (sync_body env (record p.client { reconnect = false }) round.saved)
  unfolding turn
  turn-request round p l c =
      rw (l.gate_open, l.goes_on, l.same_identity, c.runs, c.healthy, l.has_token) refl

  lost_turn :
      (round : Round) (p : Poller) → IsLost round → IsPolling p.client → Counts p (turn env round p)
  lost_turn round p l c =
      let s : State = record p.client { reconnect = false } in
      let (q, e, same, c', posted) =
        lost_request round (record p { client = s }) (sync_body env s round.saved) l
          (record { runs = c.runs; healthy = c.healthy }) refl in
      (q, turn-request round p l c ∙ e, same, c', posted)

  -- After `n` failures to the fifth, the poller has left the loop with the gate closed.
  abbrev pub GaveUp : Poller → Turn → Type 0
  GaveUp p t =
      (q : Poller) × (t ≡ leave q)
      × (q.client.line_failed ≡ true)
      × (q.failures ≡ 5)
      × (length q.posted + p.failures ≤ length p.posted + 5)

  polls-leave :
      (round : Round) (rounds : List Round) (p q : Poller)
      → turn env round p ≡ leave q
      → polls env (round ∷ rounds) p ≡ leave q
  unfolding polls
  polls-leave round rounds p q h = rw (h, polls) refl

  polls-again :
      (round : Round) (rounds : List Round) (p q : Poller)
      → turn env round p ≡ again q
      → polls env (round ∷ rounds) p ≡ polls env rounds q
  unfolding polls
  polls-again round rounds p q h = rw (h, polls) refl

  -- What a counted failure leads to.
  after_failure :
      (p : Poller)
      → p.failures < 5
      → ((count_failure env p (p.client, false)
            ≡ leave (record p { client = record p.client { line_failed = true }; failures = 5 }))
          × (p.failures ≡ 4))
        ⊎ ((count_failure env p (p.client, false) ≡ again (record p { failures = p.failures + 1 }))
            × (p.failures + 1 < 5))
  unfolding count_failure
  after_failure p few = elim (Bool-cases (leb 5 (p.failures + 1))) [
    | inl e ↦
        let four : p.failures ≡ 4 = ground arith in
        let fifth : p.failures + 1 ≡ 5 = omega arith in
        inl (
          rw (e, count_failure)
              (ap
                (λ n.
                  leave
                    (record p { client = record p.client { line_failed = true }; failures = n }))
                fifth),
          four,
        )
    | inr e ↦ inr (rw (e, count_failure) refl, ground arith)
  ]

  lost_polls :
      (rounds : List Round) (p : Poller)
      → AllLost rounds
      → IsPolling p.client
      → p.failures < 5
      → 5 ≤ p.failures + length rounds
      → GaveUp p (polls env rounds p)
  lost_polls [] p nothing c few enough = absurd (omega arith)
  lost_polls (round ∷ rounds) p (also l ls) c few enough =
      let (q, e, same, c', posted) = lost_turn round p l c in
      elim (after_failure q (rw same few)) [
        | inl (last, four) ↦
            let r = record q { client = record q.client { line_failed = true }; failures = 5 } in
            (r, polls-leave round rounds p r (e ∙ last), refl, refl, omega arith)
        | inr (more, few') ↦
            let r = record q { failures = q.failures + 1 } in
            let (r', e', closed, five, posted') =
              lost_polls rounds r ls (record { runs = c'.runs; healthy = c'.healthy }) few'
                (omega arith) in
            (r', polls-again round rounds p r (e ∙ more) ∙ e', closed, five, omega arith)
      ]

  -- A poller that starts unstopped with the gate open, and meets five turns or more in which it
  -- may go on but the request ends with a status other than 200, 204 and 400, leaves the loop
  -- with a failure reported to the gate of LINE and at most five requests posted.
  pub native_poll-GaveUp :
      (rounds : List Round) (s : State)
      → AllLost rounds
      → IsPolling s
      → 5 ≤ length rounds
      → (q : Poller) × (enil_native_poll env rounds s ≡ leave q)
        × (q.client.line_failed ≡ true)
        × (length q.posted ≤ 5)
  unfolding enil_native_poll
  native_poll-GaveUp rounds s lost c enough =
      let (q, e, closed, five, posted) =
        lost_polls rounds (record { client = s; failures = 0; posted = [] }) lost c (omega arith)
          (omega arith) in
      (q, e, closed, omega arith)
