-- ===== src/NativePoll/Cursor.antt =====
-- source/shared/enil_native_poll.c: the poller moves the cursor as the stream does, event by event.
use enil.Common.{
  ℕ, ◌≡◌, ◌+◌, refl, Bool, true, false, ◌&&◌, ◌||◌, Option, none, some, List, [], ◌∷◌, ◌++◌, ◌==◌,
  leb, if◌then◌else◌, Bool-cases, Option-cases, ◌⊎◌, inl, inr,
}
use enil.Common.Int.{ℤ, leb_ℤ}
use enil.Common.Text.{Text, codes, text_eq}
use enil.Common.Json.{Json, Children, nil, node, field, string_value}
use enil.Sse.{
  Env, State, Event, handed_over, turned_down, enil_sse_event_revision, enil_sse_save_local_rev,
}
use enil.Sse.Cursor.{Moves, Moves-forward, taken_up, leb_ℤ_refl, leb_ℤ_trans, leb_ℤ_total}
use enil.NativePoll.{
  Round, Poller, Turn, leave, again, saved_or, deliver_native, native_dispatch, dispatch_ops,
  child_of, acknowledge, dispatch_partial, dispatch_reply, count_failure, on_data, refused,
  on_response, request, with_token, turn, polls, enil_native_poll, parsed, is_there, sync_body,
}

abbrev pub client_of : Turn → State
client_of (leave p) = p.client
client_of (again p) = p.client

module _ (env : Env) where
  -- Moves one after another.
  pub data Chain : State → State → Type 0 where
    here : {s : State} → Chain s s
    next : {s t u : State} → Chain s t → Moves env t u → Chain s u

  Chain-trans : {s t u : State} → Chain s t → Chain t u → Chain s u
  Chain-trans c here = c
  Chain-trans c (next d m) = next (Chain-trans c d) m

  pub Chain-forward : {s t : State} → Chain s t → leb_ℤ s.local_rev t.local_rev ≡ true
  Chain-forward {s} here = leb_ℤ_refl s.local_rev
  Chain-forward {s} {t} (next {t = r} c m) =
      leb_ℤ_trans s.local_rev r.local_rev t.local_rev (Chain-forward c) (Moves-forward env r t m)

  saved_cases :
      (s : State) (rev : ℤ)
      → ((saved_or s (enil_sse_save_local_rev env s rev)).0.handed ≡ s.handed)
        × (((saved_or s (enil_sse_save_local_rev env s rev)).0.local_rev ≡ s.local_rev)
            ⊎ (((saved_or s (enil_sse_save_local_rev env s rev)).0.local_rev ≡ rev)
                × (leb_ℤ s.local_rev rev ≡ true)
                × (env.saves rev ≡ true)))
  unfolding enil_sse_save_local_rev
  saved_cases s rev = elim (Bool-cases (leb_ℤ rev s.local_rev)) [
    | inl old ↦ rw (old, enil_sse_save_local_rev) (refl, inl refl)
    | inr new ↦ elim (Bool-cases (env.saves rev)) [
      | inl saved ↦
          rw (new, saved, enil_sse_save_local_rev)
            (refl, inr (refl, leb_ℤ_total rev s.local_rev new, refl))
      | inr lost ↦ rw (new, lost, enil_sse_save_local_rev) (refl, inl refl)
    ]
  ]

  deliver_native-Moves : (s : State) (ev : Event) → Moves env s (deliver_native env s ev).0
  unfolding deliver_native
  deliver_native-Moves s ev =
      let d = env.deliver s.handed ev in
      let rev = enil_sse_event_revision env ev.type ev.content in
      elim (Bool-cases (turned_down env s d)) [
        | inl down ↦ rw (down, deliver_native) (inr (ev, refl, inl refl))
        | inr up ↦ elim (Bool-cases (text_eq ev.type (codes "fullSync"))) [
          | inl full ↦ rw (up, full, deliver_native) (inr (ev, refl, inl refl))
          | inr other ↦
              let (a, f, st) = taken_up env s d up in
              let (same, moved) = saved_cases (handed_over env s ev d) rev in
              elim moved [
                | inl stays ↦ rw (up, other, deliver_native) (inr (ev, same, inl stays))
                | inr (e, le, ok) ↦
                    rw (up, other, deliver_native)
                      (inr (ev, same, inr (e, rw e le, a, f, st, rw e ok)))
              ]
        ]
      ]

  pub native_dispatch-Moves :
      (s : State) (type : Text) (item : Json) → Moves env s (native_dispatch env s type item).0
  unfolding native_dispatch
  native_dispatch-Moves s type item = elim (Option-cases (env.cjson.print_unformatted item)) [
    | inl none_printed ↦ rw (none_printed, native_dispatch) (inl (refl, refl))
    | inr (json, e) ↦
        rw (e, native_dispatch) (deliver_native-Moves s (record { type = type; content = json }))
  ]

  one : {s t : State} → Moves env s t → Chain s t
  one m = next here m

  still : (s t : State) → t.handed ≡ s.handed → t.local_rev ≡ s.local_rev → Chain s t
  still s t h k = one (inl (h, k))

  dispatched : (s : State) (type : Text) (item : Json) → Chain s (native_dispatch env s type item).0
  dispatched s type item = one (native_dispatch-Moves s type item)

  dispatch_ops-Chain : (s : State) (ops : Children) → Chain s (dispatch_ops env s ops).0
  unfolding dispatch_ops
  dispatch_ops-Chain s nil = here
  dispatch_ops-Chain s (node k op ops) =
      let (s', ok) = native_dispatch env s (codes "message") op in
      elim (Bool-cases ok) [
        | inl e ↦
            rw (e, dispatch_ops)
              (Chain-trans (dispatched s (codes "message") op) (dispatch_ops-Chain s' ops))
        | inr e ↦ rw (e, dispatch_ops) (dispatched s (codes "message") op)
      ]

  dispatch_partial-Chain :
      (s : State) (v : Option Json) (r : State × Bool)
      → Chain s r.0
      → Chain s (dispatch_partial env v r).0
  unfolding dispatch_partial
  dispatch_partial-Chain s none (t, ok) c = c
  dispatch_partial-Chain s (some v) (t, false) c = c
  dispatch_partial-Chain s (some v) (t, true) c =
      Chain-trans c (dispatched t (codes "partialFullSync") v)

  dispatch_reply-Chain :
      (round : Round) (s : State) (reply : Option Json)
      → Chain s (dispatch_reply env round s reply).0
  unfolding dispatch_reply acknowledge
  dispatch_reply-Chain round s reply =
      let ops = field env.cjson reply (codes "operationResponse") in
      let kids = child_of env (field env.cjson ops (codes "operations")) in
      dispatch_partial-Chain s (field env.cjson reply (codes "partialFullSyncResponse"))
        (dispatch_ops env s kids) (dispatch_ops-Chain s kids)

  count_failure-Chain :
      (s : State) (p : Poller) (r : State × Bool)
      → Chain s r.0
      → Chain s (client_of (count_failure env p r))
  unfolding count_failure
  count_failure-Chain s p (t, true) c = c
  count_failure-Chain s p (t, false) c = elim (Bool-cases (leb 5 (p.failures + 1))) [
    | inl e ↦ rw (e, count_failure) (Chain-trans c (still t _ refl refl))
    | inr e ↦ rw (e, count_failure) c
  ]

  on_data-Chain :
      (round : Round) (p : Poller) (reply full : Option Json)
      → Chain p.client (client_of (on_data env round p reply full))
  unfolding on_data
  on_data-Chain round p none full = count_failure-Chain p.client p (p.client, false) here
  on_data-Chain round p (some reply) (some v) = dispatched p.client (codes "fullSync") v
  on_data-Chain round p (some reply) none =
      count_failure-Chain p.client p (dispatch_reply env round p.client (some reply))
        (dispatch_reply-Chain round p.client (some reply))

  refused-Chain : (s : State) (root : Option Json) → Chain s (refused env s root)
  refused-Chain s none = here
  refused-Chain s (some root) = dispatched s (codes "talkException") root

  on_response-Chain :
      (round : Round) (p : Poller) (status : ℕ) (body : Option Text)
      → Chain p.client (client_of (on_response env round p status body))
  unfolding on_response
  on_response-Chain round p status body =
      let s = p.client in
      let root = if status == 200 then parsed env body else none in
      let reply = field env.cjson root (codes "data") in
      elim (Bool-cases (status == 204 || (s.reconnect || s.stop))) [
        | inl e ↦ rw (e, on_response) here
        | inr e ↦ elim (Bool-cases (status == 400 && is_there body)) [
          | inl e' ↦ rw (e, e', on_response) (refused-Chain s (parsed env body))
          | inr e' ↦
              rw (e, e', on_response)
                (on_data-Chain round p reply (field env.cjson reply (codes "fullSyncResponse")))
        ]
      ]

  request-Chain :
      (round : Round) (p : Poller) (body : Option Text)
      → Chain p.client (client_of (request env round p body))
  unfolding request
  request-Chain round p none = on_response-Chain round p 0 none
  request-Chain round p (some body) =
      let s : State = record p.client {
        stop = p.client.stop || round.stop;
        reconnect = p.client.reconnect || round.kick;
      } in
      Chain-trans (still p.client s refl refl) (
        on_response-Chain round (record p { client = s; posted = p.posted ++ (body ∷ []) })
          round.status round.body)

  with_token-Chain :
      (round : Round) (p : Poller) (token : Option Text)
      → Chain p.client (client_of (with_token env round p token))
  with_token-Chain round p none = here
  with_token-Chain round p (some token) = request-Chain round p (sync_body env p.client round.saved)

  turn-Chain : (round : Round) (p : Poller) → Chain p.client (client_of (turn env round p))
  unfolding turn
  turn-Chain round p =
      let s : State = record p.client { reconnect = false } in
      let p' : Poller = record p { client = s } in
      elim (Bool-cases (p.client.stop || (round.failed || p.client.line_failed))) [
        | inl e ↦ rw (e, turn) here
        | inr e ↦ elim (Bool-cases round.stop_first) [
          | inl e' ↦ rw (e, e', turn) (still p.client _ refl refl)
          | inr e' ↦ elim (Bool-cases round.identity_kept) [
            | inr e'' ↦ rw (e, e', e'', turn) (still p.client _ refl refl)
            | inl e'' ↦
                rw (e, e', e'', turn)
                  (Chain-trans (still p.client s refl refl) (
                    with_token-Chain round p'
                      (string_value (field env.cjson round.saved (codes "accessToken")))))
          ]
        ]
      ]

  followed-Chain :
      (s : State) (rounds : List Round) (t : Turn)
      → Chain s (client_of t)
      → ((p : Poller) → Chain p.client (client_of (polls env rounds p)))
      → Chain s (client_of (elim t [ leave p ↦ leave p | again p ↦ polls env rounds p ]))
  followed-Chain s rounds (leave p) c rest = c
  followed-Chain s rounds (again p) c rest = Chain-trans c (rest p)

  polls-Chain : (rounds : List Round) (p : Poller) → Chain p.client (client_of (polls env rounds p))
  unfolding polls
  polls-Chain [] p = here
  polls-Chain (round ∷ rounds) p =
      followed-Chain p.client rounds (turn env round p) (turn-Chain round p)
        (λ p'. polls-Chain rounds p')

  -- Over any turns, with any answers of LINE, the callback and the database, the poller moves
  -- the cursor only as the stream does, one event or none at a time (to the revision of an event
  -- that was accepted, not below the old cursor, and saved), and never back.
  pub native_poll-Chain :
      (rounds : List Round) (s : State)
      → Chain s (client_of (enil_native_poll env rounds s))
        × (leb_ℤ s.local_rev (client_of (enil_native_poll env rounds s)).local_rev ≡ true)
  unfolding enil_native_poll
  native_poll-Chain rounds s =
      let c = polls-Chain rounds (record { client = s; failures = 0; posted = [] }) in
      (c, Chain-forward c)
