-- ===== src/NativePoll.antt =====
-- source/shared/enil_native_poll.c: the polling loop of the native transport. It shares the client's
-- callback, cursor and flags with the Chrome stream, whose state and environment it takes.
--
-- Each turn of the loop meets one `Round`: what the session file, LINE and the other threads answer
-- during that turn.
use enil.Common.{
  ℕ, zero, suc, ◌+◌, Bool, true, false, not, ◌&&◌, ◌||◌, Option, none, some, List, [], ◌∷◌, ◌++◌,
  ltb, leb, ◌==◌, if◌then◌else◌,
}
use enil.Common.Int.{pos}
use enil.Common.Text.{Text, codes, text_eq}
use enil.Common.Json.{
  Json, Children, bool, string, number, array, object, nil, node, child, put, field, string_value,
}
use enil.Sse.{
  Env, State, Event, handed_over, turned_down, enil_sse_event_revision, enil_sse_save_local_rev,
}
pub mod Cursor
pub mod Order
pub mod BackOff
mod Runs

-- `failed` and `stop_first` are what the loop's head sees of the gates and of `stop`; `stop` and
-- `kick` are set by other threads during the request. `saved` is the session file.
pub record Round : Type 0 where
  pub failed : Bool
  pub stop_first : Bool
  pub identity_kept : Bool
  pub saved : Option Json
  pub status : ℕ
  pub body : Option Text
  pub stop : Bool
  pub kick : Bool
  pub patched : Bool

-- The loop's state: the client, the streak of failures, and the bodies posted so far.
pub record Poller : Type 0 where
  pub client : State
  pub failures : ℕ
  pub posted : List Text

-- How a turn ends: by leaving the loop, or with the next turn.
pub data Turn : Type 0 where
  leave again : Poller → Turn

abbrev pub is_there {ℓ} : {A : Type ℓ} → Option A → Bool
is_there none = false
is_there (some a) = true

-- The rest of a dispatch, once the callback has taken the event.
abbrev pub saved_or : State → Option State → State × Bool
saved_or s none = (s, false)
saved_or s (some s') = (s', true)

module _ (env : Env) where
  unfoldable pub deliver_native : State → Event → State × Bool
  deliver_native s ev =
      let d = env.deliver s.handed ev in
      let s' = handed_over env s ev d in
      if turned_down env s d
      then (s', false)
      else if text_eq ev.type (codes "fullSync")
      then (s', true)
      else saved_or s'
          (enil_sse_save_local_rev env s' (enil_sse_event_revision env ev.type ev.content))

  unfoldable pub native_dispatch : State → Text → Json → State × Bool
  unfolding deliver_native
  native_dispatch s type item = elim (env.cjson.print_unformatted item) [
    | none ↦ (s, false)
    | some json ↦ deliver_native s (record { type = type; content = json })
  ]

  -- `for (op = v ? v->child : NULL; op && ok; op = op->next)`
  unfoldable pub dispatch_ops : State → Children → State × Bool
  unfolding native_dispatch
  dispatch_ops s nil = (s, true)
  dispatch_ops s (node k op ops) =
      let (s', ok) = native_dispatch s (codes "message") op in
      elim ok [ true ↦ dispatch_ops s' ops | false ↦ (s', false) ]

  abbrev pub child_of : Option Json → Children
  child_of none = nil
  child_of (some v) = child v

  abbrev copy_or_zero : Option Json → Option Json
  copy_or_zero none = env.cjson.create (string (codes "0"))
  copy_or_zero (some v) = env.cjson.duplicate v

  abbrev copy_of : Option Json → Option Json
  copy_of none = none
  copy_of (some v) = env.cjson.duplicate v

  -- The argument of the request.
  unfoldable pub sync_fields : State → Option Json → Json → Json
  sync_fields s saved req =
      let r1 =
        put env.cjson req (codes "lastRevision")
          (env.cjson.create (string (env.numbers.print_lld s.local_rev))) in
      let r2 =
        put env.cjson r1 (codes "count")
          (env.cjson.create (number (env.numbers.of_i64 (pos 100)))) in
      let r3 =
        put env.cjson r2 (codes "lastGlobalRevision")
          (copy_or_zero (field env.cjson saved (codes "nativeGlobalRevision"))) in
      let r4 =
        put env.cjson r3 (codes "lastIndividualRevision")
          (copy_or_zero (field env.cjson saved (codes "nativeIndividualRevision"))) in
      put env.cjson r4 (codes "lastPartialFullSyncs")
        (copy_of (field env.cjson saved (codes "lastPartialFullSyncs")))

  abbrev in_array : Option Json → Option Json → Option Text
  in_array none req = none
  in_array (some args) none = env.cjson.print_unformatted args
  in_array (some args) (some req) = elim (env.cjson.add_item_to_array args req) [
    | none ↦ env.cjson.print_unformatted args
    | some args' ↦ env.cjson.print_unformatted args'
  ]

  abbrev filled : State → Option Json → Option Json → Option Json
  filled s saved none = none
  filled s saved (some req) = some (sync_fields s saved req)

  -- `body`, NULL if memory is out.
  unfoldable pub sync_body : State → Option Json → Option Text
  unfolding sync_fields
  sync_body s saved =
      in_array (env.cjson.create (array nil)) (filled s saved (env.cjson.create (object nil)))

  -- `cJSON_IsTrue`
  abbrev is_true : Option Json → Bool
  is_true (some (bool true)) = true
  is_true _ = false

  abbrev last_revision : Option Json → Text → Option Json
  last_revision ops name = field env.cjson (field env.cjson ops name) (codes "lastRevision")

  -- Whether the patch with the reply's revisions has anything in it.
  unfoldable pub has_patch : Option Json → Bool
  has_patch ops =
      is_there (copy_of (last_revision ops (codes "globalEvents")))
      || is_there (copy_of (last_revision ops (codes "individualEvents")))

  -- The cursors are acknowledged only if every event was taken.
  unfoldable pub acknowledge : Round → Option Json → State × Bool → State × Bool
  unfolding has_patch
  acknowledge round ops (s, ok) = (s, ok && (not (has_patch ops) || round.patched))

  unfoldable pub dispatch_partial : Option Json → State × Bool → State × Bool
  unfolding native_dispatch
  dispatch_partial none (s, ok) = (s, ok)
  dispatch_partial (some v) (s, false) = (s, false)
  dispatch_partial (some v) (s, true) = native_dispatch s (codes "partialFullSync") v

  -- A reply with `data` and no full sync.
  unfoldable pub dispatch_reply : Round → State → Option Json → State × Bool
  unfolding dispatch_ops acknowledge dispatch_partial
  dispatch_reply round s reply =
      let ops = field env.cjson reply (codes "operationResponse") in
      let all = dispatch_ops s (child_of (field env.cjson ops (codes "operations"))) in
      acknowledge round ops
        (dispatch_partial (field env.cjson reply (codes "partialFullSyncResponse")) all)

  -- After a reply: the streak of failures, and the gate after the fifth.
  unfoldable pub count_failure : Poller → State × Bool → Turn
  count_failure p (s, true) = again (record p { client = s; failures = 0 })
  count_failure p (s, false) =
      let p' : Poller = record p { client = s; failures = p.failures + 1 } in
      if leb 5 (p.failures + 1)
      then leave (record p' { client = record s { line_failed = true } })
      else again p'

  -- `data` and what stands under `fullSyncResponse` in it.
  unfoldable pub on_data : Round → Poller → Option Json → Option Json → Turn
  unfolding native_dispatch dispatch_reply count_failure
  on_data round p none full = count_failure p (p.client, false)
  on_data round p (some reply) (some v) =
      leave (record p { client = (native_dispatch p.client (codes "fullSync") v).0 })
  on_data round p (some reply) none = count_failure p (dispatch_reply round p.client (some reply))

  abbrev pub parsed : Option Text → Option Json
  parsed none = none
  parsed (some t) = env.cjson.parse t

  abbrev pub refused : State → Option Json → State
  refused s none = s
  refused s (some root) = (native_dispatch s (codes "talkException") root).0

  -- What follows the request.
  unfoldable pub on_response : Round → Poller → ℕ → Option Text → Turn
  unfolding on_data
  on_response round p status body =
      let s = p.client in
      let streak = if status == 204 && not (s.reconnect || s.stop) then 0 else p.failures in
      let root = if status == 200 then parsed body else none in
      let reply = field env.cjson root (codes "data") in
      if status == 204 || (s.reconnect || s.stop)
      then again (record p { failures = streak })
      else if status == 400 && is_there body
      then leave (record p { client = refused s (parsed body) })
      else on_data round p reply (field env.cjson reply (codes "fullSyncResponse"))

  -- The request, during which other threads may stop or kick; without a body there is none.
  unfoldable pub request : Round → Poller → Option Text → Turn
  unfolding on_response
  request round p none = on_response round p 0 none
  request round p (some body) =
      let s : State = record p.client {
        stop = p.client.stop || round.stop;
        reconnect = p.client.reconnect || round.kick;
      } in
      on_response round (record p { client = s; posted = p.posted ++ (body ∷ []) }) round.status
        round.body

  abbrev pub with_token : Round → Poller → Option Text → Turn
  with_token round p none = leave p
  with_token round p (some token) = request round p (sync_body p.client round.saved)

  -- One turn of the loop, the test at its head included.
  unfoldable pub turn : Round → Poller → Turn
  unfolding request sync_body
  turn round p =
      let s : State = record p.client { reconnect = false } in
      let p' : Poller = record p { client = s } in
      if p.client.stop || (round.failed || p.client.line_failed)
      then leave p
      else if round.stop_first
      then leave (record p { client = record s { stop = true } })
      else if not round.identity_kept
      then leave p'
      else with_token round p' (string_value (field env.cjson round.saved (codes "accessToken")))

  -- The loop over the rounds that it meets: `leave` if it has ended within them.
  unfoldable pub polls : List Round → Poller → Turn
  polls [] p = again p
  polls (round ∷ rounds) p = elim (turn round p) [
    | leave p' ↦ leave p'
    | again p' ↦ polls rounds p'
  ]

  unfoldable pub enil_native_poll : List Round → State → Turn
  unfolding polls
  enil_native_poll rounds s = polls rounds (record { client = s; failures = 0; posted = [] })
