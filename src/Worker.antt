-- ===== src/Worker.antt =====
-- source/shared/enil_worker.c: the client of the signing and encryption worker: its credentials, and
-- one request with the gate in front of it.
--
-- The state is the credential pair, the gates of `enil_health.c`, and the exchanges so far, the newest
-- first. libcurl's answers and the allocator's are parameters. `worker_post` here is
-- the call of one thread with no other at work; Interleaved has calls of several threads that take turns.
use enil.Common.{
  ℕ, ◌+◌, Bool, true, false, not, ◌&&◌, ◌||◌, Option, none, some, List, [], ◌∷◌, ◌++◌, ltb, leb,
  ◌==◌, if◌then◌else◌, length,
}
use enil.Common.Text.{Text, codes}
use enil.Health.{Health, worker, set_failure, clear_failure, is_failed}
pub mod Calls
pub mod Keys
pub mod Gate
pub mod Interleaved
pub mod Answers
pub mod Credentials
pub mod Sound
mod Runs

-- What `worker_post` hands to libcurl.
pub record Request : Type 0 where
  pub url : Text
  pub headers : List Text
  pub body : Text

-- What comes back: whether `curl_easy_perform` said CURLE_OK, the HTTP status, the bytes gathered
-- (`none` if there were none), and what the caller's cancel flag then said, if it gave one.
pub record Reply : Type 0 where
  pub transported : Bool
  pub status : ℕ
  pub content : Option Text
  pub cancel : Bool

pub record Exchange : Type 0 where
  pub request : Request
  pub reply : Reply
  pub cancelled : Bool

pub record Client : Type 0 where
  pub worker_url : Option Text
  pub worker_secret : Option Text
  pub health : Health
  pub wire : List Exchange

-- libcurl and memory. `handle`: `curl_easy_init` gives a handle; `slist_append` of a text succeeds;
-- `perform` answers a request in the light of the exchanges so far.
pub record Net : Type 0 where
  pub grants : ℕ → Bool
  pub handle : Bool
  pub slist_append : Text → Bool
  pub perform : List Exchange → Request → Reply

-- `s` is not NULL and not empty.
abbrev pub is_set : Option Text → Bool
is_set none = false
is_set (some []) = false
is_set (some (c ∷ s)) = true

-- `*cancel`, for a flag that is there.
abbrev pub is_cancelled : Option Bool → Bool
is_cancelled none = false
is_cancelled (some flag) = flag

abbrev pub is_watched : Option Bool → Bool
is_watched none = false
is_watched (some flag) = true

abbrev pub is_none : Option Text → Bool
is_none none = true
is_none (some s) = false

abbrev pub content_type_header : Text
content_type_header = codes "Content-Type: application/json"

abbrev pub secret_header : Text → Text
secret_header secret = codes "X-Worker-Secret: " ++ secret

-- The status is in [200, 300).
abbrev pub is_success : ℕ → Bool
is_success status = not (ltb status 200 || leb 300 status)

-- What follows `curl_easy_perform`; the exchange `x` is on record already.
unfoldable pub settle : Client → ℕ → Exchange → Client × Option Text
settle s thread x =
    let failed : Client = record s { health = set_failure s.health thread worker } in
    let status = x.reply.status in
    if x.cancelled
    then (s, none)
    else if not x.reply.transported
    then (failed, none)
    else if status == 401 || status == 403
    then (failed, none)
    else if leb 500 status && ltb status 600
    then (failed, none)
    else if ltb status 200 || leb 300 status
    then (failed, none)
    else (s, x.reply.content)

module _ (net : Net) where
  unfoldable pub dup_or_null : Option Text → Option Text
  dup_or_null none = none
  dup_or_null (some []) = none
  dup_or_null (some (c ∷ s)) = if net.grants (length s + 2) then some (c ∷ s) else none

  unfoldable pub enil_worker_set_credentials : Client → ℕ → Option Text → Option Text → Client
  enil_worker_set_credentials s thread url secret =
      let next_url = dup_or_null url in
      let next_secret = dup_or_null secret in
      if is_set url && is_none next_url || is_set secret && is_none next_secret
      then s
      else record s {
        worker_url = next_url;
        worker_secret = next_secret;
        health = clear_failure s.health thread worker;
      }

  -- The URL and the secret's header, both or neither.
  unfoldable pub worker_credentials_copy : Client → Text → Option (Text × Text)
  worker_credentials_copy s path = elim s.worker_url [
    | none ↦ none
    | some url ↦ elim s.worker_secret [
      | none ↦ none
      | some secret ↦
          let full = url ++ path in
          let header = secret_header secret in
          if net.grants (length full + 1) && net.grants (length header + 1)
          then some (full, header)
          else none
    ]
  ]

  -- The request itself: a handle, the two headers, and the answer of libcurl.
  unfoldable pub exchange : Client → Option Bool → Request → Exchange
  exchange s cancel req =
      let reply = net.perform s.wire req in
      record { request = req; reply = reply; cancelled = is_watched cancel && reply.cancel }

  unfoldable pub send : Client → ℕ → Option Bool → Request → Client × Option Text
  unfolding settle exchange
  send s thread cancel req =
      let x = exchange s cancel req in settle (record s { wire = x ∷ s.wire }) thread x

  unfoldable pub post_to :
      Client → ℕ → Text → Option Bool → Option (Text × Text) → Client × Option Text
  post_to s thread body cancel none = (s, none)
  post_to s thread body cancel (some (url, header)) =
      if not net.handle
      then (s, none)
      else if not (net.slist_append content_type_header && net.slist_append header)
      then (s, none)
      else send s thread cancel
          (record { url = url; headers = content_type_header ∷ header ∷ []; body = body })

  -- `cancel` is the flag's value at the start, `none` for the NULL pointer.
  unfoldable pub worker_post : Client → ℕ → Text → Text → Option Bool → Client × Option Text
  unfolding post_to worker_credentials_copy
  worker_post s thread path body cancel =
      if is_cancelled cancel
      then (s, none)
      else if is_failed s.health thread worker
      then (s, none)
      else post_to s thread body cancel (worker_credentials_copy s path)
