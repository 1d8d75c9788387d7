-- ===== src/Native/Services.antt =====
-- source/shared/enil_native.c: what a request to LINE stands on, and what it leaves.
use enil.Common.{ℕ, Bool, false, Option, none, List, []}
use enil.Common.Int.{ℤ, pos}
use enil.Common.Text.{Text}
use enil.Common.Json.{Json, Cjson}

-- What goes to `curl`: where to, the header lines, and the body.
pub record Request : Type 0 where
  pub url : Text
  pub headers : List Text
  pub content : List ℕ

-- How a transfer ended: the status, `rc`, and what libcurl knows of the time before the request
-- (`ready`: above 0) and of the bytes uploaded.
pub data Code : Type 0 where
  ok timed_out other_error : Code

pub record Transfer : Type 0 where
  pub status : ℤ
  pub rc : Code
  pub ready : Bool
  pub uploaded : Option ℕ
  pub content : List ℕ

-- What the request stands on: cJSON, the codecs, the worker, the session, the transfer. `login_kept`
-- answers `current_login` before the transfer, after the decoding, and before the reply is read.
pub record Services : Type 0 where
  pub cjson : Cjson
  pub value_int : ℕ → ℤ
  pub grants : ℕ → Bool
  pub slist_append : Text → Bool
  pub delete_item_from_array : Json → ℕ → Json
  pub b64_encode : List ℕ → Option Text
  pub b64_decode_alloc : Text → Option (List ℕ)
  pub thrift_encode : Text → Option Json → Option (List ℕ)
  pub thrift_decode : Text → List ℕ → Option Json
  pub worker_decrypt_ex : Text → Json → Option Json
  -- `none` if the login is gone, `some none` if the thread has none
  pub bound_access_token : Option (Option Text)
  pub kept_before_transfer : Bool
  pub kept_after_decode : Bool
  pub kept_at_reply : Bool
  pub accept_next_access : Text → Text → Bool
  -- the list so far with the headers of the language
  pub language_headers : List Text → List Text
  pub has_curl : Bool
  pub transfer : Request → Transfer

-- What a call leaves: the result, whether it reported a failure of LINE, and what it sent.
pub record Outcome : Type 0 where
  pub status : ℤ
  pub body : Option Text
  pub failed : Bool
  pub sent : List Request

-- A request made ready: `method`, `endpoint`, `encrypted`, `contacts` and the arguments.
pub record Shape : Type 0 where
  pub method : Text
  pub endpoint : Text
  pub encrypted : Bool
  pub contacts : Bool
  pub args : Option Json

-- A request with the key that the answer is decoded with.
pub record Outgoing : Type 0 where
  pub request : Request
  pub key : Option Text

abbrev pub nothing_sent : Outcome
nothing_sent = record { status = pos 0; body = none; failed = false; sent = [] }

abbrev pub ended : ℤ → Outcome
ended status = record { status = status; body = none; failed = false; sent = [] }
