-- ===== src/Gateway.antt =====
-- source/shared/enil_chrome_gateway.c and the requests of source/shared/enil_line.c: a request goes out over the
-- transport of the thread's identity, signed by the worker where it is the Chrome gateway, and only while the
-- gate of LINE is open.
--
-- The state is the worker's client, which has the gates, and the requests that went to the Chrome
-- gateway so far with their answers, the newest first. A request here is that of
-- one thread, with no other thread at the gates meanwhile.
use enil.Common.{
  ℕ, ◌+◌, Bool, true, false, not, ◌&&◌, ◌||◌, Option, none, some, List, [], ◌∷◌, ◌++◌, ltb, leb,
  ◌==◌, if◌then◌else◌, length, take,
}
use enil.Common.Text.{Text, codes, text_eq}
use enil.Identity.{Identity}
use enil.Health.{Health, set_failure, is_failed, line}
use enil.Worker.{Client}
use enil.Worker.Calls.{Tools}
use enil.Worker.Keys.{enil_worker_sign}
pub mod Silent
mod Runs

pub record ChromeRequest : Type 0 where
  pub url : Text
  pub user_agent : Text
  pub headers : List Text
  pub content : Text
  pub timeout_ms : ℕ

-- What `curl_easy_perform` says.
pub data CurlCode : Type 0 where
  curle_ok aborted_by_callback other_error : CurlCode

pub record ChromeTransfer : Type 0 where
  pub rc : CurlCode
  pub status : ℕ
  pub content : Option Text

-- `ENILLineResponse`
pub record LineResponse : Type 0 where
  pub status : ℕ
  pub body : Option Text

pub record ChromeExchange : Type 0 where
  pub request : ChromeRequest
  pub path : Text
  pub answer : ChromeTransfer

pub record Line : Type 0 where
  pub client : Client
  pub sent : List ChromeExchange

-- libcurl, memory and the headers of the language. `perform` answers in the light of the requests so
-- far; the flag `cancel` of a caller is part of its answer. `native_post` is the other transport, the
-- model of which is in Native: what it answers, and whether it reports a failure of LINE.
pub record LineNet : Type 0 where
  pub tools : Tools
  pub handle : Bool
  pub slist_append : Text → Bool
  pub grants : ℕ → Bool
  pub language_headers : List Text
  pub perform : List ChromeExchange → ChromeRequest → ChromeTransfer
  pub native_post : Identity → Text → Text → Text → LineResponse × Bool

abbrev pub no_response : LineResponse
no_response = record { status = 0; body = none }

abbrev pub gateway : Text
gateway = codes "https://line-chrome-gw.line-apps.com"

abbrev pub origin_header : Text
origin_header = codes "Origin: chrome-extension://ophjlpahpchlmihnnnihgmmeilfjmjjc"

abbrev pub public_key_path : Text
public_key_path = codes "/api/talk/thrift/Talk/TalkService/getE2EEPublicKey"

abbrev pub some_text : Text → Bool
some_text [] = false
some_text (c ∷ s) = true

-- The statuses that end in a failure of LINE; a public key that is gone is not one.
abbrev pub is_refused : Text → ℕ → Bool
is_refused path status =
    (status == 401 || status == 403)
    || ((leb 500 status && ltb status 600)
        || (not (status == 400 && text_eq path public_key_path)
            && (not (status == 0) && (ltb status 200 || leb 300 status))))

module _ (net : LineNet) where
  -- A list that could not grow is lost, and the next header begins a new one.
  abbrev pub append_to : List Text → Text → List Text
  append_to headers h = if net.slist_append h then headers ++ (h ∷ []) else []

  abbrev pub append_all : List Text → List Text → List Text
  append_all headers [] = headers
  append_all headers (h ∷ hs) = append_all (append_to headers h) hs

  unfoldable pub make_header : Text → Text → Option Text
  make_header name value =
      let h = name ++ (codes ": " ++ value) in if net.grants (length h + 1) then some h else none

  abbrev pub append_made : List Text → Option Text → List Text
  append_made headers none = headers
  append_made headers (some h) = append_to headers h

  abbrev pub access_header : Text → Option Text
  access_header token = if some_text token then make_header (codes "X-Line-Access") token else none

  abbrev pub cookie_header : Text → Option Text
  cookie_header token =
      let h = codes "Cookie: lct=" ++ token in
      if some_text token && net.grants (length h + 1) then some h else none

  -- Two headers are made in arrays of 64 and 192 bytes.
  abbrev pub fixed_headers : Identity → List Text
  fixed_headers identity =
      (codes "Accept: application/json, text/plain, */*" ∷ net.language_headers)
      ++ (codes "Content-Type: application/json"
          ∷ take 63 (codes "X-Line-Chrome-Version: " ++ identity.gateway_version)
          ∷ take 191 (codes "X-Line-Application: " ++ identity.application)
          ∷ origin_header
          ∷ [])

  unfoldable pub chrome_request :
      Identity → Text → Text → Text → Text → List Text → ℕ → ChromeRequest
  unfolding make_header
  chrome_request identity hmac path body token extra timeout =
      let fixed = append_all [] (fixed_headers identity) in
      let signed = append_made fixed (make_header (codes "X-Hmac") hmac) in
      let bearing = append_made signed (access_header token) in
      record {
        url = take 511 (gateway ++ path);
        user_agent = identity.user_agent;
        headers = append_all (append_made bearing (cookie_header token)) extra;
        content = body;
        timeout_ms = timeout;
      }

  abbrev pub line_failure : ℕ → Line → Line
  line_failure thread s = record s {
    client = record s.client { health = set_failure s.client.health thread line };
  }

  -- A status of LINE: a failure, the 400 without a body, or the body.
  abbrev pub by_status : ℕ → Text → Line → ℕ → Option Text → Line × LineResponse
  by_status thread path s status content =
      if is_refused path status
      then (line_failure thread s, record { status = status; body = none })
      else if status == 400 && text_eq path public_key_path
      then (s, record { status = status; body = none })
      else (s, record { status = status; body = content })

  abbrev pub on_code : ℕ → Text → Line → ChromeTransfer → CurlCode → Line × LineResponse
  on_code thread path s t curle_ok = by_status thread path s t.status t.content
  on_code thread path s t aborted_by_callback = (s, no_response)
  on_code thread path s t other_error = (line_failure thread s, no_response)

  abbrev pub on_transfer : ℕ → Line → ChromeExchange → Line × LineResponse
  on_transfer thread s x =
      on_code thread x.path (record s { sent = x ∷ s.sent }) x.answer x.answer.rc

  abbrev pub exchange_for : Line → Text → ChromeRequest → ChromeExchange
  exchange_for s path req = record { request = req; path = path; answer = net.perform s.sent req }

  abbrev pub signed_post :
      Identity → ℕ → Text → Text → Text → List Text → ℕ → Line → Option Text → Line × LineResponse
  signed_post identity thread path body token extra timeout s none = (s, no_response)
  signed_post identity thread path body token extra timeout s (some hmac) =
      if net.handle
      then on_transfer thread s
          (exchange_for s path (chrome_request identity hmac path body token extra timeout))
      else (s, no_response)

  abbrev pub after_sign :
      Identity
      → ℕ
      → Text
      → Text
      → Text
      → List Text
      → ℕ
      → Line
      → Client × Option Text
      → Line × LineResponse
  after_sign identity thread path body token extra timeout s (client, hmac) =
      signed_post identity thread path body token extra timeout (record s { client = client }) hmac

  unfoldable pub enil_chrome_gateway_post :
      Identity → ℕ → Text → Text → Text → List Text → ℕ → Line → Line × LineResponse
  unfolding enil_worker_sign chrome_request
  enil_chrome_gateway_post identity thread path body token extra timeout s =
      after_sign identity thread path body token extra timeout s
        (enil_worker_sign net.tools s.client thread path body token)

  abbrev pub native_answer : ℕ → Line → LineResponse × Bool → Line × LineResponse
  native_answer thread s (r, true) = (line_failure thread s, r)
  native_answer thread s (r, false) = (s, r)

  abbrev pub by_transport :
      Identity → ℕ → Text → Text → Text → List Text → ℕ → Line → Line × LineResponse
  by_transport identity thread path body token extra timeout s =
      if text_eq identity.transport (codes "native-thrift")
      then native_answer thread s (net.native_post identity path body token)
      else if text_eq identity.transport (codes "chrome-gateway")
      then enil_chrome_gateway_post identity thread path body token extra timeout s
      else (s, no_response)

  abbrev pub token_present :
      Identity → ℕ → Text → Text → Option Text → List Text → ℕ → Line → Line × LineResponse
  token_present identity thread path body none extra timeout s = (s, no_response)
  token_present identity thread path body (some token) extra timeout s =
      if is_failed s.client.health thread line
      then (s, no_response)
      else by_transport identity thread path body token extra timeout s

  -- The thread's identity is what enil_identity_current gives.
  unfoldable pub enil_line_post_ex :
      Option Identity → ℕ → Text → Text → Option Text → List Text → ℕ → Line → Line × LineResponse
  unfolding enil_chrome_gateway_post
  enil_line_post_ex none thread path body token extra timeout s = (s, no_response)
  enil_line_post_ex (some identity) thread path body token extra timeout s =
      token_present identity thread path body token extra timeout s

  unfoldable pub enil_line_post :
      Option Identity → ℕ → Text → Text → Option Text → Line → Line × LineResponse
  unfolding enil_line_post_ex
  enil_line_post identity thread path body token s =
      enil_line_post_ex identity thread path body token [] 0 s
