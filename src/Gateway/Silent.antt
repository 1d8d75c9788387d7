-- ===== src/Gateway/Silent.antt =====
-- source/shared/enil_chrome_gateway.c: after an answer that fails the gate of an account, no more requests of a
-- thread go out.
use enil.Common.{
  ℕ, ◌≡◌, refl, sym, ap, ◌∙◌, Bool, true, false, not, ◌&&◌, ◌||◌, Option, none, some, List, ◌∷◌,
  All, arith, Bool-cases, Option-cases, inl, inr, ◌⊎◌, ltb, leb, ◌==◌, if◌then◌else◌,
}
use mathlib.Core.Path.{subst}
use enil.Common.Text.{Text, codes, text_eq}
use enil.Common.Json.{Json}
use enil.Identity.{Identity}
use enil.Health.{Health, set_failure, worker_set_failure, line_set_on, is_failed, flag_of, line}
use enil.Health.Gates.{Op, step, KeepsLine, step-line_failed}
use enil.Worker.{Client, Exchange, settle, send, exchange, worker_post}
use enil.Worker.Calls.{Tools, worker_call, call_with, parsed}
use enil.Worker.Keys.{sign_request, sign_answer, enil_worker_sign}
use enil.Worker.Gate.{worker_post_cases}
use enil.Gateway.{
  ChromeExchange, LineResponse, Line, LineNet, CurlCode, curle_ok, aborted_by_callback, other_error,
  is_refused, no_response, line_failure, by_status, on_code, exchange_for, chrome_request,
  signed_post, enil_chrome_gateway_post, native_answer, by_transport, enil_line_post_ex,
  public_key_path,
}

module _ (tools : Tools) where
  pick_bound :
      (b : Bool) (x y : Client × Option Text) (bound : ℕ → Option ℕ)
      → x.0.health.bound ≡ bound
      → y.0.health.bound ≡ bound
      → (if b then x else y).0.health.bound ≡ bound
  pick_bound true x y bound hx hy = hx
  pick_bound false x y bound hx hy = hy

  settle_bound :
      (s : Client) (thread : ℕ) (x : Exchange) → (settle s thread x).0.health.bound ≡ s.health.bound
  unfolding settle set_failure worker_set_failure
  settle_bound s thread x =
      let b = s.health.bound in
      pick_bound x.cancelled _ _ b refl (
        pick_bound (not x.reply.transported) _ _ b refl (
          pick_bound (x.reply.status == 401 || x.reply.status == 403) _ _ b refl (
            pick_bound (leb 500 x.reply.status && ltb x.reply.status 600) _ _ b refl
              (pick_bound (ltb x.reply.status 200 || leb 300 x.reply.status) _ _ b refl refl))))

  post_bound :
      (s : Client) (thread : ℕ) (path body : Text) (cancel : Option Bool)
      → (worker_post tools.net s thread path body cancel).0.health.bound ≡ s.health.bound
  unfolding send
  post_bound s thread path body cancel =
      elim (worker_post_cases tools.net s thread path body cancel) [
        | inl e ↦ ap (λ (r : Client × Option Text). r.0.health.bound) e
        | inr (req, open_gate, e) ↦
            ap (λ (r : Client × Option Text). r.0.health.bound) e
            ∙ settle_bound _ thread (exchange tools.net s cancel req)
      ]

  parsed_bound : (r : Client × Option Text) → (parsed tools r).0.health.bound ≡ r.0.health.bound
  parsed_bound (s, none) = refl
  parsed_bound (s, some t) = refl

  answer_bound :
      (r : Client × Option Json) → (sign_answer tools r).0.health.bound ≡ r.0.health.bound
  answer_bound (s, none) = refl
  answer_bound (s, some t) = refl

  call_bound :
      (s : Client) (thread : ℕ) (path : Text) (req : Option Json)
      → (call_with tools s thread path req).0.health.bound ≡ s.health.bound
  unfolding call_with worker_call
  call_bound s thread path none = refl
  call_bound s thread path (some req) = elim (Option-cases (tools.cjson.print_unformatted req)) [
    | inl e ↦ rw (e, call_with, worker_call) refl
    | inr (body, e) ↦
        rw (e, call_with, worker_call)
          (parsed_bound (worker_post tools.net s thread path body none)
            ∙ post_bound s thread path body none)
  ]

  sign_bound :
      (s : Client) (thread : ℕ) (path body token : Text)
      → (enil_worker_sign tools s thread path body token).0.health.bound ≡ s.health.bound
  unfolding enil_worker_sign
  sign_bound s thread path body token =
      answer_bound (call_with tools s thread _ (sign_request tools path body token))
      ∙ call_bound s thread _ (sign_request tools path body token)

-- Whether an answer leaves the gate open: one that the caller no longer waits for, a 2xx, one without a
-- status, or the 400 for a public key that is gone.
abbrev pub finishes : Text → ℕ → CurlCode → Bool
finishes path status other_error = false
finishes path status aborted_by_callback = true
finishes path status curle_ok =
    (leb 200 status && ltb status 300)
    || ((status == 0)
        || ((status == 400)
            && text_eq path (codes "/api/talk/thrift/Talk/TalkService/getE2EEPublicKey")))

finishes_lem :
    (path : Text) (status : ℕ)
    → is_refused path status ≡ false
    → finishes path status curle_ok ≡ true
finishes_lem path status h = ground (arith, h)

-- An answer that does not fail the gate.
abbrev pub IsFine : ChromeExchange → Type 0
IsFine x = finishes x.path x.answer.status x.answer.rc ≡ true

-- All answers were fine, but for the newest if the gate of the account has failed since.
abbrev pub Quiet : ℕ → Line → Type 0
Quiet h s =
    All IsFine s.sent
    ⊎ ((s.client.health.line_failed h ≡ true)
        × ((x : ChromeExchange) × (xs : List ChromeExchange) × (s.sent ≡ x ∷ xs) × All IsFine xs))

module _ (net : LineNet) where
  -- The requests of one thread with an account bound, and any use of the gates between them, by any
  -- thread, that does not clear its failure.
  pub data Run (h thread : ℕ) : Line → Line → Type 0 where
    ended : (s : Line) → Run h thread s s
    posts :
        (s s' : Line) (identity : Option Identity) (path body : Text) (token : Option Text)
        (extra : List Text) (timeout : ℕ)
        → s.client.health.bound thread ≡ some h
        → Run h thread (enil_line_post_ex net identity thread path body token extra timeout s).0 s'
        → Run h thread s s'
    gates :
        (s s' : Line) (op : Op)
        → KeepsLine h op
        → Run h thread
            (record s { client = record s.client { health = step s.client.health op } })
            s'
        → Run h thread s s'

fails :
    (s : Health) (thread h : ℕ)
    → s.bound thread ≡ some h
    → (set_failure s thread line).line_failed h ≡ true
unfolding set_failure line_set_on
fails s thread h e =
    let same : (h == h) ≡ true = ground arith in
    ap (λ (b : Option ℕ). (line_set_on s b).line_failed h) e ∙ rw same refl

module _ (h : ℕ) where
  either :
      (b : Bool) (x y : Line × LineResponse)
      → Quiet h x.0
      → Quiet h y.0
      → Quiet h (if b then x else y).0
  either true x y hx hy = hx
  either false x y hx hy = hy

module _ (net : LineNet) (h thread : ℕ) where
  -- The states that an answer can lead to.
  refused-Quiet :
      (s : Line) (x : ChromeExchange)
      → s.client.health.bound thread ≡ some h
      → All IsFine s.sent
      → Quiet h (line_failure net thread (record s { sent = x ∷ s.sent }))
  refused-Quiet s x bound fine = inr (fails s.client.health thread h bound, (x, s.sent, refl, fine))

  fine-Quiet :
      (s : Line) (x : ChromeExchange)
      → IsFine x
      → All IsFine s.sent
      → Quiet h (record s { sent = x ∷ s.sent })
  fine-Quiet s x ok fine = inl (ok, fine)

  code-Quiet :
      (s : Line) (x : ChromeExchange) (c : CurlCode)
      → x.answer.rc ≡ c
      → s.client.health.bound thread ≡ some h
      → All IsFine s.sent
      → Quiet h (on_code net thread x.path (record s { sent = x ∷ s.sent }) x.answer c).0
  code-Quiet s x other_error e bound fine = refused-Quiet s x bound fine
  code-Quiet s x aborted_by_callback e bound fine =
      fine-Quiet s x (ap (finishes x.path x.answer.status) e) fine
  code-Quiet s x curle_ok e bound fine = elim (Bool-cases (is_refused x.path x.answer.status)) [
    | inl refused ↦ rw (refused, by_status) (refused-Quiet s x bound fine)
    | inr kept ↦
        let ok : IsFine x =
          ap (finishes x.path x.answer.status) e ∙ finishes_lem x.path x.answer.status kept in
        rw (kept, by_status)
          (either h (x.answer.status == 400 && text_eq x.path public_key_path) _ _
            (fine-Quiet s x ok fine) (fine-Quiet s x ok fine))
  ]

  signed-Quiet :
      (s : Line) (identity : Identity) (path body token : Text) (extra : List Text) (timeout : ℕ)
      (hmac : Option Text)
      → s.client.health.bound thread ≡ some h
      → All IsFine s.sent
      → Quiet h (signed_post net identity thread path body token extra timeout s hmac).0
  signed-Quiet s identity path body token extra timeout none bound fine = inl fine
  signed-Quiet s identity path body token extra timeout (some hmac) bound fine =
      let x =
        exchange_for net s path (chrome_request net identity hmac path body token extra timeout) in
      either h net.handle _ _ (code-Quiet s x x.answer.rc refl bound fine) (inl fine)

  native-Quiet :
      (s : Line) (r : LineResponse × Bool)
      → All IsFine s.sent
      → Quiet h (native_answer net thread s r).0
  native-Quiet s (r, true) fine = inl fine
  native-Quiet s (r, false) fine = inl fine

  transport-Quiet :
      (s : Line) (identity : Identity) (path body token : Text) (extra : List Text) (timeout : ℕ)
      → s.client.health.bound thread ≡ some h
      → All IsFine s.sent
      → Quiet h (by_transport net identity thread path body token extra timeout s).0
  unfolding enil_chrome_gateway_post
  transport-Quiet s identity path body token extra timeout bound fine =
      let signed = enil_worker_sign net.tools s.client thread path body token in
      let still : signed.0.health.bound thread ≡ some h =
        ap (λ (f : ℕ → Option ℕ). f thread) (sign_bound net.tools s.client thread path body token)
        ∙ bound in
      either h (text_eq identity.transport (codes "native-thrift")) _ _
        (native-Quiet s (net.native_post identity path body token) fine)
        (either h (text_eq identity.transport (codes "chrome-gateway")) _ _
          (signed-Quiet (record s { client = signed.0 }) identity path body token extra timeout
            signed.1 still fine)
          (inl fine))

  post-Quiet :
      (s : Line) (identity : Option Identity) (path body : Text) (token : Option Text)
      (extra : List Text) (timeout : ℕ)
      → s.client.health.bound thread ≡ some h
      → Quiet h s
      → Quiet h (enil_line_post_ex net identity thread path body token extra timeout s).0
  unfolding enil_line_post_ex is_failed
  post-Quiet s none path body token extra timeout bound q = q
  post-Quiet s (some identity) path body none extra timeout bound q = q
  post-Quiet s (some identity) path body (some token) extra timeout bound (inl fine) =
      either h (is_failed s.client.health thread line) _ _ (inl fine)
        (transport-Quiet s identity path body token extra timeout bound fine)
  post-Quiet s (some identity) path body (some token) extra timeout bound (inr (failed, rest)) =
      let shut : is_failed s.client.health thread line ≡ true =
        ap (λ b. flag_of s.client.health b) bound ∙ failed in
      let q : Quiet h s = inr (failed, rest) in
      subst
        (λ b.
          Quiet h
            (if b
              then (s, no_response)
              else by_transport net identity thread path body token extra timeout s).0)
        (sym shut) q

-- Over any requests, over either transport, of one thread that has an account bound, and any use
-- of the gates between them in which nobody clears the failure of the account or takes its
-- place: if all answers of the Chrome gateway were fine at the start, they all are afterwards,
-- or the gate of the account has failed and all but the newest are; an answer is fine that the
-- caller no longer waits for, or that came without an error of the transport with a status that
-- is 2xx, 0, or 400 for a public key.
pub line_run-Quiet :
    (net : LineNet) (h thread : ℕ) (s s' : Line) → Run net h thread s s' → Quiet h s → Quiet h s'
line_run-Quiet net h thread s s' (ended t) q = q
line_run-Quiet net h thread s s' (posts t t' identity path body token extra timeout bound run) q =
    line_run-Quiet net h thread _ s' run
      (post-Quiet net h thread s identity path body token extra timeout bound q)
line_run-Quiet net h thread s s' (gates t t' op keeps run) (inl fine) =
    line_run-Quiet net h thread _ s' run (inl fine)
line_run-Quiet net h thread s s' (gates t t' op keeps run) (inr (failed, rest)) =
    line_run-Quiet net h thread _ s' run
      (inr (step-line_failed s.client.health h op keeps failed, rest))
