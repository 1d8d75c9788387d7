-- ===== src/Native/Safety.antt =====
-- source/shared/enil_native.c: what a request and its answer may do, on every path of the code.
use enil.Common.{
  [], ◌∷◌, some_inj, ℕ, ◌≡◌, refl, sym, ◌∙◌, Bool, true, false, not, ◌&&◌, ◌||◌, Option, none, some,
  List, ◌⊎◌, inl, inr, Bool-cases, Option-cases, if◌then◌else◌, arith,
}
use enil.Common.Int.{ℤ, pos, eq_ℤ}
use enil.Common.Text.{Text, codes, text_eq}
use enil.Common.Json.{Json, field, object, nil}
use enil.Identity.{Identity}
use enil.Native.Services.{Transfer, Services, Outcome, Shape, Outgoing, nothing_sent, ended}
use enil.Native.Prepare.{json_string, shape, outgoing}
use enil.Native.Outgoing.{IsUsed, token_or-IsUsed}
use enil.Native.Answer.{
  on_success, on_reply, on_bytes, on_decoded, decode_with, received, success_of, other_status,
  refuses, finished,
}
use enil.Native.Post.{report, perform, token_or, post_as, enil_native_post}
use enil.Native.Reason.{Reason, IsDecoded, IsReceived, is_rejection-IsRejection}

either : (a b : Bool) → (not a && not b) ≡ false → (a ≡ true) ⊎ (b ≡ true)
either true b h = inl refl
either false true h = inr refl
either false false h = absurd (cc h)

module _ (on : Services) where
  -- The login at the end of a request, unless it is the refresh of the login.
  abbrev pub IsFresh : Shape → Type 0
  IsFresh s = (text_eq s.method (codes "refresh") ≡ true) ⊎ (on.kept_at_reply ≡ true)

  module _ (out : Outgoing) (t : Transfer) where
    -- A body only for a fresh login, a report only for a reason.
    pub record IsSound (s : Shape) (token : Text) (o : Outcome) : Type 0 where
      pub fresh : (b : Text) → o.body ≡ some b → IsFresh s
      pub told : o.failed ≡ true → Reason on s out t token o

    ended-IsSound : (s : Shape) (token : Text) (status : ℤ) → IsSound s token (ended status)
    ended-IsSound s token status = record {
      fresh = λ b h. absurd (cc h);
      told = λ h. absurd (cc h);
    }

    guard-IsSound :
        (s : Shape) (token : Text) (status : ℤ) (guard : Bool) (o : Outcome)
        → (guard ≡ false → IsSound s token o)
        → IsSound s token (if guard then ended status else o)
    guard-IsSound s token status true o sound = ended-IsSound s token status
    guard-IsSound s token status false o sound = sound refl

    on_success-IsSound :
        (s : Shape) (token : Text) (status : ℤ) (reply : Json)
        → IsFresh s
        → IsSound s token (on_success on s status reply)
    unfolding on_success
    on_success-IsSound s token status reply f = elim (Option-cases (success_of on s.method reply)) [
      | inl nothing ↦ rw (nothing, on_success) (ended-IsSound s token status)
      | inr (v, e) ↦ rw (e, on_success) (record { fresh = λ b h. f; told = λ h. absurd (cc h) })
    ]

    on_reply-IsSound :
        (s : Shape) (token : Text) (status : ℤ) (bytes : List ℕ)
        → (reply : Option Json) → on.thrift_decode s.method bytes ≡ reply
        → IsReceived on s out t bytes
        → IsFresh s
        → IsSound s token (on_reply on s status reply)
    unfolding on_reply
    on_reply-IsSound s token status bytes none from origin f = ended-IsSound s token status
    on_reply-IsSound s token status bytes (some reply) from origin f =
        elim (Option-cases (field on.cjson (some reply) (codes "e"))) [
          | inl none_thrown ↦ rw (none_thrown, on_reply) (on_success-IsSound s token status reply f)
          | inr (e, thrown) ↦
              rw (thrown, on_reply)
                (record {
                  fresh = λ b h. f;
                  told = λ h. inl (
                    bytes,
                    reply,
                    e,
                    origin,
                    from,
                    thrown,
                    refl,
                    is_rejection-IsRejection on _ h,
                  );
                })
        ]

    on_bytes-IsSound :
        (s : Shape) (token : Text) (status : ℤ) (bytes : Option (List ℕ))
        → ((b : List ℕ) → bytes ≡ some b → IsReceived on s out t b)
        → IsSound s token (on_bytes on s status bytes)
    unfolding on_bytes
    on_bytes-IsSound s token status none from = ended-IsSound s token status
    on_bytes-IsSound s token status (some bytes) from =
        guard-IsSound s token status
          (not (text_eq s.method (codes "refresh")) && not on.kept_at_reply)
          (on_reply on s status (on.thrift_decode s.method bytes))
          (λ h.
            on_reply-IsSound s token status bytes (on.thrift_decode s.method bytes) refl
              (from bytes refl) (either (text_eq s.method (codes "refresh")) on.kept_at_reply h))

    refuses_inv :
        (token : Text) (next : Option Text)
        → refuses on token next ≡ true
        → (n : Text) × (next ≡ some n) × (on.accept_next_access token n ≡ false)
    refuses_inv token none h = absurd (cc h)
    refuses_inv token (some n) h = (n, refl, ground (arith, h))

    refused-IsSound :
        (s : Shape) (token : Text) (status : ℤ) (decoded : Option Json) (refused : Bool)
        (o : Outcome)
        → IsDecoded on out t decoded
        → refuses on token
            (json_string on (field on.cjson decoded (codes "headers")) (codes "x-line-next-access"))
          ≡ refused
        → IsSound s token o
        → IsSound s token (if refused then record (ended status) { failed = true } else o)
    refused-IsSound s token status decoded false o d e sound = sound
    refused-IsSound s token status decoded true o d e sound = record {
      fresh = λ b h. absurd (cc h);
      told = λ h. let (n, en, denied) = refuses_inv token _ e in inr (decoded, n, d, en, denied);
    }

    on_decoded-IsSound :
        (s : Shape) (token : Text) (status : ℤ) (decoded : Option Json)
        → s.encrypted ≡ true
        → IsDecoded on out t decoded
        → IsSound s token (on_decoded on s token status decoded)
    unfolding on_decoded
    on_decoded-IsSound s token status decoded enc d =
        let next =
          json_string on (field on.cjson decoded (codes "headers")) (codes "x-line-next-access") in
        elim (Option-cases (json_string on decoded (codes "body"))) [
          | inl nobody ↦ rw (nobody, on_decoded) (ended-IsSound s token status)
          | inr (body, e) ↦
              elim (Option-cases (other_status on (field on.cjson decoded (codes "status")))) [
                | inr (other, o) ↦ rw (e, o, on_decoded) (ended-IsSound s token other)
                | inl same ↦
                    rw (e, same, on_decoded)
                      (guard-IsSound s token status (not on.kept_after_decode) _ (λ h.
                        refused-IsSound s token status decoded (refuses on token next) _ d refl (
                          on_bytes-IsSound s token status (on.b64_decode_alloc body)
                            (λ b eb. inr (enc, (decoded, body, d, e, eb))))))
              ]
        ]

    decode_with-IsSound :
        (s : Shape) (token : Text) (base64 : Option Text) (request : Option Json)
        → s.encrypted ≡ true
        → on.b64_encode t.content ≡ base64
        → on.cjson.create (object nil) ≡ request
        → IsSound s token (decode_with on s token out.key base64 request)
    decode_with-IsSound s token none request enc e r = ended-IsSound s token (pos 200)
    decode_with-IsSound s token (some b) none enc e r = ended-IsSound s token (pos 200)
    decode_with-IsSound s token (some b) (some o) enc e r =
        on_decoded-IsSound s token (pos 200) _ enc (b, o, e, r, refl)

    encrypted-IsSound :
        (s : Shape) (token : Text) (b : Bool) (o o' : Outcome)
        → (b ≡ true → IsSound s token o)
        → (b ≡ false → IsSound s token o')
        → IsSound s token (if b then o else o')
    encrypted-IsSound s token true o o' sound sound' = sound refl
    encrypted-IsSound s token false o o' sound sound' = sound' refl

    received-IsSound : (s : Shape) (token : Text) → IsSound s token (received on s token out t)
    unfolding received
    received-IsSound s token = guard-IsSound s token _ (not (finished on t.rc)) _ (λ h.
        guard-IsSound s token _ (not (eq_ℤ t.status (pos 200))) _ (λ h'.
          encrypted-IsSound s token s.encrypted _ _
            (λ enc.
              decode_with-IsSound s token (on.b64_encode t.content) (on.cjson.create (object nil))
                enc refl refl)
            (λ clear.
              on_bytes-IsSound s token (pos 200) (some t.content)
                (λ b eb. inl (clear, sym (some_inj eb))))))

  -- A status with which LINE ends the session.
  abbrev pub IsExpired : Outcome → Type 0
  IsExpired o = (eq_ℤ o.status (pos 401) || eq_ℤ o.status (pos 403)) ≡ true

  -- A reason in the answer to the request that was sent.
  abbrev pub IsReasoned : Text → Text → Text → Outcome → Type 0
  IsReasoned path body token o =
      (s : Shape) × (out : Outgoing) × (shape on path body ≡ some s)
      × (o.sent ≡ out.request ∷ [])
      × Reason on s out (on.transfer out.request) token o

  -- What a body and a report of a request come from, before the label `done`.
  abbrev Grounded : Text → Text → Text → Outcome → Type 0
  Grounded path body token o =
      ((b : Text) → o.body ≡ some b → (s : Shape) × (shape on path body ≡ some s) × IsFresh s)
      × (o.failed ≡ true → IsReasoned path body token o)

  -- The same at the end.
  abbrev pub IsAnswered : Text → Text → Text → Outcome → Type 0
  IsAnswered path body token o =
      ((b : Text) → o.body ≡ some b → (s : Shape) × (shape on path body ≡ some s) × IsFresh s)
      × (o.failed ≡ true
          → IsExpired o
            ⊎ ((b : Option Text) × (used : Text) × (on.bound_access_token ≡ some b)
                × IsUsed b token used
                × IsReasoned path body used o))
      × (IsExpired o → o.failed ≡ true)

  nothing-Grounded : (path body token : Text) → Grounded path body token nothing_sent
  nothing-Grounded path body token = ((λ b h. absurd (cc h)), λ h. absurd (cc h))

  guarded :
      (P : Outcome → Type 0) (a b : Bool) (o : Outcome)
      → P nothing_sent
      → P o
      → P (if a then nothing_sent else if not b then nothing_sent else o)
  guarded P true b o n p = n
  guarded P false false o n p = n
  guarded P false true o n p = p

  perform-Grounded :
      (path body token : Text) (s : Shape) (out : Outgoing)
      → shape on path body ≡ some s
      → Grounded path body token (perform on s token out)
  unfolding perform
  perform-Grounded path body token s out e =
      let t = on.transfer out.request in
      let sound = received-IsSound out t s token in
      guarded (λ o. Grounded path body token o) (not on.has_curl) on.kept_before_transfer
        (record (received on s token out t) { sent = out.request ∷ [] })
        (nothing-Grounded path body token)
        ((λ b h. (s, e, sound.fresh b h)), λ h. (s, out, e, refl, sound.told h))

  posted-Grounded :
      (path body token : Text) (s : Shape) (out : Option Outgoing)
      → shape on path body ≡ some s
      → Grounded path body token (elim out [ none ↦ nothing_sent | some o ↦ perform on s token o ])
  posted-Grounded path body token s none e = nothing-Grounded path body token
  posted-Grounded path body token s (some out) e = perform-Grounded path body token s out e

  shaped-Grounded :
      (i : Identity) (path body token : Text) (later : Bool) (r : Option Shape)
      → shape on path body ≡ r
      → Grounded path body token (elim r [
        | none ↦ nothing_sent
        | some s ↦ elim (outgoing on i s token later) [
          | none ↦ nothing_sent
          | some o ↦ perform on s token o
        ]
      ])
  shaped-Grounded i path body token later none e = nothing-Grounded path body token
  shaped-Grounded i path body token later (some s) e =
      posted-Grounded path body token s (outgoing on i s token later) e

  post_as-Grounded :
      (i : Identity) (path body token : Text) (later : Bool)
      → Grounded path body token (post_as on i path body token later)
  post_as-Grounded i path body token later =
      shaped-Grounded i path body token later (shape on path body) refl

  report-IsAnswered :
      (path body token used : Text) (b : Option Text) (o : Outcome)
      → on.bound_access_token ≡ some b
      → IsUsed b token used
      → Grounded path body used o
      → IsAnswered path body token (report on o)
  unfolding report
  report-IsAnswered path body token used b o e u (fresh, told) =
      elim (Bool-cases (eq_ℤ o.status (pos 401) || eq_ℤ o.status (pos 403))) [
        | inl over ↦ rw (over, report) (fresh, (λ h. inl over), λ h. refl)
        | inr fine ↦
            rw (fine, report)
              (fresh, (λ h. inr (b, used, e, u, told h)), λ h. absurd (cc (sym h ∙ fine)))
      ]

  nothing-IsAnswered : (path body token : Text) → IsAnswered path body token nothing_sent
  nothing-IsAnswered path body token =
      ((λ b h. absurd (cc h)), (λ h. absurd (cc h)), λ h. absurd (cc h))

  choice-IsAnswered :
      (path body token : Text) (c : Bool) (o o' : Outcome)
      → IsAnswered path body token o
      → IsAnswered path body token o'
      → IsAnswered path body token (if c then o else o')
  choice-IsAnswered path body token true o o' sound sound' = sound
  choice-IsAnswered path body token false o o' sound sound' = sound'

  bound-IsAnswered :
      (i : Identity) (path body token : Text) (later : Bool) (bound : Option (Option Text))
      → on.bound_access_token ≡ bound
      → IsAnswered path body token (elim bound [
        | none ↦ report on nothing_sent
        | some t ↦ report on (post_as on i path body (token_or on t token) later)
      ])
  unfolding report
  bound-IsAnswered i path body token later none e = nothing-IsAnswered path body token
  bound-IsAnswered i path body token later (some t) e =
      report-IsAnswered path body token (token_or on t token) t
        (post_as on i path body (token_or on t token) later) e (token_or-IsUsed on t token)
        (post_as-Grounded i path body (token_or on t token) later)

  -- A native request gives a body only if the login was there still when the reply was read, or
  -- the method is the refresh of the login; it reports a failure of LINE only for a status 401
  -- or 403, or once it sent its request and its answer gives the reason: the reply, as it came
  -- or as the worker decoded it, holds under e an exception with code 1, 14 or 117, or the
  -- headers that the worker decoded hold a next token that the session did not accept in the
  -- place of the one used; and for the two statuses always.
  pub native_post-IsAnswered :
      (identity : Option Identity) (path body token : Text) (cancelled later : Bool)
      → IsAnswered path body token (enil_native_post on identity path body token cancelled later)
  unfolding enil_native_post
  native_post-IsAnswered none path body token cancelled later = nothing-IsAnswered path body token
  native_post-IsAnswered (some i) path body token cancelled later =
      choice-IsAnswered path body token (text_eq i.transport (codes "native-thrift")) _ _
        (choice-IsAnswered path body token cancelled _ _ (nothing-IsAnswered path body token)
          (bound-IsAnswered i path body token later on.bound_access_token refl))
        (nothing-IsAnswered path body token)
