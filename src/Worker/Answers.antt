-- ===== src/Worker/Answers.antt =====
-- source/shared/enil_worker.c: what an answer of `worker_post` is an answer to.
use enil.Common.{
  ℕ, ◌≡◌, ◌+◌, length, refl, Bool, true, false, ◌&&◌, ◌++◌, Option, none, some, [], ◌∷◌, arith,
  Bool-cases, Option-cases, ◌⊎◌, inl, inr,
}
use enil.Common.Text.{Text}
use enil.Health.{worker, is_failed}
use enil.Worker.{
  Client, Exchange, Request, Net, is_success, worker_post, worker_credentials_copy, post_to, send,
  settle, exchange, content_type_header, secret_header, is_cancelled,
}

-- `path` was asked for with the body, at the address and with the secret of one pair of credentials.
abbrev pub Asked : Client → Text → Text → Exchange → Type 0
Asked s path body x =
    (url : Text) × (secret : Text) × (s.worker_url ≡ some url)
    × (s.worker_secret ≡ some secret)
    × (x.request ≡ record {
      url = url ++ path;
      headers = content_type_header ∷ secret_header secret ∷ [];
      body = body;
    })

-- One exchange was added, which asked for this and was answered with this under a 2xx status, and
-- nothing else has changed.
abbrev pub Answered : Client → Text → Text → Client → Text → Type 0
Answered s path body s' content =
    (x : Exchange) × (s' ≡ record s { wire = x ∷ s.wire })
    × Asked s path body x
    × (x.cancelled ≡ false)
    × (x.reply.transported ≡ true)
    × (is_success x.reply.status ≡ true)
    × (x.reply.content ≡ some content)

-- What a call comes to: no answer, or an answer to what was asked.
abbrev pub Outcome : Client → Text → Text → Client × Option Text → Type 0
Outcome s path body (s', none) = Unit
Outcome s path body (s', some content) = Answered s path body s' content

settle_success :
    (s : Client) (thread : ℕ) (x : Exchange)
    → x.cancelled ≡ false
    → x.reply.transported ≡ true
    → is_success x.reply.status ≡ true
    → settle s thread x ≡ (s, x.reply.content)
unfolding settle
settle_success s thread x e e' e'' = rw (e, e') (ground (arith, e''))

settle_failure :
    (s : Client) (thread : ℕ) (x : Exchange)
    → x.cancelled ≡ false
    → x.reply.transported ≡ true
    → is_success x.reply.status ≡ false
    → (settle s thread x).1 ≡ none
unfolding settle
settle_failure s thread x e e' e'' = rw (settle, e, e') (ground (arith, e''))

Outcome-none :
    (s : Client) (path body : Text) (r : Client × Option Text) → r.1 ≡ none → Outcome s path body r
Outcome-none s path body (s', none) e = tt
Outcome-none s path body (s', some t) e = absurd cc

Outcome-some :
    (s : Client) (path body : Text) (x : Exchange) (content : Option Text)
    → Asked s path body x
    → x.cancelled ≡ false
    → x.reply.transported ≡ true
    → is_success x.reply.status ≡ true
    → x.reply.content ≡ content
    → Outcome s path body (record s { wire = x ∷ s.wire }, content)
Outcome-some s path body x none asked e e' e'' c = tt
Outcome-some s path body x (some t) asked e e' e'' c = (x, refl, asked, e, e', e'', c)

settle-Outcome :
    (s : Client) (thread : ℕ) (path body : Text) (x : Exchange)
    → Asked s path body x
    → Outcome s path body (settle (record s { wire = x ∷ s.wire }) thread x)
unfolding settle
settle-Outcome s thread path body x asked =
    let s' : Client = record s { wire = x ∷ s.wire } in
    elim (Bool-cases x.cancelled) [
      | inl e ↦ Outcome-none s path body (settle s' thread x) (rw (settle, e) refl)
      | inr e ↦ elim (Bool-cases x.reply.transported) [
        | inr e' ↦ Outcome-none s path body (settle s' thread x) (rw (settle, e, e') refl)
        | inl e' ↦ elim (Bool-cases (is_success x.reply.status)) [
          | inr e'' ↦
              Outcome-none s path body (settle s' thread x) (settle_failure s' thread x e e' e'')
          | inl e'' ↦
              rw (settle_success s' thread x e e' e'')
                (Outcome-some s path body x x.reply.content asked e e' e'' refl)
        ]
      ]
    ]

send-Outcome :
    (net : Net) (s : Client) (thread : ℕ) (path body : Text) (cancel : Option Bool)
    (url secret : Text)
    → s.worker_url ≡ some url
    → s.worker_secret ≡ some secret
    → Outcome s path body
        (post_to net s thread body cancel (some (url ++ path, secret_header secret)))
unfolding post_to send exchange
send-Outcome net s thread path body cancel url secret eu es =
    let header = secret_header secret in
    let req : Request = record {
      url = url ++ path;
      headers = content_type_header ∷ header ∷ [];
      body = body;
    } in
    elim (Bool-cases net.handle) [
      | inr e ↦ rw (post_to, e) tt
      | inl e ↦
          elim (Bool-cases (net.slist_append content_type_header && net.slist_append header)) [
            | inr e' ↦ rw (post_to, e, e') tt
            | inl e' ↦
                rw (post_to, e, e')
                  (settle-Outcome s thread path body (exchange net s cancel req)
                    (url, secret, eu, es, refl))
          ]
    ]

abbrev room : Net → Text → Text → Text → Bool
room net url secret path =
    net.grants (length (url ++ path) + 1) && net.grants (length (secret_header secret) + 1)

credentials_cases :
    (net : Net) (s : Client) (path : Text)
    → (worker_credentials_copy net s path ≡ none)
      ⊎ ((url : Text) × (secret : Text) × (s.worker_url ≡ some url)
          × (s.worker_secret ≡ some secret)
          × (worker_credentials_copy net s path ≡ some (url ++ path, secret_header secret)))
unfolding worker_credentials_copy
credentials_cases net s path = elim (Option-cases s.worker_url) [
  | inl e ↦ rw (e) (inl refl)
  | inr (url, e) ↦ elim (Option-cases s.worker_secret) [
    | inl e' ↦ rw (e, e') (inl refl)
    | inr (secret, e') ↦ elim (Bool-cases (room net url secret path)) [
      | inl r ↦ rw (e, e', r) (inr (url, secret, refl, refl, refl))
      | inr r ↦ rw (e, e', r) (inl refl)
    ]
  ]
]

-- If worker_post returns a body, it has made exactly one request, for the path and with the body
-- given, under one consistent pair of credentials, was not cancelled, and got this body under a
-- 2xx status; the credentials and the gates are as before.
pub worker_post-Outcome :
    (net : Net) (s : Client) (thread : ℕ) (path body : Text) (cancel : Option Bool)
    → Outcome s path body (worker_post net s thread path body cancel)
unfolding worker_post post_to
worker_post-Outcome net s thread path body cancel = elim (Bool-cases (is_cancelled cancel)) [
  | inl e ↦ rw (worker_post, e) tt
  | inr e ↦ elim (Bool-cases (is_failed s.health thread worker)) [
    | inl e' ↦ rw (worker_post, e, e') tt
    | inr e' ↦ elim (credentials_cases net s path) [
      | inl n ↦ rw (worker_post, e, e', n) tt
      | inr (url, secret, eu, es, c) ↦
          rw (worker_post, e, e', c) (send-Outcome net s thread path body cancel url secret eu es)
    ]
  ]
]
