-- ===== src/Native/Outgoing.antt =====
-- source/shared/enil_native.c: the bytes of a request, by the arguments, the token and what the worker answers.
use enil.Common.{
  ◌>>=◌, ℕ, ◌≡◌, refl, sym, Bool, true, false, Option, none, some, List, [], ◌∷◌, ◌⊎◌, inl, inr,
  ◌==◌, if◌then◌else◌, length, Option-cases, Bool-cases, some_inj,
}
use enil.Common.Text.{Text, codes, text_eq}
use enil.Common.Json.{Json, Children, Grants, string, object, nil, snoc, fields, put}
use enil.Identity.{Identity}
use enil.Native.Services.{Services, Shape, Outgoing}
use enil.Native.Post.{token_or}
use enil.Native.Prepare.{
  json_string, append_header, common_headers, sealed_headers, sealed, to_worker, plain_request,
  seal, outgoing,
}

-- What the worker is asked to encode.
abbrev pub payload : Text → Text → Text → Json
payload endpoint base64 token = object (
    fields nil (
      (codes "path", some (string endpoint))
      ∷ (codes "body", some (string base64))
      ∷ (codes "accessToken", some (string token))
      ∷ []))

-- The token of the login if it has one, and the one of the call else.
abbrev pub IsUsed : Option Text → Text → Text → Type 0
IsUsed t token used = (t ≡ some used) ⊎ ((t ≡ none) × (used ≡ token))

pub token_or-IsUsed :
    (on : Services) (t : Option Text) (token : Text) → IsUsed t token (token_or on t token)
token_or-IsUsed on none token = inr (refl, refl)
token_or-IsUsed on (some t) token = inl refl

module _ (on : Services) where
  -- In the clear: the bytes, with the token in a header if there is one.
  abbrev pub IsPlain : Identity → Shape → Text → List ℕ → Outgoing → Type 0
  IsPlain i s token bytes out =
      (s.encrypted ≡ false)
      × (out ≡ record {
        request = record {
          url =
              if text_eq s.method (codes "refresh")
              then codes "https://legy.line-apps.com/EXT/auth/tokenrefresh/v1"
              else codes "https://legy.line-apps.com/TSHOP4";
          headers =
              common_headers on i (
                if length token == 0
                then []
                else append_header on [] (codes "X-Line-Access") token);
          content = bytes;
        };
        key = none;
      })

  -- Through the worker: what it answers for the bytes, the endpoint and the token, unless the caller
  -- has cancelled.
  abbrev pub IsSealed : Identity → Shape → Text → Bool → List ℕ → Outgoing → Type 0
  IsSealed i s token later bytes out =
      (base64 : Text) × (body : Text) × (key : Text) × (lcs : Text) × (wire : List ℕ) × (s.encrypted
        ≡ true)
      × (later ≡ false)
      × (on.b64_encode bytes ≡ some base64)
      × (let answer =
            on.worker_decrypt_ex (codes "/transport/legy/encode")
              (payload s.endpoint base64 token) in
          (json_string on answer (codes "body") ≡ some body)
          × (json_string on answer (codes "key") ≡ some key)
          × (json_string on answer (codes "xLcs") ≡ some lcs))
      × (on.b64_decode_alloc body ≡ some wire)
      × (out ≡ record {
        request = record {
          url = codes "https://gf.line.naver.jp/enc";
          headers = common_headers on i (sealed_headers on lcs);
          content = wire;
        };
        key = some key;
      })

  -- The encoded arguments, in the clear or through the worker.
  abbrev pub Carries : Identity → Shape → Text → Bool → Outgoing → Type 0
  Carries i s token later out =
      (bytes : List ℕ) × (on.thrift_encode s.method s.args ≡ some bytes)
      × (IsPlain i s token bytes out ⊎ IsSealed i s token later bytes out)

  sealed_inv :
      (i : Identity) (later : Bool) (answer : Option Json) (out : Outgoing)
      → sealed on i later answer ≡ some out
      → (body : Text) × (key : Text) × (lcs : Text) × (wire : List ℕ) × (later ≡ false)
        × (json_string on answer (codes "body") ≡ some body)
        × (json_string on answer (codes "key") ≡ some key)
        × (json_string on answer (codes "xLcs") ≡ some lcs)
        × (on.b64_decode_alloc body ≡ some wire)
        × (out ≡ record {
          request = record {
            url = codes "https://gf.line.naver.jp/enc";
            headers = common_headers on i (sealed_headers on lcs);
            content = wire;
          };
          key = some key;
        })
  unfolding sealed
  sealed_inv i true answer out h = absurd (cc h)
  sealed_inv i false answer out h = elim (Option-cases (json_string on answer (codes "body"))) [
    | inl n ↦ absurd (cc (rw (n, sealed, ◌>>=◌) at h))
    | inr (body, eb) ↦ elim (Option-cases (json_string on answer (codes "key"))) [
      | inl n ↦ absurd (cc (rw (eb, n, sealed, ◌>>=◌) at h))
      | inr (key, ek) ↦ elim (Option-cases (json_string on answer (codes "xLcs"))) [
        | inl n ↦ absurd (cc (rw (eb, ek, n, sealed, ◌>>=◌) at h))
        | inr (lcs, el) ↦ elim (Option-cases (on.b64_decode_alloc body)) [
          | inl n ↦ absurd (cc (rw (eb, ek, el, n, sealed, ◌>>=◌) at h))
          | inr (wire, ew) ↦
              let whole = rw (eb, ek, el, ew, sealed, ◌>>=◌) at h in
              (body, key, lcs, wire, refl, eb, ek, el, ew, sym (some_inj whole))
        ]
      ]
    ]
  ]

  module _ (memory : Grants on.cjson) where
    put_string :
        (kids : Children) (k t : Text)
        → put on.cjson (object kids) k (on.cjson.create (string t))
          ≡ object (snoc kids k (string t))
    put_string kids k t = rw (memory.creates (string t), memory.adds kids k (string t), put) refl

    to_worker-payload :
        (endpoint base64 token : Text)
        → to_worker on endpoint base64 token (object nil) ≡ payload endpoint base64 token
    to_worker-payload endpoint base64 token =
        rw
          (
            put_string nil (codes "path") endpoint,
            put_string _ (codes "body") base64,
            put_string _ (codes "accessToken") token,
          )
          refl

    seal_inv :
        (i : Identity) (s : Shape) (token : Text) (later : Bool) (bytes : List ℕ) (out : Outgoing)
        → s.encrypted ≡ true
        → seal on i s token later bytes ≡ some out
        → IsSealed i s token later bytes out
    unfolding seal
    seal_inv i s token later bytes out enc h = elim (Option-cases (on.b64_encode bytes)) [
      | inl n ↦ absurd (cc (rw (n, seal, ◌>>=◌) at h))
      | inr (base64, e) ↦
          let (body, key, lcs, wire, l, eb, ek, el, ew, o) =
            sealed_inv i later
              (on.worker_decrypt_ex (codes "/transport/legy/encode")
                (payload s.endpoint base64 token))
              out
              (rw
                (
                  e,
                  memory.creates (object nil),
                  to_worker-payload s.endpoint base64 token,
                  seal,
                  ◌>>=◌,
                )
                at h) in
          (base64, body, key, lcs, wire, enc, l, e, (eb, ek, el), ew, o)
    ]

    pub outgoing-Carries :
        (i : Identity) (s : Shape) (token : Text) (later : Bool) (out : Outgoing)
        → outgoing on i s token later ≡ some out
        → Carries i s token later out
    unfolding outgoing plain_request
    outgoing-Carries i s token later out h =
        elim (Option-cases (on.thrift_encode s.method s.args)) [
          | inl n ↦ absurd (cc (rw (n, outgoing) at h))
          | inr (bytes, e) ↦ elim (Bool-cases s.encrypted) [
            | inl enc ↦ (
              bytes,
              e,
              inr (seal_inv i s token later bytes out enc (rw (e, enc, outgoing) at h)),
            )
            | inr clear ↦ (
              bytes,
              e,
              inl (clear, sym (some_inj (rw (e, clear, outgoing, plain_request) at h))),
            )
          ]
        ]
