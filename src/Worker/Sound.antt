-- ===== src/Worker/Sound.antt =====
-- source/shared/enil_worker.c: a result of an operation stems from the worker's reply to its request.
use enil.Common.{
  sym, [], ◌∷◌, some_inj, ℕ, ◌+◌, ◌≡◌, refl, ap, ◌∙◌, Bool, true, false, Option, none, some, length,
  Bool-cases, Option-cases, inl, inr, ◌⊎◌, arith,
}
use mathlib.Core.Path.{subst}
use enil.Common.Int.{ℤ}
use enil.Common.Text.{Text, codes}
use enil.Common.Json.{
  Json, string, null, bool, number, array, object, Children, Grants, nil, node, snoc, extend,
  fields,
}
use enil.ApiJson.{copied, text_of, enil_json_dup_string}
use enil.Worker.{Client, worker_post}
use enil.Worker.Answers.{Answered, Outcome, worker_post-Outcome}
use enil.Worker.Calls.{
  Tools, add, add_string, add_number, start_request, parse_restore_state, user_fields, or_empty,
  EncryptUserParams, EncryptResult, worker_call, call_with, parsed, user_request,
  extract_encrypt_result, encrypt_answer, extract_with, print_item, enil_worker_encrypt_user,
  worker_take_restore_state,
}
use enil.Worker.Keys.{sign_request, enil_worker_sign, sign_answer}

-- The printed request was sent to `path`, and the reply was read as `resp`.
abbrev pub Replied : Tools → Client → Text → Json → Client → Json → Type 0
Replied tools s path req s' resp =
    (body : Text) × (content : Text) × (tools.cjson.print_unformatted req ≡ some body)
    × Answered s path body s' content
    × (tools.cjson.parse content ≡ some resp)

abbrev pub CallOutcome : Tools → Client → Text → Json → Client × Option Json → Type 0
CallOutcome tools s path req (s', none) = Unit
CallOutcome tools s path req (s', some resp) = Replied tools s path req s' resp

parsed-Outcome :
    (tools : Tools) (s : Client) (path : Text) (req : Json) (body : Text)
    → (r : Client × Option Text) → tools.cjson.print_unformatted req ≡ some body
    → Outcome s path body r
    → CallOutcome tools s path req (parsed tools r)
parsed-Outcome tools s path req body (s', none) e a = tt
parsed-Outcome tools s path req body (s', some t) e a = elim (Option-cases (tools.cjson.parse t)) [
  | inl n ↦ rw (n) tt
  | inr (resp, p) ↦ rw (p) (body, t, e, a, p)
]

worker_call-Outcome :
    (tools : Tools) (s : Client) (thread : ℕ) (path : Text) (req : Json)
    → CallOutcome tools s path req (worker_call tools s thread path req)
unfolding worker_call
worker_call-Outcome tools s thread path req =
    elim (Option-cases (tools.cjson.print_unformatted req)) [
      | inl n ↦ rw (worker_call, n) tt
      | inr (body, e) ↦
          rw (worker_call, e)
            (parsed-Outcome tools s path req body (worker_post tools.net s thread path body none) e
              (worker_post-Outcome tools.net s thread path body none))
    ]

abbrev pub text_item : Option Text → Option Json
text_item none = none
text_item (some t) = some (string t)

-- The request that is signed.
abbrev pub signed_fields : Text → Text → Text → Children
signed_fields path body token = fields nil (
    (codes "path", some (string path))
    ∷ (codes "body", some (string body))
    ∷ (codes "accessToken", some (string token))
    ∷ [])

module _ (tools : Tools) (memory : Grants tools.cjson) where
  added :
      (kids : Children) (k : Text) (v : Json)
      → add tools (object kids) k (some v) ≡ object (snoc kids k v)
  added kids k v = rw (memory.adds kids k v, add) refl

  string_added :
      (kids : Children) (k : Text) (o : Option Text)
      → add_string tools (object kids) k o ≡ object (extend kids k (text_item o))
  string_added kids k none = refl
  string_added kids k (some t) =
      rw (memory.creates (string t), add_string) (added kids k (string t))

  number_added :
      (kids : Children) (k : Text) (n : ℤ)
      → add_number tools (object kids) k n ≡ object (snoc kids k (number (tools.numbers.of_i64 n)))
  number_added kids k n =
      rw (memory.creates (number (tools.numbers.of_i64 n)), add_number)
        (added kids k (number (tools.numbers.of_i64 n)))

  sign_request-fields :
      (path body token : Text)
      → sign_request tools path body token ≡ some (object (signed_fields path body token))
  unfolding sign_request
  sign_request-fields path body token =
      rw
        (
          sign_request,
          memory.creates (object nil),
          string_added nil (codes "path") (some path),
          string_added _ (codes "body") (some body),
          string_added _ (codes "accessToken") (some token),
        )
        refl

-- What `enil_worker_sign` comes to.
abbrev pub Signed : Tools → Client → Text → Text → Text → Client × Option Text → Type 0
Signed tools s path body token (s', none) = Unit
Signed tools s path body token (s', some hmac) =
    (resp : Json) × Replied tools s (codes "/sign") (object (signed_fields path body token)) s' resp
    × (tools.cjson.get_object_item_case_sensitive resp (codes "hmac") ≡ some (string hmac))

text_of-string :
    (grants : ℕ → Bool) (item : Option Json) (t : Text)
    → text_of grants item ≡ some t
    → item ≡ some (string t)
text_of-string grants none t e = absurd cc
text_of-string grants (some null) t e = absurd cc
text_of-string grants (some (bool b)) t e = absurd cc
text_of-string grants (some (number n)) t e = absurd cc
text_of-string grants (some (array kids)) t e = absurd cc
text_of-string grants (some (object kids)) t e = absurd cc
text_of-string grants (some (string u)) t e = elim (Bool-cases (grants (length u + 1))) [
  | inl g ↦ ground (arith, e, g)
  | inr g ↦ ground (arith, e, g)
]

sign_answer-Signed :
    (tools : Tools) (s : Client) (path body token : Text) (req : Json) (r : Client × Option Json)
    → req ≡ object (signed_fields path body token)
    → CallOutcome tools s (codes "/sign") req r
    → Signed tools s path body token (sign_answer tools r)
unfolding enil_json_dup_string
sign_answer-Signed tools s path body token req (s', none) e o = tt
sign_answer-Signed tools s path body token req (s', some resp) e o =
    elim (Option-cases (enil_json_dup_string tools.cjson tools.net.grants resp (codes "hmac"))) [
      | inl n ↦ rw (n) tt
      | inr (hmac, h) ↦ rw (h) (
        resp,
        subst (λ q. Replied tools s (codes "/sign") q s' resp) e o,
        text_of-string tools.net.grants _ hmac h,
      )
    ]

-- With memory granted to cJSON: if enil_worker_sign returns a signature, it sent one request, to
-- /sign, whose body is the print of an object of the path, the body and the access token, and
-- the signature is the text under hmac in the reply of the worker.
pub enil_worker_sign-Signed :
    (tools : Tools)
    → Grants tools.cjson
    → (s : Client) (thread : ℕ) (path body token : Text)
    → Signed tools s path body token (enil_worker_sign tools s thread path body token)
unfolding enil_worker_sign call_with
enil_worker_sign-Signed tools memory s thread path body token =
    elim (Option-cases (sign_request tools path body token)) [
      | inl n ↦ rw (enil_worker_sign, n, call_with, sign_answer) tt
      | inr (req, e) ↦
          rw (enil_worker_sign, e, call_with)
            (sign_answer-Signed tools s path body token req
              (worker_call tools s thread (codes "/sign") req)
              (some_inj (sym e ∙ sign_request-fields tools memory path body token))
              (worker_call-Outcome tools s thread (codes "/sign") req))
    ]

-- The request to encrypt for a user, with a restore state that was read.
abbrev pub user_request_fields : Tools → EncryptUserParams → Json → Children
user_request_fields tools p restore = fields nil (
    (codes "workerRestoreState", some restore)
    ∷ (codes "privateKey", text_item p.private_key)
    ∷ (codes "privateKeyId", some (number (tools.numbers.of_i64 p.private_key_id)))
    ∷ (codes "peerMid", some (string (elim p.peer_mid [ none ↦ [] | some t ↦ t ])))
    ∷ (codes "peerPublicKey", text_item p.peer_public_key)
    ∷ (codes "peerKeyId", some (number (tools.numbers.of_i64 p.peer_key_id)))
    ∷ (codes "to", text_item p.to_mid)
    ∷ (codes "from", text_item p.from_mid)
    ∷ (codes "senderKeyId", some (number (tools.numbers.of_i64 p.sender_key_id)))
    ∷ (codes "receiverKeyId", some (number (tools.numbers.of_i64 p.peer_key_id)))
    ∷ (codes "contentType", some (number (tools.numbers.of_i64 p.content_type)))
    ∷ (codes "sequenceNumber", some (number (tools.numbers.of_i64 p.sequence_number)))
    ∷ (codes "plaintext", text_item p.plaintext)
    ∷ [])

-- The restore state of a request: what its text is read as, or an empty object for no text.
abbrev pub IsRestored : Tools → Option Text → Json → Type 0
IsRestored tools none restore = restore ≡ object nil
IsRestored tools (some []) restore = restore ≡ object nil
IsRestored tools (some (c ∷ s)) restore = tools.cjson.parse (c ∷ s) ≡ some restore

module _ (tools : Tools) (memory : Grants tools.cjson) where
  restored :
      (state : Option Text) (restore : Json)
      → parse_restore_state tools state ≡ some restore
      → IsRestored tools state restore
  unfolding parse_restore_state
  restored none restore h = some_inj (sym h ∙ memory.creates (object nil))
  restored (some []) restore h = some_inj (sym h ∙ memory.creates (object nil))
  restored (some (c ∷ s)) restore h = h

  user_fields-object :
      (p : EncryptUserParams) (restore : Json)
      → user_fields tools (object (node (codes "workerRestoreState") restore nil)) p
        ≡ object (user_request_fields tools p restore)
  user_fields-object p restore =
      rw
        (
          string_added tools memory _ (codes "privateKey") p.private_key,
          number_added tools memory _ (codes "privateKeyId") p.private_key_id,
          peer_added _ p.peer_mid,
          string_added tools memory _ (codes "peerPublicKey") p.peer_public_key,
          number_added tools memory _ (codes "peerKeyId") p.peer_key_id,
          string_added tools memory _ (codes "to") p.to_mid,
          string_added tools memory _ (codes "from") p.from_mid,
          number_added tools memory _ (codes "senderKeyId") p.sender_key_id,
          number_added tools memory _ (codes "receiverKeyId") p.peer_key_id,
          number_added tools memory _ (codes "contentType") p.content_type,
          number_added tools memory _ (codes "sequenceNumber") p.sequence_number,
          string_added tools memory _ (codes "plaintext") p.plaintext,
        )
        refl
    where
      peer_added :
          (kids : Children) (mid : Option Text)
          → add_string tools (object kids) (codes "peerMid") (or_empty mid)
            ≡ object (snoc kids (codes "peerMid") (string (elim mid [ none ↦ [] | some t ↦ t ])))
      peer_added kids none = string_added tools memory kids (codes "peerMid") (some [])
      peer_added kids (some t) = string_added tools memory kids (codes "peerMid") (some t)

  user_request_inv :
      (p : EncryptUserParams) (req : Json)
      → user_request tools p ≡ some req
      → (restore : Json) × IsRestored tools p.worker_restore_state restore
        × (req ≡ object (user_request_fields tools p restore))
  unfolding user_request start_request
  user_request_inv p req h =
      elim (Option-cases (parse_restore_state tools p.worker_restore_state)) [
        | inl bad ↦
            absurd (cc (rw (user_request, start_request, memory.creates (object nil), bad) at h))
        | inr (restore, e) ↦ (
          restore,
          restored p.worker_restore_state restore e,
          some_inj (
              sym (rw (user_request, start_request, memory.creates (object nil), e) at h)
              ∙ ap (λ r. some (user_fields tools r p))
                  (added tools memory nil (codes "workerRestoreState") restore)
              ∙ ap some (user_fields-object p restore)),
        )
      ]

-- What `enil_worker_encrypt_user` comes to: on a failure the result is as it was, or emptied.
abbrev pub Encrypted :
    Tools → Client → EncryptUserParams → EncryptResult → Client × EncryptResult × Bool → Type 0
Encrypted tools s p out (s', out', false) =
    (out' ≡ out) ⊎ (out' ≡ record { ciphertext = none; worker_restore_state = none })
Encrypted tools s p out (s', out', true) =
    (restore : Json) × (resp : Json) × (cipher : Text) × (state : Text) × IsRestored tools
      p.worker_restore_state restore
    × Replied tools s (codes "/e2ee/encrypt-user-v2") (object (user_request_fields tools p restore))
        s' resp
    × (tools.cjson.get_object_item resp (codes "ciphertext") ≡ some (string cipher))
    × (worker_take_restore_state tools resp ≡ some state)
    × (out' ≡ record { ciphertext = some cipher; worker_restore_state = some state })

abbrev Asks : Tools → EncryptUserParams → Json → Type 0
Asks tools p req =
    (restore : Json) × IsRestored tools p.worker_restore_state restore
    × (req ≡ object (user_request_fields tools p restore))

-- What was extracted from the two items of a reply.
abbrev with_result : Client → EncryptResult × Bool → Client × EncryptResult × Bool
with_result s (out, ok) = (s, out, ok)

extracted-Encrypted :
    (tools : Tools) (s : Client) (p : EncryptUserParams) (out : EncryptResult) (req : Json)
    (s' : Client) (resp : Json) (c i : Option Json)
    → Asks tools p req
    → Replied tools s (codes "/e2ee/encrypt-user-v2") req s' resp
    → tools.cjson.get_object_item resp (codes "ciphertext") ≡ c
    → tools.cjson.get_object_item resp (codes "workerRestoreState") ≡ i
    → Encrypted tools s p out (with_result s' (extract_with tools c i out))
unfolding worker_take_restore_state
extracted-Encrypted tools s p out req s' resp none i e o ec ei = inl refl
extracted-Encrypted tools s p out req s' resp (some null) i e o ec ei = inl refl
extracted-Encrypted tools s p out req s' resp (some (bool b)) i e o ec ei = inl refl
extracted-Encrypted tools s p out req s' resp (some (number n)) i e o ec ei = inl refl
extracted-Encrypted tools s p out req s' resp (some (array kids)) i e o ec ei = inl refl
extracted-Encrypted tools s p out req s' resp (some (object kids)) i e o ec ei = inl refl
extracted-Encrypted tools s p out req s' resp (some (string u)) none e o ec ei = inl refl
extracted-Encrypted tools s p out req s' resp (some (string u)) (some item) e o ec ei =
    elim (Option-cases (copied tools.net.grants u)) [
      | inl n ↦ rw (n) (inr refl)
      | inr (cipher, k) ↦ elim (Option-cases (tools.cjson.print_unformatted item)) [
        | inl n ↦ rw (k, n) (inr refl)
        | inr (state, q) ↦
            rw (k, q)
              (
                e.0,
                resp,
                cipher,
                state,
                e.1,
                subst (λ q. Replied tools s (codes "/e2ee/encrypt-user-v2") q s' resp) e.2 o,
                ec ∙ text_of-string tools.net.grants (some (string u)) cipher k,
                ap (print_item tools) ei ∙ q,
                refl,
              )
      ]
    ]

encrypt_answer-Encrypted :
    (tools : Tools) (s : Client) (p : EncryptUserParams) (out : EncryptResult) (req : Json)
    (r : Client × Option Json)
    → Asks tools p req
    → CallOutcome tools s (codes "/e2ee/encrypt-user-v2") req r
    → Encrypted tools s p out (encrypt_answer tools r out)
unfolding extract_encrypt_result worker_take_restore_state
encrypt_answer-Encrypted tools s p out req (s', none) e o = inl refl
encrypt_answer-Encrypted tools s p out req (s', some resp) e o =
    extracted-Encrypted tools s p out req s' resp
      (tools.cjson.get_object_item resp (codes "ciphertext"))
      (tools.cjson.get_object_item resp (codes "workerRestoreState")) e o refl refl

-- With memory granted to cJSON: if enil_worker_encrypt_user succeeds, it sent one request, to
-- /e2ee/encrypt-user-v2, whose body is the print of an object of the restore state that was
-- read, the two keys, the ids, the numbers and the plain text of the parameters, and both the
-- ciphertext and the restore state are those of the reply; if it fails, the result is as it was
-- or has neither.
pub enil_worker_encrypt_user-Encrypted :
    (tools : Tools)
    → Grants tools.cjson
    → (s : Client) (thread : ℕ) (p : EncryptUserParams) (out : EncryptResult)
    → Encrypted tools s p out (enil_worker_encrypt_user tools s thread p out)
unfolding enil_worker_encrypt_user call_with
enil_worker_encrypt_user-Encrypted tools memory s thread p out =
    elim (Option-cases (user_request tools p)) [
      | inl n ↦ rw (enil_worker_encrypt_user, n, call_with) (inl refl)
      | inr (req, e) ↦
          rw (enil_worker_encrypt_user, e, call_with)
            (encrypt_answer-Encrypted tools s p out req
              (worker_call tools s thread (codes "/e2ee/encrypt-user-v2") req)
              (user_request_inv tools memory p req e)
              (worker_call-Outcome tools s thread (codes "/e2ee/encrypt-user-v2") req))
    ]
