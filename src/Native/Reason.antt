-- ===== src/Native/Reason.antt =====
-- source/shared/enil_native.c: why a request reports a failure of LINE, by what came as its answer.
use enil.Common.{
  ap, ◌==◌, ℕ, ◌≡◌, refl, true, false, ◌||◌, Option, none, some, List, ◌⊎◌, inl, inr, Bool-cases,
  arith,
}
use enil.Common.Int.{ℤ, pos, negsuc, eq_ℤ}
use enil.Common.Text.{Text, codes}
use enil.Common.Json.{Json, field, null, bool, number, string, array, object, nil}
use enil.Native.Services.{Transfer, Services, Outcome, Shape, Outgoing}
use enil.Native.Prepare.{json_string}
use enil.Native.Answer.{is_rejection, decode_request}

module _ (on : Services) where
  -- What the worker made of the bytes that came.
  abbrev pub IsDecoded : Outgoing → Transfer → Option Json → Type 0
  IsDecoded out t decoded =
      (base64 : Text) × (request : Json) × (on.b64_encode t.content ≡ some base64)
      × (on.cjson.create (object nil) ≡ some request)
      × (decoded
          ≡ on.worker_decrypt_ex (codes "/transport/legy/decode")
              (decode_request on out.key base64 request))

  -- The bytes of the reply: those that came, or those that the worker made of them.
  abbrev pub IsReceived : Shape → Outgoing → Transfer → List ℕ → Type 0
  IsReceived s out t bytes =
      ((s.encrypted ≡ false) × (bytes ≡ t.content))
      ⊎ ((s.encrypted ≡ true)
          × ((decoded : Option Json) × (body : Text) × IsDecoded out t decoded
              × (json_string on decoded (codes "body") ≡ some body)
              × (on.b64_decode_alloc body ≡ some bytes)))

  -- The codes with which LINE ends a session.
  abbrev pub IsRejection : Option Json → Type 0
  IsRejection code =
      (d : ℕ) × (code ≡ some (number d))
      × ((on.value_int d ≡ pos 1) ⊎ (on.value_int d ≡ pos 14) ⊎ (on.value_int d ≡ pos 117))

  -- Why a failure of LINE was reported before the label `done`: the exception in the reply, or the next
  -- token in the headers that the worker made of it.
  abbrev pub Reason : Shape → Outgoing → Transfer → Text → Outcome → Type 0
  Reason s out t token o =
      ((bytes : List ℕ) × (reply : Json) × (e : Json) × IsReceived s out t bytes
        × (on.thrift_decode s.method bytes ≡ some reply)
        × (field on.cjson (some reply) (codes "e") ≡ some e)
        × (o.status ≡ pos 400)
        × IsRejection (field on.cjson (some e) (codes "code")))
      ⊎ ((decoded : Option Json) × (next : Text) × IsDecoded out t decoded
          × (json_string on (field on.cjson decoded (codes "headers")) (codes "x-line-next-access")
              ≡ some next)
          × (on.accept_next_access token next ≡ false))

  pub is_rejection-IsRejection :
      (code : Option Json) → is_rejection on code ≡ true → IsRejection code
  is_rejection-IsRejection none h = absurd (cc h)
  is_rejection-IsRejection (some null) h = absurd (cc h)
  is_rejection-IsRejection (some (bool b)) h = absurd (cc h)
  is_rejection-IsRejection (some (string b)) h = absurd (cc h)
  is_rejection-IsRejection (some (array b)) h = absurd (cc h)
  is_rejection-IsRejection (some (object b)) h = absurd (cc h)
  is_rejection-IsRejection (some (number d)) h = (d, refl, among (on.value_int d) h)
    where
      among :
          (v : ℤ)
          → (eq_ℤ v (pos 1) || (eq_ℤ v (pos 14) || eq_ℤ v (pos 117))) ≡ true
          → (v ≡ pos 1) ⊎ (v ≡ pos 14) ⊎ (v ≡ pos 117)
      among (negsuc n) h = absurd (cc h)
      among (pos n) h = elim (Bool-cases (n == 1)) [
        | inl one ↦ inl (ap pos (ground (arith, one)))
        | inr other ↦ elim (Bool-cases (n == 14)) [
          | inl two ↦ inr (inl (ap pos (ground (arith, two))))
          | inr another ↦ inr (inr (ap pos (ground (arith, h, other, another))))
        ]
      ]
