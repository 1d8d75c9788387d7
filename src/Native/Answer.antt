-- ===== src/Native/Answer.antt =====
-- source/shared/enil_native.c: what becomes of the answer of LINE.
use enil.Common.{
  ℕ, Bool, true, false, not, ◌&&◌, ◌||◌, Option, none, some, List, [], ◌==◌, if◌then◌else◌, length,
}
use enil.Common.Int.{ℤ, pos, eq_ℤ}
use enil.Common.Text.{Text, codes, text_eq}
use enil.Common.Json.{Json, Children, number, string, object, nil, node, child, put, field}
use enil.Native.Services.{Code, ok, timed_out, Transfer, Services, Outcome, Shape, Outgoing, ended}
use enil.Native.Prepare.{json_string}

-- `idle_poll_timeout` over what libcurl knows of the transfer.
unfoldable pub idle_poll_timeout : ℕ → ℕ → ℤ → Bool → Option ℕ → Bool
idle_poll_timeout request_size response_size status ready uploaded =
    (response_size == 0)
    && ((eq_ℤ status (pos 0) || eq_ℤ status (pos 200))
        && (ready && elim uploaded [ none ↦ false | some n ↦ n == request_size ]))

module _ (on : Services) where
  abbrev pub add_contact : Json → Option Text → Json → Json
  add_contact map none item = map
  add_contact map (some mid) item = elim (on.cjson.create (object nil)) [
    | none ↦ map
    | some entry ↦
        put on.cjson map mid (some (put on.cjson entry (codes "contact") (on.cjson.duplicate item)))
  ]

  -- `map`: the contacts of the list by their mids.
  unfoldable pub contact_map : Json → Children → Json
  contact_map map nil = map
  contact_map map (node k item items) =
      contact_map (add_contact map (json_string on (some item) (codes "mid")) item) items

  abbrev pub wrapped : Json → Option Json → Option Json → Json
  wrapped v none map = v
  wrapped v (some o) none = o
  wrapped v (some o) (some map) =
      put on.cjson o (codes "contacts") (some (contact_map map (child v)))

  abbrev pub in_contacts : Bool → Json → Json
  in_contacts false v = v
  in_contacts true v = wrapped v (on.cjson.create (object nil)) (on.cjson.create (object nil))

  abbrev pub printed : Option Json → Option Text
  printed none = none
  printed (some v) = on.cjson.print_unformatted v

  -- The envelope of the gateway around the result.
  abbrev pub envelope : Json → Option Json → Option Text
  envelope v none = none
  envelope v (some o) = on.cjson.print_unformatted (
      put on.cjson (put on.cjson o (codes "message") (on.cjson.create (string (codes "OK"))))
        (codes "data") (some v))

  abbrev pub detached : Option (Json × Json) → Option Json
  detached none = none
  detached (some (item, rest)) = some item

  abbrev pub may_be_empty : Text → Bool
  may_be_empty method =
      text_eq method (codes "sendChatChecked") || text_eq method (codes "sendChatRemoved")

  -- `success`, or an empty object where LINE answers nothing.
  abbrev pub success_of : Text → Json → Option Json
  success_of method reply =
      elim (detached (on.cjson.detach_item_from_object reply (codes "success"))) [
        | some v ↦ some v
        | none ↦ if may_be_empty method then on.cjson.create (object nil) else none
      ]

  -- The codes of LINE that end a session.
  abbrev pub is_rejection : Option Json → Bool
  is_rejection (some (number d)) =
      let code = on.value_int d in eq_ℤ code (pos 1) || (eq_ℤ code (pos 14) || eq_ℤ code (pos 117))
  is_rejection _ = false

  unfoldable pub on_success : Shape → ℤ → Json → Outcome
  unfolding contact_map
  on_success s status reply = elim (success_of s.method reply) [
    | none ↦ ended status
    | some v ↦ record {
      status = status;
      body = envelope (in_contacts s.contacts v) (on.cjson.create (object nil));
      failed = false;
      sent = [];
    }
  ]

  -- A reply, or an exception of LINE under `e`.
  unfoldable pub on_reply : Shape → ℤ → Option Json → Outcome
  unfolding on_success
  on_reply s status none = ended status
  on_reply s status (some reply) = elim (field on.cjson (some reply) (codes "e")) [
    | some e ↦ record {
      status = pos 400;
      body = on.cjson.print_unformatted e;
      failed = is_rejection (field on.cjson (some e) (codes "code"));
      sent = [];
    }
    | none ↦ on_success s status reply
  ]

  unfoldable pub on_bytes : Shape → ℤ → Option (List ℕ) → Outcome
  unfolding on_reply
  on_bytes s status none = ended status
  on_bytes s status (some bytes) =
      if not (text_eq s.method (codes "refresh")) && not on.kept_at_reply
      then ended status
      else on_reply s status (on.thrift_decode s.method bytes)

  abbrev pub other_status : Option Json → Option ℤ
  other_status (some (number d)) =
      if eq_ℤ (on.value_int d) (pos 200) then none else some (on.value_int d)
  other_status _ = none

  abbrev pub refuses : Text → Option Text → Bool
  refuses token none = false
  refuses token (some next) = not (on.accept_next_access token next)

  -- What the worker has made of the answer.
  unfoldable pub on_decoded : Shape → Text → ℤ → Option Json → Outcome
  unfolding on_bytes
  on_decoded s token status decoded = elim (json_string on decoded (codes "body")) [
    | none ↦ ended status
    | some body ↦ elim (other_status (field on.cjson decoded (codes "status"))) [
      | some other ↦ ended other
      | none ↦
          if not on.kept_after_decode
          then ended status
          else if refuses token (
              json_string on (field on.cjson decoded (codes "headers"))
                (codes "x-line-next-access"))
          then record (ended status) { failed = true }
          else on_bytes s status (on.b64_decode_alloc body)
    ]
  ]

  abbrev pub decode_request : Option Text → Text → Json → Json
  decode_request key base64 o =
      let o1 =
        put on.cjson o (codes "key")
          (elim key [ none ↦ none | some k ↦ on.cjson.create (string k) ]) in
      put on.cjson o1 (codes "body") (on.cjson.create (string base64))

  abbrev pub decode_with : Shape → Text → Option Text → Option Text → Option Json → Outcome
  decode_with s token key (some base64) (some o) =
      on_decoded s token (pos 200)
        (on.worker_decrypt_ex (codes "/transport/legy/decode") (decode_request key base64 o))
  decode_with s token key _ _ = ended (pos 200)

  abbrev pub finished : Code → Bool
  finished ok = true
  finished _ = false

  abbrev pub expired : Code → Bool
  expired timed_out = true
  expired _ = false

  -- What follows the transfer.
  unfoldable pub received : Shape → Text → Outgoing → Transfer → Outcome
  unfolding on_decoded on_bytes idle_poll_timeout
  received s token out t =
      if not (finished t.rc)
      then ended (
          if expired t.rc
            && (text_eq s.method (codes "sync")
                && idle_poll_timeout (length out.request.content) (length t.content) t.status
                    t.ready t.uploaded)
          then pos 204
          else t.status)
      else if not (eq_ℤ t.status (pos 200))
      then ended t.status
      else if s.encrypted
      then decode_with s token out.key (on.b64_encode t.content) (on.cjson.create (object nil))
      else on_bytes s (pos 200) (some t.content)
