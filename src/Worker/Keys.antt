-- ===== src/Worker/Keys.antt =====
-- source/shared/enil_worker.c: the operations on keys, decryption and signing. Arguments that the
-- code refuses when they are NULL are optional here.
use enil.Common.{ℕ, Bool, true, false, Option, none, some, if◌then◌else◌}
use enil.Common.Int.{ℤ, pos}
use enil.Common.Text.{Text, codes}
use enil.Common.Json.{Json, object, nil, is_array}
use enil.ApiJson.{enil_json_dup_string, enil_json_get_int}
use enil.Worker.{Client, worker_post}
use enil.Worker.Calls.{
  Tools, KeygenResult, KeysResult, add, add_string, add_number, start_request, call_with, parsed,
  worker_take_restore_state,
}

abbrev nothing : KeysResult
nothing = record { keys = none; worker_restore_state = none }

-- The result if both parts are there, and the emptied one else.
abbrev whole_keys : Option Json → Option Text → KeysResult × Bool
whole_keys (some keys) (some state) =
    (record { keys = some keys; worker_restore_state = some state }, true)
whole_keys _ _ = (nothing, false)

abbrev array_at : Option Json → Bool
array_at none = false
array_at (some item) = is_array item

abbrev with_client : Client → KeysResult × Bool → Client × KeysResult × Bool
with_client s (out, ok) = (s, out, ok)

abbrev with_key : Client → KeygenResult × Bool → Client × KeygenResult × Bool
with_key s (out, ok) = (s, out, ok)

module _ (tools : Tools) where
  -- The restore state is printed before the keys are taken out of the reply.
  abbrev detached_last : Option Text → Option (Json × Json) → KeysResult × Bool
  detached_last state none = whole_keys none state
  detached_last state (some (keys, rest)) = whole_keys (some keys) state

  unfoldable pub take_group_keys : Json → KeysResult → KeysResult × Bool
  unfolding worker_take_restore_state
  take_group_keys resp out =
      if array_at (tools.cjson.get_object_item resp (codes "encryptedKeys"))
      then detached_last (worker_take_restore_state tools resp)
          (tools.cjson.detach_item_from_object resp (codes "encryptedKeys"))
      else (out, false)

  abbrev group_key_answer : Client × Option Json → KeysResult → Client × KeysResult × Bool
  group_key_answer (s, none) out = (s, out, false)
  group_key_answer (s, some resp) out = with_client s (take_group_keys resp out)

  abbrev members_body : Json → Text → ℤ → Json → Option Json
  members_body r key key_id members =
      let r1 = add_string tools r (codes "myPrivateKey") (some key) in
      let r2 = add_number tools r1 (codes "myPrivateKeyId") key_id in
      elim (tools.cjson.duplicate members) [
        | none ↦ none
        | some copy ↦ some (add tools r2 (codes "members") (some copy))
      ]

  unfoldable pub group_key_request : Option Text → Text → ℤ → Json → Option Json
  unfolding start_request
  group_key_request state key key_id members = elim (start_request tools state) [
    | none ↦ none
    | some req ↦ members_body req key key_id members
  ]

  unfoldable pub enil_worker_create_group_key :
      Client → ℕ → Option Text → Text → ℤ → Json → KeysResult → Client × KeysResult × Bool
  unfolding group_key_request call_with take_group_keys
  enil_worker_create_group_key s thread state key key_id members out =
      group_key_answer
        (call_with tools s thread (codes "/e2ee/create-group-key")
          (group_key_request state key key_id members))
        out

  abbrev no_key : KeygenResult
  no_key = record { key_id = pos 0; public_key = none; worker_restore_state = none }

  abbrev kept_key : ℤ → Text → Option Text → KeygenResult × Bool
  kept_key id key none = (record no_key { key_id = id }, false)
  kept_key id key (some state) =
      (record { key_id = id; public_key = some key; worker_restore_state = some state }, true)

  -- A key number that came without a key stays in the result of a failure.
  abbrev take_with : Json → Option ℤ → Option Text → KeygenResult × Bool
  take_with resp none key = (no_key, false)
  take_with resp (some id) none = (record no_key { key_id = id }, false)
  take_with resp (some id) (some key) = kept_key id key (worker_take_restore_state tools resp)

  unfoldable pub take_key : Json → KeygenResult × Bool
  unfolding enil_json_get_int enil_json_dup_string worker_take_restore_state
  take_key resp =
      take_with resp (enil_json_get_int tools.cjson tools.to_int resp (codes "keyId"))
        (enil_json_dup_string tools.cjson tools.net.grants resp (codes "publicKey"))

  abbrev keygen_answer : Client × Option Json → Client × KeygenResult × Bool
  keygen_answer (s, none) = (s, no_key, false)
  keygen_answer (s, some resp) = with_key s (take_key resp)

  unfoldable pub enil_worker_keygen : Client → ℕ → Option Text → Client × KeygenResult × Bool
  unfolding start_request call_with take_key
  enil_worker_keygen s thread state =
      keygen_answer (call_with tools s thread (codes "/keygen") (start_request tools state))

  -- Here the keys are taken out first.
  abbrev detached_first : Option (Json × Json) → KeysResult × Bool
  detached_first none = (nothing, false)
  detached_first (some (keys, rest)) = whole_keys (some keys) (worker_take_restore_state tools rest)

  unfoldable pub take_chain : Json → KeysResult × Bool
  unfolding worker_take_restore_state
  take_chain resp =
      if array_at (tools.cjson.get_object_item resp (codes "keys"))
      then detached_first (tools.cjson.detach_item_from_object resp (codes "keys"))
      else (nothing, false)

  abbrev chain_answer : Client × Option Json → Client × KeysResult × Bool
  chain_answer (s, none) = (s, nothing, false)
  chain_answer (s, some resp) = with_client s (take_chain resp)

  unfoldable pub chain_request : Option Text → ℤ → Text → Text → Option Json
  unfolding start_request
  chain_request state key_id peer_key chain = elim (start_request tools state) [
    | none ↦ none
    | some r ↦
        let r1 = add_number tools r (codes "qrKeyId") key_id in
        let r2 = add_string tools r1 (codes "peerPublicKey") (some peer_key) in
        some (add_string tools r2 (codes "encryptedKeyChain") (some chain))
  ]

  unfoldable pub enil_worker_unwrap_keychain :
      Client → ℕ → Option Text → ℤ → Text → Text → Client × KeysResult × Bool
  unfolding chain_request call_with take_chain
  enil_worker_unwrap_keychain s thread state key_id peer_key chain = chain_answer (
      call_with tools s thread (codes "/e2ee/unwrap-keychain")
        (chain_request state key_id peer_key chain))

  unfoldable pub enil_worker_decrypt_ex :
      Client → ℕ → Text → Json → Option Bool → Client × Option Json
  enil_worker_decrypt_ex s thread path payload cancel =
      elim (tools.cjson.print_unformatted payload) [
        | none ↦ (s, none)
        | some body ↦ parsed tools (worker_post tools.net s thread path body cancel)
      ]

  unfoldable pub enil_worker_decrypt : Client → ℕ → Text → Json → Client × Option Json
  unfolding enil_worker_decrypt_ex
  enil_worker_decrypt s thread path payload = enil_worker_decrypt_ex s thread path payload none

  unfoldable pub sign_request : Text → Text → Text → Option Json
  sign_request path body token = elim (tools.cjson.create (object nil)) [
    | none ↦ none
    | some r ↦
        let r1 = add_string tools r (codes "path") (some path) in
        let r2 = add_string tools r1 (codes "body") (some body) in
        some (add_string tools r2 (codes "accessToken") (some token))
  ]

  abbrev pub sign_answer : Client × Option Json → Client × Option Text
  sign_answer (s, none) = (s, none)
  sign_answer (s, some resp) =
      (s, enil_json_dup_string tools.cjson tools.net.grants resp (codes "hmac"))

  unfoldable pub enil_worker_sign : Client → ℕ → Text → Text → Text → Client × Option Text
  unfolding sign_request call_with enil_json_dup_string
  enil_worker_sign s thread path body token =
      sign_answer (call_with tools s thread (codes "/sign") (sign_request path body token))
