-- ===== src/Worker/Calls.antt =====
-- source/shared/enil_worker.c: the operations that the worker offers, each a JSON request and its reply.
-- An `out` parameter that is NULL, and a parameter record that is NULL, only return 0 and are left out.
use enil.Common.{ℕ, [], ◌∷◌, Bool, true, false, Option, none, some}
use enil.Common.Int.{ℤ}
use enil.Common.Text.{Text, codes}
use enil.Common.Json.{Json, Cjson, Numbers, object, string, number, nil}
use enil.ApiJson.{copied}
use enil.Worker.{Client, Net, worker_post}

-- What the operations call besides libcurl; `to_int` is the conversion `(int)` of a double.
pub record Tools : Type 0 where
  pub net : Net
  pub cjson : Cjson
  pub numbers : Numbers
  pub to_int : ℕ → ℤ

pub record EncryptResult : Type 0 where
  pub ciphertext : Option Text
  pub worker_restore_state : Option Text

pub record EncryptUserParams : Type 0 where
  pub worker_restore_state : Option Text
  pub private_key : Option Text
  pub private_key_id : ℤ
  pub peer_mid : Option Text
  pub peer_public_key : Option Text
  pub peer_key_id : ℤ
  pub from_mid : Option Text
  pub to_mid : Option Text
  pub sender_key_id : ℤ
  pub content_type : ℤ
  pub sequence_number : ℤ
  pub plaintext : Option Text

pub record EncryptGroupParams : Type 0 where
  pub worker_restore_state : Option Text
  pub group_mid : Option Text
  pub group_key : Option Json
  pub my_private_key : Option Text
  pub my_private_key_id : ℤ
  pub sender_mid : Option Text
  pub sender_key_id : ℤ
  pub group_key_id : ℤ
  pub creator_public_key : Option Text
  pub sender_public_key : Option Text
  pub from_mid : Option Text
  pub to_mid : Option Text
  pub content_type : ℤ
  pub sequence_number : ℤ
  pub plaintext : Option Text

pub record KeygenResult : Type 0 where
  pub key_id : ℤ
  pub public_key : Option Text
  pub worker_restore_state : Option Text

-- `ENILWorkerUnwrapResult` and `ENILWorkerCreateGroupKeyResult`: an array of keys.
pub record KeysResult : Type 0 where
  pub keys : Option Json
  pub worker_restore_state : Option Text

abbrev pub or_empty : Option Text → Option Text
or_empty none = some (codes "")
or_empty (some s) = some s

module _ (tools : Tools) where
  -- `cJSON_AddItemToObject`, whose result nobody looks at.
  abbrev pub add : Json → Text → Option Json → Json
  add req key none = req
  add req key (some item) = elim (tools.cjson.add_item_to_object req key item) [
    | none ↦ req
    | some req' ↦ req'
  ]

  -- `cJSON_AddStringToObject`, which adds nothing for NULL.
  abbrev pub add_string : Json → Text → Option Text → Json
  add_string req key none = req
  add_string req key (some s) = add req key (tools.cjson.create (string s))

  abbrev pub add_number : Json → Text → ℤ → Json
  add_number req key n = add req key (tools.cjson.create (number (tools.numbers.of_i64 n)))

  unfoldable pub parse_restore_state : Option Text → Option Json
  parse_restore_state none = tools.cjson.create (object nil)
  parse_restore_state (some []) = tools.cjson.create (object nil)
  parse_restore_state (some (c ∷ s)) = tools.cjson.parse (c ∷ s)

  -- The first lines of every operation that passes the restore state on.
  unfoldable pub start_request : Option Text → Option Json
  unfolding parse_restore_state
  start_request state = elim (tools.cjson.create (object nil)) [
    | none ↦ none
    | some req ↦ elim (parse_restore_state state) [
      | none ↦ none
      | some restore ↦ some (add req (codes "workerRestoreState") (some restore))
    ]
  ]

  abbrev pub parsed : Client × Option Text → Client × Option Json
  parsed (s, none) = (s, none)
  parsed (s, some t) = (s, tools.cjson.parse t)

  unfoldable pub worker_call : Client → ℕ → Text → Json → Client × Option Json
  worker_call s thread path req = elim (tools.cjson.print_unformatted req) [
    | none ↦ (s, none)
    | some body ↦ parsed (worker_post tools.net s thread path body none)
  ]

  -- `worker_call` with the request that was made, unless memory was out.
  unfoldable pub call_with : Client → ℕ → Text → Option Json → Client × Option Json
  unfolding worker_call
  call_with s thread path none = (s, none)
  call_with s thread path (some req) = worker_call s thread path req

  abbrev pub print_item : Option Json → Option Text
  print_item none = none
  print_item (some item) = tools.cjson.print_unformatted item

  unfoldable pub worker_take_restore_state : Json → Option Text
  worker_take_restore_state resp =
      print_item (tools.cjson.get_object_item resp (codes "workerRestoreState"))

  -- The two copies, both or neither.
  abbrev pub both_texts : Option Text → Option Text → EncryptResult × Bool
  both_texts (some c) (some r) =
      (record { ciphertext = some c; worker_restore_state = some r }, true)
  both_texts _ _ = (record { ciphertext = none; worker_restore_state = none }, false)

  abbrev pub extract_with : Option Json → Option Json → EncryptResult → EncryptResult × Bool
  extract_with (some (string cipher)) (some item) out =
      both_texts (copied tools.net.grants cipher) (tools.cjson.print_unformatted item)
  extract_with _ _ out = (out, false)

  unfoldable pub extract_encrypt_result : Json → EncryptResult → EncryptResult × Bool
  extract_encrypt_result resp out =
      extract_with (tools.cjson.get_object_item resp (codes "ciphertext"))
        (tools.cjson.get_object_item resp (codes "workerRestoreState")) out

  abbrev pub encrypt_answer : Client × Option Json → EncryptResult → Client × EncryptResult × Bool
  encrypt_answer (s, none) out = (s, out, false)
  encrypt_answer (s, some resp) out =
      let (out', ok) = extract_encrypt_result resp out in (s, out', ok)

  abbrev pub user_fields : Json → EncryptUserParams → Json
  user_fields r p =
      let r1 = add_string r (codes "privateKey") p.private_key in
      let r2 = add_number r1 (codes "privateKeyId") p.private_key_id in
      let r3 = add_string r2 (codes "peerMid") (or_empty p.peer_mid) in
      let r4 = add_string r3 (codes "peerPublicKey") p.peer_public_key in
      let r5 = add_number r4 (codes "peerKeyId") p.peer_key_id in
      let r6 = add_string r5 (codes "to") p.to_mid in
      let r7 = add_string r6 (codes "from") p.from_mid in
      let r8 = add_number r7 (codes "senderKeyId") p.sender_key_id in
      let r9 = add_number r8 (codes "receiverKeyId") p.peer_key_id in
      let r10 = add_number r9 (codes "contentType") p.content_type in
      let r11 = add_number r10 (codes "sequenceNumber") p.sequence_number in
      add_string r11 (codes "plaintext") p.plaintext

  unfoldable pub user_request : EncryptUserParams → Option Json
  unfolding start_request
  user_request p = elim (start_request p.worker_restore_state) [
    | none ↦ none
    | some req ↦ some (user_fields req p)
  ]

  unfoldable pub enil_worker_encrypt_user :
      Client → ℕ → EncryptUserParams → EncryptResult → Client × EncryptResult × Bool
  unfolding call_with user_request extract_encrypt_result
  enil_worker_encrypt_user s thread p out =
      encrypt_answer (call_with s thread (codes "/e2ee/encrypt-user-v2") (user_request p)) out

  abbrev group_fields : Json → EncryptGroupParams → Json
  group_fields r p =
      let r1 = add_string r (codes "myPrivateKey") p.my_private_key in
      let r2 = add_number r1 (codes "myPrivateKeyId") p.my_private_key_id in
      let r3 = add_string r2 (codes "senderMid") p.sender_mid in
      let r4 = add_number r3 (codes "senderKeyId") p.sender_key_id in
      let r5 = add_number r4 (codes "groupKeyId") p.group_key_id in
      let r6 = add_string r5 (codes "creatorPublicKey") p.creator_public_key in
      let r7 = add_string r6 (codes "senderPublicKey") p.sender_public_key in
      let r8 = add_string r7 (codes "to") p.to_mid in
      let r9 = add_string r8 (codes "from") p.from_mid in
      let r10 = add_number r9 (codes "contentType") p.content_type in
      let r11 = add_number r10 (codes "sequenceNumber") p.sequence_number in
      add_string r11 (codes "plaintext") p.plaintext

  -- The request once the restore state is in: the group, a copy of its key, and the rest.
  abbrev group_body : Json → Json → EncryptGroupParams → Option Json
  group_body r key p =
      let r1 = add_string r (codes "groupMid") p.group_mid in
      elim (tools.cjson.duplicate key) [
        | none ↦ none
        | some copy ↦ some (group_fields (add r1 (codes "groupKey") (some copy)) p)
      ]

  unfoldable pub group_request : Json → EncryptGroupParams → Option Json
  unfolding start_request
  group_request key p = elim (start_request p.worker_restore_state) [
    | none ↦ none
    | some req ↦ group_body req key p
  ]

  abbrev encrypt_group_with :
      Client → ℕ → EncryptGroupParams → Option Json → EncryptResult → Client × EncryptResult × Bool
  encrypt_group_with s thread p none out = (s, out, false)
  encrypt_group_with s thread p (some key) out =
      encrypt_answer (call_with s thread (codes "/e2ee/encrypt-group-v2") (group_request key p)) out

  unfoldable pub enil_worker_encrypt_group :
      Client → ℕ → EncryptGroupParams → EncryptResult → Client × EncryptResult × Bool
  unfolding call_with group_request extract_encrypt_result
  enil_worker_encrypt_group s thread p out = encrypt_group_with s thread p p.group_key out
