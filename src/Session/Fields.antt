-- ===== src/Session/Fields.antt =====
-- source/shared/enil_session.c: the fields of session.json, read into a `session_t` and written from one.
use enil.Common.{Bool, true, false, Option, none, some}
use enil.Common.Int.{ℤ}
use enil.Common.Text.{Text, codes}
use enil.Common.Json.{Json, bool, number, string, object, nil, field, put}
use enil.ApiJson.{copied, enil_json_coerce_int64}
use enil.Identity.{Identity, enil_identity_parse, enil_identity_to_json}
use enil.Session.{Store}
use enil.Session.Partial.{PartialStore}

-- `session_t`; a text or a tree that is NULL is `none`.
pub record SessionFields : Type 0 where
  pub client_identity : Identity
  pub snapshot : Option Json
  pub certificate : Option Text
  pub e2ee_keys : Option Json
  pub e2ee_latest_key_id : ℤ
  pub e2ee_login_meta_data : Option Json
  pub e2ee_login_public_key : Option Text
  pub e2ee_version : Option Text
  pub e2ee_hash_key_chain : Option Text
  pub mid : Option Text
  pub display_name : Option Text
  pub region_code : Option Text
  pub encrypted_access_tokens : Option Json
  pub access_token : Option Text
  pub refresh_token : Option Text
  pub refresh_journal_id : Option Text
  pub duration_until_refresh_in_sec : ℤ
  pub token_issue_time_epoch_sec : ℤ
  pub req_seq : ℤ
  pub e2ee_sequence_number : ℤ
  pub worker_restore_state : Option Json
  pub refresh_api_retry_policy : Option Json
  pub last_partial_full_syncs : Option Json
  pub needs_reauth : Bool

-- `delete_any` is `cJSON_DeleteItemFromObject`, which takes a key in any case.
pub record FieldStore : Type 0 where
  pub partial : PartialStore
  pub delete_any : Json → Text → Json

module _ (f : FieldStore) where
  abbrev session_store : Store
  session_store = f.partial.store

  abbrev pub get_any : Json → Text → Option Json
  get_any root key = session_store.cjson.get_object_item root key

  abbrev pub copied_string : Option Json → Option Text
  copied_string (some (string s)) = copied session_store.grants s
  copied_string _ = none

  unfoldable pub dup_str_field : Json → Text → Option Text
  dup_str_field root key = copied_string (get_any root key)

  abbrev pub copied_tree : Option Json → Option Json
  copied_tree none = none
  copied_tree (some item) = session_store.cjson.duplicate item

  abbrev pub is_true_item : Option Json → Bool
  is_true_item (some (bool b)) = b
  is_true_item _ = false

  abbrev pub int64_field : Json → Text → ℤ
  int64_field root key = enil_json_coerce_int64 session_store.numbers (get_any root key)

  abbrev pub parse_fields : Json → Option Identity → Option Text → Option SessionFields
  parse_fields root none token = none
  parse_fields root (some identity) none = none
  parse_fields root (some identity) (some token) = some (record {
    client_identity = identity;
    snapshot = session_store.cjson.duplicate root;
    certificate = dup_str_field root (codes "certificate");
    e2ee_keys = copied_tree (get_any root (codes "e2eeKeys"));
    e2ee_latest_key_id = int64_field root (codes "e2eeLatestKeyId");
    e2ee_login_meta_data = copied_tree (get_any root (codes "e2eeLoginMetaData"));
    e2ee_login_public_key = dup_str_field root (codes "e2eeLoginPublicKey");
    e2ee_version = dup_str_field root (codes "e2eeVersion");
    e2ee_hash_key_chain = dup_str_field root (codes "e2eeHashKeyChain");
    mid = dup_str_field root (codes "mid");
    display_name = dup_str_field root (codes "displayName");
    region_code = dup_str_field root (codes "regionCode");
    encrypted_access_tokens = copied_tree (get_any root (codes "encryptedAccessTokens"));
    access_token = some token;
    refresh_token = dup_str_field root (codes "refreshToken");
    refresh_journal_id = dup_str_field root (codes "refreshJournalId");
    duration_until_refresh_in_sec = int64_field root (codes "durationUntilRefreshInSec");
    token_issue_time_epoch_sec = int64_field root (codes "tokenIssueTimeEpochSec");
    req_seq = int64_field root (codes "reqSeq");
    e2ee_sequence_number = int64_field root (codes "e2eeSequenceNumber");
    worker_restore_state = copied_tree (get_any root (codes "workerRestoreState"));
    refresh_api_retry_policy = copied_tree (get_any root (codes "refreshApiRetryPolicy"));
    last_partial_full_syncs = copied_tree (get_any root (codes "lastPartialFullSyncs"));
    needs_reauth = is_true_item (get_any root (codes "needsReauth"));
  })

  unfoldable pub enil_session_parse : Json → Option SessionFields
  unfolding dup_str_field
  enil_session_parse root =
      parse_fields root
        (enil_identity_parse session_store.cjson session_store.numbers
          (field session_store.cjson (some root) (codes "clientIdentity")))
        (dup_str_field root (codes "accessToken"))

  abbrev pub set_str_field : Json → Text → Option Text → Json
  set_str_field root key none = f.delete_any root key
  set_str_field root key (some value) =
      put session_store.cjson (f.delete_any root key) key
        (session_store.cjson.create (string value))

  abbrev pub set_i64_str_field : Json → Text → ℤ → Json
  set_i64_str_field root key value =
      put session_store.cjson (f.delete_any root key) key
        (session_store.cjson.create (string (session_store.numbers.print_lld value)))

  abbrev pub set_i64_num_field : Json → Text → ℤ → Json
  set_i64_num_field root key value =
      put session_store.cjson (f.delete_any root key) key
        (session_store.cjson.create (number (session_store.numbers.of_i64 value)))

  abbrev pub set_obj_field : Json → Text → Option Json → Json
  set_obj_field root key none = f.delete_any root key
  set_obj_field root key (some value) =
      put session_store.cjson (f.delete_any root key) key (session_store.cjson.duplicate value)

  abbrev pub reauth_flag : Json → Bool → Json
  reauth_flag root false = root
  reauth_flag root true =
      put session_store.cjson root (codes "needsReauth") (session_store.cjson.create (bool true))

  -- The fields in their order, from the snapshot with the identity.
  abbrev pub set_fields : SessionFields → Json → Json
  set_fields s root =
      let root = set_str_field root (codes "certificate") s.certificate in
      let root = set_obj_field root (codes "e2eeKeys") s.e2ee_keys in
      let root = set_i64_num_field root (codes "e2eeLatestKeyId") s.e2ee_latest_key_id in
      let root = set_obj_field root (codes "e2eeLoginMetaData") s.e2ee_login_meta_data in
      let root = set_str_field root (codes "e2eeLoginPublicKey") s.e2ee_login_public_key in
      let root = set_str_field root (codes "e2eeVersion") s.e2ee_version in
      let root = set_str_field root (codes "e2eeHashKeyChain") s.e2ee_hash_key_chain in
      let root = set_str_field root (codes "mid") s.mid in
      let root = set_str_field root (codes "displayName") s.display_name in
      let root = set_str_field root (codes "regionCode") s.region_code in
      let root = set_obj_field root (codes "encryptedAccessTokens") s.encrypted_access_tokens in
      let root = set_str_field root (codes "accessToken") s.access_token in
      let root = set_str_field root (codes "refreshToken") s.refresh_token in
      let root = set_str_field root (codes "refreshJournalId") s.refresh_journal_id in
      let root =
        set_i64_str_field root (codes "durationUntilRefreshInSec")
          s.duration_until_refresh_in_sec in
      let root =
        set_i64_str_field root (codes "tokenIssueTimeEpochSec") s.token_issue_time_epoch_sec in
      let root = set_i64_num_field root (codes "reqSeq") s.req_seq in
      let root = set_i64_num_field root (codes "e2eeSequenceNumber") s.e2ee_sequence_number in
      let root = set_obj_field root (codes "workerRestoreState") s.worker_restore_state in
      let root = set_obj_field root (codes "refreshApiRetryPolicy") s.refresh_api_retry_policy in
      let root = set_obj_field root (codes "lastPartialFullSyncs") s.last_partial_full_syncs in
      reauth_flag (f.delete_any root (codes "needsReauth")) s.needs_reauth

  abbrev pub base_object : Option Json → Option Json
  base_object none = session_store.cjson.create (object nil)
  base_object (some snapshot) = session_store.cjson.duplicate snapshot

  abbrev pub identity_set : SessionFields → Option Json → Option Json → Option Json
  identity_set s (some root) (some identity) = some (
      set_fields s (
        put session_store.cjson (f.delete_any root (codes "clientIdentity"))
          (codes "clientIdentity") (some identity)))
  identity_set s _ _ = none

  unfoldable pub enil_session_to_json : SessionFields → Option Json
  enil_session_to_json s =
      identity_set s (base_object s.snapshot)
        (enil_identity_to_json session_store.cjson session_store.numbers s.client_identity)
