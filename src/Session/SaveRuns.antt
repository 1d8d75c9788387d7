-- ===== src/Session/SaveRuns.antt =====
-- source/shared/enil_session.c: a save while the file changes, and the theorem at it.
use enil.Common.{◌≡◌, refl, true, Option, none, some}
use enil.Common.Int.{pos}
use enil.Common.Text.{Text, codes, text_eq}
use enil.Common.Json.{Json, Children, bool, string, object, nil, node}
use enil.Common.Samples.{sample_objects}
use enil.ApiJson.{enil_json_coerce_int64}
use enil.Identity.{legacy_chrome_identity, enil_identity_parse, enil_identity_to_json}
use enil.Session.{Sessions}
use enil.Session.Fields.{
  FieldStore, SessionFields, dup_str_field, enil_session_parse, enil_session_to_json,
}
use enil.Session.Save.{save_fields, drop_fields, save_json, baseline_of, enil_session_save}
use enil.Session.Merge.{SaveLaws}
use enil.Session.Acks.{map_children}
use enil.Session.Saved.{file_field, SavesFields, session_save-SavesFields}
use enil.Session.SyncRuns.{sync_store, sync_laws}
use enil.Session.Settings.{add_login_id, enil_session_login_id}
use enil.Session.Named.{IsNamed, login_id-IsNamed}

abbrev field_store : FieldStore
field_store = record { partial = sync_store; delete_any = sync_store.delete_item }

save_laws : SaveLaws sync_store
save_laws = record {
  objects = sample_objects;
  duplicate_lem = λ v. refl;
  add_lem = λ kids k v. refl;
  delete_item_lem = λ kids k. refl;
}

-- A file of the first login with this token.
abbrev file_with_token : Text → Json
file_with_token token =
    object
      (node (codes "loginId") (string (codes "1")) (node (codes "accessToken") (string token) nil))

abbrev now_sessions : Sessions
now_sessions = record {
  files = λ p. some (file_with_token (codes "t2"));
  bound = λ t. none;
  identities = λ t. none;
}

-- What was read before the token rotated, now marked.
abbrev marked_session : SessionFields
marked_session = record {
  client_identity = legacy_chrome_identity;
  snapshot = some (file_with_token (codes "t"));
  certificate = none;
  e2ee_keys = none;
  e2ee_latest_key_id = pos 0;
  e2ee_login_meta_data = none;
  e2ee_login_public_key = none;
  e2ee_version = none;
  e2ee_hash_key_chain = none;
  mid = none;
  display_name = none;
  region_code = none;
  encrypted_access_tokens = none;
  access_token = some (codes "t");
  refresh_token = none;
  refresh_journal_id = none;
  duration_until_refresh_in_sec = pos 0;
  token_issue_time_epoch_sec = pos 0;
  req_seq = pos 0;
  e2ee_sequence_number = pos 0;
  worker_restore_state = none;
  refresh_api_retry_policy = none;
  last_partial_full_syncs = none;
  needs_reauth = true;
}

abbrev next_json : Option Json
next_json = enil_session_to_json field_store marked_session

abbrev old_json : Option Json
old_json = baseline_of field_store marked_session.snapshot

next_is : next_json ≡ some (object (map_children next_json))
unfolding enil_session_to_json enil_identity_to_json
next_is = refl

old_is : old_json ≡ some (object (map_children old_json))
unfolding enil_session_to_json enil_session_parse dup_str_field enil_identity_parse
    enil_json_coerce_int64 enil_identity_to_json text_eq
old_is = refl

-- The rotated token stays, and the mark is added.
keeps_token :
    file_field sync_store
      (enil_session_save field_store now_sessions (codes "p") marked_session).0
      (codes "p")
      (codes "accessToken")
    ≡ some (string (codes "t2"))
unfolding enil_session_save save_json save_fields drop_fields enil_session_to_json
    enil_session_parse dup_str_field enil_identity_parse enil_json_coerce_int64
    enil_identity_to_json text_eq
keeps_token = refl

adds_mark :
    file_field sync_store
      (enil_session_save field_store now_sessions (codes "p") marked_session).0
      (codes "p")
      (codes "needsReauth")
    ≡ some (bool true)
unfolding enil_session_save save_json save_fields drop_fields enil_session_to_json
    enil_session_parse dup_str_field enil_identity_parse enil_json_coerce_int64
    enil_identity_to_json text_eq
adds_mark = refl

session_save-SavesFields_example :
    SavesFields sync_store now_sessions
      (codes "p")
      (object (map_children next_json))
      (object (map_children old_json))
      (enil_session_save field_store now_sessions (codes "p") marked_session)
session_save-SavesFields_example =
    session_save-SavesFields field_store save_laws now_sessions (codes "p") marked_session
      (map_children next_json) (map_children old_json) next_is old_is

-- A file of an older version has no login id.
abbrev plain_kids : Children
plain_kids = node (codes "accessToken") (string (codes "t")) nil

abbrev plain_sessions : Sessions
plain_sessions = record now_sessions { files = λ p. some (object plain_kids) }

login_id-IsNamed_example :
    IsNamed sync_store sync_laws
      (λ n. refl)
      (enil_session_login_id sync_store (some (codes "9")) plain_sessions (codes "p")).0
      (codes "p")
      (codes "9")
unfolding enil_session_login_id add_login_id text_eq
login_id-IsNamed_example =
    login_id-IsNamed sync_store sync_laws (λ n. refl) plain_sessions (codes "p") (some (codes "9"))
      (codes "9") plain_kids refl (λ h. absurd (cc h)) refl refl
