-- ===== src/Refresh/Runs.antt =====
-- source/shared/enil_line.c: a refresh that ends when the session is saved and its journal is still there, and the
-- theorems at it.
use enil.Common.{◌≡◌, refl, true, false, none, some, [], get_elem?}
use enil.Common.Int.{pos}
use enil.Common.Text.{codes, text_eq}
use enil.Common.Json.{Cjson, string, object, nil, node}
use enil.Common.Samples.{sample_cjson, sample_numbers}
use enil.ApiJson.{
  enil_json_dup_string, enil_json_dup_string_opt, enil_json_get_int64, enil_json_coerce_int64,
}
use enil.Refresh.{
  Session, Journal, Issued, Env, Call, World, Disc, issued_part, talk_token_v3_issue_result_parse,
  session_apply_token_v3, recover_refresh,
}
use enil.Refresh.Locked.{token_refresh_locked, journal_for}
use enil.Refresh.Silent.{token_refresh-silent}

-- Every reply reads as these tokens.
abbrev reply_cjson : Cjson
reply_cjson = record sample_cjson {
  parse = λ t. some (
      object (
        node (codes "data")
          (object (
            node (codes "accessToken") (string (codes "a2"))
              (node (codes "refreshToken") (string (codes "r2")) nil)))
          nil));
}

-- A session file is the session that it holds.
abbrev plain_env : Env
plain_env = record {
  cjson = reply_cjson;
  numbers = sample_numbers;
  grants = λ n. true;
  to_int = λ d. pos d;
  File = Session;
  load = λ f. some f;
  save = λ f s. s;
  with_login_id = λ f. (f, true);
}

abbrev old_session : Session
old_session = record {
  login_id = some (codes "1");
  access_token = some (codes "a1");
  refresh_token = some (codes "r1");
  refresh_journal_id = none;
  duration_until_refresh_in_sec = pos 0;
  token_issue_time_epoch_sec = pos 0;
  refresh_api_retry_policy = none;
}

abbrev begin : World plain_env
begin = record {
  disc = record { file = old_session; journal = none; retired = [] };
  history = [];
  sent = [];
  health = record {
    worker_failed = false;
    line_failed = λ h. false;
    bound = λ t. none;
    posts = [];
  };
}

-- The new session is renamed over the old one, and the directory is not synchronised.
abbrev ends_early : Call
ends_early = record {
  thread = 1;
  binds = true;
  path_fits = true;
  is_enoent = true;
  makes_retired = true;
  renames_retired = true;
  syncs_retired = true;
  new_id = some (codes "7");
  post = λ request access. record { status = 200; body = some (codes "reply") };
  builds_journal = true;
  renames_journal = true;
  syncs_journal = true;
  renames_session = true;
  syncs_session = false;
  unlinks = true;
}

abbrev tokens : Issued
tokens = record {
  access_token = codes "a2";
  refresh_token = some (codes "r2");
  login_session_id = none;
  duration_until_refresh_in_sec = pos 0;
  token_issue_time_epoch_sec = pos 0;
  raw = some (
      object (
        node (codes "accessToken") (string (codes "a2"))
          (node (codes "refreshToken") (string (codes "r2")) nil)));
}

reads_tokens :
    talk_token_v3_issue_result_parse plain_env (issued_part plain_env (codes "reply")) ≡ some tokens
unfolding talk_token_v3_issue_result_parse enil_json_dup_string enil_json_dup_string_opt
    enil_json_get_int64 enil_json_coerce_int64 text_eq
reads_tokens = refl

abbrev left_journal : Journal
left_journal = journal_for plain_env old_session (codes "reply") (codes "7")

abbrev left_disc : Disc plain_env
left_disc = record {
  file = record (session_apply_token_v3 plain_env old_session tokens) {
    refresh_journal_id = some (codes "7");
  };
  journal = some left_journal;
  retired = [];
}

-- What the early end leaves.
leaves : get_elem? (token_refresh_locked plain_env ends_early begin).0.history 0 ≡ some left_disc
unfolding token_refresh_locked recover_refresh talk_token_v3_issue_result_parse enil_json_dup_string
    enil_json_dup_string_opt enil_json_get_int64 enil_json_coerce_int64 session_apply_token_v3
    text_eq
leaves = refl

-- A reply that was stored, and a session that was not saved.
abbrev stored_world : World plain_env
stored_world = record begin {
  disc = record { file = old_session; journal = some left_journal; retired = [] };
}

token_refresh-silent_example :
    (token_refresh_locked plain_env ends_early stored_world).0.sent ≡ stored_world.sent
unfolding text_eq
token_refresh-silent_example =
    token_refresh-silent plain_env ends_early stored_world old_session left_journal refl refl refl
      refl
