-- ===== src/Refresh.antt =====
-- source/shared/enil_line.c: the refresh of the access token, and source/shared/enil_talkserv.c: the parser of its
-- reply. The reply is stored in a journal file beside session.json before the new tokens are saved.
--
-- The session file is known by its interface: what enil_session_load reads in it, what
-- enil_session_save makes of it and what enil_session_login_id makes of it. The journal is known by the four texts that
-- refresh_string reads in it. `history` holds every state of the two files, the latest first: what a
-- process that ends at any point leaves behind.
use enil.Common.{
  ℕ, ◌+◌, Bool, true, false, not, ◌&&◌, ◌||◌, Option, none, some, List, [], ◌∷◌, ◌==◌,
  if◌then◌else◌, length,
}
use enil.Common.Int.{ℤ, pos}
use enil.Common.Text.{Text, codes, text_eq}
use enil.Common.Json.{Json, Cjson, Numbers, number, is_object, field, string_value}
use enil.ApiJson.{copied, enil_json_dup_string, enil_json_dup_string_opt, enil_json_get_int64}
use enil.Health.{Health, set_failure, line}
pub mod Locked
pub mod Silent
mod Runs

-- The fields of `session_t` that the refresh reads or writes; `login_id` is the one of its snapshot.
pub record Session : Type 0 where
  pub login_id : Option Text
  pub access_token : Option Text
  pub refresh_token : Option Text
  pub refresh_journal_id : Option Text
  pub duration_until_refresh_in_sec : ℤ
  pub token_issue_time_epoch_sec : ℤ
  pub refresh_api_retry_policy : Option Json

pub record Journal : Type 0 where
  pub owner : Option Text
  pub refresh_id : Option Text
  pub previous_refresh_token : Option Text
  pub response_body : Option Text

-- `talk_token_v3_issue_result_t` without its copy of the retry policy, which the refresh reads in `raw`.
pub record Issued : Type 0 where
  pub access_token : Text
  pub refresh_token : Option Text
  pub login_session_id : Option Text
  pub duration_until_refresh_in_sec : ℤ
  pub token_issue_time_epoch_sec : ℤ
  pub raw : Option Json

-- The libraries and the session file. `enil_session_load` gives `none` where it fails; `save` is the
-- file that enil_session_save writes.
pub record Env : Type 1 where
  pub cjson : Cjson
  pub numbers : Numbers
  pub grants : ℕ → Bool
  pub to_int : ℕ → ℤ
  pub File : Type 0
  pub load : File → Option Session
  pub save : File → Session → File
  pub with_login_id : File → File × Bool

pub record Response : Type 0 where
  pub status : ℕ
  pub body : Option Text

-- What the system answers during one refresh. A file is written in two steps: renamed over the old
-- one, and the directory synchronised.
pub record Call : Type 0 where
  pub thread : ℕ
  pub binds : Bool
  pub path_fits : Bool
  pub is_enoent : Bool
  pub makes_retired : Bool
  pub renames_retired : Bool
  pub syncs_retired : Bool
  pub new_id : Option Text
  pub post : Text → Text → Response
  pub builds_journal : Bool
  pub renames_journal : Bool
  pub syncs_journal : Bool
  pub renames_session : Bool
  pub syncs_session : Bool
  pub unlinks : Bool

pub data Recovery : Type 0 where
  stop fresh committed : Recovery
  replay : Text → Text → Recovery

abbrev pub refresh_string : Cjson → Option Json → Text → Option Text
refresh_string cjson root name = string_value (field cjson root name)

abbrev pub same_text : Option Text → Option Text → Bool
same_text (some a) (some b) = text_eq a b
same_text _ _ = false

abbrev pub differ : Option Text → Option Text → Bool
differ (some a) (some b) = not (text_eq a b)
differ _ _ = false

module _ (env : Env) where
  pub record Disc : Type 0 where
    pub file : env.File
    pub journal : Option Journal
    pub retired : List Journal

  pub record World : Type 0 where
    pub disc : Disc
    pub history : List Disc
    pub sent : List Text
    pub health : Health

  -- The files have a new state.
  abbrev pub durable : World → Disc → World
  durable w d = record w { disc = d; history = d ∷ w.history }

  abbrev pub stopped : Call → World → World
  stopped call w = record w { health = set_failure w.health call.thread line }

  abbrev pub retired_file : Call → World → Option Journal → World × Bool
  retired_file call w none = (w, call.is_enoent)
  retired_file call w (some j) =
      if not call.makes_retired || not call.renames_retired then (w, false) else (
        durable w (record w.disc { journal = none; retired = j ∷ w.disc.retired }),
        call.syncs_retired,
      )

  -- `<session>.refresh-pending` becomes `<session>.refresh-pending.retired.…`.
  unfoldable pub enil_session_retire_file : Call → World → World × Bool
  enil_session_retire_file call w = retired_file call w w.disc.journal

  abbrev pub envelope_of : Option Json → Option Json
  envelope_of none = none
  envelope_of (some part) =
      if env.cjson.has_object_item part (codes "tokenV3IssueResult")
      then field env.cjson (some part) (codes "tokenV3IssueResult")
      else some part

  -- The tokens of a reply, within an envelope or not.
  abbrev pub issued_part : Text → Option Json
  issued_part raw = envelope_of (field env.cjson (env.cjson.parse raw) (codes "data"))

  abbrev pub was_committed : Session → Option Json → Bool
  was_committed session tokens =
      same_text (refresh_string env.cjson tokens (codes "accessToken")) session.access_token
      || same_text (refresh_string env.cjson tokens (codes "refreshToken")) session.refresh_token

  abbrev pub after_retired : Recovery → World × Bool → World × Recovery
  after_retired found (w, true) = (w, found)
  after_retired found (w, false) = (w, stop)

  abbrev pub replayed : Option Text → Option Text → Recovery
  replayed (some body) (some id) = replay body id
  replayed _ _ = stop

  abbrev pub id_for : Call → Option Text → Option Text
  id_for call none = call.new_id
  id_for call (some id) = copied env.grants id

  abbrev pub recover_reply :
      Call → World → Session → Journal → Option Text → Option Text → World × Recovery
  recover_reply call w session j (some previous) (some raw) =
      if same_text (some previous) session.refresh_token
      then (w, replayed (copied env.grants raw) (id_for call j.refresh_id))
      else after_retired (if was_committed session (issued_part raw) then committed else fresh)
          (enil_session_retire_file call w)
  recover_reply call w session j _ _ = (w, stop)

  abbrev pub recover_journal : Call → World → Session → Option Journal → World × Recovery
  recover_journal call w session none = (w, if call.is_enoent then fresh else stop)
  recover_journal call w session (some j) =
      if differ j.owner session.login_id
      then after_retired fresh (enil_session_retire_file call w)
      else if same_text j.refresh_id session.refresh_journal_id
      then after_retired committed (enil_session_retire_file call w)
      else recover_reply call w session j j.previous_refresh_token j.response_body

  unfoldable pub recover_refresh : Call → World → Session → World × Recovery
  unfolding enil_session_retire_file
  recover_refresh call w session = recover_journal call w session w.disc.journal

  -- A field that is absent or of another kind leaves the 0 of `memset`.
  abbrev pub int64_or_zero : Option ℤ → ℤ
  int64_or_zero none = pos 0
  int64_or_zero (some v) = v

  abbrev pub text_or_null : Option (Option Text) → Option Text
  text_or_null none = none
  text_or_null (some t) = t

  abbrev pub issued_of : Json → Option Text → Option Issued
  issued_of part none = none
  issued_of part (some access) = some (record {
    access_token = access;
    refresh_token =
        text_or_null (enil_json_dup_string_opt env.cjson env.grants part (codes "refreshToken"));
    login_session_id =
        text_or_null (enil_json_dup_string_opt env.cjson env.grants part (codes "loginSessionId"));
    duration_until_refresh_in_sec =
        int64_or_zero
          (enil_json_get_int64 env.cjson env.numbers part (codes "durationUntilRefreshInSec"));
    token_issue_time_epoch_sec =
        int64_or_zero
          (enil_json_get_int64 env.cjson env.numbers part (codes "tokenIssueTimeEpochSec"));
    raw = env.cjson.duplicate part;
  })

  unfoldable pub talk_token_v3_issue_result_parse : Option Json → Option Issued
  unfolding enil_json_dup_string enil_json_dup_string_opt enil_json_get_int64
  talk_token_v3_issue_result_parse none = none
  talk_token_v3_issue_result_parse (some part) =
      if is_object part
      then issued_of part (enil_json_dup_string env.cjson env.grants part (codes "accessToken"))
      else none

  abbrev pub policy_of : Option Json → Option Json
  policy_of (some policy) = if is_object policy then env.cjson.duplicate policy else none
  policy_of none = none

  abbrev pub newer_refresh : Option Text → Option Text → Option Text
  newer_refresh (some t) old = copied env.grants t
  newer_refresh none old = old

  unfoldable pub session_apply_token_v3 : Session → Issued → Session
  session_apply_token_v3 session t = record session {
    access_token = copied env.grants t.access_token;
    refresh_token = newer_refresh t.refresh_token session.refresh_token;
    duration_until_refresh_in_sec = t.duration_until_refresh_in_sec;
    token_issue_time_epoch_sec = t.token_issue_time_epoch_sec;
    refresh_api_retry_policy = policy_of (field env.cjson t.raw (codes "refreshApiRetryPolicy"));
  }
