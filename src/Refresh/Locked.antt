-- ===== src/Refresh/Locked.antt =====
-- source/shared/enil_line.c: token_refresh_locked, from the session file to the new token.
use enil.Common.{
  ◌+◌, Bool, false, not, ◌&&◌, ◌||◌, Option, none, some, [], ◌∷◌, ◌==◌, if◌then◌else◌, length,
}
use enil.Common.Int.{ℤ, pos}
use enil.Common.Text.{Text, codes}
use enil.Common.Json.{Json, number, object, string, nil, field}
use enil.ApiJson.{copied}
use enil.Session.{is_empty}
use enil.Refresh.{
  Session, Journal, Issued, Env, Response, Call, Recovery, stop, fresh, committed, replay, World,
  durable, stopped, issued_part, recover_refresh, talk_token_v3_issue_result_parse,
  session_apply_token_v3,
}

module _ (env : Env) where
  -- The token that is returned and the error code of LINE, 0 without one.
  abbrev pub RefreshOutcome : Type 0
  RefreshOutcome = World env × (Option Text × ℤ)

  abbrev pub ended : World env → RefreshOutcome
  ended w = (w, (none, pos 0))

  abbrev pub unlinked : Call → World env → Option Text → RefreshOutcome
  unlinked call w none = ended w
  unlinked call w (some token) =
      if call.unlinks
      then (durable env w (record w.disc { journal = none }), (some token, pos 0))
      else (w, (some token, pos 0))

  abbrev pub saved_session : Call → World env → Session → Text → RefreshOutcome
  saved_session call w session access =
      if not call.renames_session
      then ended (stopped env call w)
      else let w' = durable env w (record w.disc { file = env.save w.disc.file session }) in
        if call.syncs_session
        then unlinked call w' (copied env.grants access)
        else ended (stopped env call w')

  abbrev pub commit_id : Call → World env → Session → Text → Option Text → RefreshOutcome
  commit_id call w session access none = ended (stopped env call w)
  commit_id call w session access (some id) =
      saved_session call w (record session { refresh_journal_id = some id }) access

  abbrev pub commit : Call → World env → Session → Text → Option Issued → RefreshOutcome
  commit call w session id none = ended w
  commit call w session id (some issued) =
      commit_id call w (session_apply_token_v3 env session issued) issued.access_token
        (copied env.grants id)

  abbrev pub journal_for : Session → Text → Text → Journal
  journal_for session body id = record {
    owner = session.login_id;
    refresh_id = some id;
    previous_refresh_token = session.refresh_token;
    response_body = some body;
  }

  abbrev pub store_reply : Call → World env → Session → Text → Text → RefreshOutcome
  store_reply call w session body id =
      if not call.builds_journal || not call.renames_journal
      then ended (stopped env call w)
      else let w' =
          durable env w (record w.disc { journal = some (journal_for session body id) }) in
        if call.syncs_journal
        then commit call w' session id (talk_token_v3_issue_result_parse env (issued_part env body))
        else ended (stopped env call w')

  abbrev pub code_of : Option Json → ℤ
  code_of (some (number d)) = env.to_int d
  code_of _ = pos 0

  abbrev pub parsed_body : Option Text → Option Json
  parsed_body none = none
  parsed_body (some body) = env.cjson.parse body

  abbrev pub no_reply : World env → Option Text → RefreshOutcome
  no_reply w body = (w, (none, code_of (field env.cjson (parsed_body body) (codes "code"))))

  abbrev pub on_refresh_reply : Call → World env → Session → Text → Response → RefreshOutcome
  on_refresh_reply call w session id reply = elim reply.body [
    | none ↦ no_reply w none
    | some body ↦
        if reply.status == 200 then store_reply call w session body id else no_reply w (some body)
  ]

  -- The caller has looked whether there is one.
  abbrev pub access_of : Session → Text
  access_of session = elim session.access_token [ none ↦ [] | some t ↦ t ]

  abbrev pub ask : Call → World env → Session → Text → Option Text → RefreshOutcome
  ask call w session id none = ended w
  ask call w session id (some body) =
      on_refresh_reply call (record w { sent = body ∷ w.sent }) session id
        (call.post body (access_of session))

  abbrev pub with_item : Json → Option Json → Option Json
  with_item o none = none
  with_item o (some item) = env.cjson.add_item_to_object o (codes "refreshToken") item

  abbrev pub printed_request : Option Json → Option Text
  printed_request none = none
  printed_request (some o) = env.cjson.print_unformatted o

  abbrev pub request_object : Option Json → Option Text → Option Json
  request_object (some o) (some token) = with_item o (env.cjson.create (string token))
  request_object _ _ = none

  abbrev pub refresh_request : Session → Option Text
  refresh_request session =
      printed_request (request_object (env.cjson.create (object nil)) session.refresh_token)

  abbrev pub ask_with : Call → World env → Session → Option Text → RefreshOutcome
  ask_with call w session none = ended w
  ask_with call w session (some id) = ask call w session id (refresh_request session)

  abbrev pub after_recovery : Call → Session → World env × Recovery → RefreshOutcome
  after_recovery call session (w, stop) = ended w
  after_recovery call session (w, fresh) = ask_with call w session call.new_id
  after_recovery call session (w, committed) = (w, (copied env.grants (access_of session), pos 0))
  after_recovery call session (w, replay body id) = store_reply call w session body id

  -- The session has both tokens and a login id that can be copied.
  abbrev pub has_all : Option Text → Option Text → Option Text → Bool
  has_all (some access) (some token) (some id) = not (is_empty id) && env.grants (length id + 1)
  has_all _ _ _ = false

  abbrev pub is_complete : Session → Bool
  is_complete session = has_all session.access_token session.refresh_token session.login_id

  abbrev pub with_session : Call → World env → Option Session → RefreshOutcome
  with_session call w none = ended w
  with_session call w (some session) =
      if is_complete session && call.path_fits
      then after_recovery call session (recover_refresh env call w session)
      else ended w

  -- enil_session_login_id may write the file and fail all the same.
  abbrev pub with_file : Call → World env → env.File × Bool → RefreshOutcome
  with_file call w (file, found) =
      let w' = durable env w (record w.disc { file = file }) in
      if found && call.binds then with_session call w' (env.load file) else ended w'

  unfoldable pub token_refresh_locked : Call → World env → RefreshOutcome
  unfolding recover_refresh talk_token_v3_issue_result_parse session_apply_token_v3
  token_refresh_locked call w = with_file call w (env.with_login_id w.disc.file)
