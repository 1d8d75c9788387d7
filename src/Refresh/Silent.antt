-- ===== src/Refresh/Silent.antt =====
-- source/shared/enil_line.c: while a journal of the login and its refresh token exists, no request goes out.
use enil.Common.{
  ◌≡◌, refl, sym, Bool, true, false, not, ◌&&◌, ◌||◌, Option, none, some, ◌∷◌, Bool-cases, inl, inr,
  if◌then◌else◌,
}
use mathlib.Core.Path.{subst}
use enil.Common.Text.{Text}
use enil.ApiJson.{copied}
use enil.Refresh.{
  Session, Journal, Issued, Env, Call, Recovery, fresh, stop, committed, replay, World, durable,
  differ, same_text, retired_file, enil_session_retire_file, after_retired, replayed, id_for,
  recover_reply, recover_journal, recover_refresh, issued_part, talk_token_v3_issue_result_parse,
  session_apply_token_v3,
}
use enil.Refresh.Locked.{
  RefreshOutcome, unlinked, commit_id, commit, store_reply, after_recovery, is_complete,
  with_session, token_refresh_locked,
}

-- A reply is replayed, was committed, or the refresh stops: nothing is asked.
abbrev pub is_fresh : Recovery → Bool
is_fresh fresh = true
is_fresh _ = false

module _ (env : Env) (call : Call) (w : World env) where
  abbrev IsSilent : RefreshOutcome env → Type 0
  IsSilent r = r.0.sent ≡ w.sent

  -- The recovery asks for no request.
  abbrev IsRecovered : World env × Recovery → Type 0
  IsRecovered r = (r.0.sent ≡ w.sent) × (is_fresh r.1 ≡ false)

  pick :
      (g : Bool) (a b : RefreshOutcome env)
      → IsSilent a
      → IsSilent b
      → IsSilent (if g then a else b)
  pick true a b ha hb = ha
  pick false a b ha hb = hb

  unlinked-IsSilent :
      (v : World env) (token : Option Text) → v.sent ≡ w.sent → IsSilent (unlinked env call v token)
  unlinked-IsSilent v none h = h
  unlinked-IsSilent v (some t) h = pick call.unlinks _ _ h h

  commit-IsSilent :
      (v : World env) (session : Session) (access : Text) (id : Option Text)
      → v.sent ≡ w.sent
      → IsSilent (commit_id env call v session access id)
  commit-IsSilent v session access none h = h
  commit-IsSilent v session access (some id) h =
      pick (not call.renames_session) _ _ h
        (pick call.syncs_session _ _ (unlinked-IsSilent _ (copied env.grants access) h) h)

  issued-IsSilent :
      (v : World env) (session : Session) (id : Text) (t : Option Issued)
      → v.sent ≡ w.sent
      → IsSilent (commit env call v session id t)
  issued-IsSilent v session id none h = h
  issued-IsSilent v session id (some t) h =
      commit-IsSilent v (session_apply_token_v3 env session t) t.access_token (copied env.grants id)
        h

  store-IsSilent :
      (v : World env) (session : Session) (body id : Text)
      → v.sent ≡ w.sent
      → IsSilent (store_reply env call v session body id)
  store-IsSilent v session body id h =
      pick (not call.builds_journal || not call.renames_journal) _ _ h (
        pick call.syncs_journal _ _
          (issued-IsSilent _ session id
            (talk_token_v3_issue_result_parse env (issued_part env body)) h)
          h)

  recovered-IsSilent :
      (session : Session) (r : World env × Recovery)
      → IsRecovered r
      → IsSilent (after_recovery env call session r)
  recovered-IsSilent session (v, stop) (h, e) = h
  recovered-IsSilent session (v, fresh) (h, e) = absurd (cc e)
  recovered-IsSilent session (v, committed) (h, e) = h
  recovered-IsSilent session (v, replay body id) (h, e) = store-IsSilent v session body id h

  either-IsRecovered :
      (v : World env) (done : Bool)
      → v.sent ≡ w.sent
      → IsRecovered (after_retired env committed (v, done))
  either-IsRecovered v true h = (h, refl)
  either-IsRecovered v false h = (h, refl)

  choose :
      (g : Bool) (a b : World env × Bool)
      → IsRecovered (after_retired env committed a)
      → IsRecovered (after_retired env committed b)
      → IsRecovered (after_retired env committed (if g then a else b))
  choose true a b ha hb = ha
  choose false a b ha hb = hb

  retired-IsRecovered :
      (j : Journal) → IsRecovered (after_retired env committed (retired_file env call w (some j)))
  retired-IsRecovered j =
      choose (not call.makes_retired || not call.renames_retired) _ _ (refl, refl)
        (either-IsRecovered
          (durable env w (record w.disc { journal = none; retired = j ∷ w.disc.retired }))
          call.syncs_retired refl)

  replayed_old : (body id : Option Text) → is_fresh (replayed env body id) ≡ false
  replayed_old none id = refl
  replayed_old (some b) none = refl
  replayed_old (some b) (some i) = refl

  reply-IsRecovered :
      (session : Session) (j : Journal) (previous body : Option Text)
      → same_text previous session.refresh_token ≡ true
      → IsRecovered (recover_reply env call w session j previous body)
  reply-IsRecovered session j none body same = absurd (cc same)
  reply-IsRecovered session j (some p) none same = (refl, refl)
  reply-IsRecovered session j (some p) (some b) same =
      rw (same, recover_reply)
        (refl, replayed_old (copied env.grants b) (id_for env call j.refresh_id))

  journal-IsRecovered :
      (session : Session) (j : Journal)
      → w.disc.journal ≡ some j
      → differ j.owner session.login_id ≡ false
      → same_text j.previous_refresh_token session.refresh_token ≡ true
      → IsRecovered (recover_refresh env call w session)
  unfolding recover_refresh enil_session_retire_file
  journal-IsRecovered session j ej own same =
      let committed_or_replayed : IsRecovered (recover_journal env call w session (some j)) =
        elim (Bool-cases (same_text j.refresh_id session.refresh_journal_id)) [
          | inr other ↦
              rw (own, other, recover_journal)
                (reply-IsRecovered session j j.previous_refresh_token j.response_body same)
          | inl saved ↦
              rw (own, saved, recover_journal)
                (subst (λ o. IsRecovered (after_retired env committed (retired_file env call w o)))
                  (sym ej) (retired-IsRecovered j))
        ] in
      subst (λ o. IsRecovered (recover_journal env call w session o)) (sym ej) committed_or_replayed

-- Whatever the system answers, a refresh hands no request to LINE while a journal exists whose
-- login id does not differ from that of the session and whose refresh token is that of the
-- session.
pub token_refresh-silent :
    (env : Env) (call : Call) (w : World env) (session : Session) (j : Journal)
    → env.load (env.with_login_id w.disc.file).0 ≡ some session
    → w.disc.journal ≡ some j
    → differ j.owner session.login_id ≡ false
    → same_text j.previous_refresh_token session.refresh_token ≡ true
    → (token_refresh_locked env call w).0.sent ≡ w.sent
unfolding token_refresh_locked
token_refresh-silent env call w session j loaded ej own same =
    let w' : World env =
      durable env w (record w.disc { file = (env.with_login_id w.disc.file).0 }) in
    let run : (with_session env call w' (some session)).0.sent ≡ w.sent =
      pick env call w' (is_complete env session && call.path_fits) _ _
        (recovered-IsSilent env call w' session _
          (journal-IsRecovered env call w' session j ej own same))
        refl in
    pick env call w ((env.with_login_id w.disc.file).1 && call.binds) _ _
      (subst (λ s. (with_session env call w' s).0.sent ≡ w.sent) (sym loaded) run) refl
