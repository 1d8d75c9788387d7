-- ===== src/Session.antt =====
-- source/shared/enil_session.c: which login a thread acts for. A thread is bound to a session file and to
-- the login that the file had at that time; later steps go on only while the file still has it.
--
-- The files are what `enil_session_read` gives for each path; other threads and processes may change
-- them between two operations.
use enil.Common.{
  ℕ, Bool, true, false, not, ◌&&◌, ◌||◌, Option, none, some, List, [], ◌∷◌, ◌==◌, if◌then◌else◌,
  length,
}
use enil.Common.Text.{Text, codes, text_eq}
use enil.Common.Json.{Json, Cjson, Numbers, string, is_object, field, string_value}
use enil.Identity.{
  Identity, Bindings, Answers, enil_identity_parse, enil_identity_bind, enil_identity_current,
}
pub mod Bound
pub mod Threads
pub mod Run
pub mod Partial
pub mod Stamps
pub mod Counts
pub mod Maps
pub mod Queue
pub mod Update
pub mod Acknowledge
pub mod Acks
pub mod Written
pub mod Complete
pub mod Syncs
pub mod Fields
pub mod Save
pub mod Merge
pub mod Saved
pub mod Settings
pub mod Named
mod SyncRuns
mod SaveRuns
mod Runs

-- `SessionBinding`
pub record Binding : Type 0 where
  pub path : Text
  pub login_id : Option Text

pub record Sessions : Type 0 where
  pub files : Text → Option Json
  pub bound : ℕ → Option Binding
  pub identities : Bindings

-- What an operation stands on. `identity_ready` and `binding_ready` are the thread keys' flags,
-- `replaces` whether `session_write_locked` renames this value over the file, `syncs` whether the
-- directory is synchronised then, `grants` the memory for a copy of the token.
pub record Store : Type 0 where
  pub cjson : Cjson
  pub numbers : Numbers
  pub replace_item_in_object : Json → Text → Option Json → Json
  pub identity_ready : Bool
  pub binding_ready : Bool
  pub replaces : Json → Bool
  pub syncs : Json → Bool
  pub grants : ℕ → Bool

-- What pthread and malloc answer during one `enil_session_bind_identity`.
pub record BindCall : Type 0 where
  pub clears : Bool
  pub clear_identity : Answers
  pub copies : Bool
  pub bind_identity : Answers
  pub sets : Bool
  pub reset_identity : Answers

-- `!memcmp` of two structs whose arrays are filled up with zeros.
unfoldable pub same_identity : Identity → Identity → Bool
same_identity a b =
    text_eq a.profile_id b.profile_id
    && (text_eq a.transport b.transport
        && (text_eq a.application b.application
            && (text_eq a.user_agent b.user_agent
                && (text_eq a.system_name b.system_name
                    && (text_eq a.model_name b.model_name
                        && (text_eq a.gateway_version b.gateway_version
                            && (if a.auto_login_required
                                then b.auto_login_required
                                else not b.auto_login_required)))))))

-- The saved login against the bound one: both absent, or both the same text.
unfoldable pub same_login : Option Text → Option Json → Bool
same_login none none = true
same_login (some bound) (some (string s)) = text_eq bound s
same_login _ _ = false

abbrev pub is_saved : Identity → Option Identity → Bool
is_saved identity none = false
is_saved identity (some saved) = same_identity identity saved

abbrev pub update {ℓ} : {A : Type ℓ} → (ℕ → A) → ℕ → A → ℕ → A
update f k v j = if j == k then v else f j

abbrev pub put_file : (Text → Option Json) → Text → Json → Text → Option Json
put_file files path root p = if text_eq p path then some root else files p

-- `!*next || strpbrk(next, "\r\n")`
unfoldable pub has_line_end : Text → Bool
has_line_end [] = false
has_line_end (c ∷ s) = (c == 13) || ((c == 10) || has_line_end s)

abbrev pub is_empty : Text → Bool
is_empty [] = true
is_empty (c ∷ s) = false

-- A saved login id must be a text that is not empty.
abbrev pub valid_id : Option Json → Bool
valid_id none = true
valid_id (some (string s)) = not (is_empty s)
valid_id (some _) = false

module _ (store : Store) where
  unfoldable pub matches : Option Identity → Option Binding → Option Json → Bool
  unfolding same_login
  matches none binding root = false
  matches (some identity) none root = false
  matches (some identity) (some binding) none = false
  matches (some identity) (some binding) (some root) =
      is_object root
      && (same_login binding.login_id (field store.cjson (some root) (codes "loginId"))
          && is_saved identity (
              enil_identity_parse store.cjson store.numbers
                (field store.cjson (some root) (codes "clientIdentity"))))

  abbrev pub current_binding : Sessions → ℕ → Option Binding
  current_binding s thread = if store.binding_ready then s.bound thread else none

  unfoldable pub binding_matches : Sessions → ℕ → Option Binding → Option Json → Bool
  unfolding matches
  binding_matches s thread binding root =
      matches (enil_identity_current store.identity_ready s.identities thread) binding root

  unfoldable pub set_binding : Bool → Sessions → ℕ → Option Binding → Sessions × Bool
  set_binding sets s thread binding =
      if not store.binding_ready || not sets
      then (s, false)
      else (record s { bound = update s.bound thread binding }, true)

  abbrev pub bind_identity : Answers → Sessions → ℕ → Option Identity → Sessions × Bool
  bind_identity call s thread i =
      let (ids, done) = enil_identity_bind call s.identities thread i in
      (record s { identities = ids }, done)

  -- The binding for a file, once its identity can be read.
  abbrev pub binding_for : Bool → Text → Json → Option Binding
  binding_for copies path root =
      if valid_id (field store.cjson (some root) (codes "loginId")) && copies
      then some (record {
        path = path;
        login_id = string_value (field store.cjson (some root) (codes "loginId"));
      })
      else none

  abbrev pub undone : BindCall → Sessions → ℕ → Sessions × Bool
  undone call s thread = ((bind_identity call.reset_identity s thread none).0, false)

  abbrev pub settled : BindCall → ℕ → Sessions × Bool → Sessions × Bool
  settled call thread (s, true) = (s, true)
  settled call thread (s, false) = undone call s thread

  abbrev pub bound_to : BindCall → ℕ → Binding → Sessions × Bool → Sessions × Bool
  bound_to call thread binding (s, false) = undone call s thread
  bound_to call thread binding (s, true) =
      settled call thread (set_binding call.sets s thread (some binding))

  abbrev pub bind_to : BindCall → Sessions → ℕ → Option Identity → Option Binding → Sessions × Bool
  bind_to call s thread (some i) (some binding) =
      bound_to call thread binding (bind_identity call.bind_identity s thread (some i))
  bind_to call s thread _ _ = undone call s thread

  abbrev pub bind_root : BindCall → Sessions → ℕ → Text → Option Json → Sessions × Bool
  bind_root call s thread path none = (s, false)
  bind_root call s thread path (some root) =
      if not (is_object root)
      then (s, false)
      else bind_to call s thread
          (enil_identity_parse store.cjson store.numbers
            (field store.cjson (some root) (codes "clientIdentity")))
          (binding_for call.copies path root)

  abbrev pub cleared : BindCall → ℕ → Text → Sessions × Bool → Sessions × Bool
  cleared call thread path (s, false) = (s, false)
  cleared call thread path (s, true) = bind_root call s thread path (s.files path)

  abbrev pub unbound : BindCall → ℕ → Text → Sessions × Bool → Sessions × Bool
  unbound call thread path (s, false) = (s, false)
  unbound call thread path (s, true) =
      cleared call thread path (bind_identity call.clear_identity s thread none)

  unfoldable pub enil_session_bind_identity : BindCall → Sessions → ℕ → Text → Sessions × Bool
  unfolding set_binding
  enil_session_bind_identity call s thread path =
      unbound call thread path (set_binding call.clears s thread none)

  abbrev pub go_on_with : BindCall → Sessions → ℕ → Text → Option Binding → Sessions × Bool
  go_on_with call s thread path none = enil_session_bind_identity call s thread path
  go_on_with call s thread path (some binding) =
      if not (text_eq binding.path path)
      then (s, false)
      else (s, binding_matches s thread (some binding) (s.files path))

  unfoldable pub enil_session_continue_identity : BindCall → Sessions → ℕ → Text → Sessions × Bool
  unfolding enil_session_bind_identity binding_matches
  enil_session_continue_identity call s thread path =
      go_on_with call s thread path (current_binding s thread)

  abbrev pub copied_token : Option Text → Option (Option Text)
  copied_token none = none
  copied_token (some t) =
      if not (is_empty t) && store.grants (length t) then some (some t) else none

  abbrev pub token_of : Sessions → ℕ → Option Binding → Option (Option Text)
  token_of s thread none = some none
  token_of s thread (some binding) =
      if binding_matches s thread (some binding) (s.files binding.path)
      then copied_token
          (string_value (field store.cjson (s.files binding.path) (codes "accessToken")))
      else none

  -- `none` is -1, `some none` is 0.
  unfoldable pub enil_session_bound_access_token : Sessions → ℕ → Option (Option Text)
  unfolding binding_matches
  enil_session_bound_access_token s thread = token_of s thread (current_binding s thread)

  abbrev pub write_file : Sessions → Text → Json → Sessions × Bool
  write_file s path root =
      if store.replaces root
      then (record s { files = put_file s.files path root }, store.syncs root)
      else (s, false)

  abbrev pub rotate : Sessions → Text → Text → Text → Option Json → Option Text → Sessions × Bool
  rotate s path previous next (some root) (some token) =
      if text_eq token previous
      then write_file s path (
          store.replace_item_in_object root (codes "accessToken")
            (store.cjson.create (string next)))
      else (s, true)
  rotate s path previous next _ _ = (s, false)

  abbrev pub accept_for : Sessions → ℕ → Text → Text → Option Binding → Sessions × Bool
  accept_for s thread previous next none = (s, false)
  accept_for s thread previous next (some binding) =
      if is_empty next || has_line_end next
      then (s, false)
      else if not (binding_matches s thread (some binding) (s.files binding.path))
      then (s, false)
      else rotate s binding.path previous next (s.files binding.path)
          (string_value (field store.cjson (s.files binding.path) (codes "accessToken")))

  unfoldable pub enil_session_accept_next_access : Sessions → ℕ → Text → Text → Sessions × Bool
  unfolding binding_matches has_line_end
  enil_session_accept_next_access s thread previous next =
      accept_for s thread previous next (current_binding s thread)
