-- ===== src/Session/Runs.antt =====
-- source/shared/enil_session.c: two threads on one session file, and the theorems at them.
use enil.Common.{◌≡◌, refl, true, false, some, List, [], ◌∷◌}
use enil.Common.Text.{Text, codes, text_eq}
use enil.Common.Json.{Json, string, object, nil, node}
use enil.Common.Samples.{sample_cjson, sample_numbers}
use enil.Identity.{Answers, legacy_chrome_identity, enil_identity_parse, enil_identity_current}
use enil.Session.{
  Binding, Sessions, Store, BindCall, enil_session_continue_identity,
  enil_session_accept_next_access, matches, binding_matches, same_identity, same_login,
}
use enil.Session.Bound.{HasLogin}
use enil.Session.Run.{
  Op, binds, continues, saves, run, RotatesFor, session_run-HasLogin, accept_next_access-RotatesFor,
}

abbrev sample_store : Store
sample_store = record {
  cjson = sample_cjson;
  numbers = sample_numbers;
  replace_item_in_object = λ o k v. o;
  identity_ready = true;
  binding_ready = true;
  replaces = λ v. true;
  syncs = λ v. true;
  grants = λ n. true;
}

abbrev all_granted : Answers
all_granted = record { key_ready = true; clears = true; grants = true; sets = true }

abbrev granted : BindCall
granted = record {
  clears = true;
  clear_identity = all_granted;
  copies = true;
  bind_identity = all_granted;
  sets = true;
  reset_identity = all_granted;
}

-- A session file of a login.
abbrev login : Text → Json
login id =
    object
      (node (codes "loginId") (string id) (node (codes "accessToken") (string (codes "t")) nil))

abbrev first_login : Binding
first_login = record { path = codes "p"; login_id = some (codes "1") }

-- Thread 1 is bound to the first login of the file.
abbrev one_bound : Sessions
one_bound = record {
  files = λ p. some (login (codes "1"));
  bound = λ t. some first_login;
  identities = λ t. some legacy_chrome_identity;
}

goes_on : (enil_session_continue_identity sample_store granted one_bound 1 (codes "p")).1 ≡ true
unfolding enil_session_continue_identity binding_matches matches same_identity same_login text_eq
    enil_identity_parse enil_identity_current
goes_on = refl

-- A new login is saved: the operation of the old one ends.
stops :
    (enil_session_continue_identity sample_store granted
      (run sample_store one_bound (saves (codes "p") (some (login (codes "2"))) ∷ []))
      1
      (codes "p")).1
    ≡ false
unfolding enil_session_continue_identity binding_matches matches same_identity same_login text_eq
    enil_identity_parse enil_identity_current
stops = refl

-- Another thread binds the file, and somebody saves a new login.
abbrev others : List Op
others =
    binds granted 2 (codes "p")
    ∷ continues granted 1 (codes "p")
    ∷ saves (codes "p") (some (login (codes "2")))
    ∷ []

session_run-HasLogin_example :
    ((enil_session_continue_identity sample_store granted
        (run sample_store one_bound others)
        1
        (codes "p")).0
      ≡ run sample_store one_bound others)
    × ((enil_session_continue_identity sample_store granted
            (run sample_store one_bound others)
            1
            (codes "p")).1
          ≡ true
        → (codes "p" ≡ codes "p")
          × HasLogin sample_store (run sample_store one_bound others) 1 first_login)
session_run-HasLogin_example =
    session_run-HasLogin sample_store others one_bound 1 first_login granted (codes "p") refl
      (refl, (refl, (refl, tt))) refl

accept_next_access-RotatesFor_example :
    RotatesFor sample_store one_bound 1 first_login
      (enil_session_accept_next_access sample_store one_bound 1 (codes "t") (codes "u"))
accept_next_access-RotatesFor_example =
    accept_next_access-RotatesFor sample_store one_bound 1 (codes "t") (codes "u") first_login refl
      refl
