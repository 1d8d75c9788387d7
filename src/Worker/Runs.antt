-- ===== src/Worker/Runs.antt =====
-- Concrete runs of the worker's client, and the theorems at concrete inputs.
use enil.Common.{
  arith, inr, ℕ, ◌≡◌, refl, true, false, none, some, List, [], ◌∷◌, length, ◌==◌, if◌then◌else◌,
}
use enil.Common.Int.{pos}
use enil.Common.Text.{codes, text_eq}
use enil.Common.Json.{Grants, string, object, nil, node}
use enil.Common.Samples.{sample_cjson, sample_numbers}
use enil.Health.{Health, is_failed, set_failure}
use enil.Worker.{
  Client, Exchange, Request, content_type_header, settle, worker_credentials_copy, post_to, Net,
  Reply, worker_post, send, exchange,
}
use enil.Worker.Calls.{Tools, EncryptUserParams, EncryptResult, enil_worker_encrypt_user}
use enil.Worker.Keys.{enil_worker_sign}
use enil.Worker.Gate.{Event, post, is_clean, run_client, step_client, run_client-silent}
use enil.Worker.Interleaved.{
  Call, Calls, Steps, begins, sends, settles, ended, next, on_wire, IsTracked, Drains, steps-Tracks,
}
use enil.Worker.Answers.{Outcome, worker_post-Outcome}
use enil.Worker.Sound.{
  Signed, Encrypted, enil_worker_sign-Signed, enil_worker_encrypt_user-Encrypted,
}

abbrev all_well : Health
all_well = record { worker_failed = false; line_failed = λ h. false; bound = λ t. none; posts = [] }

abbrev ready : Client
ready = record {
  worker_url = some (codes "https://w");
  worker_secret = some (codes "s");
  health = all_well;
  wire = [];
}

abbrev reply_with : ℕ → Reply
reply_with status = record {
  transported = true;
  status = status;
  content = some (codes "ok");
  cancel = false;
}

-- The first request is answered with 200, every later one with 500.
abbrev flaky : Net
flaky = record {
  grants = λ n. true;
  handle = true;
  slist_append = λ t. true;
  perform = λ wire req. reply_with (if length wire == 0 then 200 else 500);
}

abbrev three_posts : List Event
three_posts =
    post 1 (codes "/a") [] none
    ∷ post 2 (codes "/b") [] (some false)
    ∷ post 1 (codes "/c") [] none
    ∷ []

second_fails : length (run_client flaky ready three_posts).wire ≡ 2
unfolding run_client step_client worker_post is_failed send set_failure
second_fails = refl

-- Two calls pass the gate; the first one is sent, fails and closes it, with the second one to come.
abbrev broken : Net
broken = record flaky { perform = λ wire req. reply_with 500 }

abbrev call_of : ℕ → Call
call_of t = record { thread = t; path = codes "/a"; body = []; cancel = none }

abbrev the_request : Request
the_request = record {
  url = codes "https://w/a";
  headers = content_type_header ∷ codes "X-Worker-Secret: s" ∷ [];
  body = [];
}

abbrev failed_one : Exchange
failed_one = record { request = the_request; reply = reply_with 500; cancelled = false }

abbrev at_rest : Calls
at_rest = record { client = ready; checked = []; due = [] }

abbrev one_left : Calls
one_left = record {
  client = (settle (on_wire broken ready failed_one) 1 failed_one).0;
  checked = call_of 2 ∷ [];
  due = [];
}

two_calls : Steps broken at_rest one_left
unfolding post_to worker_credentials_copy exchange is_failed
two_calls = next _ _ _ (begins at_rest (call_of 1) refl refl) (
    next _ _ _ (begins _ (call_of 2) refl refl) (
      next _ _ _ (sends _ (call_of 2 ∷ []) [] (call_of 1) the_request refl refl) (
        next _ _ _ (settles _ [] [] (record { thread = 1; exchange = failed_one }) refl)
          (ended one_left))))

steps-Tracks_example :
    IsTracked one_left × (at_rest.client.health.worker_failed ≡ true → Drains at_rest one_left)
unfolding is_clean
steps-Tracks_example = steps-Tracks broken at_rest one_left two_calls (inr (omega arith))

abbrev down : Client
down = record ready { health = record all_well { worker_failed = true } }

run_client-silent_example : (run_client flaky down three_posts).wire ≡ []
run_client-silent_example = run_client-silent flaky down three_posts (tt, (tt, (tt, tt))) refl

worker_post-Outcome_example :
    Outcome ready (codes "/sign") [] (worker_post flaky ready 1 (codes "/sign") [] none)
worker_post-Outcome_example = worker_post-Outcome flaky ready 1 (codes "/sign") [] none

abbrev tools : Tools
tools = record {
  net = flaky;
  cjson = record sample_cjson {
    parse = λ t. some (
        object (
          node (codes "hmac") (string t) (
            node (codes "ciphertext") (string t)
              (node (codes "workerRestoreState") (object nil) nil))));
  };
  numbers = sample_numbers;
  to_int = λ d. pos d;
}

sample_memory : Grants tools.cjson
sample_memory = record { creates = λ v. refl; adds = λ kids k v. refl }

signs : (enil_worker_sign tools ready 1 (codes "/p") [] (codes "t")).1 ≡ some (codes "ok")
unfolding enil_worker_sign worker_post is_failed send text_eq
signs = refl

enil_worker_sign-Signed_example :
    Signed tools ready
      (codes "/p")
      []
      (codes "t")
      (enil_worker_sign tools ready 1 (codes "/p") [] (codes "t"))
enil_worker_sign-Signed_example =
    enil_worker_sign-Signed tools sample_memory ready 1 (codes "/p") [] (codes "t")

abbrev message : EncryptUserParams
message = record {
  worker_restore_state = none;
  private_key = some (codes "k");
  private_key_id = pos 1;
  peer_mid = none;
  peer_public_key = some (codes "p");
  peer_key_id = pos 2;
  from_mid = some (codes "a");
  to_mid = some (codes "b");
  sender_key_id = pos 1;
  content_type = pos 0;
  sequence_number = pos 7;
  plaintext = some (codes "hi");
}

abbrev blank : EncryptResult
blank = record { ciphertext = none; worker_restore_state = none }

enil_worker_encrypt_user-Encrypted_example :
    Encrypted tools ready message blank (enil_worker_encrypt_user tools ready 1 message blank)
enil_worker_encrypt_user-Encrypted_example =
    enil_worker_encrypt_user-Encrypted tools sample_memory ready 1 message blank
