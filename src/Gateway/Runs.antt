-- ===== src/Gateway/Runs.antt =====
-- source/shared/enil_chrome_gateway.c: requests of one account, and the theorem at them.
use enil.Common.{◌≡◌, refl, true, false, none, some, [], inl, length}
use enil.Common.Int.{pos}
use enil.Common.Text.{codes, text_eq}
use enil.Common.Json.{string, object, nil, node}
use enil.Common.Samples.{sample_cjson, sample_numbers}
use enil.ApiJson.{enil_json_dup_string}
use enil.Health.{is_failed, set_failure, line_set_on}
use enil.Identity.{legacy_chrome_identity}
use enil.Worker.{send, settle, exchange, post_to, worker_post, worker_credentials_copy}
use enil.Worker.Calls.{Tools, call_with, worker_call}
use enil.Worker.Keys.{sign_request, enil_worker_sign}
use enil.Gateway.{
  Line, LineNet, curle_ok, chrome_request, make_header, enil_chrome_gateway_post, enil_line_post_ex,
  no_response,
}
use enil.Gateway.Silent.{Quiet, ended, posts, line_run-Quiet}

-- The worker signs everything.
abbrev signing : Tools
signing = record {
  net = record {
    grants = λ n. true;
    handle = true;
    slist_append = λ t. true;
    perform = λ wire req. record {
      transported = true;
      status = 200;
      content = some (codes "ok");
      cancel = false;
    };
  };
  cjson = record sample_cjson { parse = λ t. some (object (node (codes "hmac") (string t) nil)) };
  numbers = sample_numbers;
  to_int = λ d. pos d;
}

-- LINE refuses every request.
abbrev refusing : LineNet
refusing = record {
  tools = signing;
  handle = true;
  slist_append = λ t. true;
  grants = λ n. true;
  language_headers = [];
  perform = λ sent req. record { rc = curle_ok; status = 403; content = none };
  native_post = λ i path body token. (no_response, false);
}

abbrev start : Line
start = record {
  client = record {
    worker_url = some (codes "https://w");
    worker_secret = some (codes "s");
    health = record {
      worker_failed = false;
      line_failed = λ h. false;
      bound = λ t. some 5;
      posts = [];
    };
    wire = [];
  };
  sent = [];
}

abbrev after_one : Line
after_one =
    (enil_line_post_ex refusing (some legacy_chrome_identity) 1 (codes "/p") [] (some (codes "t"))
      [] 0 start).0

abbrev after_two : Line
after_two =
    (enil_line_post_ex refusing (some legacy_chrome_identity) 1 (codes "/q") [] (some (codes "t"))
      [] 0 after_one).0

-- The first request is refused, the second one is not sent.
sends_one : length after_two.sent ≡ 1
unfolding enil_line_post_ex enil_chrome_gateway_post chrome_request make_header enil_worker_sign
    call_with worker_call sign_request worker_post worker_credentials_copy post_to send settle
    exchange enil_json_dup_string is_failed set_failure line_set_on text_eq
sends_one = refl

line_run-Quiet_example : Quiet 5 after_two
unfolding enil_line_post_ex enil_chrome_gateway_post chrome_request make_header enil_worker_sign
    call_with worker_call sign_request worker_post worker_credentials_copy post_to send settle
    exchange enil_json_dup_string is_failed set_failure line_set_on text_eq
line_run-Quiet_example =
    line_run-Quiet refusing 5 1 start after_two
      (posts start after_two (some legacy_chrome_identity) (codes "/p") [] (some (codes "t")) [] 0
        refl
        (posts after_one after_two (some legacy_chrome_identity) (codes "/q") [] (some (codes "t"))
          [] 0 refl (ended after_two)))
      (inl tt)
