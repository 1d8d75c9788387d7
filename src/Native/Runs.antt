-- ===== src/Native/Runs.antt =====
-- source/shared/enil_native.c: a concrete request, and the theorems at it.
use enil.Common.{◌≡◌, refl, true, false, some, []}
use enil.Common.Int.{pos}
use enil.Common.Text.{codes, text_eq, has_prefix}
use enil.Common.Json.{Json, string, object, nil, node}
use enil.Common.Samples.{sample_cjson}
use enil.Identity.{windows_identity}
use enil.Native.Services.{Services, Outcome, ok}
use enil.Native.Prepare.{
  shape, after_last_slash, route, unwrap_contacts, omit_time, outgoing, seal, sealed,
}
use enil.Native.Answer.{received, on_decoded, on_bytes, on_reply, on_success}
use enil.Native.Post.{perform, report, enil_native_post}
use enil.Native.Safety.{IsAnswered, native_post-IsAnswered}

-- What the worker makes of any text.
abbrev worker_answer : Json
worker_answer = object (
    node (codes "body") (string (codes "b"))
      (node (codes "key") (string (codes "k")) (node (codes "xLcs") (string (codes "x")) nil)))

abbrev all_well : Services
all_well = record {
  cjson = sample_cjson;
  value_int = pos;
  grants = λ n. true;
  slist_append = λ t. true;
  delete_item_from_array = λ v i. v;
  b64_encode = λ s. some s;
  b64_decode_alloc = λ t. some t;
  thrift_encode = λ m v. some (codes "args");
  thrift_decode = λ m s. some (object (node (codes "success") (object nil) nil));
  worker_decrypt_ex = λ p v. some worker_answer;
  bound_access_token = some (some (codes "token"));
  kept_before_transfer = true;
  kept_after_decode = true;
  kept_at_reply = true;
  accept_next_access = λ t n. true;
  language_headers = λ hs. hs;
  has_curl = true;
  transfer =
      λ r. record { status = pos 200; rc = ok; ready = true; uploaded = some 4; content = [] };
}

abbrev a_poll : Outcome
a_poll =
    enil_native_post all_well (some windows_identity) (codes "/native/sync") (codes "[]") [] false
      false

poll_answered : a_poll.body ≡ some []
unfolding enil_native_post perform report shape after_last_slash route unwrap_contacts omit_time
    outgoing seal sealed received on_decoded on_bytes on_reply on_success text_eq has_prefix
poll_answered = refl

native_post-IsAnswered_example : IsAnswered all_well (codes "/native/sync") (codes "[]") [] (
    enil_native_post all_well
      (some windows_identity)
      (codes "/native/sync")
      (codes "[]")
      []
      false
      false)
native_post-IsAnswered_example =
    native_post-IsAnswered all_well (some windows_identity) (codes "/native/sync") (codes "[]") []
      false false
