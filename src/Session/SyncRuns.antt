-- ===== src/Session/SyncRuns.antt =====
-- source/shared/enil_session.c: partial full syncs of one session file, and the theorems at them.
use enil.Common.{
  ℕ, ◌<◌, ◌^◌, ◌≡◌, refl, sym, ap, ◌∙◌, Bool, true, false, Option, none, some, List, [], ◌∷◌,
  if◌then◌else◌, arith, ltb, ◌==◌, Bool-cases, Option-cases, inl, inr, length, some_inj,
}
use enil.Common.Int.{ℤ, pos, negsuc, IsI64}
use enil.Common.Text.{Text, codes, text_eq}
use enil.Common.Json.{
  Json, Children, Numbers, null, bool, number, string, array, object, nil, node, child, find_key,
  snoc,
}
use enil.Common.Samples.{sample_cjson, sample_objects, zeros, length-zeros}
use enil.ApiJson.{enil_json_coerce_int64}
use enil.Session.{Sessions, binding_matches}
use enil.Session.Partial.{
  PartialStore, replaced, stamp, merge_partial_timestamp, partial_map, update_items, both_maps,
  complete_items, pending_name, completed_name, enil_session_update_partial_full_syncs,
  enil_session_complete_partial_full_syncs,
}
use enil.Session.Stamps.{PartialLaws, removed}
use enil.Session.Maps.{saved_stamp}
use enil.Session.Update.{UpdatesStamps, update_partial_full_syncs-UpdatesStamps}
use enil.Session.Acks.{CompletesStamps}
use enil.Session.Complete.{complete_partial_full_syncs-CompletesStamps}
use enil.Session.Syncs.{SyncOp, updates, completes, sync_run, Keeps, sync_run-Keeps}

-- A number is as many zeros as it is large, behind a 45 if it is below 0.
abbrev unary : ℤ → Text
unary (pos n) = 48 ∷ zeros n
unary (negsuc n) = 45 ∷ zeros n

abbrev bounded : ℕ → ℕ
bounded n = if ltb n (2 ^ 63) then n else 0

abbrev read_unary : Text → ℤ
read_unary [] = pos 0
read_unary (c ∷ s) = if c == 45 then negsuc (bounded (length s)) else pos (bounded (length s))

abbrev unary_numbers : Numbers
unary_numbers = record {
  strtoll = λ t. some (read_unary t);
  strtoll_prefix = read_unary;
  is_safe = λ d. true;
  to_i64 = λ d. pos (bounded d);
  of_i64 = λ v. 0;
  double_eq = λ a b. a == b;
  print_lld = unary;
  print_whole = λ d. [];
}

abbrev add_map : Json → Text → Option Json
add_map (object kids) k = some (object (snoc kids k (object nil)))
add_map _ k = none

abbrev replace : Json → Text → Json → Option Json
replace (object kids) k v = elim (find_key kids k) [
  | none ↦ none
  | some w ↦ some (object (replaced kids k v))
]
replace _ k v = none

abbrev delete : Json → Text → Json
delete (object kids) k = object (removed kids k)
delete v k = v

abbrev same_value : Json → Json → Bool
same_value (string a) (string b) = text_eq a b
same_value (number a) (number b) = a == b
same_value _ _ = false

abbrev pub sync_store : PartialStore
sync_store = record {
  store = record {
    cjson = sample_cjson;
    numbers = unary_numbers;
    replace_item_in_object = λ o k v. o;
    identity_ready = true;
    binding_ready = true;
    replaces = λ v. true;
    syncs = λ v. true;
    grants = λ n. true;
  };
  replace_item = replace;
  add_object = add_map;
  delete_item = delete;
  compare = same_value;
}

bounded_lt : (n : ℕ) → bounded n < 2 ^ 63
bounded_lt n = elim (Bool-cases (ltb n (2 ^ 63))) [
  | inl e ↦ rw (e, bounded) (ground (arith, e))
  | inr e ↦ rw (e, bounded) (omega arith)
]

bounded_id : (n : ℕ) → n < 2 ^ 63 → bounded n ≡ n
bounded_id n h = ground (arith, h)

unary_lem : (v : ℤ) → IsI64 v → enil_json_coerce_int64 unary_numbers (some (string (unary v))) ≡ v
unfolding enil_json_coerce_int64
unary_lem (pos n) h = ap pos (ap bounded (length-zeros n) ∙ bounded_id n h)
unary_lem (negsuc n) h = ap negsuc (ap bounded (length-zeros n) ∙ bounded_id n h)

read_lem : (t : Text) → IsI64 (read_unary t)
read_lem [] = omega arith
read_lem (c ∷ s) = elim (Bool-cases (c == 45)) [
  | inl e ↦ rw (e, read_unary) (bounded_lt (length s))
  | inr e ↦ rw (e, read_unary) (bounded_lt (length s))
]

coerce_range : (item : Option Json) → IsI64 (enil_json_coerce_int64 unary_numbers item)
unfolding enil_json_coerce_int64
coerce_range none = omega arith
coerce_range (some null) = omega arith
coerce_range (some (bool x)) = omega arith
coerce_range (some (number d)) = bounded_lt d
coerce_range (some (string t)) = read_lem t
coerce_range (some (array x)) = omega arith
coerce_range (some (object x)) = omega arith

has_item :
    (kids : Children) (k : Text)
    → sample_cjson.has_object_item (object kids) k ≡ false
    → find_key kids k ≡ none
has_item kids k h = elim (Option-cases (find_key kids k)) [
  | inl e ↦ e
  | inr (w, e) ↦ absurd (cc (rw e at h))
]

replace_lem :
    (kids : Children) (k : Text) (v o : Json)
    → replace (object kids) k v ≡ some o
    → (w : Json) × (find_key kids k ≡ some w) × (o ≡ object (replaced kids k v))
replace_lem kids k v o h = elim (Option-cases (find_key kids k)) [
  | inl e ↦ absurd (cc (rw (e, replace) at h))
  | inr (w, e) ↦ (w, e, sym (some_inj (rw (e, replace) at h)))
]

pub sync_laws : PartialLaws sync_store
sync_laws = record {
  objects = sample_objects;
  has_item_lem = has_item;
  replace_item_lem = replace_lem;
  add_object_lem = λ kids k o h. sym (some_inj h);
  delete_item_lem = λ kids k. refl;
  print_lld_lem = unary_lem;
  coerce_lem = coerce_range;
}

-- Two categories are asked for; one of them was done up to 2 before.
abbrev all_category : Text
all_category = codes "ALL"

abbrev chat_category : Text
chat_category = codes "CHAT"

abbrev request : ℕ → ℕ → Json
request a b =
    object
      (node all_category (string (unary (pos a))) (node chat_category (string (unary (pos b))) nil))

abbrev begun : Json
begun = object (
    node (codes "lastPartialFullSyncs") (object (node all_category (string (unary (pos 2))) nil))
      nil)

abbrev begun_sessions : Sessions
begun_sessions = record { files = λ p. some begun; bound = λ t. none; identities = λ t. none }

abbrev file : Text
file = codes "p"

abbrev asked_sessions : Sessions
asked_sessions =
    (enil_session_update_partial_full_syncs sync_store begun_sessions 1 file (request 3 1)).0

-- The snapshot of the file with these two requests.
abbrev snapshot : Json
snapshot = object (
    node (codes "lastPartialFullSyncs") (object (node all_category (string (unary (pos 2))) nil))
      (node (codes "pendingPartialFullSyncs") (request 3 1) nil))

takes_snapshot : asked_sessions.files file ≡ some snapshot
unfolding enil_session_update_partial_full_syncs both_maps partial_map update_items
    merge_partial_timestamp stamp enil_json_coerce_int64 binding_matches text_eq
takes_snapshot = refl

is_asked :
    (enil_session_update_partial_full_syncs sync_store begun_sessions 1 file (request 3 1)).1
    ≡ some true
unfolding enil_session_update_partial_full_syncs both_maps partial_map update_items
    merge_partial_timestamp stamp enil_json_coerce_int64 binding_matches text_eq
is_asked = refl

-- A later request comes before the first ones are done: it stays pending.
abbrev late : List SyncOp
late = updates 2 file (request 5 1) ∷ completes file snapshot ∷ []

stays_pending :
    saved_stamp sync_store (sync_run sync_store asked_sessions late) file pending_name all_category
    ≡ pos 5
unfolding enil_session_update_partial_full_syncs enil_session_complete_partial_full_syncs both_maps
    partial_map update_items complete_items merge_partial_timestamp stamp enil_json_coerce_int64
    binding_matches text_eq
stays_pending = refl

is_completed :
    saved_stamp sync_store
      (sync_run sync_store asked_sessions late)
      file
      completed_name
      all_category
    ≡ pos 3
unfolding enil_session_update_partial_full_syncs enil_session_complete_partial_full_syncs both_maps
    partial_map update_items complete_items merge_partial_timestamp stamp enil_json_coerce_int64
    binding_matches text_eq
is_completed = refl

update_partial_full_syncs-UpdatesStamps_example :
    UpdatesStamps sync_store begun_sessions file
      (child (request 3 1))
      (enil_session_update_partial_full_syncs sync_store begun_sessions 1 file (request 3 1))
update_partial_full_syncs-UpdatesStamps_example =
    update_partial_full_syncs-UpdatesStamps sync_store sync_laws begun_sessions 1 file (request 3 1)

complete_partial_full_syncs-CompletesStamps_example :
    CompletesStamps sync_store asked_sessions file snapshot
      (enil_session_complete_partial_full_syncs sync_store asked_sessions file snapshot)
complete_partial_full_syncs-CompletesStamps_example =
    complete_partial_full_syncs-CompletesStamps sync_store sync_laws asked_sessions file snapshot
      refl

sync_run-Keeps_example :
    Keeps sync_store file all_category asked_sessions (sync_run sync_store asked_sessions late)
sync_run-Keeps_example = sync_run-Keeps sync_store sync_laws late asked_sessions file all_category
