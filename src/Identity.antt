-- ===== src/Identity.antt =====
-- source/shared/enil_identity.c: the identity that a session presents to LINE, its JSON form, and the
-- identity that each thread has bound.
use enil.Common.{
  ℕ, ◌+◌, Bool, true, false, not, ◌&&◌, ◌||◌, Option, none, some, List, [], ◌∷◌, ltb, leb, ◌==◌,
  if◌then◌else◌, length,
}
use enil.Common.Int.{pos}
use enil.Common.Text.{Text, codes, text_eq, has_prefix}
use enil.Common.Json.{
  Json, Cjson, Numbers, bool, number, string, object, nil, is_object, string_value,
}
pub mod Shape
pub mod RoundTrip
pub mod Bound
mod Runs

-- `enil_identity_t`
pub record Identity : Type 0 where
  pub profile_id : Text
  pub transport : Text
  pub application : Text
  pub user_agent : Text
  pub system_name : Text
  pub model_name : Text
  pub gateway_version : Text
  pub auto_login_required : Bool

abbrev pub legacy_chrome_identity : Identity
legacy_chrome_identity = record {
  profile_id = codes "chrome";
  transport = codes "chrome-gateway";
  application = codes "CHROMEOS\t3.7.2\tChrome_OS";
  user_agent =
      codes
        "Mozilla/5.0 (Macintosh; Intel Mac OS X 10_15_7) AppleWebKit/537.36 (KHTML, like Gecko) Chrome/145.0.0.0 Safari/537.36";
  system_name = codes "CHROMEOS";
  model_name = codes "CHROME";
  gateway_version = codes "3.7.2";
  auto_login_required = false;
}

abbrev pub windows_identity : Identity
windows_identity = record {
  profile_id = codes "desktopwin";
  transport = codes "native-thrift";
  application = codes "DESKTOPWIN\t9.7.0.3556\tWINDOWS\t10.0.0-NT-x64";
  user_agent = codes "Line/9.7.0.3556";
  system_name = codes "DESKTOPWIN";
  model_name = codes "DESKTOPWIN";
  gateway_version = codes "3.7.2";
  auto_login_required = true;
}

abbrev pub android_identity : Identity
android_identity = record {
  profile_id = codes "android";
  transport = codes "native-thrift";
  application = codes "ANDROIDSECONDARY\t26.6.2\tAndroid OS\t16";
  user_agent = codes "Line/26.6.2";
  system_name = codes "Pixel Tablet";
  model_name = codes "Pixel Tablet";
  gateway_version = codes "3.7.2";
  auto_login_required = true;
}

unfoldable pub enil_identity_default : Text → Option Identity
enil_identity_default profile_id =
    if text_eq profile_id (codes "chrome")
    then some legacy_chrome_identity
    else if text_eq profile_id (codes "desktopwin")
    then some windows_identity
    else if text_eq profile_id (codes "android")
    then some android_identity
    else none

-- No control characters, but tabs where they are allowed.
unfoldable pub is_plain : Bool → Text → Bool
is_plain allow_tabs [] = true
is_plain allow_tabs (c ∷ s) =
    not ((ltb c 32 && not (allow_tabs && c == b'\t')) || c == 127) && is_plain allow_tabs s

unfoldable pub fits : ℕ → Bool → Text → Bool
unfolding is_plain
fits size allow_tabs s = not (length s == 0 || leb size (length s)) && is_plain allow_tabs s

abbrev pub text_field : ℕ → Bool → Option Json → Option Text
text_field size allow_tabs (some (string s)) = if fits size allow_tabs s then some s else none
text_field size allow_tabs _ = none

abbrev pub auto_of : Option Json → Option Bool
auto_of none = some false
auto_of (some (bool b)) = some b
auto_of (some _) = none

abbrev pub is_transport : Text → Bool
is_transport t = text_eq t (codes "chrome-gateway") || text_eq t (codes "native-thrift")

abbrev pub transport_of : Option Text → Option Text
transport_of none = none
transport_of (some t) = if is_transport t then some t else none

abbrev behind : ℕ → Option Text → Option Text
behind c none = none
behind c (some s) = some (c ∷ s)

-- `prefix_length` characters of a text with a tab.
unfoldable pub up_to_tab : Text → Option Text
up_to_tab [] = none
up_to_tab (c ∷ s) = let rest = behind c (up_to_tab s) in if c == b'\t' then some (c ∷ []) else rest

abbrev pub has_some_prefix : Option Text → Text → Bool
has_some_prefix none s = false
has_some_prefix (some p) s = has_prefix p s

-- The transport against the one of the profile, and the name of the application.
unfoldable pub accepted : Identity → Option Identity → Option Identity
unfolding up_to_tab
accepted v none = none
accepted v (some known) =
    if not (text_eq v.transport known.transport)
      && not (
          text_eq v.profile_id (codes "desktopwin") && text_eq v.transport (codes "chrome-gateway"))
    then none
    else if not (has_some_prefix (up_to_tab known.application) v.application)
    then none
    else some v

abbrev pub make : Bool → Text → Text → Text → Text → Text → Text → Text → Identity
make auto transport profile application agent system model gateway = record {
  profile_id = profile;
  transport = transport;
  application = application;
  user_agent = agent;
  system_name = system;
  model_name = model;
  gateway_version = gateway;
  auto_login_required = auto;
}

abbrev pub apply {ℓ ℓ'} : {A : Type ℓ} {B : Type ℓ'} → Option (A → B) → Option A → Option B
apply none a = none
apply (some f) none = none
apply (some f) (some a) = some (f a)

abbrev pub checked : Option Identity → Option Identity
checked none = none
checked (some v) = accepted v (enil_identity_default v.profile_id)

-- `cJSON_AddStringToObject` and its like, on an object that may be gone.
abbrev pub add : Cjson → Option Json → Text → Json → Option Json
add cjson none key v = none
add cjson (some o) key v = elim (cjson.create v) [
  | none ↦ none
  | some item ↦ cjson.add_item_to_object o key item
]

module _ (cjson : Cjson) (numbers : Numbers) where
  abbrev pub read_string : Json → Text → ℕ → Bool → Option Text
  read_string json key size allow_tabs =
      text_field size allow_tabs (cjson.get_object_item_case_sensitive json key)

  abbrev pub is_version_1 : Option Json → Bool
  is_version_1 (some (number d)) = numbers.double_eq d (numbers.of_i64 (pos 1))
  is_version_1 _ = false

  -- The fields of the object, if each can be read.
  unfoldable pub read_identity : Json → Option Identity
  read_identity json =
      let auto =
        auto_of (cjson.get_object_item_case_sensitive json (codes "autoLoginIsRequired")) in
      let transport =
        transport_of
          (string_value (cjson.get_object_item_case_sensitive json (codes "transport"))) in
      let head =
        apply (apply (apply (some make) auto) transport)
          (read_string json (codes "profileId") 16 false) in
      let names =
        apply (apply head (read_string json (codes "application") 160 true))
          (read_string json (codes "userAgent") 256 false) in
      apply
        (apply (apply names (read_string json (codes "systemName") 64 false))
          (read_string json (codes "modelName") 64 false))
        (read_string json (codes "gatewayVersion") 32 false)

  unfoldable pub enil_identity_parse : Option Json → Option Identity
  unfolding read_identity
  enil_identity_parse none = some legacy_chrome_identity
  enil_identity_parse (some json) =
      if not (is_object json)
      then none
      else if not (is_version_1 (cjson.get_object_item_case_sensitive json (codes "schemaVersion")))
      then none
      else checked (read_identity json)

  unfoldable pub enil_identity_to_json : Identity → Option Json
  enil_identity_to_json i =
      let o = cjson.create (object nil) in
      let o = add cjson o (codes "schemaVersion") (number (numbers.of_i64 (pos 1))) in
      let o = add cjson o (codes "transport") (string i.transport) in
      let o = add cjson o (codes "profileId") (string i.profile_id) in
      let o = add cjson o (codes "application") (string i.application) in
      let o = add cjson o (codes "userAgent") (string i.user_agent) in
      let o = add cjson o (codes "systemName") (string i.system_name) in
      let o = add cjson o (codes "modelName") (string i.model_name) in
      let o = add cjson o (codes "gatewayVersion") (string i.gateway_version) in
      add cjson o (codes "autoLoginIsRequired") (bool i.auto_login_required)

-- The identity of each thread, and what the calls of one `enil_identity_bind` answer.
abbrev pub Bindings : Type 0
Bindings = ℕ → Option Identity

pub record Answers : Type 0 where
  pub key_ready : Bool
  pub clears : Bool
  pub grants : Bool
  pub sets : Bool

abbrev pub rebind : Bindings → ℕ → Option Identity → Bindings
rebind bs thread i t = if t == thread then i else bs t

unfoldable pub enil_identity_current : Bool → Bindings → ℕ → Option Identity
enil_identity_current key_ready bs thread = if key_ready then bs thread else none

abbrev pub is_none : Option Identity → Bool
is_none none = true
is_none (some i) = false

unfoldable pub enil_identity_bind : Answers → Bindings → ℕ → Option Identity → Bindings × Bool
enil_identity_bind call bs thread identity =
    let cleared = rebind bs thread none in
    if not call.key_ready
    then (bs, false)
    else if not call.clears
    then (bs, false)
    else if not (is_none identity) && not call.grants
    then (cleared, false)
    else if not call.sets
    then (cleared, false)
    else (rebind bs thread identity, true)
