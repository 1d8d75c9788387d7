-- ===== src/Native/Prepare.antt =====
-- source/shared/enil_native.c: a request made ready, from the path of the gateway to the bytes.
use enil.Common.{
  ◌>>=◌, ℕ, ◌+◌, Bool, true, false, not, ◌||◌, Option, none, some, List, [], ◌∷◌, ◌++◌, ◌==◌,
  if◌then◌else◌, length,
}
use enil.Common.Text.{Text, codes, text_eq, has_prefix}
use enil.Common.Json.{Json, string, array, object, nil, is_array, put, field, string_value}
use enil.Identity.{Identity}
use enil.Native.Services.{Services, Shape, Outgoing}

-- `strrchr(s, '/') + 1`
unfoldable pub after_last_slash : Text → Option Text
after_last_slash [] = none
after_last_slash (c ∷ s) = elim (after_last_slash s) [
  | some t ↦ some t
  | none ↦ if c == b'/' then some s else none
]

abbrev pub is_refresh_path : Text → Bool
is_refresh_path path = text_eq path (codes "/api/auth/tokenRefresh")

module _ (on : Services) where
  abbrev pub json_string : Option Json → Text → Option Text
  json_string o key = string_value (field on.cjson o key)

  -- A list that could not grow is lost, and the next header begins a new one.
  abbrev pub append_header : List Text → Text → Text → List Text
  append_header hs name value =
      let h = name ++ (codes ": " ++ value) in
      if not (on.grants (length name + length value + 3))
      then hs
      else if on.slist_append h
      then hs ++ (h ∷ [])
      else []

  abbrev pub in_array : Option Json → Option Json
  in_array args = elim (on.cjson.create (array nil)) [
    | none ↦ none
    | some a ↦ elim args [
      | none ↦ some a
      | some v ↦ elim (on.cjson.add_item_to_array a v) [ none ↦ some a | some a' ↦ some a' ]
    ]
  ]

  -- The endpoint for a path, with its arguments; `none` for a path that LINE has no place for.
  unfoldable pub route : Text → Text → Json → Option Shape
  route path method args =
      let talk : Shape = record {
        method = method;
        endpoint = codes "/S4";
        encrypted = true;
        contacts = false;
        args = some args;
      } in
      if is_refresh_path path
      then some (record talk {
        method = codes "refresh";
        endpoint = codes "/EXT/auth/tokenrefresh/v1";
        encrypted = false;
        args = in_array (some args);
      })
      else if text_eq path (codes "/native/sync")
      then some (record talk { endpoint = codes "/SYNC4" })
      else if has_prefix (codes "/api/shop/thrift/ShopService/ShopService/") path
      then some (record talk { endpoint = codes "/TSHOP4"; encrypted = false })
      else if has_prefix (codes "/api/talk/thrift/Talk/TalkService/") path
      then some talk
      else none

  abbrev pub wrapped_mids : Option Json → Option (Option Json)
  wrapped_mids none = none
  wrapped_mids (some mids) =
      if is_array mids then some (in_array (on.cjson.duplicate mids)) else none

  abbrev pub first_of : Option Json → Option Json
  first_of none = none
  first_of (some a) = on.cjson.get_array_item a 0

  unfoldable pub unwrap_contacts : Shape → Option Shape
  unwrap_contacts s =
      if not (text_eq s.method (codes "getContactsV2"))
      then some s
      else elim (wrapped_mids (field on.cjson (first_of s.args) (codes "targetUserMids"))) [
        | none ↦ none
        | some args ↦ some (record s { method = codes "getContacts"; contacts = true; args = args })
      ]

  abbrev pub without_time : Option Json → Option (Option Json)
  without_time none = none
  without_time (some a) =
      if not (is_array a) || not (on.cjson.get_array_size a == 4)
      then none
      else some (some (on.delete_item_from_array a 3))

  unfoldable pub omit_time : Shape → Option Shape
  omit_time s =
      if not (text_eq s.method (codes "sendChatRemoved"))
      then some s
      else elim (without_time s.args) [ none ↦ none | some args ↦ some (record s { args = args }) ]

  unfoldable pub shape : Text → Text → Option Shape
  unfolding route unwrap_contacts omit_time
  shape path body = do
    method ← after_last_slash path
    args ← on.cjson.parse body
    routed ← route path method args
    unwrapped ← unwrap_contacts routed
    omit_time unwrapped

  abbrev pub common_headers : Identity → List Text → List Text
  common_headers identity hs =
      let h1 = append_header hs (codes "Content-Type") (codes "application/x-thrift") in
      let h2 = append_header h1 (codes "Accept") (codes "application/x-thrift") in
      on.language_headers (append_header h2 (codes "X-Line-Application") identity.application)

  abbrev pub sealed_headers : Text → List Text
  sealed_headers lcs =
      let h1 = append_header [] (codes "X-LE") (codes "7") in
      let h2 = append_header h1 (codes "X-LAP") (codes "5") in
      let h3 = append_header h2 (codes "X-LPV") (codes "1") in
      let h4 = append_header h3 (codes "X-LCS") lcs in
      append_header h4 (codes "X-LHM") (codes "POST")

  -- The request that the worker has made of the bytes.
  unfoldable pub sealed : Identity → Bool → Option Json → Option Outgoing
  sealed identity cancelled encoded = do
    body ← if cancelled then none else json_string encoded (codes "body")
    key ← json_string encoded (codes "key")
    lcs ← json_string encoded (codes "xLcs")
    wire ← on.b64_decode_alloc body
    some (record {
      request = record {
        url = codes "https://gf.line.naver.jp/enc";
        headers = common_headers identity (sealed_headers lcs);
        content = wire;
      };
      key = some key;
    })

  abbrev pub to_worker : Text → Text → Text → Json → Json
  to_worker endpoint base64 token o =
      let o1 = put on.cjson o (codes "path") (on.cjson.create (string endpoint)) in
      let o2 = put on.cjson o1 (codes "body") (on.cjson.create (string base64)) in
      put on.cjson o2 (codes "accessToken") (on.cjson.create (string token))

  -- The bytes in the clear, with the access token in a header.
  unfoldable pub plain_request : Identity → Shape → Text → List ℕ → Outgoing
  plain_request identity s token bytes = record {
    request = record {
      url =
          if text_eq s.method (codes "refresh")
          then codes "https://legy.line-apps.com/EXT/auth/tokenrefresh/v1"
          else codes "https://legy.line-apps.com/TSHOP4";
      headers =
          common_headers identity
            (if length token == 0 then [] else append_header [] (codes "X-Line-Access") token);
      content = bytes;
    };
    key = none;
  }

  -- The bytes through the worker.
  unfoldable pub seal : Identity → Shape → Text → Bool → List ℕ → Option Outgoing
  unfolding sealed
  seal identity s token cancelled bytes = do
    base64 ← on.b64_encode bytes
    payload ← on.cjson.create (object nil)
    sealed identity cancelled (
        on.worker_decrypt_ex (codes "/transport/legy/encode")
          (to_worker s.endpoint base64 token payload))

  unfoldable pub outgoing : Identity → Shape → Text → Bool → Option Outgoing
  unfolding seal plain_request
  outgoing identity s token cancelled = elim (on.thrift_encode s.method s.args) [
    | none ↦ none
    | some bytes ↦
        if s.encrypted
        then seal identity s token cancelled bytes
        else some (plain_request identity s token bytes)
  ]
