-- ===== src/Session/Settings.antt =====
-- source/shared/enil_session.c: the login id of a session file, and the operations on single fields.
use enil.Common.{Bool, true, false, Option, none, some, if◌then◌else◌}
use enil.Common.Text.{Text, codes}
use enil.Common.Json.{Json, Children, bool, string, object, nil, node, is_object, child, field, put}
use enil.ApiJson.{copied}
use enil.Session.{Sessions, is_empty, write_file}
use enil.Session.Partial.{PartialStore}
use enil.Session.Fields.{FieldStore, SessionFields}
use enil.Session.Save.{enil_session_load}

module _ (m : PartialStore) where
  abbrev pub with_added : Json → Text → Option Json → Json × Option Text
  with_added root id none = (root, none)
  with_added root id (some root') = (root', some id)

  abbrev pub with_created : Json → Text → Option Json → Json × Option Text
  with_created root id none = (root, none)
  with_created root id (some item) =
      with_added root id (m.store.cjson.add_item_to_object root (codes "loginId") item)

  abbrev pub with_new_id : Json → Option Text → Json × Option Text
  with_new_id root none = (root, none)
  with_new_id root (some id) = with_created root id (m.store.cjson.create (string id))

  abbrev pub id_of_item : Option Text → Json → Option Json → Json × Option Text
  id_of_item new_id root (some (string id)) =
      (root, if is_empty id then none else copied m.store.grants id)
  id_of_item new_id root (some item) = (root, none)
  id_of_item new_id root none = if is_object root then with_new_id root new_id else (root, none)

  -- `new_id` is what enil_session_new_id gives, 32 random digits.
  unfoldable pub add_login_id : Option Text → Json → Json × Option Text
  add_login_id new_id root =
      id_of_item new_id root (field m.store.cjson (some root) (codes "loginId"))

  abbrev pub id_written : Option Text → Sessions × Bool → Sessions × Option Text
  id_written id (s, true) = (s, id)
  id_written id (s, false) = (s, none)

  abbrev pub keep_id : Sessions → Text → Bool → Json × Option Text → Sessions × Option Text
  keep_id s path existed (root, none) = (s, none)
  keep_id s path existed (root, some id) =
      if existed then (s, some id) else id_written (some id) (write_file m.store s path root)

  abbrev pub login_id_in : Option Text → Sessions → Text → Option Json → Sessions × Option Text
  login_id_in new_id s path none = (s, none)
  login_id_in new_id s path (some root) =
      keep_id s path (m.store.cjson.has_object_item root (codes "loginId"))
        (add_login_id new_id root)

  unfoldable pub enil_session_login_id : Option Text → Sessions → Text → Sessions × Option Text
  unfolding add_login_id
  enil_session_login_id new_id s path = login_id_in new_id s path (s.files path)

  unfoldable pub patch_fields : Children → Json → Json
  patch_fields nil root = root
  patch_fields (node k v kids) root =
      patch_fields kids (put m.store.cjson (m.delete_item root k) k (m.store.cjson.duplicate v))

  abbrev pub file_patched : Sessions → Text → Option Json → Option Json → Sessions × Bool
  file_patched s path patch none = (s, false)
  file_patched s path none (some root) = write_file m.store s path root
  file_patched s path (some patch) (some root) =
      write_file m.store s path (patch_fields (child patch) root)

  unfoldable pub enil_session_patch : Sessions → Text → Option Json → Sessions × Bool
  unfolding patch_fields
  enil_session_patch s path patch = file_patched s path patch (s.files path)

  abbrev pub sse_patch : Bool → Option Json → Option Json
  sse_patch enabled none = none
  sse_patch enabled (some o) =
      some (put m.store.cjson o (codes "sseEnabled") (m.store.cjson.create (bool enabled)))

  unfoldable pub enil_session_set_sse_enabled : Sessions → Text → Bool → Sessions × Bool
  unfolding enil_session_patch
  enil_session_set_sse_enabled s path enabled =
      enil_session_patch s path (sse_patch enabled (m.store.cjson.create (object nil)))

  abbrev pub flag_or_on : Option Json → Bool
  flag_or_on (some (bool b)) = b
  flag_or_on _ = true

  abbrev pub sse_enabled_in : Option Json → Bool
  sse_enabled_in none = true
  sse_enabled_in (some root) = flag_or_on (m.store.cjson.get_object_item root (codes "sseEnabled"))

  unfoldable pub enil_session_get_sse_enabled : Sessions → Text → Bool
  enil_session_get_sse_enabled s path = sse_enabled_in (s.files path)

module _ (f : FieldStore) where
  abbrev pub text_or_braces : Option Text → Text
  text_or_braces none = codes "{}"
  text_or_braces (some t) = t

  abbrev pub printed_map : Option Json → Text
  printed_map (some (object kids)) =
      text_or_braces (f.partial.store.cjson.print_unformatted (object kids))
  printed_map _ = codes "{}"

  abbrev pub syncs_of : Option SessionFields → Option Json
  syncs_of none = none
  syncs_of (some session) = session.last_partial_full_syncs

  unfoldable pub enil_session_get_partial_full_syncs_json : Sessions → Text → Text
  unfolding enil_session_load
  enil_session_get_partial_full_syncs_json s path =
      printed_map (syncs_of (enil_session_load f s path))

  abbrev pub nonempty_text : Option Text → Option Text
  nonempty_text none = none
  nonempty_text (some t) = if is_empty t then none else some t

  abbrev pub validated : Option SessionFields → Option (Text × Option Text)
  validated none = none
  validated (some session) = elim (nonempty_text session.access_token) [
    | none ↦ none
    | some token ↦ some (token, nonempty_text session.mid)
  ]

  -- The access token, and the mid where there is one.
  unfoldable pub enil_session_validate : Sessions → Text → Option (Text × Option Text)
  unfolding enil_session_load
  enil_session_validate s path = validated (enil_session_load f s path)
