-- ===== src/Session/Save.antt =====
-- source/shared/enil_session.c: saving a session. What the caller changed since it loaded its snapshot is merged into
-- the file as it is now, if the file still has the login of the snapshot.
use enil.Common.{Bool, true, false, not, ◌&&◌, ◌||◌, Option, none, some, if◌then◌else◌}
use enil.Common.Text.{Text, codes}
use enil.Common.Json.{Json, Children, string, object, nil, node, is_object, child, field, put}
use enil.Session.{Sessions, is_empty, write_file}
use enil.Session.Partial.{PartialStore}
use enil.Session.Fields.{FieldStore, SessionFields, enil_session_parse, enil_session_to_json}

module _ (m : PartialStore) where
  -- The snapshot's value of a field is the one to save.
  abbrev pub is_unchanged : Option Json → Json → Bool
  is_unchanged none item = false
  is_unchanged (some old) item = m.compare old item

  abbrev pub save_field : Json → Json → Text → Json → Json
  save_field baseline current key item =
      if is_unchanged (field m.store.cjson (some baseline) key) item
      then current
      else put m.store.cjson (m.delete_item current key) key (m.store.cjson.duplicate item)

  unfoldable pub save_fields : Json → Children → Json → Json
  save_fields baseline nil current = current
  save_fields baseline (node k v kids) current =
      save_fields baseline kids (save_field baseline current k v)

  abbrev pub drop_field : Json → Json → Text → Json
  drop_field next current key =
      if m.store.cjson.has_object_item next key then current else m.delete_item current key

  unfoldable pub drop_fields : Json → Children → Json → Json
  drop_fields next nil current = current
  drop_fields next (node k v kids) current = drop_fields next kids (drop_field next current k)

  abbrev pub merged_fields : Json → Json → Json → Json
  merged_fields next baseline current =
      drop_fields next (child baseline) (save_fields baseline (child next) current)

  -- Neither has a login id, or the snapshot's is a text that is not empty and the file's is equal.
  abbrev pub is_same_login : Option Json → Option Json → Bool
  is_same_login none none = true
  is_same_login (some (string before)) (some (string now)) =
      not (is_empty before) && m.compare (string before) (string now)
  is_same_login _ _ = false

  abbrev pub save_into : Sessions → Text → Json → Json → Option Json → Sessions × Bool
  save_into s path next baseline none = (s, false)
  save_into s path next baseline (some current) =
      if not (is_object current)
        || not (
            is_same_login (field m.store.cjson (some baseline) (codes "loginId"))
              (field m.store.cjson (some current) (codes "loginId")))
      then (s, false)
      else write_file m.store s path (merged_fields next baseline current)

  -- `next` is the session to save and `baseline` its snapshot, both as they are written.
  unfoldable pub save_json : Sessions → Text → Option Json → Option Json → Sessions × Bool
  unfolding save_fields drop_fields
  save_json s path (some next) (some baseline) = save_into s path next baseline (s.files path)
  save_json s path _ _ = (s, false)

module _ (f : FieldStore) where
  abbrev pub baseline_of : Option Json → Option Json
  baseline_of none = none
  baseline_of (some snapshot) = elim (enil_session_parse f snapshot) [
    | none ↦ none
    | some original ↦ enil_session_to_json f original
  ]

  unfoldable pub enil_session_save : Sessions → Text → SessionFields → Sessions × Bool
  unfolding save_json enil_session_parse enil_session_to_json
  enil_session_save s path session =
      save_json f.partial s path (enil_session_to_json f session) (baseline_of session.snapshot)

  unfoldable pub enil_session_load : Sessions → Text → Option SessionFields
  unfolding enil_session_parse
  enil_session_load s path = elim (s.files path) [
    | none ↦ none
    | some root ↦ enil_session_parse f root
  ]

  abbrev pub reauth_marked : Sessions → Text → Option SessionFields → Sessions × Bool
  reauth_marked s path none = (s, false)
  reauth_marked s path (some session) =
      enil_session_save s path (record session { needs_reauth = true })

  unfoldable pub enil_session_set_reauth_needed : Sessions → Text → Sessions × Bool
  unfolding enil_session_load enil_session_save
  enil_session_set_reauth_needed s path = reauth_marked s path (enil_session_load s path)

  unfoldable pub enil_session_has_reauth_needed : Sessions → Text → Bool
  unfolding enil_session_load
  enil_session_has_reauth_needed s path = elim (enil_session_load s path) [
    | none ↦ false
    | some session ↦ session.needs_reauth
  ]

  -- A map that is absent or empty is left as it is.
  abbrev pub is_bare_map : Option Json → Bool
  is_bare_map none = true
  is_bare_map (some (object nil)) = true
  is_bare_map (some map) = false

  abbrev pub reset_map : Sessions → Text → Option SessionFields → Sessions × Bool
  reset_map s path none = (s, false)
  reset_map s path (some session) =
      if is_bare_map session.last_partial_full_syncs
      then (s, false)
      else enil_session_save s path
          (record session { last_partial_full_syncs = f.partial.store.cjson.create (object nil) })

  unfoldable pub enil_session_reset_partial_full_syncs : Sessions → Text → Sessions × Bool
  unfolding enil_session_load enil_session_save
  enil_session_reset_partial_full_syncs s path = reset_map s path (enil_session_load s path)
