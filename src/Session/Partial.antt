-- ===== src/Session/Partial.antt =====
-- source/shared/enil_session.c: the partial full syncs that LINE asked for, in session.json. A request is a
-- category and a timestamp; `pendingPartialFullSyncs` holds what is to be done and
-- `lastPartialFullSyncs` what is done.
--
-- The two maps are children of the file's object and are changed in place: `within` puts a changed
-- map where it stands. Every child of an object has a key here, as cJSON's parser makes them.
use enil.Common.{ℕ, Bool, true, false, not, ◌||◌, Option, none, some, if◌then◌else◌, ◌>>=◌}
use enil.Common.Int.{ℤ, leb_ℤ}
use enil.Common.Text.{Text, codes, text_eq}
use enil.Common.Json.{Json, Children, string, object, nil, node, is_object, child, field}
use enil.ApiJson.{enil_json_coerce_int64}
use enil.Session.{Binding, Sessions, Store, binding_matches, current_binding, write_file}

-- The calls of cJSON beside those of `Cjson`: `cJSON_ReplaceItemInObjectCaseSensitive`,
-- `cJSON_AddObjectToObject`, `cJSON_DeleteItemFromObjectCaseSensitive` and `cJSON_Compare`.
pub record PartialStore : Type 0 where
  pub store : Store
  pub replace_item : Json → Text → Json → Option Json
  pub add_object : Json → Text → Option Json
  pub delete_item : Json → Text → Json
  pub compare : Json → Json → Bool

-- The first child with a key, written anew.
abbrev pub replaced : Children → Text → Json → Children
replaced nil key w = nil
replaced (node k v kids) key w =
    let rest = replaced kids key w in if text_eq k key then node k w kids else node k v rest

abbrev pub within : Json → Text → Json → Json
within (object kids) name map = object (replaced kids name map)
within root name map = root

abbrev pub pending_name : Text
pending_name = codes "pendingPartialFullSyncs"

abbrev pub completed_name : Text
completed_name = codes "lastPartialFullSyncs"

-- `!pending->child`
abbrev pub is_bare : Children → Bool
is_bare nil = true
is_bare (node k v kids) = false

-- What the loops carry: the pending map, `needed` and `changed`; and the two maps.
abbrev pub Requests : Type 0
Requests = Json × (Bool × Bool)

abbrev pub MapPair : Type 0
MapPair = Json × Json

module _ (m : PartialStore) where
  -- The timestamp of a category: 0 where it has none.
  unfoldable pub stamp : Json → Text → ℤ
  unfolding enil_json_coerce_int64
  stamp map key = enil_json_coerce_int64 m.store.numbers (field m.store.cjson (some map) key)

  abbrev pub merged : Option Json → Option (Json × Bool)
  merged none = none
  merged (some map) = some (map, true)

  abbrev pub merge_item : Json → Text → Option Json → Option (Json × Bool)
  merge_item map key none = none
  merge_item map key (some item) =
      if m.store.cjson.has_object_item map key
      then merged (m.replace_item map key item)
      else merged (m.store.cjson.add_item_to_object map key item)

  -- `none` is -1; the flag is the result 1.
  unfoldable pub merge_partial_timestamp : Json → Text → ℤ → Option (Json × Bool)
  unfolding stamp
  merge_partial_timestamp map key value =
      if leb_ℤ value (stamp map key)
      then some (map, false)
      else merge_item map key (m.store.cjson.create (string (m.store.numbers.print_lld value)))

  abbrev pub added_map : Option Json → Option MapPair
  added_map none = none
  added_map (some root) = some (root, object nil)

  abbrev pub map_or_new : Json → Text → Option Json → Option MapPair
  map_or_new root name none = added_map (m.add_object root name)
  map_or_new root name (some map) = if is_object map then some (root, map) else none

  -- The object, which may have got the map, and the map.
  unfoldable pub partial_map : Json → Text → Option MapPair
  partial_map root name = map_or_new root name (field m.store.cjson (some root) name)

  abbrev pub queued : Bool → Option (Json × Bool) → Option Requests
  queued changed none = none
  queued changed (some (map, now)) = some (map, (true, changed || now))

  abbrev pub update_item : Json → Text → ℤ → Requests → Option Requests
  update_item completed key incoming (pending, (needed, changed)) =
      if leb_ℤ incoming (stamp completed key)
      then some (pending, (needed, changed))
      else queued changed (merge_partial_timestamp pending key incoming)

  unfoldable pub update_items : Json → Children → Requests → Option Requests
  unfolding enil_json_coerce_int64
  update_items completed nil q = some q
  update_items completed (node k v kids) q =
      update_item completed k (enil_json_coerce_int64 m.store.numbers (some v)) q
      >>= update_items completed kids

  abbrev pub update_saved : Bool → Sessions × Bool → Sessions × Option Bool
  update_saved needed (s, true) = (s, some needed)
  update_saved needed (s, false) = (s, none)

  abbrev pub update_write : Sessions → Text → Json → Option Requests → Sessions × Option Bool
  update_write s path root none = (s, none)
  update_write s path root (some (pending, (needed, changed))) =
      if changed
      then update_saved needed (write_file m.store s path (within root pending_name pending))
      else (s, some needed)

  -- Both maps of the file's object, and the object, which has them now.
  abbrev pub second_map : Option MapPair → Option (Json × MapPair)
  second_map none = none
  second_map (some (root, pending)) =
      partial_map root completed_name >>= λ r. some (r.0, (pending, r.1))

  unfoldable pub both_maps : Json → Option (Json × MapPair)
  unfolding partial_map
  both_maps root = second_map (partial_map root pending_name)

  abbrev pub update_maps : Sessions → Text → Json → Option (Json × MapPair) → Sessions × Option Bool
  update_maps s path target none = (s, none)
  update_maps s path target (some (root, (pending, completed))) =
      update_write s path root (update_items completed (child target) (pending, (false, false)))

  abbrev pub other_login : Sessions → ℕ → Text → Option Binding → Option Json → Bool
  other_login s thread path none root = false
  other_login s thread path (some binding) root =
      not (text_eq binding.path path) || not (binding_matches m.store s thread (some binding) root)

  abbrev pub update_root : Sessions → ℕ → Text → Json → Option Json → Sessions × Option Bool
  update_root s thread path target none = (s, none)
  update_root s thread path target (some root) =
      if not (is_object root)
        || other_login s thread path (current_binding m.store s thread) (some root)
      then (s, none)
      else update_maps s path target (both_maps root)

  -- `none` is -1.
  unfoldable pub enil_session_update_partial_full_syncs :
      Sessions → ℕ → Text → Json → Sessions × Option Bool
  unfolding both_maps binding_matches
  enil_session_update_partial_full_syncs s thread path target =
      if is_object target then update_root s thread path target (s.files path) else (s, none)

  abbrev pub acknowledged : Json → ℤ → Option Json → Text → Json
  acknowledged pending value none key = pending
  acknowledged pending value (some item) key =
      if leb_ℤ (enil_json_coerce_int64 m.store.numbers (some item)) value
      then m.delete_item pending key
      else pending

  abbrev pub complete_item : Text → ℤ → MapPair → Option MapPair
  complete_item key value (pending, completed) =
      merge_partial_timestamp completed key value >>= λ r.
      some (acknowledged pending value (field m.store.cjson (some pending) key) key, r.0)

  unfoldable pub complete_items : Children → MapPair → Option MapPair
  unfolding merge_partial_timestamp enil_json_coerce_int64
  complete_items nil maps = some maps
  complete_items (node k v kids) maps =
      complete_item k (enil_json_coerce_int64 m.store.numbers (some v)) maps >>= complete_items kids

  abbrev pub without_bare : Json → Json → Json
  without_bare root pending =
      if is_bare (child pending) then m.delete_item root pending_name else root

  abbrev pub complete_write : Sessions → Text → Json → Option MapPair → Sessions × Bool
  complete_write s path root none = (s, false)
  complete_write s path root (some (pending, completed)) =
      write_file m.store s path
        (without_bare (within (within root pending_name pending) completed_name completed) pending)

  abbrev pub complete_maps : Sessions → Text → Children → Option (Json × MapPair) → Sessions × Bool
  complete_maps s path requests none = (s, false)
  complete_maps s path requests (some (root, maps)) =
      complete_write s path root (complete_items requests maps)

  -- What the snapshot asked for: nothing is done at once.
  abbrev pub complete_requests : Sessions → Text → Json → Option Json → Sessions × Bool
  complete_requests s path root none = (s, true)
  complete_requests s path root (some (object nil)) = (s, true)
  complete_requests s path root (some (object requests)) =
      complete_maps s path requests (both_maps root)
  complete_requests s path root (some _) = (s, false)

  -- Both without a login id, or both with the same.
  abbrev pub same_snapshot : Option Json → Option Json → Bool
  same_snapshot none none = true
  same_snapshot (some (string a)) (some (string b)) = m.compare (string a) (string b)
  same_snapshot _ _ = false

  abbrev pub complete_root : Sessions → Text → Json → Option Json → Sessions × Bool
  complete_root s path snapshot none = (s, false)
  complete_root s path snapshot (some root) =
      if not (is_object root)
        || not (
            same_snapshot (field m.store.cjson (some snapshot) (codes "loginId"))
              (field m.store.cjson (some root) (codes "loginId")))
      then (s, false)
      else complete_requests s path root (field m.store.cjson (some snapshot) pending_name)

  unfoldable pub enil_session_complete_partial_full_syncs : Sessions → Text → Json → Sessions × Bool
  unfolding both_maps complete_items
  enil_session_complete_partial_full_syncs s path snapshot =
      if is_object snapshot then complete_root s path snapshot (s.files path) else (s, false)
