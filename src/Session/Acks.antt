-- ===== src/Session/Acks.antt =====
-- source/shared/enil_session.c: what the completion of partial syncs means for the timestamps in session.json,
-- independently of the loop.
use enil.Common.{◌≤◌, ◌≡◌, Bool, true, false, Option, some, ◌⊎◌}
use enil.Common.Int.{ℤ, pos, leb_ℤ}
use enil.Common.Text.{Text, codes, text_eq}
use enil.Common.Json.{Json, Children, object, nil, field, find_key}
use enil.Session.{Sessions}
use enil.Session.Partial.{PartialStore, pending_name, completed_name, same_snapshot}
use enil.Session.Counts.{count}
use enil.Session.Maps.{saved_stamp}
use enil.Session.Acknowledge.{acked, left}

-- The children of a map that may be missing.
abbrev pub map_children : Option Json → Children
map_children (some (object kids)) = kids
map_children _ = nil

-- The file has one pending map at most, and the map has the category once at most.
abbrev pub IsPlain : Option Json → Text → Type 0
IsPlain (some (object kids)) key =
    (count kids pending_name ≤ 1) × (count (map_children (find_key kids pending_name)) key ≤ 1)
IsPlain _ key = Unit

module _ (m : PartialStore) where
  -- The stamps of the file after a snapshot's requests are done.
  abbrev pub AcksRequests : Sessions → Text → Children → Sessions → Type 0
  AcksRequests s path requests s' =
      ((p : Text) → text_eq p path ≡ false → s'.files p ≡ s.files p)
      × ((key : Text)
          → saved_stamp m s' path completed_name key
            ≡ acked m requests key (saved_stamp m s path completed_name key))
      × ((key : Text)
          → IsPlain (s.files path) key
          → saved_stamp m s' path pending_name key
            ≡ left m requests key (saved_stamp m s path pending_name key))
      × ((key : Text) (v : ℤ)
          → leb_ℤ v (pos 0) ≡ false
          → leb_ℤ v (saved_stamp m s path pending_name key) ≡ true
          → (leb_ℤ v (saved_stamp m s' path pending_name key) ≡ true)
            ⊎ (leb_ℤ v (saved_stamp m s' path completed_name key) ≡ true))

  -- Nothing changes, and if the answer is yes nothing was asked for; or the requests are done, for a
  -- snapshot of the file's login.
  abbrev pub CompletesStamps : Sessions → Text → Json → Sessions × Bool → Type 0
  CompletesStamps s path snapshot (s', answer) =
      let requests = map_children (field m.store.cjson (some snapshot) pending_name) in
      ((s' ≡ s) × (answer ≡ true → requests ≡ nil))
      ⊎ (same_snapshot m (field m.store.cjson (some snapshot) (codes "loginId"))
            (field m.store.cjson (s.files path) (codes "loginId"))
          ≡ true)
        × AcksRequests s path requests s'
