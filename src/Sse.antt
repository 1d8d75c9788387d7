-- ===== src/Sse.antt =====
-- source/shared/enil_sse.c: the Chrome event stream, from bytes to delivered events and the saved
-- cursor. The client's callback, the database and other threads answer through `Env`.
use enil.Common.{
  ℕ, zero, suc, ◌+◌, ◌-◌, ◌*◌, Bool, true, false, not, ◌&&◌, ◌||◌, Option, none, some, List, [],
  ◌∷◌, ◌++◌, ltb, leb, ◌==◌, if◌then◌else◌, length, take, drop, get_or,
}
use enil.Common.Int.{ℤ, pos, leb_ℤ}
use enil.Common.Text.{Text, codes, text_eq, c_string, has_prefix}
use enil.Common.Json.{Json, Cjson, Numbers}
pub mod Cursor
pub mod Bounds
pub mod Chunks
pub mod Runs
use enil.ApiJson.{enil_json_coerce_int64}

abbrev pub sse_idle_timeout : ℕ
sse_idle_timeout = 45

abbrev pub sse_max_event_size : ℕ
sse_max_event_size = 8 * 1024 * 1024

abbrev pub sse_max_line_size : ℕ
sse_max_line_size = sse_max_event_size + 7

pub record Event : Type 0 where
  pub type : Text
  pub content : Text

-- What the world does at one delivery: the callback's answer, whether a health gate has failed by
-- then, and what other threads have asked for meanwhile.
pub record Delivery : Type 0 where
  pub accepted : Bool
  pub failed : Bool
  pub stop : Bool
  pub kick : Bool

-- `deliver` sees the events handed over so far and the new one.
pub record Env : Type 0 where
  pub grants : ℕ → Bool
  pub deliver : List Event → Event → Delivery
  pub saves : ℤ → Bool
  pub cjson : Cjson
  pub numbers : Numbers

-- A growing buffer: its text and its capacity (0 before the first allocation).
pub record Buffer : Type 0 where
  pub text : Text
  pub cap : ℕ

-- `ENILSSEState` with the fields of `ENILSSEClient` that the stream uses. `handed` records the
-- events given to the callback, `line_failed` a failure reported to the health gate.
pub record State : Type 0 where
  pub line : Buffer
  pub event_type : Text
  pub content : Buffer
  pub has_data : Bool
  pub local_rev : ℤ
  pub stop : Bool
  pub reconnect : Bool
  pub delivery_failed : Bool
  pub line_failed : Bool
  pub last_activity : ℕ
  pub handed : List Event

-- `while (grown < needed) grown *= 2;`, on fuel.
unfoldable pub grow : ℕ → ℕ → ℕ → ℕ
grow zero grown needed = grown
grow (suc fuel) grown needed =
    let rest = grow fuel (grown * 2) needed in if ltb grown needed then rest else grown

-- `append_sse` on one buffer; `none` is its failure. The sizes stay below 2^24, so nothing wraps,
-- and 24 doublings of at least 256 pass every size that is asked for.
unfoldable pub append_buffer : (ℕ → Bool) → Buffer → Text → ℕ → Option Buffer
unfolding grow
append_buffer grants b text limit =
    let needed = length b.text + length text + 1 in
    let doubled = grow 24 (if b.cap == 0 then 256 else b.cap) needed in
    let grown = if ltb (limit + 1) doubled then limit + 1 else doubled in
    let b' : Buffer = record { text = b.text ++ text; cap = b.cap } in
    if ltb (limit - length b.text) (length text)
    then none
    else if ltb b.cap needed
    then (if grants grown then some (record b' { cap = grown }) else none)
    else some b'

-- The `failed:` exit of `append_sse`.
abbrev pub refuse : State → State
refuse s = record s { delivery_failed = true; line_failed = true }

-- The end of `dispatch_event`: the event is forgotten.
abbrev pub clear_event : State → State
clear_event s = record s {
  event_type = [];
  content = record { text = []; cap = s.content.cap };
  has_data = false;
}

abbrev pub is_empty : Text → Bool
is_empty [] = true
is_empty (c ∷ s) = false

abbrev pub event_of : State → Event
event_of s = record {
  type = if is_empty s.event_type then codes "message" else s.event_type;
  content = s.content.text;
}

-- `if (*val == ' ') val++;`, and the text up to a NUL.
abbrev pub field_text : Text → Text
field_text [] = []
field_text (c ∷ s) = if c == b' ' then c_string s else c_string (c ∷ s)

unfoldable pub take_type : State → Text → State
take_type s val = if leb 64 (length val) then refuse s else record s { event_type = val }

abbrev pub set_line : State → Text → State
set_line s text = record s { line = record { text = text; cap = s.line.cap } }

-- The line without a `\r` at its end.
unfoldable pub strip_cr : Text → Text
strip_cr [] = []
strip_cr (c ∷ []) = if c == 13 then [] else c ∷ []
strip_cr (c ∷ d ∷ s) = c ∷ strip_cr (d ∷ s)

-- `progress_cb`: true ends the transfer.
unfoldable pub progress_cb : ℕ → State → State × Bool
progress_cb now s =
    if s.stop || s.reconnect
    then (s, true)
    else if not (s.last_activity == 0) && ltb sse_idle_timeout (now - s.last_activity)
    then (record s { reconnect = true }, true)
    else (s, false)

-- The answer of the second `append_sse` of a data field.
unfoldable pub put_data : State → Buffer → Option Buffer → State
put_data s b none = refuse (record s { content = b })
put_data s b (some b') = record s { content = b'; has_data = true }

-- `if (total) s->client->last_activity = time(NULL);`
abbrev pub touch : ℕ → State → List ℕ → State
touch now s [] = s
touch now s (c ∷ bytes) = record s { last_activity = now }

module _ (env : Env) where
  -- The revision that an event carries, at least 0.
  unfoldable pub enil_sse_event_revision : Text → Text → ℤ
  unfolding enil_json_coerce_int64
  enil_sse_event_revision type text =
      let key =
        if text_eq type (codes "fullSync") then codes "nextRevision" else codes "revision" in
      elim (env.cjson.parse text) [
        | none ↦ pos 0
        | some root ↦
            let rev = enil_json_coerce_int64 env.numbers (env.cjson.get_object_item root key) in
            if leb_ℤ rev (pos 0) then pos 0 else rev
      ]

  -- `none` is the result 0: the revision could not be saved.
  unfoldable pub enil_sse_save_local_rev : State → ℤ → Option State
  enil_sse_save_local_rev s rev =
      if leb_ℤ rev s.local_rev
      then some s
      else if env.saves rev
      then some (record s { local_rev = rev })
      else none

  unfoldable pub advance_to : State → ℤ → State
  advance_to s rev = elim (enil_sse_save_local_rev s rev) [
    | none ↦ record s { delivery_failed = true }
    | some s' ↦ s'
  ]

  unfoldable pub advance : State → Event → State
  unfolding advance_to
  advance s ev = advance_to s (enil_sse_event_revision ev.type ev.content)

  -- `(c->fn && !c->fn(&ev, c->ctx)) || enil_health_any_failed() || enil_atomic_load(&c->stop)`
  abbrev pub turned_down : State → Delivery → Bool
  turned_down s d = not d.accepted || (d.failed || s.line_failed) || (s.stop || d.stop)

  -- After the callback: the event is on record, and so is what other threads asked for meanwhile.
  abbrev pub handed_over : State → Event → Delivery → State
  handed_over s ev d = record s {
    handed = s.handed ++ (ev ∷ []);
    stop = s.stop || d.stop;
    reconnect = s.reconnect || d.kick;
  }

  -- The branches on the type of an accepted event.
  unfoldable pub accept : State → Event → State
  unfolding advance
  accept s ev =
      let s' =
        if text_eq ev.type (codes "fullSync") then record s { stop = true } else advance s ev in
      if text_eq ev.type (codes "reconnect") then record s' { reconnect = true } else s'

  -- `dispatch_event` once the callback has answered `d`.
  unfoldable pub finish : State → Event → Delivery → State
  finish s ev d =
      if turned_down s d
      then record (handed_over s ev d) { delivery_failed = true }
      else clear_event (accept (handed_over s ev d) ev)

  unfoldable pub dispatch_event : State → State
  dispatch_event s =
      if is_empty s.event_type && not s.has_data
      then s
      else finish s (event_of s) (env.deliver s.handed (event_of s))

  -- The text of the field, behind the buffer `b` that holds what came before and the newline.
  unfoldable pub put_text : State → Text → Option Buffer → State
  unfolding put_data
  put_text s val none = refuse s
  put_text s val (some b) = put_data s b (append_buffer env.grants b val sse_max_event_size)

  -- Consecutive data fields are joined by a newline.
  unfoldable pub take_data : State → Text → State
  unfolding put_text
  take_data s val = put_text s val (
      if s.has_data
      then append_buffer env.grants s.content (10 ∷ []) sse_max_event_size
      else some s.content)

  unfoldable pub process_line : State → State
  process_line s =
      if is_empty s.line.text
      then dispatch_event s
      else if has_prefix (codes "event:") s.line.text
      then take_type s (field_text (drop 6 s.line.text))
      else if has_prefix (codes "data:") s.line.text
      then take_data s (field_text (drop 5 s.line.text))
      else s

  -- One byte of `write_cb`'s loop. The flag is true if the transfer goes on.
  unfoldable pub feed_byte : State → ℕ → State × Bool
  feed_byte s c =
      if c == 10
      then (let t = set_line (process_line (set_line s (strip_cr s.line.text))) [] in
          (t, not (t.stop || t.reconnect || t.delivery_failed)))
      else elim (append_buffer env.grants s.line (c ∷ []) sse_max_line_size) [
        | none ↦ (refuse s, false)
        | some b ↦ (record s { line = b }, true)
      ]

  unfoldable pub feed : State → List ℕ → State × Bool
  feed s [] = (s, true)
  feed s (c ∷ bytes) =
      let (s', more) = feed_byte s c in elim more [ true ↦ feed s' bytes | false ↦ (s', false) ]

  -- `write_cb`: false is the return of 0, which ends the transfer.
  unfoldable pub write_cb : ℕ → State → List ℕ → State × Bool
  unfolding feed
  write_cb now s bytes =
      let (s', more) = feed (touch now s bytes) bytes in (s', more && not (s'.reconnect || s'.stop))
