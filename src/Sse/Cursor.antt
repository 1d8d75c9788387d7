-- ===== src/Sse/Cursor.antt =====
-- source/shared/enil_sse.c: the cursor moves forward, and only past accepted events.
use enil.Common.{
  ℕ, ◌≡◌, refl, true, false, not, ◌&&◌, List, [], ◌∷◌, ◌++◌, ◌⊎◌, inl, inr, arith, Bool-cases,
  Option-cases, ◌==◌,
}
use enil.Common.Int.{ℤ, pos, negsuc, leb_ℤ}
use enil.Common.Text.{Text, codes, text_eq, has_prefix}
use enil.Sse.{
  Env, State, Event, Delivery, append_buffer, enil_sse_event_revision, enil_sse_save_local_rev,
  advance_to, advance, turned_down, handed_over, accept, finish, dispatch_event, event_of,
  take_type, take_data, process_line, set_line, strip_cr, feed_byte, feed, write_cb,
  sse_max_line_size, touch, is_empty,
}

pub leb_ℤ_refl : (a : ℤ) → leb_ℤ a a ≡ true
leb_ℤ_refl (pos a) = ground arith
leb_ℤ_refl (negsuc a) = ground arith

pub leb_ℤ_trans : (a b c : ℤ) → leb_ℤ a b ≡ true → leb_ℤ b c ≡ true → leb_ℤ a c ≡ true
leb_ℤ_trans a b c h k = ground arith

pub leb_ℤ_total : (a b : ℤ) → leb_ℤ a b ≡ false → leb_ℤ b a ≡ true
leb_ℤ_total a b h = ground arith

module _ (env : Env) where
  -- What one step of the stream does to the cursor and to the events handed over: nothing, or one
  -- event is handed over and the cursor stays, or moves up to the revision of that event, which was
  -- accepted, with no failure and no stop, and saved.
  abbrev pub Moves : State → State → Type 0
  Moves s t =
      ((t.handed ≡ s.handed) × (t.local_rev ≡ s.local_rev))
      ⊎ ((ev : Event) × (t.handed ≡ s.handed ++ (ev ∷ []))
          × ((t.local_rev ≡ s.local_rev)
              ⊎ ((t.local_rev ≡ enil_sse_event_revision env ev.type ev.content)
                  × (leb_ℤ s.local_rev t.local_rev ≡ true)
                  × ((env.deliver s.handed ev).accepted ≡ true)
                  × ((env.deliver s.handed ev).failed ≡ false)
                  × ((env.deliver s.handed ev).stop ≡ false)
                  × (env.saves t.local_rev ≡ true))))

  advance_to_cases :
      (s : State) (rev : ℤ)
      → ((advance_to env s rev).handed ≡ s.handed)
        × (((advance_to env s rev).local_rev ≡ s.local_rev)
            ⊎ (((advance_to env s rev).local_rev ≡ rev)
                × (leb_ℤ s.local_rev rev ≡ true)
                × (env.saves rev ≡ true)))
  unfolding advance_to enil_sse_save_local_rev
  advance_to_cases s rev = elim (Bool-cases (leb_ℤ rev s.local_rev)) [
    | inl old ↦ rw (old, advance_to, enil_sse_save_local_rev) (refl, inl refl)
    | inr new ↦ elim (Bool-cases (env.saves rev)) [
      | inl saved ↦
          rw (new, saved, advance_to, enil_sse_save_local_rev)
            (refl, inr (refl, leb_ℤ_total rev s.local_rev new, refl))
      | inr lost ↦ rw (new, lost, advance_to, enil_sse_save_local_rev) (refl, inl refl)
    ]
  ]

  accept_cases :
      (s : State) (ev : Event)
      → ((accept env s ev).handed ≡ s.handed)
        × (((accept env s ev).local_rev ≡ s.local_rev)
            ⊎ (((accept env s ev).local_rev ≡ enil_sse_event_revision env ev.type ev.content)
                × (leb_ℤ s.local_rev (enil_sse_event_revision env ev.type ev.content) ≡ true)
                × (env.saves (enil_sse_event_revision env ev.type ev.content) ≡ true)))
  unfolding accept advance
  accept_cases s ev = elim (Bool-cases (text_eq ev.type (codes "fullSync"))) [
    | inl full ↦ elim (Bool-cases (text_eq ev.type (codes "reconnect"))) [
      | inl e ↦ rw (full, e, accept) (refl, inl refl)
      | inr e ↦ rw (full, e, accept) (refl, inl refl)
    ]
    | inr part ↦ elim (Bool-cases (text_eq ev.type (codes "reconnect"))) [
      | inl e ↦
          rw (part, e, accept) (advance_to_cases s (enil_sse_event_revision env ev.type ev.content))
      | inr e ↦
          rw (part, e, accept) (advance_to_cases s (enil_sse_event_revision env ev.type ev.content))
    ]
  ]

  pub taken_up :
      (s : State) (d : Delivery)
      → turned_down env s d ≡ false
      → (d.accepted ≡ true) × (d.failed ≡ false) × (d.stop ≡ false)
  taken_up s d h = ground arith

  finish-Moves : (s : State) (ev : Event) → Moves s (finish env s ev (env.deliver s.handed ev))
  unfolding finish
  finish-Moves s ev =
      let d = env.deliver s.handed ev in
      let (same, moved) = accept_cases (handed_over env s ev d) ev in
      elim (Bool-cases (turned_down env s d)) [
        | inl down ↦ rw (down, finish) (inr (ev, refl, inl refl))
        | inr up ↦
            let (a, f, st) = taken_up s d up in
            elim moved [
              | inl stays ↦ rw (up, finish) (inr (ev, same, inl stays))
              | inr (e, le, ok) ↦
                  rw (up, finish) (inr (ev, same, inr (e, rw e le, a, f, st, rw e ok)))
            ]
      ]

  dispatch-Moves : (s : State) → Moves s (dispatch_event env s)
  unfolding dispatch_event
  dispatch-Moves s = elim (Bool-cases (is_empty s.event_type && not s.has_data)) [
    | inl nothing ↦ rw nothing (inl (refl, refl))
    | inr something ↦ rw something (finish-Moves s (event_of s))
  ]

  take_type_still :
      (s : State) (v : Text)
      → ((take_type s v).handed ≡ s.handed) × ((take_type s v).local_rev ≡ s.local_rev)
  unfolding take_type
  take_type_still s v = ground arith

  take_data_still :
      (s : State) (v : Text)
      → ((take_data env s v).handed ≡ s.handed) × ((take_data env s v).local_rev ≡ s.local_rev)
  unfolding take_data
  take_data_still s v = ground arith

  pub process_line-Moves : (s : State) → Moves s (process_line env s)
  unfolding process_line
  process_line-Moves s = elim (Bool-cases (is_empty s.line.text)) [
    | inl e ↦ rw (e, process_line) (dispatch-Moves s)
    | inr e ↦ elim (Bool-cases (has_prefix (codes "event:") s.line.text)) [
      | inl e' ↦ rw (e, e', process_line) (inl (take_type_still s _))
      | inr e' ↦ elim (Bool-cases (has_prefix (codes "data:") s.line.text)) [
        | inl e'' ↦ rw (e, e', e'', process_line) (inl (take_data_still s _))
        | inr e'' ↦ rw (e, e', e'', process_line) (inl (refl, refl))
      ]
    ]
  ]

  -- Every byte of the stream hands over one event at most, and changes the cursor only to the
  -- revision of an event that the callback accepted with no failure and no stop, that does not
  -- lie below the old cursor, and that was saved.
  pub feed_byte-Moves : (s : State) (c : ℕ) → Moves s (feed_byte env s c).0
  unfolding feed_byte
  feed_byte-Moves s c = elim (Bool-cases (c == 10)) [
    | inl e ↦ rw (e, feed_byte) (process_line-Moves (set_line s (strip_cr s.line.text)))
    | inr e ↦ elim (Option-cases (append_buffer env.grants s.line (c ∷ []) sse_max_line_size)) [
      | inl e' ↦ rw (e, e', feed_byte) (inl (refl, refl))
      | inr (b, e') ↦ rw (e, e', feed_byte) (inl (refl, refl))
    ]
  ]

  pub Moves-forward : (s t : State) → Moves s t → leb_ℤ s.local_rev t.local_rev ≡ true
  Moves-forward s t (inl (h, k)) = rw k (leb_ℤ_refl s.local_rev)
  Moves-forward s t (inr (ev, h, inl k)) = rw k (leb_ℤ_refl s.local_rev)
  Moves-forward s t (inr (ev, h, inr (e, le, a, f, st, saved))) = le

  -- Over any bytes the cursor never moves back.
  pub feed-forward :
      (s : State) (bytes : List ℕ) → leb_ℤ s.local_rev (feed env s bytes).0.local_rev ≡ true
  unfolding feed
  feed-forward s [] = leb_ℤ_refl s.local_rev
  feed-forward s (c ∷ bytes) = elim (Bool-cases (feed_byte env s c).1) [
    | inl more ↦
        rw (more, feed)
          (leb_ℤ_trans s.local_rev (feed_byte env s c).0.local_rev _
            (Moves-forward s (feed_byte env s c).0 (feed_byte-Moves s c))
            (feed-forward (feed_byte env s c).0 bytes))
    | inr stop ↦ rw (stop, feed) (Moves-forward s (feed_byte env s c).0 (feed_byte-Moves s c))
  ]

  -- Over any bytes, with any answers of the callback and the database, write_cb never moves the
  -- cursor back.
  pub write_cb-forward :
      (now : ℕ) (s : State) (bytes : List ℕ)
      → leb_ℤ s.local_rev (write_cb env now s bytes).0.local_rev ≡ true
  unfolding write_cb
  write_cb-forward now s [] = feed-forward s []
  write_cb-forward now s (c ∷ bytes) = feed-forward (touch now s (c ∷ bytes)) (c ∷ bytes)
