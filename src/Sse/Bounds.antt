-- ===== src/Sse/Bounds.antt =====
-- source/shared/enil_sse.c: the buffers of the stream parser stay within their limits.
use enil.Common.{
  ℕ, zero, suc, ◌+◌, ◌*◌, ◌^◌, ◌≤◌, ◌<◌, ◌≡◌, Bool, true, false, Option, none, some, List, [], ◌∷◌,
  ◌++◌, ◌⊎◌, inl, inr, arith, length, length-append, Bool-cases, Option-cases, ◌==◌, if◌then◌else◌,
  ltb, Ensures, ap, drop,
}
use enil.Common.Text.{Text}
use enil.Sse.{
  Env, State, Event, Buffer, put_data, put_text, touch, grow, append_buffer, advance_to, advance,
  accept, finish, handed_over, event_of, dispatch_event, take_type, take_data, process_line,
  set_line, strip_cr, feed_byte, feed, write_cb, sse_max_line_size, sse_max_event_size, field_text,
  enil_sse_save_local_rev,
}
use native.Mathlib.Nat.{pow-suc}

-- A buffer before its first allocation, or with room for its text and a NUL, within its limit.
abbrev pub Fits : ℕ → Buffer → Type 0
Fits limit b =
    (length b.text ≤ limit)
    × (b.cap ≤ limit + 1)
    × ((length b.text ≡ 0) × (b.cap ≡ 0) ⊎ (length b.text < b.cap))

grow-le : (fuel grown needed : ℕ) → needed ≤ 2 ^ fuel * grown → needed ≤ grow fuel grown needed
unfolding grow
grow-le zero grown needed h = omega arith
grow-le (suc fuel) grown needed h = elim (Bool-cases (ltb grown needed)) [
  | inl more ↦
      rw more (
        grow-le fuel (grown * 2) needed (omega (arith, ap (λ (t : ℕ). t * grown) (pow-suc 2 fuel))))
  | inr done ↦ rw done (ground arith)
]

-- `append_sse` gives the text followed by the new bytes, in a block with room for both and the NUL.
pub append_buffer-Fits :
    (grants : ℕ → Bool) (b : Buffer) (text : Text) (limit : ℕ)
    → limit < 2 ^ 24
    → Fits limit b
    → Ensures (λ b'. Fits limit b' × (b'.text ≡ b.text ++ text)) (append_buffer grants b text limit)
unfolding append_buffer
append_buffer-Fits grants b text limit h f = ground (
  arith,
  grow-le 24 (if b.cap == 0 then 256 else b.cap) (length b.text + length text + 1),
  length-append b.text text,
)

-- The parser's state: both buffers fit, and the event type leaves room for its NUL in 64 bytes.
pub record IsBounded (s : State) : Type 0 where
  pub line_fits : Fits sse_max_line_size s.line
  pub content_fits : Fits sse_max_event_size s.content
  pub type_fits : length s.event_type < 64

length-strip_cr : (t : Text) → length (strip_cr t) ≤ length t
unfolding strip_cr
length-strip_cr [] = omega arith
length-strip_cr (c ∷ []) = ground arith
length-strip_cr (c ∷ d ∷ t) = omega (arith, length-strip_cr (d ∷ t))

module _ (env : Env) where
  accept_same :
      (s : State) (ev : Event)
      → ((accept env s ev).line ≡ s.line)
        × ((accept env s ev).content ≡ s.content)
        × ((accept env s ev).event_type ≡ s.event_type)
  unfolding accept advance advance_to enil_sse_save_local_rev
  accept_same s ev = ground arith

  dispatch-IsBounded : (s : State) → IsBounded s → IsBounded (dispatch_event env s)
  unfolding dispatch_event finish
  dispatch-IsBounded s h = ground (
    arith,
    accept_same (handed_over env s (event_of s) (env.deliver s.handed (event_of s))) (event_of s),
  )

  take_type-IsBounded : (s : State) (v : Text) → IsBounded s → IsBounded (take_type s v)
  unfolding take_type
  take_type-IsBounded s v h = ground arith

  put_data-IsBounded :
      (s : State) (b : Buffer) (o : Option Buffer)
      → IsBounded s
      → Fits sse_max_event_size b
      → Ensures (Fits sse_max_event_size) o
      → IsBounded (put_data s b o)
  unfolding put_data
  put_data-IsBounded s b none h f e = record {
    line_fits = h.line_fits;
    content_fits = f;
    type_fits = h.type_fits;
  }
  put_data-IsBounded s b (some b') h f e = record {
    line_fits = h.line_fits;
    content_fits = e;
    type_fits = h.type_fits;
  }

  appended-Fits :
      (b : Buffer) (v : Text) (limit : ℕ)
      → limit < 2 ^ 24
      → Fits limit b
      → Ensures (Fits limit) (append_buffer env.grants b v limit)
  appended-Fits b v limit h f =
      go (append_buffer env.grants b v limit) (append_buffer-Fits env.grants b v limit h f)
    where
      go :
          (o : Option Buffer)
          → Ensures (λ b'. Fits limit b' × (b'.text ≡ b.text ++ v)) o
          → Ensures (Fits limit) o
      go none e = tt
      go (some b') e = e.0

  put_text-IsBounded :
      (s : State) (v : Text) (o : Option Buffer)
      → IsBounded s
      → Ensures (Fits sse_max_event_size) o
      → IsBounded (put_text env s v o)
  unfolding put_text
  put_text-IsBounded s v none h e = record {
    line_fits = h.line_fits;
    content_fits = h.content_fits;
    type_fits = h.type_fits;
  }
  put_text-IsBounded s v (some b) h e =
      put_data-IsBounded s b (append_buffer env.grants b v sse_max_event_size) h e
        (appended-Fits b v sse_max_event_size (omega arith) e)

  take_data-IsBounded : (s : State) (v : Text) → IsBounded s → IsBounded (take_data env s v)
  unfolding take_data
  take_data-IsBounded s v h = put_text-IsBounded s v _ h (go s.has_data)
    where
      go :
          (more : Bool)
          → Ensures (Fits sse_max_event_size) (
              if more
              then append_buffer env.grants s.content (10 ∷ []) sse_max_event_size
              else some s.content)
      go true = appended-Fits s.content (10 ∷ []) sse_max_event_size (omega arith) h.content_fits
      go false = h.content_fits

  process_line-IsBounded : (s : State) → IsBounded s → IsBounded (process_line env s)
  unfolding process_line
  process_line-IsBounded s h = ground (
    arith,
    dispatch-IsBounded s h,
    take_type-IsBounded s (field_text (drop 6 s.line.text)) h,
    take_data-IsBounded s (field_text (drop 5 s.line.text)) h,
  )

  set_line-IsBounded :
      (s : State) (t : Text)
      → length t ≤ length s.line.text
      → IsBounded s
      → IsBounded (set_line s t)
  set_line-IsBounded s t le h = ground arith

  -- A byte keeps the parser within its limits.
  pub feed_byte-IsBounded : (s : State) (c : ℕ) → IsBounded s → IsBounded (feed_byte env s c).0
  unfolding feed_byte
  feed_byte-IsBounded s c h = elim (Bool-cases (c == 10)) [
    | inl e ↦
        let line = set_line-IsBounded s (strip_cr s.line.text) (length-strip_cr s.line.text) h in
        rw (e, feed_byte)
          (set_line-IsBounded (process_line env (set_line s (strip_cr s.line.text))) []
            (omega arith) (process_line-IsBounded (set_line s (strip_cr s.line.text)) line))
    | inr e ↦
        let fits = appended-Fits s.line (c ∷ []) sse_max_line_size (omega arith) h.line_fits in
        elim (Option-cases (append_buffer env.grants s.line (c ∷ []) sse_max_line_size)) [
          | inl e' ↦
              rw (e, e', feed_byte)
                (record {
                  line_fits = h.line_fits;
                  content_fits = h.content_fits;
                  type_fits = h.type_fits;
                })
          | inr (b, e') ↦
              rw (e, e', feed_byte)
                (record {
                  line_fits = rw e' at fits;
                  content_fits = h.content_fits;
                  type_fits = h.type_fits;
                })
        ]
  ]

  feed-IsBounded : (s : State) (bytes : List ℕ) → IsBounded s → IsBounded (feed env s bytes).0
  unfolding feed
  feed-IsBounded s [] h = h
  feed-IsBounded s (c ∷ bytes) h = elim (Bool-cases (feed_byte env s c).1) [
    | inl more ↦
        rw (more, feed) (feed-IsBounded (feed_byte env s c).0 bytes (feed_byte-IsBounded s c h))
    | inr stop ↦ rw (stop, feed) (feed_byte-IsBounded s c h)
  ]

  -- Whatever bytes arrive, write_cb keeps the line and event buffers within their limits, each
  -- with room in its block for its text and NUL (or not yet allocated and empty), and the event
  -- type below 64 bytes.
  pub write_cb-IsBounded :
      (now : ℕ) (s : State) (bytes : List ℕ) → IsBounded s → IsBounded (write_cb env now s bytes).0
  unfolding write_cb
  write_cb-IsBounded now s [] h = feed-IsBounded s [] h
  write_cb-IsBounded now s (c ∷ bytes) h =
      feed-IsBounded (touch now s (c ∷ bytes)) (c ∷ bytes)
        (record { line_fits = h.line_fits; content_fits = h.content_fits; type_fits = h.type_fits })
