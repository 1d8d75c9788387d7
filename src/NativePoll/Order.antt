-- ===== src/NativePoll/Order.antt =====
-- source/shared/enil_native_poll.c: the operations of a reply are handed over in order, and none behind
-- one that was not taken.
use enil.Common.{
  ℕ, zero, suc, ◌≡◌, refl, sym, ap, ◌∙◌, Bool, true, false, Option, none, some, List, [], ◌∷◌, ◌++◌,
  ◌&&◌, arith, take, length, get_elem?, ◌<◌, append_assoc, append-nil, Bool-cases, Option-cases,
  inl, inr, some_inj,
}
use mathlib.Core.Path.{subst}
use enil.Common.Int.{ℤ}
use enil.Common.Text.{Text, codes}
use enil.Common.Json.{Json, Children, nil, node}
use enil.Sse.{
  Env, State, Event, handed_over, turned_down, enil_sse_event_revision, enil_sse_save_local_rev,
}
use enil.Sse.Cursor.{taken_up}
use enil.NativePoll.{saved_or, deliver_native, native_dispatch, dispatch_ops}

module _ (env : Env) where
  -- The event of an operation with those of the ones behind it: an operation without a text ends them.
  abbrev printed_event : Option Text → List Event → List Event
  printed_event none evs = []
  printed_event (some json) evs = record { type = codes "message"; content = json } ∷ evs

  abbrev pub events : Children → List Event
  events nil = []
  events (node k op ops) = printed_event (env.cjson.print_unformatted op) (events ops)

  -- All operations have a text.
  abbrev has_text : Option Text → Bool
  has_text none = false
  has_text (some json) = true

  abbrev pub all_texts : Children → Bool
  all_texts nil = true
  all_texts (node k op ops) = has_text (env.cjson.print_unformatted op) && all_texts ops

  saved_or-handed :
      (s : State) (rev : ℤ) → (saved_or s (enil_sse_save_local_rev env s rev)).0.handed ≡ s.handed
  unfolding enil_sse_save_local_rev
  saved_or-handed s rev = ground arith

  deliver_native-handed :
      (s : State) (ev : Event) → (deliver_native env s ev).0.handed ≡ s.handed ++ (ev ∷ [])
  unfolding deliver_native
  deliver_native-handed s ev =
      let s' = handed_over env s ev (env.deliver s.handed ev) in
      let rev = enil_sse_event_revision env ev.type ev.content in
      ground (arith, saved_or-handed s' rev)

  deliver_native-taken :
      (s : State) (ev : Event)
      → (deliver_native env s ev).1 ≡ true
      → (env.deliver s.handed ev).accepted ≡ true
  unfolding deliver_native
  deliver_native-taken s ev h = elim (Bool-cases (turned_down env s (env.deliver s.handed ev))) [
    | inl down ↦ absurd (ground (arith, down, h))
    | inr up ↦ (taken_up env s (env.deliver s.handed ev) up).0
  ]

  -- The callback took the event at an index of the list, after those before it.
  abbrev pub TookAt : List Event → List Event → ℕ → Type 0
  TookAt old evs i =
      (ev : Event)
      → get_elem? evs i ≡ some ev
      → (env.deliver (old ++ take i evs) ev).accepted ≡ true

  -- The first `n` events were handed over, and all of them but the last were taken; all were handed
  -- over and taken if the answer is true.
  abbrev pub InOrder : List Event → List Event → State × Bool → ℕ → Type 0
  InOrder old evs (t, ok) n =
      (t.handed ≡ old ++ take n evs)
      × ((i : ℕ) → suc i < n → TookAt old evs i)
      × (ok ≡ true → (n ≡ length evs) × ((i : ℕ) → TookAt old evs i))

  TookAt-cons :
      (old : List Event) (ev : Event) (evs : List Event) (i : ℕ)
      → TookAt (old ++ (ev ∷ [])) evs i
      → TookAt old (ev ∷ evs) (suc i)
  TookAt-cons old ev evs i took e h = rw⁻¹ (append_assoc old (ev ∷ []) (take i evs)) (took e h)

  InOrder-cons :
      (old : List Event) (ev : Event) (evs : List Event) (r : State × Bool) (n : ℕ)
      → (env.deliver old ev).accepted ≡ true
      → InOrder (old ++ (ev ∷ [])) evs r n
      → InOrder old (ev ∷ evs) r (suc n)
  InOrder-cons old ev evs (t, ok) n took (handed, before, all) =
      (handed ∙ append_assoc old (ev ∷ []) (take n evs), earlier before, every)
    where
      first : TookAt old (ev ∷ evs) 0
      first e h = rw (append-nil old, sym (some_inj h)) took

      earlier :
          ((i : ℕ) → suc i < n → TookAt (old ++ (ev ∷ [])) evs i)
          → (i : ℕ) → suc i < suc n
          → TookAt old (ev ∷ evs) i
      earlier before zero h = first
      earlier before (suc i) h = TookAt-cons old ev evs i (before i (omega arith))

      later : ((i : ℕ) → TookAt (old ++ (ev ∷ [])) evs i) → (i : ℕ) → TookAt old (ev ∷ evs) i
      later takes zero = first
      later takes (suc i) = TookAt-cons old ev evs i (takes i)

      every : ok ≡ true → (suc n ≡ length (ev ∷ evs)) × ((i : ℕ) → TookAt old (ev ∷ evs) i)
      every h = let (len, takes) = all h in (ap suc len, later takes)

  -- Nothing handed over: the operation has no text.
  InOrder-none : (s : State) (evs : List Event) → InOrder s.handed evs (s, false) 0
  InOrder-none s evs = (sym (append-nil s.handed), (λ i h. absurd (omega arith)), λ h. absurd cc)

  -- One event handed over, and refused.
  InOrder-one :
      (s t : State) (ev : Event) (evs : List Event)
      → t.handed ≡ s.handed ++ (ev ∷ [])
      → InOrder s.handed (ev ∷ evs) (t, false) 1
  InOrder-one s t ev evs h = (h, (λ i h. absurd (omega arith)), λ h. absurd cc)

  dispatch_ops-refused :
      (s t : State) (k : Text) (op : Json) (ops : Children)
      → native_dispatch env s (codes "message") op ≡ (t, false)
      → dispatch_ops env s (node k op ops) ≡ (t, false)
  unfolding dispatch_ops
  dispatch_ops-refused s t k op ops h =
      rw (ap (λ (r : State × Bool). r.1) h, dispatch_ops)
        (ap (λ (r : State × Bool). (r.0, false)) h)

  dispatch_ops-taken :
      (s t : State) (k : Text) (op : Json) (ops : Children)
      → native_dispatch env s (codes "message") op ≡ (t, true)
      → dispatch_ops env s (node k op ops) ≡ dispatch_ops env t ops
  unfolding dispatch_ops
  dispatch_ops-taken s t k op ops h =
      rw (ap (λ (r : State × Bool). r.1) h, dispatch_ops)
        (ap (λ (r : State × Bool). dispatch_ops env r.0 ops) h)

  native_dispatch-printed :
      (s : State) (type : Text) (item : Json) (json : Text) (ok : Bool)
      → env.cjson.print_unformatted item ≡ some json
      → (deliver_native env s (record { type = type; content = json })).1 ≡ ok
      → native_dispatch env s type item
        ≡ ((deliver_native env s (record { type = type; content = json })).0, ok)
  unfolding native_dispatch
  native_dispatch-printed s type item json ok e h = rw (e, sym h, native_dispatch) refl

  native_dispatch-unprinted :
      (s : State) (type : Text) (item : Json)
      → env.cjson.print_unformatted item ≡ none
      → native_dispatch env s type item ≡ (s, false)
  unfolding native_dispatch
  native_dispatch-unprinted s type item e = rw (e, native_dispatch) refl

  -- The events that were handed over, with how many they are; a true answer needs every text.
  abbrev pub Ordered : List Event → Children → State × Bool → Type 0
  Ordered old ops r = (n : ℕ) × InOrder old (events ops) r n × (r.1 ≡ true → all_texts ops ≡ true)

  -- The operations of a reply are handed over in order: those handed over are the first of those
  -- before one without a text, all of them but the last were accepted by the callback, and if
  -- the answer is true, all operations have a text and were handed over and accepted.
  pub dispatch_ops-InOrder :
      (s : State) (ops : Children) → Ordered s.handed ops (dispatch_ops env s ops)
  unfolding dispatch_ops
  dispatch_ops-InOrder s nil = (
    0,
    (sym (append-nil s.handed), (λ i h. absurd (omega arith)), λ h. (refl, λ i e h'. absurd (cc))),
    λ h. refl,
  )
  dispatch_ops-InOrder s (node k op ops) = elim (Option-cases (env.cjson.print_unformatted op)) [
    | inl unprinted ↦
        let e =
          dispatch_ops-refused s s k op ops
            (native_dispatch-unprinted s (codes "message") op unprinted) in
        rw (e, unprinted) (0, InOrder-none s [], λ h. absurd (cc h))
    | inr (json, e) ↦
        let ev : Event = record { type = codes "message"; content = json } in
        let s' = (deliver_native env s ev).0 in
        elim (Bool-cases (deliver_native env s ev).1) [
          | inr refused ↦
              rw
                (
                  dispatch_ops-refused s s' k op ops
                      (native_dispatch-printed s (codes "message") op json false e refused),
                  e,
                )
                (
                  1,
                  InOrder-one s s' ev (events ops) (deliver_native-handed s ev),
                  λ h. absurd (cc h),
                )
          | inl taken ↦
              let (n, rest, texts) = dispatch_ops-InOrder s' ops in
              rw
                (
                  dispatch_ops-taken s s' k op ops
                      (native_dispatch-printed s (codes "message") op json true e taken),
                  e,
                )
                (
                  suc n,
                  InOrder-cons s.handed ev (events ops) (dispatch_ops env s' ops) n
                      (deliver_native-taken s ev taken)
                      (subst (λ old. InOrder old (events ops) (dispatch_ops env s' ops) n)
                        (deliver_native-handed s ev) rest),
                  texts,
                )
        ]
  ]
