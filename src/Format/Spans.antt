-- ===== src/Format/Spans.antt =====
-- source/shared/enil_message_format.c: the spans that the first pass accepts are markers, in order,
-- apart from one another and within the text, so that the pieces make up the text.
use enil.Common.{
  zero, suc, ◌+◌, ◌-◌, ◌==◌, ◌≢◌, List, [], ◌∷◌, ◌++◌, get_or, take, drop, All, ap, ◌∙◌, ◌⊎◌,
  length-drop, length-take, drop-drop, ℕ, ◌≤◌, ◌<◌, ◌≡◌, refl, Bool, true, false, ◌&&◌, Option,
  none, some, ltb, length, arith, Bool-cases, Ensures, inl, inr,
}
use enil.Common.Text.{Text, codes}
use enil.Common.Json.{Json, Children, nil, node}
use enil.Format.{
  Env, marker_span, marker_at, or_else, marker_in, both, span_between, span_of, resource_span,
  check_spans, accept, all_plain, plain, slice, utf16_boundary, is_true, item, whole_at, number_at,
  run_is_blank, is_some, image_of,
}

-- A marker: `$`, or some text in parentheses that holds none and no end of a line.
abbrev pub IsInner : ℕ → Type 0
IsInner c = (c ≢ b'(') × (c ≢ b')') × (c ≢ 10) × (c ≢ 13)

abbrev pub IsMarker : Text → Type 0
IsMarker m =
    (m ≡ b'$' ∷ [])
    ⊎ ((inner : Text) × (m ≡ b'(' ∷ (inner ++ (b')' ∷ [])))
        × (1 ≤ length inner)
        × All IsInner inner)

get_or-drop : (n k : ℕ) (xs : List ℕ) → get_or (drop n xs) k 0 ≡ get_or xs (n + k) 0
get_or-drop zero k xs = let e : zero + k ≡ k = omega arith in rw e refl
get_or-drop (suc n) zero [] = refl
get_or-drop (suc n) (suc k) [] = refl
get_or-drop (suc n) k (x ∷ xs) =
    let e : suc n + k ≡ suc (n + k) = omega arith in rw e (get_or-drop n k xs)

take-snoc :
    (k : ℕ) (xs : List ℕ) → k < length xs → take (suc k) xs ≡ take k xs ++ (get_or xs k 0 ∷ [])
take-snoc k [] h = absurd (omega (arith, h))
take-snoc zero (x ∷ xs) h = refl
take-snoc (suc k) (x ∷ xs) h = ap (λ t. x ∷ t) (take-snoc k xs (omega (arith, h)))

take-one : (xs : List ℕ) → 1 ≤ length xs → take 1 xs ≡ get_or xs 0 0 ∷ []
take-one [] h = absurd (omega (arith, h))
take-one (x ∷ xs) h = refl

take-ends :
    (n : ℕ) (xs : List ℕ)
    → suc (suc n) ≤ length xs
    → take (suc (suc n)) xs ≡ get_or xs 0 0 ∷ (take n (drop 1 xs) ++ (get_or xs (suc n) 0 ∷ []))
take-ends n [] h = absurd (omega (arith, h))
take-ends n (x ∷ xs) h = ap (λ t. x ∷ t) (take-snoc n xs (omega (arith, h)))

between :
    (n : ℕ) (xs t : List ℕ) (a b : ℕ)
    → suc (suc n) ≤ length xs
    → get_or xs 0 0 ≡ a
    → get_or xs (suc n) 0 ≡ b
    → drop 1 xs ≡ t
    → take (suc (suc n)) xs ≡ a ∷ (take n t ++ (b ∷ []))
between n xs t a b h first last behind = rw⁻¹ (first, last, behind) (take-ends n xs h)

all_plain-All : (s : List ℕ) → all_plain s ≡ true → All IsInner s
all_plain-All [] h = tt
all_plain-All (c ∷ s) h = elim (Bool-cases (plain c)) [
  | inl p ↦ (ground (arith, p), all_plain-All s (ground (arith, h, p)))
  | inr p ↦ absurd (ground (arith, h, p))
]

marker_span-bounds :
    (text : Text) (s e : ℕ) → marker_span text s e ≡ true → (s < e) × (e ≤ length text)
unfolding marker_span
marker_span-bounds text s e h = ground (arith, h)

marker_span-IsMarker :
    (text : Text) (s e : ℕ) → marker_span text s e ≡ true → IsMarker (slice text s e)
unfolding marker_span
marker_span-IsMarker text s e h =
    let d = drop s text in
    let inside = marker_span-bounds text s e h in
    elim (Bool-cases ((e - s == 1) && (get_or text s 0 == b'$'))) [
      | inl single ↦
          let size : e - s ≡ 1 = ground (arith, single) in
          let dollar : get_or text s 0 ≡ b'$' = ground (arith, single) in
          let at : get_or d 0 0 ≡ get_or text s 0 =
            get_or-drop s 0 text ∙ (let e0 : s + 0 ≡ s = omega arith in rw e0 refl) in
          inl (
            rw size (
              take-one d (omega (arith, inside, length-drop s text))
              ∙ ap (λ (c : ℕ). c ∷ []) (at ∙ dollar)))
      | inr wide ↦
          let n = e - s - 2 in
          let long : 3 ≤ e - s = ground (arith, h, wide) in
          let opening : get_or text s 0 ≡ b'(' = ground (arith, h, wide) in
          let closing : get_or text (e - 1) 0 ≡ b')' = ground (arith, h, wide) in
          let plain_inside : all_plain (take n (drop (s + 1) text)) ≡ true =
            ground (arith, h, wide) in
          let size : e - s ≡ suc (suc n) = omega (arith, long) in
          let first : get_or d 0 0 ≡ b'(' =
            get_or-drop s 0 text ∙ (let e0 : s + 0 ≡ s = omega arith in rw e0 opening) in
          let last : get_or d (suc n) 0 ≡ b')' =
            get_or-drop s (suc n) text
            ∙ (let e1 : s + suc n ≡ e - 1 = omega (arith, long) in rw e1 closing) in
          let behind : drop 1 d ≡ drop (s + 1) text = drop-drop s 1 text in
          inr (
            take n (drop (s + 1) text),
            ap (λ m. take m d) size
                ∙ between n d (drop (s + 1) text) b'(' b')'
                    (omega (arith, inside, length-drop s text, long)) first last behind,
            omega
                (arith, length-take n (drop (s + 1) text), length-drop (s + 1) text, inside, long),
            all_plain-All (take n (drop (s + 1) text)) plain_inside,
          )
    ]

abbrev pub Marked : Text → ℕ × ℕ → Type 0
Marked text (s, e) = marker_span text s e ≡ true

marker_at-Marked : (text : Text) (span : ℕ × ℕ) → Ensures (Marked text) (marker_at text span)
unfolding marker_at
marker_at-Marked text (s, e) = elim (Bool-cases (marker_span text s e)) [
  | inl h ↦ rw (marker_at, h) h
  | inr h ↦ rw (marker_at, h) tt
]

or_else-Ensures :
    (text : Text) (a b : Option (ℕ × ℕ))
    → Ensures (Marked text) a
    → Ensures (Marked text) b
    → Ensures (Marked text) (or_else a b)
or_else-Ensures text none b ha hb = hb
or_else-Ensures text (some a) b ha hb = ha

marker_in-Marked : (text : Text) (o : Option (ℕ × ℕ)) → Ensures (Marked text) (marker_in text o)
marker_in-Marked text none = tt
marker_in-Marked text (some span) = marker_at-Marked text span

span_between-Marked :
    (text : Text) (bytes : Bool) (a b : ℕ) → Ensures (Marked text) (span_between text bytes a b)
unfolding span_between
span_between-Marked text true a b = marker_at-Marked text (a, b)
span_between-Marked text false a b =
    or_else-Ensures text (marker_in text (both (utf16_boundary text a) (utf16_boundary text b)))
      (marker_at text (a, b))
      (marker_in-Marked text (both (utf16_boundary text a) (utf16_boundary text b)))
      (marker_at-Marked text (a, b))

span_of-Marked :
    (text : Text) (bytes : Bool) (o : Option (ℕ × ℕ)) → Ensures (Marked text) (span_of text bytes o)
span_of-Marked text bytes none = tt
span_of-Marked text bytes (some (a, b)) = elim (Bool-cases (ltb a b)) [
  | inl h ↦ rw (h) (span_between-Marked text bytes a b)
  | inr h ↦ rw (h) tt
]

-- A span that `resource_span` gives is a marker within the text.
resource_span-Marked :
    (env : Env) (text : Text) (r : Json) → Ensures (Marked text) (resource_span env text r)
unfolding resource_span
resource_span-Marked env text r =
    span_of-Marked text (is_true (item env r (codes "byte_offsets"))) (
      both (whole_at env (number_at (item env r (codes "S"))))
        (whole_at env (number_at (item env r (codes "E")))))

module _ (env : Env) (text : Text) where
  -- The spans of the resources lie in the text from `cursor` on, each behind the one before, up to
  -- `end`; each holds a marker.
  abbrev pub Tiles : Children → ℕ → ℕ → Type 0
  Tiles nil cursor end = cursor ≡ end
  Tiles (node k r rs) cursor end =
      (s : ℕ) × (e : ℕ) × (resource_span env text r ≡ some (s, e))
      × (cursor ≤ s)
      × (s < e)
      × (e ≤ length text)
      × IsMarker (slice text s e)
      × Tiles rs e end

  accepted-Tiles :
      (k : Text) (r : Json) (rs : Children) (cursor end : ℕ) (jumbo j : Bool) (o : Option (ℕ × ℕ))
      → resource_span env text r ≡ o
      → Ensures (Marked text) o
      → ((end' : ℕ) (j' : Bool)
          → check_spans env text rs end' j' ≡ some (end, j)
          → Tiles rs end' end)
      → elim (accept env text r cursor jumbo o) [
        | none ↦ none
        | some (end', j') ↦ check_spans env text rs end' j'
      ]
        ≡ some (end, j)
      → Tiles (node k r rs) cursor end
  accepted-Tiles k r rs cursor end jumbo j none q m ih h = absurd cc
  accepted-Tiles k r rs cursor end jumbo j (some (s, e)) q m ih h =
      elim (Bool-cases (ltb s cursor)) [
        | inl l ↦ absurd (ground (arith, l, h))
        | inr l ↦
            let (lt, le) = marker_span-bounds text s e m in
            (
              s,
              e,
              q,
              ground (arith, l),
              lt,
              le,
              marker_span-IsMarker text s e m,
              ih e (jumbo && (run_is_blank (slice text cursor s) && is_some (image_of env r)))
                  (ground (arith, l, h)),
            )
      ]

  -- If the first pass over the resources of a message accepts them, from a cursor to an end,
  -- their spans lie within the text, each behind the one before, from the cursor up to that end,
  -- and each holds a dollar sign or some text in parentheses without a parenthesis and an end of
  -- a line.
  pub check_spans-Tiles :
      (rs : Children) (cursor end : ℕ) (jumbo j : Bool)
      → check_spans env text rs cursor jumbo ≡ some (end, j)
      → Tiles rs cursor end
  unfolding check_spans
  check_spans-Tiles nil cursor end jumbo j h = ground (arith, h)
  check_spans-Tiles (node k r rs) cursor end jumbo j h =
      accepted-Tiles k r rs cursor end jumbo j (resource_span env text r) refl
        (resource_span-Marked env text r) (λ end' j' h'. check_spans-Tiles rs end' end j' j h') h
