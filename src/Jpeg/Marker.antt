-- ===== src/Jpeg/Marker.antt =====
-- source/shared/enil_jpeg.c: a file that is taken for whole holds its end marker.
use enil.Common.{
  ℕ, zero, suc, ◌+◌, ◌-◌, ◌*◌, ◌≡◌, refl, sym, ap, ◌<◌, ◌≤◌, length-append, ◌∙◌, Bool, true, false,
  ◌&&◌, ◌||◌, Option, none, some, List, [], ◌∷◌, ◌++◌, ltb, ◌==◌, length, arith, Bool-cases, inl,
  inr, append_assoc, ==_iff, some_inj,
}
use enil.Jpeg.{
  skip_scan, read_marker, skip_bytes, find_ff, skip_segment, is_restart, Round, go, stop,
  after_segment, on_marker, marked, from_ff, round, rounds, enil_jpeg_complete,
}

-- The bytes `r` are at the end of `s`.
abbrev Behind : List ℕ → List ℕ → Type 0
Behind s r = (u : List ℕ) × (s ≡ u ++ r)

Behind-trans : (s r t : List ℕ) → Behind s r → Behind r t → Behind s t
Behind-trans s r t (u, e) (w, e') =
    (u ++ w, e ∙ (ap (λ (x : List ℕ). u ++ x) e' ∙ sym (append_assoc u w t)))

Behind-cons : (c : ℕ) (s r : List ℕ) → Behind s r → Behind (c ∷ s) r
Behind-cons c s r (u, e) = (c ∷ u, ap (λ (x : List ℕ). c ∷ x) e)

Behind-length : (s r : List ℕ) → Behind s r → length r ≤ length s
Behind-length s r (u, e) =
    let size = ap (λ (x : List ℕ). length x) e ∙ length-append u r in omega (arith, size)

skip_scan-Behind : (s r : List ℕ) → skip_scan s ≡ some r → Behind s (255 ∷ r)
unfolding skip_scan
skip_scan-Behind [] r h = absurd cc
skip_scan-Behind (c ∷ s) r h = elim (Bool-cases (c == 255)) [
  | inl e ↦ ([], ground (arith, h, e))
  | inr e ↦ Behind-cons c s (255 ∷ r) (skip_scan-Behind s r (ground (arith, h, e)))
]

find_ff-Behind : (scan : Bool) (s r : List ℕ) → find_ff scan s ≡ some r → Behind s (255 ∷ r)
unfolding find_ff
find_ff-Behind true s r h = skip_scan-Behind s r h
find_ff-Behind false [] r h = absurd cc
find_ff-Behind false (c ∷ s) r h = elim (Bool-cases (c == 255)) [
  | inl e ↦ ([], ground (arith, h, e))
  | inr e ↦ absurd (ground (arith, h, e))
]

read_marker-Behind :
    (s : List ℕ) (m : ℕ) (r : List ℕ) → read_marker s ≡ some (m, r) → Behind (255 ∷ s) (255 ∷ m ∷ r)
unfolding read_marker
read_marker-Behind [] m r h = absurd cc
read_marker-Behind (c ∷ s) m r h = elim (Bool-cases (c == 255)) [
  | inl e ↦
      let c_ff : c ≡ 255 = (==_iff c 255).0 e in
      Behind-cons 255 (c ∷ s) (255 ∷ m ∷ r)
        (rw c_ff (read_marker-Behind s m r (ground (arith, h, e))))
  | inr e ↦ ([], ground (arith, h, e))
]

skip_bytes-Behind : (n : ℕ) (s r : List ℕ) → skip_bytes n s ≡ some r → Behind s r
unfolding skip_bytes
skip_bytes-Behind zero s r h = ([], some_inj h)
skip_bytes-Behind (suc n) [] r h = absurd cc
skip_bytes-Behind (suc n) (c ∷ s) r h = Behind-cons c s r (skip_bytes-Behind n s r h)

skip_segment-Behind : (m : ℕ) (s r : List ℕ) → skip_segment m s ≡ some r → Behind s r
unfolding skip_segment
skip_segment-Behind m [] r h = ([], ground (arith, h))
skip_segment-Behind m (hi ∷ []) r h = ([], ground (arith, h))
skip_segment-Behind m (hi ∷ lo ∷ s) r h = elim (Bool-cases (m == 1)) [
  | inl e ↦ ([], ground (arith, h, e))
  | inr e ↦ elim (Bool-cases (ltb (hi * 256 + lo) 2)) [
    | inl l ↦ absurd (ground (arith, h, e, l))
    | inr l ↦
        Behind-cons hi (lo ∷ s) r
          (Behind-cons lo s r (skip_bytes-Behind (hi * 256 + lo - 2) s r (ground (arith, h, e, l))))
  ]
]

-- The bytes hold an end marker.
abbrev pub HoldsEnd : List ℕ → Type 0
HoldsEnd s = (r : List ℕ) × Behind s (255 ∷ 217 ∷ r)

-- What a round may come to, on the bytes `s`.
abbrev Outcome : List ℕ → Round → Type 0
Outcome s (stop false) = Unit
Outcome s (stop true) = HoldsEnd s
Outcome s (go scan seen_scan r) = Behind s r × (length r < length s)

after_segment-Outcome :
    (s : List ℕ) (m : ℕ) (seen_scan : Bool) (r : List ℕ) (o : Option (List ℕ))
    → Behind s r
    → length r < length s
    → skip_segment m r ≡ o
    → Outcome s (after_segment m seen_scan o)
after_segment-Outcome s m seen_scan r none b lt e = tt
after_segment-Outcome s m seen_scan r (some t) b lt e =
    let within = skip_segment-Behind m r t e in
    let shorter = Behind-length r t within in (Behind-trans s r t b within, omega arith)

stop-Outcome : (s : List ℕ) (answer : Bool) → HoldsEnd s → Outcome s (stop answer)
stop-Outcome s true h = h
stop-Outcome s false h = tt

on_marker-Outcome :
    (s : List ℕ) (scan seen_scan : Bool) (m : ℕ) (r : List ℕ)
    → Behind s (255 ∷ m ∷ r)
    → Outcome s (on_marker scan seen_scan m r)
unfolding on_marker
on_marker-Outcome s scan seen_scan m r b =
    let behind : Behind s r = Behind-trans s (255 ∷ m ∷ r) r b (255 ∷ m ∷ [], refl) in
    let longer = Behind-length s (255 ∷ m ∷ r) b in
    let lt : length r < length s = omega arith in
    elim (Bool-cases (scan && (m == 0 || is_restart m))) [
      | inl e ↦ rw (on_marker, e) (behind, lt)
      | inr e ↦ elim (Bool-cases (m == 217)) [
        | inl e' ↦
            let m_end : m ≡ 217 = (==_iff m 217).0 e' in
            rw (on_marker, e, e') (stop-Outcome s seen_scan (r, rw⁻¹ m_end b))
        | inr e' ↦ elim (Bool-cases (m == 0 || m == 216 || is_restart m)) [
          | inl e'' ↦ rw (on_marker, e, e', e'') tt
          | inr e'' ↦
              rw (on_marker, e, e', e'')
                (after_segment-Outcome s m seen_scan r (skip_segment m r) behind lt refl)
        ]
      ]
    ]

marked-Outcome :
    (s : List ℕ) (scan seen_scan : Bool) (t : List ℕ) (o : Option (ℕ × List ℕ))
    → Behind s (255 ∷ t)
    → read_marker t ≡ o
    → Outcome s (marked scan seen_scan o)
marked-Outcome s scan seen_scan t none b e = tt
marked-Outcome s scan seen_scan t (some (m, r)) b e =
    on_marker-Outcome s scan seen_scan m r
      (Behind-trans s (255 ∷ t) (255 ∷ m ∷ r) b (read_marker-Behind t m r e))

from_ff-Outcome :
    (s : List ℕ) (scan seen_scan : Bool) (o : Option (List ℕ))
    → find_ff scan s ≡ o
    → Outcome s (from_ff scan seen_scan o)
from_ff-Outcome s scan seen_scan none e = tt
from_ff-Outcome s scan seen_scan (some t) e =
    marked-Outcome s scan seen_scan t (read_marker t) (find_ff-Behind scan s t e) refl

HoldsEnd-Behind : (s r : List ℕ) → Behind s r → HoldsEnd r → HoldsEnd s
HoldsEnd-Behind s r b (t, b') = (t, Behind-trans s r (255 ∷ 217 ∷ t) b b')

followed-HoldsEnd :
    (fuel : ℕ) (s : List ℕ) (o : Round)
    → Outcome s o
    → ((scan seen_scan : Bool) (r : List ℕ) → rounds fuel scan seen_scan r ≡ true → HoldsEnd r)
    → elim o [ stop answer ↦ answer | go scan seen_scan r ↦ rounds fuel scan seen_scan r ] ≡ true
    → HoldsEnd s
followed-HoldsEnd fuel s (stop true) o ih h = o
followed-HoldsEnd fuel s (stop false) o ih h = absurd cc
followed-HoldsEnd fuel s (go scan seen_scan r) o ih h =
    HoldsEnd-Behind s r o.0 (ih scan seen_scan r h)

rounds-HoldsEnd :
    (fuel : ℕ) (scan seen_scan : Bool) (s : List ℕ)
    → rounds fuel scan seen_scan s ≡ true
    → HoldsEnd s
unfolding rounds round
rounds-HoldsEnd zero scan seen_scan s h = absurd cc
rounds-HoldsEnd (suc fuel) scan seen_scan s h =
    followed-HoldsEnd fuel s (round scan seen_scan s)
      (from_ff-Outcome s scan seen_scan (find_ff scan s) refl)
      (λ scan' seen_scan' r h'. rounds-HoldsEnd fuel scan' seen_scan' r h') h

followed-fuel :
    (n m : ℕ) (s : List ℕ) (o : Round)
    → Outcome s o
    → ((scan seen_scan : Bool) (r : List ℕ)
        → length r < length s
        → rounds n scan seen_scan r ≡ rounds m scan seen_scan r)
    → elim o [ stop answer ↦ answer | go scan seen_scan r ↦ rounds n scan seen_scan r ]
      ≡ elim o [ stop answer ↦ answer | go scan seen_scan r ↦ rounds m scan seen_scan r ]
followed-fuel n m s (stop answer) o ih = refl
followed-fuel n m s (go scan seen_scan r) o ih = ih scan seen_scan r o.1

no_bytes : (fuel : ℕ) (scan seen_scan : Bool) → rounds fuel scan seen_scan [] ≡ false
unfolding rounds round find_ff
no_bytes zero scan seen_scan = refl
no_bytes (suc fuel) true seen_scan = refl
no_bytes (suc fuel) false seen_scan = refl

-- The loop over the markers of a JPEG file ends by itself on any bytes: any two amounts of fuel
-- of at least the number of bytes left give the same result.
pub rounds-fuel :
    (n m : ℕ) (scan seen_scan : Bool) (s : List ℕ)
    → length s ≤ n
    → length s ≤ m
    → rounds n scan seen_scan s ≡ rounds m scan seen_scan s
unfolding rounds round
rounds-fuel zero m scan seen_scan [] hn hm = sym (no_bytes m scan seen_scan)
rounds-fuel zero m scan seen_scan (c ∷ s) hn hm = absurd (omega arith)
rounds-fuel (suc n) zero scan seen_scan [] hn hm = no_bytes (suc n) scan seen_scan
rounds-fuel (suc n) zero scan seen_scan (c ∷ s) hn hm = absurd (omega arith)
rounds-fuel (suc n) (suc m) scan seen_scan s hn hm =
    followed-fuel n m s (round scan seen_scan s)
      (from_ff-Outcome s scan seen_scan (find_ff scan s) refl)
      (λ scan' seen_scan' r lt. rounds-fuel n m scan' seen_scan' r (omega arith) (omega arith))

-- A file that enil_jpeg_complete accepts begins with FF D8, holds the end marker FF D9 behind
-- these two bytes, and was read without an error.
pub jpeg_complete-HoldsEnd :
    (read_error : Bool) (file : List ℕ)
    → enil_jpeg_complete read_error file ≡ true
    → (read_error ≡ false) × ((s : List ℕ) × (file ≡ 255 ∷ 216 ∷ s) × HoldsEnd s)
unfolding enil_jpeg_complete
jpeg_complete-HoldsEnd read_error [] h = absurd cc
jpeg_complete-HoldsEnd read_error (c ∷ []) h = absurd cc
jpeg_complete-HoldsEnd read_error (c ∷ d ∷ s) h = (
  ground (arith, h),
  (s, ground (arith, h), rounds-HoldsEnd (length s) false false s (ground (arith, h))),
)
