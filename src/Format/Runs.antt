-- ===== src/Format/Runs.antt =====
-- Concrete runs of the message formatter, and its theorem at a concrete input.
use enil.Common.{ℕ, ◌≡◌, refl, true, none, some, [], ◌∷◌}
use enil.Common.Int.{pos}
use enil.Common.Text.{codes, text_eq}
use enil.Common.Json.{Json, Children, number, string, object, nil, node}
use enil.Common.Samples.{plenty, sample_cjson}
use enil.Format.{Env, check_spans, utf16_boundary, next_code}
use enil.Format.Spans.{Tiles, check_spans-Tiles}

abbrev env : Env
env = record {
  al = plenty;
  cjson = sample_cjson;
  whole = λ d. some d;
  to_int = λ o. pos 20;
  box = λ w h jumbo. [];
  zoom = λ jumbo. [];
}

abbrev sticon : ℕ → ℕ → Json
sticon s e = object (
    node (codes "S") (number s)
      (node (codes "E") (number e) (node (codes "image_path") (string (codes "i.png")) nil)))

abbrev two_sticons : Children
two_sticons = node [] (sticon 0 3) (node [] (sticon 4 5) nil)

-- U+1F600 takes four bytes and two UTF-16 units.
after_emoji : utf16_boundary (240 ∷ 159 ∷ 152 ∷ 128 ∷ b'x' ∷ []) 3 ≡ some 5
unfolding utf16_boundary next_code
after_emoji = refl

inside_pair : utf16_boundary (240 ∷ 159 ∷ 152 ∷ 128 ∷ b'x' ∷ []) 1 ≡ none
unfolding utf16_boundary next_code
inside_pair = refl

accepted : check_spans env (codes "(a) $") two_sticons 0 true ≡ some (5, true)
unfolding check_spans text_eq next_code
accepted = refl

overlapping : check_spans env (codes "(a) $") (node [] (sticon 0 3) two_sticons) 0 true ≡ none
unfolding check_spans text_eq next_code
overlapping = refl

check_spans-Tiles_example : Tiles env (codes "(a) $") two_sticons 0 5
check_spans-Tiles_example = check_spans-Tiles env (codes "(a) $") two_sticons 0 5 true true accepted
