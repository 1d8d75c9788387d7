-- ===== src/StrBuf/Runs.antt =====
-- Concrete runs of the buffer, and the theorems at concrete inputs.
use enil.Common.{◌≡◌, refl, true, some, [], ◌∷◌, All, arith}
use enil.Common.Text.{codes}
use enil.Common.Samples.{plenty}
use enil.StrBuf.{
  StrBuf, content, html_entity, js_escape, esb_grow, grow_cap, esb_append, escape_loop,
  esb_html_core, esb_html, esb_js,
}
use enil.StrBuf.Growth.{Appended, Holds, Grants, esb_append_lem}
use enil.StrBuf.Decode.{html_text, js_read, IsInert}
use enil.StrBuf.ReadBack.{html_read-esb_html_core, esb_html-IsInert, js_read-esb_js}

abbrev small_buf : StrBuf
small_buf = record { buf = some (b'a' ∷ 0 ∷ 0 ∷ []); len = 1; cap = 3 }

abbrev fresh : StrBuf
fresh = record { buf = some (0 ∷ 0 ∷ []); len = 0; cap = 2 }

granted : Grants plenty
granted = (λ n. (_, refl), λ b n. (_, refl))

grows : content (esb_append plenty small_buf (codes "bcd")) ≡ codes "abcd"
unfolding esb_append esb_grow grow_cap
grows = refl

escapes : content (esb_html plenty fresh (some (codes "a<b"))) ≡ codes "a&lt;b"
unfolding esb_html esb_html_core escape_loop html_entity esb_append esb_grow grow_cap
escapes = refl

esb_append_lem_example :
    Appended small_buf (codes "bcd") (esb_append plenty small_buf (codes "bcd"))
esb_append_lem_example =
    esb_append_lem plenty small_buf (codes "bcd") (refl, omega arith, refl) (omega arith)

fresh-Holds : Holds fresh []
fresh-Holds = ((refl, omega arith, refl), omega arith, refl, refl)

html_read-esb_html_core_example :
    html_text (content (esb_html_core plenty fresh (some (codes "a<b")) true)) ≡ codes "a<b"
unfolding html_entity
html_read-esb_html_core_example =
    html_read-esb_html_core plenty granted fresh (codes "a<b") fresh-Holds true (omega arith)

esb_html-IsInert_example : All IsInert (content (esb_html plenty fresh (some (codes "a<b"))))
unfolding html_entity
esb_html-IsInert_example =
    esb_html-IsInert plenty granted fresh (codes "a<b") fresh-Holds (omega arith)

js_read-esb_js_example :
    js_read (content (esb_js plenty fresh (some (codes "a\"b")))) ≡ codes "a\"b"
unfolding js_escape
js_read-esb_js_example =
    js_read-esb_js plenty granted fresh (codes "a\"b") fresh-Holds (omega arith)
