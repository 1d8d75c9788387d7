-- ===== src/StrBuf/ReadBack.antt =====
-- source/shared/enil_strbuf.c: reading back what the escapes put into a fresh buffer.
use enil.Common.{
  ℕ, ◌+◌, ◌<◌, ◌^◌, ◌≡◌, ◌∙◌, ap, Bool, false, some, List, [], length, All, IsByte, arith,
}
use enil.Common.Libc.{Allocator}
use enil.StrBuf.{
  StrBuf, content, html_entity, js_escape, esb_html_core, esb_html, esb_js, esb_url_core,
}
use enil.StrBuf.Growth.{Holds, Grants}
use enil.StrBuf.Escape.{escaped, url_escaped, esb_html_core-Holds, esb_js-Holds, esb_url_core-Holds}
use enil.StrBuf.Decode.{
  html_text, js_read, url_read, IsInert, html_text-escaped, js_read-escaped, url_read-escaped,
  escaped-IsInert,
}

module _ (al : Allocator) (all : Grants al) (b : StrBuf) (s : List ℕ) (empty : Holds b []) where
  -- With an allocator that refuses nothing, an empty valid buffer and less than 2^63 bytes to
  -- write, an independent reader of HTML that reads all that esb_html_core wrote gets exactly
  -- the text that it was given, with newlines as <br> or not.
  pub html_read-esb_html_core :
      (br : Bool)
      → length (escaped (html_entity br) s) + 1 < 2 ^ 63
      → html_text (content (esb_html_core al b (some s) br)) ≡ s
  html_read-esb_html_core br small =
      ap html_text (esb_html_core-Holds al b [] s br all empty (omega arith)).2
      ∙ html_text-escaped br s

  -- With an allocator that refuses nothing, an empty valid buffer and less than 2^63 bytes to
  -- write, what esb_html writes holds no <, no > and no quotation mark.
  pub esb_html-IsInert :
      length (escaped (html_entity false) s) + 1 < 2 ^ 63
      → All IsInert (content (esb_html al b (some s)))
  unfolding esb_html
  esb_html-IsInert small =
      rw (esb_html_core-Holds al b [] s false all empty (omega arith)).2 (escaped-IsInert s)

  -- With an allocator that refuses nothing, an empty valid buffer and less than 2^63 bytes to
  -- write, an independent reader of JavaScript string text gets back what esb_js was given.
  pub js_read-esb_js :
      length (escaped js_escape s) + 1 < 2 ^ 63 → js_read (content (esb_js al b (some s))) ≡ s
  js_read-esb_js small =
      ap js_read (esb_js-Holds al b [] s all empty (omega arith)).2 ∙ js_read-escaped s

  -- With an allocator that refuses nothing, an empty valid buffer and less than 2^63 bytes to
  -- write, percent-decoding gives back the bytes that esb_url_core was given, with / kept or
  -- escaped.
  pub url_read-esb_url_core :
      (keep : Bool)
      → All IsByte s
      → length (url_escaped keep s) + 1 < 2 ^ 63
      → url_read (content (esb_url_core al b (some s) keep)) ≡ s
  url_read-esb_url_core keep bytes small =
      ap url_read (esb_url_core-Holds al b [] s keep all empty (omega arith)).2
      ∙ url_read-escaped keep s bytes
