-- ===== src/Identity/Runs.antt =====
-- source/shared/enil_identity.c: the theorems at concrete inputs.
use enil.Common.{◌≡◌, refl, none, some}
use enil.Common.Text.{text_eq, has_prefix}
use enil.Common.Samples.{sample_cjson, sample_numbers, sample_objects}
use enil.Identity.{
  Bindings, windows_identity, enil_identity_parse, enil_identity_to_json, read_identity, accepted,
  fits, is_plain, enil_identity_default, up_to_tab,
}
use enil.Identity.Shape.{IsIdentity, identity_parse-IsIdentity}
use enil.Identity.RoundTrip.{identity_parse-to_json, fields}
use enil.Common.Json.{object}

-- A saved native login, as it is read.
windows_read :
    enil_identity_parse sample_cjson sample_numbers
      (some (object (fields sample_numbers windows_identity)))
    ≡ some windows_identity
unfolding enil_identity_parse read_identity accepted fits is_plain enil_identity_default up_to_tab
    text_eq has_prefix
windows_read = refl

windows_written :
    enil_identity_to_json sample_cjson sample_numbers windows_identity
    ≡ some (object (fields sample_numbers windows_identity))
unfolding enil_identity_to_json
windows_written = refl

identity_parse-IsIdentity_example : IsIdentity windows_identity
identity_parse-IsIdentity_example =
    identity_parse-IsIdentity sample_cjson sample_numbers
      (some (object (fields sample_numbers windows_identity))) windows_identity windows_read

identity_parse-to_json_example :
    enil_identity_parse sample_cjson sample_numbers
      (some (object (fields sample_numbers windows_identity)))
    ≡ some windows_identity
identity_parse-to_json_example =
    identity_parse-to_json sample_cjson sample_objects sample_numbers refl
      (some (object (fields sample_numbers windows_identity))) windows_identity
      (object (fields sample_numbers windows_identity)) windows_read windows_written

-- No thread has an identity.
abbrev nobody : Bindings
nobody thread = none
