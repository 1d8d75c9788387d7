-- ===== src/Native/Sent.antt =====
-- source/shared/enil_native.c: when a request goes out.
use enil.Common.{◌≡◌, Bool, true, false, Option, some, [], ◌∷◌, ◌⊎◌}
use enil.Common.Text.{Text, codes}
use enil.Identity.{Identity}
use enil.Native.Services.{Services, Outcome, Shape, Outgoing}
use enil.Native.Prepare.{shape}
use enil.Common.Json.{Grants}
use enil.Native.Outgoing.{IsUsed, Carries}

module _ (on : Services) (memory : Grants on.cjson) where
  -- Nothing went out, or one request did: the one made for a shape, with the login still there.
  abbrev SentFor : Identity → Text → Text → Text → Bool → Outcome → Type 0
  SentFor i path body token later o =
      (o.sent ≡ [])
      ⊎ ((s : Shape) × (out : Outgoing) × (shape on path body ≡ some s)
          × Carries on i s token later out
          × (on.kept_before_transfer ≡ true)
          × (o.sent ≡ out.request ∷ []))

  -- The same with the identity and the token of the whole call.
  abbrev pub MaySend : Option Identity → Text → Text → Text → Bool → Bool → Outcome → Type 0
  MaySend identity path body token cancelled later o =
      (o.sent ≡ [])
      ⊎ ((i : Identity) × (t : Option Text) × (s : Shape) × (out : Outgoing) × (identity ≡ some i)
          × (i.transport ≡ codes "native-thrift")
          × (cancelled ≡ false)
          × (on.bound_access_token ≡ some t)
          × (shape on path body ≡ some s)
          × ((used : Text) × IsUsed t token used × Carries on i s used later out)
          × (on.kept_before_transfer ≡ true)
          × (o.sent ≡ out.request ∷ []))
