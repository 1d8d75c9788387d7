-- ===== src/Native/Post.antt =====
-- source/shared/enil_native.c: `enil_native_post`.
use enil.Common.{Bool, true, not, ◌||◌, Option, none, some, [], ◌∷◌, if◌then◌else◌}
use enil.Common.Int.{pos, eq_ℤ}
use enil.Common.Text.{Text, codes, text_eq}
use enil.Identity.{Identity}
use enil.Native.Services.{Services, Outcome, Shape, Outgoing, nothing_sent}
use enil.Native.Prepare.{shape, outgoing}
use enil.Native.Answer.{received}

module _ (on : Services) where
  -- The label `done`: a status that ends the session is reported.
  unfoldable pub report : Outcome → Outcome
  report o =
      if eq_ℤ o.status (pos 401) || eq_ℤ o.status (pos 403) then record o { failed = true } else o

  unfoldable pub perform : Shape → Text → Outgoing → Outcome
  unfolding received
  perform s token out =
      if not on.has_curl
      then nothing_sent
      else if not on.kept_before_transfer
      then nothing_sent
      else record (received on s token out (on.transfer out.request)) { sent = out.request ∷ [] }

  abbrev pub token_or : Option Text → Text → Text
  token_or none token = token
  token_or (some t) token = t

  abbrev pub post_as : Identity → Text → Text → Text → Bool → Outcome
  post_as identity path body token cancelled = elim (shape on path body) [
    | none ↦ nothing_sent
    | some s ↦ elim (outgoing on identity s token cancelled) [
      | none ↦ nothing_sent
      | some out ↦ perform s token out
    ]
  ]

  abbrev pub with_identity : Option Identity → (Identity → Outcome) → Outcome
  with_identity none f = nothing_sent
  with_identity (some i) f =
      if text_eq i.transport (codes "native-thrift") then f i else nothing_sent

  -- `cancelled` and `cancelled_later`: the flag at the start and behind the worker's encoding.
  unfoldable pub enil_native_post : Option Identity → Text → Text → Text → Bool → Bool → Outcome
  unfolding perform outgoing shape report
  enil_native_post identity path body token cancelled cancelled_later = with_identity identity (λ i.
      if cancelled then nothing_sent else elim on.bound_access_token [
        | none ↦ report nothing_sent
        | some bound ↦ report (post_as i path body (token_or bound token) cancelled_later)
      ])
