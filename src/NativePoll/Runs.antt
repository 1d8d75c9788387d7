-- ===== src/NativePoll/Runs.antt =====
-- source/shared/enil_native_poll.c: concrete runs of the poller, and the theorems at concrete inputs.
use enil.Common.{ℕ, ◌≡◌, ◌≤◌, refl, true, false, none, some, List, [], ◌∷◌, length, arith}
use enil.Common.Int.{pos, leb_ℤ}
use enil.Common.Text.{codes, text_eq}
use enil.Common.Json.{Json, string, object, nil, node}
use enil.Sse.Runs.{willing, idle}
use enil.NativePoll.{Round, Poller, leave, enil_native_poll, dispatch_ops}
use enil.NativePoll.Cursor.{Chain, client_of, native_poll-Chain}
use enil.NativePoll.Order.{Ordered, dispatch_ops-InOrder}
use enil.NativePoll.BackOff.{IsLost, AllLost, nothing, also, native_poll-GaveUp}

-- A session file with a token.
abbrev session : Json
session = object (node (codes "accessToken") (string (codes "t")) nil)

-- A turn whose request ends with the status.
abbrev with_status : ℕ → Round
with_status n = record {
  failed = false;
  stop_first = false;
  identity_kept = true;
  saved = some session;
  status = n;
  body = none;
  stop = false;
  kick = false;
  patched = true;
}

abbrev outage : List Round
outage =
    with_status 500 ∷ with_status 500 ∷ with_status 500 ∷ with_status 500 ∷ with_status 500 ∷ []

an_error : IsLost willing (with_status 500)
unfolding codes text_eq
an_error = record {
  gate_open = refl;
  goes_on = refl;
  same_identity = refl;
  token = codes "t";
  has_token = refl;
  not_stopped = refl;
  not_kicked = refl;
  not_ok = refl;
  not_idle = refl;
  not_refused = refl;
}

outage-AllLost : AllLost willing (outage)
outage-AllLost =
    also an_error (also an_error (also an_error (also an_error (also an_error nothing))))

native_poll-GaveUp_example :
    (q : Poller) × (enil_native_poll willing (outage) idle ≡ leave q)
    × (q.client.line_failed ≡ true)
    × (length q.posted ≤ 5)
native_poll-GaveUp_example =
    native_poll-GaveUp willing (outage) idle outage-AllLost (record { runs = refl; healthy = refl })
      (omega arith)

dispatch_ops-InOrder_example :
    Ordered willing []
      (node [] session (node [] session nil))
      (dispatch_ops willing idle (node [] session (node [] session nil)))
dispatch_ops-InOrder_example =
    dispatch_ops-InOrder willing idle (node [] session (node [] session nil))

native_poll-Chain_example :
    Chain willing idle (client_of (enil_native_poll willing outage idle))
    × (leb_ℤ (pos 2) (client_of (enil_native_poll willing outage idle)).local_rev ≡ true)
native_poll-Chain_example = native_poll-Chain willing outage idle
