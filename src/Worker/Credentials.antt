-- ===== src/Worker/Credentials.antt =====
-- source/shared/enil_worker.c: the credentials change as a pair.
use enil.Common.{
  ℕ, ◌+◌, ◌≡◌, refl, length, if◌then◌else◌, Bool, true, false, ◌&&◌, ◌||◌, Option, none, some, [],
  ◌∷◌, arith, Bool-cases, ◌⊎◌, inl, inr,
}
use enil.Common.Text.{Text}
use enil.Health.{clear_failure}
use enil.Worker.{Client, Net, enil_worker_set_credentials, dup_or_null, is_set, is_none}

-- A credential as it is kept: an empty one counts as none.
abbrev pub kept : Option Text → Option Text
kept none = none
kept (some []) = none
kept (some (c ∷ t)) = some (c ∷ t)

dup_or_null_cases :
    (net : Net) (t : Option Text)
    → (dup_or_null net t ≡ kept t)
      ⊎ ((is_set t && is_none (dup_or_null net t) ≡ true) × ((n : ℕ) × (net.grants n ≡ false)))
unfolding dup_or_null
dup_or_null_cases net none = inl refl
dup_or_null_cases net (some []) = inl refl
dup_or_null_cases net (some (c ∷ t)) = elim (Bool-cases (net.grants (length t + 2))) [
  | inl e ↦ rw (e) (inl refl)
  | inr e ↦ rw (e) (inr (refl, (_, e)))
]

kept_loses_nothing : (t : Option Text) → is_set t && is_none (kept t) ≡ false
kept_loses_nothing none = refl
kept_loses_nothing (some []) = refl
kept_loses_nothing (some (c ∷ t)) = refl

or_same {ℓ} : {A : Type ℓ} (y s : A) (b : Bool) → (if b || true then s else y) ≡ s
or_same y s true = refl
or_same y s false = refl

-- New credentials are taken over as a pair, an empty one as none, and open the gate of the
-- worker; or memory was refused, and the old pair and the gate stay as they are.
pub set_credentials-pair :
    (net : Net) (s : Client) (thread : ℕ) (url secret : Option Text)
    → ((enil_worker_set_credentials net s thread url secret ≡ s)
        × ((n : ℕ) × (net.grants n ≡ false)))
      ⊎ (((enil_worker_set_credentials net s thread url secret).worker_url ≡ kept url)
          × ((enil_worker_set_credentials net s thread url secret).worker_secret ≡ kept secret)
          × ((enil_worker_set_credentials net s thread url secret).health.worker_failed ≡ false))
unfolding enil_worker_set_credentials clear_failure
set_credentials-pair net s thread url secret = elim (dup_or_null_cases net url) [
  | inr (e, n) ↦ inl (rw (enil_worker_set_credentials, e) refl, n)
  | inl e ↦ elim (dup_or_null_cases net secret) [
    | inr (e', n) ↦ inl (
      rw (enil_worker_set_credentials, e')
          (or_same _ s (is_set url && is_none (dup_or_null net url))),
      n,
    )
    | inl e' ↦
        rw (enil_worker_set_credentials, e, e', kept_loses_nothing url, kept_loses_nothing secret)
          (inr (refl, refl, ground arith))
  ]
]
