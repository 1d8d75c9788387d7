-- ===== src/Identity/Bound.antt =====
-- source/shared/enil_identity.c: the identity that a thread has after binding one.
use enil.Common.{
  ℕ, ◌≡◌, ◌≢◌, refl, Bool, true, false, not, ◌&&◌, Option, none, ◌⊎◌, inl, inr, Bool-cases, arith,
}
use enil.Identity.{
  Identity, Bindings, Answers, rebind, is_none, enil_identity_bind, enil_identity_current,
}

rebind-same : (bs : Bindings) (thread : ℕ) (i : Option Identity) → rebind bs thread i thread ≡ i
rebind-same bs thread i = ground arith

rebind-other :
    (bs : Bindings) (thread other : ℕ) (i : Option Identity)
    → other ≢ thread
    → rebind bs thread i other ≡ bs other
rebind-other bs thread other i d = ground (arith, d)

-- What a thread may have bound: the new identity if the call succeeded, else none or the old one.
abbrev pub MayHave : Bool → Option Identity → Option Identity → Option Identity → Type 0
MayHave ok new old now = (ok ≡ true → now ≡ new) × (ok ≡ false → (now ≡ none) ⊎ (now ≡ old))

-- The three ways in which the call ends.
bind_cases :
    (call : Answers) (bs : Bindings) (thread : ℕ) (i : Option Identity)
    → (enil_identity_bind call bs thread i ≡ (bs, false))
      ⊎ ((enil_identity_bind call bs thread i ≡ (rebind bs thread none, false))
          ⊎ ((enil_identity_bind call bs thread i ≡ (rebind bs thread i, true))
              × (call.key_ready ≡ true)))
unfolding enil_identity_bind
bind_cases call bs thread i = elim (Bool-cases call.key_ready) [
  | inr no_key ↦ inl (rw (no_key, enil_identity_bind) refl)
  | inl key ↦ elim (Bool-cases call.clears) [
    | inr kept ↦ inl (rw (key, kept, enil_identity_bind) refl)
    | inl cleared ↦ elim (Bool-cases (not (is_none i) && not call.grants)) [
      | inl no_memory ↦ inr (inl (rw (key, cleared, no_memory, enil_identity_bind) refl))
      | inr copied ↦ elim (Bool-cases call.sets) [
        | inr unset ↦ inr (inl (rw (key, cleared, copied, unset, enil_identity_bind) refl))
        | inl set ↦ inr (inr (rw (key, cleared, copied, set, enil_identity_bind) refl, key))
      ]
    ]
  ]
]

current_none :
    (key_ready : Bool) (bs : Bindings) (thread : ℕ)
    → enil_identity_current key_ready (rebind bs thread none) thread ≡ none
unfolding enil_identity_current
current_none key_ready bs thread = ground arith

-- Whatever the calls of pthread and malloc answer, a thread has the new identity after
-- enil_identity_bind if it succeeds, and none or the old one if it fails; every other thread
-- keeps its own.
pub identity_bind-current :
    (call : Answers) (bs : Bindings) (thread other : ℕ) (i : Option Identity)
    → MayHave
        (enil_identity_bind call bs thread i).1
        i
        (enil_identity_current call.key_ready bs thread)
        (enil_identity_current call.key_ready (enil_identity_bind call bs thread i).0 thread)
      × (other ≢ thread → (enil_identity_bind call bs thread i).0 other ≡ bs other)
unfolding enil_identity_bind enil_identity_current
identity_bind-current call bs thread other i = elim (bind_cases call bs thread i) [
  | inl e ↦ rw e (((λ h. absurd (cc h)), λ h. inr refl), λ d. refl)
  | inr (inl e) ↦ rw (e) (
    ((λ h. absurd (cc h)), λ h. inl (current_none call.key_ready bs thread)),
    rebind-other bs thread other none,
  )
  | inr (inr (e, key)) ↦
      rw (e, key)
        (((λ h. rebind-same bs thread i), λ h. absurd (cc h)), rebind-other bs thread other i)
]
