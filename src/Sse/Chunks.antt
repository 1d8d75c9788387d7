-- ===== src/Sse/Chunks.antt =====
-- source/shared/enil_sse.c: how the network cuts the stream into packets does not matter.
use enil.Common.{ℕ, ◌≡◌, true, false, List, [], ◌∷◌, ◌++◌, inl, inr, Bool-cases}
use enil.Sse.{Env, State, feed_byte, feed}

module _ (env : Env) where
  -- If a first part of the stream leaves the transfer going, taking in the whole is taking in
  -- the second part from where the first part led.
  pub feed-append :
      (s t : State) (a b : List ℕ) → feed env s a ≡ (t, true) → feed env s (a ++ b) ≡ feed env t b
  unfolding feed
  feed-append s t [] b e = cc
  feed-append s t (c ∷ a) b e = elim (Bool-cases (feed_byte env s c).1) [
    | inl more ↦ rw (more, feed) (feed-append (feed_byte env s c).0 t a b (rw (more, feed) at e))
    | inr stop ↦ cc (rw (stop, feed) at e)
  ]

  -- and a part that ends the transfer ends it whatever would follow.
  pub feed-append_stopped :
      (s t : State) (a b : List ℕ) → feed env s a ≡ (t, false) → feed env s (a ++ b) ≡ (t, false)
  unfolding feed
  feed-append_stopped s t [] b e = cc
  feed-append_stopped s t (c ∷ a) b e = elim (Bool-cases (feed_byte env s c).1) [
    | inl more ↦
        rw (more, feed) (feed-append_stopped (feed_byte env s c).0 t a b (rw (more, feed) at e))
    | inr stop ↦ rw (stop, feed) (rw (stop, feed) at e)
  ]
