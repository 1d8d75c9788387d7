-- ===== src/Health/Runs.antt =====
-- Concrete runs of the gates, and the theorems at concrete inputs.
use enil.Common.{◌≡◌, refl, true, false, ◌||◌, some, [], ◌∷◌}
use enil.Health.{
  Health, worker, line, set_failure, clear_failure, is_failed, any_failed, worker_error,
  worker_cleared,
}
use enil.Health.Gates.{
  set_op, clear_op, destroy_op, run, step, share, is_failed-set_failure, run-worker_failed,
}

abbrev two_accounts : Health
two_accounts = record {
  worker_failed = true;
  line_failed = λ h. true;
  bound = λ t. some t;
  posts = [];
}

abbrev clean : Health
clean = record two_accounts { worker_failed = false; line_failed = λ h. false }

other_account_unharmed : is_failed (set_failure clean 1 line) 2 line ≡ false
unfolding set_failure is_failed
other_account_unharmed = refl

posts_once :
    (run clean (set_op 1 worker ∷ clear_op 2 worker ∷ clear_op 2 worker ∷ [])).posts
    ≡ worker_error ∷ worker_cleared ∷ []
unfolding run step set_failure clear_failure
posts_once = refl

is_failed-set_failure_example :
    (is_failed (set_failure clean 1 line) 2 worker ≡ (is_failed clean 2 worker || false))
    × (is_failed (set_failure clean 1 line) 2 line ≡ (is_failed clean 2 line || share clean 1 2))
is_failed-set_failure_example = is_failed-set_failure clean 1 2 line

run-worker_failed_example :
    (is_failed (run two_accounts (clear_op 1 line ∷ destroy_op 1 (some 1) ∷ [])) 3 worker ≡ true)
    × (any_failed (run two_accounts (clear_op 1 line ∷ destroy_op 1 (some 1) ∷ [])) 3 ≡ true)
run-worker_failed_example =
    run-worker_failed two_accounts (clear_op 1 line ∷ destroy_op 1 (some 1) ∷ []) 3
      ((λ e. cc), (tt, tt)) refl
