-- ===== src/Health.antt =====
-- source/shared/enil_health.c: the sticky failure gates. The worker's gate is one for the process,
-- LINE's is one for each account; a thread acts on the account that it has bound.
--
-- Accounts' health objects and threads are numbered. The state is what the process holds: the
-- worker's flag, each object's flag, each thread's binding, and the status rows posted so far.
use enil.Common.{
  ℕ, suc, ◌+◌, Bool, true, false, ◌||◌, ◌&&◌, Option, none, some, List, [], ◌∷◌, ◌++◌, ◌==◌,
  if◌then◌else◌,
}
pub mod Gates
mod Runs

pub data Source : Type 0 where
  none_source worker line : Source

-- `enil_status_post_error` and `enil_status_post` with their keys.
pub data Post : Type 0 where
  worker_error line_error worker_cleared line_cleared : Post

pub record Health : Type 0 where
  pub worker_failed : Bool
  pub line_failed : ℕ → Bool
  pub bound : ℕ → Option ℕ
  pub posts : List Post

abbrev pub update {ℓ} : {A : Type ℓ} → (ℕ → A) → ℕ → A → ℕ → A
update f k v j = if j == k then v else f j

abbrev pub post : Health → Post → Health
post s p = record s { posts = s.posts ++ (p ∷ []) }

-- `pthread_setspecific` on the calling thread.
unfoldable pub bind : Health → ℕ → Option ℕ → Health
bind s thread h = record s { bound = update s.bound thread h }

-- `calloc` of object `h`, which no thread names yet.
unfoldable pub create : Health → ℕ → Health
create s h = record s { line_failed = update s.line_failed h false }

abbrev pub same : Option ℕ → ℕ → Bool
same none h = false
same (some g) h = g == h

-- The freed object is unbound from the calling thread only.
unfoldable pub destroy : Health → ℕ → Option ℕ → Health
unfolding bind
destroy s thread none = s
destroy s thread (some h) = if same (s.bound thread) h then bind s thread none else s

unfoldable pub worker_set_failure : Health → Health
worker_set_failure s = post (record s { worker_failed = true }) worker_error

unfoldable pub worker_clear_failure : Health → Health
worker_clear_failure s =
    if s.worker_failed
    then post (record s { worker_failed = false }) worker_cleared
    else record s { worker_failed = false }

unfoldable pub line_set_on : Health → Option ℕ → Health
line_set_on s none = s
line_set_on s (some h) = post (record s { line_failed = update s.line_failed h true }) line_error

unfoldable pub line_clear_on : Health → Option ℕ → Health
line_clear_on s none = s
line_clear_on s (some h) =
    let s' : Health = record s { line_failed = update s.line_failed h false } in
    if s.line_failed h then post s' line_cleared else s'

unfoldable pub set_failure : Health → ℕ → Source → Health
unfolding worker_set_failure line_set_on
set_failure s thread none_source = s
set_failure s thread worker = worker_set_failure s
set_failure s thread line = line_set_on s (s.bound thread)

unfoldable pub clear_failure : Health → ℕ → Source → Health
unfolding worker_clear_failure line_clear_on
clear_failure s thread none_source = s
clear_failure s thread worker = worker_clear_failure s
clear_failure s thread line = line_clear_on s (s.bound thread)

abbrev pub flag_of : Health → Option ℕ → Bool
flag_of s none = false
flag_of s (some h) = s.line_failed h

unfoldable pub is_failed : Health → ℕ → Source → Bool
is_failed s thread none_source = false
is_failed s thread worker = s.worker_failed
is_failed s thread line = flag_of s (s.bound thread)

unfoldable pub any_failed : Health → ℕ → Bool
any_failed s thread = s.worker_failed || flag_of s (s.bound thread)
