-- ===== src/Event/Queue.antt =====
-- src/common/event/include/event/thread_safe_queue.hpp: `ThreadSafeQueue<T, N>`, the oldest element first.
-- Each method holds the mutex throughout, so that a method is one step.
pub mod Bounded
use robosw.Base.{
  ℕ, zero, suc, ◌+◌, Bool, Option, none, some, List, [], ◌∷◌, ◌++◌, ◌==◌, if◌then◌else◌, length,
}

-- The default of `N`.
abbrev pub default_n : ℕ
default_n = 64

-- `queue_.pop()` of a queue that is not empty.
abbrev pub drop_front {ℓ} : {T : Type ℓ} → List T → List T
drop_front [] = []
drop_front (x ∷ q) = q

unfoldable pub push {ℓ} : {T : Type ℓ} → ℕ → List T → T → List T
push n q x = (if length q == n then drop_front q else q) ++ x ∷ []

-- `TryPop`, and `Pop` once its wait is over; `none` is its wait.
unfoldable pub try_pop {ℓ} : {T : Type ℓ} → List T → Option (T × List T)
try_pop [] = none
try_pop (x ∷ q) = some (x, q)
