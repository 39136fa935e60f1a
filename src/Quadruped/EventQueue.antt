-- ===== src/Quadruped/EventQueue.antt =====
-- src/platform/quadruped/include/quadruped/event_handler/event_queue.hpp: `EventQueue<T>`.
use robosw.Base.{Option, none, some, List, [], ◌∷◌, ◌++◌}

unfoldable pub push {ℓ} : {T : Type ℓ} → List T → T → List T
push [] value = value ∷ []
push (x ∷ q) value = q ++ value ∷ []

unfoldable pub try_pop {ℓ} : {T : Type ℓ} → List T → Option T × List T
try_pop [] = (none, [])
try_pop (x ∷ q) = (some x, q)
