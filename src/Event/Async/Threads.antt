-- ===== src/Event/Async/Threads.antt =====
-- Which threads may call the asynchronous dispatcher.
use robosw.Base.{ℕ, ◌≡◌, refl, arith, true, Option, none, some, ◌==◌, Bool-cases, inl, inr}
use robosw.Event.Dispatcher.{Event}
use robosw.Event.Async.{
  AsyncEventDispatcher, Result, returned, threw, is_thread, claim, dispatch, handle_events,
}

-- The object that a call leaves.
abbrev pub after : {A : Type 0} → Result A → A
after (returned x) = x
after (threw x) = x

same_thread : (t : ℕ) → (t == t) ≡ true
same_thread t = ground arith

module _ {Data World : Type 0} where
  -- The object by its parts.
  abbrev parts :
      Option ℕ → Option ℕ → AsyncEventDispatcher Data World → AsyncEventDispatcher Data World
  parts p c d = record d { dispatch_thread_id = p; handle_events_thread_id = c }

  dispatch_stuck :
      (t u : ℕ) (d : AsyncEventDispatcher Data World) (e : Event Data)
      → dispatch (parts (some t) (some t) d) u e ≡ threw (parts (some t) (some t) d)
  unfolding dispatch claim is_thread
  dispatch_stuck t u d e = elim (Bool-cases (t == u)) [ inl h ↦ rw h refl | inr h ↦ rw h refl ]

  handle_stuck :
      (fuel t u : ℕ) (d : AsyncEventDispatcher Data World) (w : World)
      → handle_events fuel (parts (some t) (some t) d) u w ≡ threw (parts (some t) (some t) d, w)
  unfolding handle_events claim is_thread
  handle_stuck fuel t u d w = elim (Bool-cases (t == u)) [ inl h ↦ rw h refl | inr h ↦ rw h refl ]

  first_stuck :
      (t : ℕ) (d : AsyncEventDispatcher Data World) (e : Event Data)
      → dispatch (parts none (some t) d) t e ≡ threw (parts (some t) (some t) d)
  unfolding dispatch claim is_thread
  first_stuck t d e = rw (same_thread t) refl

  -- A first `Dispatch` on the thread that handles events throws, and so does from then on every call
  -- of `Dispatch` and of `HandleEvents`, on whatever thread, which also leave the object as it is.
  pub misplaced_dispatch :
      (t : ℕ) (d : AsyncEventDispatcher Data World) (e : Event Data)
      → let d0 = parts none (some t) d in
        let d1 = after (dispatch d0 t e) in
        (dispatch d0 t e ≡ threw d1)
        × ((u : ℕ) (e' : Event Data) → dispatch d1 u e' ≡ threw d1)
        × ((u fuel : ℕ) (w : World) → handle_events fuel d1 u w ≡ threw (d1, w))
  misplaced_dispatch t d e =
      rw (first_stuck t d e)
        (refl, λ u e'. dispatch_stuck t u d e', λ u fuel w. handle_stuck fuel t u d w)
