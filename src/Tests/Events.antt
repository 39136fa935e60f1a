-- ===== src/Tests/Events.antt =====
-- The event queue and the dispatchers.
use robosw.Base.{ℕ, ◌≡◌, refl, Option, none, some, List, [], ◌∷◌, ◌++◌, arith}
use robosw.Event.Queue.{push, try_pop}
use robosw.Event.Dispatcher.{Event, EventSource, HandlerFunc}
use robosw.Event.Dispatcher.Order.{register_all}
use robosw.Event.Async
use robosw.Event.Async.{
  AsyncEventDispatcher, Result, returned, threw, handle_events, is_thread, claim,
}
use robosw.Event.Async.Threads.{after, misplaced_dispatch}
use robosw.Event.Async.Delivery.{handle_all, handle_events-all}
use robosw.Event.Async.Interleave.{Step, sent, round, run, all_sent, run_delivers}

-- Events with a number, and handlers that add it to a list.
abbrev event : ℕ → ℕ → Event ℕ
event name n = record { source = EventSource.keyboard; name = name ∷ []; content = n }

abbrev note : HandlerFunc ℕ (List ℕ)
note e w = w ++ e.content ∷ []

abbrev twice : HandlerFunc ℕ (List ℕ)
twice e w = w ++ e.content ∷ e.content ∷ []

abbrev registrations : List (List ℕ × HandlerFunc ℕ (List ℕ))
registrations = (97 ∷ [], note) ∷ (98 ∷ [], note) ∷ (97 ∷ [], twice) ∷ []

abbrev dispatcher : Option ℕ → Option ℕ → List (Event ℕ) → AsyncEventDispatcher ℕ (List ℕ)
dispatcher p c q = record {
  handlers = register_all [] registrations;
  event_queue = q;
  dispatch_thread_id = p;
  handle_events_thread_id = c;
}

handle_events-all_example :
    handle_events 2 (dispatcher (some 1) none (event 97 5 ∷ event 98 6 ∷ [])) 2 []
    ≡ returned (
      dispatcher (some 1) (some 2) [],
      handle_all (register_all [] registrations) (event 97 5 ∷ event 98 6 ∷ []) [],
    )
unfolding claim is_thread
handle_events-all_example =
    handle_events-all 2 (dispatcher (some 1) none (event 97 5 ∷ event 98 6 ∷ [])) 2 [] refl refl
      (omega arith)

abbrev steps : List (Step ℕ)
steps = sent (event 97 5) ∷ round ∷ round ∷ sent (event 98 6) ∷ sent (event 99 7) ∷ round ∷ []

run_delivers_example :
    let s =
      run 1
        (record { dispatcher = dispatcher (some 1) (some 2) []; world = []; delivered = [] })
        steps in
    (s.delivered ++ s.dispatcher.event_queue ≡ all_sent steps)
    × (s.world ≡ handle_all (register_all [] registrations) s.delivered [])
unfolding Async.dispatch claim is_thread push try_pop
run_delivers_example =
    run_delivers 1 2 (dispatcher (some 1) (some 2) []) [] steps (λ e. absurd (omega (arith, e)))
      refl refl (omega arith, (omega arith, (omega arith, tt)))

misplaced_dispatch_example :
    let d0 = dispatcher none (some 2) [] in
    let d1 = after (Async.dispatch d0 2 (event 97 5)) in
    (Async.dispatch d0 2 (event 97 5) ≡ threw d1)
    × ((u : ℕ) (e' : Event ℕ) → Async.dispatch d1 u e' ≡ threw d1)
    × ((u fuel : ℕ) (w : List ℕ) → handle_events fuel d1 u w ≡ threw (d1, w))
misplaced_dispatch_example = misplaced_dispatch 2 (dispatcher none (some 2) []) (event 97 5)
