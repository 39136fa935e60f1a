-- ===== src/Event/Async/Delivery.antt =====
-- What reaches the handlers, and in which order.
use robosw.Base.{
  ℕ, zero, suc, ◌≤◌, ◌≡◌, refl, ap, ◌∙◌, arith, true, false, List, [], ◌∷◌, ◌++◌, length, not,
  if◌then◌else◌,
}
use robosw.Event.Queue.{try_pop}
use robosw.Event.Dispatcher.{Event, Handlers, HandlerFunc}
use robosw.Event.Async.{
  AsyncEventDispatcher, returned, threw, is_thread, claim, handle, drain, handle_events,
}

module _ {Data World : Type 0} where
  -- The handling of events one after the other.
  abbrev pub handle_all : Handlers (HandlerFunc Data World) → List (Event Data) → World → World
  handle_all hs [] w = w
  handle_all hs (e ∷ es) w = handle_all hs es (handle hs e w)

  pub handle_all-append :
      (hs : Handlers (HandlerFunc Data World)) (es : List (Event Data)) (e : Event Data) (w : World)
      → handle_all hs (es ++ e ∷ []) w ≡ handle hs e (handle_all hs es w)
  handle_all-append hs [] e w = refl
  handle_all-append hs (x ∷ es) e w = handle_all-append hs es e (handle hs x w)

  drain_queue :
      (fuel : ℕ) (q : List (Event Data)) (d : AsyncEventDispatcher Data World) (w : World)
      → length q ≤ fuel
      → drain fuel (record d { event_queue = q }) w
        ≡ (record d { event_queue = [] }, handle_all d.handlers q w)
  unfolding drain try_pop
  drain_queue zero [] d w h = refl
  drain_queue zero (e ∷ q) d w h = absurd (omega arith)
  drain_queue (suc fuel) [] d w h = refl
  drain_queue (suc fuel) (e ∷ q) d w h = drain_queue fuel q d (handle d.handlers e w) (omega arith)

  -- `HandleEvents` on a thread that may call it, while nothing is dispatched: with fuel for each
  -- waiting event it hands all of them to their handlers, the oldest first, and leaves none.
  pub handle_events-all :
      (fuel : ℕ) (d : AsyncEventDispatcher Data World) (t : ℕ) (w : World)
      → (claim d.handle_events_thread_id t).1 ≡ true
      → is_thread d.dispatch_thread_id t ≡ false
      → length d.event_queue ≤ fuel
      → handle_events fuel d t w
        ≡ returned (
          record d {
            handle_events_thread_id = (claim d.handle_events_thread_id t).0;
            event_queue = [];
          },
          handle_all d.handlers d.event_queue w,
        )
  unfolding handle_events
  handle_events-all fuel d t w c p h =
      let d' = record d { handle_events_thread_id = (claim d.handle_events_thread_id t).0 } in
      ap
        (λ b.
          if not b
          then threw (d', w)
          else if is_thread d.dispatch_thread_id t
          then threw (d', w)
          else returned (drain fuel d' w))
        c
      ∙ (ap (λ b. if b then threw (d', w) else returned (drain fuel d' w)) p
          ∙ ap returned (drain_queue fuel d.event_queue d' w h))
