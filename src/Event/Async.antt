-- ===== src/Event/Async.antt =====
-- src/common/event/include/event/async_event_dispatcher.hpp and src/async_event_dispatcher.cpp:
-- `AsyncEventDispatcher`. A thread is its number; an exception is the constructor `threw`, with the
-- object as it is left.
pub mod Threads
pub mod Delivery
pub mod Interleave
use robosw.Base.{ℕ, zero, suc, ◌==◌, not, Bool, Option, none, some, List, [], ◌∷◌, if◌then◌else◌}
use robosw.Event.Queue.{push, try_pop, default_n}
use robosw.Event.Dispatcher.{Event, Handlers, HandlerFunc, find_handlers, call_each}
use robosw.Event.Dispatcher

pub record AsyncEventDispatcher (Data World : Type 0) : Type 0 where
  pub handlers : Handlers (HandlerFunc Data World)
  pub event_queue : List (Event Data)
  pub dispatch_thread_id : Option ℕ
  pub handle_events_thread_id : Option ℕ

pub data Result (A : Type 0) : Type 0 where
  returned threw : A → Result A

-- Whether an id that may not be set yet is that of this thread.
unfoldable pub is_thread : Option ℕ → ℕ → Bool
is_thread none t = Bool.false
is_thread (some id) t = id == t

-- The first thread to come is the one to stay: its number, and whether `t` is it.
unfoldable pub claim : Option ℕ → ℕ → Option ℕ × Bool
claim none t = (some t, Bool.true)
claim (some id) t = (some id, id == t)

module _ {Data World : Type 0} where
  unfoldable pub register_handler :
      AsyncEventDispatcher Data World
      → List ℕ
      → HandlerFunc Data World
      → AsyncEventDispatcher Data World
  register_handler d name handler = record d {
    handlers = Dispatcher.register_handler d.handlers name handler;
  }

  -- `Dispatch(event)`, called on thread `t`.
  unfoldable pub dispatch :
      AsyncEventDispatcher Data World → ℕ → Event Data → Result (AsyncEventDispatcher Data World)
  dispatch d t event =
      let claimed = claim d.dispatch_thread_id t in
      let d' = record d { dispatch_thread_id = claimed.0 } in
      if not claimed.1
      then threw d'
      else if is_thread d'.handle_events_thread_id t
      then threw d'
      else returned (record d' { event_queue = push default_n d'.event_queue event })

  -- One round of the loop of `HandleEvents`, on an event that was popped.
  unfoldable pub handle : Handlers (HandlerFunc Data World) → Event Data → World → World
  handle hs event w = call_each (find_handlers hs event.name) event w

  -- The loop, with fuel.
  unfoldable pub drain :
      ℕ → AsyncEventDispatcher Data World → World → AsyncEventDispatcher Data World × World
  drain zero d w = (d, w)
  drain (suc fuel) d w = elim (try_pop d.event_queue) [
    | none ↦ (d, w)
    | some (event, q) ↦ drain fuel (record d { event_queue = q }) (handle d.handlers event w)
  ]

  -- `HandleEvents()`, called on thread `t`.
  unfoldable pub handle_events :
      ℕ
      → AsyncEventDispatcher Data World
      → ℕ
      → World
      → Result (AsyncEventDispatcher Data World × World)
  handle_events fuel d t w =
      let claimed = claim d.handle_events_thread_id t in
      let d' = record d { handle_events_thread_id = claimed.0 } in
      if not claimed.1
      then threw (d', w)
      else if is_thread d'.dispatch_thread_id t
      then threw (d', w)
      else returned (drain fuel d' w)
