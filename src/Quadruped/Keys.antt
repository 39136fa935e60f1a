-- ===== src/Quadruped/Keys.antt =====
-- From the keyboard to the mode switch: the queue keeps the latest key, and the poll takes it.
use robosw.Base.{
  ℕ, zero, suc, ◌≡◌, refl, ap, ◌∙◌, arith, Bool, true, false, Option, none, some, List, [], ◌∷◌,
  ◌&&◌, if◌then◌else◌,
}
use robosw.Quadruped.EventQueue.{push, try_pop}
use robosw.Quadruped.{
  KeyFunction, Mappings, HidEventHandler, find, lookup, is_mode_key, on_key_event, poll_loop,
  poll_key_function,
}

-- Whether the function is there and selects a mode.
abbrev pub selects : Option KeyFunction → Bool
selects none = false
selects (some f) = is_mode_key f

-- The key that a queue of at most one holds.
abbrev pub queue_of : Option ℕ → List ℕ
queue_of none = []
queue_of (some code) = code ∷ []

-- The latest press of a mode key, or `before` if there is none.
abbrev pub latest : Mappings → Option ℕ → List (ℕ × Bool) → Option ℕ
latest m before [] = before
latest m before ((code, pressed) ∷ es) =
    latest m (if pressed && selects (find m code) then some code else before) es

abbrev pub on_key_events : HidEventHandler → List (ℕ × Bool) → HidEventHandler
on_key_events h [] = h
on_key_events h (e ∷ es) = on_key_events (on_key_event h e.0 e.1) es

push-queue_of : (o : Option ℕ) (code : ℕ) → push (queue_of o) code ≡ code ∷ []
unfolding push
push-queue_of none code = refl
push-queue_of (some old) code = refl

on_key_event-mappings :
    (h : HidEventHandler) (code : ℕ) (p : Bool) → (on_key_event h code p).mappings ≡ h.mappings
unfolding on_key_event
on_key_event-mappings h code false = refl
on_key_event-mappings h code true = ground arith

on_key_event-queue :
    (h : HidEventHandler) (o : Option ℕ) (code : ℕ) (p : Bool)
    → h.kb_mode_switch_queue ≡ queue_of o
    → (on_key_event h code p).kb_mode_switch_queue
      ≡ queue_of (if p && selects (find h.mappings code) then some code else o)
unfolding on_key_event
on_key_event-queue h o code false e = e
on_key_event-queue h o code true e = ground (arith, push-queue_of o code)

pub on_key_events-queue :
    (es : List (ℕ × Bool)) (h : HidEventHandler) (o : Option ℕ)
    → h.kb_mode_switch_queue ≡ queue_of o
    → ((on_key_events h es).kb_mode_switch_queue ≡ queue_of (latest h.mappings o es))
      × ((on_key_events h es).mappings ≡ h.mappings)
on_key_events-queue [] h o e = (e, refl)
on_key_events-queue ((code, p) ∷ es) h o e =
    let ih =
      on_key_events-queue es (on_key_event h code p)
        (if p && selects (find h.mappings code) then some code else o)
        (on_key_event-queue h o code p e) in
    let same = on_key_event-mappings h code p in
    (
      ih.0
          ∙ ap
              (λ m.
                queue_of
                  (latest m (if p && selects (find h.mappings code) then some code else o) es))
              same,
      ih.1 ∙ same,
    )

-- What the poll makes of the latest key.
abbrev pub answer : Mappings → Option ℕ → Option KeyFunction
answer m none = none
answer m (some code) = some (lookup m code)

poll-queue_of :
    (fuel : ℕ) (o : Option ℕ) (h : HidEventHandler)
    → h.kb_mode_switch_queue ≡ queue_of o
    → poll_key_function fuel h []
      ≡ some (answer h.mappings o, record h { kb_mode_switch_queue = [] })
unfolding poll_key_function poll_loop try_pop
poll-queue_of zero none h e = ground (arith, e)
poll-queue_of (suc fuel) none h e = ground (arith, e)
poll-queue_of zero (some code) h e = ground (arith, e)
poll-queue_of (suc fuel) (some code) h e = ground (arith, e)

-- After any keyboard events from a handler with nothing queued, a poll that no key interrupts gives the
-- function of the latest press of a mode key, if there was one, and leaves nothing queued; it needs no
-- fuel.
pub poll-on_key_events :
    (fuel : ℕ) (h : HidEventHandler) (es : List (ℕ × Bool))
    → h.kb_mode_switch_queue ≡ []
    → let h' = on_key_events h es in
      poll_key_function fuel h' []
      ≡ some
          (answer h.mappings (latest h.mappings none es), record h' { kb_mode_switch_queue = [] })
poll-on_key_events fuel h es e =
    let after = on_key_events-queue es h none e in
    poll-queue_of fuel (latest h.mappings none es) (on_key_events h es) after.0
    ∙ ap
        (λ m. some (
          answer m (latest h.mappings none es),
          record (on_key_events h es) { kb_mode_switch_queue = [] },
        ))
        after.1

poll_loop-stuck : (fuel next code : ℕ) → poll_loop fuel (some next) code ≡ none
unfolding poll_loop
poll_loop-stuck zero next code = refl
poll_loop-stuck (suc fuel) next code = poll_loop-stuck fuel next next

-- When a mode key waits and another is pressed between the two polls, `PollKeyFunction` does not
-- return, whatever the fuel: its loop polls no more.
pub poll-stuck :
    (fuel : ℕ) (h : HidEventHandler) (code arrived : ℕ)
    → h.kb_mode_switch_queue ≡ code ∷ []
    → poll_key_function fuel h (arrived ∷ []) ≡ none
unfolding poll_key_function try_pop push
poll-stuck fuel h code arrived e = ground (arith, e, poll_loop-stuck fuel arrived code)
