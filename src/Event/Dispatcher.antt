-- ===== src/Event/Dispatcher.antt =====
-- src/common/event/include/event/event.hpp and event_dispatcher.hpp with src/event_dispatcher.cpp: events,
-- the handlers registered by name, and `EventDispatcher`. A `std::string` is the list of its
-- characters; a handler is a function on what it may change, which is not the dispatcher.
pub mod Order
use robosw.Base.{ℕ, ◌==◌, ◌&&◌, Bool, true, false, Option, List, [], ◌∷◌, ◌++◌, if◌then◌else◌}

pub data EventSource : Type 0 where
  none keyboard mouse mouse_button joystick_axis joystick_button ui_element application
        custom_event :
      EventSource

-- `Event<Args...>`, with `Data` for the tuple.
pub record Event (Data : Type 0) : Type 0 where
  pub source : EventSource
  pub name : List ℕ
  pub content : Data

unfoldable pub eqb_string : List ℕ → List ℕ → Bool
eqb_string [] [] = true
eqb_string [] (y ∷ ys) = false
eqb_string (x ∷ xs) [] = false
eqb_string (x ∷ xs) (y ∷ ys) = x == y && eqb_string xs ys

-- `std::unordered_map<std::string, std::vector<HandlerFunc>>`, one entry per name.
abbrev pub Handlers : Type 0 → Type 0
Handlers H = List (List ℕ × List H)

module _ {H : Type 0} where
  -- `handlers_[name].push_back(handler)`
  unfoldable pub register_handler : Handlers H → List ℕ → H → Handlers H
  register_handler [] name handler = (name, handler ∷ []) ∷ []
  register_handler (e ∷ es) name handler =
      let later = register_handler es name handler in
      if eqb_string e.0 name then (e.0, e.1 ++ handler ∷ []) ∷ es else e ∷ later

  -- The handlers of `find(name)`, or none.
  unfoldable pub find_handlers : Handlers H → List ℕ → List H
  find_handlers [] name = []
  find_handlers (e ∷ es) name =
      let later = find_handlers es name in if eqb_string e.0 name then e.1 else later

abbrev pub HandlerFunc : Type 0 → Type 0 → Type 0
HandlerFunc Data World = Event Data → World → World

module _ {Data World : Type 0} where
  -- `for (const auto& handler : handlers) handler(event);`
  unfoldable pub call_each : List (HandlerFunc Data World) → Event Data → World → World
  call_each [] event w = w
  call_each (h ∷ hs) event w = call_each hs event (h event w)

  -- `EventDispatcher::Dispatch`; `none` is the null pointer.
  unfoldable pub dispatch : Handlers (HandlerFunc Data World) → Option (Event Data) → World → World
  dispatch hs Option.none w = w
  dispatch hs (Option.some event) w = call_each (find_handlers hs event.name) event w
