-- ===== src/Quadruped.antt =====
-- src/platform/quadruped: the key functions of system_config.hpp, the handler
-- of src/event_handler/hid_event_handler.cpp, `Utils::PollKeyFunction` of src/utils.cpp and the mode
-- transitions of src/control_mode_fsm.cpp.
pub mod EventQueue
pub mod Keys
pub mod Modes
use robosw.Base.{
  ℕ, zero, suc, Bool, true, false, Option, none, some, List, [], ◌∷◌, ◌++◌, ◌==◌, ◌&&◌, ltb,
  if◌then◌else◌,
}
use robosw.Quadruped.EventQueue.{push, try_pop}

pub data KeyFunction : Type 0 where
  first_mode_key passive_mode fixed_stand_mode free_stand_mode trotting_mode swing_test_mode :
      KeyFunction
  balance_test_mode move_base_mode last_mode_key first_control_key left_stick_up : KeyFunction
  left_stick_down left_stick_left left_stick_right right_stick_up right_stick_down : KeyFunction
  right_stick_left right_stick_right last_control_key : KeyFunction

-- The value of the enumerator.
unfoldable pub key_code : KeyFunction → ℕ
key_code first_mode_key = 0
key_code passive_mode = 1
key_code fixed_stand_mode = 2
key_code free_stand_mode = 3
key_code trotting_mode = 4
key_code swing_test_mode = 5
key_code balance_test_mode = 6
key_code move_base_mode = 7
key_code last_mode_key = 8
key_code first_control_key = 9
key_code left_stick_up = 10
key_code left_stick_down = 11
key_code left_stick_left = 12
key_code left_stick_right = 13
key_code right_stick_up = 14
key_code right_stick_down = 15
key_code right_stick_left = 16
key_code right_stick_right = 17
key_code last_control_key = 18

-- `keyboard_mappings`, from key codes.
abbrev pub Mappings : Type 0
Mappings = List (ℕ × KeyFunction)

unfoldable pub find : Mappings → ℕ → Option KeyFunction
find [] code = none
find (e ∷ es) code = let later = find es code in if e.0 == code then some e.1 else later

-- `mappings[code]`, where a missing key gives the first enumerator. The map is a copy.
unfoldable pub lookup : Mappings → ℕ → KeyFunction
lookup m code = elim (find m code) [ none ↦ KeyFunction.first_mode_key | some f ↦ f ]

pub record HidEventHandler : Type 0 where
  pub mappings : Mappings
  pub kb_mode_switch_queue : List ℕ
  pub kb_control_input_queue : List ℕ

unfoldable pub is_mode_key : KeyFunction → Bool
is_mode_key f =
    ltb (key_code KeyFunction.first_mode_key) (key_code f)
    && ltb (key_code f) (key_code KeyFunction.last_mode_key)

unfoldable pub is_control_key : KeyFunction → Bool
is_control_key f =
    ltb (key_code KeyFunction.first_control_key) (key_code f)
    && ltb (key_code f) (key_code KeyFunction.last_control_key)

-- `OnKeyEvent(code, event)`; the flag tells whether the event is a press.
unfoldable pub on_key_event : HidEventHandler → ℕ → Bool → HidEventHandler
on_key_event h code false = h
on_key_event h code true = elim (find h.mappings code) [
  | none ↦ h
  | some f ↦ record h {
    kb_mode_switch_queue =
        if is_mode_key f then push h.kb_mode_switch_queue code else h.kb_mode_switch_queue;
    kb_control_input_queue =
        if is_control_key f then push h.kb_control_input_queue code else h.kb_control_input_queue;
  }
]

-- `while (next_key_event.has_value()) key_event = next_key_event;` with fuel; `none` is out of fuel.
unfoldable pub poll_loop : ℕ → Option ℕ → ℕ → Option ℕ
poll_loop zero (some next) key_event = none
poll_loop zero none key_event = some key_event
poll_loop (suc fuel) none key_event = some key_event
poll_loop (suc fuel) (some next) key_event = poll_loop fuel (some next) next

-- `PollKeyFunction(context, kModeSwitch)` on the queue of the handler; `between` is what the thread of
-- the keyboard pushes between the two polls. The outer `none` is out of fuel.
unfoldable pub poll_key_function :
    ℕ → HidEventHandler → List ℕ → Option (Option KeyFunction × HidEventHandler)
poll_key_function fuel h between =
    let (key_event, q) = try_pop h.kb_mode_switch_queue in
    elim key_event [
      | none ↦ some (none, h)
      | some code ↦
          let arrived = push_each q between in
          let (next, q') = try_pop arrived in
          elim (poll_loop fuel next code) [
            | none ↦ none
            | some latest ↦
                some (some (lookup h.mappings latest), record h { kb_mode_switch_queue = q' })
          ]
    ]
  where
    push_each : List ℕ → List ℕ → List ℕ
    push_each q [] = q
    push_each q (x ∷ xs) = push_each (push q x) xs

pub data ControlMode : Type 0 where
  fixed_stand lying_down swing_test free_stand balance_test move_base passive trotting : ControlMode

-- The overloads of `ModeTransition::Transit`, on what the poll returned; `trotting` and `move_base` do
-- not poll.
unfoldable pub transit : ControlMode → Option KeyFunction → Option ControlMode
transit trotting key_func = some trotting
transit move_base key_func = some passive
transit fixed_stand (some KeyFunction.fixed_stand_mode) = some lying_down
transit fixed_stand (some KeyFunction.swing_test_mode) = some swing_test
transit fixed_stand (some KeyFunction.free_stand_mode) = some free_stand
transit fixed_stand (some KeyFunction.balance_test_mode) = some balance_test
transit lying_down (some KeyFunction.passive_mode) = some passive
transit lying_down (some KeyFunction.fixed_stand_mode) = some fixed_stand
transit swing_test (some KeyFunction.fixed_stand_mode) = some fixed_stand
transit free_stand (some KeyFunction.fixed_stand_mode) = some fixed_stand
transit passive (some KeyFunction.fixed_stand_mode) = some fixed_stand
transit balance_test (some KeyFunction.fixed_stand_mode) = some fixed_stand
transit _ _ = none
