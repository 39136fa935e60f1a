-- ===== src/Tests/Robots.antt =====
-- The modes of the robots.
use robosw.Base.{
  ℕ, ◌⊎◌, ◌++◌, ◌≤◌, ◌^◌, ◌/◌, arith, ◌≡◌, refl, Bool, false, true, Option, none, some, List, [],
  ◌∷◌, length,
}
use robosw.Base.Int.{ℤ, pos, negsuc}
use robosw.Quadruped.{KeyFunction, HidEventHandler, poll_key_function}
use robosw.Quadruped.Keys.{on_key_events, answer, latest, poll-on_key_events, poll-stuck}
use robosw.Swervebot.{Mode}
use robosw.Swervebot.Modes.{updates, machine, on_rc, by_levers, updates-levers}
use robosw.Tests.Motors.{exact}
use robosw.Tests.Planners.{exact_reals}
use robosw.Vesc.Frame.{CanFrame}
use robosw.Tbot.{Messenger, CanPort, send_rpm_command, to_int32, tbot_rpm_cmd_can_id}
use robosw.Tbot.Wheels.{send_rpm_command-read}
use robosw.RobotBase.Actuators.{SpeedActuator, get_speed, sum_values}
use robosw.RobotBase.Actuators.Average.{group, get_speed-negative}

abbrev handler : List ℕ → HidEventHandler
handler q = record {
  mappings = (30, KeyFunction.fixed_stand_mode) ∷ (31, KeyFunction.left_stick_up) ∷ [];
  kb_mode_switch_queue = q;
  kb_control_input_queue = [];
}

abbrev presses : List (ℕ × Bool)
presses = (30, true) ∷ (31, true) ∷ (30, false) ∷ []

poll-on_key_events_example :
    let h' = on_key_events (handler []) presses in
    poll_key_function 0 h' []
    ≡ some (
      answer (handler []).mappings (latest (handler []).mappings none presses),
      record h' { kb_mode_switch_queue = [] },
    )
poll-on_key_events_example = poll-on_key_events 0 (handler []) presses refl

poll-stuck_example : poll_key_function 9 (handler (30 ∷ [])) (30 ∷ []) ≡ none
poll-stuck_example = poll-stuck 9 (handler (30 ∷ [])) 30 30 refl

abbrev keys : List (Option KeyFunction)
keys = some KeyFunction.fixed_stand_mode ∷ none ∷ some KeyFunction.trotting_mode ∷ []

updates-levers_example :
    updates exact 2 (machine exact Mode.manual (on_rc exact [] (pos 1 ∷ negsuc 0 ∷ [])))
    ≡ machine exact (by_levers exact Mode.manual (pos 1 ∷ negsuc 0 ∷ [])) (on_rc exact [] [])
updates-levers_example = updates-levers exact (pos 1 ∷ negsuc 0 ∷ []) Mode.manual []

-- A group of two motors at -3 and -4.
abbrev motor : SpeedActuator ℤ ℤ
motor = record {
  set_speed = λ rpm a. rpm;
  get_speed = λ a. a;
  apply_brake = λ b a. pos 0;
  release_brake = λ a. a;
  is_normal = λ a. true;
}

get_speed-negative_example :
    (m : ℕ) × (get_speed exact_reals motor (negsuc 2 ∷ negsuc 3 ∷ []) ≡ some (pos m))
    × (2 ^ 63 / length (group exact_reals motor (negsuc 2) (negsuc 3 ∷ [])) ≤ m)
unfolding sum_values
get_speed-negative_example =
    get_speed-negative exact_reals motor (negsuc 2) (negsuc 3 ∷ []) 6 (omega arith) refl

-- The board with an open port.
abbrev board : Messenger ℤ
board = record {
  can = some (record { opened = true; sent = [] });
  supervised_mode = 0;
  rpm_buffers = record {
    raw_left = [];
    raw_right = [];
    filtered_left = [];
    filtered_right = [];
    target_left = [];
    target_right = [];
  };
}

send_rpm_command-read_example :
    ((board.can ≡ none) × ((send_rpm_command exact [] board (pos 300) (negsuc 299)).can ≡ none))
    ⊎ ((p : CanPort) × (f : CanFrame) × (board.can ≡ some p)
        × ((send_rpm_command exact [] board (pos 300) (negsuc 299)).can
            ≡ some (record p { sent = p.sent ++ f ∷ [] }))
        × (f.can_id ≡ tbot_rpm_cmd_can_id)
        × (f.can_dlc ≡ length f.bytes)
        × (to_int32 f.bytes 0 ≡ pos 300)
        × (to_int32 f.bytes 4 ≡ negsuc 299))
send_rpm_command-read_example =
    send_rpm_command-read exact [] board (pos 300) (negsuc 299) (omega arith, omega arith)
      (omega arith, omega arith)
