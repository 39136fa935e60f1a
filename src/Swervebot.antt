-- ===== src/Swervebot.antt =====
-- src/platform/swervebot/src/sbot_fsm.cpp: the modes of the swerve drive robot. The queues are those of
-- src/common/event, the value of a lever is a `float` of the parameter.
pub mod Modes
pub mod Receiver
use robosw.Base.{ℕ, Bool, true, false, Option, none, some, List, if◌then◌else◌}
use robosw.Base.Int.{pos}
use robosw.Base.Float.{FloatOps}
use robosw.Event.Queue.{try_pop}

-- `no_input` is `kNone`, which is not the joystick.
pub data UserInputType : Type 0 where
  no_input joystick rc_receiver : UserInputType

pub data Mode : Type 0 where
  manual auto : Mode

-- The part of `ControlContext` that the transitions use; a lever event is its value, a button its
-- number.
pub record ControlContext (Float : Type 0) : Type 0 where
  pub input : UserInputType
  pub js_button_queue : List ℕ
  pub rc_lever_queue : List Float

module _ (ops : FloatOps) where
  open ops use {Float, lt, of_int}

  -- What both transitions do on the joystick: any button changes the mode.
  unfoldable pub on_button : Mode → ControlContext Float → Option Mode × ControlContext Float
  on_button other c = elim (try_pop c.js_button_queue) [
    | none ↦ (none, c)
    | some (btn, q) ↦ (some other, record c { js_button_queue = q })
  ]

  unfoldable pub on_lever :
      (Float → Bool) → Mode → ControlContext Float → Option Mode × ControlContext Float
  on_lever test other c = elim (try_pop c.rc_lever_queue) [
    | none ↦ (none, c)
    | some (value, q) ↦ (if test value then some other else none, record c { rc_lever_queue = q })
  ]

  -- The two overloads of `ModeTransition::Transit`.
  unfoldable pub transit : Mode → ControlContext Float → Option Mode × ControlContext Float
  transit manual c = elim c.input [
    | joystick ↦ on_button auto c
    | no_input ↦ on_lever (λ v. lt (of_int (pos 0)) v) auto c
    | rc_receiver ↦ on_lever (λ v. lt (of_int (pos 0)) v) auto c
  ]
  transit auto c = elim c.input [
    | joystick ↦ on_button manual c
    | no_input ↦ on_lever (λ v. lt v (of_int (pos 0))) manual c
    | rc_receiver ↦ on_lever (λ v. lt v (of_int (pos 0))) manual c
  ]
