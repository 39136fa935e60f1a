-- ===== src/Swervebot/Modes.antt =====
-- The mode after the queued input.
use robosw.Base.{ℕ, zero, suc, ◌≡◌, refl, ap, ◌∙◌, arith, List, [], ◌∷◌, if◌then◌else◌, length}
use robosw.Base.Int.{pos}
use robosw.Base.Float.{FloatOps}
use robosw.Event.Queue.{try_pop}
use robosw.Fsm.{FiniteStateMachine, update}
use robosw.Swervebot.{UserInputType, Mode, ControlContext, on_button, on_lever, transit}

module _ (ops : FloatOps) where
  open ops use {Float, lt, of_int}

  abbrev pub Machine : Type 0
  Machine = FiniteStateMachine Mode (ControlContext Float)

  -- `n` updates, of modes whose own action leaves these queues alone.
  abbrev pub updates : ℕ → Machine → Machine
  updates zero m = m
  updates (suc n) m = updates n (update (λ s c. c) (transit ops) m)

  -- The mode that one lever value leads to.
  abbrev pub by_lever : Mode → Float → Mode
  by_lever Mode.manual v = if lt (of_int (pos 0)) v then Mode.auto else Mode.manual
  by_lever Mode.auto v = if lt v (of_int (pos 0)) then Mode.manual else Mode.auto

  abbrev pub by_levers : Mode → List Float → Mode
  by_levers m [] = m
  by_levers m (v ∷ vs) = by_levers (by_lever m v) vs

  abbrev pub flip : Mode → Mode
  flip Mode.manual = Mode.auto
  flip Mode.auto = Mode.manual

  abbrev pub flips : ℕ → Mode → Mode
  flips zero m = m
  flips (suc n) m = flips n (flip m)

  abbrev pub on_rc : List ℕ → List Float → ControlContext Float
  on_rc buttons levers = record {
    input = UserInputType.rc_receiver;
    js_button_queue = buttons;
    rc_lever_queue = levers;
  }

  abbrev pub on_joystick : List ℕ → List Float → ControlContext Float
  on_joystick buttons levers = record {
    input = UserInputType.joystick;
    js_button_queue = buttons;
    rc_lever_queue = levers;
  }

  abbrev pub machine : Mode → ControlContext Float → Machine
  machine m c = record { current_state = m; context = c }

  lever_step :
      (m : Mode) (buttons : List ℕ) (v : Float) (vs : List Float)
      → update (λ s c. c) (transit ops) (machine m (on_rc buttons (v ∷ vs)))
        ≡ machine (by_lever m v) (on_rc buttons vs)
  unfolding update transit on_lever try_pop
  lever_step Mode.manual buttons v vs = ground arith
  lever_step Mode.auto buttons v vs = ground arith

  -- With the remote control, as many updates as there are lever events use them all up, the oldest
  -- first: a positive value leads from manual to auto, a negative one from auto to manual; no button
  -- is taken.
  pub updates-levers :
      (vs : List Float) (m : Mode) (buttons : List ℕ)
      → updates (length vs) (machine m (on_rc buttons vs))
        ≡ machine (by_levers m vs) (on_rc buttons [])
  updates-levers [] m buttons = refl
  updates-levers (v ∷ vs) m buttons =
      ap (updates (length vs)) (lever_step m buttons v vs)
      ∙ updates-levers vs (by_lever m v) buttons

  button_step :
      (m : Mode) (b : ℕ) (bs : List ℕ) (levers : List Float)
      → update (λ s c. c) (transit ops) (machine m (on_joystick (b ∷ bs) levers))
        ≡ machine (flip m) (on_joystick bs levers)
  unfolding update transit on_button try_pop
  button_step Mode.manual b bs levers = refl
  button_step Mode.auto b bs levers = refl

  -- With the joystick, each queued button changes the mode once; no lever event is taken.
  pub updates-buttons :
      (bs : List ℕ) (m : Mode) (levers : List Float)
      → updates (length bs) (machine m (on_joystick bs levers))
        ≡ machine (flips (length bs) m) (on_joystick [] levers)
  updates-buttons [] m levers = refl
  updates-buttons (b ∷ bs) m levers =
      ap (updates (length bs)) (button_step m b bs levers) ∙ updates-buttons bs (flip m) levers
