-- ===== src/Vesc/Interface/Port.antt =====
-- What goes out on the port.
use robosw.Base.{
  ℕ, ◌%◌, ◌^◌, ◌<◌, ◌≤◌, ◌≡◌, arith, Bool, List, [], ◌∷◌, ◌++◌, Option, none, some, Bool-cases, inl,
  inr,
}
use robosw.Base.Float.{FloatOps, DoubleOps}
use robosw.Vesc.Frame.{CanFrame}
use robosw.Vesc.Command.Encode.{Command, build, build-can_id}
use robosw.Vesc.Interface.{
  VescCanInterface, CanPort, StampedVescState, connect, disconnect, set_state_updated_callback,
  handle_can_frame, send_frame, set_duty_cycle, set_current, set_brake, set_speed, set_position,
  set_servo,
}

-- What can happen to an interface.
pub data Event (Double : Type 0) : Type 0 where
  connected : Bool → ℕ → Event Double
  disconnected callback_set : Event Double
  received : ℕ → CanFrame → Event Double
  duty_cycle current brake speed position servo : Double → Event Double

-- The frame is extended, and carries this controller's number.
abbrev pub IsAddressed : ℕ → CanFrame → Type 0
IsAddressed id f = (2 ^ 31 ≤ f.can_id) × (f.can_id % 256 ≡ id)

abbrev pub AllAddressed : ℕ → List CanFrame → Type 0
AllAddressed id [] = Unit {0}
AllAddressed id (f ∷ fs) = IsAddressed id f × AllAddressed id fs

AllAddressed-append :
    (id : ℕ) (fs : List CanFrame) (f : CanFrame)
    → AllAddressed id fs
    → IsAddressed id f
    → AllAddressed id (fs ++ f ∷ [])
AllAddressed-append id [] f h k = (k, tt)
AllAddressed-append id (g ∷ fs) f h k = (h.0, AllAddressed-append id fs f h.1 k)

abbrev pub sent_on : Option CanPort → List CanFrame
sent_on none = []
sent_on (some p) = p.sent

module _ (ops : FloatOps) (doubles : DoubleOps ops) (memory : List ℕ) where
  open doubles use {Double, narrow, trunc}

  abbrev pub step : VescCanInterface Double → Event Double → VescCanInterface Double
  step m (connected opens id) = (connect ops doubles opens m id).1
  step m disconnected = disconnect ops doubles m
  step m callback_set = set_state_updated_callback ops doubles m
  step m (received now frame) = handle_can_frame ops doubles now m frame
  step m (duty_cycle x) = set_duty_cycle ops doubles memory m x
  step m (current x) = set_current ops doubles memory m x
  step m (brake x) = set_brake ops doubles memory m x
  step m (speed x) = set_speed ops doubles memory m x
  step m (position x) = set_position ops doubles memory m x
  step m (servo x) = set_servo ops doubles memory m x

  abbrev pub run : VescCanInterface Double → List (Event Double) → VescCanInterface Double
  run m [] = m
  run m (e ∷ es) = run (step m e) es

  -- The numbers in a history are bytes.
  abbrev pub AreIds : List (Event Double) → Type 0
  AreIds [] = Unit {0}
  AreIds (connected opens id ∷ es) = (id < 256) × AreIds es
  AreIds (e ∷ es) = AreIds es

  -- The frames sent since the last connection are all addressed to the controller.
  pub record IsSound (m : VescCanInterface Double) : Type 0 where
    pub byte : m.vesc_id < 256
    pub addressed : AllAddressed m.vesc_id (sent_on m.can)

  -- An interface by its parts.
  abbrev parts :
      Option CanPort
      → ℕ
      → StampedVescState Double
      → Option (List (StampedVescState Double))
      → VescCanInterface Double
  parts port id s n = record { can = port; vesc_id = id; stamped_state = s; notified = n }

  build-IsAddressed :
      (id : ℕ) (c : Command ops.Float) → id < 256 → IsAddressed id (build ops memory id c)
  build-IsAddressed id c h =
      (omega (arith, build-can_id ops memory id c h), omega (arith, build-can_id ops memory id c h))

  send_port :
      (port : Option CanPort) (id : ℕ) (s : StampedVescState Double)
      (n : Option (List (StampedVescState Double))) (c : Command ops.Float)
      → id < 256
      → AllAddressed id (sent_on port)
      → IsSound (send_frame ops doubles (parts port id s n) (build ops memory id c))
  unfolding send_frame
  send_port none id s n c h k = record { byte = h; addressed = k }
  send_port (some p) id s n c h k = elim (Bool-cases p.opened) [
    | inl e ↦ rw e (record {
      byte = h;
      addressed = AllAddressed-append id p.sent _ k (build-IsAddressed id c h);
    })
    | inr e ↦ rw e (record { byte = h; addressed = k })
  ]

  send-IsSound :
      (m : VescCanInterface Double) (c : Command ops.Float)
      → IsSound m
      → IsSound (send_frame ops doubles m (build ops memory m.vesc_id c))
  send-IsSound m c s = send_port m.can m.vesc_id m.stamped_state m.notified c s.byte s.addressed

  close_port :
      (port : Option CanPort) (id : ℕ) (s : StampedVescState Double)
      (n : Option (List (StampedVescState Double)))
      → id < 256
      → AllAddressed id (sent_on port)
      → IsSound (disconnect ops doubles (parts port id s n))
  unfolding disconnect
  close_port none id s n h k = record { byte = h; addressed = k }
  close_port (some p) id s n h k = elim (Bool-cases p.opened) [
    | inl e ↦ rw e (record { byte = h; addressed = k })
    | inr e ↦ rw e (record { byte = h; addressed = k })
  ]

  step-IsSound :
      (m : VescCanInterface Double) (e : Event Double)
      → AreIds (e ∷ [])
      → IsSound m
      → IsSound (step m e)
  unfolding connect set_state_updated_callback handle_can_frame set_duty_cycle set_current set_brake
      set_speed set_position set_servo
  step-IsSound m (connected opens id) h s = record { byte = h.0; addressed = tt }
  step-IsSound m disconnected h s =
      close_port m.can m.vesc_id m.stamped_state m.notified s.byte s.addressed
  step-IsSound m callback_set h s = record { byte = s.byte; addressed = s.addressed }
  step-IsSound m (received now frame) h s = record { byte = s.byte; addressed = s.addressed }
  step-IsSound m (duty_cycle x) h s = send-IsSound m (Command.duty_cycle (narrow x)) s
  step-IsSound m (current x) h s = send-IsSound m (Command.current (narrow x)) s
  step-IsSound m (brake x) h s = send-IsSound m (Command.brake (narrow x)) s
  step-IsSound m (speed x) h s = send-IsSound m (Command.speed (trunc x)) s
  step-IsSound m (position x) h s = send-IsSound m (Command.position (narrow x)) s
  step-IsSound m (servo x) h s = send-IsSound m (Command.servo (narrow x)) s

  -- The first number of a history, and the others.
  AreIds-cons :
      (e : Event Double) (es : List (Event Double)) → AreIds (e ∷ es) → AreIds (e ∷ []) × AreIds es
  AreIds-cons (connected opens id) es h = ((h.0, tt), h.1)
  AreIds-cons disconnected es h = (tt, h)
  AreIds-cons callback_set es h = (tt, h)
  AreIds-cons (received now frame) es h = (tt, h)
  AreIds-cons (duty_cycle x) es h = (tt, h)
  AreIds-cons (current x) es h = (tt, h)
  AreIds-cons (brake x) es h = (tt, h)
  AreIds-cons (speed x) es h = (tt, h)
  AreIds-cons (position x) es h = (tt, h)
  AreIds-cons (servo x) es h = (tt, h)

  -- Through any history of connections, commands and received frames, every frame that was sent since
  -- the last connection is extended and carries the number of the controller connected to.
  pub run-IsSound :
      (es : List (Event Double)) (m : VescCanInterface Double)
      → AreIds es
      → IsSound m
      → IsSound (run m es)
  run-IsSound [] m h s = s
  run-IsSound (e ∷ es) m h s =
      let parts = AreIds-cons e es h in
      run-IsSound es (step m e) parts.1 (step-IsSound m e parts.0 s)
