-- ===== src/Tests/Motors.antt =====
-- The DDSM210 driver and the VESC interface, on exact numbers in place of floats.
use native.Mathlib.Nat.{mul-le-mul_right}
use robosw.Base.{
  ℕ, zero, suc, ◌+◌, ◌-◌, ◌*◌, ◌/◌, ◌^◌, ◌≤◌, ◌≡◌, refl, false, true, none, some, List, [], ◌∷◌,
  ◌++◌, arith, replicate, inl,
}
use robosw.Base.Int.{ℤ, pos, negsuc, ◌≤ℤ◌, ltb_ℤ}
use robosw.Base.Float.{FloatOps, DoubleOps}
use robosw.Ddsm210.Frame.{no_feedback, min_rpm, max_rpm}
use robosw.Ddsm210.Frame.Encode.{SpeedLaws}
use robosw.Ddsm210.Driver.{Ddsm210, process_feedback}
use robosw.Ddsm210.Driver.Parse.{parse, view, process_feedback_refines}
use robosw.Vesc.Frame.{CanFrame}
use robosw.Vesc.Command.Encode as Packets
use robosw.Vesc.Command.Encode.{code, build-can_id}
use robosw.Vesc.Command.Limits.{ScaleLaws, asked, least, most, asked-range}
use robosw.Vesc.Status.{vesc_status1_packet}
use robosw.Vesc.Status.Decode.{frame_of, bytes2, bytes4, vesc_status1_packet-frame_of}
use robosw.Vesc.Interface.{VescCanInterface, StampedVescState, VescStateUpdatedField, update}
use robosw.Vesc.Interface.Handle.{
  apply_status, update_refines, handle_frames, own_frames, known, calls, more, handle_frames-own,
}
use robosw.Vesc.Interface.Port.{Event, IsSound, run, run-IsSound}

-- Integers in place of floats, which are exact.
abbrev pub mul_ℤ : ℤ → ℤ → ℤ
mul_ℤ (pos a) (pos b) = pos (a * b)
mul_ℤ (pos zero) (negsuc b) = pos 0
mul_ℤ (pos (suc a)) (negsuc b) = negsuc (suc a * suc b - 1)
mul_ℤ (negsuc a) (pos zero) = pos 0
mul_ℤ (negsuc a) (pos (suc b)) = negsuc (suc a * suc b - 1)
mul_ℤ (negsuc a) (negsuc b) = pos (suc a * suc b)

abbrev pub div_ℤ : ℤ → ℤ → ℤ
div_ℤ (pos a) (pos b) = pos (a / b)
div_ℤ a b = a

abbrev pub exact : FloatOps
exact = record { Float = ℤ; lt = ltb_ℤ; of_int = λ z. z; mul = mul_ℤ; div = div_ℤ; trunc = λ z. z }

abbrev exact_doubles : DoubleOps exact
exact_doubles = record {
  Double = ℤ;
  widen = λ z. z;
  narrow = λ z. z;
  of_int = λ z. z;
  trunc = λ z. z;
}

tenths_exact :
    (x : ℤ)
    → ltb_ℤ max_rpm x ≡ false
    → ltb_ℤ x min_rpm ≡ false
    → (negsuc 2099 ≤ℤ mul_ℤ x (pos 10)) × (mul_ℤ x (pos 10) ≤ℤ pos 2100)
tenths_exact (pos n) h l = ground (arith, h, l)
tenths_exact (negsuc n) h l = ground (arith, h, l)

exact-SpeedLaws : SpeedLaws exact
exact-SpeedLaws = record { limits = λ a b _ _ _ _. refl; tenths = tenths_exact }

scaled_exact :
    (x : ℤ) (top k : ℕ)
    → top * k ≤ 2 ^ 24
    → ltb_ℤ (pos top) x ≡ false
    → ltb_ℤ x (pos 0) ≡ false
    → (pos 0 ≤ℤ mul_ℤ x (pos k)) × (mul_ℤ x (pos k) ≤ℤ pos (top * k))
scaled_exact (pos n) top k h l m =
    let below : n ≤ top = ground (arith, l) in
    (omega arith, ground (arith, mul-le-mul_right k below))
scaled_exact (negsuc n) top k h l m = absurd (ground (arith, m))

exact-ScaleLaws : ScaleLaws exact (replicate 8 0)
exact-ScaleLaws = record {
  limits = λ a b _ _. refl;
  scaled = λ x top k t u h n. scaled_exact x top k h;
}

-- A driver of the motor 1, with a buffer of 16 bytes.
abbrev driver : Ddsm210
driver = record {
  motor_id = 1;
  opened = true;
  sent = [];
  rx_buffer = record {
    size = 16;
    buffer = replicate 16 0;
    size_mask = 15;
    write_index = 0;
    read_index = 0;
    enable_overwrite = false;
  };
  raw_feedback = no_feedback;
  id_set_ack_received = false;
}

-- Two bytes of noise, and a frame that reports a mode.
abbrev arrived : List ℕ
arrived = 9 ∷ 8 ∷ 1 ∷ 0x75 ∷ 2 ∷ 0 ∷ 0 ∷ 0 ∷ 0 ∷ 0 ∷ 0 ∷ 61 ∷ []

process_feedback_refines_example :
    view [] 1 (process_feedback [] 20 arrived driver) ≡ parse [] 1 20 (no_feedback, false) arrived
process_feedback_refines_example =
    process_feedback_refines [] 1 {bits = 4} 20 arrived driver
      (record {
        same_id = refl;
        valid = record {
          small = omega arith;
          size_pow = refl;
          mask = refl;
          memory = refl;
          write_in = omega arith;
          read_in = omega arith;
          ahead = omega arith;
        };
        roomy = omega arith;
      })
      (omega arith)

abbrev two : ℕ
two = 2

-- The motor answers with a speed frame that carries its new id.
abbrev acknowledged : List (List ℕ)
acknowledged = (2 ∷ 0x64 ∷ 0 ∷ 0 ∷ 0 ∷ 0 ∷ 0 ∷ 1 ∷ 0 ∷ 97 ∷ []) ∷ []

abbrev memory : List ℕ
memory = replicate 8 0

build-can_id_example :
    (Packets.build exact memory 7 (Packets.Command.duty_cycle (pos 3))).can_id
    ≡ 2 ^ 31 + code exact memory (Packets.Command.duty_cycle (pos 3)) * 256 + 7
build-can_id_example =
    build-can_id exact memory 7 (Packets.Command.duty_cycle (pos 3)) (omega arith)

asked-range_example :
    (least exact memory (Packets.Command.servo (negsuc 4))
      ≤ℤ asked exact memory 7 (Packets.Command.servo (negsuc 4)))
    × (asked exact memory 7 (Packets.Command.servo (negsuc 4))
        ≤ℤ pos (most exact memory (Packets.Command.servo (negsuc 4))))
asked-range_example =
    asked-range exact memory exact-ScaleLaws 7 (Packets.Command.servo (negsuc 4)) (inl refl)

vesc_status1_packet-frame_of_example :
    vesc_status1_packet exact
      (frame_of exact 0x80000907 (bytes4 (negsuc 2) ++ bytes2 (pos 100) ++ bytes2 (negsuc 0)))
    ≡ record {
      rpm = negsuc 2;
      current = div_ℤ (pos 100) (pos 10);
      duty = div_ℤ (pos 65535) (pos 1000);
    }
vesc_status1_packet-frame_of_example =
    vesc_status1_packet-frame_of exact 0x80000907 (negsuc 2) (pos 100) (negsuc 0)
      (omega arith, omega arith) (omega arith, omega arith)

abbrev unknown : StampedVescState ℤ
unknown = record {
  time = 0;
  field = VescStateUpdatedField.status1;
  state = record {
    voltage_input = pos 0;
    temperature_pcb = pos 0;
    current_motor = pos 0;
    current_input = pos 0;
    speed = pos 0;
    duty_cycle = pos 0;
    charge_drawn = pos 0;
    charge_regen = pos 0;
    energy_drawn = pos 0;
    energy_regen = pos 0;
    displacement = pos 0;
    distance_traveled = pos 0;
    fault_code = pos 0;
  };
}

abbrev vesc : VescCanInterface ℤ
vesc = record { can = none; vesc_id = 7; stamped_state = unknown; notified = none }

abbrev status5 : ℕ → CanFrame
status5 id = frame_of exact id (bytes4 (pos 1000) ++ bytes2 (pos 240) ++ 0 ∷ 0 ∷ [])

update_refines_example :
    update exact exact_doubles 7 (status5 0x80001b07) unknown
    ≡ apply_status exact exact_doubles
        (some VescStateUpdatedField.status5)
        (status5 0x80001b07)
        unknown
update_refines_example =
    update_refines exact exact_doubles 7 (status5 0x80001b07) unknown (omega arith)

abbrev traffic : List (ℕ × CanFrame)
traffic = (1, status5 0x80001b07) ∷ (2, status5 0x80001b08) ∷ []

handle_frames-own_example :
    let after = handle_frames exact exact_doubles traffic vesc in
    (known exact exact_doubles after.stamped_state
      ≡ known exact exact_doubles
          (handle_frames exact exact_doubles
            (own_frames exact exact_doubles 7 traffic)
            vesc).stamped_state)
    × (after.stamped_state.time ≡ 2)
    × (calls exact exact_doubles after.notified
        ≡ more exact exact_doubles 2 (calls exact exact_doubles vesc.notified))
handle_frames-own_example = handle_frames-own exact exact_doubles traffic vesc (omega arith)

abbrev events : List (Event ℤ)
events =
    Event.speed (pos 1)
    ∷ Event.connected true 9
    ∷ Event.duty_cycle (pos 2)
    ∷ Event.disconnected
    ∷ Event.servo (pos 1)
    ∷ []

run-IsSound_example :
    IsSound exact exact_doubles memory (run exact exact_doubles memory vesc events)
run-IsSound_example =
    run-IsSound exact exact_doubles memory events vesc (omega arith, tt)
      (record { byte = omega arith; addressed = tt })
