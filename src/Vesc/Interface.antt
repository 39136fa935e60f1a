-- ===== src/Vesc/Interface.antt =====
-- src/driver/motor_vesc/include/motor_vesc/vesc_can_interface.hpp, vesc_state.hpp and
-- src/vesc_can_interface.cpp: `VescCanInterface`. The CAN port is the list of the frames that were
-- sent and whether it is open, and the callback is the list of the states that it was given.
pub mod Handle
pub mod Port
use robosw.Base.{
  ℕ, ◌+◌, Bool, true, false, List, [], ◌∷◌, ◌++◌, Option, none, some, bit_and, bit_or, ◌==◌,
  if◌then◌else◌,
}
use robosw.Base.Int.{ℤ}
use robosw.Base.Float.{FloatOps, DoubleOps}
use robosw.Vesc.Frame.{
  CanFrame, vesc_status1_frame_id, vesc_status2_frame_id, vesc_status3_frame_id,
  vesc_status4_frame_id, vesc_status5_frame_id,
}
use robosw.Vesc.Status.{
  vesc_status1_packet, vesc_status2_packet, vesc_status3_packet, vesc_status4_packet,
  vesc_status5_packet,
}
use robosw.Vesc.Command.{
  vesc_set_servo_pos_cmd_packet, vesc_set_duty_cycle_cmd_packet, vesc_set_current_cmd_packet,
  vesc_set_current_brake_cmd_packet, vesc_set_rpm_cmd_packet, vesc_set_position_cmd_packet,
}

pub record VescState (Double : Type 0) : Type 0 where
  pub voltage_input : Double
  pub temperature_pcb : Double
  pub current_motor : Double
  pub current_input : Double
  pub speed : Double
  pub duty_cycle : Double
  pub charge_drawn : Double
  pub charge_regen : Double
  pub energy_drawn : Double
  pub energy_regen : Double
  pub displacement : Double
  pub distance_traveled : Double
  pub fault_code : ℤ

pub data VescStateUpdatedField : Type 0 where
  status1 status2 status3 status4 status5 : VescStateUpdatedField

pub record StampedVescState (Double : Type 0) : Type 0 where
  pub time : ℕ
  pub field : VescStateUpdatedField
  pub state : VescState Double

-- An `AsyncCAN`: whether it is open, and the frames sent on it.
pub record CanPort : Type 0 where
  pub opened : Bool
  pub sent : List CanFrame

-- `can` is absent until `Connect`; `notified` is absent until a callback is set.
pub record VescCanInterface (Double : Type 0) : Type 0 where
  pub can : Option CanPort
  pub vesc_id : ℕ
  pub stamped_state : StampedVescState Double
  pub notified : Option (List (StampedVescState Double))

module _ (ops : FloatOps) (doubles : DoubleOps ops) where
  open doubles use {Double, widen, narrow, of_int, trunc}

  -- `Connect`; `opens` is what opening the port returns.
  unfoldable pub connect : Bool → VescCanInterface Double → ℕ → Bool × VescCanInterface Double
  connect opens m id =
      (opens, record m { vesc_id = id; can = some (record { opened = opens; sent = [] }) })

  unfoldable pub disconnect : VescCanInterface Double → VescCanInterface Double
  disconnect m = elim m.can [
    | none ↦ m
    | some p ↦ if p.opened then record m { can = some (record p { opened = false }) } else m
  ]

  unfoldable pub set_state_updated_callback : VescCanInterface Double → VescCanInterface Double
  set_state_updated_callback m = record m { notified = some [] }

  -- The five bodies of the chain of tests of `HandleCanFrame`.
  abbrev pub on_status1 : CanFrame → StampedVescState Double → StampedVescState Double
  on_status1 frame s =
      let pkt = vesc_status1_packet ops frame in
      record s {
        field = VescStateUpdatedField.status1;
        state = record s.state {
          speed = widen pkt.rpm;
          current_motor = widen pkt.current;
          duty_cycle = widen pkt.duty;
        };
      }

  abbrev pub on_status2 : CanFrame → StampedVescState Double → StampedVescState Double
  on_status2 frame s =
      let pkt = vesc_status2_packet ops frame in
      record s {
        field = VescStateUpdatedField.status2;
        state = record s.state {
          charge_drawn = widen pkt.amp_hours;
          charge_regen = widen pkt.amp_hours_charged;
        };
      }

  abbrev pub on_status3 : CanFrame → StampedVescState Double → StampedVescState Double
  on_status3 frame s =
      let pkt = vesc_status3_packet ops frame in
      record s {
        field = VescStateUpdatedField.status3;
        state = record s.state {
          energy_drawn = widen pkt.watt_hours;
          energy_regen = widen pkt.watt_hours_charged;
        };
      }

  abbrev pub on_status4 : CanFrame → StampedVescState Double → StampedVescState Double
  on_status4 frame s =
      let pkt = vesc_status4_packet ops frame in
      record s {
        field = VescStateUpdatedField.status4;
        state = record s.state {
          temperature_pcb = widen pkt.temp_fet;
          current_input = widen pkt.current_in;
        };
      }

  abbrev pub on_status5 : CanFrame → StampedVescState Double → StampedVescState Double
  on_status5 frame s =
      let pkt = vesc_status5_packet ops frame in
      record s {
        field = VescStateUpdatedField.status5;
        state = record s.state {
          displacement = of_int pkt.tacho_value;
          voltage_input = widen pkt.voltage_in;
        };
      }

  -- The chain of tests, on the state that has its new time.
  unfoldable pub update : ℕ → CanFrame → StampedVescState Double → StampedVescState Double
  update vesc_id frame s =
      let can_id = bit_and frame.can_id 0x1fffffff in
      if can_id == bit_or vesc_status1_frame_id vesc_id
      then on_status1 frame s
      else if can_id == bit_or vesc_status2_frame_id vesc_id
      then on_status2 frame s
      else if can_id == bit_or vesc_status3_frame_id vesc_id
      then on_status3 frame s
      else if can_id == bit_or vesc_status4_frame_id vesc_id
      then on_status4 frame s
      else if can_id == bit_or vesc_status5_frame_id vesc_id
      then on_status5 frame s
      else s

  -- `HandleCanFrame`; `now` is what the clock says.
  unfoldable pub handle_can_frame : ℕ → VescCanInterface Double → CanFrame → VescCanInterface Double
  handle_can_frame now m frame =
      let s = update m.vesc_id frame (record m.stamped_state { time = now }) in
      record m {
        stamped_state = s;
        notified = elim m.notified [ none ↦ none | some states ↦ some (states ++ s ∷ []) ];
      }

  -- `if (can_ == nullptr || !can_->IsOpened()) return;` and then `can_->SendFrame(...)`.
  unfoldable pub send_frame : VescCanInterface Double → CanFrame → VescCanInterface Double
  send_frame m frame = elim m.can [
    | none ↦ m
    | some p ↦
        if p.opened then record m { can = some (record p { sent = p.sent ++ frame ∷ [] }) } else m
  ]

  -- `memory` is what the eight bytes of a new frame hold.
  module _ (memory : List ℕ) where
    unfoldable pub set_duty_cycle : VescCanInterface Double → Double → VescCanInterface Double
    set_duty_cycle m x =
        send_frame m (vesc_set_duty_cycle_cmd_packet ops memory m.vesc_id (narrow x))

    unfoldable pub set_current : VescCanInterface Double → Double → VescCanInterface Double
    set_current m x = send_frame m (vesc_set_current_cmd_packet ops memory m.vesc_id (narrow x))

    unfoldable pub set_brake : VescCanInterface Double → Double → VescCanInterface Double
    set_brake m x = send_frame m (vesc_set_current_brake_cmd_packet ops memory m.vesc_id (narrow x))

    unfoldable pub set_speed : VescCanInterface Double → Double → VescCanInterface Double
    set_speed m x = send_frame m (vesc_set_rpm_cmd_packet memory m.vesc_id (trunc x))

    unfoldable pub set_position : VescCanInterface Double → Double → VescCanInterface Double
    set_position m x = send_frame m (vesc_set_position_cmd_packet ops memory m.vesc_id (narrow x))

    unfoldable pub set_servo : VescCanInterface Double → Double → VescCanInterface Double
    set_servo m x = send_frame m (vesc_set_servo_pos_cmd_packet ops memory m.vesc_id (narrow x))
