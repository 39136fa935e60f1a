-- ===== src/Vesc/Command.antt =====
-- src/driver/motor_vesc/src/vesc_cmd_packet.cpp: the command packets. `memory` is what the eight bytes of
-- a new packet's frame hold, since nothing initialises them.
pub mod Encode
pub mod Limits
use robosw.Base.{ℕ, ◌+◌, ◌-◌, Bool, List, [], ◌∷◌, ◌++◌, bit_and, bit_or, shr, if◌then◌else◌, drop}
use robosw.Base.Int.{ℤ, pos, word16, word32}
use robosw.Base.Float.{FloatOps}
use robosw.Vesc.Frame.{
  CanFrame, can_eff_flag, vesc_duty_cycle_cmd_frame_id, vesc_current_cmd_frame_id,
  vesc_current_brake_cmd_frame_id, vesc_rpm_cmd_frame_id, vesc_position_cmd_frame_id,
  vesc_process_short_buffer_cmd_frame_id, vesc_comm_set_servo_pos_id,
}

-- A frame whose first four bytes are an `int32_t`, the highest first.
unfoldable pub word_frame : List ℕ → ℕ → ℕ → ℤ → CanFrame
word_frame memory kind vesc_id cmd = record {
  can_id = bit_or (bit_or kind vesc_id) can_eff_flag;
  can_dlc = 4;
  bytes =
      shr (bit_and (word32 cmd) 0xff000000) 24
      ∷ shr (bit_and (word32 cmd) 0x00ff0000) 16
      ∷ shr (bit_and (word32 cmd) 0x0000ff00) 8
      ∷ bit_and (word32 cmd) 0x000000ff
      ∷ drop 4 memory;
}

unfoldable pub vesc_set_rpm_cmd_packet : List ℕ → ℕ → ℤ → CanFrame
vesc_set_rpm_cmd_packet memory vesc_id rpm = word_frame memory vesc_rpm_cmd_frame_id vesc_id rpm

module _ (ops : FloatOps) (memory : List ℕ) where
  open ops use {Float, lt, of_int, mul, trunc}

  unfoldable pub clamp_command : Float → Float → Float → Float
  clamp_command cmd min max =
      let high = if lt max cmd then max else cmd in if lt high min then min else high

  unfoldable pub vesc_set_servo_pos_cmd_packet : ℕ → Float → CanFrame
  vesc_set_servo_pos_cmd_packet vesc_id p =
      let pos_cmd =
        trunc (mul (clamp_command p (of_int (pos 0)) (of_int (pos 1))) (of_int (pos 1000))) in
      record {
        can_id = bit_or (bit_or vesc_process_short_buffer_cmd_frame_id vesc_id) can_eff_flag;
        can_dlc = 5;
        bytes =
            vesc_id
            ∷ 0x00
            ∷ vesc_comm_set_servo_pos_id
            ∷ shr (bit_and (word16 pos_cmd) 0xff00) 8
            ∷ bit_and (word16 pos_cmd) 0x00ff
            ∷ drop 5 memory;
      }

  unfoldable pub vesc_set_duty_cycle_cmd_packet : ℕ → Float → CanFrame
  vesc_set_duty_cycle_cmd_packet vesc_id duty =
      word_frame memory vesc_duty_cycle_cmd_frame_id vesc_id
        (trunc (mul (clamp_command duty (of_int (pos 0)) (of_int (pos 1))) (of_int (pos 100000))))

  unfoldable pub vesc_set_current_cmd_packet : ℕ → Float → CanFrame
  vesc_set_current_cmd_packet vesc_id current =
      word_frame memory vesc_current_cmd_frame_id vesc_id
        (trunc (mul (clamp_command current (of_int (pos 0)) (of_int (pos 20))) (of_int (pos 1000))))

  unfoldable pub vesc_set_current_brake_cmd_packet : ℕ → Float → CanFrame
  vesc_set_current_brake_cmd_packet vesc_id current =
      word_frame memory vesc_current_brake_cmd_frame_id vesc_id
        (trunc (mul (clamp_command current (of_int (pos 0)) (of_int (pos 20))) (of_int (pos 1000))))

  unfoldable pub vesc_set_position_cmd_packet : ℕ → Float → CanFrame
  vesc_set_position_cmd_packet vesc_id p =
      word_frame memory vesc_position_cmd_frame_id vesc_id
        (trunc (mul (clamp_command p (of_int (pos 0)) (of_int (pos 1))) (of_int (pos 100000))))
