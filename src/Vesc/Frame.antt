-- ===== src/Vesc/Frame.antt =====
-- src/driver/motor_vesc/include/motor_vesc/vesc_frame.hpp: the frame ids, and `struct can_frame`.
use robosw.Base.{ℕ, List}

-- The fields that the driver uses; `bytes` is its `data`, which has eight bytes.
pub record CanFrame : Type 0 where
  pub can_id : ℕ
  pub can_dlc : ℕ
  pub bytes : List ℕ

abbrev pub vesc_status1_frame_id : ℕ
vesc_status1_frame_id = 0x00000900

abbrev pub vesc_status2_frame_id : ℕ
vesc_status2_frame_id = 0x00000e00

abbrev pub vesc_status3_frame_id : ℕ
vesc_status3_frame_id = 0x00000f00

abbrev pub vesc_status4_frame_id : ℕ
vesc_status4_frame_id = 0x00001000

abbrev pub vesc_status5_frame_id : ℕ
vesc_status5_frame_id = 0x00001b00

abbrev pub vesc_duty_cycle_cmd_frame_id : ℕ
vesc_duty_cycle_cmd_frame_id = 0x00000000

abbrev pub vesc_current_cmd_frame_id : ℕ
vesc_current_cmd_frame_id = 0x00000100

abbrev pub vesc_current_brake_cmd_frame_id : ℕ
vesc_current_brake_cmd_frame_id = 0x00000200

abbrev pub vesc_rpm_cmd_frame_id : ℕ
vesc_rpm_cmd_frame_id = 0x00000300

abbrev pub vesc_position_cmd_frame_id : ℕ
vesc_position_cmd_frame_id = 0x00000400

abbrev pub vesc_process_short_buffer_cmd_frame_id : ℕ
vesc_process_short_buffer_cmd_frame_id = 0x00000800

abbrev pub vesc_comm_set_servo_pos_id : ℕ
vesc_comm_set_servo_pos_id = 0x0c

-- `CAN_EFF_FLAG` of linux/can.h, the mark of a 29 bit id.
abbrev pub can_eff_flag : ℕ
can_eff_flag = 0x80000000
