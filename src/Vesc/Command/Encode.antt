-- ===== src/Vesc/Command/Encode.antt =====
-- What the command packets carry.
use robosw.Base.{
  ℕ, ◌+◌, ◌-◌, ◌*◌, ◌^◌, ◌<◌, ◌≡◌, ap, ◌∙◌, List, arith, get_or, bit_or, shl, shl-bit_or,
  bit_or-shl,
}
use robosw.Base.Int.{ℤ, pos, negsuc, signed16, signed32, signed32-word32, ◌≤ℤ◌}
use robosw.Base.Bytes.{word_of4, word_of2, word_of4-bytes}
use robosw.Base.Float.{FloatOps}
use robosw.Vesc.Frame.{CanFrame}
use robosw.Vesc.Command.{
  word_frame, vesc_set_servo_pos_cmd_packet, vesc_set_duty_cycle_cmd_packet,
  vesc_set_current_cmd_packet, vesc_set_current_brake_cmd_packet, vesc_set_rpm_cmd_packet,
  vesc_set_position_cmd_packet,
}

-- The signed word in the first four bytes, and in bytes 3 and 4.
abbrev pub word_at0 : CanFrame → ℤ
word_at0 f =
    signed32
      (word_of4 (get_or f.bytes 0 0) (get_or f.bytes 1 0) (get_or f.bytes 2 0) (get_or f.bytes 3 0))

abbrev pub word_at3 : CanFrame → ℤ
word_at3 f = signed16 (word_of2 (get_or f.bytes 3 0) (get_or f.bytes 4 0))

-- The four bytes of an `int32_t` are put together again to the same number.
pub word_at0-word_frame :
    (memory : List ℕ) (kind id : ℕ) (v : ℤ)
    → negsuc (2 ^ 31 - 1) ≤ℤ v
    → v ≤ℤ pos (2 ^ 31 - 1)
    → word_at0 (word_frame memory kind id v) ≡ v
unfolding word_frame
word_at0-word_frame memory kind id v lo hi =
    ap signed32 (word_of4-bytes v) ∙ signed32-word32 v lo hi

-- The six commands, with what each is given.
pub data Command (Float : Type 0) : Type 0 where
  duty_cycle current brake position servo : Float → Command Float
  speed : ℤ → Command Float

module _ (ops : FloatOps) (memory : List ℕ) where
  open ops use {Float, lt, of_int, mul, trunc}

  abbrev pub build : ℕ → Command Float → CanFrame
  build id (duty_cycle x) = vesc_set_duty_cycle_cmd_packet ops memory id x
  build id (current x) = vesc_set_current_cmd_packet ops memory id x
  build id (brake x) = vesc_set_current_brake_cmd_packet ops memory id x
  build id (position x) = vesc_set_position_cmd_packet ops memory id x
  build id (servo x) = vesc_set_servo_pos_cmd_packet ops memory id x
  build id (speed n) = vesc_set_rpm_cmd_packet memory id n

  -- The number of the command on the bus.
  abbrev pub code : Command Float → ℕ
  code (duty_cycle x) = 0
  code (current x) = 1
  code (brake x) = 2
  code (speed n) = 3
  code (position x) = 4
  code (servo x) = 8

  join_id :
      (kind id : ℕ)
      → kind < 256
      → id < 256
      → bit_or (bit_or (shl kind 8) id) 0x80000000 ≡ 2 ^ 31 + kind * 256 + id
  join_id kind id k h =
      ap (λ t. bit_or t 0x80000000) (shl-bit_or 8 kind id h)
      ∙ (bit_or-shl 31 (kind * 2 ^ 8 + id) 1 (omega arith) ∙ omega arith)

  -- The id of a command's frame is extended, and has the command above the controller's number.
  pub build-can_id :
      (id : ℕ) (c : Command Float) → id < 256 → (build id c).can_id ≡ 2 ^ 31 + code c * 256 + id
  unfolding word_frame vesc_set_duty_cycle_cmd_packet vesc_set_current_cmd_packet
      vesc_set_current_brake_cmd_packet vesc_set_position_cmd_packet vesc_set_servo_pos_cmd_packet
      vesc_set_rpm_cmd_packet
  build-can_id id (duty_cycle x) h = join_id 0 id (omega arith) h
  build-can_id id (current x) h = join_id 1 id (omega arith) h
  build-can_id id (brake x) h = join_id 2 id (omega arith) h
  build-can_id id (speed n) h = join_id 3 id (omega arith) h
  build-can_id id (position x) h = join_id 4 id (omega arith) h
  build-can_id id (servo x) h = join_id 8 id (omega arith) h
