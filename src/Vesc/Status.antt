-- ===== src/Vesc/Status.antt =====
-- src/driver/motor_vesc/src/vesc_status_packet.cpp: the status packets.
pub mod Decode
use robosw.Base.{ℕ, ◌+◌, List, get_or}
use robosw.Base.Int.{ℤ, pos, signed16, signed32}
use robosw.Base.Bytes.{word_of2, word_of4}
use robosw.Base.Float.{FloatOps}
use robosw.Vesc.Frame.{CanFrame}

abbrev pub to_int32 : ℕ → ℕ → ℕ → ℕ → ℤ
to_int32 byte0 byte1 byte2 byte3 = signed32 (word_of4 byte0 byte1 byte2 byte3)

pub record VescStatus1Packet (Float : Type 0) : Type 0 where
  pub rpm : Float
  pub current : Float
  pub duty : Float

pub record VescStatus2Packet (Float : Type 0) : Type 0 where
  pub amp_hours : Float
  pub amp_hours_charged : Float

pub record VescStatus3Packet (Float : Type 0) : Type 0 where
  pub watt_hours : Float
  pub watt_hours_charged : Float

pub record VescStatus4Packet (Float : Type 0) : Type 0 where
  pub temp_fet : Float
  pub temp_motor : Float
  pub current_in : Float
  pub pid_pos_now : Float

pub record VescStatus5Packet (Float : Type 0) : Type 0 where
  pub tacho_value : ℤ
  pub voltage_in : Float

module _ (ops : FloatOps) where
  open ops use {Float, of_int, div}

  -- `ToFloat` of two bytes and of four.
  abbrev pub to_float2 : ℕ → ℕ → Float
  to_float2 byte0 byte1 = of_int (signed16 (word_of2 byte0 byte1))

  abbrev pub to_float4 : ℕ → ℕ → ℕ → ℕ → Float
  to_float4 byte0 byte1 byte2 byte3 = of_int (signed32 (word_of4 byte0 byte1 byte2 byte3))

  -- Byte `i` of the frame.
  abbrev byte : CanFrame → ℕ → ℕ
  byte frame i = get_or frame.bytes i 0

  unfoldable pub vesc_status1_packet : CanFrame → VescStatus1Packet Float
  vesc_status1_packet f = record {
    rpm = of_int (to_int32 (byte f 0) (byte f 1) (byte f 2) (byte f 3));
    current = div (to_float2 (byte f 4) (byte f 5)) (of_int (pos 10));
    duty = div (of_int (pos (word_of2 (byte f 6) (byte f 7)))) (of_int (pos 1000));
  }

  unfoldable pub vesc_status2_packet : CanFrame → VescStatus2Packet Float
  vesc_status2_packet f = record {
    amp_hours = div (to_float4 (byte f 0) (byte f 1) (byte f 2) (byte f 3)) (of_int (pos 10000));
    amp_hours_charged =
        div (to_float4 (byte f 4) (byte f 5) (byte f 6) (byte f 7)) (of_int (pos 10000));
  }

  unfoldable pub vesc_status3_packet : CanFrame → VescStatus3Packet Float
  vesc_status3_packet f = record {
    watt_hours = div (to_float4 (byte f 0) (byte f 1) (byte f 2) (byte f 3)) (of_int (pos 10000));
    watt_hours_charged =
        div (to_float4 (byte f 4) (byte f 5) (byte f 6) (byte f 7)) (of_int (pos 10000));
  }

  unfoldable pub vesc_status4_packet : CanFrame → VescStatus4Packet Float
  vesc_status4_packet f = record {
    temp_fet = div (to_float2 (byte f 0) (byte f 1)) (of_int (pos 10));
    temp_motor = div (to_float2 (byte f 2) (byte f 3)) (of_int (pos 10));
    current_in = div (to_float2 (byte f 4) (byte f 5)) (of_int (pos 10));
    pid_pos_now = div (to_float2 (byte f 6) (byte f 7)) (of_int (pos 50));
  }

  unfoldable pub vesc_status5_packet : CanFrame → VescStatus5Packet Float
  vesc_status5_packet f = record {
    tacho_value = to_int32 (byte f 0) (byte f 1) (byte f 2) (byte f 3);
    voltage_in = div (to_float2 (byte f 4) (byte f 5)) (of_int (pos 10));
  }
