-- ===== src/Ddsm210/Frame.antt =====
-- src/driver/motor_waveshare/include/motor_waveshare/details/ddsm_210_frame.hpp and
-- src/ddsm_210_frame.cpp: `Ddsm210Frame`. A `float` is that of the parameter `FloatOps`.
pub mod Decode
pub mod Encode
use robosw.Base.{
  ℕ, suc, ◌+◌, ◌-◌, ◌≡◌, Bool, true, false, List, [], ◌∷◌, ◌++◌, bit_and, shl, shr, ◌==◌, not,
  if◌then◌else◌, get_or, set, ◌||◌,
}
use robosw.Base.Int.{ℤ, pos, negsuc, signed8, signed16, signed32, word8, word32, eqb_ℤ}
use robosw.Base.Bytes.{word_of2, word_of4}
use robosw.Base.Float.{FloatOps}
use robosw.Ddsm210.Checksum.{calculate_checksum}

pub data Mode : Type 0 where
  open_loop speed position unknown : Mode

-- The values of the enumerators of `Mode`.
unfoldable pub mode_code : Mode → ℕ
mode_code open_loop = 0
mode_code speed = 0x02
mode_code position = 0x03
mode_code unknown = 0xff

pub data FrameType : Type 0 where
  unknown command speed_feedback odom_feedback mode_request_feedback mode_switch_feedback :
      FrameType

pub record SpeedFeedback : Type 0 where
  pub rpm : ℤ
  pub current : ℤ
  pub ms_per_rpm : ℕ
  pub temperature : ℤ

pub record OdomFeedback : Type 0 where
  pub encoder_count : ℤ
  pub position : ℕ
  pub error_code : ℕ

pub record RawFeedback : Type 0 where
  pub speed_feedback : SpeedFeedback
  pub odom_feedback : OdomFeedback
  pub mode_request : ℕ
  pub mode_switch : ℕ

-- The default member initialisers.
abbrev pub no_feedback : RawFeedback
no_feedback = record {
  speed_feedback = record { rpm = pos 0; current = pos 0; ms_per_rpm = 0; temperature = pos 0 };
  odom_feedback = record { encoder_count = pos 0; position = 0; error_code = 0 };
  mode_request = 0;
  mode_switch = 0;
}

pub record Ddsm210Frame : Type 0 where
  pub valid : Bool
  pub type : FrameType
  pub motor_id : ℕ
  pub frame_buffer : List ℕ
  pub raw_feedback : RawFeedback

-- `Ddsm210Frame(id)`; nothing initialises `frame_buffer_`, so its content is an argument.
unfoldable pub make : List ℕ → ℕ → Ddsm210Frame
make memory id = record {
  valid = false;
  type = FrameType.command;
  motor_id = id;
  frame_buffer = memory;
  raw_feedback = no_feedback;
}

unfoldable pub decode_speed : List ℕ → SpeedFeedback
decode_speed b = record {
  rpm = signed16 (word_of2 (get_or b 2 0) (get_or b 3 0));
  current = signed16 (word_of2 (get_or b 4 0) (get_or b 5 0));
  ms_per_rpm = get_or b 6 0;
  temperature = signed8 (get_or b 7 0);
}

unfoldable pub decode_odom : List ℕ → OdomFeedback
decode_odom b = record {
  encoder_count = signed32 (word_of4 (get_or b 2 0) (get_or b 3 0) (get_or b 4 0) (get_or b 5 0));
  position = word_of2 (get_or b 6 0) (get_or b 7 0);
  error_code = get_or b 8 0;
}

-- The switch on `frame_buffer[1]`, on an object that is not valid yet.
unfoldable pub dispatch : Ddsm210Frame → List ℕ → Ddsm210Frame
dispatch f b =
    if get_or b 1 0 == 0x64
    then record f {
      raw_feedback = record no_feedback { speed_feedback = decode_speed b };
      type = FrameType.speed_feedback;
      valid = true;
    }
    else if get_or b 1 0 == 0x74
    then record f {
      raw_feedback = record no_feedback { odom_feedback = decode_odom b };
      type = FrameType.odom_feedback;
      valid = true;
    }
    else if get_or b 1 0 == 0x75
    then record f {
      raw_feedback = record no_feedback { mode_request = get_or b 2 0 };
      type = FrameType.mode_request_feedback;
      valid = true;
    }
    else if get_or b 1 0 == 0xa0
    then record f {
      raw_feedback = record no_feedback { mode_switch = get_or b 2 0 };
      type = FrameType.mode_switch_feedback;
      valid = true;
    }
    else f

-- `Ddsm210Frame(id, frame_buffer)`. The checksum is an `int8_t` and the byte a `uint8_t`: `!=`
-- compares the integers that they stand for.
unfoldable pub decode : List ℕ → ℕ → List ℕ → Ddsm210Frame
decode memory id b =
    if not (eqb_ℤ (calculate_checksum b) (pos (get_or b 9 0)))
    then make memory id
    else if not (get_or b 0 0 == id)
    then make memory id
    else dispatch (make memory id) b

-- The end of every setter: nine bytes are stored, then the checksum goes into the tenth.
unfoldable pub fill : Ddsm210Frame → List ℕ → Ddsm210Frame
fill f bytes =
    let b = bytes ++ get_or f.frame_buffer 9 0 ∷ [] in
    record f { frame_buffer = set b 9 (word8 (calculate_checksum b)); valid = true }

-- `(v & 0xff00) >> 8` and `v & 0x00ff` of an `int16_t`, which is promoted to `int` first.
abbrev pub high_byte : ℤ → ℕ
high_byte v = shr (bit_and (word32 v) 0xff00) 8

abbrev pub low_byte : ℤ → ℕ
low_byte v = bit_and (word32 v) 0x00ff

-- The frame that carries a 16 bit value.
unfoldable pub send_value : Ddsm210Frame → ℤ → Ddsm210Frame
send_value f v = fill f (f.motor_id ∷ 0x64 ∷ high_byte v ∷ low_byte v ∷ 0 ∷ 0 ∷ 0 ∷ 0 ∷ 0 ∷ [])

abbrev pub max_rpm : ℤ
max_rpm = pos 210

abbrev pub min_rpm : ℤ
min_rpm = negsuc 209

module _ (ops : FloatOps) where
  open ops use {Float, lt, of_int, mul, div, trunc}

  -- `if (x > max) x = max; if (x < min) x = min;`
  unfoldable pub clamp : Float → ℤ → ℤ → Float
  clamp x min max =
      let y = if lt (of_int max) x then of_int max else x in
      if lt y (of_int min) then of_int min else y

  unfoldable pub set_speed : Ddsm210Frame → Float → Ddsm210Frame
  unfolding clamp
  set_speed f rpm = send_value f (trunc (mul (clamp rpm min_rpm max_rpm) (of_int (pos 10))))

  unfoldable pub set_position : Ddsm210Frame → Float → Ddsm210Frame
  unfolding clamp
  set_position f x =
      send_value f
        (trunc (mul (div (clamp x (pos 0) (pos 360)) (of_int (pos 360))) (of_int (pos 32767))))

unfoldable pub apply_brake : Ddsm210Frame → Ddsm210Frame
apply_brake f = fill f (f.motor_id ∷ 0x64 ∷ 0 ∷ 0 ∷ 0 ∷ 0 ∷ 0 ∷ 0xff ∷ 0 ∷ [])

unfoldable pub release_brake : Ddsm210Frame → Ddsm210Frame
release_brake f = fill f (f.motor_id ∷ 0x64 ∷ 0 ∷ 0 ∷ 0 ∷ 0 ∷ 0 ∷ 0 ∷ 0 ∷ [])

-- The assertion `id < 0xaa` is the caller's.
unfoldable pub set_id : Ddsm210Frame → ℕ → Ddsm210Frame
set_id f id = fill f (0xaa ∷ 0x55 ∷ 0x53 ∷ id ∷ 0 ∷ 0 ∷ 0 ∷ 0 ∷ id ∷ [])

unfoldable pub set_mode : Ddsm210Frame → Mode → Ddsm210Frame
set_mode f mode = fill f (f.motor_id ∷ 0xa0 ∷ mode_code mode ∷ 0 ∷ 0 ∷ 0 ∷ 0 ∷ 0 ∷ 0 ∷ [])

unfoldable pub request_odom : Ddsm210Frame → Ddsm210Frame
request_odom f = fill f (f.motor_id ∷ 0x74 ∷ 0 ∷ 0 ∷ 0 ∷ 0 ∷ 0 ∷ 0 ∷ 0 ∷ [])

unfoldable pub request_mode : Ddsm210Frame → Ddsm210Frame
request_mode f = fill f (f.motor_id ∷ 0x75 ∷ 0 ∷ 0 ∷ 0 ∷ 0 ∷ 0 ∷ 0 ∷ 0 ∷ [])
