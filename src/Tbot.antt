-- ===== src/Tbot.antt =====
-- src/platform/tbot/src/messenger.cpp: `Messenger`, between the robot's board and the panels. A CAN port
-- is whether it is open and what was sent; a plot's buffer is the list of its points.
pub mod Wheels
use robosw.Base.{
  ℕ, ◌+◌, ◌==◌, Bool, true, false, Option, none, some, List, [], ◌∷◌, ◌++◌, bit_and, shr, get_or,
  drop, if◌then◌else◌,
}
use robosw.Base.Int.{ℤ, pos, word8, word32, signed32}
use robosw.Base.Bytes.{word_of4}
use robosw.Base.Float.{FloatOps}
use robosw.Vesc.Frame.{CanFrame}

abbrev pub tbot_sup_cmd_can_id : ℕ
tbot_sup_cmd_can_id = 0x100

abbrev pub tbot_pwm_cmd_can_id : ℕ
tbot_pwm_cmd_can_id = 0x101

abbrev pub tbot_rpm_cmd_can_id : ℕ
tbot_rpm_cmd_can_id = 0x102

abbrev pub tbot_motion_cmd_can_id : ℕ
tbot_motion_cmd_can_id = 0x103

abbrev pub tbot_supervised_state_can_id : ℕ
tbot_supervised_state_can_id = 0x200

abbrev pub tbot_encoder_raw_can_id : ℕ
tbot_encoder_raw_can_id = 0x211

abbrev pub tbot_encoder_filtered_can_id : ℕ
tbot_encoder_filtered_can_id = 0x212

abbrev pub tbot_target_rpm_can_id : ℕ
tbot_target_rpm_can_id = 0x213

pub record CanPort : Type 0 where
  pub opened : Bool
  pub sent : List CanFrame

-- The buffers of `rpm_buffers_`, each a list of (time, value).
pub record RpmBuffers (F : Type 0) : Type 0 where
  pub raw_left : List (F × F)
  pub raw_right : List (F × F)
  pub filtered_left : List (F × F)
  pub filtered_right : List (F × F)
  pub target_left : List (F × F)
  pub target_right : List (F × F)

pub record Messenger (F : Type 0) : Type 0 where
  pub can : Option CanPort
  pub supervised_mode : ℕ
  pub rpm_buffers : RpmBuffers F

-- `ToInt32` of four bytes of a frame.
unfoldable pub to_int32 : List ℕ → ℕ → ℤ
to_int32 bytes i = signed32 (
    word_of4 (get_or bytes i 0) (get_or bytes (i + 1) 0) (get_or bytes (i + 2) 0)
      (get_or bytes (i + 3) 0))

-- Four bytes of an `int32_t`, the highest first.
unfoldable pub four_bytes : ℤ → List ℕ → List ℕ
four_bytes v rest =
    shr (bit_and (word32 v) 0xff000000) 24
    ∷ shr (bit_and (word32 v) 0x00ff0000) 16
    ∷ shr (bit_and (word32 v) 0x0000ff00) 8
    ∷ bit_and (word32 v) 0x000000ff
    ∷ rest

-- `memory` is what the eight bytes of a new frame hold.
module _ (ops : FloatOps) (memory : List ℕ) where
  open ops use {Float, of_int, mul, div, trunc}

  abbrev pub Board : Type 0
  Board = Messenger Float

  unfoldable pub new_messenger : Board
  new_messenger = record {
    can = none;
    supervised_mode = 0;
    rpm_buffers = record {
      raw_left = [];
      raw_right = [];
      filtered_left = [];
      filtered_right = [];
      target_left = [];
      target_right = [];
    };
  }

  -- `Start`, given whether the new port opens.
  unfoldable pub start : Board → Bool → Bool × Board
  start m opens = (opens, record m { can = some (record { opened = opens; sent = [] }) })

  -- `Stop`; without a port a null pointer is used, which is `none`.
  unfoldable pub close_port : Board → Option CanPort → Option Board
  close_port m none = none
  close_port m (some p) = some (record m { can = some (record p { opened = false }) })

  unfoldable pub stop : Board → Option Board
  stop m = close_port m m.can

  unfoldable pub is_port_opened : Option CanPort → Bool
  is_port_opened none = false
  is_port_opened (some p) = p.opened

  unfoldable pub is_started : Board → Bool
  is_started m = is_port_opened m.can

  -- The points that a frame of two wheels adds, at the time `t`.
  unfoldable pub wheel_point : Float → List ℕ → ℕ → List (Float × Float)
  wheel_point t bytes i = (t, div (of_int (to_int32 bytes i)) (of_int (pos 1))) ∷ []

  unfoldable pub handle_can_frame : Float → Board → CanFrame → Board
  handle_can_frame t m f =
      let b = m.rpm_buffers in
      if f.can_id == tbot_supervised_state_can_id
      then record m { supervised_mode = get_or f.bytes 0 0 }
      else (if f.can_id == tbot_encoder_raw_can_id
          then record m {
            rpm_buffers = record b {
              raw_left = b.raw_left ++ wheel_point t f.bytes 0;
              raw_right = b.raw_right ++ wheel_point t f.bytes 4;
            };
          }
          else (if f.can_id == tbot_encoder_filtered_can_id
              then record m {
                rpm_buffers = record b {
                  filtered_left = b.filtered_left ++ wheel_point t f.bytes 0;
                  filtered_right = b.filtered_right ++ wheel_point t f.bytes 4;
                };
              }
              else (if f.can_id == tbot_target_rpm_can_id
                  then record m {
                    rpm_buffers = record b {
                      target_left = b.target_left ++ wheel_point t f.bytes 0;
                      target_right = b.target_right ++ wheel_point t f.bytes 4;
                    };
                  }
                  else m)))

  -- `if (can_ == nullptr) return; ... can_->SendFrame(frame);`
  unfoldable pub send_on : Option CanPort → CanFrame → Option CanPort
  send_on none f = none
  send_on (some p) f = some (record p { sent = p.sent ++ f ∷ [] })

  unfoldable pub send : Board → CanFrame → Board
  send m f = record m { can = send_on m.can f }

  unfoldable pub send_supervisor_command : Board → ℕ → Board
  send_supervisor_command m mode = send m (record {
    can_id = tbot_sup_cmd_can_id;
    can_dlc = 1;
    bytes = word8 (pos mode) ∷ drop 1 memory;
  })

  unfoldable pub send_pwm_command : Board → Float → Float → Board
  send_pwm_command m left right = send m (record {
    can_id = tbot_pwm_cmd_can_id;
    can_dlc = 2;
    bytes = word8 (trunc left) ∷ word8 (trunc right) ∷ drop 2 memory;
  })

  unfoldable pub rpm_frame : ℕ → ℤ → ℤ → CanFrame
  rpm_frame id left right = record {
    can_id = id;
    can_dlc = 8;
    bytes = four_bytes left (four_bytes right []);
  }

  unfoldable pub send_rpm_command : Board → ℤ → ℤ → Board
  send_rpm_command m left right = send m (rpm_frame tbot_rpm_cmd_can_id left right)

  unfoldable pub send_motion_command : Board → Float → Float → Board
  send_motion_command m linear angular = send m (
      rpm_frame tbot_motion_cmd_can_id (trunc (mul linear (of_int (pos 100))))
        (trunc (mul angular (of_int (pos 100)))))
