-- ===== src/Ddsm210/Driver.antt =====
-- src/driver/motor_waveshare/include/motor_waveshare/ddsm_210.hpp and src/ddsm_210.cpp: `Ddsm210`. The
-- serial port is the list of the frames that were sent and whether it is open; what arrives while a
-- method sleeps is an argument of that method.
pub mod Parse
pub mod Settings
use robosw.Base.{
  ℕ, zero, suc, ◌+◌, ◌-◌, ◌≡◌, Bool, true, false, List, [], ◌∷◌, ◌++◌, ◌==◌, ◌&&◌, leb,
  if◌then◌else◌, length, replicate,
}
use robosw.Base.Int.{ℤ}
use robosw.Base.Float.{FloatOps}
use robosw.RingBuffer.{RingBuffer, get_occupied_size, write_all, read_from, peek_from}
use robosw.Ddsm210.Frame
use robosw.Ddsm210.Frame.{Ddsm210Frame, FrameType, RawFeedback, Mode, make, decode, mode_code}

pub record Ddsm210 : Type 0 where
  pub motor_id : ℕ
  pub opened : Bool
  pub sent : List (List ℕ)
  pub rx_buffer : RingBuffer ℕ
  pub raw_feedback : RawFeedback
  pub id_set_ack_received : Bool

-- `serial_->SendBytes(buffer.data(), buffer.size())` of a frame's `ToBuffer()`.
unfoldable pub send : Ddsm210 → Ddsm210Frame → Ddsm210
send m f = record m { sent = m.sent ++ f.frame_buffer ∷ [] }

-- The switch of `ProcessFeedback`, on a valid frame.
unfoldable pub absorb : Ddsm210Frame → RawFeedback × Bool → RawFeedback × Bool
absorb f (raw, ack) = elim f.type [
  | FrameType.unknown ↦ (raw, ack)
  | FrameType.command ↦ (raw, ack)
  | FrameType.speed_feedback ↦ (record raw { speed_feedback = f.raw_feedback.speed_feedback }, true)
  | FrameType.odom_feedback ↦ (record raw { odom_feedback = f.raw_feedback.odom_feedback }, ack)
  | FrameType.mode_request_feedback ↦
      (record raw { mode_request = f.raw_feedback.mode_request }, ack)
  | FrameType.mode_switch_feedback ↦ (record raw { mode_switch = f.raw_feedback.mode_switch }, ack)
]

-- `std::vector<uint8_t> frame(10)` after `rx_buffer_.Peek(frame, 10)`.
unfoldable pub peek_frame : RingBuffer ℕ → List ℕ
peek_frame r = let got = peek_from (λ _. r) 0 10 0 in got ++ replicate (10 - length got) 0

-- `memory` is what a new frame's own buffer happens to hold.
module _ (memory : List ℕ) where
  -- The body of the loop of `ProcessFeedback`.
  unfoldable pub decode_one : Ddsm210 → Ddsm210
  decode_one m =
      let f = decode memory m.motor_id (peek_frame m.rx_buffer) in
      let fb = absorb f (m.raw_feedback, m.id_set_ack_received) in
      if f.valid
      then record m {
        raw_feedback = fb.0;
        id_set_ack_received = fb.1;
        rx_buffer = (read_from m.rx_buffer 10 0).1;
      }
      else record m { rx_buffer = (read_from m.rx_buffer 1 0).1 }

  -- The loop, with fuel.
  unfoldable pub drain : ℕ → Ddsm210 → Ddsm210
  drain zero m = m
  drain (suc fuel) m =
      let rest = drain fuel (decode_one m) in
      if leb 10 (get_occupied_size m.rx_buffer) then rest else m

  -- `ProcessFeedback(data, bufsize, len)` on the `len` bytes of `data`.
  unfoldable pub process_feedback : ℕ → List ℕ → Ddsm210 → Ddsm210
  process_feedback fuel bytes m =
      drain fuel (record m { rx_buffer = (write_all m.rx_buffer bytes).1 })

  -- A new frame object for this motor.
  abbrev pub fresh : Ddsm210 → Ddsm210Frame
  fresh m = make memory m.motor_id

  unfoldable pub request_odometry_feedback : Ddsm210 → Ddsm210
  request_odometry_feedback m = send m (Frame.request_odom (fresh m))

  unfoldable pub request_mode_feedback : Ddsm210 → Ddsm210
  request_mode_feedback m = send m (Frame.request_mode (fresh m))

  unfoldable pub apply_brake : Ddsm210 → Ddsm210
  apply_brake m = send m (Frame.apply_brake (fresh m))

  unfoldable pub release_brake : Ddsm210 → Ddsm210
  release_brake m = send m (Frame.release_brake (fresh m))

  unfoldable pub set_speed : (ops : FloatOps) → Ddsm210 → ops.Float → Ddsm210
  set_speed ops m rpm = send m (Frame.set_speed ops (fresh m) rpm)

  unfoldable pub set_position : (ops : FloatOps) → Ddsm210 → ops.Float → Ddsm210
  set_position ops m x = send m (Frame.set_position ops (fresh m) x)

  -- The value of `GetMode`, as the number of the enumerator.
  unfoldable pub get_mode : Ddsm210 → ℕ
  get_mode m = m.raw_feedback.mode_request

  unfoldable pub is_normal : Ddsm210 → Bool
  is_normal m = m.opened && m.raw_feedback.odom_feedback.error_code == 0x00

  -- The waiting loop of `SetMode`: one request, then what arrives during the sleep.
  unfoldable pub await_mode : ℕ → List (List ℕ) → Mode → Ddsm210 → Bool × Ddsm210
  await_mode fuel [] mode m = (true, m)
  await_mode fuel (bytes ∷ arrivals) mode m =
      let m' = process_feedback fuel bytes (request_mode_feedback m) in
      let rest = await_mode fuel arrivals mode m' in
      if get_mode m' == mode_code mode then (true, m') else rest

  -- `SetMode(mode, timeout_ms)`, given what arrives in each of its ten sleeps.
  unfoldable pub set_mode : ℕ → List (List ℕ) → Ddsm210 → Mode → Bool × Ddsm210
  set_mode fuel arrivals m mode = elim mode [
    | Mode.unknown ↦ (false, m)
    | other ↦ await_mode fuel arrivals other (send m (Frame.set_mode (fresh m) other))
  ]

  -- The five rounds that send the id.
  unfoldable pub send_id : ℕ → List (List ℕ) → ℕ → Ddsm210 → Ddsm210
  send_id fuel [] id m = m
  send_id fuel (bytes ∷ arrivals) id m =
      send_id fuel arrivals id (process_feedback fuel bytes (send m (Frame.set_id (fresh m) id)))

  -- The waiting loop for the acknowledgement.
  unfoldable pub await_ack : ℕ → List (List ℕ) → Ddsm210 → Bool × Ddsm210
  await_ack fuel [] m = (false, m)
  await_ack fuel (bytes ∷ arrivals) m =
      let rest = await_ack fuel arrivals (process_feedback fuel bytes m) in
      if m.id_set_ack_received then (true, m) else rest

  -- `SetMotorId(id, timeout_ms)`, given what arrives in its five and in its ten sleeps.
  unfoldable pub set_motor_id : ℕ → List (List ℕ) → List (List ℕ) → Ddsm210 → ℕ → Bool × Ddsm210
  set_motor_id fuel first second m id =
      if id == 0xaa
      then (false, m)
      else await_ack fuel second
          (send_id fuel first id (record m { id_set_ack_received = false; motor_id = id }))
