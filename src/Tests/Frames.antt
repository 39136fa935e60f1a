-- ===== src/Tests/Frames.antt =====
-- The SBUS decoder, and the frames of the DDSM210.
use robosw.Base.{
  ℕ, ◌+◌, ◌<◌, ◌≡◌, ◌≢◌, ◌↔◌, refl, ◌==◌, false, true, List, [], ◌∷◌, ◌++◌, arith, length,
  replicate, if◌then◌else◌, get_or,
}
use robosw.Base.Int.{pos, negsuc}
use robosw.Sbus.{
  SbusDecodeBuffer, SbusMessage, wait_for_sof, wait_for_payload, decode_message, build_message,
  eight_channels,
}
use robosw.Sbus.Bounds
use robosw.Sbus.Bounds.{decode_message-IsValid}
use robosw.Sbus.Stream.{feed, feed-frame}
use robosw.Sbus.Channels.{AreChannels, digits, eleven_bytes, eight_channels-digits}
use robosw.Ddsm210.Checksum.{crc, crc_byte, crc_bits, crc_bit, crc_from, crc_from_detects}
use robosw.Ddsm210.Frame.{
  FrameType, SpeedFeedback, OdomFeedback, make, decode, no_feedback, send_value,
}
use robosw.Ddsm210.Frame.Decode.{
  IsKnown, with_crc, speed_payload, decode_accepts, decode-speed_payload,
}
use robosw.Ddsm210.Frame.Encode.{value, value-send_value}

abbrev decoder : SbusDecodeBuffer
decoder = record { decode_state = wait_for_sof; decode_data = replicate 25 0; indexer = 0 }

abbrev message : SbusMessage
message = record { channels = []; frame_loss = false; fault_protection = false }

abbrev payload : List ℕ
payload =
    1 ∷ 2 ∷ 3 ∷ 4 ∷ 5 ∷ 6 ∷ 7 ∷ 8 ∷ 9 ∷ 10 ∷ 11 ∷ 12 ∷ 13 ∷ 14 ∷ 15 ∷ 16 ∷ 17 ∷ 18 ∷ 19 ∷ 20 ∷ 21
    ∷ 22 ∷ 23 ∷ []

feed-frame_example :
    let frame = 0x0f ∷ payload ++ 0 ∷ [] in
    ((feed decoder message ((3 ∷ []) ++ frame)).0
      ≡ (if 0 == 0 then build_message frame ∷ [] else []))
    × ((feed decoder message ((3 ∷ []) ++ frame)).1.decode_state ≡ wait_for_sof)
feed-frame_example = feed-frame decoder message (3 ∷ []) payload 0 refl (omega arith, tt) refl

eight_channels-digits_example :
    AreChannels (eight_channels (0x0f ∷ payload) 1 [])
    × (digits 2048 (eight_channels (0x0f ∷ payload) 1 [])
        ≡ digits 256 (eleven_bytes (0x0f ∷ payload) 1))
eight_channels-digits_example = eight_channels-digits (0x0f ∷ payload) 1 (omega arith)

-- In the middle of a payload.
abbrev midway : SbusDecodeBuffer
midway = record { decode_state = wait_for_payload; decode_data = replicate 25 0; indexer = 22 }

decode_message-IsValid_example :
    Bounds.IsValid (decode_message midway 5 message).1
    × (midway.decode_state ≢ wait_for_sof → midway.indexer + 1 < length midway.decode_data)
decode_message-IsValid_example =
    decode_message-IsValid midway 5 message (record { room = refl; inside = omega arith })

abbrev changed : ℕ
changed = 3

crc_from_detects_example : changed ≡ changed
crc_from_detects_example =
    crc_from_detects (1 ∷ 0x64 ∷ []) (0 ∷ []) 0 changed changed (omega arith) (omega arith)
      (omega arith) (omega arith) (omega arith) refl

-- A frame that reports a mode, of the motor 1.
abbrev mode_bytes : List ℕ
mode_bytes = with_crc (1 ∷ 0x75 ∷ 2 ∷ 0 ∷ 0 ∷ 0 ∷ 0 ∷ 0 ∷ 0 ∷ [])

decode_accepts_example : ((decode [] 1 mode_bytes).valid ≡ true) ↔ (
    (get_or mode_bytes 9 0 ≡ crc mode_bytes)
    × (crc mode_bytes < 128)
    × (get_or mode_bytes 0 0 ≡ 1)
    × IsKnown (get_or mode_bytes 1 0))
unfolding crc crc_from crc_byte crc_bits crc_bit
decode_accepts_example = decode_accepts [] mode_bytes 1 (omega arith) (omega arith)

abbrev speeds : SpeedFeedback
speeds = record { rpm = negsuc 99; current = pos 12; ms_per_rpm = 3; temperature = pos 25 }

decode-speed_payload_example :
    decode [] 1 (with_crc (speed_payload 1 speeds)) ≡ record (make [] 1) {
      raw_feedback = record no_feedback { speed_feedback = speeds };
      type = FrameType.speed_feedback;
      valid = true;
    }
unfolding crc_from crc_byte crc_bits crc_bit
decode-speed_payload_example =
    decode-speed_payload [] 1 speeds
      (record {
        rpm_low = omega arith;
        rpm_high = omega arith;
        current_low = omega arith;
        current_high = omega arith;
        ms_byte = omega arith;
        temperature_low = omega arith;
        temperature_high = omega arith;
      })
      (omega arith)

abbrev odometer : OdomFeedback
odometer = record { encoder_count = negsuc 5; position = 701; error_code = 0 }

value-send_value_example : value (send_value (make [] 1) (negsuc 2099)) ≡ negsuc 2099
value-send_value_example = value-send_value (make [] 1) (negsuc 2099) (omega arith) (omega arith)
