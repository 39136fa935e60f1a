-- ===== src/Sbus.antt =====
-- src/driver/input_sbus/include/input_sbus/sbus_decoder.hpp and src/sbus_decoder.cpp: `SbusDecoder`, a
-- decoder of 25 byte frames that is fed one byte at a time.
pub mod Bounds
pub mod Stream
pub mod Channels
pub mod Validate
use robosw.Base.{
  ℕ, suc, ◌+◌, ◌-◌, ◌≡◌, Bool, true, false, List, [], ◌∷◌, bit_and, bit_or, shl, shr, ◌==◌, not,
  if◌then◌else◌, get_or, set, replicate, ◌||◌, ltb,
}

pub data DecodeState : Type 0 where
  wait_for_sof wait_for_payload wait_for_eof : DecodeState

pub record SbusMessage : Type 0 where
  pub channels : List ℕ
  pub frame_loss : Bool
  pub fault_protection : Bool

-- `SbusDecodeBuffer`. `decode_data` is its member `data`.
pub record SbusDecodeBuffer : Type 0 where
  pub decode_state : DecodeState
  pub decode_data : List ℕ
  pub indexer : ℕ

abbrev pub frame_length : ℕ
frame_length = 25

abbrev pub frame_head : ℕ
frame_head = 0x0f

abbrev pub frame_tail : ℕ
frame_tail = 0x00

-- `SbusDecoderInit` sets the state alone; the rest is what the memory held.
unfoldable pub decoder_init : SbusDecodeBuffer → SbusDecodeBuffer
decoder_init b = record b { decode_state = wait_for_sof }

-- `(a >> s | (b << t)) & 0x07FF`, and the same with a third byte.
abbrev pub channel2 : ℕ → ℕ → ℕ → ℕ → ℕ
channel2 a s b t = bit_and (bit_or (shr a s) (shl b t)) 0x07FF

abbrev pub channel3 : ℕ → ℕ → ℕ → ℕ → ℕ → ℕ → ℕ
channel3 a s b t c u = bit_and (bit_or (bit_or (shr a s) (shl b t)) (shl c u)) 0x07FF

-- The eight channels in the eleven bytes from place `i` on, which the code writes out twice.
unfoldable pub eight_channels : List ℕ → ℕ → List ℕ → List ℕ
eight_channels f i rest =
    channel2 (get_or f i 0) 0 (get_or f (i + 1) 0) 8
    ∷ channel2 (get_or f (i + 1) 0) 3 (get_or f (i + 2) 0) 5
    ∷ channel3 (get_or f (i + 2) 0) 6 (get_or f (i + 3) 0) 2 (get_or f (i + 4) 0) 10
    ∷ channel2 (get_or f (i + 4) 0) 1 (get_or f (i + 5) 0) 7
    ∷ channel2 (get_or f (i + 5) 0) 4 (get_or f (i + 6) 0) 4
    ∷ channel3 (get_or f (i + 6) 0) 7 (get_or f (i + 7) 0) 1 (get_or f (i + 8) 0) 9
    ∷ channel2 (get_or f (i + 8) 0) 2 (get_or f (i + 9) 0) 6
    ∷ channel2 (get_or f (i + 9) 0) 5 (get_or f (i + 10) 0) 3
    ∷ rest

-- `SbusBuildMessage`
unfoldable pub build_message : List ℕ → SbusMessage
unfolding eight_channels
build_message f = record {
  channels =
      eight_channels f 1
        (eight_channels f 12 (bit_and (get_or f 23 0) 0x80 ∷ bit_and (get_or f 23 0) 0x40 ∷ []));
  frame_loss = not (bit_and (get_or f 23 0) 0x20 == 0);
  fault_protection = not (bit_and (get_or f 23 0) 0x10 == 0);
}

-- One step of the decoder: whether a frame is complete, the buffer, and `*sbus_msg`.
abbrev pub Outcome : Type 0
Outcome = Bool × SbusDecodeBuffer × SbusMessage

unfoldable pub on_sof : SbusDecodeBuffer → ℕ → SbusMessage → Outcome
on_sof b ch msg =
    let cleared = record b { indexer = 0; decode_data = replicate frame_length 0 } in
    if ch == frame_head
    then (
      false,
      record cleared {
        decode_state = wait_for_payload;
        decode_data = set cleared.decode_data cleared.indexer ch;
      },
      msg,
    )
    else (false, cleared, msg)

unfoldable pub on_payload : SbusDecodeBuffer → ℕ → SbusMessage → Outcome
on_payload b ch msg =
    let i = b.indexer + 1 in
    let stored = record b { indexer = i; decode_data = set b.decode_data i ch } in
    if i == frame_length - 2
    then (false, record stored { decode_state = wait_for_eof }, msg)
    else (false, stored, msg)

unfoldable pub on_eof : SbusDecodeBuffer → ℕ → SbusMessage → Outcome
on_eof b ch msg =
    let i = b.indexer + 1 in
    let d = set b.decode_data i ch in
    if ch == frame_tail
    then (
      true,
      record { decode_state = wait_for_sof; decode_data = d; indexer = i },
      build_message d,
    )
    else (false, record b { decode_state = wait_for_sof }, msg)

-- `SbusDecodeMessage`
unfoldable pub decode_in : DecodeState → SbusDecodeBuffer → ℕ → SbusMessage → Outcome
decode_in wait_for_sof = on_sof
decode_in wait_for_payload = on_payload
decode_in wait_for_eof = on_eof

unfoldable pub decode_message : SbusDecodeBuffer → ℕ → SbusMessage → Outcome
decode_message b ch msg = decode_in b.decode_state b ch msg

-- The loop of `ValidateSbusMessage` over the channels that it visits; the result is whether it ends.
unfoldable pub count_zeros : ℕ → List ℕ → Bool
count_zeros zero_num [] = true
count_zeros zero_num (c ∷ cs) =
    let z = if c == 0 then zero_num + 1 else zero_num in
    let rest = count_zeros z cs in if ltb 4 z then false else rest

unfoldable pub validate_message : SbusMessage → Bool
validate_message msg =
    if msg.fault_protection || msg.frame_loss
    then false
    else count_zeros 0 (
        get_or msg.channels 0 0
        ∷ get_or msg.channels 1 0
        ∷ get_or msg.channels 2 0
        ∷ get_or msg.channels 3 0
        ∷ get_or msg.channels 4 0
        ∷ get_or msg.channels 5 0
        ∷ get_or msg.channels 6 0
        ∷ get_or msg.channels 7 0
        ∷ [])
