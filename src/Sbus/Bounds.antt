-- ===== src/Sbus/Bounds.antt =====
-- The decoder never writes outside its frame buffer.
use robosw.Base.{ℕ, ◌+◌, ◌<◌, ◌≡◌, refl, arith, length, length-set, ◌≢◌}
use robosw.Sbus.{
  SbusDecodeBuffer, SbusMessage, DecodeState, wait_for_sof, wait_for_payload, wait_for_eof, on_sof,
  on_payload, on_eof, decode_in, decode_message, decoder_init,
}

-- The buffer's length, and where the next byte goes.
abbrev pub Inside : DecodeState → ℕ → Type 0
Inside wait_for_sof i = Unit {0}
Inside wait_for_payload i = i + 1 < 24
Inside wait_for_eof i = i ≡ 23

pub record IsValid (b : SbusDecodeBuffer) : Type 0 where
  pub room : length b.decode_data ≡ 25
  pub inside : Inside b.decode_state b.indexer

-- A new decoder is valid whatever its memory held.
pub decoder_init-IsValid :
    (b : SbusDecodeBuffer) → length b.decode_data ≡ 25 → IsValid (decoder_init b)
unfolding decoder_init
decoder_init-IsValid b h = record { room = h; inside = tt }

decode_in-IsValid :
    (s : DecodeState) (b : SbusDecodeBuffer) (ch : ℕ) (msg : SbusMessage)
    → length b.decode_data ≡ 25
    → b.decode_state ≡ s
    → Inside s b.indexer
    → IsValid (decode_in s b ch msg).1
unfolding decode_in on_sof on_payload on_eof
decode_in-IsValid wait_for_sof b ch msg h e v = ground arith
decode_in-IsValid wait_for_payload b ch msg h e v =
    let room = length-set b.decode_data (b.indexer + 1) ch in rw e (ground arith)
decode_in-IsValid wait_for_eof b ch msg h e v =
    let room = length-set b.decode_data (b.indexer + 1) ch in ground arith

-- Every byte keeps the decoder valid, and where the step stores it is in the buffer.
pub decode_message-IsValid :
    (b : SbusDecodeBuffer) (ch : ℕ) (msg : SbusMessage)
    → IsValid b
    → IsValid (decode_message b ch msg).1
      × (b.decode_state ≢ wait_for_sof → b.indexer + 1 < length b.decode_data)
unfolding decode_message
decode_message-IsValid b ch msg v =
    (decode_in-IsValid b.decode_state b ch msg v.room refl v.inside, λ h. ground arith)
