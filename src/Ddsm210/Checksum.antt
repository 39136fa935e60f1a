-- ===== src/Ddsm210/Checksum.antt =====
-- src/driver/motor_waveshare/src/ddsm_210_frame.cpp, `CalculateChecksum`: CRC-8 of all bytes of a frame
-- but the last.
use robosw.Base.{
  ℕ, zero, suc, ◌+◌, ◌-◌, ◌*◌, ◌<◌, ◌≡◌, refl, ap, sym, ◌∙◌, true, List, [], ◌∷◌, ◌++◌, arith,
  bit_and, bit_xor, bit_xor-cancel, bit_xor-lt, bit_xor_comm, shr, ltb, ◌==◌, ◌&&◌, if◌then◌else◌,
  length, take,
}
use robosw.Base.Int.{ℤ, signed8}
use robosw.Base.Bytes.{AreBytes, all_below, every_below}

-- The body of the inner loop.
unfoldable pub crc_bit : ℕ → ℕ
crc_bit crc = if bit_and crc 0x01 == 0 then shr crc 1 else bit_xor (shr crc 1) 0x8c

unfoldable pub crc_bits : ℕ → ℕ → ℕ
crc_bits zero crc = crc
crc_bits (suc j) crc = crc_bits j (crc_bit crc)

-- One round of the outer loop.
unfoldable pub crc_byte : ℕ → ℕ → ℕ
crc_byte crc b = crc_bits 8 (bit_xor crc b)

-- The outer loop, over the bytes that it visits.
unfoldable pub crc_from : ℕ → List ℕ → ℕ
crc_from crc [] = crc
crc_from crc (b ∷ bs) = crc_from (crc_byte crc b) bs

-- The loop's value; the function returns it as an `int8_t`.
unfoldable pub crc : List ℕ → ℕ
crc frame_buffer = crc_from 0x00 (take (length frame_buffer - 1) frame_buffer)

unfoldable pub calculate_checksum : List ℕ → ℤ
calculate_checksum frame_buffer = signed8 (crc frame_buffer)

-- The top bit of the new value tells which branch was taken, so that it can be undone.
undo_bit : ℕ → ℕ
undo_bit c = if ltb c 128 then 2 * c else 2 * bit_xor c 0x8c + 1

undo_table : all_below 256 (λ c. (undo_bit (crc_bit c) == c) && ltb (crc_bit c) 256) ≡ true
unfolding all_below undo_bit crc_bit
undo_table = refl

undo-crc_bit : (c : ℕ) → c < 256 → (undo_bit (crc_bit c) ≡ c) × (crc_bit c < 256)
undo-crc_bit c h = ground (arith, every_below 256 _ c undo_table h)

crc_bits-lt : (j c : ℕ) → c < 256 → crc_bits j c < 256
unfolding crc_bits
crc_bits-lt zero c h = h
crc_bits-lt (suc j) c h = crc_bits-lt j (crc_bit c) (undo-crc_bit c h).1

crc_bits-injective : (j a b : ℕ) → a < 256 → b < 256 → crc_bits j a ≡ crc_bits j b → a ≡ b
unfolding crc_bits
crc_bits-injective zero a b ha hb e = e
crc_bits-injective (suc j) a b ha hb e =
    let ia = undo-crc_bit a ha in
    let ib = undo-crc_bit b hb in
    sym ia.0 ∙ (ap undo_bit (crc_bits-injective j (crc_bit a) (crc_bit b) ia.1 ib.1 e) ∙ ib.0)

xor_injective : (a b c : ℕ) → bit_xor a b ≡ bit_xor a c → b ≡ c
xor_injective a b c e =
    sym (bit_xor-cancel a a b (omega arith))
    ∙ (ap (bit_xor a) e ∙ bit_xor-cancel a a c (omega arith))

crc_byte-lt : (c b : ℕ) → c < 256 → b < 256 → crc_byte c b < 256
unfolding crc_byte
crc_byte-lt c b hc hb = crc_bits-lt 8 (bit_xor c b) (bit_xor-lt 8 c b hc hb)

pub crc_from-lt : (bs : List ℕ) (c : ℕ) → c < 256 → AreBytes bs → crc_from c bs < 256
unfolding crc_from
crc_from-lt [] c hc h = hc
crc_from-lt (b ∷ bs) c hc h = crc_from-lt bs (crc_byte c b) (crc_byte-lt c b hc h.0) h.1

-- The rest of a frame carries a difference of the value through to the end.
crc_from-injective :
    (bs : List ℕ) (c d : ℕ)
    → c < 256
    → d < 256
    → AreBytes bs
    → crc_from c bs ≡ crc_from d bs
    → c ≡ d
unfolding crc_from crc_byte
crc_from-injective [] c d hc hd h e = e
crc_from-injective (b ∷ bs) c d hc hd h e =
    let same : crc_byte c b ≡ crc_byte d b =
      crc_from-injective bs (crc_byte c b) (crc_byte d b) (crc_byte-lt c b hc h.0)
        (crc_byte-lt d b hd h.0) h.1 e in
    let xors : bit_xor c b ≡ bit_xor d b =
      crc_bits-injective 8 (bit_xor c b) (bit_xor d b) (bit_xor-lt 8 c b hc h.0)
        (bit_xor-lt 8 d b hd h.0) same in
    xor_injective b c d (bit_xor_comm b c ∙ (xors ∙ bit_xor_comm d b))

crc_byte-injective : (c a b : ℕ) → c < 256 → a < 256 → b < 256 → crc_byte c a ≡ crc_byte c b → a ≡ b
unfolding crc_byte
crc_byte-injective c a b hc ha hb e = xor_injective c a b (
    crc_bits-injective 8 (bit_xor c a) (bit_xor c b) (bit_xor-lt 8 c a hc ha)
      (bit_xor-lt 8 c b hc hb) e)

-- Frames that differ in one byte alone have different checksums.
pub crc_from_detects :
    (before after : List ℕ) (c a b : ℕ)
    → c < 256
    → a < 256
    → b < 256
    → AreBytes before
    → AreBytes after
    → crc_from c (before ++ a ∷ after) ≡ crc_from c (before ++ b ∷ after)
    → a ≡ b
unfolding crc_from
crc_from_detects [] after c a b hc ha hb hs ht e = crc_byte-injective c a b hc ha hb (
    crc_from-injective after (crc_byte c a) (crc_byte c b) (crc_byte-lt c a hc ha)
      (crc_byte-lt c b hc hb) ht e)
crc_from_detects (x ∷ before) after c a b hc ha hb hs ht e =
    crc_from_detects before after (crc_byte c x) a b (crc_byte-lt c x hc hs.0) ha hb hs.1 ht e
