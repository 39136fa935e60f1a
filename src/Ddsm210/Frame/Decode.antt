-- ===== src/Ddsm210/Frame/Decode.antt =====
-- Which received frames `Ddsm210Frame` accepts, and what it reads from them.
use robosw.Base.{
  ℕ, ◌-◌, ◌/◌, ◌%◌, ◌^◌, ◌<◌, ◌≡◌, ◌⊎◌, ◌↔◌, refl, ap, ◌∙◌, true, List, [], ◌∷◌, ◌++◌, take, arith,
  get_or, ==_iff, length-append, take-append,
}
use robosw.Base.Int.{
  ℤ, pos, negsuc, signed8, signed16, signed32, word8, word16, word32, ◌≤ℤ◌, eqb_ℤ,
}
use robosw.Base.Int.{signed16-word16, signed32-word32}
use robosw.Base.Bytes.{word_of2, word_of4, word_of2-sum, word_of4-sum}
use robosw.Ddsm210.Checksum.{crc, crc_from, calculate_checksum}
use robosw.Ddsm210.Frame.{
  FrameType, SpeedFeedback, OdomFeedback, no_feedback, make, decode, dispatch,
}
use robosw.Ddsm210.Frame.{decode_speed, decode_odom}

-- The frame types that the switch knows.
abbrev pub IsKnown : ℕ → Type 0
IsKnown t = (t ≡ 0x64) ⊎ (t ≡ 0x74) ⊎ (t ≡ 0x75) ⊎ (t ≡ 0xa0)

-- A frame is accepted exactly when its checksum is right and below 128, it carries the id of the
-- motor, and its type is known: a right checksum of 128 or more is refused.
pub decode_accepts :
    (memory b : List ℕ) (id : ℕ)
    → get_or b 9 0 < 256
    → crc b < 256
    → ((decode memory id b).valid ≡ true)
      ↔ ((get_or b 9 0 ≡ crc b) × (crc b < 128) × (get_or b 0 0 ≡ id) × IsKnown (get_or b 1 0))
unfolding decode dispatch make calculate_checksum
decode_accepts memory b id h9 hc = (λ h. ground arith, λ h. ground arith)

-- A payload of nine bytes with its checksum behind it.
abbrev pub with_crc : List ℕ → List ℕ
with_crc payload = payload ++ crc_from 0 payload ∷ []

-- The frames that a motor sends, big end first.
abbrev pub speed_payload : ℕ → SpeedFeedback → List ℕ
speed_payload id s =
    id
    ∷ 0x64
    ∷ word16 s.rpm / 256
    ∷ word16 s.rpm % 256
    ∷ word16 s.current / 256
    ∷ word16 s.current % 256
    ∷ s.ms_per_rpm
    ∷ word8 s.temperature
    ∷ 0
    ∷ []

abbrev pub odom_payload : ℕ → OdomFeedback → List ℕ
odom_payload id o =
    id
    ∷ 0x74
    ∷ word32 o.encoder_count / 2 ^ 24
    ∷ word32 o.encoder_count / 2 ^ 16 % 256
    ∷ word32 o.encoder_count / 2 ^ 8 % 256
    ∷ word32 o.encoder_count % 256
    ∷ o.position / 256
    ∷ o.position % 256
    ∷ o.error_code
    ∷ []

-- The values are those of the fields' types.
pub record SpeedFits (s : SpeedFeedback) : Type 0 where
  pub rpm_low : negsuc (2 ^ 15 - 1) ≤ℤ s.rpm
  pub rpm_high : s.rpm ≤ℤ pos (2 ^ 15 - 1)
  pub current_low : negsuc (2 ^ 15 - 1) ≤ℤ s.current
  pub current_high : s.current ≤ℤ pos (2 ^ 15 - 1)
  pub ms_byte : s.ms_per_rpm < 256
  pub temperature_low : negsuc (2 ^ 7 - 1) ≤ℤ s.temperature
  pub temperature_high : s.temperature ≤ℤ pos (2 ^ 7 - 1)

pub record OdomFits (o : OdomFeedback) : Type 0 where
  pub count_low : negsuc (2 ^ 31 - 1) ≤ℤ o.encoder_count
  pub count_high : o.encoder_count ≤ℤ pos (2 ^ 31 - 1)
  pub position_word : o.position < 2 ^ 16
  pub error_byte : o.error_code < 256

word16-lt : (z : ℤ) → word16 z < 2 ^ 16
word16-lt (pos n) = omega arith
word16-lt (negsuc n) = omega arith

word32-lt : (z : ℤ) → word32 z < 2 ^ 32
word32-lt (pos n) = omega arith
word32-lt (negsuc n) = omega arith

join_pair : (n : ℕ) → n < 2 ^ 16 → word_of2 (n / 256) (n % 256) ≡ n
join_pair n h = word_of2-sum (n / 256) (n % 256) (omega arith) ∙ omega arith

join16 : (z : ℤ) → word_of2 (word16 z / 256) (word16 z % 256) ≡ word16 z
join16 z = join_pair (word16 z) (word16-lt z)

join32 :
    (z : ℤ)
    → word_of4
        (word32 z / 2 ^ 24)
        (word32 z / 2 ^ 16 % 256)
        (word32 z / 2 ^ 8 % 256)
        (word32 z % 256)
      ≡ word32 z
join32 z =
    word_of4-sum (word32 z / 2 ^ 24) (word32 z / 2 ^ 16 % 256) (word32 z / 2 ^ 8 % 256)
      (word32 z % 256) (omega arith) (omega arith) (omega arith)
    ∙ omega (arith, word32-lt z)

signed8-word8 : (z : ℤ) → negsuc (2 ^ 7 - 1) ≤ℤ z → z ≤ℤ pos (2 ^ 7 - 1) → signed8 (word8 z) ≡ z
signed8-word8 (pos n) lo hi = ground arith
signed8-word8 (negsuc n) lo hi = ground arith

-- What the switch reads from a speed frame is what the motor put in.
decode_speed-payload :
    (id : ℕ) (s : SpeedFeedback) → SpeedFits s → decode_speed (with_crc (speed_payload id s)) ≡ s
unfolding decode_speed
decode_speed-payload id s f = λ i. record {
  rpm = (ap signed16 (join16 s.rpm) ∙ signed16-word16 s.rpm f.rpm_low f.rpm_high) i;
  current =
      (ap signed16 (join16 s.current) ∙ signed16-word16 s.current f.current_low f.current_high) i;
  ms_per_rpm = s.ms_per_rpm;
  temperature = signed8-word8 s.temperature f.temperature_low f.temperature_high i;
}

decode_odom-payload :
    (id : ℕ) (o : OdomFeedback) → OdomFits o → decode_odom (with_crc (odom_payload id o)) ≡ o
unfolding decode_odom
decode_odom-payload id o f = λ i. record {
  encoder_count =
      (ap signed32 (join32 o.encoder_count)
          ∙ signed32-word32 o.encoder_count f.count_low f.count_high)
        i;
  position = join_pair o.position f.position_word i;
  error_code = o.error_code;
}

-- The checksum that the constructor computes for such a frame.
crc-with_crc : (payload : List ℕ) → crc (with_crc payload) ≡ crc_from 0 payload
unfolding crc
crc-with_crc payload =
    ap (λ n. crc_from 0 (take n (with_crc payload)))
      (omega (arith, length-append payload (crc_from 0 payload ∷ [])))
    ∙ ap (crc_from 0) (take-append payload (crc_from 0 payload ∷ []))

-- The test on the checksum, for a frame whose last byte is the right one.
checksum_test :
    (payload : List ℕ)
    → crc_from 0 payload < 128
    → eqb_ℤ (calculate_checksum (with_crc payload)) (pos (crc_from 0 payload)) ≡ true
unfolding calculate_checksum
checksum_test payload h = rw (crc-with_crc payload) (ground arith)

-- A speed frame of the motor, of any values in range, is decoded to these values, if its checksum
-- is below 128.
pub decode-speed_payload :
    (memory : List ℕ) (id : ℕ) (s : SpeedFeedback)
    → SpeedFits s
    → crc_from 0 (speed_payload id s) < 128
    → decode memory id (with_crc (speed_payload id s)) ≡ record (make memory id) {
      valid = true;
      type = FrameType.speed_feedback;
      raw_feedback = record no_feedback { speed_feedback = s };
    }
unfolding decode dispatch make
decode-speed_payload memory id s f h =
    rw (checksum_test (speed_payload id s) h, (==_iff id id).1 refl)
      (ap
        (λ v. record (make memory id) {
          valid = true;
          type = FrameType.speed_feedback;
          raw_feedback = record no_feedback { speed_feedback = v };
        })
        (decode_speed-payload id s f))

-- An odometry frame of the motor, of any values in range, is decoded to these values, if its
-- checksum is below 128.
pub decode-odom_payload :
    (memory : List ℕ) (id : ℕ) (o : OdomFeedback)
    → OdomFits o
    → crc_from 0 (odom_payload id o) < 128
    → decode memory id (with_crc (odom_payload id o)) ≡ record (make memory id) {
      valid = true;
      type = FrameType.odom_feedback;
      raw_feedback = record no_feedback { odom_feedback = o };
    }
unfolding decode dispatch make
decode-odom_payload memory id o f h =
    rw (checksum_test (odom_payload id o) h, (==_iff id id).1 refl)
      (ap
        (λ v. record (make memory id) {
          valid = true;
          type = FrameType.odom_feedback;
          raw_feedback = record no_feedback { odom_feedback = v };
        })
        (decode_odom-payload id o f))
