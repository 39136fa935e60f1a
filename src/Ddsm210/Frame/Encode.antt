-- ===== src/Ddsm210/Frame/Encode.antt =====
-- The frames that the setters of `Ddsm210Frame` build.
use robosw.Base.{
  ℕ, ◌+◌, ◌-◌, ◌*◌, ◌/◌, ◌%◌, ◌^◌, ◌<◌, ◌≡◌, refl, ap, ap₂, ◌∙◌, true, false, [], ◌∷◌, arith,
  length, get_or, bit_and-mask,
}
use robosw.Base.Int.{ℤ, pos, negsuc, signed16, word16, word32, ◌≤ℤ◌, ltb_ℤ}
use robosw.Base.Int.{word8-signed8, signed16-word16}
use robosw.Base.Bytes.{AreBytes, word_of2, word_of2-sum, byte_of}
use robosw.Base.Float.{FloatOps}
use robosw.Ddsm210.Checksum.{crc, crc_from-lt, calculate_checksum}
use robosw.Ddsm210.Frame.{
  Ddsm210Frame, Mode, mode_code, fill, send_value, clamp, high_byte, low_byte,
}
use robosw.Ddsm210.Frame.{set_speed, set_position, apply_brake, release_brake, set_id, set_mode}
use robosw.Ddsm210.Frame.{request_odom, request_mode, max_rpm, min_rpm}

-- A finished frame: ten bytes, the last of which is the checksum of the others.
pub record IsSealed (f : Ddsm210Frame) : Type 0 where
  pub marked : f.valid ≡ true
  pub ten : length f.frame_buffer ≡ 10
  pub sum : get_or f.frame_buffer 9 0 ≡ crc f.frame_buffer

fill-IsSealed :
    (f : Ddsm210Frame) (b0 b1 b2 b3 b4 b5 b6 b7 b8 : ℕ)
    → AreBytes (b0 ∷ b1 ∷ b2 ∷ b3 ∷ b4 ∷ b5 ∷ b6 ∷ b7 ∷ b8 ∷ [])
    → IsSealed (fill f (b0 ∷ b1 ∷ b2 ∷ b3 ∷ b4 ∷ b5 ∷ b6 ∷ b7 ∷ b8 ∷ []))
unfolding fill calculate_checksum crc
fill-IsSealed f b0 b1 b2 b3 b4 b5 b6 b7 b8 h = record {
  marked = refl;
  ten = refl;
  sum =
      word8-signed8 _
        (crc_from-lt (b0 ∷ b1 ∷ b2 ∷ b3 ∷ b4 ∷ b5 ∷ b6 ∷ b7 ∷ b8 ∷ []) 0 (omega arith) h);
}

word32-lt : (v : ℤ) → word32 v < 2 ^ 32
word32-lt (pos n) = omega arith
word32-lt (negsuc n) = omega arith

high_byte-eq : (v : ℤ) → high_byte v ≡ word32 v / 256 % 256
high_byte-eq v = byte_of 8 (word32 v)

low_byte-eq : (v : ℤ) → low_byte v ≡ word32 v % 256
low_byte-eq v = bit_and-mask 8 (word32 v)

send_value-IsSealed : (f : Ddsm210Frame) (v : ℤ) → f.motor_id < 256 → IsSealed (send_value f v)
unfolding send_value
send_value-IsSealed f v h =
    fill-IsSealed f f.motor_id 0x64 (high_byte v) (low_byte v) 0 0 0 0 0
      (omega (arith, high_byte-eq v, low_byte-eq v))

mode_code-lt : (m : Mode) → mode_code m < 256
unfolding mode_code
mode_code-lt Mode.open_loop = omega arith
mode_code-lt Mode.speed = omega arith
mode_code-lt Mode.position = omega arith
mode_code-lt Mode.unknown = omega arith

-- The signed word that a speed or position frame carries.
abbrev pub value : Ddsm210Frame → ℤ
value f = signed16 (word_of2 (get_or f.frame_buffer 2 0) (get_or f.frame_buffer 3 0))

word16-word32 : (v : ℤ) → word32 v / 256 % 256 * 256 + word32 v % 256 ≡ word16 v
word16-word32 (pos n) = omega arith
word16-word32 (negsuc n) = omega arith

-- A value of an `int16_t` is read back from the frame as it is.
pub value-send_value :
    (f : Ddsm210Frame) (v : ℤ)
    → negsuc (2 ^ 15 - 1) ≤ℤ v
    → v ≤ℤ pos (2 ^ 15 - 1)
    → value (send_value f v) ≡ v
unfolding send_value fill
value-send_value f v lo hi = ap signed16 word ∙ signed16-word16 v lo hi
  where
    word : word_of2 (high_byte v) (low_byte v) ≡ word16 v
    word =
        ap₂ word_of2 (high_byte-eq v) (low_byte-eq v)
        ∙ (word_of2-sum (word32 v / 256 % 256) (word32 v % 256) (omega arith) ∙ word16-word32 v)

-- The setters as one command, with what each is given.
pub data Command (Float : Type 0) : Type 0 where
  speed position : Float → Command Float
  brake release odom mode_request : Command Float
  id : ℕ → Command Float
  mode : Mode → Command Float

module _ (ops : FloatOps) where
  open ops use {Float, lt, of_int, mul, trunc}

  abbrev pub build : Ddsm210Frame → Command Float → Ddsm210Frame
  build f (speed x) = set_speed ops f x
  build f (position x) = set_position ops f x
  build f brake = apply_brake f
  build f release = release_brake f
  build f odom = request_odom f
  build f mode_request = request_mode f
  build f (id n) = set_id f n
  build f (mode m) = set_mode f m

  -- The id that a command carries is a byte.
  abbrev pub Fits : Command Float → Type 0
  Fits (id n) = n < 256
  Fits _ = Unit {0}

  -- Every setter leaves a frame of ten bytes that ends in its checksum, and marks it valid.
  pub build-IsSealed :
      (f : Ddsm210Frame) (c : Command Float) → f.motor_id < 256 → Fits c → IsSealed (build f c)
  unfolding set_speed set_position apply_brake release_brake set_id set_mode request_odom
      request_mode mode_code
  build-IsSealed f (speed x) h k = send_value-IsSealed f _ h
  build-IsSealed f (position x) h k = send_value-IsSealed f _ h
  build-IsSealed f brake h k = fill-IsSealed f f.motor_id _ _ _ _ _ _ _ _ (omega arith)
  build-IsSealed f release h k = fill-IsSealed f f.motor_id _ _ _ _ _ _ _ _ (omega arith)
  build-IsSealed f odom h k = fill-IsSealed f f.motor_id _ _ _ _ _ _ _ _ (omega arith)
  build-IsSealed f mode_request h k = fill-IsSealed f f.motor_id _ _ _ _ _ _ _ _ (omega arith)
  build-IsSealed f (id n) h k = fill-IsSealed f _ _ _ n _ _ _ _ n (omega arith)
  build-IsSealed f (mode m) h k =
      fill-IsSealed f f.motor_id _ (mode_code m) _ _ _ _ _ _ (omega (arith, mode_code-lt m))

  -- Between the limits a tenth of a turn per minute fits the frame, and comparison and product are
  -- exact enough to stay there; the parameter's numbers are those that can be compared (no NaN).
  pub record SpeedLaws : Type 0 where
    pub limits :
        (a b : ℤ)
        → min_rpm ≤ℤ a
        → a ≤ℤ max_rpm
        → min_rpm ≤ℤ b
        → b ≤ℤ max_rpm
        → lt (of_int a) (of_int b) ≡ ltb_ℤ a b
    pub tenths :
        (x : Float)
        → lt (of_int max_rpm) x ≡ false
        → lt x (of_int min_rpm) ≡ false
        → (negsuc 2099 ≤ℤ trunc (mul x (of_int (pos 10))))
          × (trunc (mul x (of_int (pos 10))) ≤ℤ pos 2100)

  clamp-limits :
      SpeedLaws
      → (x : Float)
      → (lt (of_int max_rpm) (clamp ops x min_rpm max_rpm) ≡ false)
        × (lt (clamp ops x min_rpm max_rpm) (of_int min_rpm) ≡ false)
  unfolding clamp
  clamp-limits laws x = ground (
    arith,
    laws.limits max_rpm max_rpm (omega arith) (omega arith) (omega arith) (omega arith),
    laws.limits max_rpm min_rpm (omega arith) (omega arith) (omega arith) (omega arith),
    laws.limits min_rpm min_rpm (omega arith) (omega arith) (omega arith) (omega arith),
    laws.limits min_rpm max_rpm (omega arith) (omega arith) (omega arith) (omega arith),
  )

  -- Under these laws, whatever speed is asked for, the frame carries the number of tenths of the clamped speed as a
  -- signed word, between -2100 and 2100.
  pub set_speed-value :
      (f : Ddsm210Frame) (rpm : Float)
      → SpeedLaws
      → (value (set_speed ops f rpm)
          ≡ trunc (mul (clamp ops rpm min_rpm max_rpm) (of_int (pos 10))))
        × (negsuc 2099 ≤ℤ value (set_speed ops f rpm))
        × (value (set_speed ops f rpm) ≤ℤ pos 2100)
  unfolding set_speed
  set_speed-value f rpm laws =
      let limits = clamp-limits laws rpm in
      let range = laws.tenths (clamp ops rpm min_rpm max_rpm) limits.0 limits.1 in
      let same = value-send_value f _ (omega (arith, range)) (omega (arith, range)) in
      (same, rw same range.0, rw same range.1)
