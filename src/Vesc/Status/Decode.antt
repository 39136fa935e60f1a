-- ===== src/Vesc/Status/Decode.antt =====
-- What the status packets read from the bytes that a controller sends: words of two or four bytes,
-- the highest first, as the comments of vesc_status_packet.cpp lay them out.
use robosw.Base.{ℕ, ◌-◌, ◌/◌, ◌%◌, ◌^◌, ◌≡◌, ap, ◌∙◌, List, [], ◌∷◌, ◌++◌, arith}
use robosw.Base.Int.{
  ℤ, pos, negsuc, word16, word32, signed16, signed32, signed16-word16, signed32-word32, ◌≤ℤ◌,
}
use robosw.Base.Bytes.{word_of2, word_of2-sum, word_of4-sum}
use robosw.Base.Float.{FloatOps}
use robosw.Vesc.Frame.{CanFrame}
use robosw.Vesc.Status.{
  to_int32, vesc_status1_packet, vesc_status2_packet, vesc_status3_packet, vesc_status4_packet,
  vesc_status5_packet,
}

abbrev pub bytes2 : ℤ → List ℕ
bytes2 v = word16 v / 2 ^ 8 ∷ word16 v % 256 ∷ []

abbrev pub bytes4 : ℤ → List ℕ
bytes4 v =
    word32 v / 2 ^ 24 ∷ word32 v / 2 ^ 16 % 256 ∷ word32 v / 2 ^ 8 % 256 ∷ word32 v % 256 ∷ []

-- The values of an `int16_t` and of an `int32_t`.
abbrev pub IsInt16 : ℤ → Type 0
IsInt16 v = (negsuc (2 ^ 15 - 1) ≤ℤ v) × (v ≤ℤ pos (2 ^ 15 - 1))

abbrev pub IsInt32 : ℤ → Type 0
IsInt32 v = (negsuc (2 ^ 31 - 1) ≤ℤ v) × (v ≤ℤ pos (2 ^ 31 - 1))

join2 : (v : ℤ) → word_of2 (word16 v / 2 ^ 8) (word16 v % 256) ≡ word16 v
join2 v = word_of2-sum (word16 v / 2 ^ 8) (word16 v % 256) (omega arith) ∙ omega arith

signed2 : (v : ℤ) → IsInt16 v → signed16 (word_of2 (word16 v / 2 ^ 8) (word16 v % 256)) ≡ v
signed2 v h = ap signed16 (join2 v) ∙ signed16-word16 v h.0 h.1

signed4 :
    (v : ℤ)
    → IsInt32 v
    → to_int32
        (word32 v / 2 ^ 24)
        (word32 v / 2 ^ 16 % 256)
        (word32 v / 2 ^ 8 % 256)
        (word32 v % 256)
      ≡ v
signed4 v h =
    ap signed32 (
      word_of4-sum (word32 v / 2 ^ 24) (word32 v / 2 ^ 16 % 256) (word32 v / 2 ^ 8 % 256)
        (word32 v % 256) (omega arith) (omega arith) (omega arith)
      ∙ omega arith)
    ∙ signed32-word32 v h.0 h.1

module _ (ops : FloatOps) (id : ℕ) where
  open ops use {Float, of_int, div}

  abbrev pub frame_of : List ℕ → CanFrame
  frame_of bytes = record { can_id = id; can_dlc = 8; bytes = bytes }

  -- A speed and a current are read as they were sent; the duty cycle is read as a number without a
  -- sign: -1 is read as 65535.
  pub vesc_status1_packet-frame_of :
      (rpm current duty : ℤ)
      → IsInt32 rpm
      → IsInt16 current
      → vesc_status1_packet ops (frame_of (bytes4 rpm ++ bytes2 current ++ bytes2 duty)) ≡ record {
        rpm = of_int rpm;
        current = div (of_int current) (of_int (pos 10));
        duty = div (of_int (pos (word16 duty))) (of_int (pos 1000));
      }
  unfolding vesc_status1_packet
  vesc_status1_packet-frame_of rpm current duty h k = λ i. record {
    rpm = of_int (signed4 rpm h i);
    current = div (of_int (signed2 current k i)) (of_int (pos 10));
    duty = div (of_int (pos (join2 duty i))) (of_int (pos 1000));
  }

  -- The two charges, and in the same way the two energies, are read as they were sent.
  pub vesc_status2_packet-frame_of :
      (a b : ℤ)
      → IsInt32 a
      → IsInt32 b
      → let f = frame_of (bytes4 a ++ bytes4 b) in
        let x = div (of_int a) (of_int (pos 10000)) in
        let y = div (of_int b) (of_int (pos 10000)) in
        (vesc_status2_packet ops f ≡ record { amp_hours = x; amp_hours_charged = y })
        × (vesc_status3_packet ops f ≡ record { watt_hours = x; watt_hours_charged = y })
  unfolding vesc_status2_packet vesc_status3_packet
  vesc_status2_packet-frame_of a b h k =
      let x : of_int _ ≡ of_int a = ap of_int (signed4 a h) in
      let y : of_int _ ≡ of_int b = ap of_int (signed4 b k) in
      (
        λ i. record {
          amp_hours = div (x i) (of_int (pos 10000));
          amp_hours_charged = div (y i) (of_int (pos 10000));
        },
        λ i. record {
          watt_hours = div (x i) (of_int (pos 10000));
          watt_hours_charged = div (y i) (of_int (pos 10000));
        },
      )

  -- Temperatures, input current and position are read as they were sent.
  pub vesc_status4_packet-frame_of :
      (fet motor current pid : ℤ)
      → IsInt16 fet
      → IsInt16 motor
      → IsInt16 current
      → IsInt16 pid
      → vesc_status4_packet ops
          (frame_of (bytes2 fet ++ bytes2 motor ++ bytes2 current ++ bytes2 pid))
        ≡ record {
          temp_fet = div (of_int fet) (of_int (pos 10));
          temp_motor = div (of_int motor) (of_int (pos 10));
          current_in = div (of_int current) (of_int (pos 10));
          pid_pos_now = div (of_int pid) (of_int (pos 50));
        }
  unfolding vesc_status4_packet
  vesc_status4_packet-frame_of fet motor current pid h0 h1 h2 h3 = λ i. record {
    temp_fet = div (of_int (signed2 fet h0 i)) (of_int (pos 10));
    temp_motor = div (of_int (signed2 motor h1 i)) (of_int (pos 10));
    current_in = div (of_int (signed2 current h2 i)) (of_int (pos 10));
    pid_pos_now = div (of_int (signed2 pid h3 i)) (of_int (pos 50));
  }

  -- The tachometer and the input voltage are read as they were sent.
  pub vesc_status5_packet-frame_of :
      (tacho voltage : ℤ) (rest : List ℕ)
      → IsInt32 tacho
      → IsInt16 voltage
      → vesc_status5_packet ops (frame_of (bytes4 tacho ++ bytes2 voltage ++ rest))
        ≡ record { tacho_value = tacho; voltage_in = div (of_int voltage) (of_int (pos 10)) }
  unfolding vesc_status5_packet
  vesc_status5_packet-frame_of tacho voltage rest h k = λ i. record {
    tacho_value = signed4 tacho h i;
    voltage_in = div (of_int (signed2 voltage k i)) (of_int (pos 10));
  }
