-- ===== src/Tests/Registers.antt =====
-- The AKELC controller on a bus with one device, whose registers are a function.
use robosw.Base.{ℕ, ◌≡◌, ◌==◌, refl, true, some, [], ◌∷◌, if◌then◌else◌}
use robosw.Base.Int.{pos, negsuc, ◌≤ℤ◌}
use robosw.Akelc.{Port, set_target_rpm, set_target_switching_freq, write_register, limit_rpm}
use robosw.Akelc.Registers.{motor, Limited, set_target_rpm-register}

abbrev Bank : Type 0
Bank = ℕ → ℕ

abbrev stored : Bank → ℕ → ℕ → Bank
stored bus register value r = if r == register then value else bus r

abbrev bank_port : Port Bank
bank_port = record {
  read_holding_registers = λ bus device register count. (some (bus register ∷ []), bus);
  write_single_register = λ bus device register value. (true, stored bus register value);
  write_multiple_registers = λ bus device register values. (true, bus);
}

abbrev blank : Bank
blank r = 0

set_target_rpm-register_example :
    (word : ℕ) × (set_target_rpm (motor bank_port 1) (negsuc 39999) blank
      ≡ bank_port.write_single_register blank 1 0x0040 word)
    × Limited (negsuc 39999) word
    × (negsuc 32766 ≤ℤ negsuc 39999
        → negsuc 39999 ≤ℤ pos 32767
        → set_target_switching_freq (motor bank_port 1) (negsuc 39999) blank
          ≡ set_target_rpm (motor bank_port 1) (negsuc 39999) blank)
set_target_rpm-register_example = set_target_rpm-register bank_port 1 blank (negsuc 39999)

-- A speed beyond the limit: the register holds -32767.
limited_speed : (set_target_rpm (motor bank_port 1) (negsuc 39999) blank).1 0x0040 ≡ 32769
unfolding set_target_rpm write_register limit_rpm
limited_speed = refl
