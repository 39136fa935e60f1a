-- ===== src/Akelc/Registers.antt =====
-- What the methods write to the registers of the controller.
use robosw.Base.{ℕ, ◌<◌, ◌^◌, ◌≡◌, refl, ap, sym, ◌∙◌, arith, some}
use robosw.Base.Int.{ℤ, pos, negsuc, word16, signed16, signed16-word16, ◌≤ℤ◌}
use robosw.Akelc.{
  Port, MotorAkelcModbus, write_register, set_target_rpm, set_target_switching_freq, limit_rpm,
}

limit_rpm-inside : (z : ℤ) → negsuc 32766 ≤ℤ z → z ≤ℤ pos 32767 → limit_rpm z ≡ z
unfolding limit_rpm
limit_rpm-inside (pos n) lo hi = ground arith
limit_rpm-inside (negsuc n) lo hi = ground arith

limit_rpm-below : (z : ℤ) → z ≤ℤ negsuc 32766 → limit_rpm z ≡ negsuc 32766
unfolding limit_rpm
limit_rpm-below (pos n) h = ground arith
limit_rpm-below (negsuc n) h = ground arith

limit_rpm-above : (z : ℤ) → pos 32767 ≤ℤ z → limit_rpm z ≡ pos 32767
unfolding limit_rpm
limit_rpm-above (pos n) h = ground arith
limit_rpm-above (negsuc n) h = ground arith

-- The word stands for the speed where it lies within -32767 to 32767, and else for the nearer limit.
abbrev pub Limited : ℤ → ℕ → Type 0
Limited rpm word =
    (word < 2 ^ 16)
    × (negsuc 32766 ≤ℤ rpm → rpm ≤ℤ pos 32767 → signed16 word ≡ rpm)
    × (rpm ≤ℤ negsuc 32766 → signed16 word ≡ negsuc 32766)
    × (pos 32767 ≤ℤ rpm → signed16 word ≡ pos 32767)

word16-below : (z : ℤ) → word16 z < 2 ^ 16
word16-below (pos n) = omega arith
word16-below (negsuc n) = omega arith

limit_rpm-Limited : (rpm : ℤ) → Limited rpm (word16 (limit_rpm rpm))
limit_rpm-Limited rpm = (
  word16-below (limit_rpm rpm),
  λ lo hi.
      ap (λ z. signed16 (word16 z)) (limit_rpm-inside rpm lo hi)
      ∙ signed16-word16 rpm (omega (arith, lo)) hi,
  λ h. ap (λ z. signed16 (word16 z)) (limit_rpm-below rpm h) ∙ ground arith,
  λ h. ap (λ z. signed16 (word16 z)) (limit_rpm-above rpm h) ∙ ground arith,
)

module _ {Bus : Type 0} (p : Port Bus) (device : ℕ) where
  abbrev pub motor : MotorAkelcModbus Bus
  motor = record { port = some p; device_id = device }

  -- On a port, `SetTargetRpm` is one write of the register 0x0040, of the speed limited to -32767 to 32767
  -- as a signed word, whose result it returns; for a value within these limits `SetTargetSwitchingFreq`
  -- is the same write, so that it sets the target speed.
  pub set_target_rpm-register :
      (bus : Bus) (rpm : ℤ)
      → (word : ℕ) × (set_target_rpm motor rpm bus ≡ p.write_single_register bus device 0x0040 word)
        × Limited rpm word
        × (negsuc 32766 ≤ℤ rpm
            → rpm ≤ℤ pos 32767
            → set_target_switching_freq motor rpm bus ≡ set_target_rpm motor rpm bus)
  unfolding set_target_rpm set_target_switching_freq write_register
  set_target_rpm-register bus rpm = (
    word16 (limit_rpm rpm),
    refl,
    limit_rpm-Limited rpm,
    λ lo hi.
        ap (λ z. p.write_single_register bus device 0x0040 (word16 z))
          (sym (limit_rpm-inside rpm lo hi)),
  )
