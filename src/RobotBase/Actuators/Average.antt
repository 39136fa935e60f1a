-- ===== src/RobotBase/Actuators/Average.antt =====
-- The average that a group reports.
use native.Mathlib.Nat.{le-div_iff_mul-le, div-mul-le_self}
use robosw.Base.{ℕ, ◌-◌, ◌/◌, ◌%◌, ◌^◌, ◌≤◌, ◌<◌, ◌≡◌, refl, ap, arith, some, List, ◌∷◌, length}
use robosw.Base.Int.{pos, negsuc}
use robosw.Base.Float.{RealOps}
use robosw.RobotBase.Actuators.{SpeedActuator, word64, unsigned_average, sum_values, get_speed}

div_mono : (k : ℕ) {x y : ℕ} → 0 < k → x ≤ y → x / k ≤ y / k
div_mono k {x = x} {y = y} p h = (le-div_iff_mul-le p).1 (omega (arith, div-mul-le_self x k))

module _ (ops : RealOps) {A : Type 0} (d : SpeedActuator A ops.Real) (a : A) (rest : List A) where
  abbrev pub group : List A
  group = a ∷ rest

  -- Speeds that add up to a number that is not negative are averaged.
  pub get_speed-average :
      (n : ℕ)
      → n < 2 ^ 63
      → sum_values ops d.get_speed (pos 0) group ≡ pos n
      → get_speed ops d group ≡ some (ops.of_int (pos (n / length group)))
  unfolding get_speed unsigned_average word64
  get_speed-average n h e = rw e (ap (λ k. some (ops.of_int (pos (k / length group)))) (small n h))
    where
      small : (n : ℕ) → n < 2 ^ 63 → n % 2 ^ 64 ≡ n
      small n h = omega arith

  -- Speeds that add up to the negative number -(n + 1) are not: the sum is taken for an unsigned number, so
  -- that the average reported is at least 2 ^ 63 over the number of actuators.
  pub get_speed-negative :
      (n : ℕ)
      → n < 2 ^ 63
      → sum_values ops d.get_speed (pos 0) group ≡ negsuc n
      → (m : ℕ) × (get_speed ops d group ≡ some (ops.of_int (pos m))) × (2 ^ 63 / length group ≤ m)
  unfolding get_speed unsigned_average word64
  get_speed-negative n h e = (
    (2 ^ 64 - 1 - n % 2 ^ 64) / length group,
    rw e refl,
    div_mono (length group) (omega arith) (large n h),
  )
    where
      large : (n : ℕ) → n < 2 ^ 63 → 2 ^ 63 ≤ 2 ^ 64 - 1 - n % 2 ^ 64
      large n h = omega arith
