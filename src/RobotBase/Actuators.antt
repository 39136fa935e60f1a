-- ===== src/RobotBase/Actuators.antt =====
-- src/control/robot_base/src/speed_actuator_group.cpp and position_actuator_group.cpp: several actuators driven as
-- one. An actuator is anything with the methods of the interface; a division by 0 is `none`.
pub mod Average
use robosw.Base.{
  ℕ, zero, suc, ◌+◌, ◌-◌, ◌*◌, ◌/◌, ◌%◌, ◌^◌, ◌≤◌, ◌<◌, ◌≡◌, ◌&&◌, refl, ap, sym, ◌∙◌, arith, Bool,
  true, Option, none, some, List, [], ◌∷◌, map, length,
}
use robosw.Base.Int.{ℤ, pos, negsuc}
use robosw.Base.Float.{RealOps}
use robosw.Base.Loops.{and_then}

-- `SpeedActuatorInterface` and `PositionActuatorInterface` on a device `A`.
pub record SpeedActuator (A Real : Type 0) : Type 0 where
  pub set_speed : Real → A → A
  pub get_speed : A → Real
  pub apply_brake : Real → A → A
  pub release_brake : A → A
  pub is_normal : A → Bool

pub record PositionActuator (A Real : Type 0) : Type 0 where
  pub set_position : Real → A → A
  pub get_position : A → Real
  pub is_normal : A → Bool

-- `static_cast<uint64_t>`: the low 64 bits of an integer.
unfoldable pub word64 : ℤ → ℕ
word64 (pos n) = n % 2 ^ 64
word64 (negsuc n) = 2 ^ 64 - 1 - n % 2 ^ 64

-- `average / size()` of an `int64_t` and a `size_t`, which is a division of unsigned numbers.
unfoldable pub unsigned_average : ℤ → ℕ → Option ℕ
unsigned_average sum zero = none
unsigned_average sum (suc n) = some (word64 sum / suc n)

unfoldable pub all_normal : {A : Type 0} → (A → Bool) → List A → Bool
all_normal is_normal [] = true
all_normal is_normal (a ∷ rest) = is_normal a && all_normal is_normal rest

module _ (ops : RealOps) {A : Type 0} where
  -- `sum += value`, where the sum is an integer and the value a float.
  unfoldable pub sum_values : (A → ops.Real) → ℤ → List A → ℤ
  sum_values value sum [] = sum
  sum_values value sum (a ∷ rest) =
      sum_values value (ops.trunc (ops.add (ops.of_int sum) (value a))) rest

  module _ (d : SpeedActuator A ops.Real) where
    unfoldable pub set_speed : List A → ops.Real → List A
    set_speed group rpm = map (d.set_speed rpm) group

    unfoldable pub get_speed : List A → Option ops.Real
    get_speed group =
        and_then (unsigned_average (sum_values d.get_speed (pos 0) group) (length group))
          (λ n. some (ops.of_int (pos n)))

    unfoldable pub apply_brake : List A → ops.Real → List A
    apply_brake group brake = map (d.apply_brake brake) group

    unfoldable pub release_brake : List A → List A
    release_brake group = map d.release_brake group

    unfoldable pub is_normal : List A → Bool
    is_normal group = all_normal d.is_normal group

  module _ (d : PositionActuator A ops.Real) where
    unfoldable pub set_position : List A → ops.Real → List A
    set_position group position = map (d.set_position position) group

    unfoldable pub get_position : List A → Option ops.Real
    get_position group =
        and_then (unsigned_average (sum_values d.get_position (pos 0) group) (length group))
          (λ n. some (ops.of_int (pos n)))

    unfoldable pub are_positions_normal : List A → Bool
    are_positions_normal group = all_normal d.is_normal group
