-- ===== src/Base/Float.antt =====
-- What the program uses of `float` and `double`: a parameter, since there are no floats here.
use mathlib.Core.Bool.{Bool}
use robosw.Base.Int.{ℤ}

pub record FloatOps : Type 1 where
  pub Float : Type 0
  pub lt : Float → Float → Bool
  pub of_int : ℤ → Float
  pub mul : Float → Float → Float
  pub div : Float → Float → Float
  -- The conversion to an integer, which drops the fraction.
  pub trunc : Float → ℤ

-- `double`, beside the `float` of `ops`.
pub record DoubleOps (ops : FloatOps) : Type 1 where
  pub Double : Type 0
  pub widen : ops.Float → Double
  pub narrow : Double → ops.Float
  pub of_int : ℤ → Double
  pub trunc : Double → ℤ

-- The arithmetic on `double` that the planners use.
pub record RealOps : Type 1 where
  pub Real : Type 0
  pub of_int : ℤ → Real
  pub add : Real → Real → Real
  pub sub : Real → Real → Real
  pub mul : Real → Real → Real
  pub div : Real → Real → Real
  pub lt : Real → Real → Bool
  pub leb : Real → Real → Bool
  pub eqb : Real → Real → Bool
  -- The conversion to an integer, which drops the fraction.
  pub trunc : Real → ℤ
