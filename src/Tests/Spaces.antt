-- ===== src/Tests/Spaces.antt =====
-- Vectors of integers, on legs along the first axis.
use robosw.Base.{Bool, true, false, some, List, [], ◌∷◌, ◌≡◌, refl}
use robosw.Base.Int.{ℤ, pos, eqb_ℤ, ◌+ℤ◌}
use robosw.Tests.Planners.{exact_reals, exact-CostLaws}
use robosw.Sampling.RealVector.{
  VectorState, VectorSpace, Numerics, sample_gaussian, check_path, is_free, walk, direction,
  point_along, planar_distance,
}
use robosw.Sampling.RealVector.Bounds.{Within, sample_gaussian-Within}
use robosw.Sampling.RealVector.Legs.{LegFree, check_path-free}

abbrev on_axis : Numerics ℤ
on_axis = record {
  uniform_real = λ n i low high. low;
  gaussian = λ n i mean dev. mean +ℤ dev;
  sqrt = λ x. x;
  hypot = λ x y. x +ℤ y;
  normalize = λ ds. pos 1 ∷ pos 0 ∷ [];
}

abbrev square : VectorSpace ℤ
square = record {
  bounds = record { low = pos 0; high = pos 9 } ∷ record { low = pos 2; high = pos 4 } ∷ [];
  count = 7;
}

abbrev at_left : VectorState ℤ
at_left = record { id = 0; values = pos 1 ∷ pos 3 ∷ [] }

abbrev at_right : VectorState ℤ
at_right = record { id = 1; values = pos 5 ∷ pos 3 ∷ [] }

sample_gaussian-Within_example :
    Within exact_reals on_axis square.bounds
      (sample_gaussian exact_reals on_axis square at_left (pos 5)).0.values
    × ((sample_gaussian exact_reals on_axis square at_left (pos 5)).0.id ≡ 7)
    × ((sample_gaussian exact_reals on_axis square at_left (pos 5)).1.count ≡ 8)
sample_gaussian-Within_example =
    sample_gaussian-Within exact_reals on_axis exact-CostLaws square at_left (pos 5)
      (refl, (refl, tt)) refl

-- A polygon over the places with 3 as the first value.
abbrev wall : List ℤ → Bool
wall [] = false
wall (x ∷ xs) = eqb_ℤ x (pos 3)

check_path-free_example :
    (b : Bool) × (check_path exact_reals on_axis 4 (wall ∷ []) (pos 1) at_left at_right ≡ some b)
    × (b ≡ true → LegFree exact_reals on_axis (wall ∷ []) (pos 1) at_left at_right)
    × (LegFree exact_reals on_axis (wall ∷ []) (pos 1) at_left at_right → b ≡ true)
unfolding planar_distance direction
check_path-free_example =
    check_path-free exact_reals on_axis (wall ∷ []) (pos 1) at_left at_right 3 refl

-- Only the second point on the leg is inside the polygon.
wall_blocks : check_path exact_reals on_axis 4 (wall ∷ []) (pos 1) at_left at_right ≡ some false
unfolding check_path is_free walk direction point_along planar_distance
wall_blocks = refl
