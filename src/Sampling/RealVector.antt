-- ===== src/Sampling/RealVector.antt =====
-- src/planning/sampling/include/sampling/space/realvector_space.hpp, steer/rv_straight_steer.hpp and
-- validity/rv_polygon_validity_checker.hpp: vectors of numbers. The random numbers, <cmath>, Eigen and
-- the polygons are parameters. `all_states_`, which only keeps the states alive, is left out. A violated assertion, or a write past `values_`, is `none`.
pub mod Bounds
pub mod Legs
use robosw.Base.{
  ℕ, zero, suc, ◌+◌, ◌==◌, Bool, true, false, not, ◌&&◌, ◌||◌, Option, none, some, List, [], ◌∷◌,
  length, if◌then◌else◌,
}
use robosw.Base.Int.{pos}
use robosw.Base.Float.{RealOps}
use robosw.Base.Loops.{and_then}

-- `RealVectorState<N>`, with its `id_`.
pub record VectorState (R : Type 0) : Type 0 where
  pub id : ℕ
  pub values : List R

pub record Bound (R : Type 0) : Type 0 where
  pub low : R
  pub high : R

-- The space, with the static count of the states made.
pub record VectorSpace (R : Type 0) : Type 0 where
  pub bounds : List (Bound R)
  pub count : ℕ

-- `UniformReal(low, high)` and `Gaussian(mean, dev)` at the i-th value of the n-th state, `std::sqrt`,
-- `std::hypot`, and `normalize()` of Eigen.
pub record Numerics (R : Type 0) : Type 0 where
  pub uniform_real : (n i : ℕ) → R → R → R
  pub gaussian : (n i : ℕ) → R → R → R
  pub sqrt : R → R
  pub hypot : R → R → R
  pub normalize : List R → List R

module _ (ops : RealOps) (numerics : Numerics ops.Real) where
  open ops use {Real, of_int, add, sub, mul, lt}

  -- `SetBound`, whose constructor asserts that the bounds are in order.
  unfoldable pub new_bound : Real → Real → Option (Bound Real)
  new_bound low high = if lt low high then some (record { low = low; high = high }) else none

  unfoldable pub set_at : List (Bound Real) → ℕ → Bound Real → Option (List (Bound Real))
  set_at [] dim b = none
  set_at (a ∷ rest) zero b = some (b ∷ rest)
  set_at (a ∷ rest) (suc dim) b = and_then (set_at rest dim b) (λ bs. some (a ∷ bs))

  unfoldable pub set_bound : VectorSpace Real → ℕ → Real → Real → Option (VectorSpace Real)
  set_bound s dim low high =
      and_then (new_bound low high)
        (λ b. and_then (set_at s.bounds dim b) (λ bs. some (record s { bounds = bs })))

  -- `CreateState`: the elements fill `values_[N]`.
  unfoldable pub create_state :
      VectorSpace Real → List Real → Option (VectorState Real × VectorSpace Real)
  create_state s elements =
      if length elements == length s.bounds
      then some (record { id = s.count; values = elements }, record s { count = s.count + 1 })
      else none

  unfoldable pub square_sum : Real → List Real → List Real → Real
  square_sum sum [] bs = sum
  square_sum sum (a ∷ rest) [] = sum
  square_sum sum (a ∷ rest) (b ∷ bs) =
      let err = sub a b in square_sum (add sum (mul err err)) rest bs

  unfoldable pub evaluate_distance : VectorState Real → VectorState Real → Real
  evaluate_distance first second =
      numerics.sqrt (square_sum (of_int (pos 0)) first.values second.values)

  -- The values of `SampleUniform`.
  unfoldable pub uniform_values : (n i : ℕ) → List (Bound Real) → List Real
  uniform_values n i [] = []
  uniform_values n i (b ∷ bs) = numerics.uniform_real n i b.low b.high ∷ uniform_values n (suc i) bs

  unfoldable pub sample_uniform : VectorSpace Real → VectorState Real × VectorSpace Real
  sample_uniform s = (
    record { id = s.count; values = uniform_values s.count 0 s.bounds },
    record s { count = s.count + 1 },
  )

  -- `std::max` and `std::min`
  abbrev max_of : Real → Real → Real
  max_of a b = if lt a b then b else a

  abbrev min_of : Real → Real → Real
  min_of a b = if lt b a then b else a

  unfoldable pub around_values : (n i : ℕ) → Real → List (Bound Real) → List Real → List Real
  around_values n i distance [] cs = []
  around_values n i distance (b ∷ bs) [] = []
  around_values n i distance (b ∷ bs) (c ∷ cs) =
      numerics.uniform_real n i (max_of b.low (sub c distance)) (min_of b.high (add c distance))
      ∷ around_values n (suc i) distance bs cs

  unfoldable pub sample_uniform_around :
      VectorSpace Real → VectorState Real → Real → VectorState Real × VectorSpace Real
  sample_uniform_around s center distance = (
    record { id = s.count; values = around_values s.count 0 distance s.bounds center.values },
    record s { count = s.count + 1 },
  )

  -- A value of `SampleGaussian`, cut off at the bounds.
  unfoldable pub clamp_value : Bound Real → Real → Real
  clamp_value b v = if lt v b.low then b.low else (if lt b.high v then b.high else v)

  unfoldable pub gaussian_values : (n i : ℕ) → Real → List (Bound Real) → List Real → List Real
  gaussian_values n i dev [] ms = []
  gaussian_values n i dev (b ∷ bs) [] = []
  gaussian_values n i dev (b ∷ bs) (m ∷ ms) =
      clamp_value b (numerics.gaussian n i m dev) ∷ gaussian_values n (suc i) dev bs ms

  unfoldable pub sample_gaussian :
      VectorSpace Real → VectorState Real → Real → VectorState Real × VectorSpace Real
  sample_gaussian s mean dev = (
    record { id = s.count; values = gaussian_values s.count 0 dev s.bounds mean.values },
    record s { count = s.count + 1 },
  )

  -- base + direction * length
  unfoldable pub point_along : List Real → List Real → Real → List Real
  point_along [] ds x = []
  point_along (b ∷ bs) [] x = []
  point_along (b ∷ bs) (d ∷ ds) x = add b (mul d x) ∷ point_along bs ds x

  unfoldable pub direction : List Real → List Real → List Real
  direction [] gs = []
  direction (s ∷ ss) [] = []
  direction (s ∷ ss) (g ∷ gs) = sub g s ∷ direction ss gs

  -- `RVStraightSteer`
  unfoldable pub straight_steer :
      VectorSpace Real
      → Real
      → VectorState Real
      → VectorState Real
      → Option ((VectorState Real × Real) × VectorSpace Real)
  straight_steer s max_dist start goal =
      let distance = evaluate_distance start goal in
      let end_state =
        point_along start.values (numerics.normalize (direction start.values goal.values))
          max_dist in
      if lt distance max_dist
      then some ((goal, distance), s)
      else and_then (create_state s end_state) (λ r. some ((r.0, max_dist), r.1))

  -- `RVPolygonValidityChecker` with a test for each polygon: `CheckInside`.
  unfoldable pub is_free : List (List Real → Bool) → List Real → Bool
  is_free [] point = true
  is_free (poly ∷ polys) point =
      let rest = is_free polys point in if poly point then false else rest

  -- `while (inc_dist < distance)`; `none` is a loop that has not ended.
  unfoldable pub walk :
      (fuel : ℕ) → List (List Real → Bool) → Real → (Real → List Real) → Real → Real → Option Bool
  walk zero polys step point distance inc_dist = none
  walk (suc fuel) polys step point distance inc_dist =
      let rest = walk fuel polys step point distance (add inc_dist step) in
      if lt inc_dist distance
      then (if is_free polys (point inc_dist) then rest else some false)
      else some true

  -- The distance in the plane, for `std::hypot`.
  unfoldable pub planar_distance : List Real → Real
  planar_distance (x ∷ y ∷ rest) = numerics.hypot x y
  planar_distance ds = of_int (pos 0)

  -- `CheckInside` of the end points, then of the points on the leg.
  unfoldable pub check_path :
      ℕ → List (List Real → Bool) → Real → VectorState Real → VectorState Real → Option Bool
  check_path fuel polys step sstate dstate =
      let leg = direction sstate.values dstate.values in
      let unit = numerics.normalize leg in
      if not (is_free polys sstate.values) || not (is_free polys dstate.values)
      then some false
      else walk fuel polys step (point_along sstate.values unit) (planar_distance leg) step
