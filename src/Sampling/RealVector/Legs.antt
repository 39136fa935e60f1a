-- ===== src/Sampling/RealVector/Legs.antt =====
-- What a leg that passes the polygon checker keeps clear of.
use robosw.Base.{
  ℕ, zero, suc, Bool, true, false, Bool-cases, inl, inr, some, List, ◌≡◌, refl, ap, ◌∙◌, arith,
}
use robosw.Base.Float.{RealOps}
use robosw.Sampling.RealVector.{
  VectorState, Numerics, is_free, walk, check_path, planar_distance, point_along, direction,
}

module _ (ops : RealOps) (numerics : Numerics ops.Real) (polys : List (List ops.Real → Bool))
    (step : ops.Real) where
  -- The k-th distance that the loop looks at, from the first one on.
  abbrev pub reached : ops.Real → ℕ → ops.Real
  reached from zero = from
  reached from (suc k) = reached (ops.add from step) k

  -- All distances up to the k-th one are below the length of the leg.
  abbrev pub AllBelow : ops.Real → ops.Real → ℕ → Type 0
  AllBelow distance from zero = ops.lt from distance ≡ true
  AllBelow distance from (suc k) =
      (ops.lt from distance ≡ true) × AllBelow distance (ops.add from step) k

  walk-free :
      (fuel : ℕ) (point : ops.Real → List ops.Real) (distance from : ops.Real) (k : ℕ)
      → walk ops numerics fuel polys step point distance from ≡ some true
      → AllBelow distance from k
      → is_free ops numerics polys (point (reached from k)) ≡ true
  unfolding walk
  walk-free zero point distance from k h below = absurd (ground arith)
  walk-free (suc fuel) point distance from zero h below =
      elim (Bool-cases (is_free ops numerics polys (point from))) [
        | inl e ↦ e
        | inr e ↦ absurd (ground (arith, below, e, h))
      ]
  walk-free (suc fuel) point distance from (suc k) h below =
      elim (Bool-cases (is_free ops numerics polys (point from))) [
        | inl e ↦ walk-free fuel point distance (ops.add from step) k (rw (below.0, e) at h) below.1
        | inr e ↦ absurd (ground (arith, below.0, e, h))
      ]

  walk-returns :
      (n : ℕ) (point : ops.Real → List ops.Real) (distance from : ops.Real)
      → ops.lt (reached from n) distance ≡ false
      → (b : Bool) × (walk ops numerics (suc n) polys step point distance from ≡ some b)
  unfolding walk
  walk-returns zero point distance from h = (true, rw h refl)
  walk-returns (suc n) point distance from h = elim (Bool-cases (ops.lt from distance)) [
    | inr e ↦ (true, rw e refl)
    | inl e ↦ elim (Bool-cases (is_free ops numerics polys (point from))) [
      | inr f ↦ (false, rw (e, f) refl)
      | inl f ↦
          let ih = walk-returns n point distance (ops.add from step) h in (ih.0, rw (e, f) ih.1)
    ]
  ]

  walk-not_blocked :
      (fuel : ℕ) (point : ops.Real → List ops.Real) (distance from : ops.Real)
      → ((k : ℕ)
          → AllBelow distance from k
          → is_free ops numerics polys (point (reached from k)) ≡ true)
      → walk ops numerics fuel polys step point distance from ≡ some false
      → ⊥
  unfolding walk
  walk-not_blocked zero point distance from free h = ground (arith, h)
  walk-not_blocked (suc fuel) point distance from free h =
      elim (Bool-cases (ops.lt from distance)) [
        | inr e ↦ ground (arith, e, h)
        | inl e ↦
            walk-not_blocked fuel point distance (ops.add from step)
              (λ k below. free (suc k) (e, below)) (rw (e, free zero e) at h)
      ]

  module _ (start goal : VectorState ops.Real) where
    abbrev leg : List ops.Real
    leg = direction ops numerics start.values goal.values

    abbrev leg_length : ops.Real
    leg_length = planar_distance ops numerics leg

    -- The ends of the leg and the points on it at whole numbers of steps from the start are free.
    abbrev pub LegFree : Type 0
    LegFree =
        (is_free ops numerics polys start.values ≡ true)
        × (is_free ops numerics polys goal.values ≡ true)
        × ((k : ℕ)
            → AllBelow leg_length step k
            → is_free ops numerics polys
                (point_along ops numerics start.values (numerics.normalize leg) (reached step k))
              ≡ true)

    -- When the (n + 1)-th step reaches the length of the leg, the checker returns with n + 1 rounds. It passes
    -- the leg exactly if it is free at its ends and after each step below that length.
    pub check_path-free :
        (n : ℕ)
        → ops.lt (reached step n) leg_length ≡ false
        → (b : Bool) × (check_path ops numerics (suc n) polys step start goal ≡ some b)
          × (b ≡ true → LegFree)
          × (LegFree → b ≡ true)
    unfolding check_path
    check_path-free n h = elim (Bool-cases (is_free ops numerics polys start.values)) [
      | inr e ↦ (
        false,
        rw e refl,
        λ x. absurd (ground (arith, x)),
        λ free. absurd (ground (arith, e, free.0)),
      )
      | inl e ↦ elim (Bool-cases (is_free ops numerics polys goal.values)) [
        | inr f ↦ (
          false,
          rw (e, f) refl,
          λ x. absurd (ground (arith, x)),
          λ free. absurd (ground (arith, f, free.1)),
        )
        | inl f ↦
            let point = point_along ops numerics start.values (numerics.normalize leg) in
            let w = walk-returns n point leg_length step h in
            (
              w.0,
              rw (e, f) w.1,
              λ x. (
                e,
                f,
                λ k below. walk-free (suc n) point leg_length step k (w.1 ∙ ap some x) below,
              ),
              λ free. elim (Bool-cases w.0) [
                | inl g ↦ g
                | inr g ↦
                    absurd (walk-not_blocked (suc n) point leg_length step free.2 (w.1 ∙ ap some g))
              ],
            )
      ]
    ]
