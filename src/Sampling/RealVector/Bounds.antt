-- ===== src/Sampling/RealVector/Bounds.antt =====
-- Samples stay within the bounds of the space.
use robosw.Base.{
  ℕ, suc, ◌+◌, true, false, Bool-cases, inl, inr, List, [], ◌∷◌, length, ◌≡◌, refl, sym, ◌∙◌, arith,
}
use robosw.Base.Float.{RealOps}
use robosw.Sampling.RrtStar.Parent.{CostLaws}
use robosw.Sampling.RealVector.{
  VectorState, VectorSpace, Bound, Numerics, clamp_value, gaussian_values, sample_gaussian,
}

module _ (ops : RealOps) (numerics : Numerics ops.Real) where
  -- Each value lies within its bounds.
  abbrev pub Within : List (Bound ops.Real) → List ops.Real → Type 0
  Within [] [] = Unit {0}
  Within [] (v ∷ vs) = ⊥
  Within (b ∷ bs) [] = ⊥
  Within (b ∷ bs) (v ∷ vs) = ((ops.lt v b.low ≡ false) × (ops.lt b.high v ≡ false)) × Within bs vs

  -- The bounds of each dimension are in order.
  abbrev pub Ordered : List (Bound ops.Real) → Type 0
  Ordered [] = Unit {0}
  Ordered (b ∷ bs) = (ops.lt b.low b.high ≡ true) × Ordered bs

  module _ (laws : CostLaws ops) where
    not_both : (a b : ops.Real) → ops.lt a b ≡ true → ops.lt b a ≡ false
    not_both a b h = elim (Bool-cases (ops.lt b a)) [
      | inl e ↦ absurd (contrary (sym (laws.transitive a b a h e) ∙ laws.irreflexive a))
      | inr e ↦ e
    ]
      where
        contrary : true ≡ false → ⊥
        contrary e = ground arith

    clamped :
        (b : Bound ops.Real) (v : ops.Real)
        → ops.lt b.low b.high ≡ true
        → (ops.lt (clamp_value ops numerics b v) b.low ≡ false)
          × (ops.lt b.high (clamp_value ops numerics b v) ≡ false)
    unfolding clamp_value
    clamped b v h = elim (Bool-cases (ops.lt v b.low)) [
      | inl e ↦ (rw e (laws.irreflexive b.low), rw e (not_both b.low b.high h))
      | inr e ↦ elim (Bool-cases (ops.lt b.high v)) [
        | inl f ↦ (rw (e, f) (not_both b.low b.high h), rw (e, f) (laws.irreflexive b.high))
        | inr f ↦ (rw (e, f) e, rw (e, f) f)
      ]
    ]

    gaussian_values-Within :
        (n i : ℕ) (dev : ops.Real) (bs : List (Bound ops.Real)) (ms : List ops.Real)
        → Ordered bs
        → length ms ≡ length bs
        → Within bs (gaussian_values ops numerics n i dev bs ms)
    unfolding gaussian_values
    gaussian_values-Within n i dev [] ms h e = tt
    gaussian_values-Within n i dev (b ∷ bs) [] h e = absurd (omega arith)
    gaussian_values-Within n i dev (b ∷ bs) (m ∷ ms) h e = (
      clamped b (numerics.gaussian n i m dev) h.0,
      gaussian_values-Within n (suc i) dev bs ms h.1 (omega arith),
    )

    -- Whatever the random numbers are, a Gaussian sample of a space whose bounds are in order lies within them,
    -- and has an id that was not given before.
    pub sample_gaussian-Within :
        (s : VectorSpace ops.Real) (mean : VectorState ops.Real) (dev : ops.Real)
        → Ordered s.bounds
        → length mean.values ≡ length s.bounds
        → Within s.bounds (sample_gaussian ops numerics s mean dev).0.values
          × ((sample_gaussian ops numerics s mean dev).0.id ≡ s.count)
          × ((sample_gaussian ops numerics s mean dev).1.count ≡ s.count + 1)
    unfolding sample_gaussian
    sample_gaussian-Within s mean dev h e =
        (gaussian_values-Within s.count 0 dev s.bounds mean.values h e, refl, refl)
