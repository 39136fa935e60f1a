-- ===== src/Sampling/RrtStar/Parent.antt =====
-- The parent that `FindBestParent` picks, and the candidate that the search ends with.
use robosw.Base.{
  ℕ, ◌==◌, ◌&&◌, Bool, true, false, List, [], ◌∷◌, ◌≡◌, ◌⊎◌, inl, inr, refl, ap, sym, subst, ◌∙◌,
  arith, Bool-cases,
}
use robosw.Base.Int.{pos}
use robosw.Base.Float.{RealOps}
use robosw.Sampling.Tree.{TreeOps, Setting}
use robosw.Sampling.Tree.Nearest.{In}
use robosw.Sampling.MotionTree.{Costs, MotionOps, MotionTree, cost_at, get_state_cost}
use robosw.Sampling.RrtStar.{scan_parents, find_best_parent}

-- `<` on costs that are no NaN.
pub record CostLaws (ops : RealOps) : Type 0 where
  pub irreflexive : (a : ops.Real) → ops.lt a a ≡ false
  pub transitive : (a b c : ops.Real) → ops.lt a b ≡ true → ops.lt b c ≡ true → ops.lt a c ≡ true

-- No cost has been stored for the id.
abbrev pub Missing : {R : Type 0} → Costs R → ℕ → Type 0
Missing [] id = Unit {0}
Missing (e ∷ es) id = ((e.0 == id) ≡ false) × Missing es id

module _ (ops : RealOps) where
  cost_at-Missing :
      (costs : Costs ops.Real) (id : ℕ)
      → Missing costs id
      → cost_at ops costs id ≡ ops.of_int (pos 0)
  unfolding cost_at
  cost_at-Missing [] id h = refl
  cost_at-Missing (e ∷ es) id h = rw h.0 (cost_at-Missing es id h.1)

  module _ {State : Type 0} (w : Setting State ops.Real) (trees : TreeOps State ops.Real)
      (motions : MotionOps trees) where
    -- The cost of the way to `new_state` by way of s.
    abbrev pub combined : MotionTree trees → State → State → ops.Real
    combined t new_state s =
        ops.add (get_state_cost ops w trees motions t s) (w.evaluate_distance s new_state)

    and_false : (a : Bool) {b : Bool} → b ≡ false → (a && b) ≡ false
    and_false true e = e
    and_false false e = refl

    -- Nothing beats a cost that no near state is below.
    scan_parents-kept :
        (t : MotionTree trees) (new_state : State) (near : List State) (cost : ops.Real)
        (min_state : State) (min_dist : ops.Real)
        → ((s : State) → In s near → ops.lt (combined t new_state s) cost ≡ false)
        → scan_parents ops w trees motions t new_state near cost min_state min_dist
          ≡ (min_state, min_dist)
    unfolding scan_parents
    scan_parents-kept t new_state [] cost min_state min_dist h = refl
    scan_parents-kept t new_state (s ∷ ss) cost min_state min_dist h =
        rw (and_false (w.check_path_validity s new_state) (h s (inl refl)))
          (scan_parents-kept t new_state ss cost min_state min_dist (λ u i. h u (inr i)))

    -- When no cost is stored for the new state and no way to it costs less than 0, the nearest state is
    -- kept as the parent: the cost of the new state is read as 0.
    pub find_best_parent-kept :
        (t : MotionTree trees) (new_state : State) (near : List State) (min_state : State)
        (min_dist : ops.Real)
        → Missing t.g_cost (motions.id new_state)
        → ((s : State) → In s near → ops.lt (combined t new_state s) (ops.of_int (pos 0)) ≡ false)
        → find_best_parent ops w trees motions t new_state near min_state min_dist
          ≡ (min_state, min_dist)
    unfolding find_best_parent get_state_cost
    find_best_parent-kept t new_state near min_state min_dist missing h =
        ap (λ c. scan_parents ops w trees motions t new_state near c min_state min_dist)
          (cost_at-Missing t.g_cost (motions.id new_state) missing)
        ∙ scan_parents-kept t new_state near (ops.of_int (pos 0)) min_state min_dist h

    abbrev pub Chosen :
        MotionTree trees
        → State
        → List State
        → ops.Real
        → State
        → ops.Real
        → State × ops.Real
        → ops.Real
        → Type 0
    Chosen t new_state near cost min_state min_dist r c =
        (((r ≡ (min_state, min_dist)) × (c ≡ cost))
          ⊎ (In r.0 near
              × (w.check_path_validity r.0 new_state ≡ true)
              × (r.1 ≡ w.evaluate_distance r.0 new_state)
              × (c ≡ combined t new_state r.0)
              × (ops.lt c cost ≡ true)))
        × ((s : State)
            → In s near
            → w.check_path_validity s new_state ≡ true
            → ops.lt (combined t new_state s) c ≡ false)

    module _ (laws : CostLaws ops) where
      not_below : (a b c : ops.Real) → ops.lt a b ≡ false → ops.lt c b ≡ true → ops.lt a c ≡ false
      not_below a b c h l = elim (Bool-cases (ops.lt a c)) [
        | inl e ↦ absurd (contrary (sym (laws.transitive a c b e l) ∙ h))
        | inr e ↦ e
      ]
        where
          contrary : true ≡ false → ⊥
          contrary e = ground arith

      both : (a b : Bool) → (a && b) ≡ true → (a ≡ true) × (b ≡ true)
      both a b e = ground arith

      neither : (a b : Bool) → (a && b) ≡ false → a ≡ true → b ≡ false
      neither a b e f = ground arith

      module _ (t : MotionTree trees) (new_state : State) where
        take_it :
            (s : State) (ss : List State) (cost : ops.Real) (min_state : State)
            (min_dist : ops.Real) (r : State × ops.Real) (c : ops.Real)
            → w.check_path_validity s new_state ≡ true
            → ops.lt (combined t new_state s) cost ≡ true
            → Chosen t new_state ss (combined t new_state s) s (w.evaluate_distance s new_state) r c
            → Chosen t new_state (s ∷ ss) cost min_state min_dist r c
        take_it s ss cost min_state min_dist r c valid below (inl same, others) = (
          inr (
            inl (ap (λ p. p.0) same.0),
            subst (λ u. w.check_path_validity u new_state ≡ true) (sym (ap (λ p. p.0) same.0))
                valid,
            ap (λ p. p.1) same.0
                ∙ ap (λ u. w.evaluate_distance u new_state) (sym (ap (λ p. p.0) same.0)),
            same.1 ∙ ap (combined t new_state) (sym (ap (λ p. p.0) same.0)),
            subst (λ x. ops.lt x cost ≡ true) (sym same.1) below,
          ),
          λ u i v. either u i v,
        )
          where
            either :
                (u : State)
                → In u (s ∷ ss)
                → w.check_path_validity u new_state ≡ true
                → ops.lt (combined t new_state u) c ≡ false
            either u (inr i) v = others u i v
            either u (inl e) v =
                subst (λ k. ops.lt (combined t new_state k) c ≡ false) (sym e)
                  (subst (λ x. ops.lt (combined t new_state s) x ≡ false) (sym same.1)
                    (laws.irreflexive _))
        take_it s ss cost min_state min_dist r c valid below (inr there, others) = (
          inr (
            inr there.0,
            there.1,
            there.2,
            there.3,
            laws.transitive c (combined t new_state s) cost there.4 below,
          ),
          λ u i v. either u i v,
        )
          where
            either :
                (u : State)
                → In u (s ∷ ss)
                → w.check_path_validity u new_state ≡ true
                → ops.lt (combined t new_state u) c ≡ false
            either u (inr i) v = others u i v
            either u (inl e) v =
                subst (λ k. ops.lt (combined t new_state k) c ≡ false) (sym e)
                  (not_below (combined t new_state s) (combined t new_state s) c
                    (laws.irreflexive _) there.4)

        leave_it :
            (s : State) (ss : List State) (cost : ops.Real) (min_state : State)
            (min_dist : ops.Real) (r : State × ops.Real) (c : ops.Real)
            → (w.check_path_validity s new_state && ops.lt (combined t new_state s) cost) ≡ false
            → Chosen t new_state ss cost min_state min_dist r c
            → Chosen t new_state (s ∷ ss) cost min_state min_dist r c
        leave_it s ss cost min_state min_dist r c off (which, others) =
            (kept which, λ u i v. either which u i v)
          where
            kept :
                ((r ≡ (min_state, min_dist)) × (c ≡ cost))
                  ⊎ (In r.0 ss
                      × (w.check_path_validity r.0 new_state ≡ true)
                      × (r.1 ≡ w.evaluate_distance r.0 new_state)
                      × (c ≡ combined t new_state r.0)
                      × (ops.lt c cost ≡ true))
                → ((r ≡ (min_state, min_dist)) × (c ≡ cost))
                  ⊎ (In r.0 (s ∷ ss)
                      × (w.check_path_validity r.0 new_state ≡ true)
                      × (r.1 ≡ w.evaluate_distance r.0 new_state)
                      × (c ≡ combined t new_state r.0)
                      × (ops.lt c cost ≡ true))
            kept (inl same) = inl same
            kept (inr there) = inr (inr there.0, there.1, there.2, there.3, there.4)

            either :
                ((r ≡ (min_state, min_dist)) × (c ≡ cost))
                  ⊎ (In r.0 ss
                      × (w.check_path_validity r.0 new_state ≡ true)
                      × (r.1 ≡ w.evaluate_distance r.0 new_state)
                      × (c ≡ combined t new_state r.0)
                      × (ops.lt c cost ≡ true))
                → (u : State) → In u (s ∷ ss)
                → w.check_path_validity u new_state ≡ true
                → ops.lt (combined t new_state u) c ≡ false
            either which u (inr i) v = others u i v
            either (inl same) u (inl e) v =
                subst (λ x. ops.lt (combined t new_state u) x ≡ false) (sym same.1)
                  (neither (w.check_path_validity u new_state)
                    (ops.lt (combined t new_state u) cost)
                    (subst
                      (λ k.
                        (w.check_path_validity k new_state && ops.lt (combined t new_state k) cost)
                        ≡ false)
                      (sym e) off)
                    v)
            either (inr there) u (inl e) v =
                not_below (combined t new_state u) cost c
                  (neither (w.check_path_validity u new_state)
                    (ops.lt (combined t new_state u) cost)
                    (subst
                      (λ k.
                        (w.check_path_validity k new_state && ops.lt (combined t new_state k) cost)
                        ≡ false)
                      (sym e) off)
                    v)
                  there.4

        scan_parents-Chosen :
            (near : List State) (cost : ops.Real) (min_state : State) (min_dist : ops.Real)
            → (r : State × ops.Real) × (c : ops.Real) × (scan_parents ops w trees motions t
                  new_state near cost min_state min_dist
                ≡ r)
              × Chosen t new_state near cost min_state min_dist r c
        unfolding scan_parents
        scan_parents-Chosen [] cost min_state min_dist =
            ((min_state, min_dist), cost, refl, (inl (refl, refl), λ s i. absurd i))
        scan_parents-Chosen (s ∷ ss) cost min_state min_dist =
            elim (Bool-cases
              (w.check_path_validity s new_state && ops.lt (combined t new_state s) cost)) [
                | inl e ↦
                    let yes =
                      both (w.check_path_validity s new_state)
                        (ops.lt (combined t new_state s) cost) e in
                    let r =
                      scan_parents-Chosen ss (combined t new_state s) s
                        (w.evaluate_distance s new_state) in
                    (
                      r.0,
                      r.1,
                      rw e r.2,
                      take_it s ss cost min_state min_dist r.0 r.1 yes.0 yes.1 r.3,
                    )
                | inr e ↦
                    let r = scan_parents-Chosen ss cost min_state min_dist in
                    (r.0, r.1, rw e r.2, leave_it s ss cost min_state min_dist r.0 r.1 e r.3)
              ]

        -- `FindBestParent` returns a parent and its distance. Either it is the parent given, and no way by a near
        -- state on a valid leg is cheaper than the cost that is stored for the new state; or it is a near state on a
        -- valid leg whose way is cheaper than that stored cost, and no way by another near state on a valid leg is
        -- cheaper. The parent given is compared only where it is one of the near states.
        pub find_best_parent-cheapest :
            (near : List State) (min_state : State) (min_dist : ops.Real)
            → (r : State × ops.Real) × (c : ops.Real) × (find_best_parent ops w trees motions t
                  new_state near min_state min_dist
                ≡ r)
              × (((r ≡ (min_state, min_dist))
                    × (c ≡ get_state_cost ops w trees motions t new_state))
                  ⊎ (In r.0 near
                      × (w.check_path_validity r.0 new_state ≡ true)
                      × (r.1 ≡ w.evaluate_distance r.0 new_state)
                      × (c ≡ combined t new_state r.0)
                      × (ops.lt c (get_state_cost ops w trees motions t new_state) ≡ true)))
              × ((s : State)
                  → In s near
                  → w.check_path_validity s new_state ≡ true
                  → ops.lt (combined t new_state s) c ≡ false)
        unfolding find_best_parent
        find_best_parent-cheapest near min_state min_dist =
            let r =
              scan_parents-Chosen near (get_state_cost ops w trees motions t new_state) min_state
                min_dist in
            (r.0, r.1, r.2, r.3.0, r.3.1)
