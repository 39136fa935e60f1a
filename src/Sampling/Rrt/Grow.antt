-- ===== src/Sampling/Rrt/Grow.antt =====
-- What `RRT::Search` returns.
use robosw.Base.{
  ℕ, zero, suc, ◌<◌, true, false, Option, some, List, [], ◌∷◌, ◌++◌, ◌≡◌, ◌≢◌, ◌⊎◌, inl, inr, refl,
  ap, sym, subst, arith, Bool-cases, List-cases,
}
use robosw.Base.Int.{ℤ}
use robosw.Base.Float.{RealOps}
use robosw.Base.Loops.{and_then}
use robosw.Sampling.Tree.{TreeOps, Setting, find_nearest, check_goal}
use robosw.Sampling.Tree.Nearest.{In, DistanceLaws, find_nearest-least}
use robosw.Sampling.Tree.Trace.{
  TreeLaws, Leads, Known, Known-grown, Known-new, Known-root, In-grown,
  trace_back_to_root-connected, In-added,
}
use robosw.Sampling.Rrt.{iter_num, reach_goal, extend, grow, search}

-- The steering from a state to the sample of a round gives a state of that round, the sample itself or a new
-- one: states are compared as objects, so that it is neither the start nor the goal, nor of another round.
pub record SteerLaws {State Real : Type 0} (w : Setting State Real) (start goal : State)
    : Type 0 where
  pub ends_differ : start ≢ goal
  pub not_start : (k : ℕ) (a : State) → (w.steer k a (w.sample_uniform k)).0 ≢ start
  pub not_goal : (k : ℕ) (a : State) → (w.steer k a (w.sample_uniform k)).0 ≢ goal
  pub own :
      (j k : ℕ) (a c : State)
      → j < k
      → (w.steer j a (w.sample_uniform j)).0 ≢ (w.steer k c (w.sample_uniform k)).0

module _ (ops : RealOps) {State : Type 0} (w : Setting State ops.Real)
    (trees : TreeOps State ops.Real) (distances : DistanceLaws ops w) (laws : TreeLaws trees)
    (start goal : State) (steers : SteerLaws w start goal) where
  -- The state that round k steers to from a.
  abbrev steered : ℕ → State → State
  steered k a = (w.steer k a (w.sample_uniform k)).0

  -- A vertex is the start, or a state of an earlier round that is not near the goal.
  abbrev Origin : ℕ → State → Type 0
  Origin k v =
      (v ≡ start)
      ⊎ ((j : ℕ) × (a : State) × (j < k) × (v ≡ steered j a) × (check_goal ops w v goal ≡ false))

  abbrev Invariant : ℕ → trees.Tree → Type 0
  Invariant k t =
      In start (trees.vertices t)
      × ((v : State) → In v (trees.vertices t) → Known ops w trees t start v × Origin k v)

  -- What a search ends with: no vertex is near the goal, or a path along valid legs to a
  -- vertex that is, and the goal.
  abbrev pub Result : trees.Tree → List State → Type 0
  Result t path =
      ((path ≡ [])
        × ((v : State) → In v (trees.vertices t) → (v ≡ start) ⊎ (check_goal ops w v goal ≡ false)))
      ⊎ ((route : List State) × (last : State) × (path ≡ route ++ goal ∷ [])
          × Leads w.check_path_validity start last route
          × (check_goal ops w last goal ≡ true))

  abbrev Ends : Option (trees.Tree × List State) → Type 0
  Ends o = (r : trees.Tree × List State) × (o ≡ some r) × Result r.0 r.1

  goal_new : (k : ℕ) (t : trees.Tree) → Invariant k t → In goal (trees.vertices t) → ⊥
  goal_new k t inv i = from ((inv.1 goal i).1)
    where
      from : Origin k goal → ⊥
      from (inl e) = steers.ends_differ (sym e)
      from (inr o) = steers.not_goal o.0 o.1 (sym o.3)

  state_new :
      (k : ℕ) (t : trees.Tree) (a : State) → Invariant k t → In (steered k a) (trees.vertices t) → ⊥
  state_new k t a inv i = from ((inv.1 (steered k a) i).1)
    where
      from : Origin k (steered k a) → ⊥
      from (inl e) = steers.not_start k a e
      from (inr o) = steers.own o.0 k o.1 a o.2 (sym o.3)

  Origin-later : (k : ℕ) (v : State) → Origin k v → Origin (suc k) v
  Origin-later k v (inl e) = inl e
  Origin-later k v (inr o) = inr (o.0, o.1, omega (arith, o.2), o.3, o.4)

  Invariant-later : (k : ℕ) (t : trees.Tree) → Invariant k t → Invariant (suc k) t
  Invariant-later k t inv = (inv.0, λ v i. ((inv.1 v i).0, Origin-later k v (inv.1 v i).1))

  Invariant-root : Invariant 0 (trees.add_root trees.new_tree start)
  Invariant-root = (
    subst (λ l. In start l) (sym (laws.root-vertices start)) (inl refl),
    λ v i. only v (subst (λ l. In v l) (laws.root-vertices start) i),
  )
    where
      root : trees.Tree
      root = trees.add_root trees.new_tree start

      only : (v : State) → (v ≡ start) ⊎ ⊥ → Known ops w trees root start v × Origin 0 v
      only v (inr i) = absurd i
      only v (inl e) =
          subst (λ u. Known ops w trees root start u × Origin 0 u) (sym e)
            (Known-root ops w trees laws start, inl refl)

  -- A new state that is not near the goal keeps the invariant.
  Invariant-grown :
      (k : ℕ) (t : trees.Tree) (n : State) (x : ops.Real)
      → Invariant k t
      → In n (trees.vertices t)
      → w.check_path_validity n (steered k n) ≡ true
      → check_goal ops w (steered k n) goal ≡ false
      → Invariant (suc k) (trees.add_edge t n (steered k n) x)
  Invariant-grown k t n x inv i valid far =
      let d = (steered k n) in
      let new = state_new k t n inv in
      (
        In-grown ops w trees laws t n d x i new start inv.0,
        λ v j. elim ((laws.edge-vertices t n d x i new v).0 j) [
          | inl old ↦ (
            Known-grown ops w trees laws t start n d v x i new (inv.1 v old).0,
            Origin-later k v (inv.1 v old).1,
          )
          | inr e ↦
              subst (λ u. Known ops w trees (trees.add_edge t n d x) start u × Origin (suc k) u)
                (sym e)
                (
                  Known-new ops w trees laws t start n d x i new valid (inv.1 n i).0,
                  inr (k, n, omega arith, refl, far),
                )
        ],
      )

  goal_newer :
      (k : ℕ) (t : trees.Tree) (n : State) (x : ops.Real)
      → Invariant k t
      → In n (trees.vertices t)
      → In goal (trees.vertices (trees.add_edge t n (steered k n) x))
      → ⊥
  goal_newer k t n x inv i j =
      let d = (steered k n) in
      elim ((laws.edge-vertices t n d x i (state_new k t n inv) goal).0 j) [
        | inl old ↦ goal_new k t inv old
        | inr e ↦ steers.not_goal k n (sym e)
      ]

  -- Near the goal, the search ends with a path.
  reach_goal-Ends :
      (k : ℕ) (t : trees.Tree) (n : State) (x : ops.Real)
      → Invariant k t
      → In n (trees.vertices t)
      → w.check_path_validity n (steered k n) ≡ true
      → check_goal ops w (steered k n) goal ≡ true
      → Ends (reach_goal ops w trees (trees.add_edge t n (steered k n) x) (steered k n) goal)
  unfolding reach_goal
  reach_goal-Ends k t n x inv i valid near =
      let d = (steered k n) in
      let new = state_new k t n inv in
      let t1 = trees.add_edge t n d x in
      let y = w.evaluate_distance d goal in
      let r =
        trace_back_to_root-connected ops w trees laws t1 start d goal y
          (In-added ops w trees laws t n d x i new) (goal_newer k t n x inv i)
          (Known-new ops w trees laws t start n d x i new valid (inv.1 n i).0) in
      (
        (trees.add_edge t1 d goal y, r.0 ++ goal ∷ []),
        ap (λ o. and_then o (λ path. some (trees.add_edge t1 d goal y, path))) r.1,
        inr (r.0, d, refl, r.2, near),
      )

  -- The tree is never empty, so there is a nearest vertex.
  nearest :
      (k : ℕ) (t : trees.Tree) (b : State)
      → Invariant k t
      → (n : State) × (find_nearest ops w trees t b ≡ some n) × In n (trees.vertices t)
  nearest k t b inv = elim (List-cases (trees.vertices t)) [
    | inl e ↦ absurd (subst (λ l. In start l) e inv.0)
    | inr c ↦ let r = find_nearest-least ops w trees distances t b c.0 c.1 c.2 in (r.0, r.1, r.2)
  ]

  -- A round with a valid sample, when the rounds after it end.
  extend-Ends :
      (count k : ℕ) (t : trees.Tree)
      → Invariant k t
      → ((u : trees.Tree) → Invariant (suc k) u → Ends (grow ops w trees count (suc k) goal u))
      → Ends (
          and_then
            (find_nearest ops w trees t (w.sample_uniform k))
            (extend ops w trees k t goal (grow ops w trees count (suc k) goal)))
  unfolding extend
  extend-Ends count k t inv rest =
      let f = nearest k t (w.sample_uniform k) inv in
      let n = f.0 in
      let b = w.sample_uniform k in
      let new = w.steer k n b in
      elim (Bool-cases (w.check_path_validity n new.0)) [
        | inl valid ↦ elim (Bool-cases (check_goal ops w new.0 goal)) [
          | inl near ↦
              let r = reach_goal-Ends k t n new.1 inv f.2 valid near in
              (r.0, rw (f.1, valid, near) r.1, r.2)
          | inr far ↦
              let r =
                rest (trees.add_edge t n new.0 new.1)
                  (Invariant-grown k t n new.1 inv f.2 valid far) in
              (r.0, rw (f.1, valid, far) r.1, r.2)
        ]
        | inr invalid ↦
            let r = rest t (Invariant-later k t inv) in (r.0, rw (f.1, invalid) r.1, r.2)
      ]

  grow-Ends :
      (count k : ℕ) (t : trees.Tree) → Invariant k t → Ends (grow ops w trees count k goal t)
  unfolding grow extend
  grow-Ends zero k t inv = ((t, []), refl, inl (refl, λ v i. far v (inv.1 v i).1))
    where
      far : (v : State) → Origin k v → (v ≡ start) ⊎ (check_goal ops w v goal ≡ false)
      far v (inl e) = inl e
      far v (inr o) = inr o.4
  grow-Ends (suc count) k t inv = elim (Bool-cases (w.check_state_validity (w.sample_uniform k))) [
    | inl e ↦
        let r = extend-Ends count k t inv (λ u. grow-Ends count (suc k) u) in (r.0, rw e r.1, r.2)
    | inr e ↦ let r = grow-Ends count (suc k) t (Invariant-later k t inv) in (r.0, rw e r.1, r.2)
  ]

  -- The search always returns, with a path or none. A path starts at `start`, goes along legs that pass the
  -- check of paths to a state within a step of the goal, and ends with the goal; without a path, no
  -- vertex but the start is within a step of the goal. The steering gives each round a state of
  -- its own, and the trees are as documented.
  pub search-Result :
      (iter : ℤ)
      → (r : trees.Tree × List State) × (search ops w trees start goal iter ≡ some r)
        × Result r.0 r.1
  unfolding search
  search-Result iter =
      grow-Ends (iter_num iter) 0 (trees.add_root trees.new_tree start) Invariant-root
