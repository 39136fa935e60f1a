-- ===== src/Sampling/RrtStar.antt =====
-- src/planning/sampling/include/sampling/rrt_star.hpp: RRT*. The drawing of the tree is left out; `std::log`
-- and `std::pow` are parameters.
pub mod Parent
use robosw.Base.{
  ℕ, zero, suc, ◌==◌, ◌&&◌, not, Bool, true, false, Option, none, some, List, [], ◌∷◌, ◌++◌, length,
  if◌then◌else◌,
}
use robosw.Base.Int.{ℤ, pos, ltb_ℤ}
use robosw.Base.Float.{RealOps}
use robosw.Base.Loops.{and_then}
use robosw.Sampling.Tree.{TreeOps, Setting, trace_back_to_root, check_goal}
use robosw.Sampling.MotionTree.{
  MotionOps, MotionTree, new_motion_tree, add_tree_root_node, get_state_cost, connect_tree_nodes,
  reconnect_tree_nodes, find_nearest, find_near,
}
use robosw.Sampling.Rrt.{iter_num}

-- The members of `RRTStar`, and the functions of <cmath>.
pub record Optimization (Real : Type 0) : Type 0 where
  pub use_fixed_radius : Bool
  pub fixed_radius : Real
  pub gamma : Real
  pub dimension_size : ℕ
  pub log : Real → Real
  pub pow : Real → Real → Real

module _ (ops : RealOps) {State : Type 0} (w : Setting State ops.Real) where
  open ops use {Real, of_int, mul, div, lt}

  unfoldable pub radius_of : Optimization Real → ℕ → Real
  radius_of o n =
      let count = of_int (pos n) in
      let radius =
        mul o.gamma (
          o.pow (div (o.log count) count) (div (of_int (pos 1)) (of_int (pos o.dimension_size)))) in
      if o.use_fixed_radius
      then o.fixed_radius
      else (if lt w.extend_step_size radius then w.extend_step_size else radius)

module _ (ops : RealOps) {State : Type 0} (w : Setting State ops.Real)
    (trees : TreeOps State ops.Real) (motions : MotionOps trees) where
  open ops use {Real, of_int, add, mul, div, lt}

  abbrev cost : MotionTree trees → State → Real
  cost t s = get_state_cost ops w trees motions t s

  -- The loop of `FindBestParent`, with the cost, the parent and its distance so far.
  unfoldable pub scan_parents :
      MotionTree trees → State → List State → Real → State → Real → State × Real
  scan_parents t new_state [] cost_new min_state min_dist = (min_state, min_dist)
  scan_parents t new_state (s ∷ ss) cost_new min_state min_dist =
      let edge_cost = w.evaluate_distance s new_state in
      let combined_cost = add (cost t s) edge_cost in
      if w.check_path_validity s new_state && lt combined_cost cost_new
      then scan_parents t new_state ss combined_cost s edge_cost
      else scan_parents t new_state ss cost_new min_state min_dist

  unfoldable pub find_best_parent :
      MotionTree trees → State → List State → State → Real → State × Real
  find_best_parent t new_state near min_state min_dist =
      scan_parents t new_state near (cost t new_state) min_state min_dist

  -- One state of the loop of `RewireBranches`; states are compared by their pointers, here ids.
  unfoldable pub rewire_state : State → State → MotionTree trees → State → Option (MotionTree trees)
  rewire_state new_state min_state t s =
      let new_dist = w.evaluate_distance new_state s in
      if not (motions.id s == motions.id min_state)
        && w.check_path_validity new_state s
        && lt (add (cost t new_state) new_dist) (cost t s)
      then reconnect_tree_nodes ops w trees motions t new_state s new_dist
      else some t

  unfoldable pub rewire_branches :
      State → State → List State → MotionTree trees → Option (MotionTree trees)
  rewire_branches new_state min_state [] t = some t
  rewire_branches new_state min_state (s ∷ ss) t =
      and_then (rewire_state new_state min_state t s) (rewire_branches new_state min_state ss)

  -- Steps 3 to 5 of a round: the best parent, the new edge and the rewiring.
  unfoldable pub connect_best :
      Optimization Real → MotionTree trees → State → State → Real → Option (MotionTree trees)
  connect_best o t new_state nearest dist =
      let radius = radius_of ops w o (length (trees.vertices t.tree)) in
      let near = find_near ops w trees motions t new_state radius in
      let best = find_best_parent t new_state near nearest dist in
      let connected = connect_tree_nodes ops w trees motions t best.0 new_state best.1 in
      rewire_branches new_state best.0 near connected

  -- A round with a valid sample: the tree, and the candidates with the new one at the end.
  unfoldable pub star_round :
      Optimization Real
      → ℕ
      → State
      → MotionTree trees
      → List State
      → State
      → Option (MotionTree trees × List State)
  star_round o k goal t candidates nearest =
      let new = w.steer k nearest (w.sample_uniform k) in
      if w.check_path_validity nearest new.0
      then and_then (connect_best o t new.0 nearest new.1) (λ u.
        some (u, if check_goal ops w new.0 goal then candidates ++ new.0 ∷ [] else candidates))
      else some (t, candidates)

  unfoldable pub star_grow :
      Optimization Real
      → (count k : ℕ) → State
      → MotionTree trees
      → List State
      → Option (MotionTree trees × List State)
  star_grow o zero k goal t candidates = some (t, candidates)
  star_grow o (suc count) k goal t candidates =
      let next = star_grow o count (suc k) goal in
      if w.check_state_validity (w.sample_uniform k)
      then and_then
          (and_then (find_nearest ops w trees motions t (w.sample_uniform k))
            (star_round o k goal t candidates))
          (λ r. next r.0 r.1)
      else next t candidates

  abbrev total_cost : MotionTree trees → State → State → Real
  total_cost t goal c = add (cost t c) (w.evaluate_distance c goal)

  -- `candidate_map.begin()`: the least key, and of equal keys the one inserted first.
  unfoldable pub best_candidate : MotionTree trees → State → State → List State → State
  best_candidate t goal best [] = best
  best_candidate t goal best (c ∷ cs) =
      if lt (total_cost t goal c) (total_cost t goal best)
      then best_candidate t goal c cs
      else best_candidate t goal best cs

  -- The end of `Search`, from the candidates on.
  unfoldable pub finish :
      State → MotionTree trees → List State → Option (MotionTree trees × List State)
  finish goal t [] = some (t, [])
  finish goal t (c ∷ cs) =
      let best = best_candidate t goal c cs in
      let connected =
        connect_tree_nodes ops w trees motions t best goal (w.evaluate_distance best goal) in
      and_then (trace_back_to_root ops w trees connected.tree goal) (λ path. some (connected, path))

  -- `RRTStar::Search`
  unfoldable pub star_search :
      Optimization Real → State → State → ℤ → Option (MotionTree trees × List State)
  star_search o start goal iter =
      and_then
        (star_grow o (iter_num iter) 0 goal
          (add_tree_root_node ops w trees motions (new_motion_tree ops w trees motions) start) [])
        (λ r. finish goal r.0 r.1)
