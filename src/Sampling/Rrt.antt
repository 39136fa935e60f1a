-- ===== src/Sampling/Rrt.antt =====
-- src/planning/sampling/include/sampling/rrt.hpp: RRT. The drawing of the tree is left out.
pub mod Grow
use robosw.Base.{ℕ, zero, suc, Bool, true, false, Option, none, some, List, [], if◌then◌else◌}
use robosw.Base.Int.{ℤ, pos, pos_part, ltb_ℤ}
use robosw.Base.Float.{RealOps}
use robosw.Base.Loops.{and_then}
use robosw.Sampling.Tree.{TreeOps, Setting, find_nearest, trace_back_to_root, check_goal}

-- `int32_t iter_num = 10000; if (iter > 0) iter_num = iter;`
unfoldable pub iter_num : ℤ → ℕ
iter_num iter = if ltb_ℤ (pos 0) iter then pos_part iter else 10000

module _ (ops : RealOps) {State : Type 0} (w : Setting State ops.Real)
    (trees : TreeOps State ops.Real) where
  -- The goal is near: it is connected, and the path read off.
  unfoldable pub reach_goal : trees.Tree → State → State → Option (trees.Tree × List State)
  reach_goal tree new_state goal =
      let connected = trees.add_edge tree new_state goal (w.evaluate_distance new_state goal) in
      and_then (trace_back_to_root ops w trees connected goal) (λ path. some (connected, path))

  -- A round whose sample is valid, with the nearest vertex; `rest` are the rounds after it.
  unfoldable pub extend :
      ℕ
      → trees.Tree
      → State
      → (trees.Tree → Option (trees.Tree × List State))
      → State
      → Option (trees.Tree × List State)
  extend k tree goal rest nearest =
      let new = w.steer k nearest (w.sample_uniform k) in
      let grown = trees.add_edge tree nearest new.0 new.1 in
      if w.check_path_validity nearest new.0
      then (if check_goal ops w new.0 goal then reach_goal grown new.0 goal else rest grown)
      else rest tree

  -- The rounds left and the number of this one. The path is empty when none was found.
  unfoldable pub grow : (count k : ℕ) → State → trees.Tree → Option (trees.Tree × List State)
  grow zero k goal tree = some (tree, [])
  grow (suc count) k goal tree =
      let rest = grow count (suc k) goal in
      if w.check_state_validity (w.sample_uniform k)
      then and_then (find_nearest ops w trees tree (w.sample_uniform k)) (extend k tree goal rest)
      else rest tree

  -- `RRT::Search`
  unfoldable pub search : State → State → ℤ → Option (trees.Tree × List State)
  search start goal iter = grow (iter_num iter) 0 goal (trees.add_root trees.new_tree start)
