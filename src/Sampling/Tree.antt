-- ===== src/Sampling/Tree.antt =====
-- src/planning/sampling/include/sampling/tree/basic_tree.hpp and base/planner_base.hpp. The graph library's
-- `Tree` is a parameter, with a state for each vertex; so are the space's distance and the functions
-- that the user sets. A null pointer is `none`.
pub mod Nearest
pub mod Trace
use robosw.Base.{
  ℕ, zero, suc, Bool, true, false, Option, none, some, List, [], ◌∷◌, ◌++◌, length, if◌then◌else◌,
}
use robosw.Base.Float.{RealOps}
use robosw.Base.Loops.{and_then}

-- `Tree<std::shared_ptr<StateType>, double>` of graph/tree.hpp.
pub record TreeOps (State Real : Type 0) : Type 1 where
  pub Tree : Type 0
  pub new_tree : Tree
  pub add_root : Tree → State → Tree
  pub add_edge : Tree → State → State → Real → Tree
  pub get_parent_vertex : Tree → State → Option State
  -- From `vertex_begin()` to `vertex_end()`.
  pub vertices : Tree → List State

-- What the planner is given: the space, the steering and the checks. The n-th sample and the n-th
-- call of the steering are functions of n, for they draw random numbers and make new states.
pub record Setting (State Real : Type 0) : Type 0 where
  pub evaluate_distance : State → State → Real
  pub sample_uniform : ℕ → State
  pub steer : ℕ → State → State → State × Real
  pub check_state_validity : State → Bool
  pub check_path_validity : State → State → Bool
  pub extend_step_size : Real
  -- `std::numeric_limits<double>::max()`
  pub max_distance : Real

-- `std::reverse`
unfoldable pub reverse : {A : Type 0} → List A → List A
reverse [] = []
reverse (x ∷ xs) = reverse xs ++ x ∷ []

module _ (ops : RealOps) {State : Type 0} (w : Setting State ops.Real) where
  -- `PlannerBase::CheckGoal`
  unfoldable pub check_goal : State → State → Bool
  check_goal state goal = ops.leb (w.evaluate_distance state goal) w.extend_step_size

module _ (ops : RealOps) {State : Type 0} (w : Setting State ops.Real)
    (trees : TreeOps State ops.Real) where
  -- The loop of `BasicTree::FindNearest`, with the least distance so far.
  unfoldable pub scan_nearest : State → List State → ops.Real → Option State → Option State
  scan_nearest state [] min_dist min_state = min_state
  scan_nearest state (v ∷ vs) min_dist min_state =
      let dist = w.evaluate_distance state v in
      if ops.lt dist min_dist
      then scan_nearest state vs dist (some v)
      else scan_nearest state vs min_dist min_state

  unfoldable pub find_nearest : trees.Tree → State → Option State
  find_nearest tree state = scan_nearest state (trees.vertices tree) w.max_distance none

  -- The loop of `BasicTree::TraceBackToRoot`: the states from a vertex up to the root. `none` is a
  -- loop that has not ended.
  unfoldable pub trace_up : (fuel : ℕ) → trees.Tree → Option State → Option (List State)
  trace_up fuel tree none = some []
  trace_up zero tree (some v) = none
  trace_up (suc fuel) tree (some v) =
      and_then (trace_up fuel tree (trees.get_parent_vertex tree v)) (λ vs. some (v ∷ vs))

  -- The path is reversed; a round for each vertex is enough.
  unfoldable pub trace_back_to_root : trees.Tree → State → Option (List State)
  trace_back_to_root tree state =
      and_then (trace_up (length (trees.vertices tree)) tree (some state)) (λ ps. some (reverse ps))
