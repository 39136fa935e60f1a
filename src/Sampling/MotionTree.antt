-- ===== src/Sampling/MotionTree.antt =====
-- src/planning/sampling/include/sampling/tree/kd_tree_motion.hpp: the tree of RRT*, with the cost of the way to
-- each vertex. The graph library's `Tree` and the k-d tree of the library `spatial` are parameters.
use robosw.Base.{ℕ, zero, suc, ◌==◌, Option, none, some, List, [], ◌∷◌, ◌++◌, length, if◌then◌else◌}
use robosw.Base.Int.{pos}
use robosw.Base.Float.{RealOps}
use robosw.Base.Loops.{and_then}
use robosw.Sampling.Tree.{TreeOps, Setting}

-- What the tree uses beside `TreeOps`, and `id_` of a state.
pub record MotionOps {State Real : Type 0} (trees : TreeOps State Real) : Type 0 where
  pub id : State → ℕ
  pub remove_edge : trees.Tree → State → State → trees.Tree
  -- The states of `FindVertex(state)->GetNeighbours()`.
  pub get_neighbours : trees.Tree → State → List State
  -- The points of a k-d tree from the nearest on, by `spatial::neighbor_begin`.
  pub neighbors : List State → State → List State

-- `g_cost_`, an `unordered_map<int64_t, double>`; the latest entry of an id comes first.
abbrev pub Costs : Type 0 → Type 0
Costs R = List (ℕ × R)

pub record MotionTree {State Real : Type 0} (trees : TreeOps State Real) : Type 0 where
  pub tree : trees.Tree
  pub kdtree : List State
  pub g_cost : Costs Real

module _ (ops : RealOps) where
  -- `g_cost_[id]`: an id that is not there gets 0.0.
  unfoldable pub cost_at : Costs ops.Real → ℕ → ops.Real
  cost_at [] id = ops.of_int (pos 0)
  cost_at (e ∷ es) id = let later = cost_at es id in if e.0 == id then e.1 else later

  module _ {State : Type 0} (w : Setting State ops.Real) (trees : TreeOps State ops.Real)
      (motions : MotionOps trees) where
    unfoldable pub new_motion_tree : MotionTree trees
    new_motion_tree = record { tree = trees.new_tree; kdtree = []; g_cost = [] }

    unfoldable pub add_tree_root_node : MotionTree trees → State → MotionTree trees
    add_tree_root_node t s = record {
      tree = trees.add_root t.tree s;
      kdtree = s ∷ t.kdtree;
      g_cost = (motions.id s, ops.of_int (pos 0)) ∷ t.g_cost;
    }

    unfoldable pub get_state_cost : MotionTree trees → State → ops.Real
    get_state_cost t s = cost_at t.g_cost (motions.id s)

    unfoldable pub set_state_cost : MotionTree trees → State → ops.Real → MotionTree trees
    set_state_cost t s x = record t { g_cost = (motions.id s, x) ∷ t.g_cost }

    unfoldable pub connect_tree_nodes :
        MotionTree trees → State → State → ops.Real → MotionTree trees
    connect_tree_nodes t s d dist = record {
      tree = trees.add_edge t.tree s d dist;
      kdtree = d ∷ s ∷ t.kdtree;
      g_cost = (motions.id d, ops.add (cost_at t.g_cost (motions.id s)) dist) ∷ t.g_cost;
    }

    unfoldable pub disconnect_tree_nodes : MotionTree trees → State → State → MotionTree trees
    disconnect_tree_nodes t s d = record t {
      tree = motions.remove_edge t.tree s d;
      g_cost = (motions.id d, w.max_distance) ∷ t.g_cost;
    }

    -- One level of the descendants: their costs drop, and their own children are the next level.
    unfoldable pub lower_costs : Costs ops.Real → ops.Real → List State → Costs ops.Real
    lower_costs costs cost_err [] = costs
    lower_costs costs cost_err (c ∷ cs) =
        lower_costs ((motions.id c, ops.sub (cost_at costs (motions.id c)) cost_err) ∷ costs)
          cost_err cs

    unfoldable pub children_of : trees.Tree → List State → List State
    children_of tree [] = []
    children_of tree (c ∷ cs) = motions.get_neighbours tree c ++ children_of tree cs

    -- `while (!children.empty())`; `none` is a loop that has not ended.
    unfoldable pub update_children :
        (fuel : ℕ) → trees.Tree → ops.Real → List State → Costs ops.Real → Option (Costs ops.Real)
    update_children fuel tree cost_err [] costs = some costs
    update_children zero tree cost_err (c ∷ cs) costs = none
    update_children (suc fuel) tree cost_err (c ∷ cs) costs =
        update_children fuel tree cost_err (children_of tree (c ∷ cs))
          (lower_costs costs cost_err (c ∷ cs))

    -- A level has at least one vertex, so there are no more levels than vertices.
    unfoldable pub reconnect_tree_nodes :
        MotionTree trees → State → State → ops.Real → Option (MotionTree trees)
    reconnect_tree_nodes t new_s d dist = and_then (trees.get_parent_vertex t.tree d) (λ s.
        let tree = trees.add_edge (motions.remove_edge t.tree s d) new_s d dist in
        let cost = ops.add (cost_at t.g_cost (motions.id new_s)) dist in
        let cost_err = ops.sub (cost_at t.g_cost (motions.id d)) cost in
        and_then
          (update_children (length (trees.vertices tree)) tree cost_err
            (motions.get_neighbours tree d) ((motions.id d, cost) ∷ t.g_cost))
          (λ costs. some (record t { tree = tree; g_cost = costs })))

    -- `*spatial::neighbor_begin(...)`; an empty tree has no nearest point.
    unfoldable pub first_of : List State → Option State
    first_of [] = none
    first_of (s ∷ ss) = some s

    unfoldable pub find_nearest : MotionTree trees → State → Option State
    find_nearest t state = first_of (motions.neighbors t.kdtree state)

    -- Points in the order of distance, until one is too far.
    unfoldable pub within : State → ops.Real → List State → List State
    within state radius [] = []
    within state radius (s ∷ ss) =
        let rest = within state radius ss in
        if ops.leb (w.evaluate_distance state s) radius then s ∷ rest else []

    unfoldable pub find_near : MotionTree trees → State → ops.Real → List State
    find_near t state radius = within state radius (motions.neighbors t.kdtree state)
