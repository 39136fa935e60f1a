-- ===== src/Sampling/Rrg.antt =====
-- src/planning/sampling/include/sampling/rrg.hpp and tree/kd_graph.hpp: RRG. The graph library with its search and
-- the k-d tree are parameters; the drawing is left out.
pub mod Near
use robosw.Base.{
  ℕ, zero, suc, ◌==◌, Bool, true, false, Option, none, some, List, [], ◌∷◌, ◌++◌, length,
  if◌then◌else◌,
}
use robosw.Base.Int.{ℤ, pos}
use robosw.Base.Float.{RealOps}
use robosw.Base.Loops.{and_then}
use robosw.Sampling.Tree.{Setting, check_goal}
use robosw.Sampling.Rrt.{iter_num}
use robosw.Sampling.RrtStar.{Optimization, radius_of}

-- `Graph<std::shared_ptr<StateType>, double>`, `Dijkstra::Search`, and the k-d tree of `spatial`.
pub record GraphOps (State Real : Type 0) : Type 1 where
  pub Graph : Type 0
  pub id : State → ℕ
  pub new_graph : Graph
  pub add_vertex : Graph → State → Graph
  -- `FindVertex(state) != vertex_end()`
  pub has_vertex : Graph → State → Bool
  pub get_total_vertex_number : Graph → ℕ
  pub add_undirected_edge : Graph → State → State → Real → Graph
  pub remove_undirected_edge : Graph → State → State → Graph
  pub dijkstra : Graph → State → State → List State
  pub neighbors : List State → State → List State

pub record KdGraph {State Real : Type 0} (graphs : GraphOps State Real) : Type 0 where
  pub graph : graphs.Graph
  pub kdtree : List State

module _ (ops : RealOps) {State : Type 0} (w : Setting State ops.Real)
    (graphs : GraphOps State ops.Real) where
  unfoldable pub new_kd_graph : KdGraph graphs
  new_kd_graph = record { graph = graphs.new_graph; kdtree = [] }

  unfoldable pub add_root_node : KdGraph graphs → State → KdGraph graphs
  add_root_node g s = record { graph = graphs.add_vertex g.graph s; kdtree = s ∷ g.kdtree }

  -- `if (FindVertex(state) == vertex_end()) kdtree_.insert(state);`
  unfoldable pub insert_new : graphs.Graph → State → List State → List State
  insert_new graph s points = if graphs.has_vertex graph s then points else s ∷ points

  unfoldable pub connect_nodes : KdGraph graphs → State → State → ops.Real → KdGraph graphs
  connect_nodes g s d dist = record {
    graph = graphs.add_undirected_edge g.graph s d dist;
    kdtree = insert_new g.graph d (insert_new g.graph s g.kdtree);
  }

  unfoldable pub disconnect_nodes : KdGraph graphs → State → State → KdGraph graphs
  disconnect_nodes g s d = record g { graph = graphs.remove_undirected_edge g.graph s d }

  unfoldable pub head_of : List State → Option State
  head_of [] = none
  head_of (s ∷ ss) = some s

  unfoldable pub find_nearest : KdGraph graphs → State → Option State
  find_nearest g state = head_of (graphs.neighbors g.kdtree state)

  unfoldable pub near_points : State → ops.Real → List State → List State
  near_points state radius [] = []
  near_points state radius (s ∷ ss) =
      let rest = near_points state radius ss in
      if ops.leb (w.evaluate_distance state s) radius then s ∷ rest else []

  unfoldable pub find_near : KdGraph graphs → State → ops.Real → List State
  find_near g state radius = near_points state radius (graphs.neighbors g.kdtree state)

  -- The loop over the near states; the leg that is checked is the one from `nearest`.
  unfoldable pub connect_near : State → State → List State → KdGraph graphs → KdGraph graphs
  connect_near nearest new_state [] g = g
  connect_near nearest new_state (s ∷ ss) g =
      let connected = connect_nodes g s new_state (w.evaluate_distance s new_state) in
      if graphs.id s == graphs.id nearest
      then connect_near nearest new_state ss g
      else (if w.check_path_validity nearest new_state
          then connect_near nearest new_state ss connected
          else connect_near nearest new_state ss g)

  -- A round with a valid sample: the graph, and whether the goal was connected.
  unfoldable pub graph_round :
      Optimization ops.Real → ℕ → State → KdGraph graphs → Bool → State → KdGraph graphs × Bool
  graph_round o k goal g reached nearest =
      let new = w.steer k nearest (w.sample_uniform k) in
      let connected = connect_nodes g nearest new.0 new.1 in
      let radius = radius_of ops w o (graphs.get_total_vertex_number connected.graph) in
      let grown = connect_near nearest new.0 (find_near connected new.0 radius) connected in
      if w.check_path_validity nearest new.0
      then (if check_goal ops w new.0 goal
          then (connect_nodes grown new.0 goal (w.evaluate_distance new.0 goal), true)
          else (grown, reached))
      else (g, reached)

  unfoldable pub graph_grow :
      Optimization ops.Real
      → (count k : ℕ) → State
      → KdGraph graphs
      → Bool
      → Option (KdGraph graphs × Bool)
  graph_grow o zero k goal g reached = some (g, reached)
  graph_grow o (suc count) k goal g reached =
      let next = graph_grow o count (suc k) goal in
      if w.check_state_validity (w.sample_uniform k)
      then and_then (find_nearest g (w.sample_uniform k))
          (λ nearest. let r = graph_round o k goal g reached nearest in next r.0 r.1)
      else next g reached

  -- `RRG::Search`
  unfoldable pub graph_search :
      Optimization ops.Real → State → State → ℤ → Option (KdGraph graphs × List State)
  graph_search o start goal iter =
      and_then (graph_grow o (iter_num iter) 0 goal (add_root_node new_kd_graph start) false)
        (λ r. some (r.0, if r.1 then graphs.dijkstra r.0.graph start goal else []))
