-- ===== src/Tests/Planners.antt =====
-- The planners on a line, whose trees are lists of vertices with their parents.
use robosw.Base.{
  ℕ, ◌+◌, ◌-◌, min, ◌==◌, Bool, true, false, Bool-cases, Option, none, some, List, [], ◌∷◌, ◌++◌,
  map, length, length-append, ◌≡◌, ◌↔◌, ◌⊎◌, inl, inr, refl, ap, sym, subst, ◌∙◌, arith,
  if◌then◌else◌,
}
use robosw.Base.Int.{ℤ, pos, ltb_ℤ, eqb_ℤ, ◌+ℤ◌, ◌-ℤ◌}
use robosw.Base.Float.{RealOps}
use robosw.Tests.Motors.{mul_ℤ, div_ℤ}
use robosw.Sampling.Tree.{
  TreeOps, Setting, find_nearest, scan_nearest, check_goal, trace_back_to_root, trace_up, reverse,
}
use robosw.Sampling.Tree.Nearest.{In, DistanceLaws, find_nearest-least}
use robosw.Sampling.Tree.Trace.{TreeLaws}
use robosw.Sampling.Rrt.{search, grow, iter_num, extend, reach_goal}
use robosw.Sampling.Rrt.Grow.{SteerLaws, Result, search-Result}
use robosw.Sampling.MotionTree.{MotionOps, MotionTree, get_state_cost, cost_at}
use robosw.Sampling.Rrg.{GraphOps, KdGraph, connect_near}
use robosw.Sampling.Rrg.Near.{EdgeLaws, connect_near-unchecked}
use robosw.Sampling.RrtStar.{find_best_parent}
use robosw.Sampling.RrtStar.Parent.{
  CostLaws, combined, find_best_parent-kept, find_best_parent-cheapest,
}

abbrev leb_ℤ : ℤ → ℤ → Bool
leb_ℤ a b = if ltb_ℤ b a then false else true

-- Integers in place of `double`.
abbrev pub exact_reals : RealOps
exact_reals = record {
  Real = ℤ;
  of_int = λ z. z;
  add = ◌+ℤ◌;
  sub = ◌-ℤ◌;
  mul = mul_ℤ;
  div = div_ℤ;
  lt = ltb_ℤ;
  leb = leb_ℤ;
  eqb = eqb_ℤ;
  trunc = λ z. z;
}

-- A vertex and its parent, each.
abbrev Vertices : Type 0
Vertices = List (ℕ × Option ℕ)

abbrev parent_of : Vertices → ℕ → Option ℕ
parent_of [] v = none
parent_of (e ∷ es) v = if e.0 == v then e.1 else parent_of es v

abbrev list_trees : TreeOps ℕ ℤ
list_trees = record {
  Tree = Vertices;
  new_tree = [];
  add_root = λ t s. (s, none) ∷ [];
  add_edge = λ t s d x. t ++ (d, some s) ∷ [];
  get_parent_vertex = parent_of;
  vertices = map (λ e. e.0);
}

names-append :
    (t : Vertices) (d s : ℕ) → map (λ e. e.0) (t ++ (d, some s) ∷ []) ≡ map (λ e. e.0) t ++ d ∷ []
names-append [] d s = refl
names-append (e ∷ es) d s = ap (λ l. e.0 ∷ l) (names-append es d s)

parent_of-new :
    (t : Vertices) (d s : ℕ)
    → (In d (map (λ e. e.0) t) → ⊥)
    → parent_of (t ++ (d, some s) ∷ []) d ≡ some s
parent_of-new [] d s h = ground arith
parent_of-new (e ∷ es) d s h = elim (Bool-cases (e.0 == d)) [
  | inl same ↦ absurd (h (inl (ground arith)))
  | inr other ↦ rw other (parent_of-new es d s (λ i. h (inr i)))
]

parent_of-other :
    (t : Vertices) (d s v : ℕ)
    → In v (map (λ e. e.0) t)
    → parent_of (t ++ (d, some s) ∷ []) v ≡ parent_of t v
parent_of-other [] d s v i = absurd i
parent_of-other (e ∷ es) d s v (inl same) = rw same (ground arith)
parent_of-other (e ∷ es) d s v (inr i) =
    ap (λ p. if e.0 == v then e.1 else p) (parent_of-other es d s v i)

In-old : {A : Type 0} (v d : A) (vs : List A) → In v vs → In v (vs ++ d ∷ [])
In-old v d [] i = absurd i
In-old v d (x ∷ vs) (inl e) = inl e
In-old v d (x ∷ vs) (inr i) = inr (In-old v d vs i)

In-new : {A : Type 0} (d : A) (vs : List A) → In d (vs ++ d ∷ [])
In-new d [] = inl refl
In-new d (x ∷ vs) = inr (In-new d vs)

In-either : {A : Type 0} (v d : A) (vs : List A) → In v (vs ++ d ∷ []) → In v vs ⊎ (v ≡ d)
In-either v d [] (inl e) = inr e
In-either v d [] (inr i) = absurd i
In-either v d (x ∷ vs) (inl e) = inl (inl e)
In-either v d (x ∷ vs) (inr i) = elim (In-either v d vs i) [ inl j ↦ inl (inr j) | inr e ↦ inr e ]

names-both :
    (t : Vertices) (d s v : ℕ)
    → In v (map (λ e. e.0) (t ++ (d, some s) ∷ [])) ↔ (In v (map (λ e. e.0) t) ⊎ (v ≡ d))
names-both t d s v = (
  λ i. In-either v d (map (λ e. e.0) t) (subst (λ l. In v l) (names-append t d s) i),
  λ c. subst (λ l. In v l) (sym (names-append t d s)) (back c),
)
  where
    back : (In v (map (λ e. e.0) t) ⊎ (v ≡ d)) → In v (map (λ e. e.0) t ++ d ∷ [])
    back (inl i) = In-old v d (map (λ e. e.0) t) i
    back (inr e) =
        subst (λ k. In k (map (λ e. e.0) t ++ d ∷ [])) (sym e) (In-new d (map (λ e. e.0) t))

list_trees-TreeLaws : TreeLaws list_trees
list_trees-TreeLaws = record {
  root-vertices = λ s. refl;
  root-parent = λ s. ground arith;
  edge-vertices = λ t s d x i n v. names-both t d s v;
  edge-count =
      λ t s d x i n. ap length (names-append t d s) ∙ length-append (map (λ e. e.0) t) (d ∷ []);
  edge-parent = λ t s d x i n. parent_of-new t d s n;
  edge-other = λ t s d v x i n j. parent_of-other t d s v j;
}

-- Places on a line; far ones are all as far. The goal 1 is near the state 12 of the third round.
abbrev line : Setting ℕ ℤ
line = record {
  evaluate_distance = λ a b. pos (min 100 (a - b + (b - a)));
  sample_uniform = λ k. k + 20;
  steer = λ k a b. (k + 10, pos 5);
  check_state_validity = λ s. if s == 20 then false else true;
  check_path_validity = λ a b. if b == 11 then false else true;
  extend_step_size = pos 11;
  max_distance = pos 101;
}

line-DistanceLaws : DistanceLaws exact_reals line
line-DistanceLaws = record {
  irreflexive = λ a. ltb_irreflexive a;
  transitive = λ a b c p q. ltb_transitive a b c p q;
  finite = λ a b. ground arith;
}
  where
    ltb_irreflexive : (a : ℤ) → ltb_ℤ a a ≡ false
    ltb_irreflexive a = ground arith

    ltb_transitive : (a b c : ℤ) → ltb_ℤ a b ≡ true → ltb_ℤ b c ≡ true → ltb_ℤ a c ≡ true
    ltb_transitive a b c p q = ground arith

line-SteerLaws : SteerLaws line 0 1
line-SteerLaws = record {
  ends_differ = λ e. ground arith;
  not_start = λ k a e. ground arith;
  not_goal = λ k a e. ground arith;
  own = λ j k a c h e. ground arith;
}

search-Result_example :
    (r : Vertices × List ℕ) × (search exact_reals line list_trees 0 1 (pos 5) ≡ some r)
    × Result exact_reals line list_trees line-DistanceLaws list_trees-TreeLaws 0 1 line-SteerLaws
        r.0 r.1
search-Result_example =
    search-Result exact_reals line list_trees line-DistanceLaws list_trees-TreeLaws 0 1
      line-SteerLaws (pos 5)

-- The first sample is invalid, the leg of the second round too; the third reaches the goal.
search_path :
    search exact_reals line list_trees 0 1 (pos 5)
    ≡ some ((0, none) ∷ (12, some 0) ∷ (1, some 12) ∷ [], 0 ∷ 12 ∷ 1 ∷ [])
unfolding search grow iter_num find_nearest scan_nearest extend check_goal reach_goal
    trace_back_to_root trace_up reverse
search_path = refl

abbrev grown : Vertices
grown = (3, none) ∷ (9, some 3) ∷ (6, some 3) ∷ []

find_nearest-least_example :
    (n : ℕ) × (find_nearest exact_reals line list_trees grown 7 ≡ some n)
    × In n (list_trees.vertices grown)
    × ((u : ℕ)
        → In u (list_trees.vertices grown)
        → ltb_ℤ (line.evaluate_distance 7 u) (line.evaluate_distance 7 n) ≡ false)
find_nearest-least_example =
    find_nearest-least exact_reals line list_trees line-DistanceLaws grown 7 3 (9 ∷ 6 ∷ []) refl

abbrev motions : MotionOps list_trees
motions = record {
  id = λ v. v;
  remove_edge = λ t s d. t;
  get_neighbours = λ t s. [];
  neighbors = λ points s. points;
}

-- 3 is the root, 9 is reached by a detour.
abbrev detour : MotionTree list_trees
detour = record { tree = grown; kdtree = 3 ∷ 9 ∷ []; g_cost = (9, pos 30) ∷ (3, pos 0) ∷ [] }

detour_positive :
    (s : ℕ)
    → In s (9 ∷ 3 ∷ [])
    → ltb_ℤ (combined exact_reals line list_trees motions detour 8 s) (pos 0) ≡ false
unfolding get_state_cost cost_at
detour_positive s (inl e) = rw e refl
detour_positive s (inr (inl e)) = rw e refl
detour_positive s (inr (inr i)) = absurd i

-- The state 8 has no cost yet: it stays with 9, though 3 is the cheaper parent.
find_best_parent-kept_example :
    find_best_parent exact_reals line list_trees motions detour 8 (9 ∷ 3 ∷ []) 9 (pos 1)
    ≡ (9, pos 1)
find_best_parent-kept_example =
    find_best_parent-kept exact_reals line list_trees motions detour 8 (9 ∷ 3 ∷ []) 9 (pos 1)
      (refl, (refl, tt)) detour_positive

pub exact-CostLaws : CostLaws exact_reals
exact-CostLaws = record {
  irreflexive = line-DistanceLaws.irreflexive;
  transitive = line-DistanceLaws.transitive;
}

-- With a cost for 8, the cheaper parent is taken.
abbrev costed : MotionTree list_trees
costed = record {
  tree = grown;
  kdtree = 3 ∷ 9 ∷ [];
  g_cost = (8, pos 31) ∷ (9, pos 30) ∷ (3, pos 0) ∷ [];
}

find_best_parent-cheapest_example :
    (r : ℕ × ℤ) × (c : ℤ) × (find_best_parent exact_reals line list_trees motions costed 8
        (9 ∷ 3 ∷ [])
        9
        (pos 1)
      ≡ r)
    × (((r ≡ (9, pos 1)) × (c ≡ get_state_cost exact_reals line list_trees motions costed 8))
        ⊎ (In r.0 (9 ∷ 3 ∷ [])
            × (line.check_path_validity r.0 8 ≡ true)
            × (r.1 ≡ line.evaluate_distance r.0 8)
            × (c ≡ combined exact_reals line list_trees motions costed 8 r.0)
            × (ltb_ℤ c (get_state_cost exact_reals line list_trees motions costed 8) ≡ true)))
    × ((s : ℕ)
        → In s (9 ∷ 3 ∷ [])
        → line.check_path_validity s 8 ≡ true
        → ltb_ℤ (combined exact_reals line list_trees motions costed 8 s) c ≡ false)
find_best_parent-cheapest_example =
    find_best_parent-cheapest exact_reals line list_trees motions exact-CostLaws costed 8
      (9 ∷ 3 ∷ []) 9 (pos 1)

-- A graph is the list of its edges.
abbrev edge_lists : GraphOps ℕ ℤ
edge_lists = record {
  Graph = List (ℕ × ℕ);
  id = λ v. v;
  new_graph = [];
  add_vertex = λ g s. g;
  has_vertex = λ g s. false;
  get_total_vertex_number = λ g. 1;
  add_undirected_edge = λ g s d x. (s, d) ∷ g;
  remove_undirected_edge = λ g s d. g;
  dijkstra = λ g s d. [];
  neighbors = λ points s. points;
}

-- No leg from 9 is valid, and 9 is connected.
abbrev guarded : Setting ℕ ℤ
guarded = record line { check_path_validity = λ a b. if a == 9 then false else true }

abbrev no_edges : KdGraph edge_lists
no_edges = record { graph = []; kdtree = [] }

abbrev IsEdge : List (ℕ × ℕ) → ℕ → ℕ → Type 0
IsEdge g a b = In (a, b) g

edge_lists-EdgeLaws : EdgeLaws edge_lists IsEdge
edge_lists-EdgeLaws = record { added = λ g s d x. inl refl; kept = λ g s d a b x e. inr e }

connect_near-unchecked_example :
    let after = connect_near exact_reals guarded edge_lists 6 12 (9 ∷ 6 ∷ []) no_edges in
    (guarded.check_path_validity 6 12 ≡ true
      → (u : ℕ) → In u (9 ∷ 6 ∷ [])
      → (u == 6) ≡ false
      → IsEdge after.graph u 12)
    × ((a b : ℕ) → IsEdge no_edges.graph a b → IsEdge after.graph a b)
    × (guarded.check_path_validity 6 12 ≡ false → after ≡ no_edges)
connect_near-unchecked_example =
    connect_near-unchecked exact_reals guarded edge_lists IsEdge edge_lists-EdgeLaws 6 12
      (9 ∷ 6 ∷ []) no_edges
