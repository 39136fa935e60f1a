-- ===== src/Sampling/Tree/Trace.antt =====
-- The path that `TraceBackToRoot` reads off a tree.
use robosw.Base.{
  ℕ, zero, suc, ◌+◌, ◌≤◌, Bool, true, none, some, List, [], ◌∷◌, ◌++◌, length, ◌≡◌, ◌↔◌, ◌⊎◌, inl,
  inr, refl, ap, sym, subst, ◌∙◌, arith,
}
use robosw.Base.Float.{RealOps}
use robosw.Base.Loops.{and_then}
use robosw.Sampling.Tree.{TreeOps, Setting, trace_up, trace_back_to_root, reverse}
use robosw.Sampling.Tree.Nearest.{In}

-- What the graph library documents of its trees: a root has no parent, a vertex that is new gets the
-- parent of its edge, and nothing else changes. The order of the vertices is open.
pub record TreeLaws {State Real : Type 0} (trees : TreeOps State Real) : Type 0 where
  pub root-vertices : (s : State) → trees.vertices (trees.add_root trees.new_tree s) ≡ s ∷ []
  pub root-parent : (s : State) → trees.get_parent_vertex (trees.add_root trees.new_tree s) s ≡ none
  pub edge-vertices :
      (t : trees.Tree) (s d : State) (x : Real)
      → In s (trees.vertices t)
      → (In d (trees.vertices t) → ⊥)
      → (v : State)
      → In v (trees.vertices (trees.add_edge t s d x)) ↔ (In v (trees.vertices t) ⊎ (v ≡ d))
  pub edge-count :
      (t : trees.Tree) (s d : State) (x : Real)
      → In s (trees.vertices t)
      → (In d (trees.vertices t) → ⊥)
      → length (trees.vertices (trees.add_edge t s d x)) ≡ length (trees.vertices t) + 1
  pub edge-parent :
      (t : trees.Tree) (s d : State) (x : Real)
      → In s (trees.vertices t)
      → (In d (trees.vertices t) → ⊥)
      → trees.get_parent_vertex (trees.add_edge t s d x) d ≡ some s
  pub edge-other :
      (t : trees.Tree) (s d v : State) (x : Real)
      → In s (trees.vertices t)
      → (In d (trees.vertices t) → ⊥)
      → In v (trees.vertices t)
      → trees.get_parent_vertex (trees.add_edge t s d x) v ≡ trees.get_parent_vertex t v

-- A path from a to b along valid legs.
abbrev pub Leads : {State : Type 0} → (State → State → Bool) → State → State → List State → Type 0
Leads valid a b [] = ⊥
Leads valid a b (x ∷ []) = (a ≡ x) × (b ≡ x)
Leads valid a b (x ∷ y ∷ r) = (a ≡ x) × (valid x y ≡ true) × Leads valid y b (y ∷ r)

pub Leads-snoc :
    {State : Type 0} (valid : State → State → Bool) (a b c : State) (p : List State)
    → Leads valid a b p
    → valid b c ≡ true
    → Leads valid a c (p ++ c ∷ [])
Leads-snoc valid a b c [] l v = absurd l
Leads-snoc valid a b c (x ∷ []) l v = (l.0, subst (λ k. valid k c ≡ true) l.1 v, (refl, refl))
Leads-snoc valid a b c (x ∷ y ∷ r) l v = (l.0, l.1, Leads-snoc valid y b c (y ∷ r) l.2 v)

module _ (ops : RealOps) {State : Type 0} (w : Setting State ops.Real)
    (trees : TreeOps State ops.Real) where
  -- The vertices from v up to the root, each the parent of the one before.
  abbrev pub Chain : trees.Tree → State → List State → Type 0
  Chain t v [] = ⊥
  Chain t v (x ∷ []) = (v ≡ x) × (trees.get_parent_vertex t x ≡ none) × In x (trees.vertices t)
  Chain t v (x ∷ y ∷ r) =
      (v ≡ x) × (trees.get_parent_vertex t x ≡ some y) × In x (trees.vertices t) × Chain t y (y ∷ r)

  pub trace_up-Chain :
      (t : trees.Tree) (v : State) (up : List State) (fuel : ℕ)
      → Chain t v up
      → length up ≤ fuel
      → trace_up ops w trees fuel t (some v) ≡ some up
  unfolding trace_up
  trace_up-Chain t v [] fuel c h = absurd c
  trace_up-Chain t v (x ∷ []) zero c h = absurd (omega arith)
  trace_up-Chain t v (x ∷ []) (suc fuel) c h = rw (c.0, c.1) refl
  trace_up-Chain t v (x ∷ y ∷ r) zero c h = absurd (omega arith)
  trace_up-Chain t v (x ∷ y ∷ r) (suc fuel) c h =
      rw (c.0, c.1, trace_up-Chain t y (y ∷ r) fuel c.3 (omega arith)) refl

  pub Chain-cons :
      (t : trees.Tree) (v u : State) (up : List State)
      → Chain t u up
      → trees.get_parent_vertex t v ≡ some u
      → In v (trees.vertices t)
      → Chain t v (v ∷ up)
  Chain-cons t v u [] c e i = absurd c
  Chain-cons t v u (x ∷ []) c e i = (refl, e ∙ ap some c.0, i, (refl, c.1, c.2))
  Chain-cons t v u (x ∷ y ∷ r) c e i = (refl, e ∙ ap some c.0, i, (refl, c.1, c.2, c.3))

  -- An edge to a new vertex leaves the chains that there are.
  module _ (laws : TreeLaws trees) (t : trees.Tree) (s d : State) (x : ops.Real)
      (s_in : In s (trees.vertices t)) (d_new : In d (trees.vertices t) → ⊥) where
    abbrev grown : trees.Tree
    grown = trees.add_edge t s d x

    pub In-grown : (v : State) → In v (trees.vertices t) → In v (trees.vertices grown)
    In-grown v i = (laws.edge-vertices t s d x s_in d_new v).1 (inl i)

    pub In-added : In d (trees.vertices grown)
    In-added = (laws.edge-vertices t s d x s_in d_new d).1 (inr refl)

    pub Chain-grown : (v : State) (up : List State) → Chain t v up → Chain grown v up
    Chain-grown v [] c = absurd c
    Chain-grown v (y ∷ []) c = (c.0, laws.edge-other t s d y x s_in d_new c.2 ∙ c.1, In-grown y c.2)
    Chain-grown v (y ∷ z ∷ r) c = (
      c.0,
      laws.edge-other t s d y x s_in d_new c.2 ∙ c.1,
      In-grown y c.2,
      Chain-grown z (z ∷ r) c.3,
    )

    pub length-grown : length (trees.vertices grown) ≡ length (trees.vertices t) + 1
    length-grown = laws.edge-count t s d x s_in d_new

  -- A vertex that a path of valid legs leads to, which the tree holds the way back of.
  abbrev pub Known : trees.Tree → State → State → Type 0
  Known t start v =
      (up : List State) × Chain t v up
      × (length up ≤ length (trees.vertices t))
      × Leads w.check_path_validity start v (reverse up)

  pub Known-grown :
      (laws : TreeLaws trees) (t : trees.Tree) (start s d v : State) (x : ops.Real)
      → In s (trees.vertices t)
      → (In d (trees.vertices t) → ⊥)
      → Known t start v
      → Known (trees.add_edge t s d x) start v
  Known-grown laws t start s d v x s_in d_new k = (
    k.0,
    Chain-grown laws t s d x s_in d_new v k.0 k.1,
    omega (arith, k.2, length-grown laws t s d x s_in d_new),
    k.3,
  )

  pub Known-new :
      (laws : TreeLaws trees) (t : trees.Tree) (start s d : State) (x : ops.Real)
      → In s (trees.vertices t)
      → (In d (trees.vertices t) → ⊥)
      → w.check_path_validity s d ≡ true
      → Known t start s
      → Known (trees.add_edge t s d x) start d
  unfolding reverse
  Known-new laws t start s d x s_in d_new valid k = (
    d ∷ k.0,
    Chain-cons (trees.add_edge t s d x) d s k.0 (Chain-grown laws t s d x s_in d_new s k.0 k.1)
        (laws.edge-parent t s d x s_in d_new) (In-added laws t s d x s_in d_new),
    omega (arith, k.2, length-grown laws t s d x s_in d_new),
    Leads-snoc w.check_path_validity start s d (reverse k.0) k.3 valid,
  )

  -- The path to a vertex that is connected to a known one: the way there, and the vertex.
  pub trace_back_to_root-connected :
      (laws : TreeLaws trees) (t : trees.Tree) (start s d : State) (x : ops.Real)
      → In s (trees.vertices t)
      → (In d (trees.vertices t) → ⊥)
      → Known t start s
      → (route : List State) × (trace_back_to_root ops w trees (trees.add_edge t s d x) d
          ≡ some (route ++ d ∷ []))
        × Leads w.check_path_validity start s route
  unfolding trace_back_to_root reverse
  trace_back_to_root-connected laws t start s d x s_in d_new k = (
    reverse k.0,
    ap (λ o. and_then o (λ ps. some (reverse ps)))
        (trace_up-Chain (trees.add_edge t s d x) d (d ∷ k.0)
          (length (trees.vertices (trees.add_edge t s d x)))
          (Chain-cons (trees.add_edge t s d x) d s k.0
            (Chain-grown laws t s d x s_in d_new s k.0 k.1) (laws.edge-parent t s d x s_in d_new)
            (In-added laws t s d x s_in d_new))
          (omega (arith, k.2, length-grown laws t s d x s_in d_new))),
    k.3,
  )

  pub Known-root :
      (laws : TreeLaws trees) (start : State)
      → Known (trees.add_root trees.new_tree start) start start
  unfolding reverse
  Known-root laws start = (
    start ∷ [],
    (
      refl,
      laws.root-parent start,
      subst (λ l. In start l) (sym (laws.root-vertices start)) (inl refl),
    ),
    omega (arith, ap length (laws.root-vertices start)),
    (refl, refl),
  )
