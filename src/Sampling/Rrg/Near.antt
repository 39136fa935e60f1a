-- ===== src/Sampling/Rrg/Near.antt =====
-- The edges to the near states.
use robosw.Base.{◌==◌, true, false, Bool-cases, inl, inr, List, [], ◌∷◌, ◌≡◌, refl, subst, sym}
use robosw.Base.Float.{RealOps}
use robosw.Sampling.Tree.{Setting}
use robosw.Sampling.Tree.Nearest.{In}
use robosw.Sampling.Rrg.{GraphOps, KdGraph, connect_nodes, connect_near}

-- An edge that is added is there, and no edge is lost by it.
pub record EdgeLaws {State Real : Type 0} (graphs : GraphOps State Real)
    (Edge : graphs.Graph → State → State → Type 0) : Type 0 where
  pub added :
      (g : graphs.Graph) (s d : State) (x : Real) → Edge (graphs.add_undirected_edge g s d x) s d
  pub kept :
      (g : graphs.Graph) (s d a b : State) (x : Real)
      → Edge g a b
      → Edge (graphs.add_undirected_edge g s d x) a b

module _ (ops : RealOps) {State : Type 0} (w : Setting State ops.Real)
    (graphs : GraphOps State ops.Real) (Edge : graphs.Graph → State → State → Type 0)
    (laws : EdgeLaws graphs Edge) (nearest new_state : State) where
  abbrev grown : List State → KdGraph graphs → KdGraph graphs
  grown near g = connect_near ops w graphs nearest new_state near g

  abbrev joined : State → KdGraph graphs → KdGraph graphs
  joined s g = connect_nodes ops w graphs g s new_state (w.evaluate_distance s new_state)

  joined-Edge : (s : State) (g : KdGraph graphs) → Edge (joined s g).graph s new_state
  unfolding connect_nodes
  joined-Edge s g = laws.added g.graph s new_state (w.evaluate_distance s new_state)

  joined_keeps :
      (s a b : State) (g : KdGraph graphs) → Edge g.graph a b → Edge (joined s g).graph a b
  unfolding connect_nodes
  joined_keeps s a b g e = laws.kept g.graph s new_state a b (w.evaluate_distance s new_state) e

  grown_keeps :
      (near : List State) (a b : State) (g : KdGraph graphs)
      → Edge g.graph a b
      → Edge (grown near g).graph a b
  unfolding connect_near
  grown_keeps [] a b g e = e
  grown_keeps (s ∷ ss) a b g e = elim (Bool-cases (graphs.id s == graphs.id nearest)) [
    | inl same ↦ rw same (grown_keeps ss a b g e)
    | inr other ↦ elim (Bool-cases (w.check_path_validity nearest new_state)) [
      | inl v ↦ rw (other, v) (grown_keeps ss a b (joined s g) (joined_keeps s a b g e))
      | inr v ↦ rw (other, v) (grown_keeps ss a b g e)
    ]
  ]

  grown-Edge :
      (near : List State) (u : State) (g : KdGraph graphs)
      → w.check_path_validity nearest new_state ≡ true
      → In u near
      → (graphs.id u == graphs.id nearest) ≡ false
      → Edge (grown near g).graph u new_state
  unfolding connect_near
  grown-Edge [] u g v i d = absurd i
  grown-Edge (s ∷ ss) u g v (inl e) d =
      let other : (graphs.id s == graphs.id nearest) ≡ false =
        subst (λ k. (graphs.id k == graphs.id nearest) ≡ false) e d in
      rw (other, v)
        (grown_keeps ss u new_state (joined s g)
          (subst (λ k. Edge (joined s g).graph k new_state) (sym e) (joined-Edge s g)))
  grown-Edge (s ∷ ss) u g v (inr i) d = elim (Bool-cases (graphs.id s == graphs.id nearest)) [
    | inl same ↦ rw same (grown-Edge ss u g v i d)
    | inr other ↦ rw (other, v) (grown-Edge ss u (joined s g) v i d)
  ]

  grown_unchanged :
      (near : List State) (g : KdGraph graphs)
      → w.check_path_validity nearest new_state ≡ false
      → grown near g ≡ g
  unfolding connect_near
  grown_unchanged [] g v = refl
  grown_unchanged (s ∷ ss) g v = elim (Bool-cases (graphs.id s == graphs.id nearest)) [
    | inl same ↦ rw same (grown_unchanged ss g v)
    | inr other ↦ rw (other, v) (grown_unchanged ss g v)
  ]

  -- The loop over the near states asks only for the leg from the nearest one to the new one: if that is valid, each
  -- near state but the nearest ends up with an edge to the new state, also when its own leg is invalid, and
  -- no edge is lost; if it is not valid, nothing changes, also when other legs are valid.
  pub connect_near-unchecked :
      (near : List State) (g : KdGraph graphs)
      → (w.check_path_validity nearest new_state ≡ true
          → (u : State) → In u near
          → (graphs.id u == graphs.id nearest) ≡ false
          → Edge (connect_near ops w graphs nearest new_state near g).graph u new_state)
        × ((a b : State)
            → Edge g.graph a b
            → Edge (connect_near ops w graphs nearest new_state near g).graph a b)
        × (w.check_path_validity nearest new_state ≡ false
            → connect_near ops w graphs nearest new_state near g ≡ g)
  connect_near-unchecked near g = (
    λ v u i d. grown-Edge near u g v i d,
    λ a b e. grown_keeps near a b g e,
    λ v. grown_unchanged near g v,
  )
