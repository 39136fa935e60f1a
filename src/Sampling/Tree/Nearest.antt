-- ===== src/Sampling/Tree/Nearest.antt =====
-- What `FindNearest` returns.
use robosw.Base.{
  Bool, true, false, none, some, List, [], ◌∷◌, ◌≡◌, ◌⊎◌, inl, inr, refl, ap, sym, subst, ◌∙◌,
  Bool-cases, arith,
}
use robosw.Base.Float.{RealOps}
use robosw.Sampling.Tree.{TreeOps, Setting, scan_nearest, find_nearest}

abbrev pub In : {A : Type 0} → A → List A → Type 0
In a [] = ⊥
In a (x ∷ xs) = (a ≡ x) ⊎ In a xs

-- What is needed of `<` on the distances, none of which is NaN or infinite.
pub record DistanceLaws (ops : RealOps) {State : Type 0} (w : Setting State ops.Real) : Type 0 where
  pub irreflexive : (a : ops.Real) → ops.lt a a ≡ false
  pub transitive : (a b c : ops.Real) → ops.lt a b ≡ true → ops.lt b c ≡ true → ops.lt a c ≡ true
  pub finite : (a b : State) → ops.lt (w.evaluate_distance a b) w.max_distance ≡ true

module _ (ops : RealOps) {State : Type 0} (w : Setting State ops.Real)
    (trees : TreeOps State ops.Real) (laws : DistanceLaws ops w) where
  abbrev near : State → State → State → Bool
  near state a b = ops.lt (w.evaluate_distance state a) (w.evaluate_distance state b)

  not_below : (s a b c : State) → near s a b ≡ false → near s c b ≡ true → near s a c ≡ false
  not_below s a b c h l = elim (Bool-cases (near s a c)) [
    | inl e ↦ absurd (contrary (sym (laws.transitive _ _ _ e l) ∙ h))
    | inr e ↦ e
  ]
    where
      contrary : true ≡ false → ⊥
      contrary e = ground arith

  -- The scan ends with the nearest so far, or with a nearer vertex of the rest.
  abbrev Scanned : State → State → List State → State → Type 0
  Scanned s m vs n =
      ((n ≡ m) ⊎ (In n vs × (near s n m ≡ true))) × ((v : State) → In v vs → near s v n ≡ false)

  closer :
      (s x m : State) (vs : List State) (n : State)
      → near s x m ≡ true
      → Scanned s x vs n
      → Scanned s m (x ∷ vs) n
  closer s x m vs n e (inl same, others) =
      (inr (inl same, subst (λ k. near s k m ≡ true) (sym same) e), λ v i. either v i)
    where
      either : (v : State) → In v (x ∷ vs) → near s v n ≡ false
      either v (inl here) =
          subst (λ k. near s k n ≡ false) (sym here)
            (subst (λ k. near s x k ≡ false) (sym same) (laws.irreflexive _))
      either v (inr i) = others v i
  closer s x m vs n e (inr (there, below), others) =
      (inr (inr there, laws.transitive _ _ _ below e), λ v i. either v i)
    where
      either : (v : State) → In v (x ∷ vs) → near s v n ≡ false
      either v (inl here) =
          subst (λ k. near s k n ≡ false) (sym here) (not_below s x x n (laws.irreflexive _) below)
      either v (inr i) = others v i

  further :
      (s x m : State) (vs : List State) (n : State)
      → near s x m ≡ false
      → Scanned s m vs n
      → Scanned s m (x ∷ vs) n
  further s x m vs n e (inl same, others) = (inl same, λ v i. either v i)
    where
      either : (v : State) → In v (x ∷ vs) → near s v n ≡ false
      either v (inl here) =
          subst (λ k. near s k n ≡ false) (sym here) (subst (λ k. near s x k ≡ false) (sym same) e)
      either v (inr i) = others v i
  further s x m vs n e (inr (there, below), others) = (inr (inr there, below), λ v i. either v i)
    where
      either : (v : State) → In v (x ∷ vs) → near s v n ≡ false
      either v (inl here) = subst (λ k. near s k n ≡ false) (sym here) (not_below s x m n e below)
      either v (inr i) = others v i

  scan-Scanned :
      (s m : State) (vs : List State)
      → (n : State) × (scan_nearest ops w trees s vs (w.evaluate_distance s m) (some m) ≡ some n)
        × Scanned s m vs n
  unfolding scan_nearest
  scan-Scanned s m [] = (m, refl, (inl refl, λ v i. absurd i))
  scan-Scanned s m (x ∷ vs) = elim (Bool-cases (near s x m)) [
    | inl e ↦ let r = scan-Scanned s x vs in (r.0, rw e r.1, closer s x m vs r.0 e r.2)
    | inr e ↦ let r = scan-Scanned s m vs in (r.0, rw e r.1, further s x m vs r.0 e r.2)
  ]

  -- In a tree that is not empty, `FindNearest` returns a vertex, and no vertex is nearer to the state.
  pub find_nearest-least :
      (tree : trees.Tree) (state v : State) (vs : List State)
      → trees.vertices tree ≡ v ∷ vs
      → (n : State) × (find_nearest ops w trees tree state ≡ some n)
        × In n (trees.vertices tree)
        × ((u : State)
            → In u (trees.vertices tree)
            → ops.lt (w.evaluate_distance state u) (w.evaluate_distance state n) ≡ false)
  unfolding find_nearest scan_nearest
  find_nearest-least tree state v vs e =
      let r = scan-Scanned state v vs in
      (
        r.0,
        ap (λ l. scan_nearest ops w trees state l w.max_distance none) e
            ∙ rw (laws.finite state v) r.1,
        subst (λ l. In r.0 l) (sym e) (member v vs r.0 r.2.0),
        λ u i. least v vs r.0 r.2.0 r.2.1 u (subst (λ l. In u l) e i),
      )
    where
      member :
          (v : State) (vs : List State) (n : State)
          → (n ≡ v) ⊎ (In n vs × (near state n v ≡ true))
          → In n (v ∷ vs)
      member v vs n (inl same) = inl same
      member v vs n (inr there) = inr there.0

      least :
          (v : State) (vs : List State) (n : State)
          → (n ≡ v) ⊎ (In n vs × (near state n v ≡ true))
          → ((u : State) → In u vs → near state u n ≡ false)
          → (u : State) → In u (v ∷ vs)
          → near state u n ≡ false
      least v vs n (inl same) others u (inl here) =
          subst (λ k. near state k n ≡ false) (sym here)
            (subst (λ k. near state v k ≡ false) (sym same) (laws.irreflexive _))
      least v vs n (inr there) others u (inl here) =
          subst (λ k. near state k n ≡ false) (sym here)
            (not_below state v v n (laws.irreflexive _) there.1)
      least v vs n c others u (inr i) = others u i
