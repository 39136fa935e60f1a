-- ===== src/Base/Sweep.antt =====
-- Two nested loops that deal with every cell of a rectangle once.
use robosw.Base.{
  ℕ, suc, ◌+◌, ◌≤◌, ◌<◌, ◌≡◌, ◌≢◌, ◌⊎◌, inl, inr, subst, sym, refl, ◌∙◌, Option, some, arith,
  Bool-cases, ◌==◌,
}
use robosw.Base.Loops.{for_each, for_each-invariant}

pub same : (a b : ℕ) → (a ≡ b) ⊎ (a ≢ b)
same a b = elim (Bool-cases (a == b)) [ inl e ↦ inl (ground arith) | inr e ↦ inr (ground arith) ]

-- `at s a b` is what the state has at (a, b).
module _ {S V : Type 0} (at : S → ℕ → ℕ → V) (Ok : S → Type 0) (m n : ℕ) (old new : ℕ → ℕ → V)
    (body : ℕ → ℕ → S → Option S) where
  -- A round changes the cell it is at, from `old` to `new`, and no other.
  abbrev pub Round : Type 0
  Round =
      (a b : ℕ) (s : S)
      → a < m
      → b < n
      → Ok s
      → at s a b ≡ old a b
      → (t : S) × (body a b s ≡ some t)
        × Ok t
        × (at t a b ≡ new a b)
        × ((i j : ℕ) → i < m → j < n → (a ≢ i) ⊎ (b ≢ j) → at t i j ≡ at s i j)

  -- The cells before (a, b) are done, the others are as they were.
  abbrev Progress : ℕ → ℕ → S → Type 0
  Progress a b s =
      Ok s
      × ((i j : ℕ) → i < m → j < n → (i < a) ⊎ ((i ≡ a) × (j < b)) → at s i j ≡ new i j)
      × ((i j : ℕ) → i < m → j < n → (a < i) ⊎ ((i ≡ a) × (b ≤ j)) → at s i j ≡ old i j)

  differ : (a b i j : ℕ) → (i < a) ⊎ ((i ≡ a) × (j < b)) → (a ≢ i) ⊎ (b ≢ j)
  differ a b i j (inl h) = inl (λ e. omega arith)
  differ a b i j (inr h) = inr (λ e. omega (arith, h.1))

  differ_after : (a b i j : ℕ) → (a < i) ⊎ ((i ≡ a) × (suc b ≤ j)) → (a ≢ i) ⊎ (b ≢ j)
  differ_after a b i j (inl h) = inl (λ e. omega arith)
  differ_after a b i j (inr h) = inr (λ e. omega (arith, h.1))

  weaken : (a b i j : ℕ) → (a < i) ⊎ ((i ≡ a) × (suc b ≤ j)) → (a < i) ⊎ ((i ≡ a) × (b ≤ j))
  weaken a b i j (inl h) = inl h
  weaken a b i j (inr h) = inr (h.0, omega (arith, h.1))

  -- One more column is this cell, or an earlier one.
  earlier :
      (a b i j : ℕ)
      → (i < a) ⊎ ((i ≡ a) × (j < suc b))
      → ((i < a) ⊎ ((i ≡ a) × (j < b))) ⊎ ((i ≡ a) × (j ≡ b))
  earlier a b i j (inl h) = inl (inl h)
  earlier a b i j (inr h) = elim (same j b) [
    | inl e ↦ inr (h.0, e)
    | inr e ↦ inl (inr (h.0, ground (arith, h.1)))
  ]

  advance :
      (round : Round) (a b : ℕ) (s : S)
      → a < m
      → b < n
      → Progress a b s
      → (t : S) × (body a b s ≡ some t) × Progress a (suc b) t
  advance round a b s ha hb p =
      let r = round a b s ha hb p.0 (p.2 a b ha hb (inr (refl, omega arith))) in
      (
        r.0,
        r.1,
        (
          r.2,
          λ i j hi hj h. elim (earlier a b i j h) [
            | inl before ↦ r.4 i j hi hj (differ a b i j before) ∙ p.1 i j hi hj before
            | inr here ↦
                subst (λ k. at r.0 k j ≡ new k j) (sym here.0)
                  (subst (λ k. at r.0 a k ≡ new a k) (sym here.1) r.3)
          ],
          λ i j hi hj h. r.4 i j hi hj (differ_after a b i j h) ∙ p.2 i j hi hj (weaken a b i j h),
        ),
      )

  finish_row : (a : ℕ) (s : S) → Progress a n s → Progress (suc a) 0 s
  finish_row a s p = (
    p.0,
    λ i j hi hj h. p.1 i j hi hj (before i j hj h),
    λ i j hi hj h. p.2 i j hi hj (inl (after i j h)),
  )
    where
      before :
          (i j : ℕ) → j < n → (i < suc a) ⊎ ((i ≡ suc a) × (j < 0)) → (i < a) ⊎ ((i ≡ a) × (j < n))
      before i j hj (inl h) = elim (same i a) [ inl e ↦ inr (e, hj) | inr e ↦ inl (ground arith) ]
      before i j hj (inr h) = absurd (omega (arith, h.1))

      after : (i j : ℕ) → (suc a < i) ⊎ ((i ≡ suc a) × (0 ≤ j)) → a < i
      after i j (inl h) = omega arith
      after i j (inr h) = omega (arith, h.0)

  -- The loops end, and every cell is done.
  pub sweep :
      (round : Round) (s : S)
      → Ok s
      → ((i j : ℕ) → i < m → j < n → at s i j ≡ old i j)
      → (t : S) × (for_each m 0 (λ a. for_each n 0 (body a)) s ≡ some t)
        × Ok t
        × ((i j : ℕ) → i < m → j < n → at t i j ≡ new i j)
  sweep round s ok start =
      let rows =
        for_each-invariant (λ a. Progress a 0) (λ a. for_each n 0 (body a)) m 0 row s
          (ok, λ i j hi hj h. absurd (nothing i j h), λ i j hi hj h. start i j hi hj) in
      (rows.0, rows.1, rows.2.0, λ i j hi hj. rows.2.1 i j hi hj (inl (omega arith)))
    where
      nothing : (i j : ℕ) → (i < 0) ⊎ ((i ≡ 0) × (j < 0)) → ⊥
      nothing i j (inl h) = omega arith
      nothing i j (inr h) = omega (arith, h.1)

      row :
          (a : ℕ) (u : S)
          → 0 ≤ a
          → a < 0 + m
          → Progress a 0 u
          → (t : S) × (for_each n 0 (body a) u ≡ some t) × Progress (suc a) 0 t
      row a u lo hi p =
          let inner =
            for_each-invariant (Progress a) (body a) n 0
              (λ b v blo bhi q. advance round a b v (omega arith) (omega arith) q) u p in
          (
            inner.0,
            inner.1,
            finish_row a inner.0 (subst (λ k. Progress a k inner.0) (omega arith) inner.2),
          )
