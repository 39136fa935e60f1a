-- ===== src/Decomp/SquareGrid/Blocks.antt =====
-- The search of a block for an element that passes a test.
use robosw.Base.{
  ℕ, zero, suc, ◌+◌, ◌<◌, ◌≡◌, ◌↔◌, ◌||◌, refl, ap, ◌∙◌, arith, Bool, true, false, Bool-cases, inl,
  inr,
}
use robosw.Decomp.SquareGrid.{column_occupied, block_occupied}

or_right : (x : Bool) {y : Bool} → y ≡ true → (x || y) ≡ true
or_right true p = refl
or_right false p = p

module _ (test : ℕ → ℕ → Bool) where
  -- An element that passes, in the columns from i on and the rows from j on.
  abbrev pub SomeSet : (i j width height : ℕ) → Type 0
  SomeSet i j width height =
      (a : ℕ) × (b : ℕ) × (a < width) × (b < height) × (test (j + b) (i + a) ≡ true)

  column_found :
      (count j i : ℕ)
      → column_occupied test count j i ≡ true
      → (b : ℕ) × (b < count) × (test (j + b) i ≡ true)
  unfolding column_occupied
  column_found zero j i h = absurd (ground arith)
  column_found (suc count) j i h = elim (Bool-cases (test j i)) [
    | inl e ↦ (0, omega arith, ap (λ k. test k i) (omega arith) ∙ e)
    | inr e ↦
        let r =
          column_found count (suc j) i
            (rw (← (ap (λ x. x || column_occupied test count (suc j) i) e)) h) in
        (suc r.0, omega (arith, r.1), ap (λ k. test k i) (omega arith) ∙ r.2)
  ]

  column_occupied-at :
      (count j i b : ℕ) → b < count → test (j + b) i ≡ true → column_occupied test count j i ≡ true
  unfolding column_occupied
  column_occupied-at zero j i b h e = absurd (omega arith)
  column_occupied-at (suc count) j i zero h e =
      ap (λ x. x || column_occupied test count (suc j) i) (ap (λ k. test k i) (omega arith) ∙ e)
  column_occupied-at (suc count) j i (suc b) h e =
      or_right (test j i)
        (column_occupied-at count (suc j) i b (omega arith) (ap (λ k. test k i) (omega arith) ∙ e))

  block_found :
      (side count i j : ℕ) → block_occupied test side count i j ≡ true → SomeSet i j count side
  unfolding block_occupied
  block_found side zero i j h = absurd (ground arith)
  block_found side (suc count) i j h = elim (Bool-cases (column_occupied test side j i)) [
    | inl e ↦
        let r = column_found side j i e in
        (0, r.0, omega arith, r.1, ap (λ k. test (j + r.0) k) (omega arith) ∙ r.2)
    | inr e ↦
        let r =
          block_found side count (suc i) j
            (rw (← (ap (λ x. x || block_occupied test side count (suc i) j) e)) h) in
        (suc r.0, r.1, omega (arith, r.2), r.3, ap (λ k. test (j + r.1) k) (omega arith) ∙ r.4)
  ]

  block_occupied-at :
      (side count i j a b : ℕ)
      → a < count
      → b < side
      → test (j + b) (i + a) ≡ true
      → block_occupied test side count i j ≡ true
  unfolding block_occupied
  block_occupied-at side zero i j a b ha hb e = absurd (omega arith)
  block_occupied-at side (suc count) i j zero b ha hb e =
      ap (λ x. x || block_occupied test side count (suc i) j)
        (column_occupied-at side j i b hb (ap (λ k. test (j + b) k) (omega arith) ∙ e))
  block_occupied-at side (suc count) i j (suc a) b ha hb e =
      or_right (column_occupied test side j i) (
        block_occupied-at side count (suc i) j a b (omega arith) hb
          (ap (λ k. test (j + b) k) (omega arith) ∙ e))

  -- The search finds an element exactly if there is one.
  pub block_occupied_iff :
      (side i j : ℕ) → (block_occupied test side side i j ≡ true) ↔ SomeSet i j side side
  block_occupied_iff side i j =
      (block_found side side i j, λ s. block_occupied-at side side i j s.0 s.1 s.2 s.3 s.4)
