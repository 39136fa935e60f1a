-- ===== src/Decomp/CurvilinearGrid/Rows.antt =====
-- Where the cells of a grid stand.
use robosw.Base.{
  ℕ, zero, suc, ◌+◌, ◌-◌, ◌*◌, ◌/◌, ◌%◌, ◌≤◌, ◌<◌, ◌==◌, ◌&&◌, ltb, not, ◌≡◌, refl, ap, ◌∙◌, arith,
  true, false, Bool-cases, inl, inr, if◌then◌else◌, none, some, List, [], ◌∷◌, length, get_elem?,
}
use robosw.Base.Int.{ℤ, pos, pos_part, ◌+ℤ◌, sub_ℕ, eqb_ℤ}
use robosw.Base.Float.{RealOps}
use robosw.Decomp.CurvilinearGrid.Index.{IsColumn, place, column, bound}
use robosw.Base.Loops.{and_then}
use robosw.Decomp.CurvilinearGrid.{
  Curve, Cell, Grid, make_cell, make_row, make_rows, setup_grid, get_cell, at_int32, count_knots,
}

module _ (ops : RealOps) (cell : ℤ → Cell ops) where
  -- An odd number of cells: the n-th one of a row is the one of column n - half.
  pub odd_row :
      (half count n k : ℕ)
      → k < count
      → get_elem? (make_row ops cell false half count n) k ≡ some (cell (sub_ℕ (n + k) half))
  unfolding make_row
  odd_row half zero n k h = absurd (omega arith)
  odd_row half (suc count) n zero h = ap (λ m. some (cell (sub_ℕ m half))) (omega arith)
  odd_row half (suc count) n (suc k) h =
      odd_row half count (suc n) k (omega arith)
      ∙ ap (λ m. some (cell (sub_ℕ m half))) (omega arith)

  -- Right of the curve the columns stand one place to the left.
  past_curve :
      (half count n k : ℕ)
      → half < n
      → k < count
      → get_elem? (make_row ops cell true half count n) k ≡ some (cell (sub_ℕ (n + k) half))
  unfolding make_row
  past_curve half zero n k h lt = absurd (omega arith)
  past_curve half (suc count) n k h lt = elim (Bool-cases (eqb_ℤ (sub_ℕ n half) (pos 0))) [
    | inl e ↦ absurd (ground arith)
    | inr e ↦ rw e (place (λ j. past_curve half count (suc n) j (omega arith)) k lt)
  ]
    where
      place :
          ((j : ℕ)
            → j < count
            → get_elem? (make_row ops cell true half count (suc n)) j
              ≡ some (cell (sub_ℕ (suc n + j) half)))
          → (k : ℕ) → k < suc count
          → get_elem? (cell (sub_ℕ n half) ∷ make_row ops cell true half count (suc n)) k
            ≡ some (cell (sub_ℕ (n + k) half))
      place next zero lt = ap (λ m. some (cell (sub_ℕ m half))) (omega arith)
      place next (suc k) lt =
          next k (omega arith) ∙ ap (λ m. some (cell (sub_ℕ m half))) (omega arith)

  even_row :
      (half count n k : ℕ)
      → n ≤ half
      → half ≤ n + k
      → suc k < count
      → get_elem? (make_row ops cell true half count n) k ≡ some (cell (sub_ℕ (n + k + 1) half))
  unfolding make_row
  even_row half zero n k h le lt = absurd (omega arith)
  even_row half (suc count) n k h le lt = elim (Bool-cases (eqb_ℤ (sub_ℕ n half) (pos 0))) [
    | inl e ↦ rw e (
        past_curve half count (suc n) k (ground arith) (omega arith)
        ∙ ap (λ m. some (cell (sub_ℕ m half))) (omega arith))
    | inr e ↦ rw e (later (even_row half count (suc n)) (ground arith) k le lt)
  ]
    where
      later :
          ((j : ℕ)
            → suc n ≤ half
            → half ≤ suc n + j
            → suc j < count
            → get_elem? (make_row ops cell true half count (suc n)) j
              ≡ some (cell (sub_ℕ (suc n + j + 1) half)))
          → n < half
          → (k : ℕ) → half ≤ n + k
          → suc k < suc count
          → get_elem? (cell (sub_ℕ n half) ∷ make_row ops cell true half count (suc n)) k
            ≡ some (cell (sub_ℕ (n + k + 1) half))
      later next few zero le lt = absurd (omega arith)
      later next few (suc k) le lt =
          next k (omega arith) (omega arith) (omega arith)
          ∙ ap (λ m. some (cell (sub_ℕ m half))) (omega arith)

  length-past : (half count n : ℕ) → half < n → length (make_row ops cell true half count n) ≡ count
  unfolding make_row
  length-past half zero n h = refl
  length-past half (suc count) n h = elim (Bool-cases (eqb_ℤ (sub_ℕ n half) (pos 0))) [
    | inl e ↦ absurd (ground arith)
    | inr e ↦ rw e (ap suc (length-past half count (suc n) (omega arith)))
  ]

  length-even :
      (half count n : ℕ)
      → n ≤ half
      → half < n + count
      → length (make_row ops cell true half count n) + 1 ≡ count
  unfolding make_row
  length-even half zero n h lt = absurd (omega arith)
  length-even half (suc count) n h lt = elim (Bool-cases (eqb_ℤ (sub_ℕ n half) (pos 0))) [
    | inl e ↦ rw (e, length-past half count (suc n) (ground arith)) (omega arith)
    | inr e ↦ rw e (omega (arith, length-even half count (suc n) (ground arith) (omega arith)))
  ]

get_elem?-out : {A : Type 0} (xs : List A) (n : ℕ) → length xs ≤ n → get_elem? xs n ≡ none
get_elem?-out [] n h = refl
get_elem?-out (x ∷ xs) zero h = absurd (omega arith)
get_elem?-out (x ∷ xs) (suc n) h = get_elem?-out xs n (omega arith)

module _ (ops : RealOps) where
  get_elem?-make_rows :
      (row : ℕ → List (Cell ops)) (count x i : ℕ)
      → i < count
      → get_elem? (make_rows ops row count x) i ≡ some (row (x + i))
  unfolding make_rows
  get_elem?-make_rows row zero x i h = absurd (omega arith)
  get_elem?-make_rows row (suc count) x zero h = ap (λ k. some (row k)) (omega arith)
  get_elem?-make_rows row (suc count) x (suc i) h =
      get_elem?-make_rows row count (suc x) i (omega arith) ∙ ap (λ k. some (row k)) (omega arith)

  module _ (fuel knots d_num : ℕ) (curve : Curve ops.Real) (s_step d_step s_offset : ops.Real)
      (found : count_knots ops fuel curve.get_length s_step s_offset ≡ some knots) (h : 1 < knots)
      (some_columns : 0 < d_num) where
    -- The cell that is made for (x, y).
    abbrev pub made : ℕ → ℤ → Cell ops
    made x y = make_cell ops curve s_step d_step s_offset d_num (d_num / 2) (d_num % 2 == 0) x y

    abbrev row : ℕ → List (Cell ops)
    row x = make_row ops (made x) (d_num % 2 == 0) (d_num / 2) (2 * (d_num / 2) + 1) 0

    abbrev pub grid : Grid ops
    grid = record {
      curve = curve;
      grid_tiles = make_rows ops row (knots - 1) 0;
      s_step = s_step;
      delta_step = d_step;
      delta_num = d_num;
      s_offset = s_offset;
      delta_half_num = d_num / 2;
      center_cell_null = d_num % 2 == 0;
    }

    setup_grid-grid : setup_grid ops fuel [] curve s_step d_step d_num s_offset ≡ some grid
    unfolding setup_grid
    setup_grid-grid =
        rw found (ap (λ b. if b then some grid else none) (good d_num knots some_columns h))
      where
        good : (d k : ℕ) → 0 < d → 1 < k → (not (d == 0) && ltb 1 k) ≡ true
        good d k p q = ground arith

    row_at : (x : ℕ) → x < knots - 1 → get_elem? grid.grid_tiles x ≡ some (row x)
    row_at x lx = get_elem?-make_rows row (knots - 1) 0 x lx ∙ ap (λ k. some (row k)) (omega arith)

    abbrev half : ℕ
    half = d_num / 2

    look :
        (x : ℕ) (y : ℤ)
        → x < knots - 1
        → get_cell ops grid (pos x) y ≡ at_int32 (row x) (y +ℤ pos half)
    unfolding get_cell
    look x y lx = ap (λ o. and_then o (λ r. at_int32 r (y +ℤ pos half))) (row_at x lx)

    -- With an odd number of columns, the grid is made and a cell is found by the index that it was made for.
    pub setup_grid-odd :
        (d_num % 2 == 0) ≡ false
        → (g : Grid ops) × (setup_grid ops fuel [] curve s_step d_step d_num s_offset ≡ some g)
          × ((x : ℕ) (y : ℤ)
              → x < knots - 1
              → IsColumn (d_num / 2) y
              → get_cell ops g (pos x) y ≡ some (made x y))
    setup_grid-odd odd = (
      grid,
      setup_grid-grid,
      λ x y lx col.
          let n = pos_part (y +ℤ pos half) in
          look x y lx
          ∙ ap (at_int32 (row x)) (place half y col)
          ∙ ap (λ b. get_elem? (make_row ops (made x) b half (2 * half + 1) 0) n) odd
          ∙ odd_row ops (made x) half (2 * half + 1) 0 n (bound half y col)
          ∙ ap (λ z. some (made x z)) (column half y col),
    )

    even_length : (x : ℕ) → length (make_row ops (made x) true half (2 * half + 1) 0) ≤ half + half
    even_length x =
        omega (arith, length-even ops (made x) half (2 * half + 1) 0 (omega arith) (omega arith))

    -- With an even number of columns, where the one on the curve is left out, the grid is made but a column
    -- on the left of the curve is not found: its index finds the cell of the next column, and the last index
    -- reads past the end of the row.
    pub setup_grid-even :
        (d_num % 2 == 0) ≡ true
        → (g : Grid ops) × (setup_grid ops fuel [] curve s_step d_step d_num s_offset ≡ some g)
          × ((x y : ℕ)
              → x < knots - 1
              → y < d_num / 2
              → get_cell ops g (pos x) (pos y) ≡ some (made x (pos (y + 1))))
          × ((x : ℕ) → x < knots - 1 → get_cell ops g (pos x) (pos (d_num / 2)) ≡ none)
    setup_grid-even even = (
      grid,
      setup_grid-grid,
      λ x y lx ly.
          look x (pos y) lx
          ∙ ap (at_int32 (row x)) (up y)
          ∙ ap (λ b. get_elem? (make_row ops (made x) b half (2 * half + 1) 0) (y + half)) even
          ∙ even_row ops (made x) half (2 * half + 1) 0 (y + half) (omega arith) (omega arith)
              (shorter y ly)
          ∙ ap (λ z. some (made x z)) (next y),
      λ x lx.
          look x (pos half) lx
          ∙ ap (at_int32 (row x)) (up half)
          ∙ ap (λ b. get_elem? (make_row ops (made x) b half (2 * half + 1) 0) (half + half)) even
          ∙ get_elem?-out (make_row ops (made x) true half (2 * half + 1) 0) (half + half)
              (even_length x),
    )
      where
        up : (y : ℕ) → pos y +ℤ pos half ≡ pos (y + half)
        up y = ground arith

        shorter : (y : ℕ) → y < half → suc (y + half) < 2 * half + 1
        shorter y ly = omega arith

        next : (y : ℕ) → sub_ℕ (0 + (y + half) + 1) half ≡ pos (y + 1)
        next y = ground arith
