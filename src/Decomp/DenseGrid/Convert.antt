-- ===== src/Decomp/DenseGrid/Convert.antt =====
-- Values read back, and the cells that a grid of numbers is turned into.
use native.Mathlib.Nat.{div-add-mod'}
use robosw.Base.{
  ◌+◌, ◌-◌, ◌/◌, ◌%◌, Bool, Bool-cases, inl, inr, refl, sym, subst, ℕ, ◌*◌, ◌<◌, ◌≡◌, ◌↔◌, ◌==◌,
  ◌&&◌, not, ap, ◌∙◌, arith, true, none, some, [], if◌then◌else◌,
}
use robosw.Base.Int.{pos}
use robosw.Base.Float.{RealOps}
use robosw.Base.Loops.{and_then}
use robosw.Decomp.RectGrid.{new_rect_grid, resize_grid_tiles}
use robosw.Decomp.RectGrid.Tiles.{HasShape-resize}
use robosw.Decomp.SquareGrid.{
  SquareCellLabel, Cell, Grid, new_square_grid, fill_grid, label_grid, get_cell,
}
use robosw.Decomp.SquareGrid.Blocks.{SomeSet, block_occupied_iff}
use robosw.Decomp.SquareGrid.Labels.{labelled, filled-labelled}
use robosw.Decomp.SquareGrid.Construct.{plain-get_cell, label_iff}
use robosw.Decomp.DenseGrid.{
  DenseGrid, Coefficients, get_grid_matrix, cells_of, start_of, is_above, convert_to_square_grid,
}

positive : (a b : ℕ) → 0 < a → 0 < b → (not (a == 0) && not (b == 0)) ≡ true
positive a b ha hb = ground arith

-- The cells on an axis: as many on each side of its middle.
abbrev pub blocks_on : ℕ → ℕ → ℕ
blocks_on n side = n / 2 / side * 2

-- Where the cells start on an axis of n numbers: whole blocks start at 0, and otherwise the middle of the
-- axis is the end of as many blocks as there are before it.
abbrev pub first_cell : ℕ → ℕ → ℕ
first_cell n side = if n % side == 0 then 0 else n / 2 - n / 2 / side * side

rest_of : (q r side n : ℕ) → q * side + r ≡ n → r ≡ n - q * side
rest_of q r side n e = omega (arith, e)

start_of-first_cell : (n side : ℕ) → start_of n side ≡ first_cell n side
unfolding start_of
start_of-first_cell n side = elim (Bool-cases (n % side == 0)) [
  | inl e ↦ rw e refl
  | inr e ↦ rw e (rest_of (n / 2 / side) (n / 2 % side) side (n / 2) (div-add-mod' (n / 2) side))
]

module _ (ops : RealOps) where
  -- The element (x, y), plus the least one and divided by the range, is above the threshold.
  abbrev pub raised : Coefficients ops.Real → DenseGrid ops.Real → ops.Real → ℕ → ℕ → Bool
  raised eigen d threshold j i =
      let low = eigen.min_coeff d.grid_tiles in
      let one = ops.of_int (pos 1) in
      let range = ops.sub (eigen.max_coeff d.grid_tiles) low in
      ops.lt threshold
        (ops.mul (ops.div (ops.add (d.grid_tiles.at j i) (ops.mul one low)) range) one)

  -- The test for the j-th row and the i-th column counted from where the cells start.
  abbrev pub raised_from_first :
      Coefficients ops.Real → DenseGrid ops.Real → ℕ → ops.Real → ℕ → ℕ → Bool
  raised_from_first eigen d side threshold j i =
      raised eigen d threshold (first_cell d.grid_tiles.rows side + j)
        (first_cell d.grid_tiles.cols side + i)

  is_above-raised_from_first :
      (eigen : Coefficients ops.Real) (d : DenseGrid ops.Real) (side : ℕ) (threshold : ops.Real)
      → is_above ops (get_grid_matrix ops eigen d true) side threshold
        ≡ raised_from_first eigen d side threshold
  unfolding get_grid_matrix
  is_above-raised_from_first eigen d side threshold t j i =
      raised eigen d threshold (start_of-first_cell d.grid_tiles.rows side t + j)
        (start_of-first_cell d.grid_tiles.cols side t + i)

  -- A grid of numbers with room for two blocks each way becomes a grid of cells, in which the cell (x, y) is occupied
  -- exactly if some number of its block, normalized as GetGridMatrix does it, is above the threshold. The blocks are
  -- counted from 0 when the numbers are whole blocks, and else so that the middle is between two blocks.
  pub convert_to_square_grid-label :
      (eigen : Coefficients ops.Real) (d : DenseGrid ops.Real) (side : ℕ) (threshold : ops.Real)
      → 0 < blocks_on d.grid_tiles.cols side
      → 0 < blocks_on d.grid_tiles.rows side
      → (g : Grid ops) × (convert_to_square_grid ops eigen d side threshold ≡ some g)
        × ((x y : ℕ)
            → x < blocks_on d.grid_tiles.cols side
            → y < blocks_on d.grid_tiles.rows side
            → (c : Cell ops) × (get_cell ops g (pos x) (pos y) ≡ some (some c))
              × ((c.label ≡ SquareCellLabel.occupied)
                  ↔ SomeSet
                      (raised_from_first eigen d side threshold)
                      (x * side)
                      (y * side)
                      side
                      side))
  unfolding convert_to_square_grid cells_of new_square_grid new_rect_grid get_grid_matrix
  convert_to_square_grid-label eigen d side threshold hx hy =
      let sx = cells_of d.grid_tiles.cols side in
      let sy = cells_of d.grid_tiles.rows side in
      let test = is_above ops (get_grid_matrix ops eigen d true) side threshold in
      let same = is_above-raised_from_first eigen d side threshold in
      let size = ops.div (ops.of_int (pos 1)) (ops.of_int (pos 10)) in
      let f =
        filled-labelled ops test side size sx sy (resize_grid_tiles none sx sy [])
          (HasShape-resize none sx sy []) in
      (
        f.0,
        ap
              (λ b.
                and_then (if b then fill_grid ops size sx sy (new_rect_grid none sx sy) else none)
                  (label_grid ops test side))
              (positive sx sy hx hy)
            ∙ f.1,
        λ x y lx ly.
            let both = label_iff ops test side size sx sy x y in
            let found = block_occupied_iff test side (x * side) (y * side) in
            (
              labelled ops test side size sx sy x y,
              plain-get_cell ops sx sy x y f.0 f.2 lx ly ∙ ap some (f.3 x y lx ly),
              (
                λ e.
                    subst (λ k. SomeSet k (x * side) (y * side) side side) same
                      (found.0 (both.0 e)),
                λ s.
                    both.1 (
                      found.1
                        (subst (λ k. SomeSet k (x * side) (y * side) side side) (sym same) s)),
              ),
            ),
      )
