-- ===== src/Decomp/SquareGrid/Construct.antt =====
-- The grids that the two constructors give.
use native.Mathlib.Nat.{div-one}
use robosw.Base.{
  ℕ, ◌*◌, ◌/◌, ◌<◌, ◌≡◌, ◌↔◌, ◌==◌, not, ◌&&◌, refl, ap, sym, subst, ◌∙◌, arith, Bool, true, false,
  Option, none, some, [], if◌then◌else◌, Bool-cases, inl, inr,
}
use robosw.Base.Int.{pos}
use robosw.Base.Float.{RealOps}
use robosw.Decomp.RectGrid.{
  new_rect_grid, resize_grid, resize_grid_tiles, get_tile_at_grid_coordinate,
}
use robosw.Decomp.RectGrid.Tiles.{HasShape-resize, plain, get-plain}
use robosw.Decomp.SquareGrid.{
  SquareCellLabel, Matrix, Cell, Grid, make_cell, fill_grid, new_square_grid, block_occupied,
  square_grid_of_matrix, is_set, new_cell, update_geometry, get_cell,
}
use robosw.Decomp.SquareGrid.Build.{IsPlain, tile, fill_grid-filled}
use robosw.Decomp.SquareGrid.Blocks.{SomeSet, block_occupied_iff}
use robosw.Decomp.SquareGrid.Labels.{labelled, filled-labelled}

module _ (ops : RealOps) where
  pub plain-get_cell :
      (size_x size_y x y : ℕ) (g : Grid ops)
      → IsPlain ops size_x size_y g
      → x < size_x
      → y < size_y
      → get_cell ops g (pos x) (pos y) ≡ some (tile ops g x y)
  unfolding get_cell
  plain-get_cell size_x size_y x y g ok hx hy =
      ap (λ h. get_tile_at_grid_coordinate none h (pos x) (pos y)) ok.1
      ∙ get-plain none size_x size_y ok.0 x y hx hy
      ∙ ap (λ h. some (tile ops h x y)) (sym ok.1)

  pub new_square_grid-IsPlain :
      (size_x size_y : ℕ) (cell_size : ops.Real)
      → 0 < size_x
      → 0 < size_y
      → (g : Grid ops) × (new_square_grid ops size_x size_y cell_size ≡ some g)
        × IsPlain ops size_x size_y g
        × ((y x : ℕ)
            → y < size_y
            → x < size_x
            → tile ops g x y ≡ some (make_cell ops cell_size size_x x y))
  unfolding new_square_grid new_rect_grid
  new_square_grid-IsPlain size_x size_y cell_size hx hy =
      let f =
        fill_grid-filled ops cell_size size_x size_y (resize_grid_tiles none size_x size_y [])
          (HasShape-resize none size_x size_y []) in
      (
        f.0,
        ap
              (λ b.
                if b
                then fill_grid ops cell_size size_x size_y (new_rect_grid none size_x size_y)
                else none)
              (positive size_x size_y hx hy)
            ∙ f.1,
        f.2,
        f.3,
      )
    where
      positive : (a b : ℕ) → 0 < a → 0 < b → (not (a == 0) && not (b == 0)) ≡ true
      positive a b ha hb = ground arith

  -- A grid of a positive size is made, and its cell (x, y) is the new cell for x, y and their id, with its
  -- corners computed.
  pub new_square_grid-get_cell :
      (size_x size_y : ℕ) (cell_size : ops.Real)
      → 0 < size_x
      → 0 < size_y
      → (g : Grid ops) × (new_square_grid ops size_x size_y cell_size ≡ some g)
        × ((x y : ℕ)
            → x < size_x
            → y < size_y
            → get_cell ops g (pos x) (pos y) ≡ some (some (make_cell ops cell_size size_x x y)))
  new_square_grid-get_cell size_x size_y cell_size hx hy =
      let f = new_square_grid-IsPlain size_x size_y cell_size hx hy in
      (
        f.0,
        f.1,
        λ x y lx ly. plain-get_cell size_x size_y x y f.0 f.2 lx ly ∙ ap some (f.3 y x ly lx),
      )

  pub label_iff :
      (test : ℕ → ℕ → Bool) (side : ℕ) (cell_size : ops.Real) (size_x size_y x y : ℕ)
      → ((labelled ops test side cell_size size_x size_y x y).label ≡ SquareCellLabel.occupied)
        ↔ (block_occupied test side side (x * side) (y * side) ≡ true)
  unfolding make_cell update_geometry new_cell
  label_iff test side cell_size size_x size_y x y =
      by_test (block_occupied test side side (x * side) (y * side))
    where
      by_test :
          (b : Bool)
          → ((if b
                then record (make_cell ops cell_size size_x x y) {
                  label = SquareCellLabel.occupied;
                }
                else make_cell ops cell_size size_x x y).label
              ≡ SquareCellLabel.occupied)
            ↔ (b ≡ true)
      by_test true = (λ e. refl, λ e. refl)
      by_test false = (λ e. absurd (ground arith), λ e. absurd (ground arith))

  size_of : (side n : ℕ) → (if side == 1 then n else n / side) ≡ n / side
  size_of side n = elim (Bool-cases (side == 1)) [
    | inl e ↦
        subst (λ k. (if k == 1 then n else n / k) ≡ n / k) (sym (one side e)) (sym (div-one n))
    | inr e ↦ ap (λ b. if b then n else n / side) e
  ]
    where
      one : (k : ℕ) → (k == 1) ≡ true → k ≡ 1
      one k e = ground arith

  resized :
      (size_x size_y : ℕ)
      → 0 < size_x
      → 0 < size_y
      → resize_grid none (new_rect_grid {T = Option (Cell ops)} none 0 0) size_x size_y
        ≡ some (
            plain none size_x size_y
              (resize_grid_tiles none size_x size_y (resize_grid_tiles none 0 0 [])))
  unfolding resize_grid new_rect_grid
  resized size_x size_y hx hy = ground arith

  -- A matrix with at least `side` columns and rows makes a grid of cells, in which the cell (x, y) is
  -- occupied exactly if some element of its `side` by `side` block of the matrix is not 0.
  pub square_grid_of_matrix-label :
      (m : Matrix ops.Real) (side : ℕ) (cell_size : ops.Real)
      → 0 < m.cols / side
      → 0 < m.rows / side
      → (g : Grid ops) × (square_grid_of_matrix ops m side cell_size ≡ some g)
        × ((x y : ℕ)
            → x < m.cols / side
            → y < m.rows / side
            → (c : Cell ops) × (get_cell ops g (pos x) (pos y) ≡ some (some c))
              × ((c.label ≡ SquareCellLabel.occupied)
                  ↔ SomeSet (is_set ops m) (x * side) (y * side) side side))
  unfolding square_grid_of_matrix
  square_grid_of_matrix-label m side cell_size hx hy =
      let sx = m.cols / side in
      let sy = m.rows / side in
      let f =
        filled-labelled ops (is_set ops m) side cell_size sx sy
          (resize_grid_tiles none sx sy (resize_grid_tiles none 0 0 []))
          (HasShape-resize none sx sy (resize_grid_tiles none 0 0 [])) in
      (
        f.0,
        rw (size_of side m.cols, size_of side m.rows, resized (m.cols / side) (m.rows / side) hx hy)
            f.1,
        λ x y lx ly.
            let both = label_iff (is_set ops m) side cell_size sx sy x y in
            let found = block_occupied_iff (is_set ops m) side (x * side) (y * side) in
            (
              labelled ops (is_set ops m) side cell_size sx sy x y,
              plain-get_cell sx sy x y f.0 f.2 lx ly ∙ ap some (f.3 x y lx ly),
              (λ e. found.0 (both.0 e), λ s. both.1 (found.1 s)),
            ),
      )
