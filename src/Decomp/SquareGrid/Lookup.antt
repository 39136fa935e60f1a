-- ===== src/Decomp/SquareGrid/Lookup.antt =====
-- Cells looked up by their ids.
use native.Mathlib.Nat.{mod-lt, div-lt_iff_lt-mul, mul_comm}
use robosw.Base.{
  ℕ, ◌*◌, ◌/◌, ◌%◌, ◌<◌, ◌≤◌, ltb, ◌≡◌, refl, ap, subst, ◌∙◌, arith, none, some, false,
}
use robosw.Base.Int.{ℤ, pos, negsuc, ◌+ℤ◌}
use robosw.Base.Float.{RealOps}
use robosw.Decomp.RectGrid.{
  get_tile_at_grid_coordinate, get_tile_at_raw_coordinate, convert_to_raw_coordinate, in_range,
}
use robosw.Decomp.SquareGrid.{
  Cell, Grid, make_cell, new_cell, update_geometry, new_square_grid, get_cell_by_id, get_cell,
  id_to_index,
}
use robosw.Decomp.SquareGrid.Index.{
  index_to_id-id_to_index, id_to_index-negative, id_to_index-in_range,
}
use robosw.Decomp.SquareGrid.Construct.{new_square_grid-IsPlain, plain-get_cell}
use robosw.Decomp.SquareGrid.Build.{IsPlain}

module _ (ops : RealOps) where
  id_of :
      (cell_size : ops.Real) (size_x n : ℕ)
      → (make_cell ops cell_size size_x (n % size_x) (n / size_x)).id ≡ pos n
  unfolding make_cell update_geometry new_cell id_to_index
  id_of cell_size size_x n = index_to_id-id_to_index size_x (pos n)

  quotient_in : (size_x size_y n : ℕ) → 0 < size_x → n < size_x * size_y → n / size_x < size_y
  quotient_in size_x size_y n hx h =
      (div-lt_iff_lt-mul hx).1 (subst (λ k. n < k) (mul_comm size_x size_y) h)

  plus_zero : (a : ℤ) → a +ℤ pos 0 ≡ a
  plus_zero (pos n) = ground arith
  plus_zero (negsuc n) = ground arith

  -- Outside the grid there is nothing.
  nothing :
      (size_x size_y : ℕ) (g : Grid ops) (id : ℤ)
      → IsPlain ops size_x size_y g
      → in_range size_x size_y (id_to_index size_x id).index_x (id_to_index size_x id).index_y
        ≡ false
      → get_cell_by_id ops g id ≡ none
  unfolding get_cell_by_id get_tile_at_grid_coordinate get_tile_at_raw_coordinate
      convert_to_raw_coordinate
  nothing size_x size_y g id ok out =
      ap (λ h. get_cell_by_id ops h id) ok.1
      ∙ rw
          (
            plus_zero (id_to_index size_x id).index_x,
            plus_zero (id_to_index size_x id).index_y,
            out,
          )
          refl

  -- In a new grid of a positive size, each id below the number of cells finds a cell, which has that id; every
  -- other id, a negative one too, fails the check of its index.
  pub new_square_grid-get_cell_by_id :
      (size_x size_y : ℕ) (cell_size : ops.Real)
      → 0 < size_x
      → 0 < size_y
      → (g : Grid ops) × (new_square_grid ops size_x size_y cell_size ≡ some g)
        × ((n : ℕ)
            → n < size_x * size_y
            → (c : Cell ops) × (get_cell_by_id ops g (pos n) ≡ some (some c)) × (c.id ≡ pos n))
        × ((n : ℕ) → size_x * size_y ≤ n → get_cell_by_id ops g (pos n) ≡ none)
        × ((n : ℕ) → get_cell_by_id ops g (negsuc n) ≡ none)
  unfolding get_cell_by_id get_cell id_to_index
  new_square_grid-get_cell_by_id size_x size_y cell_size hx hy =
      let made = new_square_grid-IsPlain ops size_x size_y cell_size hx hy in
      (
        made.0,
        made.1,
        λ n h. (
          make_cell ops cell_size size_x (n % size_x) (n / size_x),
          found n h,
          id_of cell_size size_x n,
        ),
        λ n h.
            nothing size_x size_y made.0 (pos n) made.2
              (id_to_index-in_range size_x size_y n hx ∙ ltb_ge n (size_x * size_y) h),
        λ n. nothing size_x size_y made.0 (negsuc n) made.2 (id_to_index-negative size_x size_y n),
      )
    where
      ltb_ge : (a b : ℕ) → b ≤ a → ltb a b ≡ false
      ltb_ge a b h = ground arith

      found :
          (n : ℕ)
          → n < size_x * size_y
          → get_cell_by_id ops (new_square_grid-IsPlain ops size_x size_y cell_size hx hy).0 (pos n)
            ≡ some (some (make_cell ops cell_size size_x (n % size_x) (n / size_x)))
      found n h =
          let made = new_square_grid-IsPlain ops size_x size_y cell_size hx hy in
          ap (λ g. get_cell ops made.0 (pos (n % g.size_x)) (pos (n / g.size_x))) made.2.1
          ∙ plain-get_cell ops size_x size_y (n % size_x) (n / size_x) made.0 made.2 (mod-lt n hx)
              (quotient_in size_x size_y n hx h)
          ∙ ap some
              (made.3 (n / size_x) (n % size_x) (quotient_in size_x size_y n hx h) (mod-lt n hx))
