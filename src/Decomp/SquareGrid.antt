-- ===== src/Decomp/SquareGrid.antt =====
-- src/planning/decomp/include/decomp/square_grid.hpp and details/square_grid_impl.hpp: the grid of square
-- cells. A cell stands in its tile; a null pointer is `none`. Reading through one is `none` too.
pub mod Index
pub mod Build
pub mod Blocks
pub mod Labels
pub mod Neighbours
pub mod Construct
pub mod Lookup
use robosw.Base.{
  ℕ, zero, suc, ◌+◌, ◌*◌, ◌/◌, ◌%◌, ◌==◌, ◌&&◌, ◌||◌, not, Bool, true, false, Option, none, some,
  List, [], ◌∷◌, ◌++◌, if◌then◌else◌,
}
use robosw.Base.Int.{ℤ, pos, negsuc, pos_part, ◌+ℤ◌, ◌-ℤ◌, ltb_ℤ, eqb_ℤ, quot_ℤ, rem_ℤ}
use robosw.Base.Float.{RealOps}
use robosw.Base.Loops.{and_then, for_each}
use robosw.Decomp.RectGrid.{
  RectGrid, RectGridIndex, new_rect_grid, resize_grid, set_tile_at_raw_coordinate,
  get_tile_at_raw_coordinate, set_tile_at_grid_coordinate, get_tile_at_grid_coordinate, in_range,
}

pub data SquareCellLabel : Type 0 where
  occupied free : SquareCellLabel

pub record GridPoint (R : Type 0) : Type 0 where
  pub x : R
  pub y : R

-- `vertices` are top left, top right, bottom left, bottom right; `extra_attribute` is not kept.
pub record SquareCell (R : Type 0) : Type 0 where
  pub id : ℤ
  pub x : ℤ
  pub y : ℤ
  pub label : SquareCellLabel
  pub top_left : GridPoint R
  pub top_right : GridPoint R
  pub bottom_left : GridPoint R
  pub bottom_right : GridPoint R
  pub center : GridPoint R
  pub cost_map : R

-- `Eigen::MatrixXd`, read inside its bounds.
pub record Matrix (R : Type 0) : Type 0 where
  pub rows : ℕ
  pub cols : ℕ
  pub at : ℕ → ℕ → R

-- `y * size_x_ + x`, whose value an `int64_t` holds.
unfoldable pub index_to_id : ℕ → ℤ → ℤ → ℤ
index_to_id size_x (pos y) x = pos (y * size_x) +ℤ x
index_to_id size_x (negsuc y) x = x -ℤ pos (suc y * size_x)

unfoldable pub id_to_index : ℕ → ℤ → RectGridIndex
id_to_index size_x id = record { index_x = rem_ℤ id size_x; index_y = quot_ℤ id size_x }

-- The indices that `GetNeighbours` tries, in its order.
unfoldable pub candidates : ℤ → ℤ → Bool → List RectGridIndex
candidates x y true =
    record { index_x = x -ℤ pos 1; index_y = y -ℤ pos 1 }
    ∷ record { index_x = x -ℤ pos 1; index_y = y }
    ∷ record { index_x = x -ℤ pos 1; index_y = y +ℤ pos 1 }
    ∷ record { index_x = x; index_y = y -ℤ pos 1 }
    ∷ record { index_x = x; index_y = y +ℤ pos 1 }
    ∷ record { index_x = x +ℤ pos 1; index_y = y -ℤ pos 1 }
    ∷ record { index_x = x +ℤ pos 1; index_y = y }
    ∷ record { index_x = x +ℤ pos 1; index_y = y +ℤ pos 1 }
    ∷ []
candidates x y false =
    record { index_x = x; index_y = y +ℤ pos 1 }
    ∷ record { index_x = x; index_y = y -ℤ pos 1 }
    ∷ record { index_x = x +ℤ pos 1; index_y = y }
    ∷ record { index_x = x -ℤ pos 1; index_y = y }
    ∷ []

-- The inner loop, over j, and the outer one, over i, of the search of a block for an element that passes
-- a test of (j, i).
unfoldable pub column_occupied : (ℕ → ℕ → Bool) → (count j i : ℕ) → Bool
column_occupied test zero j i = false
column_occupied test (suc count) j i = test j i || column_occupied test count (suc j) i

unfoldable pub block_occupied : (ℕ → ℕ → Bool) → ℕ → (count i j : ℕ) → Bool
block_occupied test side zero i j = false
block_occupied test side (suc count) i j =
    column_occupied test side j i || block_occupied test side count (suc i) j

module _ (ops : RealOps) where
  open ops use {Real, of_int, add, mul, div, eqb}

  abbrev pub Cell : Type 0
  Cell = SquareCell Real

  abbrev pub Grid : Type 0
  Grid = RectGrid (Option Cell)

  abbrev pub origin : GridPoint Real
  origin = record { x = of_int (pos 0); y = of_int (pos 0) }

  -- `SquareCellBase(xval, yval, idval)`
  unfoldable pub new_cell : ℤ → ℤ → ℤ → Cell
  new_cell x y id = record {
    id = id;
    x = x;
    y = y;
    label = free;
    top_left = origin;
    top_right = origin;
    bottom_left = origin;
    bottom_right = origin;
    center = origin;
    cost_map = of_int (pos 0);
  }

  unfoldable pub update_geometry : Real → Cell → Cell
  update_geometry size c =
      let left = mul size (of_int c.x) in
      let right = mul size (of_int (c.x +ℤ pos 1)) in
      let top = mul size (of_int c.y) in
      let bottom = mul size (of_int (c.y +ℤ pos 1)) in
      let half = div size (of_int (pos 2)) in
      record c {
        top_left = record { x = left; y = top };
        top_right = record { x = right; y = top };
        bottom_left = record { x = left; y = bottom };
        bottom_right = record { x = right; y = bottom };
        center = record { x = add left half; y = add top half };
      }

  -- The cell that the constructors make for (x, y).
  unfoldable pub make_cell : Real → ℕ → ℕ → ℕ → Cell
  make_cell cell_size size_x x y =
      update_geometry cell_size (new_cell (pos x) (pos y) (index_to_id size_x (pos y) (pos x)))

  -- The two loops that fill a grid with new cells.
  unfoldable pub fill_tile : Real → ℕ → ℕ → Grid → Option Grid
  fill_tile cell_size y x g =
      set_tile_at_raw_coordinate none g (pos x) (pos y) (some (make_cell cell_size g.size_x x y))

  unfoldable pub fill_grid : Real → ℕ → ℕ → Grid → Option Grid
  fill_grid cell_size size_x size_y =
      for_each size_y 0 (λ y. for_each size_x 0 (fill_tile cell_size y))

  -- `SquareGridBase(size_x, size_y, cell_size)`
  unfoldable pub new_square_grid : ℕ → ℕ → Real → Option Grid
  new_square_grid size_x size_y cell_size =
      if not (size_x == 0) && not (size_y == 0)
      then fill_grid cell_size size_x size_y (new_rect_grid none size_x size_y)
      else none

  unfoldable pub get_cell : Grid → ℤ → ℤ → Option (Option Cell)
  get_cell = get_tile_at_grid_coordinate none

  unfoldable pub get_cell_by_id : Grid → ℤ → Option (Option Cell)
  get_cell_by_id g id =
      let c = id_to_index g.size_x id in get_tile_at_grid_coordinate none g c.index_x c.index_y

  -- `->label = label` on the tile's cell.
  unfoldable pub set_cell_label : Grid → ℤ → ℤ → SquareCellLabel → Option Grid
  set_cell_label g x y label = and_then (get_tile_at_grid_coordinate none g x y) (λ tile.
      and_then tile
        (λ cell. set_tile_at_grid_coordinate none g x y (some (record cell { label = label }))))

  unfoldable pub set_cell_label_by_id : Grid → ℤ → SquareCellLabel → Option Grid
  set_cell_label_by_id g id label =
      let c = id_to_index g.size_x id in set_cell_label g c.index_x c.index_y label

  -- `occupancy_matrix(j, i) != 0`
  abbrev pub is_set : Matrix Real → ℕ → ℕ → Bool
  is_set m j i = not (eqb (m.at j i) (of_int (pos 0)))

  -- One round of the loops that label the cells.
  unfoldable pub label_cell : (ℕ → ℕ → Bool) → ℕ → ℕ → ℕ → Grid → Option Grid
  label_cell test side x y g =
      if block_occupied test side side (x * side) (y * side)
      then set_cell_label g (pos x) (pos y) occupied
      else some g

  unfoldable pub label_grid : (ℕ → ℕ → Bool) → ℕ → Grid → Option Grid
  label_grid test side g = for_each g.size_x 0 (λ x. for_each g.size_y 0 (label_cell test side x)) g

  -- `SquareGridBase(matrix, element_per_cell, cell_size)`. The block that is cut off when a size
  -- is no multiple of `element_per_cell` is never read, so the matrix itself is.
  unfoldable pub square_grid_of_matrix : Matrix Real → ℕ → Real → Option Grid
  square_grid_of_matrix m side cell_size =
      let size_x = if side == 1 then m.cols else m.cols / side in
      let size_y = if side == 1 then m.rows else m.rows / side in
      and_then (resize_grid none (new_rect_grid none 0 0) size_x size_y)
        (λ g. and_then (fill_grid cell_size size_x size_y g) (label_grid (is_set m) side))

  unfoldable pub keep_tiles : Grid → List RectGridIndex → Option (List (Option Cell))
  keep_tiles g [] = some []
  keep_tiles g (c ∷ cs) =
      let rest = keep_tiles g cs in
      if in_range g.size_x g.size_y c.index_x c.index_y
      then and_then (get_tile_at_raw_coordinate none g c.index_x c.index_y)
          (λ t. and_then rest (λ ts. some (t ∷ ts)))
      else rest

  unfoldable pub get_neighbours : Grid → ℤ → ℤ → Bool → Option (List (Option Cell))
  get_neighbours g x y allow_diag = keep_tiles g (candidates x y allow_diag)

  unfoldable pub get_neighbours_by_id : Grid → ℤ → Bool → Option (List (Option Cell))
  get_neighbours_by_id g id allow_diag =
      let c = id_to_index g.size_x id in get_neighbours g c.index_x c.index_y allow_diag
