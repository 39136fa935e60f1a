-- ===== src/Decomp/DenseGrid.antt =====
-- src/planning/decomp/include/decomp/dense_grid.hpp, on RectGridBase with the tiles of numbers of
-- rect_grid_base_tiles.hpp: a matrix of numbers. Eigen's least and greatest coefficient are parameters.
pub mod Convert
pub mod Cut
use robosw.Base.{
  ℕ, ◌+◌, ◌*◌, ◌/◌, ◌%◌, ◌==◌, ltb, ◌&&◌, not, Bool, true, false, Option, none, some, if◌then◌else◌,
}
use robosw.Base.Int.{ℤ, pos, pos_part, ◌+ℤ◌, ltb_ℤ}
use robosw.Base.Float.{RealOps}
use robosw.Base.Loops.{and_then}
use robosw.Decomp.RectGrid.{in_range}
use robosw.Decomp.SquareGrid.{Matrix, Grid, new_square_grid, label_grid}

pub record DenseGrid (R : Type 0) : Type 0 where
  pub size_x : ℕ
  pub size_y : ℕ
  pub origin_offset_x : ℤ
  pub origin_offset_y : ℤ
  pub grid_tiles : Matrix R

-- `minCoeff()` and `maxCoeff()`
pub record Coefficients (R : Type 0) : Type 0 where
  pub min_coeff : Matrix R → R
  pub max_coeff : Matrix R → R

-- The cells on one axis, and where the first one starts: an even number of cells about the middle.
unfoldable pub cells_of : ℕ → ℕ → ℕ
cells_of n side_length = n / 2 / side_length * 2

unfoldable pub start_of : ℕ → ℕ → ℕ
start_of n side_length = if not (n % side_length == 0) then n / 2 % side_length else 0

module _ (ops : RealOps) where
  open ops use {Real, of_int, add, sub, mul, div, lt}

  unfoldable pub zero_matrix : ℕ → ℕ → Matrix Real
  zero_matrix rows cols = record { rows = rows; cols = cols; at = λ j i. of_int (pos 0) }

  unfoldable pub new_dense_grid : ℕ → ℕ → DenseGrid Real
  new_dense_grid size_x size_y = record {
    size_x = size_x;
    size_y = size_y;
    origin_offset_x = pos 0;
    origin_offset_y = pos 0;
    grid_tiles = zero_matrix size_y size_x;
  }

  -- `GridTiles::ResizeGridTiles` of numbers: zeros, with the overlap of the old matrix copied.
  unfoldable pub resize_matrix : Matrix Real → ℕ → ℕ → Matrix Real
  resize_matrix old x y =
      let overlap_cols = if ltb old.cols x then old.cols else x in
      let overlap_rows = if ltb old.rows y then old.rows else y in
      record {
        rows = y;
        cols = x;
        at = λ j i.
            if ltb j overlap_rows && ltb i overlap_cols
            then old.at j i
            else (zero_matrix y x).at j i;
      }

  unfoldable pub resize_grid : DenseGrid Real → ℕ → ℕ → Option (DenseGrid Real)
  resize_grid g x y =
      if x == g.size_x && y == g.size_y
      then some g
      else (if ltb_ℤ g.origin_offset_x (pos x) && ltb_ℤ g.origin_offset_y (pos y)
          then some
              (record g { grid_tiles = resize_matrix g.grid_tiles x y; size_x = x; size_y = y })
          else none)

  unfoldable pub setup_grid_with_matrix : DenseGrid Real → Matrix Real → Option (DenseGrid Real)
  setup_grid_with_matrix g mat =
      and_then (resize_grid g mat.cols mat.rows) (λ h. some (record h { grid_tiles = mat }))

  -- `grid_tiles_(y, x) = tile`
  unfoldable pub set_element : Matrix Real → ℕ → ℕ → Real → Matrix Real
  set_element m x y tile = record m { at = λ j i. if j == y && i == x then tile else m.at j i }

  unfoldable pub set_value_at_coordinate : DenseGrid Real → ℤ → ℤ → Real → Option (DenseGrid Real)
  set_value_at_coordinate g x y val =
      let a = x +ℤ g.origin_offset_x in
      let b = y +ℤ g.origin_offset_y in
      if in_range g.size_x g.size_y a b
      then some (record g { grid_tiles = set_element g.grid_tiles (pos_part a) (pos_part b) val })
      else none

  unfoldable pub get_value_at_coordinate : DenseGrid Real → ℤ → ℤ → Option Real
  get_value_at_coordinate g x y =
      let a = x +ℤ g.origin_offset_x in
      let b = y +ℤ g.origin_offset_y in
      if in_range g.size_x g.size_y a b
      then some (g.grid_tiles.at (pos_part b) (pos_part a))
      else none

  -- `+=` and `-=` of grids of one size.
  unfoldable pub combine_grid :
      (Real → Real → Real) → DenseGrid Real → DenseGrid Real → Option (DenseGrid Real)
  combine_grid op g other =
      if g.size_x == other.size_x && g.size_y == other.size_y
      then some (record g {
        grid_tiles = record g.grid_tiles {
          at = λ j i. op (g.grid_tiles.at j i) (other.grid_tiles.at j i);
        };
      })
      else none

  unfoldable pub add_grid : DenseGrid Real → DenseGrid Real → Option (DenseGrid Real)
  add_grid = combine_grid add

  unfoldable pub subtract_grid : DenseGrid Real → DenseGrid Real → Option (DenseGrid Real)
  subtract_grid = combine_grid sub

  -- `GetGridMatrix`: to normalize, the least coefficient is added, and the sum divided by the range.
  unfoldable pub get_grid_matrix : Coefficients Real → DenseGrid Real → Bool → Matrix Real
  get_grid_matrix eigen g false = g.grid_tiles
  get_grid_matrix eigen g true =
      let low = eigen.min_coeff g.grid_tiles in
      let range = sub (eigen.max_coeff g.grid_tiles) low in
      record g.grid_tiles {
        at = λ j i.
            mul (div (add (g.grid_tiles.at j i) (mul (of_int (pos 1)) low)) range) (of_int (pos 1));
      }

  -- `occupancy_matrix(j, i) > threshold`, in the block that `start_of` cuts out.
  abbrev pub is_above : Matrix Real → ℕ → Real → ℕ → ℕ → Bool
  is_above m side_length threshold j i =
      lt threshold (m.at (start_of m.rows side_length + j) (start_of m.cols side_length + i))

  -- `ConvertToSquareGrid`, with cells of 0.1.
  unfoldable pub convert_to_square_grid :
      Coefficients Real → DenseGrid Real → ℕ → Real → Option (Grid ops)
  convert_to_square_grid eigen g side_length threshold =
      let matrix = get_grid_matrix eigen g true in
      and_then
        (new_square_grid ops (cells_of matrix.cols side_length) (cells_of matrix.rows side_length)
          (div (of_int (pos 1)) (of_int (pos 10))))
        (label_grid ops (is_above matrix side_length threshold) side_length)
