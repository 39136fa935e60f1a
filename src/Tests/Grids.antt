-- ===== src/Tests/Grids.antt =====
-- The grids: 3 by 2 squares, and rows along a straight curve.
use robosw.Base.{
  ℕ, zero, suc, ◌+◌, ◌*◌, ◌/◌, ◌-◌, ◌%◌, ◌<◌, ◌≤◌, ◌==◌, ltb, ◌&&◌, true, false, Option, none, some,
  List, [], ◌∷◌, length, get_elem?, get_or, ◌≡◌, ◌↔◌, refl, ap, sym, arith, take, drop,
  if◌then◌else◌,
}
use robosw.Base.Int.{ℤ, pos, negsuc}
use robosw.Decomp.RectGrid.{RectGrid}
use robosw.Decomp.RectGrid.Tiles.{HasShape}
use robosw.Decomp.SquareGrid.{
  Matrix, SquareCellLabel, Cell, Grid, new_square_grid, square_grid_of_matrix, get_cell,
  get_cell_by_id, get_neighbours, is_set,
}
use robosw.Decomp.SquareGrid.Blocks.{SomeSet}
use robosw.Decomp.SquareGrid.Construct.{square_grid_of_matrix-label}
use robosw.Decomp.SquareGrid.Lookup.{new_square_grid-get_cell_by_id}
use robosw.Decomp.SquareGrid.Neighbours.{near, has, tiles_at, get_neighbours-near}
use robosw.Decomp.DenseGrid.{DenseGrid, Coefficients, convert_to_square_grid}
use robosw.Decomp.DenseGrid.Convert.{blocks_on, raised_from_first, convert_to_square_grid-label}
use robosw.Decomp.CurvilinearGrid as Along
use robosw.Decomp.CurvilinearGrid.{Curve, CurvilinearGrid, setup_grid, count_knots, CurviGridIndex}
use robosw.Decomp.CurvilinearGrid.Index.{IsColumn, path_index-there_back}
use robosw.Decomp.CurvilinearGrid.Rows.{made, setup_grid-odd, setup_grid-even}
use robosw.Decomp.CurvilinearGrid.Neighbours.{concat, get_neighbours-rows}
use robosw.Tests.Planners.{exact_reals}

-- A grid of numbers whose origin is its tile (1, 1).
abbrev numbers : RectGrid ℕ
numbers = record {
  size_x = 3;
  size_y = 2;
  origin_offset_x = pos 1;
  origin_offset_y = pos 1;
  grid_tiles = (1 ∷ 2 ∷ 3 ∷ []) ∷ (4 ∷ 5 ∷ 6 ∷ []) ∷ [];
}

numbers-HasShape : HasShape 3 2 numbers.grid_tiles
numbers-HasShape = (refl, rows)
  where
    rows : (y : ℕ) → y < 2 → length (get_or numbers.grid_tiles y []) ≡ 3
    rows zero h = refl
    rows (suc zero) h = refl
    rows (suc (suc y)) h = absurd (omega arith)

-- A map of 5 columns and 2 rows, with an obstacle at column 3 of row 1.
abbrev map_matrix : Matrix ℤ
map_matrix = record { rows = 2; cols = 5; at = λ j i. if j == 1 && i == 3 then pos 1 else pos 0 }

square_grid_of_matrix-label_example :
    (g : Grid exact_reals) × (square_grid_of_matrix exact_reals map_matrix 2 (pos 10) ≡ some g)
    × ((x y : ℕ)
        → x < 5 / 2
        → y < 2 / 2
        → (c : Cell exact_reals) × (get_cell exact_reals g (pos x) (pos y) ≡ some (some c))
          × ((c.label ≡ SquareCellLabel.occupied)
              ↔ SomeSet (is_set exact_reals map_matrix) (x * 2) (y * 2) 2 2))
square_grid_of_matrix-label_example =
    square_grid_of_matrix-label exact_reals map_matrix 2 (pos 10) (omega arith) (omega arith)

new_square_grid-get_cell_by_id_example :
    (g : Grid exact_reals) × (new_square_grid exact_reals 3 2 (pos 10) ≡ some g)
    × ((n : ℕ)
        → n < 3 * 2
        → (c : Cell exact_reals) × (get_cell_by_id exact_reals g (pos n) ≡ some (some c))
          × (c.id ≡ pos n))
    × ((n : ℕ) → 3 * 2 ≤ n → get_cell_by_id exact_reals g (pos n) ≡ none)
    × ((n : ℕ) → get_cell_by_id exact_reals g (negsuc n) ≡ none)
new_square_grid-get_cell_by_id_example =
    new_square_grid-get_cell_by_id exact_reals 3 2 (pos 10) (omega arith) (omega arith)

abbrev empty_tiles : Grid exact_reals
empty_tiles = record {
  size_x = 2;
  size_y = 1;
  origin_offset_x = pos 0;
  origin_offset_y = pos 0;
  grid_tiles = (none ∷ none ∷ []) ∷ [];
}

get_neighbours-near_example :
    (places : List (ℕ × ℕ)) × (get_neighbours exact_reals empty_tiles (pos 0) (pos 0) true
      ≡ some (tiles_at exact_reals empty_tiles places))
    × ((i j : ℕ) → has places i j ≡ (ltb i 2 && ltb j 1 && near true 0 0 i j))
get_neighbours-near_example = get_neighbours-near exact_reals empty_tiles 0 0 true

-- Seven columns, the second of which on the left.
path_index-there_back_example :
    Along.id_to_index (7 % 2 == 0) 7 (7 / 2) (Along.index_to_id (7 % 2 == 0) 7 (7 / 2) 4 (negsuc 1))
    ≡ record { index_x = pos 4; index_y = negsuc 1 }
path_index-there_back_example =
    path_index-there_back 7 4 (negsuc 1) (omega arith, omega arith) (omega arith)

-- The s axis, 10 long.
abbrev straight : Curve ℤ
straight = record {
  get_length = pos 10;
  get_position_vector = λ s. (s, pos 0);
  get_tangent_vector = λ s. (pos 1, pos 0);
  normalized = λ v. v;
}

three_knots : count_knots exact_reals 9 (pos 10) (pos 5) (pos 0) ≡ some 3
unfolding count_knots
three_knots = refl

setup_grid-odd_example :
    (g : Along.Grid exact_reals) × (setup_grid exact_reals 9 [] straight (pos 5) (pos 2) 3 (pos 0)
      ≡ some g)
    × ((x : ℕ) (y : ℤ)
        → x < 3 - 1
        → IsColumn (3 / 2) y
        → Along.get_cell exact_reals g (pos x) y
          ≡ some (
              made exact_reals 9 3 3 straight
                (pos 5)
                (pos 2)
                (pos 0)
                three_knots
                (omega arith)
                (omega arith)
                x
                y))
setup_grid-odd_example =
    setup_grid-odd exact_reals 9 3 3 straight (pos 5) (pos 2) (pos 0) three_knots (omega arith)
      (omega arith) refl

setup_grid-even_example :
    (g : Along.Grid exact_reals) × (setup_grid exact_reals 9 [] straight (pos 5) (pos 2) 4 (pos 0)
      ≡ some g)
    × ((x y : ℕ)
        → x < 3 - 1
        → y < 4 / 2
        → Along.get_cell exact_reals g (pos x) (pos y)
          ≡ some (
              made exact_reals 9 3 4 straight
                (pos 5)
                (pos 2)
                (pos 0)
                three_knots
                (omega arith)
                (omega arith)
                x
                (pos (y + 1))))
    × ((x : ℕ) → x < 3 - 1 → Along.get_cell exact_reals g (pos x) (pos (4 / 2)) ≡ none)
setup_grid-even_example =
    setup_grid-even exact_reals 9 3 4 straight (pos 5) (pos 2) (pos 0) three_knots (omega arith)
      (omega arith) refl

-- One column, on the curve, and three rows.
abbrev cell_of : ℕ → Along.Cell exact_reals
cell_of x = Along.make_cell exact_reals straight (pos 5) (pos 2) (pos 0) 1 0 false x (pos 0)

abbrev column : Along.Grid exact_reals
column = record {
  curve = straight;
  grid_tiles = (cell_of 0 ∷ []) ∷ (cell_of 1 ∷ []) ∷ (cell_of 2 ∷ []) ∷ [];
  s_step = pos 5;
  delta_step = pos 2;
  delta_num = 1;
  s_offset = pos 0;
  delta_half_num = 0;
  center_cell_null = false;
}

abbrev length_of : Option (List (Along.Cell exact_reals)) → ℕ
length_of none = 0
length_of (some row) = length row

column-full :
    (x : ℕ) (row : List (Along.Cell exact_reals))
    → get_elem? column.grid_tiles x ≡ some row
    → length row ≡ 2 * 0 + 1
column-full zero row e = ap length_of (sym e)
column-full (suc zero) row e = ap length_of (sym e)
column-full (suc (suc zero)) row e = ap length_of (sym e)
column-full (suc (suc (suc x))) row e = absurd (ground arith)

get_neighbours-rows_example :
    Along.get_neighbours exact_reals column (pos 0) (pos 0) (pos 1) (pos 5)
    ≡ some (concat (take (5 + 1 - 1) (drop (0 + 1) column.grid_tiles)))
get_neighbours-rows_example = get_neighbours-rows exact_reals column refl column-full 0 (pos 0) 1 5

-- Numbers of 5 by 4, whose least and greatest are 0 and 1, in blocks of 2 by 2.
abbrev eigen : Coefficients ℤ
eigen = record { min_coeff = λ m. pos 0; max_coeff = λ m. pos 1 }

abbrev dense : DenseGrid ℤ
dense = record {
  size_x = 5;
  size_y = 4;
  origin_offset_x = pos 0;
  origin_offset_y = pos 0;
  grid_tiles = record { rows = 4; cols = 5; at = λ j i. if j == 1 && i == 3 then pos 1 else pos 0 };
}

convert_to_square_grid-label_example :
    (g : Grid exact_reals) × (convert_to_square_grid exact_reals eigen dense 2 (pos 0) ≡ some g)
    × ((x y : ℕ)
        → x < blocks_on 5 2
        → y < blocks_on 4 2
        → (c : Cell exact_reals) × (get_cell exact_reals g (pos x) (pos y) ≡ some (some c))
          × ((c.label ≡ SquareCellLabel.occupied)
              ↔ SomeSet (raised_from_first exact_reals eigen dense 2 (pos 0)) (x * 2) (y * 2) 2 2))
convert_to_square_grid-label_example =
    convert_to_square_grid-label exact_reals eigen dense 2 (pos 0) (omega arith) (omega arith)
