-- ===== src/Decomp/CurvilinearGrid.antt =====
-- src/planning/decomp/include/decomp/curvilinear_grid.hpp and details/curvilinear_grid_impl.hpp: a grid along a
-- curve. The curve and Eigen's `normalized` are parameters. A violated assertion, an index out of a
-- vector's range and a loop that has not ended are `none`; `extra_attribute` is not kept.
pub mod Index
pub mod Rows
pub mod Neighbours
use robosw.Base.{
  ℕ, zero, suc, ◌+◌, ◌*◌, ◌/◌, ◌%◌, ◌-◌, ◌==◌, ◌&&◌, ltb, not, Bool, true, false, Option, none,
  some, List, [], ◌∷◌, ◌++◌, length, get_elem?, if◌then◌else◌,
}
use robosw.Base.Int.{
  ℤ, pos, negsuc, pos_part, ◌+ℤ◌, ◌-ℤ◌, sub_ℕ, ltb_ℤ, eqb_ℤ, quot_ℤ, rem_ℤ, int32,
}
use robosw.Base.Float.{RealOps}
use robosw.Base.Loops.{and_then}

-- `x` is along the curve, `y` across it.
pub record CurviGridIndex : Type 0 where
  pub index_x : ℤ
  pub index_y : ℤ

pub record GridPoint (R : Type 0) : Type 0 where
  pub s : R
  pub delta : R
  pub position : R × R

-- `vertices` 0 to 3, and the center.
pub record CurvilinearCell (R : Type 0) : Type 0 where
  pub id : ℤ
  pub index : CurviGridIndex
  pub vertex0 : GridPoint R
  pub vertex1 : GridPoint R
  pub vertex2 : GridPoint R
  pub vertex3 : GridPoint R
  pub center : GridPoint R
  pub cost_map : R

-- What the grid uses of `CurveType`, and `Eigen::Vector2d::normalized`.
pub record Curve (R : Type 0) : Type 0 where
  pub get_length : R
  pub get_position_vector : R → R × R
  pub get_tangent_vector : R → R × R
  pub normalized : R × R → R × R

pub record CurvilinearGrid (R : Type 0) : Type 0 where
  pub curve : Curve R
  pub grid_tiles : List (List (CurvilinearCell R))
  pub s_step : R
  pub delta_step : R
  pub delta_num : ℕ
  pub s_offset : R
  pub delta_half_num : ℕ
  pub center_cell_null : Bool

-- `vector[i]` with an `int32_t`.
abbrev pub at_int32 : {A : Type 0} → List A → ℤ → Option A
at_int32 xs (pos n) = get_elem? xs n
at_int32 xs (negsuc n) = none

-- The ids of a row: those of the cell on the curve too, also where it is left out.
abbrev pub id_width : Bool → ℕ → ℕ
id_width center_cell_null delta_num = if center_cell_null then delta_num + 1 else delta_num

-- The sum is an `int32_t`; where it overflows, which C++ leaves undefined, it wraps.
unfoldable pub index_to_id : Bool → ℕ → ℕ → ℕ → ℤ → ℤ
index_to_id center_cell_null delta_num half x y =
    int32 (pos (x * id_width center_cell_null delta_num) +ℤ y +ℤ pos half)

-- The id is an `int64_t`, and its parts are narrowed.
unfoldable pub id_to_index : Bool → ℕ → ℕ → ℤ → CurviGridIndex
id_to_index center_cell_null delta_num half id = record {
  index_x = int32 (quot_ℤ id (id_width center_cell_null delta_num));
  index_y = int32 (rem_ℤ id (id_width center_cell_null delta_num) -ℤ pos half);
}

module _ (ops : RealOps) where
  open ops use {Real, of_int, add, sub, mul, div, lt, leb, eqb, trunc}

  abbrev pub Cell : Type 0
  Cell = CurvilinearCell Real

  abbrev pub Grid : Type 0
  Grid = CurvilinearGrid Real

  abbrev zero_real : Real
  zero_real = of_int (pos 0)

  -- `ConvertToGlobalCoordinate`: the normal vector is the tangent turned to the left.
  unfoldable pub convert_to_global_coordinate : Curve Real → Real → Real → Real → Real × Real
  convert_to_global_coordinate curve s_offset s delta =
      let s_val = add s s_offset in
      let base = curve.get_position_vector s_val in
      let t = curve.get_tangent_vector s_val in
      let n = curve.normalized (
        add (mul zero_real t.0) (mul (of_int (negsuc 0)) t.1),
        add (mul (of_int (pos 1)) t.0) (mul zero_real t.1),
      ) in
      (add base.0 (mul n.0 delta), add base.1 (mul n.1 delta))

  unfoldable pub grid_point : Curve Real → Real → Real → Real → GridPoint Real
  grid_point curve s_offset s delta = record {
    s = s;
    delta = delta;
    position = convert_to_global_coordinate curve s_offset s delta;
  }

  -- `vertices[0].delta` of `UpdateGeometry`.
  unfoldable pub left_delta : Real → Bool → ℤ → Real
  left_delta d_step true (pos y) = mul (of_int (pos y)) d_step
  left_delta d_step true (negsuc y) = mul (of_int (negsuc y +ℤ pos 1)) d_step
  left_delta d_step false (pos y) = add (mul (of_int (pos y)) d_step) (div d_step (of_int (pos 2)))
  left_delta d_step false (negsuc y) =
      sub (mul (of_int (negsuc y +ℤ pos 1)) d_step) (div d_step (of_int (pos 2)))

  -- A new cell, after `UpdateGeometry` and with the positions of its points.
  unfoldable pub make_cell : Curve Real → Real → Real → Real → ℕ → ℕ → Bool → ℕ → ℤ → Cell
  make_cell curve s_step d_step s_offset d_num half null x y =
      let top = mul s_step (of_int (pos (x + 1))) in
      let bottom = mul s_step (of_int (pos x)) in
      let left = left_delta d_step null y in
      let right = sub left d_step in
      let point = grid_point curve s_offset in
      record {
        id = index_to_id null d_num half x y;
        index = record { index_x = pos x; index_y = y };
        vertex0 = point top left;
        vertex1 = point top right;
        vertex2 = point bottom left;
        vertex3 = point bottom right;
        center =
            point (sub top (div s_step (of_int (pos 2)))) (div (add left right) (of_int (pos 2)));
        cost_map = zero_real;
      }

  -- The number of knots, `for (s = s_offset; s <= length; s += s_step)`.
  unfoldable pub count_knots : (fuel : ℕ) → Real → Real → Real → Option ℕ
  count_knots zero length s_step s = none
  count_knots (suc fuel) length s_step s =
      let rest = count_knots fuel length s_step (add s s_step) in
      if leb s length then and_then rest (λ n. some (suc n)) else some 0

  -- The loop over i from -half up: the n-th value is n - half. The cell of the curve can be left out.
  unfoldable pub make_row : (ℤ → Cell) → Bool → ℕ → (count n : ℕ) → List Cell
  make_row cell null half zero n = []
  make_row cell null half (suc count) n =
      let rest = make_row cell null half count (suc n) in
      if null && eqb_ℤ (sub_ℕ n half) (pos 0) then rest else cell (sub_ℕ n half) ∷ rest

  unfoldable pub make_rows : (ℕ → List Cell) → (count x : ℕ) → List (List Cell)
  make_rows row zero x = []
  make_rows row (suc count) x = row x ∷ make_rows row count (suc x)

  -- `SetupGrid`, which adds its rows to those that are there.
  unfoldable pub setup_grid :
      ℕ → List (List Cell) → Curve Real → Real → Real → ℕ → Real → Option Grid
  setup_grid fuel tiles curve s_step d_step d_num s_offset =
      let half = d_num / 2 in
      let null = d_num % 2 == 0 in
      and_then (count_knots fuel curve.get_length s_step s_offset) (λ knots.
        if not (d_num == 0) && ltb 1 knots
        then some (record {
          curve = curve;
          grid_tiles =
              tiles
              ++ make_rows
                  (λ x.
                    make_row (make_cell curve s_step d_step s_offset d_num half null x) null half
                      (2 * half + 1) 0)
                  (knots - 1) 0;
          s_step = s_step;
          delta_step = d_step;
          delta_num = d_num;
          s_offset = s_offset;
          delta_half_num = half;
          center_cell_null = null;
        })
        else none)

  unfoldable pub get_cell : Grid → ℤ → ℤ → Option Cell
  get_cell g x y =
      and_then (at_int32 g.grid_tiles x) (λ row. at_int32 row (y +ℤ pos g.delta_half_num))

  unfoldable pub get_cell_by_id : Grid → ℤ → Option Cell
  get_cell_by_id g id =
      let c = id_to_index g.center_cell_null g.delta_num g.delta_half_num id in
      get_cell g c.index_x c.index_y

  -- The inner loop of `GetNeighbours`, over the n-th value n - half of `yi`.
  unfoldable pub neighbour_row : Grid → ℤ → (count n : ℕ) → Option (List Cell)
  neighbour_row g x zero n = some []
  neighbour_row g x (suc count) n =
      let rest = neighbour_row g x count (suc n) in
      let y = sub_ℕ n g.delta_half_num in
      if g.center_cell_null && eqb_ℤ y (pos 0)
      then rest
      else and_then (get_cell g x y) (λ c. and_then rest (λ cs. some (c ∷ cs)))

  -- The outer loop, over `h`, until it leaves the grid.
  unfoldable pub neighbour_rows : Grid → ℤ → (count : ℕ) → ℤ → Option (List Cell)
  neighbour_rows g x zero h = some []
  neighbour_rows g x (suc count) h =
      let rest = neighbour_rows g x count (h +ℤ pos 1) in
      if ltb_ℤ (x +ℤ h) (pos (length g.grid_tiles))
      then and_then (neighbour_row g (x +ℤ h) (2 * g.delta_half_num + 1) 0)
          (λ cs. and_then rest (λ ds. some (cs ++ ds)))
      else some []

  unfoldable pub get_neighbours : Grid → ℤ → ℤ → ℤ → ℤ → Option (List Cell)
  get_neighbours g x y min_h max_h = neighbour_rows g x (pos_part (max_h +ℤ pos 1 -ℤ min_h)) min_h

  unfoldable pub get_neighbours_by_id : Grid → ℤ → ℤ → ℤ → Option (List Cell)
  get_neighbours_by_id g id min_h max_h =
      let c = id_to_index g.center_cell_null g.delta_num g.delta_half_num id in
      get_neighbours g c.index_x c.index_y min_h max_h

  -- The row and the column of a point, `GridPointToIndex`. For a NaN the source leaves `y` unset.
  unfoldable pub column_of : Grid → Real → ℤ
  column_of g delta =
      let half = div g.delta_step (of_int (pos 2)) in
      if g.center_cell_null
      then (if eqb delta zero_real
          then pos 0
          else (if lt zero_real delta
              then trunc (add (div delta g.delta_step) (of_int (pos 1)))
              else trunc (sub (div delta g.delta_step) (of_int (pos 1)))))
      else (if lt (sub zero_real half) delta && lt delta half
          then pos 0
          else (if leb half delta
              then trunc (add (div (sub delta half) g.delta_step) (of_int (pos 1)))
              else trunc (sub (div (add delta half) g.delta_step) (of_int (pos 1)))))

  unfoldable pub grid_point_to_index : Grid → Real → Real → CurviGridIndex
  grid_point_to_index g s delta = record {
    index_x = trunc (div (sub s g.s_offset) g.s_step);
    index_y = column_of g delta;
  }
