-- ===== src/Decomp/RectGrid.antt =====
-- src/planning/decomp/include/decomp/details/rect_grid_base.hpp and rect_grid_base_tiles.hpp: a
-- rectangle of tiles whose origin can be moved. `blank` is what a new tile holds: 0, or a null
-- pointer. A violated assertion is `none`. Sizes are not negative.
pub mod Tiles
pub mod Laws
use robosw.Base.{
  ℕ, ◌-◌, ◌==◌, ◌&&◌, not, Bool, Option, none, some, List, [], ◌++◌, map, length, get_or, set, take,
  replicate, if◌then◌else◌,
}
use robosw.Base.Int.{ℤ, pos, negsuc, pos_part, ◌+ℤ◌, ◌-ℤ◌, ltb_ℤ}

pub record RectGridIndex : Type 0 where
  pub index_x : ℤ
  pub index_y : ℤ

-- `grid_tiles[y][x]`
pub record RectGrid (T : Type 0) : Type 0 where
  pub size_x : ℕ
  pub size_y : ℕ
  pub origin_offset_x : ℤ
  pub origin_offset_y : ℤ
  pub grid_tiles : List (List T)

-- `std::vector::resize`
unfoldable pub resize : {A : Type 0} → ℕ → A → List A → List A
resize n a xs = take n xs ++ replicate (n - length xs) a

unfoldable pub resize_grid_tiles : {T : Type 0} → T → ℕ → ℕ → List (List T) → List (List T)
resize_grid_tiles blank x y tiles = map (resize x blank) (resize y [] tiles)

unfoldable pub get_tile_at_coordinate : {T : Type 0} → T → List (List T) → ℕ → ℕ → T
get_tile_at_coordinate blank tiles x y = get_or (get_or tiles y []) x blank

unfoldable pub set_tile_at_coordinate : {T : Type 0} → List (List T) → ℕ → ℕ → T → List (List T)
set_tile_at_coordinate tiles x y tile = set tiles y (set (get_or tiles y []) x tile)

-- `(x >= 0) && (x < size_x_) && (y >= 0) && (y < size_y_)`
abbrev pub in_range : ℕ → ℕ → ℤ → ℤ → Bool
in_range size_x size_y x y =
    not (ltb_ℤ x (pos 0)) && ltb_ℤ x (pos size_x) && not (ltb_ℤ y (pos 0)) && ltb_ℤ y (pos size_y)

module _ {T : Type 0} (blank : T) where
  unfoldable pub new_rect_grid : ℕ → ℕ → RectGrid T
  new_rect_grid x y = record {
    size_x = x;
    size_y = y;
    origin_offset_x = pos 0;
    origin_offset_y = pos 0;
    grid_tiles = resize_grid_tiles blank x y [];
  }

  -- `RectGridBase::ResizeGrid`
  unfoldable pub resize_grid : RectGrid T → ℕ → ℕ → Option (RectGrid T)
  resize_grid g x y =
      if x == g.size_x && y == g.size_y
      then some g
      else (if ltb_ℤ g.origin_offset_x (pos x) && ltb_ℤ g.origin_offset_y (pos y)
          then some (record g {
            grid_tiles = resize_grid_tiles blank x y g.grid_tiles;
            size_x = x;
            size_y = y;
          })
          else none)

  unfoldable pub set_origin_coordinate : RectGrid T → ℤ → ℤ → RectGrid T
  set_origin_coordinate g x y = record g { origin_offset_x = x; origin_offset_y = y }

  unfoldable pub set_tile_at_raw_coordinate : RectGrid T → ℤ → ℤ → T → Option (RectGrid T)
  set_tile_at_raw_coordinate g x y tile =
      if in_range g.size_x g.size_y x y
      then some (record g {
        grid_tiles = set_tile_at_coordinate g.grid_tiles (pos_part x) (pos_part y) tile;
      })
      else none

  unfoldable pub get_tile_at_raw_coordinate : RectGrid T → ℤ → ℤ → Option T
  get_tile_at_raw_coordinate g x y =
      if in_range g.size_x g.size_y x y
      then some (get_tile_at_coordinate blank g.grid_tiles (pos_part x) (pos_part y))
      else none

  unfoldable pub convert_to_raw_coordinate : RectGrid T → ℤ → ℤ → RectGridIndex
  convert_to_raw_coordinate g x y = record {
    index_x = x +ℤ g.origin_offset_x;
    index_y = y +ℤ g.origin_offset_y;
  }

  unfoldable pub convert_to_grid_coordinate : RectGrid T → ℤ → ℤ → Option RectGridIndex
  convert_to_grid_coordinate g x y =
      if in_range g.size_x g.size_y x y
      then some (record { index_x = x -ℤ g.origin_offset_x; index_y = y -ℤ g.origin_offset_y })
      else none

  unfoldable pub set_tile_at_grid_coordinate : RectGrid T → ℤ → ℤ → T → Option (RectGrid T)
  set_tile_at_grid_coordinate g x y tile =
      let c = convert_to_raw_coordinate g x y in
      set_tile_at_raw_coordinate g c.index_x c.index_y tile

  unfoldable pub get_tile_at_grid_coordinate : RectGrid T → ℤ → ℤ → Option T
  get_tile_at_grid_coordinate g x y =
      let c = convert_to_raw_coordinate g x y in get_tile_at_raw_coordinate g c.index_x c.index_y
