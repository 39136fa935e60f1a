-- ===== src/Decomp/RectGrid/Laws.antt =====
-- A grid whose origin is anywhere: writes, reads and resizing.
use robosw.Base.{
  ℕ, ◌<◌, ◌≡◌, ◌≢◌, ◌⊎◌, ◌==◌, ◌&&◌, inl, inr, refl, ap, ◌∙◌, arith, none, some, Bool, Bool-cases,
  true, false, if◌then◌else◌,
}
use robosw.Base.Int.{ℤ, pos, negsuc, pos_part, ◌+ℤ◌, ◌-ℤ◌, ltb_ℤ}
use robosw.Decomp.RectGrid.{
  RectGrid, RectGridIndex, in_range, resize_grid, resize_grid_tiles, set_tile_at_raw_coordinate,
  get_tile_at_raw_coordinate, set_tile_at_grid_coordinate, get_tile_at_grid_coordinate,
  convert_to_raw_coordinate, convert_to_grid_coordinate, get_tile_at_coordinate,
  set_tile_at_coordinate,
}
use robosw.Decomp.RectGrid.Tiles.{HasShape, get-set_self, get-set_ne, get-resize_grid_tiles}

-- (x, y) counted from the grid's origin is a tile of the grid.
abbrev pub covers : {T : Type 0} → RectGrid T → ℤ → ℤ → Bool
covers g x y = in_range g.size_x g.size_y (x +ℤ g.origin_offset_x) (y +ℤ g.origin_offset_y)

in_range-x : (m n : ℕ) (a b : ℤ) → in_range m n a b ≡ true → pos_part a < m
in_range-x m n (pos a) (pos b) h = ground arith
in_range-x m n (pos a) (negsuc b) h = ground arith
in_range-x m n (negsuc a) b h = absurd (ground arith)

in_range-y : (m n : ℕ) (a b : ℤ) → in_range m n a b ≡ true → pos_part b < n
in_range-y m n (pos a) (pos b) h = ground arith
in_range-y m n (pos a) (negsuc b) h = absurd (ground arith)
in_range-y m n (negsuc a) b h = absurd (ground arith)

same_place :
    (a b o : ℤ)
    → ltb_ℤ (a +ℤ o) (pos 0) ≡ false
    → ltb_ℤ (b +ℤ o) (pos 0) ≡ false
    → pos_part (a +ℤ o) ≡ pos_part (b +ℤ o)
    → a ≡ b
same_place (pos a) (pos b) (pos o) p q e = ground arith
same_place (pos a) (pos b) (negsuc o) p q e = ground arith
same_place (pos a) (negsuc b) (pos o) p q e = ground arith
same_place (pos a) (negsuc b) (negsuc o) p q e = ground arith
same_place (negsuc a) (pos b) (pos o) p q e = ground arith
same_place (negsuc a) (pos b) (negsuc o) p q e = ground arith
same_place (negsuc a) (negsuc b) (pos o) p q e = ground arith
same_place (negsuc a) (negsuc b) (negsuc o) p q e = ground arith

x_not_negative : (m n : ℕ) (a b : ℤ) → in_range m n a b ≡ true → ltb_ℤ a (pos 0) ≡ false
x_not_negative m n (pos a) b h = ground arith
x_not_negative m n (negsuc a) b h = absurd (ground arith)

y_not_negative : (m n : ℕ) (a b : ℤ) → in_range m n a b ≡ true → ltb_ℤ b (pos 0) ≡ false
y_not_negative m n a (pos b) h = ground arith
y_not_negative m n (pos a) (negsuc b) h = absurd (ground arith)
y_not_negative m n (negsuc a) (negsuc b) h = absurd (ground arith)

-- Different tiles stand at different places.
apart :
    {T : Type 0} (g : RectGrid T) (x y i j : ℤ)
    → covers g x y ≡ true
    → covers g i j ≡ true
    → (x ≢ i) ⊎ (y ≢ j)
    → (pos_part (x +ℤ g.origin_offset_x) ≢ pos_part (i +ℤ g.origin_offset_x))
      ⊎ (pos_part (y +ℤ g.origin_offset_y) ≢ pos_part (j +ℤ g.origin_offset_y))
apart g x y i j p q (inl ne) = inl (λ e. ne (
    same_place x i g.origin_offset_x
      (x_not_negative g.size_x g.size_y (x +ℤ g.origin_offset_x) (y +ℤ g.origin_offset_y) p)
      (x_not_negative g.size_x g.size_y (i +ℤ g.origin_offset_x) (j +ℤ g.origin_offset_y) q) e))
apart g x y i j p q (inr ne) = inr (λ e. ne (
    same_place y j g.origin_offset_y
      (y_not_negative g.size_x g.size_y (x +ℤ g.origin_offset_x) (y +ℤ g.origin_offset_y) p)
      (y_not_negative g.size_x g.size_y (i +ℤ g.origin_offset_x) (j +ℤ g.origin_offset_y) q) e))

module _ {T : Type 0} (blank : T) where
  -- The grid after a write.
  abbrev written : RectGrid T → ℤ → ℤ → T → RectGrid T
  written g x y v = record g {
    grid_tiles =
        set_tile_at_coordinate g.grid_tiles (pos_part (x +ℤ g.origin_offset_x))
          (pos_part (y +ℤ g.origin_offset_y)) v;
  }

  -- A tile written is read back, and the other tiles stay.
  pub set-get_grid_coordinate :
      (g : RectGrid T) (x y : ℤ) (v : T)
      → HasShape g.size_x g.size_y g.grid_tiles
      → covers g x y ≡ true
      → (h : RectGrid T) × (set_tile_at_grid_coordinate blank g x y v ≡ some h)
        × (get_tile_at_grid_coordinate blank h x y ≡ some v)
        × ((i j : ℤ)
            → covers g i j ≡ true
            → (x ≢ i) ⊎ (y ≢ j)
            → get_tile_at_grid_coordinate blank h i j ≡ get_tile_at_grid_coordinate blank g i j)
  unfolding set_tile_at_grid_coordinate get_tile_at_grid_coordinate set_tile_at_raw_coordinate
      get_tile_at_raw_coordinate convert_to_raw_coordinate
  set-get_grid_coordinate g x y v shape inside =
      let a = x +ℤ g.origin_offset_x in
      let b = y +ℤ g.origin_offset_y in
      let hx = in_range-x g.size_x g.size_y a b inside in
      let hy = in_range-y g.size_x g.size_y a b inside in
      (
        written g x y v,
        ap (λ t. if t then some (written g x y v) else none) inside,
        ap
              (λ t.
                if t
                then some (
                    get_tile_at_coordinate blank (written g x y v).grid_tiles (pos_part a)
                      (pos_part b))
                else none)
              inside
            ∙ ap some (
                get-set_self blank g.grid_tiles (pos_part a) (pos_part b) v (omega (arith, shape.0))
                  (omega (arith, shape.1 (pos_part b) hy))),
        λ i j there ne.
            ap
              (λ t.
                if in_range g.size_x g.size_y (i +ℤ g.origin_offset_x) (j +ℤ g.origin_offset_y)
                then some t
                else none)
              (get-set_ne blank g.grid_tiles (pos_part a) (pos_part b)
                (pos_part (i +ℤ g.origin_offset_x)) (pos_part (j +ℤ g.origin_offset_y)) v
                (omega (arith, shape.0)) (apart g x y i j inside there ne)),
      )

  -- The two kinds of coordinate are inverse to each other on the tiles.
  pub convert-there_back :
      (g : RectGrid T) (x y : ℤ)
      → in_range g.size_x g.size_y x y ≡ true
      → (c : RectGridIndex) × (convert_to_grid_coordinate blank g x y ≡ some c)
        × (convert_to_raw_coordinate blank g c.index_x c.index_y
            ≡ record { index_x = x; index_y = y })
  unfolding convert_to_raw_coordinate convert_to_grid_coordinate
  convert-there_back g x y inside = (
    record { index_x = x -ℤ g.origin_offset_x; index_y = y -ℤ g.origin_offset_y },
    ap
        (λ t.
          if t
          then some (record { index_x = x -ℤ g.origin_offset_x; index_y = y -ℤ g.origin_offset_y })
          else none)
        inside,
    λ i. record {
      index_x = minus_plus x g.origin_offset_x i;
      index_y = minus_plus y g.origin_offset_y i;
    },
  )
    where
      minus_plus : (a b : ℤ) → a -ℤ b +ℤ b ≡ a
      minus_plus (pos a) (pos b) = ground arith
      minus_plus (pos a) (negsuc b) = ground arith
      minus_plus (negsuc a) (pos b) = ground arith
      minus_plus (negsuc a) (negsuc b) = ground arith

  abbrev resized : RectGrid T → ℕ → ℕ → RectGrid T
  resized g x y = record g {
    grid_tiles = resize_grid_tiles blank x y g.grid_tiles;
    size_x = x;
    size_y = y;
  }

  -- A grid that is resized, to a size beyond its origin, keeps every tile that the old and the new grid cover.
  pub resize_grid-keeps :
      (g : RectGrid T) (x y : ℕ)
      → ltb_ℤ g.origin_offset_x (pos x) ≡ true
      → ltb_ℤ g.origin_offset_y (pos y) ≡ true
      → (h : RectGrid T) × (resize_grid blank g x y ≡ some h)
        × (h.size_x ≡ x)
        × (h.size_y ≡ y)
        × ((i j : ℤ)
            → covers g i j ≡ true
            → covers h i j ≡ true
            → get_tile_at_grid_coordinate blank h i j ≡ get_tile_at_grid_coordinate blank g i j)
  unfolding resize_grid get_tile_at_grid_coordinate get_tile_at_raw_coordinate
      convert_to_raw_coordinate
  resize_grid-keeps g x y ox oy = elim (Bool-cases (x == g.size_x && y == g.size_y)) [
    | inl e ↦ (g, rw e refl, ground arith, ground arith, λ i j p q. refl)
    | inr e ↦ (
      resized g x y,
      rw (e, ox, oy) refl,
      refl,
      refl,
      λ i j p q.
          rw (p, q)
            (ap some (
              get-resize_grid_tiles blank x y g.grid_tiles (pos_part (i +ℤ g.origin_offset_x))
                (pos_part (j +ℤ g.origin_offset_y))
                (in_range-x x y (i +ℤ g.origin_offset_x) (j +ℤ g.origin_offset_y) q)
                (in_range-y x y (i +ℤ g.origin_offset_x) (j +ℤ g.origin_offset_y) q))),
    )
  ]
