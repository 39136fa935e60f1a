-- ===== src/Decomp/SquareGrid/Build.antt =====
-- What the constructors of the grid make: every cell, and its label.
use robosw.Base.{
  ℕ, ◌<◌, ◌≡◌, ◌≢◌, ◌⊎◌, inl, inr, refl, ap, sym, ◌∙◌, arith, Option, none, some, List,
}
use robosw.Base.Float.{RealOps}
use robosw.Base.Sweep.{sweep, Round}
use robosw.Decomp.RectGrid.{get_tile_at_coordinate, set_tile_at_coordinate}
use robosw.Decomp.RectGrid.Tiles.{
  HasShape, HasShape-set, plain, set_raw-plain, get-set_self, get-set_ne,
}
use robosw.Decomp.SquareGrid.{Cell, Grid, make_cell, fill_tile, fill_grid}

module _ (ops : RealOps) where
  abbrev pub tile : Grid ops → ℕ → ℕ → Option (Cell ops)
  tile g x y = get_tile_at_coordinate none g.grid_tiles x y

  -- A grid of that size whose tiles are all there.
  abbrev pub IsPlain : ℕ → ℕ → Grid ops → Type 0
  IsPlain size_x size_y g =
      (tiles : List (List (Option (Cell ops)))) × (g ≡ plain none size_x size_y tiles)
      × HasShape size_x size_y tiles

  -- What a write to a tile of a grid does to the others.
  pub write_round :
      (size_x size_y x y : ℕ) (tiles : List (List (Option (Cell ops)))) (v : Option (Cell ops))
      → x < size_x
      → y < size_y
      → HasShape size_x size_y tiles
      → IsPlain size_x size_y (plain none size_x size_y (set_tile_at_coordinate tiles x y v))
        × (get_tile_at_coordinate none (set_tile_at_coordinate tiles x y v) x y ≡ v)
        × ((i j : ℕ)
            → (x ≢ i) ⊎ (y ≢ j)
            → get_tile_at_coordinate none (set_tile_at_coordinate tiles x y v) i j
              ≡ get_tile_at_coordinate none tiles i j)
  write_round size_x size_y x y tiles v hx hy shape = (
    (
      set_tile_at_coordinate tiles x y v,
      refl,
      HasShape-set none size_x size_y tiles x y v shape hy,
    ),
    get-set_self none tiles x y v (omega (arith, shape.0)) (omega (arith, shape.1 y hy)),
    λ i j ne. get-set_ne none tiles x y i j v (omega (arith, shape.0)) ne,
  )

  pub turn : {a b i j : ℕ} → (a ≢ i) ⊎ (b ≢ j) → (b ≢ j) ⊎ (a ≢ i)
  turn (inl h) = inr h
  turn (inr h) = inl h

  module _ (cell_size : ops.Real) (size_x size_y : ℕ) where
    abbrev pub made : ℕ → ℕ → Option (Cell ops)
    made y x = some (make_cell ops cell_size size_x x y)

    fill_round :
        (old : ℕ → ℕ → Option (Cell ops))
        → Round
            (λ g y x. tile g x y)
            (IsPlain size_x size_y)
            size_y
            size_x
            old
            made
            (fill_tile ops cell_size)
    unfolding fill_tile
    fill_round old y x g hy hx ok e =
        let r = write_round size_x size_y x y ok.0 (made y x) hx hy ok.2 in
        (
          plain none size_x size_y (set_tile_at_coordinate ok.0 x y (made y x)),
          ap (fill_tile ops cell_size y x) ok.1
              ∙ set_raw-plain none size_x size_y ok.0 x y (made y x) hx hy,
          r.0,
          r.1,
          λ i j hi hj ne. r.2 j i (turn ne) ∙ ap (λ h. tile h j i) (sym ok.1),
        )

    pub fill_grid-filled :
        (tiles : List (List (Option (Cell ops))))
        → HasShape size_x size_y tiles
        → (g : Grid ops) × (fill_grid ops cell_size size_x size_y (plain none size_x size_y tiles)
            ≡ some g)
          × IsPlain size_x size_y g
          × ((y x : ℕ) → y < size_y → x < size_x → tile g x y ≡ made y x)
    unfolding fill_grid
    fill_grid-filled tiles shape =
        sweep (λ g y x. tile g x y) (IsPlain size_x size_y) size_y size_x
          (λ y x. get_tile_at_coordinate none tiles x y) made (fill_tile ops cell_size)
          (fill_round (λ y x. get_tile_at_coordinate none tiles x y))
          (plain none size_x size_y tiles) (tiles, refl, shape) (λ i j hi hj. refl)
