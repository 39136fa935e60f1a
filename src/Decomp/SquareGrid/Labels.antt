-- ===== src/Decomp/SquareGrid/Labels.antt =====
-- The labels that the cells get.
use robosw.Base.{
  ℕ, ◌*◌, ◌<◌, ◌≡◌, inl, inr, refl, ap, sym, ◌∙◌, Bool, Bool-cases, Option, none, some, List,
  if◌then◌else◌,
}
use robosw.Base.Int.{pos}
use robosw.Base.Float.{RealOps}
use robosw.Base.Loops.{and_then}
use robosw.Base.Sweep.{sweep, Round}
use robosw.Decomp.RectGrid.{get_tile_at_coordinate, set_tile_at_coordinate}
use robosw.Decomp.RectGrid.Tiles.{HasShape, plain, set-plain, get-plain}
use robosw.Decomp.SquareGrid.{
  SquareCellLabel, Cell, Grid, make_cell, fill_grid, set_cell_label, block_occupied, label_cell,
  label_grid,
}
use robosw.Decomp.SquareGrid.Build.{IsPlain, tile, write_round, fill_grid-filled}

module _ (ops : RealOps) (test : ℕ → ℕ → Bool) (side : ℕ) (cell_size : ops.Real)
    (size_x size_y : ℕ) where
  -- The cell of (x, y), labelled by its block of the matrix.
  abbrev pub labelled : ℕ → ℕ → Cell ops
  labelled x y =
      let c = make_cell ops cell_size size_x x y in
      if block_occupied test side side (x * side) (y * side)
      then record c { label = SquareCellLabel.occupied }
      else c

  abbrev old : ℕ → ℕ → Option (Cell ops)
  old x y = some (make_cell ops cell_size size_x x y)

  abbrev new : ℕ → ℕ → Option (Cell ops)
  new x y = some (labelled x y)

  label_it :
      (x y : ℕ) (tiles : List (List (Option (Cell ops)))) (c : Cell ops)
      → x < size_x
      → y < size_y
      → get_tile_at_coordinate none tiles x y ≡ some c
      → set_cell_label ops (plain none size_x size_y tiles) (pos x) (pos y) SquareCellLabel.occupied
        ≡ some (
            plain none size_x size_y (
              set_tile_at_coordinate tiles x y
                (some (record c { label = SquareCellLabel.occupied }))))
  unfolding set_cell_label
  label_it x y tiles c hx hy e =
      rw (get-plain none size_x size_y tiles x y hx hy, e)
        (set-plain none size_x size_y tiles x y
          (some (record c { label = SquareCellLabel.occupied })) hx hy)

  abbrev mark : ℕ → ℕ → Cell ops
  mark x y = record (make_cell ops cell_size size_x x y) { label = SquareCellLabel.occupied }

  label_round :
      Round
        (λ g x y. tile ops g x y)
        (IsPlain ops size_x size_y)
        size_x
        size_y
        old
        new
        (label_cell ops test side)
  unfolding label_cell
  label_round x y g hx hy ok e =
      elim (Bool-cases (block_occupied test side side (x * side) (y * side))) [
        | inl on ↦
            let r = write_round ops size_x size_y x y ok.0 (some (mark x y)) hx hy ok.2 in
            (
              plain none size_x size_y (set_tile_at_coordinate ok.0 x y (some (mark x y))),
              ap
                    (λ b.
                      if b
                      then set_cell_label ops g (pos x) (pos y) SquareCellLabel.occupied
                      else some g)
                    on
                  ∙ ap (λ h. set_cell_label ops h (pos x) (pos y) SquareCellLabel.occupied) ok.1
                  ∙ label_it x y ok.0 (make_cell ops cell_size size_x x y) hx hy
                      (ap (λ h. tile ops h x y) (sym ok.1) ∙ e),
              r.0,
              r.1
                  ∙ sym (
                      ap (λ b. some (if b then mark x y else make_cell ops cell_size size_x x y))
                        on),
              λ i j hi hj ne. r.2 i j ne ∙ ap (λ h. tile ops h i j) (sym ok.1),
            )
        | inr off ↦ (
          g,
          ap
              (λ b.
                if b then set_cell_label ops g (pos x) (pos y) SquareCellLabel.occupied else some g)
              off,
          ok,
          e ∙ sym (ap (λ b. some (if b then mark x y else make_cell ops cell_size size_x x y)) off),
          λ i j hi hj ne. refl,
        )
      ]

  -- Filling the tiles and labelling them gives the labelled cells.
  pub filled-labelled :
      (tiles : List (List (Option (Cell ops))))
      → HasShape size_x size_y tiles
      → (g : Grid ops) × (and_then
            (fill_grid ops cell_size size_x size_y (plain none size_x size_y tiles))
            (label_grid ops test side)
          ≡ some g)
        × IsPlain ops size_x size_y g
        × ((x y : ℕ) → x < size_x → y < size_y → tile ops g x y ≡ new x y)
  unfolding label_grid
  filled-labelled tiles shape =
      let f = fill_grid-filled ops cell_size size_x size_y tiles shape in
      let h = plain none size_x size_y f.2.0 in
      let l =
        sweep (λ g x y. tile ops g x y) (IsPlain ops size_x size_y) size_x size_y old new
          (label_cell ops test side) label_round h (f.2.0, refl, f.2.2)
          (λ i j hi hj. ap (λ k. tile ops k i j) (sym f.2.1) ∙ f.3 j i hj hi) in
      (l.0, ap (λ o. and_then o (label_grid ops test side)) (f.1 ∙ ap some f.2.1) ∙ l.1, l.2, l.3)
