-- ===== src/Decomp/CurvilinearGrid/Neighbours.antt =====
-- The rows that `GetNeighbours` returns.
use robosw.Base.{
  ℕ, zero, suc, ◌+◌, ◌-◌, ◌*◌, ◌≤◌, ◌<◌, ltb, ◌≡◌, refl, ap, sym, ◌∙◌, arith, true, false,
  Bool-cases, inl, inr, some, List, [], ◌∷◌, ◌++◌, length, get_elem?, take, drop,
}
use robosw.Base.Int.{ℤ, pos, pos_part, ◌+ℤ◌, ◌-ℤ◌, sub_ℕ, ltb_ℤ}
use robosw.Base.Float.{RealOps}
use robosw.Decomp.CurvilinearGrid.{
  Cell, Grid, get_cell, neighbour_row, neighbour_rows, get_neighbours,
}

abbrev pub concat : {A : Type 0} → List (List A) → List A
concat [] = []
concat (xs ∷ xss) = xs ++ concat xss

drop-get_elem? :
    {A : Type 0} (xs : List A) (n : ℕ)
    → n < length xs
    → (a : A) × (get_elem? xs n ≡ some a) × (drop n xs ≡ a ∷ drop (suc n) xs)
drop-get_elem? [] n h = absurd (omega arith)
drop-get_elem? (x ∷ xs) zero h = (x, refl, refl)
drop-get_elem? (x ∷ xs) (suc n) h = let r = drop-get_elem? xs n (omega arith) in (r.0, r.1, r.2)

drop-all : {A : Type 0} (xs : List A) (n : ℕ) → length xs ≤ n → drop n xs ≡ []
drop-all [] zero h = refl
drop-all [] (suc n) h = refl
drop-all (x ∷ xs) zero h = absurd (omega arith)
drop-all (x ∷ xs) (suc n) h = drop-all xs n (omega arith)

module _ (ops : RealOps) (g : Grid ops) (whole : g.center_cell_null ≡ false)
    (full : (x : ℕ) (row : List (Cell ops))
      → get_elem? g.grid_tiles x ≡ some row
      → length row ≡ 2 * g.delta_half_num + 1) where
  half_back : (n half : ℕ) → sub_ℕ n half +ℤ pos half ≡ pos n
  half_back n half = ground arith

  row_rest :
      (x : ℕ) (row : List (Cell ops)) (count n : ℕ)
      → get_elem? g.grid_tiles x ≡ some row
      → n + count ≡ length row
      → neighbour_row ops g (pos x) count n ≡ some (drop n row)
  unfolding neighbour_row get_cell
  row_rest x row zero n e len = ap some (sym (drop-all row n (omega arith)))
  row_rest x row (suc count) n e len =
      let here = drop-get_elem? row n (omega arith) in
      rw
        (
          whole,
          e,
          half_back n g.delta_half_num,
          here.1,
          row_rest x row count (suc n) e (omega arith),
        )
        (ap some (sym here.2))

  in_grid : (x l n : ℕ) → x + l < n → ltb_ℤ (pos x +ℤ pos l) (pos n) ≡ true
  in_grid x l n h = ground arith

  past_grid : (x l n : ℕ) → n ≤ x + l → ltb_ℤ (pos x +ℤ pos l) (pos n) ≡ false
  past_grid x l n h = ground arith

  rows_rest :
      (x count l : ℕ)
      → neighbour_rows ops g (pos x) count (pos l)
        ≡ some (concat (take count (drop (x + l) g.grid_tiles)))
  unfolding neighbour_rows
  rows_rest x zero l = refl
  rows_rest x (suc count) l = elim (Bool-cases (ltb (x + l) (length g.grid_tiles))) [
    | inl e ↦
        let here = drop-get_elem? g.grid_tiles (x + l) (ground arith) in
        rw
          (
            in_grid x l (length g.grid_tiles) (ground arith),
            add_pos x l,
            add_pos l 1,
            row_rest (x + l) here.0 (2 * g.delta_half_num + 1) 0 here.1
                (omega (arith, full (x + l) here.0 here.1)),
            rows_rest x count (l + 1),
            here.2,
          )
          (ap (λ k. some (here.0 ++ concat (take count (drop k g.grid_tiles)))) (next x l))
    | inr e ↦
        rw
          (
            past_grid x l (length g.grid_tiles) (ground arith),
            drop-all g.grid_tiles (x + l) (ground arith),
          )
          refl
  ]
    where
      add_pos : (a b : ℕ) → pos a +ℤ pos b ≡ pos (a + b)
      add_pos a b = ground arith

      next : (a b : ℕ) → a + (b + 1) ≡ suc (a + b)
      next a b = omega arith

  -- In a grid with the cells of the curve, where each row is complete, the neighbours from `lo` to `hi` rows on are the
  -- cells of those rows that the grid has, row by row.
  pub get_neighbours-rows :
      (x : ℕ) (y : ℤ) (lo hi : ℕ)
      → get_neighbours ops g (pos x) y (pos lo) (pos hi)
        ≡ some (concat (take (hi + 1 - lo) (drop (x + lo) g.grid_tiles)))
  unfolding get_neighbours
  get_neighbours-rows x y lo hi =
      ap (λ n. neighbour_rows ops g (pos x) n (pos lo)) (rounds lo hi)
      ∙ rows_rest x (hi + 1 - lo) lo
    where
      rounds : (lo hi : ℕ) → pos_part (pos hi +ℤ pos 1 -ℤ pos lo) ≡ hi + 1 - lo
      rounds lo hi = ground arith
