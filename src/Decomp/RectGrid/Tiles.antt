-- ===== src/Decomp/RectGrid/Tiles.antt =====
-- The tiles of a grid, read back after a write and after a resize.
use robosw.Base.{
  ℕ, zero, suc, ◌-◌, ◌<◌, ◌≡◌, ◌≢◌, ◌⊎◌, inl, inr, refl, ap, ◌∙◌, subst, arith, List, [], ◌∷◌, ◌++◌,
  map, length, get_or, set, take, replicate, length-append, length-take, length-replicate,
  length-set, get_or-set_self, get_or-set_ne, some,
}
use robosw.Base.Int.{pos}
use robosw.Base.Sweep.{same}
use robosw.Decomp.RectGrid.{
  RectGrid, resize, resize_grid_tiles, get_tile_at_coordinate, set_tile_at_coordinate,
  set_tile_at_raw_coordinate, get_tile_at_raw_coordinate, set_tile_at_grid_coordinate,
  get_tile_at_grid_coordinate, convert_to_raw_coordinate,
}

-- `size_y` rows of `size_x` tiles.
abbrev pub HasShape : {T : Type 0} → ℕ → ℕ → List (List T) → Type 0
HasShape size_x size_y tiles =
    (length tiles ≡ size_y) × ((y : ℕ) → y < size_y → length (get_or tiles y []) ≡ size_x)

module _ {A : Type 0} where
  length-resize : (n : ℕ) (a : A) (xs : List A) → length (resize n a xs) ≡ n
  unfolding resize
  length-resize n a xs =
      length-append (take n xs) (replicate (n - length xs) a)
      ∙ omega (arith, length-take n xs, length-replicate (n - length xs) a)

  get_or-replicate : (n i : ℕ) (a : A) → get_or (replicate n a) i a ≡ a
  get_or-replicate zero i a = refl
  get_or-replicate (suc n) zero a = refl
  get_or-replicate (suc n) (suc i) a = get_or-replicate n i a

  get_or-resize :
      (n i : ℕ) (a : A) (xs : List A) → i < n → get_or (resize n a xs) i a ≡ get_or xs i a
  unfolding resize
  get_or-resize zero i a xs h = absurd (omega arith)
  get_or-resize (suc n) i a [] h = get_or-replicate (suc n - 0) i a
  get_or-resize (suc n) zero a (x ∷ xs) h = refl
  get_or-resize (suc n) (suc i) a (x ∷ xs) h =
      subst (λ k. get_or (take n xs ++ replicate k a) i a ≡ get_or xs i a) (omega arith)
        (get_or-resize n i a xs (omega arith))

get_or-map :
    {A B : Type 0} (f : A → B) (xs : List A) (i : ℕ) (a : A) (b : B)
    → i < length xs
    → get_or (map f xs) i b ≡ f (get_or xs i a)
get_or-map f [] i a b h = absurd (omega arith)
get_or-map f (x ∷ xs) zero a b h = refl
get_or-map f (x ∷ xs) (suc i) a b h = get_or-map f xs i a b (omega arith)

length-map : {A B : Type 0} (f : A → B) (xs : List A) → length (map f xs) ≡ length xs
length-map f [] = refl
length-map f (x ∷ xs) = ap suc (length-map f xs)

module _ {T : Type 0} (blank : T) where
  row :
      (x y : ℕ) (tiles : List (List T)) (j : ℕ)
      → j < y
      → get_or (resize_grid_tiles blank x y tiles) j [] ≡ resize x blank (get_or tiles j [])
  unfolding resize_grid_tiles
  row x y tiles j h =
      get_or-map (resize x blank) (resize y [] tiles) j [] []
        (omega (arith, length-resize y [] tiles))
      ∙ ap (resize x blank) (get_or-resize y j [] tiles h)

  pub resized-length :
      (x y : ℕ) (tiles : List (List T)) → length (resize_grid_tiles blank x y tiles) ≡ y
  unfolding resize_grid_tiles
  resized-length x y tiles =
      length-map (resize x blank) (resize y [] tiles) ∙ length-resize y [] tiles

  pub resized-row :
      (x y : ℕ) (tiles : List (List T)) (j : ℕ)
      → j < y
      → length (get_or (resize_grid_tiles blank x y tiles) j []) ≡ x
  resized-row x y tiles j h =
      ap length (row x y tiles j h) ∙ length-resize x blank (get_or tiles j [])

  -- A tile inside the new size is the one that was there, or blank.
  pub get-resize_grid_tiles :
      (x y : ℕ) (tiles : List (List T)) (i j : ℕ)
      → i < x
      → j < y
      → get_tile_at_coordinate blank (resize_grid_tiles blank x y tiles) i j
        ≡ get_tile_at_coordinate blank tiles i j
  unfolding get_tile_at_coordinate
  get-resize_grid_tiles x y tiles i j hx hy =
      ap (λ r. get_or r i blank) (row x y tiles j hy)
      ∙ get_or-resize x i blank (get_or tiles j []) hx

  pub get-set_self :
      (tiles : List (List T)) (x y : ℕ) (v : T)
      → y < length tiles
      → x < length (get_or tiles y [])
      → get_tile_at_coordinate blank (set_tile_at_coordinate tiles x y v) x y ≡ v
  unfolding get_tile_at_coordinate set_tile_at_coordinate
  get-set_self tiles x y v hy hx =
      ap (λ r. get_or r x blank) (get_or-set_self tiles y (set (get_or tiles y []) x v) [] hy)
      ∙ get_or-set_self (get_or tiles y []) x v blank hx

  pub get-set_ne :
      (tiles : List (List T)) (x y i j : ℕ) (v : T)
      → y < length tiles
      → (x ≢ i) ⊎ (y ≢ j)
      → get_tile_at_coordinate blank (set_tile_at_coordinate tiles x y v) i j
        ≡ get_tile_at_coordinate blank tiles i j
  unfolding get_tile_at_coordinate set_tile_at_coordinate
  get-set_ne tiles x y i j v hy (inr ne) = ap (λ r. get_or r i blank) (get_or-set_ne tiles _ [] ne)
  get-set_ne tiles x y i j v hy (inl ne) = elim (same y j) [
    | inl e ↦
        subst
          (λ k.
            get_or (get_or (set tiles y (set (get_or tiles y []) x v)) k []) i blank
            ≡ get_or (get_or tiles k []) i blank)
          e
          (ap (λ r. get_or r i blank) (get_or-set_self tiles y _ [] hy)
            ∙ get_or-set_ne (get_or tiles y []) v blank ne)
    | inr e ↦ ap (λ r. get_or r i blank) (get_or-set_ne tiles _ [] e)
  ]

  pub row-set :
      (tiles : List (List T)) (x y j : ℕ) (v : T)
      → y < length tiles
      → length (get_or (set_tile_at_coordinate tiles x y v) j []) ≡ length (get_or tiles j [])
  unfolding set_tile_at_coordinate
  row-set tiles x y j v hy = elim (same y j) [
    | inl e ↦
        subst
          (λ k.
            length (get_or (set tiles y (set (get_or tiles y []) x v)) k [])
            ≡ length (get_or tiles k []))
          e (ap length (get_or-set_self tiles y _ [] hy) ∙ length-set (get_or tiles y []) x v)
    | inr e ↦ ap length (get_or-set_ne tiles _ [] e)
  ]

  -- A grid whose origin is at the first tile.
  abbrev pub plain : ℕ → ℕ → List (List T) → RectGrid T
  plain size_x size_y tiles = record {
    size_x = size_x;
    size_y = size_y;
    origin_offset_x = pos 0;
    origin_offset_y = pos 0;
    grid_tiles = tiles;
  }

  pub HasShape-resize :
      (x y : ℕ) (tiles : List (List T)) → HasShape x y (resize_grid_tiles blank x y tiles)
  HasShape-resize x y tiles = (resized-length x y tiles, resized-row x y tiles)

  pub HasShape-set :
      (size_x size_y : ℕ) (tiles : List (List T)) (x y : ℕ) (v : T)
      → HasShape size_x size_y tiles
      → y < size_y
      → HasShape size_x size_y (set_tile_at_coordinate tiles x y v)
  unfolding set_tile_at_coordinate
  HasShape-set size_x size_y tiles x y v shape hy = (
    length-set tiles y _ ∙ shape.0,
    λ j hj. row-set tiles x y j v (omega (arith, shape.0)) ∙ shape.1 j hj,
  )

  pub set-plain :
      (size_x size_y : ℕ) (tiles : List (List T)) (x y : ℕ) (v : T)
      → x < size_x
      → y < size_y
      → set_tile_at_grid_coordinate blank (plain size_x size_y tiles) (pos x) (pos y) v
        ≡ some (plain size_x size_y (set_tile_at_coordinate tiles x y v))
  unfolding set_tile_at_grid_coordinate set_tile_at_raw_coordinate convert_to_raw_coordinate
  set-plain size_x size_y tiles x y v hx hy = ground arith

  pub set_raw-plain :
      (size_x size_y : ℕ) (tiles : List (List T)) (x y : ℕ) (v : T)
      → x < size_x
      → y < size_y
      → set_tile_at_raw_coordinate blank (plain size_x size_y tiles) (pos x) (pos y) v
        ≡ some (plain size_x size_y (set_tile_at_coordinate tiles x y v))
  unfolding set_tile_at_raw_coordinate
  set_raw-plain size_x size_y tiles x y v hx hy = ground arith

  pub get-plain :
      (size_x size_y : ℕ) (tiles : List (List T)) (x y : ℕ)
      → x < size_x
      → y < size_y
      → get_tile_at_grid_coordinate blank (plain size_x size_y tiles) (pos x) (pos y)
        ≡ some (get_tile_at_coordinate blank tiles x y)
  unfolding get_tile_at_grid_coordinate get_tile_at_raw_coordinate convert_to_raw_coordinate
  get-plain size_x size_y tiles x y hx hy = ground arith
