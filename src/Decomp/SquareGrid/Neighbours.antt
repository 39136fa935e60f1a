-- ===== src/Decomp/SquareGrid/Neighbours.antt =====
-- Which cells `GetNeighbours` returns.
use robosw.Base.{
  ℕ, ◌+◌, ◌≡◌, ltb, leb, ◌==◌, ◌&&◌, ◌||◌, not, refl, ap, ◌∙◌, arith, Bool, true, false, Option,
  some, List, [], ◌∷◌, map, if◌then◌else◌, Bool-cases, inl, inr,
}
use robosw.Base.Int.{ℤ, pos, negsuc, pos_part, ◌+ℤ◌, ◌-ℤ◌, eqb_ℤ}
use robosw.Base.Float.{RealOps}
use robosw.Decomp.RectGrid.{RectGridIndex, get_tile_at_raw_coordinate, in_range}
use robosw.Decomp.SquareGrid.{Cell, Grid, candidates, keep_tiles, get_neighbours}
use robosw.Decomp.SquareGrid.Build.{tile}

-- (i, j) is one step from (x, y): along an axis, or with `diag` along both.
abbrev pub near : Bool → (x y i j : ℕ) → Bool
near true x y i j =
    (leb i (x + 1) && leb x (i + 1)) && (leb j (y + 1) && leb y (j + 1)) && not (i == x && j == y)
near false x y i j =
    (i == x && (j == y + 1 || y == j + 1)) || (j == y && (i == x + 1 || x == i + 1))

-- (i, j) is one of the pairs.
abbrev pub has : List (ℕ × ℕ) → (i j : ℕ) → Bool
has [] i j = false
has (p ∷ ps) i j = (p.0 == i && p.1 == j) || has ps i j

abbrev among : List RectGridIndex → (i j : ℕ) → Bool
among [] i j = false
among (c ∷ cs) i j = (eqb_ℤ c.index_x (pos i) && eqb_ℤ c.index_y (pos j)) || among cs i j

-- Where a number is, seen from another.
data Side : Type 0 where
  below here above far : Side

abbrev is_below : Side → Bool
is_below below = true
is_below _ = false

abbrev is_here : Side → Bool
is_here here = true
is_here _ = false

abbrev is_above : Side → Bool
is_above above = true
is_above _ = false

abbrev is_near : Side → Bool
is_near far = false
is_near _ = true

-- The three tests that the candidates make of a coordinate, and the one of `near`.
abbrev Seen : (x i : ℕ) → Side → Type 0
Seen x i s =
    (eqb_ℤ (pos x -ℤ pos 1) (pos i) ≡ is_below s)
    × (eqb_ℤ (pos x) (pos i) ≡ is_here s)
    × (eqb_ℤ (pos x +ℤ pos 1) (pos i) ≡ is_above s)
    × ((leb i (x + 1) && leb x (i + 1)) ≡ is_near s)
    × ((i == x) ≡ is_here s)
    × ((i == x + 1) ≡ is_above s)
    × ((x == i + 1) ≡ is_below s)

see : (x i : ℕ) → (s : Side) × Seen x i s
see x i = elim (Bool-cases (x == i + 1)) [
  | inl e ↦ (
    below,
    (
      ground arith,
      ground arith,
      ground arith,
      ground arith,
      ground arith,
      ground arith,
      ground arith,
    ),
  )
  | inr e ↦ elim (Bool-cases (x == i)) [
    | inl f ↦ (
      here,
      (
        ground arith,
        ground arith,
        ground arith,
        ground arith,
        ground arith,
        ground arith,
        ground arith,
      ),
    )
    | inr f ↦ elim (Bool-cases (x + 1 == i)) [
      | inl g ↦ (
        above,
        (
          ground arith,
          ground arith,
          ground arith,
          ground arith,
          ground arith,
          ground arith,
          ground arith,
        ),
      )
      | inr g ↦ (
        far,
        (
          ground arith,
          ground arith,
          ground arith,
          ground arith,
          ground arith,
          ground arith,
          ground arith,
        ),
      )
    ]
  ]
]

eight :
    (s t : Side)
    → ((is_below s && is_below t)
        || ((is_below s && is_here t)
            || ((is_below s && is_above t)
                || ((is_here s && is_below t)
                    || ((is_here s && is_above t)
                        || ((is_above s && is_below t)
                            || ((is_above s && is_here t)
                                || ((is_above s && is_above t) || false))))))))
      ≡ (is_near s && is_near t && not (is_here s && is_here t))
eight below below = refl
eight below here = refl
eight below above = refl
eight below far = refl
eight here below = refl
eight here here = refl
eight here above = refl
eight here far = refl
eight above below = refl
eight above here = refl
eight above above = refl
eight above far = refl
eight far below = refl
eight far here = refl
eight far above = refl
eight far far = refl

four :
    (s t : Side)
    → ((is_here s && is_above t)
        || ((is_here s && is_below t)
            || ((is_above s && is_here t) || ((is_below s && is_here t) || false))))
      ≡ ((is_here s && (is_above t || is_below t)) || (is_here t && (is_above s || is_below s)))
four below below = refl
four below here = refl
four below above = refl
four below far = refl
four here below = refl
four here here = refl
four here above = refl
four here far = refl
four above below = refl
four above here = refl
four above above = refl
four above far = refl
four far below = refl
four far here = refl
four far above = refl
four far far = refl

pub among-candidates :
    (x y : ℕ) (diag : Bool) (i j : ℕ)
    → among (candidates (pos x) (pos y) diag) i j ≡ near diag x y i j
unfolding candidates
among-candidates x y true i j =
    let s = see x i in
    let t = see y j in
    rw (s.1.0, s.1.1, s.1.2, s.1.3, s.1.4, t.1.0, t.1.1, t.1.2, t.1.3, t.1.4) (eight s.0 t.0)
among-candidates x y false i j =
    let s = see x i in
    let t = see y j in
    rw (s.1.0, s.1.1, s.1.2, s.1.4, s.1.5, s.1.6, t.1.0, t.1.1, t.1.2, t.1.4, t.1.5, t.1.6)
      (four s.0 t.0)

-- The indices inside the grid.
abbrev keep : (size_x size_y : ℕ) → List RectGridIndex → List (ℕ × ℕ)
keep size_x size_y [] = []
keep size_x size_y (c ∷ cs) =
    if in_range size_x size_y c.index_x c.index_y
    then (pos_part c.index_x, pos_part c.index_y) ∷ keep size_x size_y cs
    else keep size_x size_y cs

-- An index that is kept is seen as it was, and one that is not is no cell of the grid.
one_kept :
    (size_x size_y : ℕ) (a b : ℤ) (i j : ℕ)
    → in_range size_x size_y a b ≡ true
    → (pos_part a == i && pos_part b == j)
      ≡ (ltb i size_x && ltb j size_y && (eqb_ℤ a (pos i) && eqb_ℤ b (pos j)))
one_kept size_x size_y (pos a) (pos b) i j h = ground arith
one_kept size_x size_y (pos a) (negsuc b) i j h = ground arith
one_kept size_x size_y (negsuc a) b i j h = ground arith

one_left :
    (size_x size_y : ℕ) (a b : ℤ) (i j : ℕ)
    → in_range size_x size_y a b ≡ false
    → (ltb i size_x && ltb j size_y && (eqb_ℤ a (pos i) && eqb_ℤ b (pos j))) ≡ false
one_left size_x size_y (pos a) (pos b) i j h = ground arith
one_left size_x size_y (pos a) (negsuc b) i j h = ground arith
one_left size_x size_y (negsuc a) b i j h = ground arith

and_or : (p a b : Bool) → (p && (a || b)) ≡ ((p && a) || (p && b))
and_or true a b = refl
and_or false a b = refl

has-keep :
    (size_x size_y : ℕ) (cs : List RectGridIndex) (i j : ℕ)
    → has (keep size_x size_y cs) i j ≡ (ltb i size_x && ltb j size_y && among cs i j)
has-keep size_x size_y [] i j = ground arith
has-keep size_x size_y (c ∷ cs) i j =
    elim (Bool-cases (in_range size_x size_y c.index_x c.index_y)) [
      | inl e ↦
          rw
            (
              e,
              and_or (ltb i size_x && ltb j size_y)
                  (eqb_ℤ c.index_x (pos i) && eqb_ℤ c.index_y (pos j)) (among cs i j),
            )
            (λ k.
              one_kept size_x size_y c.index_x c.index_y i j e k || has-keep size_x size_y cs i j k)
      | inr e ↦
          rw
            (
              e,
              and_or (ltb i size_x && ltb j size_y)
                  (eqb_ℤ c.index_x (pos i) && eqb_ℤ c.index_y (pos j)) (among cs i j),
            )
            (rw (one_left size_x size_y c.index_x c.index_y i j e) (has-keep size_x size_y cs i j))
    ]

module _ (ops : RealOps) where
  -- The tiles of a list of places.
  abbrev pub tiles_at : Grid ops → List (ℕ × ℕ) → List (Option (Cell ops))
  tiles_at g = map (λ p. tile ops g p.0 p.1)

  keep_tiles-keep :
      (g : Grid ops) (cs : List RectGridIndex)
      → keep_tiles ops g cs ≡ some (tiles_at g (keep g.size_x g.size_y cs))
  unfolding keep_tiles get_tile_at_raw_coordinate
  keep_tiles-keep g [] = refl
  keep_tiles-keep g (c ∷ cs) = elim (Bool-cases (in_range g.size_x g.size_y c.index_x c.index_y)) [
    | inl e ↦ rw (e, keep_tiles-keep g cs) refl
    | inr e ↦ rw (e, keep_tiles-keep g cs) refl
  ]

  -- The neighbours of (x, y) are the tiles of some places: those of the grid that are one step away from
  -- (x, y), along the axes or with `diag` diagonally too, and no others.
  pub get_neighbours-near :
      (g : Grid ops) (x y : ℕ) (diag : Bool)
      → (places : List (ℕ × ℕ)) × (get_neighbours ops g (pos x) (pos y) diag
          ≡ some (tiles_at g places))
        × ((i j : ℕ) → has places i j ≡ (ltb i g.size_x && ltb j g.size_y && near diag x y i j))
  unfolding get_neighbours
  get_neighbours-near g x y diag =
      let cs = candidates (pos x) (pos y) diag in
      (
        keep g.size_x g.size_y cs,
        keep_tiles-keep g cs,
        λ i j.
            has-keep g.size_x g.size_y cs i j
            ∙ ap (λ b. ltb i g.size_x && ltb j g.size_y && b) (among-candidates x y diag i j),
      )
