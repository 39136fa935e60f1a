-- ===== src/Decomp/SquareGrid/Index.antt =====
-- Ids and indices of cells.
use native.Mathlib.Nat.{
  mul-add-div_right, mul-add-mod_self_right, mod-eq_of_lt, div-eq_of_lt, mod-lt, div-add-mod',
  div-lt_iff_lt-mul, zero-mul, mul_comm,
}
use robosw.Base.{ℕ, zero, suc, ◌+◌, ◌*◌, ◌/◌, ◌%◌, ◌<◌, ◌≡◌, ◌↔◌, ap, ◌∙◌, arith, ltb, false, ltb}
use robosw.Base.Int.{ℤ, pos, negsuc, sub_ℕ}
use robosw.Decomp.RectGrid.{RectGridIndex, in_range}
use robosw.Decomp.SquareGrid.{index_to_id, id_to_index}

pub index_to_id_pos : (size x y : ℕ) → index_to_id size (pos y) (pos x) ≡ pos (y * size + x)
unfolding index_to_id
index_to_id_pos size x y = ground arith

abbrev pub index : ℤ → ℤ → RectGridIndex
index x y = record { index_x = x; index_y = y }

pub quotient : (size x y : ℕ) → x < size → (y * size + x) / size ≡ y
quotient size x y h =
    mul-add-div_right (omega arith) y x ∙ ap (λ k. y + k) (div-eq_of_lt h) ∙ omega arith

pub remainder : (size x y : ℕ) → x < size → (y * size + x) % size ≡ x
remainder size x y h = mul-add-mod_self_right y size x ∙ mod-eq_of_lt h

-- The id of a cell of a grid gives back the cell's index.
pub id_to_index-index_to_id :
    (size x y : ℕ)
    → x < size
    → id_to_index size (index_to_id size (pos y) (pos x)) ≡ index (pos x) (pos y)
unfolding id_to_index
id_to_index-index_to_id size x y h = ap (id_to_index size) (index_to_id_pos size x y) ∙ λ i.
    index (pos (remainder size x y h i)) (pos (quotient size x y h i))

-- Truncated division and its remainder make the number up again.
negative :
    (size n q r : ℕ) → q * size + r ≡ suc n → index_to_id size (sub_ℕ 0 q) (sub_ℕ 0 r) ≡ negsuc n
unfolding index_to_id
negative size n zero zero e = ground (arith, zero-mul size)
negative size n zero (suc r) e = ground (arith, zero-mul size)
negative size n (suc q) zero e = ground arith
negative size n (suc q) (suc r) e = ground arith

-- Every id, negative ones too, is the one of its index in a grid that is not empty.
pub index_to_id-id_to_index :
    (size : ℕ) (id : ℤ)
    → index_to_id size (id_to_index size id).index_y (id_to_index size id).index_x ≡ id
unfolding id_to_index
index_to_id-id_to_index size (pos n) =
    index_to_id_pos size (n % size) (n / size) ∙ ap pos (div-add-mod' n size)
index_to_id-id_to_index size (negsuc n) =
    negative size n (suc n / size) (suc n % size) (div-add-mod' (suc n) size)

inside :
    (size_x size_y n q r : ℕ)
    → r < size_x
    → (q < size_y) ↔ (n < size_y * size_x)
    → in_range size_x size_y (pos r) (pos q) ≡ ltb n (size_x * size_y)
inside size_x size_y n q r h both = ground (arith, mul_comm size_x size_y, both.0, both.1)

outside :
    (size_x size_y n q r : ℕ)
    → q * size_x + r ≡ suc n
    → in_range size_x size_y (sub_ℕ 0 r) (sub_ℕ 0 q) ≡ false
outside size_x size_y n zero zero e = absurd (omega (arith, zero-mul size_x))
outside size_x size_y n zero (suc r) e = ground arith
outside size_x size_y n (suc q) zero e = ground arith
outside size_x size_y n (suc q) (suc r) e = ground arith

-- The index of an id lies in the grid for the ids below the number of cells ...
pub id_to_index-in_range :
    (size_x size_y n : ℕ)
    → 0 < size_x
    → in_range size_x size_y
        (id_to_index size_x (pos n)).index_x
        (id_to_index size_x (pos n)).index_y
      ≡ ltb n (size_x * size_y)
unfolding id_to_index
id_to_index-in_range size_x size_y n h =
    inside size_x size_y n (n / size_x) (n % size_x) (mod-lt n h) (div-lt_iff_lt-mul h)

-- ... and for no negative one.
pub id_to_index-negative :
    (size_x size_y n : ℕ)
    → in_range size_x size_y
        (id_to_index size_x (negsuc n)).index_x
        (id_to_index size_x (negsuc n)).index_y
      ≡ false
unfolding id_to_index
id_to_index-negative size_x size_y n =
    outside size_x size_y n (suc n / size_x) (suc n % size_x) (div-add-mod' (suc n) size_x)
