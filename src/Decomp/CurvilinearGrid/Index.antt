-- ===== src/Decomp/CurvilinearGrid/Index.antt =====
-- Ids and indices of the cells along a curve.
use native.Mathlib.Nat.{mul-le-mul_right, mul_comm}
use robosw.Base.{ℕ, ◌^◌, ◌+◌, ◌*◌, ◌/◌, ◌%◌, ◌≤◌, ◌<◌, ◌==◌, ◌≡◌, ap, ◌∙◌, arith}
use robosw.Base.Int.{ℤ, pos, negsuc, pos_part, neg_part, ◌+ℤ◌, ◌-ℤ◌, sub_ℕ, int32, signed32-word32}
use robosw.Decomp.CurvilinearGrid.{index_to_id, id_to_index, id_width}
use robosw.Decomp.SquareGrid.Index.{quotient, remainder}

-- The columns of a row: as many on each side of the curve.
abbrev pub IsColumn : ℕ → ℤ → Type 0
IsColumn half y = (pos_part y ≤ half) × (neg_part y ≤ half)

pub odd_width : (n : ℕ) → id_width (n % 2 == 0) n ≡ 2 * (n / 2) + 1
odd_width n = ground arith

shifted :
    (p half : ℕ) (y : ℤ)
    → IsColumn half y
    → pos p +ℤ y +ℤ pos half ≡ pos (p + pos_part (y +ℤ pos half))
shifted p half (pos n) h = ground (arith, h.0)
shifted p half (negsuc n) h = ground (arith, h.1)

back : (half : ℕ) (y : ℤ) → IsColumn half y → pos (pos_part (y +ℤ pos half)) -ℤ pos half ≡ y
back half (pos n) h = ground (arith, h.0)
back half (negsuc n) h = ground (arith, h.1)

pub bound : (half : ℕ) (y : ℤ) → IsColumn half y → pos_part (y +ℤ pos half) < 2 * half + 1
bound half (pos n) h = ground (arith, h.0)
bound half (negsuc n) h = ground (arith, h.1)

pub place : (half : ℕ) (y : ℤ) → IsColumn half y → y +ℤ pos half ≡ pos (pos_part (y +ℤ pos half))
place half (pos n) h = ground (arith, h.0)
place half (negsuc n) h = ground (arith, h.1)

pub column : (half : ℕ) (y : ℤ) → IsColumn half y → sub_ℕ (0 + pos_part (y +ℤ pos half)) half ≡ y
column half (pos n) h = ground (arith, h.0)
column half (negsuc n) h = ground (arith, h.1)

below_product : (x h : ℕ) → x ≤ x * (2 * h + 1)
below_product x h =
    let one : 1 ≤ 2 * h + 1 = omega arith in
    omega (arith, mul-le-mul_right x one, mul_comm x (2 * h + 1))

fits : (n : ℕ) → n < 2 ^ 31 → int32 (pos n) ≡ pos n
fits n h = signed32-word32 (pos n) (omega arith) (omega (arith, h))

fits_column : (half : ℕ) (y : ℤ) → IsColumn half y → half < 2 ^ 31 → int32 y ≡ y
fits_column half (pos n) c h = fits n (omega (arith, c.0, h))
fits_column half (negsuc n) c h = signed32-word32 (negsuc n) (omega (arith, c.1, h)) (omega arith)

-- For any number of columns, odd or even, the id of a cell gives back its index, where the last id of its row is
-- below 2^31.
pub path_index-there_back :
    (d_num x : ℕ) (y : ℤ)
    → IsColumn (d_num / 2) y
    → x * (2 * (d_num / 2) + 1) + 2 * (d_num / 2) < 2 ^ 31
    → id_to_index
        (d_num % 2 == 0)
        d_num
        (d_num / 2)
        (index_to_id (d_num % 2 == 0) d_num (d_num / 2) x y)
      ≡ record { index_x = pos x; index_y = y }
unfolding id_to_index index_to_id
path_index-there_back d_num x y h last =
    let half = d_num / 2 in
    let w = 2 * half + 1 in
    let n = pos_part (y +ℤ pos half) in
    let lt = bound half y h in
    rw (odd_width d_num, shifted (x * w) half y h, fits (x * w + n) (omega (arith, lt, last)))
      (λ i. record {
        index_x =
            (ap (λ q. int32 (pos q)) (quotient w n x lt)
                ∙ fits x (omega (arith, below_product x half, last)))
              i;
        index_y =
            (ap (λ r. int32 (pos r -ℤ pos half)) (remainder w n x lt)
                ∙ ap int32 (back half y h)
                ∙ fits_column half y h (omega (arith, last)))
              i;
      })
