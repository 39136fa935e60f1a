-- ===== src/Decomp/DenseGrid/Cut.antt =====
-- The part of the numbers that the cells stand for.
use native.Mathlib.Nat.{
  div-add-mod', mul_right_comm, div-div-eq-div-mul, mul-div-mul_right, mul-mod_left,
}
use robosw.Base.{
  ℕ, ◌+◌, ◌*◌, ◌/◌, ◌%◌, ◌<◌, ◌≤◌, ◌≡◌, refl, ◌==◌, ap, ◌∙◌, arith, Bool-cases, inl, inr,
}
use robosw.Decomp.DenseGrid.{cells_of, start_of}

start_of-le : (n side : ℕ) → start_of n side ≤ n / 2 % side
unfolding start_of
start_of-le n side = elim (Bool-cases (n % side == 0)) [
  | inl e ↦ rw e (omega arith)
  | inr e ↦ rw e (omega arith)
]

-- The blocks of the cells lie inside the numbers: none is read past the end.
pub cells_of-inside : (n side : ℕ) → start_of n side + cells_of n side * side ≤ n
unfolding cells_of
cells_of-inside n side =
    omega
      (arith, start_of-le n side, div-add-mod' (n / 2) side, mul_right_comm (n / 2 / side) 2 side)

-- An odd number of whole blocks loses the last one: there are cells for 2 * k of 2 * k + 1 blocks, and
-- they start at the first.
pub cells_of-odd :
    (k side : ℕ)
    → 0 < side
    → (cells_of ((2 * k + 1) * side) side ≡ 2 * k) × (start_of ((2 * k + 1) * side) side ≡ 0)
unfolding cells_of start_of
cells_of-odd k side h = (
  ap (λ q. q * 2)
        (div-div-eq-div-mul ((2 * k + 1) * side) 2 side
          ∙ mul-div-mul_right (2 * k + 1) 2 h
          ∙ halved k)
      ∙ doubled k,
  rw (mul-mod_left (2 * k + 1) side) refl,
)
  where
    halved : (k : ℕ) → (2 * k + 1) / 2 ≡ k
    halved k = omega arith

    doubled : (k : ℕ) → k * 2 ≡ 2 * k
    doubled k = omega arith
