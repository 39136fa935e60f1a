-- ===== src/RingBuffer/Inv.antt =====
-- The representation invariant of `RingBuffer`, and what its masked index arithmetic means.
use native.Mathlib.Nat.{mod-mod_of_dvd, mod-add-mod, mod-eq_of_lt, mod-eq-sub-mod, mod-lt}
use native.Mathlib.Nat.{
  one-le-pow, pow-le-pow_right, dvd-mul_right, mul-dvd-mul_right, pow-suc, add_assoc,
}
use native.Mathlib.Decide.{dec_lt}
use Prim.Native.Nat.{◌∣◌}
use robosw.Base.{
  ℕ, zero, suc, ◌+◌, ◌-◌, ◌%◌, ◌^◌, ◌≤◌, ◌<◌, ◌≡◌, ap, sym, subst, ◌∙◌, arith, bit_and,
  bit_and-mask, length, ◌==◌,
}
use robosw.RingBuffer.{
  RingBuffer, size_t, sub_size, is_empty, is_full, get_occupied_size, get_free_size,
}

-- The size is a power of two that a `std::size_t` holds, the mask goes with it, and the write index
-- is ahead of the read index by less than the size, counted modulo 2 ^ 64.
pub record IsValid {ℓ} {T : Type ℓ} (bits : ℕ) (r : RingBuffer T) : Type 0 where
  pub small : bits < 64
  pub size_pow : r.size ≡ 2 ^ bits
  pub mask : r.size_mask ≡ r.size - 1
  pub memory : length r.buffer ≡ r.size
  pub write_in : r.write_index < 2 ^ 64
  pub read_in : r.read_index < 2 ^ 64
  pub ahead : sub_size r.write_index r.read_index < r.size

-- How many elements are stored.
abbrev pub count {ℓ} : {T : Type ℓ} → RingBuffer T → ℕ
count r = sub_size r.write_index r.read_index

two_pow_dvd : (k n : ℕ) → k ≤ n → 2 ^ k ∣ 2 ^ n
two_pow_dvd zero n h = subst (λ (t : ℕ). 1 ∣ t) (omega arith) (dvd-mul_right 1 (2 ^ n))
two_pow_dvd (suc k) zero h = absurd (omega arith)
two_pow_dvd (suc k) (suc n) h =
    rw (pow-suc 2 k, pow-suc 2 n) (mul-dvd-mul_right (2 ^ k) (two_pow_dvd k n (omega arith)) 2)

-- A `std::size_t` that is reduced further loses nothing by its own wrap.
pub narrow : (k x : ℕ) → k < 64 → size_t x % 2 ^ k ≡ x % 2 ^ k
narrow k x h = mod-mod_of_dvd (2 ^ k) x (two_pow_dvd k 64 (omega arith))

-- A step of less than a full turn comes back to no place but after a full turn.
pub turn : (s a j : ℕ) → 0 < s → 0 < j → j ≤ s → ((a + j) % s == a % s) ≡ (j == s)
turn s a j hs hj le = elim (dec_lt (a % s + j) s) [
  | yes p ↦ ground (arith, mod-add-mod a s j, mod-eq_of_lt p)
  | no p ↦ ground (
    arith,
    mod-add-mod a s j,
    mod-lt a hs,
    mod-eq-sub-mod {n = a % s + j} {m = s} (omega arith),
    mod-eq_of_lt {n = a % s + j - s} {m = s} (omega (arith, mod-lt a hs)),
  )
]

module _ {ℓ} {T : Type ℓ} {bits : ℕ} {r : RingBuffer T} (v : IsValid bits r) where
  pub size_pos : 0 < r.size
  size_pos = rw v.size_pow (one-le-pow bits 2 (omega arith))

  pub masked : (x : ℕ) → bit_and x r.size_mask ≡ x % r.size
  masked x = rw (v.mask, v.size_pow) (bit_and-mask bits x)

  pub narrowed : (x : ℕ) → size_t x % r.size ≡ x % r.size
  narrowed x = rw v.size_pow (narrow bits x v.small)

  pub size-le : r.size ≤ 2 ^ 63
  size-le = rw v.size_pow (pow-le-pow_right {n = 2} (omega arith) {i = bits} {j = 63} (omega arith))

  pub write-eq : size_t (r.read_index + count r) ≡ r.write_index
  write-eq = omega (arith, v.write_in, v.read_in)

  -- The masked write index lies where the unwrapped one does.
  pub write_place :
      (j : ℕ) → size_t (r.write_index + j) % r.size ≡ (r.read_index + count r + j) % r.size
  write_place j =
      ap (λ t. size_t (t + j) % r.size) (sym write-eq)
      ∙ (ap (λ t. t % r.size) (mod-add-mod (r.read_index + count r) (2 ^ 64) j)
          ∙ narrowed (r.read_index + count r + j))

  -- `IsEmpty` tells whether nothing is stored, `IsFull` whether all but one place is in use.
  pub is_empty-count : is_empty r ≡ (count r == 0)
  unfolding is_empty
  is_empty-count = ground (arith, v.write_in, v.read_in)

  pub is_full-count : is_full r ≡ (count r + 1 == r.size)
  unfolding is_full
  is_full-count =
      rw (masked, masked, write_place, add_assoc)
        (turn r.size r.read_index (count r + 1) size_pos (omega arith) (omega (arith, v.ahead)))

  -- `GetOccupiedSize` and `GetFreeSize` add up to the usable size, N - 1.
  pub occupied-count : get_occupied_size r ≡ count r
  unfolding get_occupied_size
  occupied-count = masked (count r) ∙ mod-eq_of_lt v.ahead

  pub free-add-count : get_free_size r + count r + 1 ≡ r.size
  unfolding get_free_size
  free-add-count = rw (masked, mod-eq_of_lt v.ahead) (omega (arith, size_pos, size-le, v.ahead))
