-- ===== src/Base/Step.antt =====
-- One equation for the lowest binary digit of each bit operation, from the recursion with fuel that
-- the operation stands for.
use Prim.Native.Nat.{ℕ, zero, suc, ◌+◌, ◌*◌, ◌/◌, ◌%◌, ◌≤◌, min, max, differ}
use Prim.Native.Nat.{digits, bit_and, bit_or, bit_xor}
use Prim.Native.Nat.{bit_and-bitwise, bit_or-bitwise, bit_xor-bitwise}
use mathlib.Core.Path.{◌≡◌, refl, ap}
use native.Mathlib.Omega.{arith}

module _ (rest : ℕ → ℕ) (op : ℕ → ℕ → ℕ) where
  -- Any two amounts of fuel that reach the number's value agree.
  agree : (a b f g : ℕ) → a ≤ f → a ≤ g → digits rest op f a b ≡ digits rest op g a b
  agree zero b zero zero hf hg = refl
  agree zero b zero (suc g) hf hg = refl
  agree zero b (suc f) zero hf hg = refl
  agree zero b (suc f) (suc g) hf hg = refl
  agree (suc a) b zero g hf hg = absurd (omega arith)
  agree (suc a) b (suc f) zero hf hg = absurd (omega arith)
  agree (suc a) b (suc f) (suc g) hf hg =
      ap (λ k. k * 2 + op (suc a % 2) (b % 2))
        (agree (suc a / 2) (b / 2) f g (omega arith) (omega arith))

  lowest :
      (a b : ℕ)
      → digits rest op (suc a) (suc a) b
        ≡ digits rest op (suc a / 2) (suc a / 2) (b / 2) * 2 + op (suc a % 2) (b % 2)
  lowest a b =
      ap (λ k. k * 2 + op (suc a % 2) (b % 2))
        (agree (suc a / 2) (b / 2) a (suc a / 2) (omega arith) (omega arith))

pub bit_and-lowest : (a b : ℕ) → bit_and a b ≡ bit_and (a / 2) (b / 2) * 2 + min (a % 2) (b % 2)
bit_and-lowest zero b = simp bit_and-bitwise (omega arith)
bit_and-lowest (suc a) b = simp bit_and-bitwise (lowest (λ _. zero) min a b)

pub bit_or-lowest : (a b : ℕ) → bit_or a b ≡ bit_or (a / 2) (b / 2) * 2 + max (a % 2) (b % 2)
bit_or-lowest zero b = simp bit_or-bitwise (omega arith)
bit_or-lowest (suc a) b = simp bit_or-bitwise (lowest (λ y. y) max a b)

-- The digits of an exclusive or, without a function of two digits.
differ-mod : (a b : ℕ) → differ (a % 2) (b % 2) ≡ (a + b) % 2
differ-mod a b = split (a % 2) (b % 2) refl refl
  where
    split : (x y : ℕ) → a % 2 ≡ x → b % 2 ≡ y → differ x y ≡ (a + b) % 2
    split zero zero p q = omega arith
    split zero (suc zero) p q = omega arith
    split (suc zero) zero p q = omega arith
    split (suc zero) (suc zero) p q = omega arith
    split zero (suc (suc y)) p q = absurd (omega arith)
    split (suc zero) (suc (suc y)) p q = absurd (omega arith)
    split (suc (suc x)) y p q = absurd (omega arith)

pub bit_xor-lowest : (a b : ℕ) → bit_xor a b ≡ bit_xor (a / 2) (b / 2) * 2 + (a + b) % 2
bit_xor-lowest zero b = simp bit_xor-bitwise (omega arith)
bit_xor-lowest (suc a) b =
    rw (← differ-mod (suc a) b) (simp bit_xor-bitwise (lowest (λ y. y) differ a b))
