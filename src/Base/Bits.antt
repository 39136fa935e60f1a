-- ===== src/Base/Bits.antt =====
-- The bit operations as arithmetic: masks, disjoint fields, and exclusive or as an involution.
-- A shift is a product or a quotient by a power of two.
use Prim.Native.Nat.{ℕ, zero, suc, ◌+◌, ◌-◌, ◌*◌, ◌/◌, ◌%◌, ◌^◌, ◌≤◌, ◌<◌}
use Prim.Native.Nat.{bit_and, bit_or, bit_xor, bit_or-bitwise, bit_xor-bitwise}
use mathlib.Core.Path.{◌≡◌, refl, ap, ◌∙◌}
use native.Mathlib.Nat.{pow-suc, one-le-pow, div-div-eq-div-mul, mod-eq_of_lt}
use native.Mathlib.Nat.{add-mul-mod_self_right, mod-lt, div-add-mod}
use native.Mathlib.Omega.{arith}
use robosw.Base.Step.{bit_and-lowest, bit_or-lowest, bit_xor-lowest}

abbrev pub shl : ℕ → ℕ → ℕ
shl x k = x * 2 ^ k

abbrev pub shr : ℕ → ℕ → ℕ
shr x k = x / 2 ^ k

-- Induction from a number to its half, with a bound that falls.
or_zero : (n a : ℕ) → a ≤ n → bit_or a 0 ≡ a
or_zero n zero h = refl
or_zero zero (suc a) h = absurd (omega arith)
or_zero (suc n) (suc a) h =
    omega (arith, bit_or-lowest (suc a) 0, or_zero n (suc a / 2) (omega arith))

and_zero : (n a : ℕ) → a ≤ n → bit_and a 0 ≡ 0
and_zero n zero h = refl
and_zero zero (suc a) h = absurd (omega arith)
and_zero (suc n) (suc a) h =
    omega (arith, bit_and-lowest (suc a) 0, and_zero n (suc a / 2) (omega arith))

zero_or : (b : ℕ) → bit_or 0 b ≡ b
zero_or b = simp bit_or-bitwise

zero_xor : (b : ℕ) → bit_xor 0 b ≡ b
zero_xor b = simp bit_xor-bitwise

double_pow : (q k : ℕ) → q * 2 ^ suc k ≡ 2 * (q * 2 ^ k)
double_pow q k = omega (arith, ap (λ (t : ℕ). q * t) (pow-suc 2 k))

-- `lo | (hi << k)` is a sum where `lo` has at most `k` bits.
pub bit_or-shl : (k lo hi : ℕ) → lo < 2 ^ k → bit_or lo (shl hi k) ≡ lo + hi * 2 ^ k
bit_or-shl zero lo hi h = ground (arith, bit_or-lowest lo hi, zero_or hi)
bit_or-shl (suc k) lo hi h = ground (
  arith,
  bit_or-lowest lo (hi * 2 ^ suc k),
  double_pow hi k,
  pow-suc 2 k,
  bit_or-shl k (lo / 2) hi (omega (arith, pow-suc 2 k)),
)

-- The same with the fields the other way round.
pub shl-bit_or : (k hi lo : ℕ) → lo < 2 ^ k → bit_or (shl hi k) lo ≡ hi * 2 ^ k + lo
shl-bit_or zero hi lo h = ground (arith, or_zero hi hi)
shl-bit_or (suc k) hi lo h = ground (
  arith,
  bit_or-lowest (hi * 2 ^ suc k) lo,
  double_pow hi k,
  pow-suc 2 k,
  shl-bit_or k hi (lo / 2) (omega (arith, pow-suc 2 k)),
)

half_pow : (a k : ℕ) → a / 2 ^ suc k ≡ a / 2 / 2 ^ k
half_pow a k = rw (div-div-eq-div-mul a 2 (2 ^ k)) (ap (λ t. a / t) (omega (arith, pow-suc 2 k)))

-- `(a & (m << k)) >> k` is `(a >> k) & m`.
pub shr-bit_and : (k a m : ℕ) → shr (bit_and a (shl m k)) k ≡ bit_and (shr a k) m
shr-bit_and zero a m = ground arith
shr-bit_and (suc k) a m =
    rw (half_pow (bit_and a (m * 2 ^ suc k)) k, half_pow a k, half) (shr-bit_and k (a / 2) m)
  where
    half : bit_and a (m * 2 ^ suc k) / 2 ≡ bit_and (a / 2) (m * 2 ^ k)
    half = ground (arith, bit_and-lowest a (m * 2 ^ suc k), double_pow m k)

mod_double : (k a : ℕ) → a % 2 ^ suc k ≡ 2 * (a / 2 % 2 ^ k) + a % 2
mod_double k a =
    ap (λ t. t % 2 ^ suc k) split
    ∙ (add-mul-mod_self_right rest (a / 2 / 2 ^ k) (2 ^ suc k) ∙ mod-eq_of_lt low)
  where
    rest : ℕ
    rest = 2 * (a / 2 % 2 ^ k) + a % 2

    low : rest < 2 ^ suc k
    low = omega (arith, pow-suc 2 k, mod-lt (a / 2) {m = 2 ^ k} (one-le-pow k 2 (omega arith)))

    split : a ≡ rest + a / 2 / 2 ^ k * 2 ^ suc k
    split = omega (arith, double_pow (a / 2 / 2 ^ k) k, div-add-mod (a / 2) (2 ^ k))

-- A mask of `k` ones is the remainder by `2 ^ k`.
pub bit_and-mask : (k a : ℕ) → bit_and a (2 ^ k - 1) ≡ a % 2 ^ k
bit_and-mask zero a = omega (arith, and_zero a a)
bit_and-mask (suc k) a = ground (
  arith,
  bit_and-lowest a (2 ^ suc k - 1),
  pow-suc 2 k,
  one-le-pow k 2,
  bit_and-mask k (a / 2),
  mod_double k a,
)

-- Exclusive or with the same number twice changes nothing.
pub bit_xor-cancel : (n a b : ℕ) → a ≤ n → bit_xor a (bit_xor a b) ≡ b
bit_xor-cancel n zero b h = zero_xor (bit_xor 0 b) ∙ zero_xor b
bit_xor-cancel zero (suc a) b h = absurd (omega arith)
bit_xor-cancel (suc n) (suc a) b h = ground (
  arith,
  bit_xor-lowest (suc a) (bit_xor (suc a) b),
  bit_xor-lowest (suc a) b,
  bit_xor-cancel n (suc a / 2) (b / 2) (omega arith),
)

pub bit_xor-lt : (k a b : ℕ) → a < 2 ^ k → b < 2 ^ k → bit_xor a b < 2 ^ k
bit_xor-lt zero a b p q = ground (arith, zero_xor 0)
bit_xor-lt (suc k) a b p q = omega (
  arith,
  pow-suc 2 k,
  bit_xor-lowest a b,
  bit_xor-lt k (a / 2) (b / 2) (omega (arith, pow-suc 2 k)) (omega (arith, pow-suc 2 k)),
)

pub bit_xor_comm : (a b : ℕ) → bit_xor a b ≡ bit_xor b a
bit_xor_comm a b = commute (a + b) a b (omega arith)
  where
    commute : (n a b : ℕ) → a + b ≤ n → bit_xor a b ≡ bit_xor b a
    commute zero a b h = ground arith
    commute (suc n) a b h =
        omega
          (arith, bit_xor-lowest a b, bit_xor-lowest b a, commute n (a / 2) (b / 2) (omega arith))
