-- ===== src/Base/Int.antt =====
-- Signed integers over the native numbers, and the two's complement words that stand for them.
use Prim.Native.Nat.{ℕ, suc, ◌+◌, ◌-◌, ◌/◌, ◌%◌, ◌^◌, ◌≤◌, ◌<◌}
use mathlib.Core.Path.{◌≡◌}
use mathlib.Core.Bool.{Bool}
use native.Mathlib.Omega.{arith}
use robosw.Base.Tests.{ltb, leb, ◌==◌, if◌then◌else◌}

-- `negsuc n` is -(n + 1).
pub data ℤ : Type 0 where
  pos : ℕ → ℤ
  negsuc : ℕ → ℤ

abbrev pub pos_part : ℤ → ℕ
pos_part (pos n) = n
pos_part (negsuc n) = 0

abbrev pub neg_part : ℤ → ℕ
neg_part (pos n) = 0
neg_part (negsuc n) = suc n

-- a - b, as an integer.
abbrev pub sub_ℕ : ℕ → ℕ → ℤ
sub_ℕ a b = if leb b a then pos (a - b) else negsuc (b - a - 1)

infixl 60 ◌+ℤ◌
abbrev pub ◌+ℤ◌ : ℤ → ℤ → ℤ
a +ℤ b = sub_ℕ (pos_part a + pos_part b) (neg_part a + neg_part b)

infixl 60 ◌-ℤ◌
abbrev pub ◌-ℤ◌ : ℤ → ℤ → ℤ
a -ℤ b = sub_ℕ (pos_part a + neg_part b) (neg_part a + pos_part b)

-- `/` and `%` by a positive number: towards 0, with the sign of the dividend.
abbrev pub quot_ℤ : ℤ → ℕ → ℤ
quot_ℤ (pos n) m = pos (n / m)
quot_ℤ (negsuc n) m = sub_ℕ 0 (suc n / m)

abbrev pub rem_ℤ : ℤ → ℕ → ℤ
rem_ℤ (pos n) m = pos (n % m)
rem_ℤ (negsuc n) m = sub_ℕ 0 (suc n % m)

infix 50 ◌≤ℤ◌
abbrev pub ◌≤ℤ◌ : ℤ → ℤ → Type 0
a ≤ℤ b = pos_part a + neg_part b ≤ pos_part b + neg_part a

abbrev pub ltb_ℤ : ℤ → ℤ → Bool
ltb_ℤ a b = ltb (pos_part a + neg_part b) (pos_part b + neg_part a)

-- a and b are the same integer.
abbrev pub eqb_ℤ : ℤ → ℤ → Bool
eqb_ℤ a b = pos_part a + neg_part b == pos_part b + neg_part a

-- The integer that a word of `w` bits stands for, as in `static_cast<int16_t>(x)`.
abbrev pub signed8 : ℕ → ℤ
signed8 n = if ltb n (2 ^ 7) then pos n else negsuc (2 ^ 8 - 1 - n)

abbrev pub signed16 : ℕ → ℤ
signed16 n = if ltb n (2 ^ 15) then pos n else negsuc (2 ^ 16 - 1 - n)

abbrev pub signed32 : ℕ → ℤ
signed32 n = if ltb n (2 ^ 31) then pos n else negsuc (2 ^ 32 - 1 - n)

-- The low `w` bits of an integer, as in `static_cast<uint16_t>(x)`.
abbrev pub word8 : ℤ → ℕ
word8 (pos n) = n % 2 ^ 8
word8 (negsuc n) = 2 ^ 8 - 1 - n % 2 ^ 8

abbrev pub word16 : ℤ → ℕ
word16 (pos n) = n % 2 ^ 16
word16 (negsuc n) = 2 ^ 16 - 1 - n % 2 ^ 16

abbrev pub word32 : ℤ → ℕ
word32 (pos n) = n % 2 ^ 32
word32 (negsuc n) = 2 ^ 32 - 1 - n % 2 ^ 32

pub word8-signed8 : (n : ℕ) → n < 2 ^ 8 → word8 (signed8 n) ≡ n
word8-signed8 n h = ground arith

-- An integer of the type's range is the one that its word stands for.
pub signed16-word16 :
    (z : ℤ) → negsuc (2 ^ 15 - 1) ≤ℤ z → z ≤ℤ pos (2 ^ 15 - 1) → signed16 (word16 z) ≡ z
signed16-word16 (pos n) lo hi = ground arith
signed16-word16 (negsuc n) lo hi = ground arith

pub signed32-word32 :
    (z : ℤ) → negsuc (2 ^ 31 - 1) ≤ℤ z → z ≤ℤ pos (2 ^ 31 - 1) → signed32 (word32 z) ≡ z
signed32-word32 (pos n) lo hi = ground arith
signed32-word32 (negsuc n) lo hi = ground arith

-- `static_cast<int32_t>(z)`
abbrev pub int32 : ℤ → ℤ
int32 z = signed32 (word32 z)
