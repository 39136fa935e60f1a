-- ===== src/Base/Bytes.antt =====
-- Bytes: big-endian words in a frame, and properties checked at every byte.
use Prim.Native.Nat.{ℕ, zero, suc, ◌+◌, ◌*◌, ◌/◌, ◌%◌, ◌^◌, ◌<◌, bit_and, bit_or}
use mathlib.Core.Path.{◌≡◌, ap, ◌∙◌}
use mathlib.Core.Bool.{Bool, true, ◌&&◌}
use mathlib.Core.List.{List, [], ◌∷◌}
use native.Mathlib.Omega.{arith}
use robosw.Base.Int.{ℤ, pos, negsuc, word32}
use robosw.Base.Bits.{shl, shr, shl-bit_or, shr-bit_and, bit_and-mask}

-- Every entry is a byte.
abbrev pub AreBytes : List ℕ → Type 0
AreBytes [] = Unit {0}
AreBytes (x ∷ xs) = (x < 256) × AreBytes xs

-- `(b0 << 8) | b1` and `(b0 << 24) | (b1 << 16) | (b2 << 8) | b3`
unfoldable pub word_of2 : ℕ → ℕ → ℕ
word_of2 b0 b1 = bit_or (shl b0 8) b1

unfoldable pub word_of4 : ℕ → ℕ → ℕ → ℕ → ℕ
word_of4 b0 b1 b2 b3 = bit_or (bit_or (bit_or (shl b0 24) (shl b1 16)) (shl b2 8)) b3

pub word_of2-sum : (b0 b1 : ℕ) → b1 < 256 → word_of2 b0 b1 ≡ b0 * 256 + b1
unfolding word_of2
word_of2-sum b0 b1 h = shl-bit_or 8 b0 b1 h

pub word_of4-sum :
    (b0 b1 b2 b3 : ℕ)
    → b1 < 256
    → b2 < 256
    → b3 < 256
    → word_of4 b0 b1 b2 b3 ≡ b0 * 2 ^ 24 + b1 * 2 ^ 16 + b2 * 2 ^ 8 + b3
unfolding word_of4
word_of4-sum b0 b1 b2 b3 h1 h2 h3 =
    ap (λ t. bit_or (bit_or t (shl b2 8)) b3) (shl-bit_or 24 b0 (shl b1 16) (omega arith) ∙ upper)
    ∙ (ap (λ t. bit_or t b3) (shl-bit_or 16 (b0 * 256 + b1) (shl b2 8) (omega arith) ∙ middle)
        ∙ (shl-bit_or 8 ((b0 * 256 + b1) * 256 + b2) b3 h3 ∙ omega arith))
  where
    upper : b0 * 2 ^ 24 + shl b1 16 ≡ shl (b0 * 256 + b1) 16
    upper = omega arith

    middle : (b0 * 256 + b1) * 2 ^ 16 + shl b2 8 ≡ shl ((b0 * 256 + b1) * 256 + b2) 8
    middle = omega arith

-- `(x & 0x0000ff00) >> 8` and the like: one byte of a word.
pub byte_of : (k x : ℕ) → shr (bit_and x (shl 255 k)) k ≡ x / 2 ^ k % 256
byte_of k x = rw (shr-bit_and k x 255) (bit_and-mask 8 (x / 2 ^ k))

word32-lt : (v : ℤ) → word32 v < 2 ^ 32
word32-lt (pos n) = omega arith
word32-lt (negsuc n) = omega arith

join :
    (n : ℕ)
    → n < 2 ^ 32
    → word_of4 (n / 2 ^ 24 % 256) (n / 2 ^ 16 % 256) (n / 2 ^ 8 % 256) (n % 256) ≡ n
join n h =
    word_of4-sum (n / 2 ^ 24 % 256) (n / 2 ^ 16 % 256) (n / 2 ^ 8 % 256) (n % 256) (omega arith)
      (omega arith) (omega arith)
    ∙ omega arith

-- The four bytes of an `int32_t`, the highest first, are put together again to its word.
pub word_of4-bytes :
    (v : ℤ)
    → word_of4
        (shr (bit_and (word32 v) 0xff000000) 24)
        (shr (bit_and (word32 v) 0x00ff0000) 16)
        (shr (bit_and (word32 v) 0x0000ff00) 8)
        (bit_and (word32 v) 0x000000ff)
      ≡ word32 v
word_of4-bytes v =
    rw
      (
        byte_of 24 (word32 v),
        byte_of 16 (word32 v),
        byte_of 8 (word32 v),
        bit_and-mask 8 (word32 v),
      )
      (join (word32 v) (word32-lt v))

unfoldable pub all_below : ℕ → (ℕ → Bool) → Bool
all_below zero p = true
all_below (suc n) p = p n && all_below n p

-- A test that passes at each of the numbers below `n` passes at any of them.
pub every_below : (n : ℕ) (p : ℕ → Bool) (x : ℕ) → all_below n p ≡ true → x < n → p x ≡ true
unfolding all_below
every_below zero p x h l = absurd (omega arith)
every_below (suc n) p x h l = ground (arith, every_below n p x)
