-- ===== src/Sbus/Channels.antt =====
-- The channel layout: eleven payload bytes hold eight channels of eleven bits, lowest bits first.
use robosw.Base.{
  ℕ, zero, suc, ◌+◌, ◌*◌, ◌/◌, ◌%◌, ◌^◌, ◌<◌, ◌≡◌, ap, ◌∙◌, List, [], ◌∷◌, arith, get_or, bit_or,
  bit_and-mask, bit_or-shl, shl, shr,
}
use robosw.Base.Bytes.{AreBytes}
use robosw.Sbus.{channel2, channel3, eight_channels}

-- The number that a list spells in a base, lowest digit first.
abbrev pub digits : ℕ → List ℕ → ℕ
digits base [] = 0
digits base (x ∷ xs) = x + base * digits base xs

-- Every entry has at most eleven bits.
abbrev pub AreChannels : List ℕ → Type 0
AreChannels [] = Unit {0}
AreChannels (x ∷ xs) = (x < 2048) × AreChannels xs

channel2-sum : (a s b t : ℕ) → shr a s < 2 ^ t → channel2 a s b t ≡ (a / 2 ^ s + b * 2 ^ t) % 2048
channel2-sum a s b t h = bit_and-mask 11 _ ∙ ap (λ k. k % 2048) (bit_or-shl t (shr a s) b h)

channel3-sum :
    (a s b t c u : ℕ)
    → shr a s < 2 ^ t
    → a / 2 ^ s + b * 2 ^ t < 2 ^ u
    → channel3 a s b t c u ≡ (a / 2 ^ s + b * 2 ^ t + c * 2 ^ u) % 2048
channel3-sum a s b t c u h k =
    bit_and-mask 11 _
    ∙ (ap (λ l. bit_or l (shl c u) % 2048) (bit_or-shl t (shr a s) b h)
        ∙ ap (λ l. l % 2048) (bit_or-shl u (a / 2 ^ s + b * 2 ^ t) c k))

module _ (b0 b1 b2 b3 b4 b5 b6 b7 b8 b9 b10 : ℕ)
    (bytes : AreBytes (b0 ∷ b1 ∷ b2 ∷ b3 ∷ b4 ∷ b5 ∷ b6 ∷ b7 ∷ b8 ∷ b9 ∷ b10 ∷ [])) where
  c0 : channel2 b0 0 b1 8 ≡ b0 + 256 * (b1 % 8)
  c0 = channel2-sum b0 0 b1 8 (omega arith) ∙ omega arith

  c1 : channel2 b1 3 b2 5 ≡ b1 / 8 + 32 * (b2 % 64)
  c1 = channel2-sum b1 3 b2 5 (omega arith) ∙ omega arith

  c2 : channel3 b2 6 b3 2 b4 10 ≡ b2 / 64 + 4 * b3 + 1024 * (b4 % 2)
  c2 = channel3-sum b2 6 b3 2 b4 10 (omega arith) (omega arith) ∙ omega arith

  c3 : channel2 b4 1 b5 7 ≡ b4 / 2 + 128 * (b5 % 16)
  c3 = channel2-sum b4 1 b5 7 (omega arith) ∙ omega arith

  c4 : channel2 b5 4 b6 4 ≡ b5 / 16 + 16 * (b6 % 128)
  c4 = channel2-sum b5 4 b6 4 (omega arith) ∙ omega arith

  c5 : channel3 b6 7 b7 1 b8 9 ≡ b6 / 128 + 2 * b7 + 512 * (b8 % 4)
  c5 = channel3-sum b6 7 b7 1 b8 9 (omega arith) (omega arith) ∙ omega arith

  c6 : channel2 b8 2 b9 6 ≡ b8 / 4 + 64 * (b9 % 32)
  c6 = channel2-sum b8 2 b9 6 (omega arith) ∙ omega arith

  c7 : channel2 b9 5 b10 3 ≡ b9 / 32 + 8 * b10
  c7 = channel2-sum b9 5 b10 3 (omega arith) ∙ omega arith

  abbrev channels : List ℕ
  channels =
      channel2 b0 0 b1 8
      ∷ channel2 b1 3 b2 5
      ∷ channel3 b2 6 b3 2 b4 10
      ∷ channel2 b4 1 b5 7
      ∷ channel2 b5 4 b6 4
      ∷ channel3 b6 7 b7 1 b8 9
      ∷ channel2 b8 2 b9 6
      ∷ channel2 b9 5 b10 3
      ∷ []

  eleven_bits : AreChannels channels
  eleven_bits = omega (arith, c0, c1, c2, c3, c4, c5, c6, c7)

  same_number :
      digits 2048 channels ≡ digits 256 (b0 ∷ b1 ∷ b2 ∷ b3 ∷ b4 ∷ b5 ∷ b6 ∷ b7 ∷ b8 ∷ b9 ∷ b10 ∷ [])
  same_number = rw (c0, c1, c2, c3, c4, c5, c6, c7) (omega arith)

get_or-lt : (f : List ℕ) (k : ℕ) → AreBytes f → get_or f k 0 < 256
get_or-lt [] k h = omega arith
get_or-lt (x ∷ f) zero h = h.0
get_or-lt (x ∷ f) (suc k) h = get_or-lt f k h.1

-- The eleven bytes of a frame from place `i` on.
abbrev pub eleven_bytes : List ℕ → ℕ → List ℕ
eleven_bytes f i =
    get_or f i 0
    ∷ get_or f (i + 1) 0
    ∷ get_or f (i + 2) 0
    ∷ get_or f (i + 3) 0
    ∷ get_or f (i + 4) 0
    ∷ get_or f (i + 5) 0
    ∷ get_or f (i + 6) 0
    ∷ get_or f (i + 7) 0
    ∷ get_or f (i + 8) 0
    ∷ get_or f (i + 9) 0
    ∷ get_or f (i + 10) 0
    ∷ []

-- Eight channels of eleven bits each spell in base 2048 the number that the eleven bytes spell in
-- base 256: each channel is its eleven bits of the payload, and no bit is lost or used twice.
pub eight_channels-digits :
    (f : List ℕ) (i : ℕ)
    → AreBytes f
    → AreChannels (eight_channels f i [])
      × (digits 2048 (eight_channels f i []) ≡ digits 256 (eleven_bytes f i))
unfolding eight_channels
eight_channels-digits f i h =
    (eleven_bits _ _ _ _ _ _ _ _ _ _ _ bytes, same_number _ _ _ _ _ _ _ _ _ _ _ bytes)
  where
    bytes : AreBytes (eleven_bytes f i)
    bytes = omega (
      arith,
      get_or-lt f i h,
      get_or-lt f (i + 1) h,
      get_or-lt f (i + 2) h,
      get_or-lt f (i + 3) h,
      get_or-lt f (i + 4) h,
      get_or-lt f (i + 5) h,
      get_or-lt f (i + 6) h,
      get_or-lt f (i + 7) h,
      get_or-lt f (i + 8) h,
      get_or-lt f (i + 9) h,
      get_or-lt f (i + 10) h,
    )
