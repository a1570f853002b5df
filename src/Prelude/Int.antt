-- ===== src/Prelude/Int.antt =====
-- Signed integers over the native numbers, and Go's int64: sums wrap around, `time.Time.Sub`
-- saturates. A `time.Duration` is such an integer, in nanoseconds.
use Prim.Native.Nat.{ℕ, suc, ◌+◌, ◌-◌, ◌/◌, ◌^◌, ◌≤◌, ◌<◌}
use mathlib.Core.Path.{◌≡◌, refl}
use mathlib.Core.Bool.{Bool}
use native.Mathlib.Omega.{arith}
use vault_plugin_secrets_tem.Prelude.Tests.{ltb, leb, if◌then◌else◌}

-- `negsuc n` is -(n + 1).
pub data ℤ : Type 0 where
  pos : ℕ → ℤ
  negsuc : ℕ → ℤ

abbrev pub pos_part : ℤ → ℕ
pos_part (pos n) = n
pos_part (negsuc n) = 0

abbrev pub neg_part : ℤ → ℕ
neg_part (pos n) = 0
neg_part (negsuc n) = suc n

-- a - b, as an integer.
abbrev pub sub_ℕ : ℕ → ℕ → ℤ
sub_ℕ a b = if leb b a then pos (a - b) else negsuc (b - a - 1)

abbrev pub ltb_ℤ : ℤ → ℤ → Bool
ltb_ℤ a b = ltb (pos_part a + neg_part b) (pos_part b + neg_part a)

abbrev pub leb_ℤ : ℤ → ℤ → Bool
leb_ℤ a b = leb (pos_part a + neg_part b) (pos_part b + neg_part a)

infix 50 ◌≤ℤ◌
abbrev pub ◌≤ℤ◌ : ℤ → ℤ → Type 0
a ≤ℤ b = pos_part a + neg_part b ≤ pos_part b + neg_part a

infix 50 ◌<ℤ◌
abbrev pub ◌<ℤ◌ : ℤ → ℤ → Type 0
a <ℤ b = pos_part a + neg_part b < pos_part b + neg_part a

abbrev pub half_range : ℕ
half_range = 2 ^ 63

abbrev pub full_range : ℕ
full_range = 2 ^ 64

-- The value of an int64 that a sum or difference of two int64 values gives: one wrap at most.
abbrev pub wrap64 : ℤ → ℤ
wrap64 (pos n) = if ltb n half_range then pos n else sub_ℕ n full_range
wrap64 (negsuc n) = if ltb n half_range then negsuc n else sub_ℕ full_range (suc n)

-- The int64 nearest to an integer, as `time.Time.Sub` gives it.
abbrev pub saturate64 : ℤ → ℤ
saturate64 (pos n) = if ltb n half_range then pos n else pos (half_range - 1)
saturate64 (negsuc n) = if ltb n half_range then negsuc n else negsuc (half_range - 1)

infixl 65 ◌+ℤ◌ ◌-ℤ◌
abbrev pub ◌+ℤ◌ : ℤ → ℤ → ℤ
a +ℤ b = sub_ℕ (pos_part a + pos_part b) (neg_part a + neg_part b)

abbrev pub ◌-ℤ◌ : ℤ → ℤ → ℤ
a -ℤ b = sub_ℕ (pos_part a + neg_part b) (neg_part a + pos_part b)

-- int64 addition.
abbrev pub add64 : ℤ → ℤ → ℤ
add64 a b = wrap64 (a +ℤ b)

add64_wraps : add64 (pos 9223372036854775807) (pos 1) ≡ negsuc 9223372036854775807
add64_wraps = refl

-- Within the range nothing wraps.
pub add64_nonneg : (a b : ℕ) → a + b < half_range → add64 (pos a) (pos b) ≡ pos (a + b)
add64_nonneg a b h = ground arith

-- int64(d.Seconds()) of a duration in nanoseconds. The floating-point detour is exact where the
-- duration is a whole number of seconds, as each duration is that the engine stores.
abbrev pub whole_seconds : ℤ → ℤ
whole_seconds (pos n) = pos (n / 1000000000)
whole_seconds (negsuc n) = sub_ℕ 0 (suc n / 1000000000)
