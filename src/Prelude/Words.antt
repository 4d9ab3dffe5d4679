-- ===== src/Prelude/Words.antt =====
-- `u64` and `i64`: bounds, saturating operations, and the casts between the two.
use Prim.Native.Nat.{ℕ, suc, ◌+◌, ◌-◌, ◌*◌, ◌≤◌, min}
use mathlib.Core.Path.{◌≡◌}
use mathlib.Core.Bool.{Bool}
use native.Mathlib.Omega.{arith}
use igra_foundry_sdk.Prelude.Tests.{ltb, leb, if◌then◌else◌}

abbrev pub u64_max : ℕ
u64_max = 0xffff_ffff_ffff_ffff

abbrev pub u32_max : ℕ
u32_max = 0xffff_ffff

abbrev pub i64_max : ℕ
i64_max = 0x7fff_ffff_ffff_ffff

-- `negsuc n` is -(n + 1).
pub data ℤ : Type 0 where
  pos : ℕ → ℤ
  negsuc : ℕ → ℤ

abbrev pub pos_part : ℤ → ℕ
pos_part (pos n) = n
pos_part (negsuc n) = 0

abbrev pub neg_part : ℤ → ℕ
neg_part (pos n) = 0
neg_part (negsuc n) = suc n

abbrev pub sub_ℕ : ℕ → ℕ → ℤ
sub_ℕ a b = if leb b a then pos (a - b) else negsuc (b - a - 1)

infix 50 ◌≤ℤ◌
abbrev pub ◌≤ℤ◌ : ℤ → ℤ → Type 0
a ≤ℤ b = pos_part a + neg_part b ≤ pos_part b + neg_part a

abbrev pub ltb_ℤ : ℤ → ℤ → Bool
ltb_ℤ a b = ltb (pos_part a + neg_part b) (pos_part b + neg_part a)

-- `u64::saturating_add`, `saturating_mul`.
unfoldable pub saturating_add : ℕ → ℕ → ℕ
saturating_add a b = min (a + b) u64_max

unfoldable pub saturating_mul : ℕ → ℕ → ℕ
saturating_mul a b = min (a * b) u64_max

-- `x as i64` and `x as u64` keep the 64 bits.
unfoldable pub as_i64 : ℕ → ℤ
as_i64 n = if leb n i64_max then pos n else negsuc (u64_max - n)

unfoldable pub as_u64 : ℤ → ℕ
as_u64 (pos n) = n
as_u64 (negsuc n) = u64_max - n

pub as_u64-as_i64 : (n : ℕ) → n ≤ u64_max → as_u64 (as_i64 n) ≡ n
unfolding as_u64 as_i64
as_u64-as_i64 n h = ground arith

-- `i64::saturating_sub`, `i64::saturating_mul` by a positive constant.
unfoldable pub saturate : ℤ → ℤ
saturate (pos n) = pos (min n i64_max)
saturate (negsuc n) = negsuc (min n i64_max)

unfoldable pub saturating_sub_i64 : ℤ → ℤ → ℤ
unfolding saturate
saturating_sub_i64 a b = saturate (sub_ℕ (pos_part a + neg_part b) (neg_part a + pos_part b))

unfoldable pub saturating_mul_i64 : ℤ → ℕ → ℤ
unfolding saturate
saturating_mul_i64 a k = saturate (sub_ℕ (pos_part a * k) (neg_part a * k))
