-- ===== src/Base/Int.antt =====
-- Go's signed integers. `int64` arithmetic wraps around at 2 ^ 63.
use Prim.Native.Nat.{ℕ, suc, ◌+◌, ◌-◌, ◌%◌, ◌≤◌, ◌<◌}
use mathlib.Core.Path.{◌≡◌, refl}
use mathlib.Core.Bool.{Bool, true, false}
use native.Mathlib.Omega.{arith}
use leads_engine.Base.Tests.{ltb, leb, nat_eq, if◌then◌else◌}

-- `negsuc n` is -(n + 1).
pub data ℤ : Type 0 where
  pos : ℕ → ℤ
  negsuc : ℕ → ℤ

abbrev pub ltz : ℤ → ℤ → Bool
ltz (pos a) (pos b) = ltb a b
ltz (pos a) (negsuc b) = false
ltz (negsuc a) (pos b) = true
ltz (negsuc a) (negsuc b) = ltb b a

abbrev pub eqz : ℤ → ℤ → Bool
eqz (pos a) (pos b) = nat_eq a b
eqz (negsuc a) (negsuc b) = nat_eq a b
eqz _ _ = false

abbrev pub pos_part : ℤ → ℕ
pos_part (pos n) = n
pos_part (negsuc n) = 0

abbrev pub neg_part : ℤ → ℕ
neg_part (pos n) = 0
neg_part (negsuc n) = suc n

-- a - b of two naturals, and the unbounded sum and difference.
abbrev pub sub_ℕ : ℕ → ℕ → ℤ
sub_ℕ a b = if leb b a then pos (a - b) else negsuc (b - a - 1)

infixl 65 ◌+ℤ◌ ◌-ℤ◌
abbrev pub ◌+ℤ◌ : ℤ → ℤ → ℤ
a +ℤ b = sub_ℕ (pos_part a + pos_part b) (neg_part a + neg_part b)

abbrev pub ◌-ℤ◌ : ℤ → ℤ → ℤ
a -ℤ b = sub_ℕ (pos_part a + neg_part b) (neg_part a + pos_part b)

-- 2 ^ 64 and 2 ^ 63.
abbrev pub word64 : ℕ
word64 = 0x1_0000_0000_0000_0000

abbrev pub half64 : ℕ
half64 = 0x8000_0000_0000_0000

-- The `int64` with the same last 64 bits.
abbrev from_bits : ℕ → ℤ
from_bits m = if ltb m half64 then pos m else negsuc (word64 - m - 1)

unfoldable pub wrap64 : ℤ → ℤ
wrap64 (pos n) = from_bits (n % word64)
wrap64 (negsuc n) = from_bits (word64 - 1 - n % word64)

unfoldable pub add64 : ℤ → ℤ → ℤ
unfolding wrap64
add64 a b = wrap64 (a +ℤ b)

unfoldable pub sub64 : ℤ → ℤ → ℤ
unfolding wrap64
sub64 a b = wrap64 (a -ℤ b)

-- A sum of two naturals below the bound, and a difference that is not negative.
pub add64-pos : (a b : ℕ) → a + b < half64 → add64 (pos a) (pos b) ≡ pos (a + b)
unfolding add64
add64-pos a b h = ground arith

pub sub64-pos : (a b : ℕ) → b ≤ a → a < half64 → sub64 (pos a) (pos b) ≡ pos (a - b)
unfolding sub64
sub64-pos a b h k = ground arith

wraps_up : add64 (pos 0x7fff_ffff_ffff_ffff) (pos 1) ≡ negsuc 0x7fff_ffff_ffff_ffff
unfolding add64
wraps_up = refl

wraps_down : sub64 (negsuc 0x7fff_ffff_ffff_ffff) (pos 1) ≡ pos 0x7fff_ffff_ffff_ffff
unfolding sub64
wraps_down = refl
