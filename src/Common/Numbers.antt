-- ===== src/Common/Numbers.antt =====
-- The numbers of the program that may be negative or NaN: differences and parses of times.
use Prim.Native.Nat.{ℕ, suc, ◌+◌, ◌-◌}
use mathlib.Core.Bool.{Bool, true, false}
use forgequeue.Common.Tests.{ltb, leb, if◌then◌else◌}

-- `negsuc n` is -(n + 1).
pub data ℤ : Type 0 where
  pos : ℕ → ℤ
  negsuc : ℕ → ℤ

abbrev pub pos_part : ℤ → ℕ
pos_part (pos n) = n
pos_part (negsuc n) = 0

abbrev pub neg_part : ℤ → ℕ
neg_part (pos n) = 0
neg_part (negsuc n) = suc n

abbrev pub sub_ℕ : ℕ → ℕ → ℤ
sub_ℕ a b = if leb b a then pos (a - b) else negsuc (b - a - 1)

infixl 65 ◌-ℤ◌
unfoldable pub ◌-ℤ◌ : ℤ → ℤ → ℤ
a -ℤ b = sub_ℕ (pos_part a + neg_part b) (neg_part a + pos_part b)

abbrev pub neg_ℤ : ℤ → ℤ
neg_ℤ a = sub_ℕ (neg_part a) (pos_part a)

abbrev pub ltb_ℤ : ℤ → ℤ → Bool
ltb_ℤ a b = ltb (pos_part a + neg_part b) (pos_part b + neg_part a)

-- A whole number or NaN. Every test with NaN fails, and every operation on it gives it back.
pub data Number : Type 0 where
  int : ℤ → Number
  nan : Number

-- `a < b`
abbrev pub num_lt : Number → Number → Bool
num_lt (int a) (int b) = ltb_ℤ a b
num_lt (int a) nan = false
num_lt nan b = false

-- `a - b`
abbrev pub num_sub : Number → Number → Number
num_sub (int a) (int b) = int (a -ℤ b)
num_sub (int a) nan = nan
num_sub nan b = nan

-- `-a`
abbrev pub num_neg : Number → Number
num_neg (int a) = int (neg_ℤ a)
num_neg nan = nan

abbrev pub is_finite : Number → Bool
is_finite (int a) = true
is_finite nan = false

abbrev pub num : ℕ → Number
num n = int (pos n)
