-- ===== src/Common/Fixed.antt =====
-- Fixed-point numbers in units of 10^-8: a concrete `Double` that meets the laws, for the tests.
use Prim.Native.Nat.{ℕ, suc, ◌+◌, ◌-◌, ◌*◌, ◌/◌, ◌%◌, ◌^◌, ◌≤◌}
use mathlib.Core.Path.{refl}
use mathlib.Core.Bool.{Bool, true}
use native.Mathlib.Omega.{arith}
use native.Mathlib.Nat.{mul-le-mul, le_refl}
use lqc_liquidity_chain.Common.Tests.{ltb, leb, ◌==◌, if◌then◌else◌}
use lqc_liquidity_chain.Common.Double.{Double, ◌≼◌, one, IsIeee}

-- `negsuc n` is -(n + 1) units.
pub data ℤ : Type 0 where
  pos : ℕ → ℤ
  negsuc : ℕ → ℤ

abbrev pub scale : ℕ
scale = 100_000_000

abbrev pub pos_part : ℤ → ℕ
pos_part (pos n) = n
pos_part (negsuc n) = 0

abbrev pub neg_part : ℤ → ℕ
neg_part (pos n) = 0
neg_part (negsuc n) = suc n

-- a - b, as an integer.
abbrev pub sub_ℕ : ℕ → ℕ → ℤ
sub_ℕ a b = if leb b a then pos (a - b) else negsuc (b - a - 1)

infixl 65 ◌+ℤ◌ ◌-ℤ◌
abbrev pub ◌+ℤ◌ : ℤ → ℤ → ℤ
a +ℤ b = sub_ℕ (pos_part a + pos_part b) (neg_part a + neg_part b)

abbrev pub ◌-ℤ◌ : ℤ → ℤ → ℤ
a -ℤ b = sub_ℕ (pos_part a + neg_part b) (neg_part a + pos_part b)

abbrev pub leb_ℤ : ℤ → ℤ → Bool
leb_ℤ a b = leb (pos_part a + neg_part b) (pos_part b + neg_part a)

abbrev pub ltb_ℤ : ℤ → ℤ → Bool
ltb_ℤ a b = ltb (pos_part a + neg_part b) (pos_part b + neg_part a)

abbrev pub eq_ℤ : ℤ → ℤ → Bool
eq_ℤ a b = pos_part a + neg_part b == pos_part b + neg_part a

abbrev mul_fixed : ℤ → ℤ → ℤ
mul_fixed (pos a) (pos b) = pos (a * b / scale)
mul_fixed (pos a) (negsuc b) = sub_ℕ 0 (a * suc b / scale)
mul_fixed (negsuc a) (pos b) = sub_ℕ 0 (suc a * b / scale)
mul_fixed (negsuc a) (negsuc b) = pos (suc a * suc b / scale)

abbrev div_fixed : ℤ → ℤ → ℤ
div_fixed (pos a) (pos b) = pos (a * scale / b)
div_fixed (pos a) (negsuc b) = sub_ℕ 0 (a * scale / suc b)
div_fixed (negsuc a) (pos b) = sub_ℕ 0 (suc a * scale / b)
div_fixed (negsuc a) (negsuc b) = pos (suc a * scale / suc b)

abbrev round_fixed : ℤ → ℤ
round_fixed (pos a) = pos ((a + scale / 2) / scale * scale)
round_fixed (negsuc a) = sub_ℕ 0 ((suc a - scale / 2 + (scale - 1)) / scale * scale)

abbrev trunc_fixed : ℤ → ℤ
trunc_fixed (pos a) = pos (a / scale * scale)
trunc_fixed (negsuc a) = sub_ℕ 0 (suc a / scale * scale)

instance abbrev pub fixed : Double ℤ
fixed = record {
  decimal = λ m k. pos (m * scale / 10 ^ k);
  infinity = pos (10 ^ 40);
  add = ◌+ℤ◌;
  sub = ◌-ℤ◌;
  mul = mul_fixed;
  div = div_fixed;
  neg = λ a. pos 0 -ℤ a;
  abs = λ a. pos (pos_part a + neg_part a);
  round = round_fixed;
  trunc = trunc_fixed;
  min = λ a b. if leb_ℤ a b then a else b;
  max = λ a b. if leb_ℤ a b then b else a;
  lt = ltb_ℤ;
  le = leb_ℤ;
  same = eq_ℤ;
  is_finite = λ _. true;
  is_integer = λ a. (pos_part a + neg_part a) % scale == 0;
}

mul_nonneg : (x y : ℤ) → pos 0 ≼ x → pos 0 ≼ y → pos 0 ≼ mul_fixed x y
mul_nonneg (pos a) (pos b) p q = ground arith
mul_nonneg (pos a) (negsuc b) p q = ground arith
mul_nonneg (negsuc a) y p q = ground arith

mul_le : (x y : ℤ) → pos 0 ≼ x → pos 0 ≼ y → y ≼ one {N = ℤ} → mul_fixed x y ≼ x
mul_le (pos a) (pos b) p q r =
    let small : b ≤ scale = ground arith in ground (arith, mul-le-mul (le_refl a) small)
mul_le (pos a) (negsuc b) p q r = ground arith
mul_le (negsuc a) y p q r = ground arith

pub fixed-IsIeee : IsIeee ℤ
fixed-IsIeee = record {
  finite_refl = λ x h. ground arith;
  refl_of_le = λ x y h. (ground arith, ground arith);
  le_trans = λ x y z p q. ground arith;
  le_of_lt = λ x y p. ground arith;
  le_of_not_lt = λ x y p q r. ground arith;
  lt_of_not_le = λ x y p q r. ground arith;
  not_lt_of_le = λ x y p. ground arith;
  nought_finite = refl;
  nought_le_infinity = refl;
  finite_between = λ x y p q h. refl;
  nought_le_one = refl;
  min_le_left = λ x y p q. ground arith;
  min_le_right = λ x y p q. ground arith;
  le_min = λ x y z p q. ground arith;
  le_max_left = λ x y p q. ground arith;
  le_max_right = λ x y p q. ground arith;
  refl_of_min = λ x y h. (ground arith, ground arith);
  refl_of_max = λ x y h. (ground arith, ground arith);
  max_le = λ x y z p q. ground arith;
  add_nonneg = λ x y p q. ground arith;
  add_refl = λ x y p q. ground arith;
  sub_refl = λ x y p q. ground arith;
  sub_nonneg = λ x y p q. ground arith;
  sub_le = λ x y p q r. ground arith;
  mul_nonneg = λ x y _ _ p q. mul_nonneg x y p q;
  mul_le = λ x y _ p q r. mul_le x y p q r;
  neg_le = λ x p. ground arith;
}
