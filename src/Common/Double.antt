-- ===== src/Common/Double.antt =====
-- The JavaScript number: what the code does with it, and the laws of IEEE 754 that proofs rely on.
use Prim.Native.Nat.{ℕ}
use mathlib.Core.Path.{◌≡◌}
use mathlib.Core.Bool.{Bool, true, false}

pub record Double (N : Type 0) : Type 0 where
  -- `decimal m k` is the number nearest to m / 10^k: the literal 0.005 is `decimal 5 3`.
  pub decimal : ℕ → ℕ → N
  pub infinity : N
  pub add : N → N → N
  pub sub : N → N → N
  pub mul : N → N → N
  pub div : N → N → N
  pub neg : N → N
  -- `Math.abs`, `Math.round`, `Math.trunc`, `Math.min`, `Math.max`
  pub abs : N → N
  pub round : N → N
  pub trunc : N → N
  pub min : N → N → N
  pub max : N → N → N
  -- `<`, `<=`, `===`, `Number.isFinite`, `Number.isInteger`
  pub lt : N → N → Bool
  pub le : N → N → Bool
  pub same : N → N → Bool
  pub is_finite : N → Bool
  pub is_integer : N → Bool

infix 4 ◌≼◌ ◌≺◌
abbrev pub ◌≼◌ : {N : Type 0} ⦃d : Double N⦄ → N → N → Type 0
◌≼◌ ⦃d⦄ x y = d.le x y ≡ true

abbrev pub ◌≺◌ : {N : Type 0} ⦃d : Double N⦄ → N → N → Type 0
◌≺◌ ⦃d⦄ x y = d.lt x y ≡ true

abbrev pub nought : {N : Type 0} ⦃d : Double N⦄ → N
nought ⦃d⦄ = d.decimal 0 0

abbrev pub one : {N : Type 0} ⦃d : Double N⦄ → N
one ⦃d⦄ = d.decimal 1 0

abbrev pub IsFinite : {N : Type 0} ⦃d : Double N⦄ → N → Type 0
IsFinite ⦃d⦄ x = d.is_finite x ≡ true

-- NaN is the value that is not `<=` itself; an infinity is. Rounding to nearest is monotone, so
-- each law on `add`, `sub`, `mul` and `div` holds of the rounded results.
pub record IsIeee (N : Type 0) ⦃d : Double N⦄ : Type 0 where
  pub finite_refl : (x : N) → IsFinite x → x ≼ x
  pub refl_of_le : (x y : N) → x ≼ y → (x ≼ x) × (y ≼ y)
  pub le_trans : (x y z : N) → x ≼ y → y ≼ z → x ≼ z
  pub le_of_lt : (x y : N) → x ≺ y → x ≼ y
  pub le_of_not_lt : (x y : N) → x ≼ x → y ≼ y → d.lt x y ≡ false → y ≼ x
  pub lt_of_not_le : (x y : N) → x ≼ x → y ≼ y → d.le x y ≡ false → y ≺ x
  pub not_lt_of_le : (x y : N) → x ≼ y → d.lt y x ≡ false
  pub nought_finite : IsFinite (nought {N = N})
  pub nought_le_infinity : nought {N = N} ≼ d.infinity
  pub finite_between : (x y : N) → nought ≼ x → x ≼ y → IsFinite y → IsFinite x
  pub nought_le_one : nought {N = N} ≼ one
  pub min_le_left : (x y : N) → x ≼ x → y ≼ y → d.min x y ≼ x
  pub min_le_right : (x y : N) → x ≼ x → y ≼ y → d.min x y ≼ y
  pub le_min : (x y z : N) → z ≼ x → z ≼ y → z ≼ d.min x y
  pub le_max_left : (x y : N) → x ≼ x → y ≼ y → x ≼ d.max x y
  pub le_max_right : (x y : N) → x ≼ x → y ≼ y → y ≼ d.max x y
  -- `Math.min` and `Math.max` of a NaN are NaN.
  pub refl_of_min : (x y : N) → d.min x y ≼ d.min x y → (x ≼ x) × (y ≼ y)
  pub refl_of_max : (x y : N) → d.max x y ≼ d.max x y → (x ≼ x) × (y ≼ y)
  pub max_le : (x y z : N) → x ≼ z → y ≼ z → d.max x y ≼ z
  pub add_nonneg : (x y : N) → nought ≼ x → nought ≼ y → nought ≼ d.add x y
  -- A finite number added to a number is a number.
  pub add_refl : (x y : N) → x ≼ x → IsFinite y → d.add x y ≼ d.add x y
  pub sub_refl : (x y : N) → x ≼ x → IsFinite y → d.sub x y ≼ d.sub x y
  pub sub_nonneg : (x y : N) → y ≼ x → IsFinite y → nought ≼ d.sub x y
  pub sub_le : (x y : N) → x ≼ x → IsFinite y → nought ≼ y → d.sub x y ≼ x
  pub mul_nonneg :
      (x y : N) → IsFinite x → IsFinite y → nought ≼ x → nought ≼ y → nought ≼ d.mul x y
  pub mul_le : (x y : N) → IsFinite x → nought ≼ x → nought ≼ y → y ≼ one → d.mul x y ≼ x
  pub neg_le : (x : N) → nought ≼ x → d.neg x ≼ x
