-- ===== src/Common/Validation.antt =====
-- The number checks that the modules under dex/app/futures repeat.
use Prim.Native.String.{String}
use mathlib.Core.Path.{◌≡◌}
use mathlib.Core.Bool.{false, not, ◌||◌}
use native.Mathlib.Omega.{arith}
use lqc_liquidity_chain.Common.Results.{Result, ok, err}
use lqc_liquidity_chain.Common.Tests.{if◌then◌else◌}
use lqc_liquidity_chain.Common.Double.{Double, nought, ◌≼◌, ◌≺◌, IsFinite, IsIeee}

module _ {N : Type 0} ⦃d : Double N⦄ where
  unfoldable pub finite_number : N → String → Result N
  finite_number x code = if not (d.is_finite x) then err code else ok x

  unfoldable pub positive_number : N → String → Result N
  positive_number x code = if not (d.is_finite x) || d.le x nought then err code else ok x

  unfoldable pub non_negative_number : N → String → Result N
  non_negative_number x code = if not (d.is_finite x) || d.lt x nought then err code else ok x

  pub finite_number-eq-ok :
      (x : N) (code : String) {y : N} → finite_number x code ≡ ok y → (y ≡ x) × IsFinite x
  unfolding finite_number
  finite_number-eq-ok x code h = ground arith

  pub positive_number-eq-ok :
      (x : N) (code : String) {y : N}
      → positive_number x code ≡ ok y
      → (y ≡ x) × IsFinite x × (d.le x nought ≡ false)
  unfolding positive_number
  positive_number-eq-ok x code h = ground arith

  pub non_negative_number-eq-ok :
      (x : N) (code : String) {y : N}
      → non_negative_number x code ≡ ok y
      → (y ≡ x) × IsFinite x × (d.lt x nought ≡ false)
  unfolding non_negative_number
  non_negative_number-eq-ok x code h = ground arith

  module _ (laws : IsIeee N) where
    open laws use {finite_refl, le_of_not_lt, lt_of_not_le, nought_finite}

    -- What passes the checks is a finite number above zero, or at least zero.
    pub positive_of_check :
        (x : N) (code : String) {y : N}
        → positive_number x code ≡ ok y
        → (y ≡ x) × IsFinite x × (nought ≺ x)
    positive_of_check x code h =
        let (e, fin, above) = positive_number-eq-ok x code h in
        (e, fin, lt_of_not_le x nought (finite_refl x fin) (finite_refl nought nought_finite) above)

    pub non_negative_of_check :
        (x : N) (code : String) {y : N}
        → non_negative_number x code ≡ ok y
        → (y ≡ x) × IsFinite x × (nought ≼ x)
    non_negative_of_check x code h =
        let (e, fin, above) = non_negative_number-eq-ok x code h in
        (e, fin, le_of_not_lt x nought (finite_refl x fin) (finite_refl nought nought_finite) above)
