-- ===== src/Insurance/Amounts.antt =====
-- What passes the amount checks of insurance-engine.js.
use lqc_liquidity_chain.Common.{◌≡◌, inl, inr, arith, String, Bool-cases, ok}
use lqc_liquidity_chain.Common.Double.{Double, ◌≼◌, ◌≺◌, nought, IsFinite, IsIeee}
use lqc_liquidity_chain.Common.Validation.{non_negative_number}
use lqc_liquidity_chain.Insurance.{positive_amount, coverage_cap}

module _ {N : Type 0} ⦃d : Double N⦄ (laws : IsIeee N) where
  open d use {infinity}
  open laws use {finite_refl, lt_of_not_le, le_of_lt, nought_finite, nought_le_infinity}

  pub positive_amount_above :
      (x : N) (code : String) {y : N}
      → positive_amount x code ≡ ok y
      → (y ≡ x) × IsFinite x × (nought ≺ x)
  unfolding positive_amount non_negative_number
  positive_amount_above x code h =
      ground (arith, finite_refl x, finite_refl nought nought_finite, lt_of_not_le x nought)

  pub coverage_cap_nonneg : (cap : N) {c : N} → coverage_cap cap ≡ ok c → nought ≼ c
  unfolding coverage_cap
  coverage_cap_nonneg cap h = elim (Bool-cases (d.same cap infinity)) [
    | inl e ↦ ground (arith, nought_le_infinity)
    | inr e ↦
        let (same, _, above) =
          positive_amount_above cap "INVALID_INSURANCE_COVERAGE_CAP" (rw e at h) in
        rw same (le_of_lt nought cap above)
  ]
