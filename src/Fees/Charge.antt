-- ===== src/Fees/Charge.antt =====
-- The bounds of a liquidation fee and of the shares of a trading fee.
use lqc_liquidity_chain.Common.{◌≡◌, arith, ok}
use lqc_liquidity_chain.Common.Double.{Double, ◌≼◌, ◌≺◌, nought, one, IsFinite, IsIeee}
use lqc_liquidity_chain.Common.Validation.{non_negative_number}
use lqc_liquidity_chain.Insurance.{positive_amount}
use lqc_liquidity_chain.Fees.{LiquidationFee, calculate_liquidation_fee}

module _ {N : Type 0} ⦃d : Double N⦄ (laws : IsIeee N) where
  open d use {mul, min, sub}
  open laws use {
    finite_refl, nought_finite, refl_of_le, le_of_not_lt, lt_of_not_le, le_of_lt, le_trans,
    min_le_left, min_le_right, le_min, mul_nonneg, mul_le, sub_nonneg, finite_between,
    nought_le_one,
  }

  -- The fee is the smaller of what is requested and the collateral; the rate was checked.
  fee-eq-ok :
      (notional rate collateral : N) {f : LiquidationFee N}
      → calculate_liquidation_fee notional rate collateral ≡ ok f
      → ((IsFinite notional × (nought ≺ notional))
          × (IsFinite rate × (nought ≼ rate) × (rate ≼ one))
          × (IsFinite collateral × (nought ≼ collateral)))
        × (f.requested_fee ≡ mul notional rate)
        × (f.charged_fee ≡ min (mul notional rate) collateral)
        × (f.remaining_collateral ≡ sub collateral f.charged_fee)
        × (f.shortfall ≡ sub f.requested_fee f.charged_fee)
        × (f.insurance_credit ≡ f.charged_fee)
  unfolding calculate_liquidation_fee positive_amount non_negative_number
  fee-eq-ok notional rate collateral h = ground (
    arith,
    finite_refl nought nought_finite,
    finite_refl notional,
    finite_refl rate,
    finite_refl collateral,
    lt_of_not_le notional nought,
    le_of_not_lt rate nought,
    le_of_not_lt collateral nought,
    le_of_not_lt one rate,
    refl_of_le nought one nought_le_one,
  )

  -- A liquidation fee is never negative, and is above neither the liquidated notional nor the
  -- collateral; what it leaves of the collateral and what it leaves unpaid are never negative; and
  -- the insurance fund is credited with exactly what was charged.
  liquidation_fee_bounds :
      (notional rate collateral : N) {f : LiquidationFee N}
      → calculate_liquidation_fee notional rate collateral ≡ ok f
      → (nought ≼ f.charged_fee)
        × (f.charged_fee ≼ notional)
        × (f.charged_fee ≼ collateral)
        × (nought ≼ f.remaining_collateral)
        × (nought ≼ f.shortfall)
        × (f.insurance_credit ≡ f.charged_fee)
  liquidation_fee_bounds notional rate collateral {f} h =
      let (checks, requested, charged, left, short, credit) =
        fee-eq-ok notional rate collateral h in
      let (nc, rc, cc') = checks in
      let asked = mul notional rate in
      let asked_ge = mul_nonneg _ _ nc.0 rc.0 (le_of_lt _ _ nc.1) rc.1 in
      let asked_le = mul_le _ _ nc.0 (le_of_lt _ _ nc.1) rc.1 rc.2 in
      let low = le_min _ _ nought asked_ge cc'.1 in
      let below =
        min_le_left asked collateral (refl_of_le _ _ asked_ge).1 (refl_of_le _ _ cc'.1).1 in
      let under =
        min_le_right asked collateral (refl_of_le _ _ asked_ge).1 (refl_of_le _ _ cc'.1).1 in
      let fin = finite_between _ _ low under cc'.0 in
      (
        rw charged low,
        rw charged (le_trans _ _ _ below asked_le),
        rw charged under,
        rw (left, charged) (sub_nonneg _ _ under fin),
        rw (short, requested, charged) (sub_nonneg _ _ below fin),
        credit,
      )
