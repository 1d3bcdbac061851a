-- ===== src/Limits/Increase.antt =====
-- What an exposure check lets through (market-risk-limits.js).
use lqc_liquidity_chain.Common.{◌≡◌, ◌↔◌, true, false, arith, ok}
use lqc_liquidity_chain.Common.Double.{Double, nought}
use lqc_liquidity_chain.Common.Validation.{non_negative_number}
use lqc_liquidity_chain.Insurance.{positive_amount}
use lqc_liquidity_chain.Limits.{RiskLimits, validate_exposure_increase}

module _ {N : Type 0} ⦃d : Double N⦄ where
  open d use {add, sub, lt, le, is_finite}

  -- An increase of exposure is let through exactly when the three amounts are well formed, the order
  -- is within the order limit, and the position and the open interest stay within theirs.
  pub exposure_iff :
      (oi position order : N) (l : RiskLimits N)
      → (validate_exposure_increase oi position order l
          ≡ ok (record {
            next_open_interest = add oi order;
            next_position_notional = add position order;
          }))
        ↔ ((is_finite oi ≡ true)
            × (lt oi nought ≡ false)
            × (is_finite position ≡ true)
            × (lt position nought ≡ false)
            × (is_finite order ≡ true)
            × (lt order nought ≡ false)
            × (le order nought ≡ false)
            × (lt l.max_order_notional order ≡ false)
            × (lt l.max_position_notional (add position order) ≡ false)
            × (lt l.max_open_interest (add oi order) ≡ false))
  unfolding validate_exposure_increase positive_amount non_negative_number
  exposure_iff oi position order l = (λ h. ground arith, λ h. ground arith)
