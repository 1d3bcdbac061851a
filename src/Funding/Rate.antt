-- ===== src/Funding/Rate.antt =====
-- The funding rate is within its cap (funding-engine.js).
use lqc_liquidity_chain.Common.{◌≡◌, arith, ok}
use lqc_liquidity_chain.Common.Double.{Double, ◌≼◌, nought, IsIeee}
use lqc_liquidity_chain.Common.Validation.{finite_number, positive_number}
use lqc_liquidity_chain.Funding.{calculate_funding_rate}

module _ {N : Type 0} ⦃d : Double N⦄ (laws : IsIeee N) where
  open d use {neg, min, max, add, sub, div}
  open laws use {
    finite_refl, nought_finite, refl_of_le, lt_of_not_le, le_of_lt, neg_le, min_le_left,
    le_max_left, max_le, refl_of_min, refl_of_max,
  }

  -- A funding rate that is not NaN lies between the cap below zero and the cap.
  pub funding_rate_bounds :
      (mark index interest cap : N) {rate : N}
      → calculate_funding_rate mark index interest cap ≡ ok rate
      → rate ≼ rate
      → (neg cap ≼ rate) × (rate ≼ cap)
  unfolding calculate_funding_rate positive_number finite_number
  funding_rate_bounds mark index interest cap {rate} h number =
      let raw = add (div (sub mark index) index) interest in
      let low = min cap raw in
      ground (
        arith,
        finite_refl cap,
        finite_refl nought nought_finite,
        lt_of_not_le cap nought,
        le_of_lt nought cap,
        neg_le cap,
        refl_of_max (neg cap) low,
        refl_of_min cap raw,
        le_max_left (neg cap) low,
        max_le (neg cap) low cap,
        min_le_left cap raw,
        refl_of_le (neg cap) cap,
      )
