-- ===== src/MarketData/Candles.antt =====
-- What a candle satisfies that market data lets through (market-data-models.js).
use lqc_liquidity_chain.Common.{◌≡◌, inl, inr, false, arith, String, ok, Result-cases}
use lqc_liquidity_chain.Common.Double.{Double, ◌≼◌, ◌≺◌, nought, IsIeee}
use lqc_liquidity_chain.Common.Validation.{finite_number, positive_number, positive_of_check}
use lqc_liquidity_chain.MarketData.{
  KlineInput, Kline, market_of, timestamp, at_least_nought, build_kline, value_or,
}

module _ {N : Type 0} ⦃d : Double N⦄ (laws : IsIeee N) where
  open d use {min, max, lt}
  open laws use {
    finite_refl, le_of_not_lt, lt_of_not_le, nought_finite, le_max_left, le_max_right, min_le_left,
    min_le_right, le_trans, refl_of_le, max_le, le_min,
  }

  -- The prices of a candle that was built, with the check that they passed.
  kline-eq-ok :
      (i : KlineInput N) {k : Kline N}
      → build_kline i ≡ ok k
      → (positive_number k.first "INVALID_KLINE_OPEN" ≡ ok k.first)
        × (positive_number k.high "INVALID_KLINE_HIGH" ≡ ok k.high)
        × (positive_number k.low "INVALID_KLINE_LOW" ≡ ok k.low)
        × (positive_number k.close "INVALID_KLINE_CLOSE" ≡ ok k.close)
        × (lt k.high (max k.first k.close) ≡ false)
        × (lt (min k.first k.close) k.low ≡ false)
        × ((v : N) × (at_least_nought v "INVALID_KLINE_VOLUME" ≡ ok k.volume))
  unfolding build_kline positive_number
  kline-eq-ok i h = elim (Result-cases (market_of {N = N} i.symbol)) [
    | inr (code, e) ↦ absurd (ground arith)
    | inl (market, e) ↦ elim (Result-cases (timestamp i.open_time)) [
      | inr (code, e') ↦ absurd (ground arith)
      | inl (opened, e') ↦ elim (Result-cases (timestamp i.close_time)) [
        | inr (code, e'') ↦ absurd (ground arith)
        | inl (closed, e'') ↦
            elim (Result-cases
              (at_least_nought (value_or i.volume nought) "INVALID_KLINE_VOLUME")) [
                | inr (code, e₃) ↦ absurd (ground arith)
                | inl (v, e₃) ↦
                    elim (Result-cases
                      (at_least_nought i.quote_volume "INVALID_KLINE_QUOTE_VOLUME")) [
                        | inr (code, e₄) ↦ absurd (ground arith)
                        | inl (q, e₄) ↦ (
                          ground arith,
                          ground arith,
                          ground arith,
                          ground arith,
                          ground arith,
                          ground arith,
                          (value_or i.volume nought, ground arith),
                        )
                      ]
              ]
      ]
    ]
  ]

  volume_nonneg : (v : N) (code : String) {w : N} → at_least_nought v code ≡ ok w → nought ≼ w
  unfolding at_least_nought finite_number
  volume_nonneg v code h =
      ground (arith, finite_refl v, finite_refl nought nought_finite, le_max_left nought v)

  -- In a candle that is let through every price is above zero, the opening and the closing price lie
  -- between the low and the high one, and the volume is never negative.
  pub build_kline_range :
      (i : KlineInput N) {k : Kline N}
      → build_kline i ≡ ok k
      → (nought ≺ k.low)
        × (k.low ≼ k.first)
        × (k.first ≼ k.high)
        × (k.low ≼ k.close)
        × (k.close ≼ k.high)
        × (nought ≼ k.volume)
  build_kline_range i {k} h =
      let (fc, hc, lc, cc', upper, lower, (v, volume)) = kline-eq-ok i h in
      let (_, f_fin, _) = positive_of_check laws _ _ fc in
      let (_, h_fin, _) = positive_of_check laws _ _ hc in
      let (_, l_fin, l_pos) = positive_of_check laws _ _ lc in
      let (_, c_fin, _) = positive_of_check laws _ _ cc' in
      let f = finite_refl _ f_fin in
      let c = finite_refl _ c_fin in
      let top = le_max_left k.first k.close f c in
      let bottom = min_le_left k.first k.close f c in
      let most = le_of_not_lt _ _ (finite_refl _ h_fin) (refl_of_le _ _ top).1 upper in
      let least = le_of_not_lt _ _ (refl_of_le _ _ bottom).0 (finite_refl _ l_fin) lower in
      (
        l_pos,
        le_trans _ _ _ least bottom,
        le_trans _ _ _ top most,
        le_trans _ _ _ least (min_le_right k.first k.close f c),
        le_trans _ _ _ (le_max_right k.first k.close f c) most,
        volume_nonneg v _ volume,
      )
