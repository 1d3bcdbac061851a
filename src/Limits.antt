-- ===== src/Limits.antt =====
-- dex/app/futures/leverage-tiers.js, liquidation-engine.js and market-risk-limits.js: tiers, partial
-- liquidations and exposure limits.
pub mod Tiers
pub mod Increase
use lqc_liquidity_chain.Common.{
  ℕ, ◌+◌, Bool, true, false, not, ◌&&◌, ◌||◌, List, [], ◌∷◌, if◌then◌else◌, find, Result, ok, ◌>>=◌,
  ◌>>◌, throw_if, required,
}
use lqc_liquidity_chain.Common.Double.{Double, nought, one}
use lqc_liquidity_chain.Common.Validation.{positive_number, non_negative_number}
use lqc_liquidity_chain.Insurance.{positive_amount}

pub record TierInput (N : Type 0) : Type 0 where
  pub max_notional : N
  pub max_leverage : N
  pub maintenance_margin_rate : N

pub record Tier (N : Type 0) : Type 0 where
  pub tier : ℕ
  pub max_notional : N
  pub max_leverage : N
  pub maintenance_margin_rate : N

pub record PartialLiquidation (N : Type 0) : Type 0 where
  pub full_liquidation : Bool
  pub reduce_quantity : N
  pub remaining_quantity : N
  pub reduce_notional : N
  pub remaining_notional : N
  pub current_notional : N

pub record RiskLimits (N : Type 0) : Type 0 where
  pub max_open_interest : N
  pub max_position_notional : N
  pub max_order_notional : N

pub record Exposure (N : Type 0) : Type 0 where
  pub next_open_interest : N
  pub next_position_notional : N

abbrev pub no_tiers {ℓ} : {A : Type ℓ} → List A → Bool
no_tiers [] = true
no_tiers (_ ∷ _) = false

module _ {N : Type 0} ⦃d : Double N⦄ where
  open d use {infinity, add, sub, mul, lt, le, same, is_finite}

  -- the `map` of `createLeverageTiers`, with its index and its two variables
  unfoldable pub normalize_tiers : ℕ → N → N → List (TierInput N) → Result (List (Tier N))
  normalize_tiers index previous_cap previous_leverage [] = ok []
  normalize_tiers index previous_cap previous_leverage (t ∷ ts) = do
    cap ← positive_number t.max_notional "INVALID_TIER_MAX_NOTIONAL"
    leverage ← positive_number t.max_leverage "INVALID_TIER_MAX_LEVERAGE"
    rate ← positive_number t.maintenance_margin_rate "INVALID_TIER_MAINTENANCE_MARGIN"
    throw_if (le cap previous_cap) "TIER_NOTIONAL_NOT_ASCENDING"
    throw_if (lt previous_leverage leverage) "TIER_LEVERAGE_NOT_DESCENDING"
    rest ← normalize_tiers (index + 1) cap leverage ts
    ok (
        record {
          tier = index + 1;
          max_notional = cap;
          max_leverage = leverage;
          maintenance_margin_rate = rate;
        }
        ∷ rest)

  unfoldable pub create_leverage_tiers : List (TierInput N) → Result (List (Tier N))
  create_leverage_tiers tiers = do
    throw_if (no_tiers tiers) "LEVERAGE_TIERS_REQUIRED"
    normalize_tiers 0 nought infinity tiers

  unfoldable pub resolve_leverage_tier : N → List (Tier N) → Result (Tier N)
  resolve_leverage_tier position_notional tiers = do
    notional ← positive_number position_notional "INVALID_POSITION_NOTIONAL"
    throw_if (no_tiers tiers) "LEVERAGE_TIERS_REQUIRED"
    required (find (λ t. le notional t.max_notional) tiers) "POSITION_NOTIONAL_EXCEEDS_TIERS"

  unfoldable pub validate_tier_leverage : N → N → List (Tier N) → Result (Tier N)
  validate_tier_leverage position_notional leverage tiers = do
    requested ← positive_number leverage "INVALID_LEVERAGE"
    tier ← resolve_leverage_tier position_notional tiers
    throw_if (lt tier.max_leverage requested) "TIER_MAX_LEVERAGE_EXCEEDED"
    ok tier

  unfoldable pub plan_partial_liquidation : N → N → N → N → Result (PartialLiquidation N)
  plan_partial_liquidation quantity mark_price target_ratio minimum = do
    size ← positive_number quantity "INVALID_LIQUIDATION_QUANTITY"
    mark ← positive_number mark_price "INVALID_MARK_PRICE"
    ratio ← positive_number target_ratio "INVALID_LIQUIDATION_RATIO"
    throw_if (lt one ratio) "LIQUIDATION_RATIO_EXCEEDS_ONE"
    throw_if (not (is_finite minimum) || lt minimum nought) "INVALID_MIN_REMAINING_NOTIONAL"
    let reduce_part = mul size ratio
    let remaining_part = sub size reduce_part
    let all = lt nought remaining_part && lt (mul remaining_part mark) minimum
    let reduce_quantity = if all then size else reduce_part
    let remaining_quantity = if all then nought else remaining_part
    ok (record {
      full_liquidation = same remaining_quantity nought;
      reduce_quantity = reduce_quantity;
      remaining_quantity = remaining_quantity;
      reduce_notional = mul reduce_quantity mark;
      remaining_notional = mul remaining_quantity mark;
      current_notional = mul size mark;
    })

  unfoldable pub create_market_risk_limits : N → N → N → Result (RiskLimits N)
  create_market_risk_limits interest position order = do
    i ← positive_amount interest "INVALID_MAX_OPEN_INTEREST"
    p ← positive_amount position "INVALID_MAX_POSITION_NOTIONAL"
    o ← positive_amount order "INVALID_MAX_ORDER_NOTIONAL"
    ok (record { max_open_interest = i; max_position_notional = p; max_order_notional = o })

  -- the `reduce` of `calculateOpenInterest`, over the quantities
  unfoldable pub sum_interest : N → N → List N → Result N
  sum_interest mark total [] = ok total
  sum_interest mark total (q ∷ qs) = do
    quantity ← positive_amount q "INVALID_QUANTITY"
    sum_interest mark (add total (mul quantity mark)) qs

  unfoldable pub calculate_open_interest : List N → N → Result N
  calculate_open_interest quantities mark_price = do
    mark ← positive_amount mark_price "INVALID_MARK_PRICE"
    sum_interest mark nought quantities

  unfoldable pub validate_exposure_increase : N → N → N → RiskLimits N → Result (Exposure N)
  validate_exposure_increase open_interest position_notional order_notional limits = do
    oi ← non_negative_number open_interest "INVALID_OPEN_INTEREST"
    position ← non_negative_number position_notional "INVALID_POSITION_NOTIONAL"
    order ← positive_amount order_notional "INVALID_ORDER_NOTIONAL"
    throw_if (lt limits.max_order_notional order) "MAX_ORDER_NOTIONAL_EXCEEDED"
    throw_if (lt limits.max_position_notional (add position order)) "MAX_POSITION_NOTIONAL_EXCEEDED"
    throw_if (lt limits.max_open_interest (add oi order)) "MAX_OPEN_INTEREST_EXCEEDED"
    ok (record { next_open_interest = add oi order; next_position_notional = add position order })

  unfoldable pub validate_risk_reducing_order : N → N → Result N
  validate_risk_reducing_order position_notional reduce_notional = do
    position ← non_negative_number position_notional "INVALID_POSITION_NOTIONAL"
    reduction ← positive_amount reduce_notional "INVALID_REDUCE_NOTIONAL"
    throw_if (lt position reduction) "REDUCTION_EXCEEDS_POSITION"
    ok (sub position reduction)
