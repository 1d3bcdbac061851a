-- ===== src/Fees.antt =====
-- dex/app/futures/fee-engine.js and liquidation-fee-engine.js: trading fees, their shares, and the
-- fee of a liquidation.
pub mod Charge
use lqc_liquidity_chain.Common.{
  ◌||◌, if◌then◌else◌, same_text, Result, ok, err, ◌>>=◌, ◌>>◌, throw_if,
}
use lqc_liquidity_chain.Common.Double.{Double, one}
use lqc_liquidity_chain.Common.Text.{Text, codes, to_upper}
use lqc_liquidity_chain.Common.Validation.{non_negative_number}
use lqc_liquidity_chain.Insurance.{Fund, positive_amount}

pub data LiquidityRole : Type 0 where
  maker taker : LiquidityRole

pub record FeeSchedule (N : Type 0) : Type 0 where
  pub maker_rate : N
  pub taker_rate : N

pub record TradingFee (N : Type 0) : Type 0 where
  pub role : LiquidityRole
  pub quantity : N
  pub price : N
  pub notional : N
  pub fee_rate : N
  pub fee : N

pub record FeeShares (N : Type 0) : Type 0 where
  pub insurance_share : N
  pub treasury_share : N

pub record Allocation (N : Type 0) : Type 0 where
  pub insurance_amount : N
  pub treasury_amount : N

pub record LiquidationFee (N : Type 0) : Type 0 where
  pub liquidated_notional : N
  pub fee_rate : N
  pub requested_fee : N
  pub charged_fee : N
  pub remaining_collateral : N
  pub insurance_credit : N
  pub shortfall : N

unfoldable pub liquidity_role : Text → Result LiquidityRole
liquidity_role s =
    if same_text (to_upper s) (codes "MAKER")
    then ok maker
    else if same_text (to_upper s) (codes "TAKER")
    then ok taker
    else err "INVALID_LIQUIDITY_ROLE"

module _ {N : Type 0} ⦃d : Double N⦄ where
  open d use {decimal, add, sub, mul, abs, min, lt}

  unfoldable pub create_trading_fee_schedule : N → N → Result (FeeSchedule N)
  create_trading_fee_schedule maker_rate taker_rate = do
    m ← non_negative_number maker_rate "INVALID_MAKER_FEE_RATE"
    t ← non_negative_number taker_rate "INVALID_TAKER_FEE_RATE"
    throw_if (lt one m || lt one t) "TRADING_FEE_RATE_EXCEEDS_ONE"
    ok (record { maker_rate = m; taker_rate = t })

  abbrev pub rate_of : LiquidityRole → FeeSchedule N → N
  rate_of maker s = s.maker_rate
  rate_of taker s = s.taker_rate

  unfoldable pub calculate_trading_fee : N → N → Text → FeeSchedule N → Result (TradingFee N)
  calculate_trading_fee quantity price liquidity schedule = do
    size ← positive_amount quantity "INVALID_TRADE_QUANTITY"
    execution_price ← positive_amount price "INVALID_TRADE_PRICE"
    role ← liquidity_role liquidity
    let rate = rate_of role schedule
    let notional = mul size execution_price
    ok (record {
      role = role;
      quantity = size;
      price = execution_price;
      notional = notional;
      fee_rate = rate;
      fee = mul notional rate;
    })

  unfoldable pub split_trading_fee : N → FeeShares N → Result (Allocation N)
  split_trading_fee fee shares = do
    amount ← non_negative_number fee "INVALID_TRADING_FEE"
    insurance ← non_negative_number shares.insurance_share "INVALID_INSURANCE_FEE_SHARE"
    treasury ← non_negative_number shares.treasury_share "INVALID_TREASURY_FEE_SHARE"
    throw_if (lt (decimal 1 12) (abs (sub (add insurance treasury) one)))
        "FEE_SHARES_MUST_SUM_TO_ONE"
    ok (record { insurance_amount = mul amount insurance; treasury_amount = mul amount treasury })

  unfoldable pub calculate_liquidation_fee : N → N → N → Result (LiquidationFee N)
  calculate_liquidation_fee liquidated_notional fee_rate available_collateral = do
    notional ← positive_amount liquidated_notional "INVALID_LIQUIDATED_NOTIONAL"
    rate ← non_negative_number fee_rate "INVALID_LIQUIDATION_FEE_RATE"
    collateral ← non_negative_number available_collateral "INVALID_AVAILABLE_COLLATERAL"
    throw_if (lt one rate) "LIQUIDATION_FEE_RATE_EXCEEDS_ONE"
    let requested = mul notional rate
    let charged = min requested collateral
    ok (record {
      liquidated_notional = notional;
      fee_rate = rate;
      requested_fee = requested;
      charged_fee = charged;
      remaining_collateral = sub collateral charged;
      insurance_credit = charged;
      shortfall = sub requested charged;
    })

  unfoldable pub route_liquidation_fee_to_insurance : Fund N → LiquidationFee N → Result (Fund N)
  route_liquidation_fee_to_insurance f settlement = do
    balance ← non_negative_number f.balance "INVALID_INSURANCE_BALANCE"
    credit ← non_negative_number settlement.insurance_credit "INVALID_INSURANCE_CREDIT"
    ok (record f { balance = add balance credit })
