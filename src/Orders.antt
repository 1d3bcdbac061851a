-- ===== src/Orders.antt =====
-- dex/app/futures/order-engine.js: what an order must satisfy, and the order that is built.
pub mod Valid
use lqc_liquidity_chain.Common.{
  ℕ, Bool, true, false, not, ◌&&◌, Option, none, some, String, if◌then◌else◌, same_text, Result, ok,
  err, ◌>>=◌, ◌>>◌, throw_if, required,
}
use lqc_liquidity_chain.Common.Double.{Double}
use lqc_liquidity_chain.Common.Text.{Text, codes, to_upper, is_empty}
use lqc_liquidity_chain.Common.Validation.{positive_number}
use lqc_liquidity_chain.Markets.{Market, is_suspended, get_futures_market}
use lqc_liquidity_chain.Risk.{
  Side, long, short, normalized_side, calculate_notional, calculate_initial_margin,
}

pub data OrderType : Type 0 where
  market_order limit_order : OrderType

abbrev pub is_limit : OrderType → Bool
is_limit limit_order = true
is_limit market_order = false

-- The body of a request; a field that is missing is an empty text, NaN or `none`.
pub record OrderInput (N : Type 0) : Type 0 where
  pub symbol : Text
  pub side : Text
  pub kind : Text
  pub quantity : N
  pub leverage : N
  pub price : N
  pub mark_price : N
  pub take_profit : Option N
  pub stop_loss : Option N
  pub reduce_only : Bool

pub record ValidOrder (N : Type 0) : Type 0 where
  pub market : Market N
  pub side : Side
  pub kind : OrderType
  pub quantity : N
  pub leverage : N
  pub reference_price : N
  pub take_profit : Option N
  pub stop_loss : Option N

pub data OrderStatus : Type 0 where
  pending_demo open_demo filled_demo cancelled_demo : OrderStatus

pub record DemoOrder (N : Type 0) : Type 0 where
  pub id : Text
  pub symbol : Text
  pub side : Side
  pub kind : OrderType
  pub quantity : N
  pub price : Option N
  pub reference_price : N
  pub leverage : N
  pub notional : N
  pub initial_margin : N
  pub reduce_only : Bool
  pub take_profit : Option N
  pub stop_loss : Option N
  pub status : OrderStatus
  pub created_at : ℕ

-- `String(input.type || "MARKET").toUpperCase()`
unfoldable pub order_type : Text → Result OrderType
order_type s =
    if is_empty s
    then ok market_order
    else if same_text (to_upper s) (codes "MARKET")
    then ok market_order
    else if same_text (to_upper s) (codes "LIMIT")
    then ok limit_order
    else err "INVALID_ORDER_TYPE"

module _ {N : Type 0} ⦃d : Double N⦄ where
  open d use {decimal, sub, div, abs, round, lt, le, is_integer}

  unfoldable pub is_step_aligned : N → N → Bool
  is_step_aligned value step =
      let ratio = div value step in le (abs (sub ratio (round ratio))) (decimal 1 8)

  unfoldable pub optional_trigger : Option N → String → Result (Option N)
  unfolding positive_number
  optional_trigger none code = ok none
  optional_trigger (some v) code = positive_number v code >>= λ n. ok (some n)

  abbrev pub off_tick : Option N → N → Bool
  off_tick none tick = false
  off_tick (some v) tick = not (is_step_aligned v tick)

  -- The two tests of `takeProfit` and `stopLoss` against the price, for each side.
  unfoldable pub check_triggers : Side → N → Option N → Option N → Result (Unit {0})
  check_triggers long price profit loss = do
    throw_if (elim profit [ none ↦ false | some p ↦ le p price ]) "INVALID_LONG_TAKE_PROFIT"
    throw_if (elim loss [ none ↦ false | some p ↦ le price p ]) "INVALID_LONG_STOP_LOSS"
  check_triggers short price profit loss = do
    throw_if (elim profit [ none ↦ false | some p ↦ le price p ]) "INVALID_SHORT_TAKE_PROFIT"
    throw_if (elim loss [ none ↦ false | some p ↦ le p price ]) "INVALID_SHORT_STOP_LOSS"

  -- `positiveNumber(type === "LIMIT" ? input.price : input.markPrice, …)`
  unfoldable pub reference_price_of : OrderType → OrderInput N → Result N
  unfolding positive_number
  reference_price_of limit_order i = positive_number i.price "INVALID_LIMIT_PRICE"
  reference_price_of market_order i = positive_number i.mark_price "INVALID_MARK_PRICE"

  unfoldable pub validate_demo_order : OrderInput N → Result (ValidOrder N)
  validate_demo_order i = do
    market ← required (get_futures_market i.symbol) "UNKNOWN_MARKET"
    throw_if (is_suspended market.status) "MARKET_SUSPENDED"
    side ← normalized_side i.side
    kind ← order_type i.kind
    quantity ← positive_number i.quantity "INVALID_QUANTITY"
    throw_if (not (is_step_aligned quantity market.step_size)) "QUANTITY_STEP_MISMATCH"
    leverage ← positive_number i.leverage "INVALID_LEVERAGE"
    throw_if (not (is_integer leverage)) "LEVERAGE_MUST_BE_INTEGER"
    throw_if (lt market.max_leverage leverage) "LEVERAGE_EXCEEDS_MARKET_MAX"
    price ← reference_price_of kind i
    throw_if (is_limit kind && not (is_step_aligned price market.tick_size)) "PRICE_TICK_MISMATCH"
    profit ← optional_trigger i.take_profit "INVALID_TAKE_PROFIT"
    loss ← optional_trigger i.stop_loss "INVALID_STOP_LOSS"
    throw_if (off_tick profit market.tick_size) "TAKE_PROFIT_TICK_MISMATCH"
    throw_if (off_tick loss market.tick_size) "STOP_LOSS_TICK_MISMATCH"
    check_triggers side price profit loss
    ok (record {
      market = market;
      side = side;
      kind = kind;
      quantity = quantity;
      leverage = leverage;
      reference_price = price;
      take_profit = profit;
      stop_loss = loss;
    })

  -- The identifier and the time are the environment's.
  unfoldable pub build_demo_order : Text → ℕ → OrderInput N → Result (DemoOrder N)
  build_demo_order id now i = do
    v ← validate_demo_order i
    notional ← calculate_notional v.quantity v.reference_price
    margin ← calculate_initial_margin v.quantity v.reference_price v.leverage
    ok (record {
      id = id;
      symbol = v.market.symbol;
      side = v.side;
      kind = v.kind;
      quantity = v.quantity;
      price = if is_limit v.kind then some v.reference_price else none;
      reference_price = v.reference_price;
      leverage = v.leverage;
      notional = notional;
      initial_margin = margin;
      reduce_only = i.reduce_only;
      take_profit = v.take_profit;
      stop_loss = v.stop_loss;
      status = pending_demo;
      created_at = now;
    })
