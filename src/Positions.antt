-- ===== src/Positions.antt =====
-- dex/app/futures/position-engine.js: opening, merging, reducing and marking one position.
use lqc_liquidity_chain.Common.{
  ℕ, not, ◌||◌, Option, none, some, if◌then◌else◌, same_text, Result, ok, ◌>>=◌, ◌>>◌, throw_if,
  required,
}
use lqc_liquidity_chain.Common.Double.{Double}
use lqc_liquidity_chain.Common.Text.{Text, codes, is_empty}
use lqc_liquidity_chain.Common.Validation.{positive_number}
use lqc_liquidity_chain.Markets.{Market, is_suspended, get_futures_market, normalize_futures_symbol}
use lqc_liquidity_chain.Risk.{
  Side, long, short, MarginMode, isolated, normalized_side, Position, Health, position_health,
}
use lqc_liquidity_chain.Orders.{is_step_aligned}

-- A fill, as the callers hand it over; a text that is missing is empty.
pub record Fill (N : Type 0) : Type 0 where
  pub symbol : Text
  pub side : Text
  pub quantity : N
  pub entry_price : N
  pub leverage : N
  pub collateral : N
  pub margin_mode : MarginMode
  pub take_profit : Option N
  pub stop_loss : Option N

pub record Reduction (N : Type 0) : Type 0 where
  pub position : Option (Position N)
  pub released_collateral : N
  pub ratio : N

pub record MarkedPosition (N : Type 0) : Type 0 where
  pub position : Position N
  pub mark_price : N
  pub health : Health N

abbrev pub side_text : Side → Text
side_text long = codes "LONG"
side_text short = codes "SHORT"

-- `text || fallback`
abbrev pub text_or : Text → Text → Text
text_or s fallback = if is_empty s then fallback else s

module _ {N : Type 0} ⦃d : Double N⦄ where
  open d use {decimal, add, sub, mul, div, abs, lt, le, is_integer}

  unfoldable pub validate_market_precision : Market N → N → N → Result (Unit {0})
  validate_market_precision market quantity price = do
    throw_if (not (is_step_aligned quantity market.step_size)) "QUANTITY_STEP_MISMATCH"
    throw_if (not (is_step_aligned price market.tick_size)) "PRICE_TICK_MISMATCH"

  unfoldable pub effective_leverage : N → N → N → N
  effective_leverage quantity price collateral = div (mul quantity price) collateral

  -- `market.maxLeverage + 1e-9`
  abbrev pub leverage_cap : Market N → N
  leverage_cap market = add market.max_leverage (decimal 1 9)

  unfoldable pub open_demo_position : Text → ℕ → Fill N → Result (Position N)
  unfolding effective_leverage
  open_demo_position id now f = do
    market ← required (get_futures_market f.symbol) "UNKNOWN_MARKET"
    throw_if (is_suspended market.status) "MARKET_SUSPENDED"
    side ← normalized_side f.side
    qty ← positive_number f.quantity "INVALID_QUANTITY"
    entry ← positive_number f.entry_price "INVALID_ENTRY_PRICE"
    lev ← positive_number f.leverage "INVALID_LEVERAGE"
    margin ← positive_number f.collateral "INVALID_COLLATERAL"
    validate_market_precision market qty entry
    throw_if (not (is_integer lev)) "LEVERAGE_MUST_BE_INTEGER"
    throw_if (lt market.max_leverage lev) "LEVERAGE_EXCEEDS_MARKET_MAX"
    throw_if (lt (leverage_cap market) (effective_leverage qty entry margin))
        "COLLATERAL_BELOW_MARKET_MINIMUM"
    ok (record {
      id = id;
      symbol = market.symbol;
      side = side_text side;
      quantity = qty;
      entry_price = entry;
      leverage = lev;
      collateral = margin;
      margin_mode = isolated;
      take_profit = none;
      stop_loss = none;
      cumulative_funding = none;
      last_funding_rate = none;
      last_funding_payment = none;
      last_funding_at = none;
      opened_at = now;
      updated_at = none;
    })

  unfoldable pub merge_demo_position : ℕ → Position N → Fill N → Result (Position N)
  unfolding effective_leverage
  merge_demo_position now p f = do
    market ← required (get_futures_market p.symbol) "UNKNOWN_MARKET"
    let fill_symbol = normalize_futures_symbol (text_or f.symbol p.symbol)
    fill_side ← normalized_side (text_or f.side p.side)
    throw_if (not (same_text fill_symbol p.symbol) || not (same_text (side_text fill_side) p.side))
        "POSITION_MERGE_MISMATCH"
    fill_qty ← positive_number f.quantity "INVALID_QUANTITY"
    fill_price ← positive_number f.entry_price "INVALID_ENTRY_PRICE"
    fill_collateral ← positive_number f.collateral "INVALID_COLLATERAL"
    validate_market_precision market fill_qty fill_price
    old_qty ← positive_number p.quantity "INVALID_QUANTITY"
    let new_qty = add old_qty fill_qty
    let weighted_entry = div (add (mul p.entry_price old_qty) (mul fill_price fill_qty)) new_qty
    let collateral = add p.collateral fill_collateral
    let leverage = effective_leverage new_qty weighted_entry collateral
    throw_if (lt (leverage_cap market) leverage) "LEVERAGE_EXCEEDS_MARKET_MAX"
    ok (record p {
      quantity = new_qty;
      entry_price = weighted_entry;
      leverage = leverage;
      collateral = collateral;
      updated_at = some now;
    })

  unfoldable pub reduce_demo_position : ℕ → Position N → N → Result (Reduction N)
  reduce_demo_position now p quantity = do
    market ← required (get_futures_market p.symbol) "UNKNOWN_MARKET"
    reduce_qty ← positive_number quantity "INVALID_QUANTITY"
    throw_if (not (is_step_aligned reduce_qty market.step_size)) "QUANTITY_STEP_MISMATCH"
    current_qty ← positive_number p.quantity "INVALID_QUANTITY"
    throw_if (lt current_qty reduce_qty) "REDUCE_EXCEEDS_POSITION"
    let ratio = div reduce_qty current_qty
    let released = mul p.collateral ratio
    let remaining = record p {
      quantity = sub current_qty reduce_qty;
      collateral = sub p.collateral released;
      updated_at = some now;
    }
    ok (record {
      position =
          if le (abs (sub reduce_qty current_qty)) (decimal 1 12) then none else some remaining;
      released_collateral = released;
      ratio = ratio;
    })

  unfoldable pub mark_demo_position : Position N → N → Result (MarkedPosition N)
  mark_demo_position p mark_price = do
    market ← required (get_futures_market p.symbol) "UNKNOWN_MARKET"
    price ← positive_number mark_price "INVALID_MARK_PRICE"
    health ←
        position_health p.side p.quantity p.entry_price price p.collateral
          market.maintenance_margin_rate
    ok (record { position = p; mark_price = price; health = health })
