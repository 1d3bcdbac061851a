-- ===== src/Risk.antt =====
-- dex/app/futures/risk-engine.js: margin, profit and loss, liquidation tests.
use lqc_liquidity_chain.Common.{
  ℕ, Bool, true, false, not, ◌&&◌, ◌||◌, Option, List, [], ◌∷◌, ◌++◌, ltb, if◌then◌else◌, same_text,
  length, Result, ok, err, ◌>>=◌, ◌>>◌, throw_if, required,
}
use lqc_liquidity_chain.Common.Double.{Double, nought, one}
use lqc_liquidity_chain.Common.Text.{Text, codes, to_upper}
use lqc_liquidity_chain.Common.Validation.{positive_number}
use lqc_liquidity_chain.Markets.{get_futures_market}

-- The two sides, as `normalizedSide` leaves them.
pub data Side : Type 0 where
  long short : Side

pub data MarginMode : Type 0 where
  isolated cross : MarginMode

abbrev pub is_cross : MarginMode → Bool
is_cross cross = true
is_cross isolated = false

unfoldable pub normalized_side : Text → Result Side
normalized_side s =
    if same_text (to_upper s) (codes "LONG")
    then ok long
    else if same_text (to_upper s) (codes "SHORT")
    then ok short
    else err "INVALID_SIDE"

-- A position, as the engine, the book and the funding build it; an optional field is `none` where it
-- is absent or null.
pub record Position (N : Type 0) : Type 0 where
  pub id : Text
  pub symbol : Text
  pub side : Text
  pub quantity : N
  pub entry_price : N
  pub leverage : N
  pub collateral : N
  pub margin_mode : MarginMode
  pub take_profit : Option N
  pub stop_loss : Option N
  pub cumulative_funding : Option N
  pub last_funding_rate : Option N
  pub last_funding_payment : Option N
  pub last_funding_at : Option ℕ
  pub opened_at : ℕ
  pub updated_at : Option ℕ

pub record Health (N : Type 0) : Type 0 where
  pub unrealized_pnl : N
  pub equity : N
  pub maintenance_margin : N
  pub margin_ratio : N
  pub liquidation_buffer : N
  pub liquidation_price : N
  pub liquidatable : Bool

pub data LiquidationAction : Type 0 where
  liquidate hold : LiquidationAction

pub record LiquidationDecision (N : Type 0) : Type 0 where
  pub symbol : Text
  pub position_id : Text
  pub action : LiquidationAction
  pub mark_price : N
  pub health : Health N

pub record CrossDetail (N : Type 0) : Type 0 where
  pub symbol : Text
  pub side : Side
  pub mark_price : N
  pub unrealized_pnl : N
  pub notional : N
  pub maintenance_margin : N

pub record CrossHealth (N : Type 0) : Type 0 where
  pub wallet_balance : N
  pub unrealized_pnl : N
  pub equity : N
  pub notional : N
  pub maintenance_margin : N
  pub margin_ratio : N
  pub liquidation_buffer : N
  pub liquidatable : Bool
  pub positions : List (CrossDetail N)

-- What the loop of `crossAccountHealth` accumulates.
pub record CrossTotals (N : Type 0) : Type 0 where
  pub unrealized_pnl : N
  pub maintenance_margin : N
  pub notional : N
  pub details : List (CrossDetail N)

module _ {N : Type 0} ⦃d : Double N⦄ where
  open d use {decimal, infinity, add, sub, mul, div, neg, max, lt, le, is_finite}

  unfoldable pub maintenance_rate : N → Result N
  maintenance_rate rate =
      if not (is_finite rate) || le rate nought || le one rate
      then err "INVALID_MAINTENANCE_MARGIN_RATE"
      else ok rate

  unfoldable pub calculate_notional : N → N → Result N
  unfolding positive_number
  calculate_notional quantity mark_price = do
    q ← positive_number quantity "INVALID_QUANTITY"
    m ← positive_number mark_price "INVALID_MARK_PRICE"
    ok (mul q m)

  unfoldable pub calculate_initial_margin : N → N → N → Result N
  unfolding positive_number calculate_notional
  calculate_initial_margin quantity mark_price leverage = do
    lev ← positive_number leverage "INVALID_LEVERAGE"
    notional ← calculate_notional quantity mark_price
    ok (div notional lev)

  unfoldable pub direction : Side → N
  direction short = neg one
  direction long = one

  unfoldable pub calculate_unrealized_pnl : Text → N → N → N → Result N
  unfolding normalized_side positive_number direction
  calculate_unrealized_pnl side quantity entry_price mark_price = do
    s ← normalized_side side
    q ← positive_number quantity "INVALID_QUANTITY"
    entry ← positive_number entry_price "INVALID_ENTRY_PRICE"
    mark ← positive_number mark_price "INVALID_MARK_PRICE"
    ok (mul (mul (direction s) q) (sub mark entry))

  unfoldable pub calculate_maintenance_margin : N → N → N → Result N
  unfolding calculate_notional maintenance_rate
  calculate_maintenance_margin quantity mark_price rate = do
    notional ← calculate_notional quantity mark_price
    r ← maintenance_rate rate
    ok (mul notional r)

  unfoldable pub liquidation_price_of : Side → N → N → N → N → N
  liquidation_price_of long qty entry margin mmr =
      max nought (div (sub (mul qty entry) margin) (mul qty (sub one mmr)))
  liquidation_price_of short qty entry margin mmr =
      div (add margin (mul qty entry)) (mul qty (add one mmr))

  unfoldable pub calculate_liquidation_price : Text → N → N → N → N → Result N
  unfolding positive_number maintenance_rate normalized_side liquidation_price_of
  calculate_liquidation_price side quantity entry_price collateral rate = do
    qty ← positive_number quantity "INVALID_QUANTITY"
    entry ← positive_number entry_price "INVALID_ENTRY_PRICE"
    margin ← positive_number collateral "INVALID_COLLATERAL"
    mmr ← maintenance_rate rate
    s ← normalized_side side
    ok (liquidation_price_of s qty entry margin mmr)

  abbrev pub margin_ratio_of : N → N → N
  margin_ratio_of equity margin = if lt nought equity then div margin equity else infinity

  unfoldable pub position_health : Text → N → N → N → N → N → Result (Health N)
  unfolding positive_number calculate_unrealized_pnl calculate_maintenance_margin
      calculate_liquidation_price
  position_health side quantity entry_price mark_price collateral rate = do
    margin ← positive_number collateral "INVALID_COLLATERAL"
    pnl ← calculate_unrealized_pnl side quantity entry_price mark_price
    let equity = add margin pnl
    maintenance ← calculate_maintenance_margin quantity mark_price rate
    price ← calculate_liquidation_price side quantity entry_price margin rate
    ok (record {
      unrealized_pnl = pnl;
      equity = equity;
      maintenance_margin = maintenance;
      margin_ratio = margin_ratio_of equity maintenance;
      liquidation_buffer = sub equity maintenance;
      liquidation_price = price;
      liquidatable = le equity maintenance;
    })

  unfoldable pub liquidation_action : Position N → N → Result (LiquidationDecision N)
  unfolding get_futures_market position_health
  liquidation_action p mark_price = do
    market ← required (get_futures_market p.symbol) "UNKNOWN_MARKET"
    health ←
        position_health p.side p.quantity p.entry_price mark_price p.collateral
          market.maintenance_margin_rate
    ok (record {
      symbol = market.symbol;
      position_id = p.id;
      action = if health.liquidatable then liquidate else hold;
      mark_price = mark_price;
      health = health;
    })

  -- one round of the loop of `crossAccountHealth`
  unfoldable pub add_cross_position :
      (Text → N) → CrossTotals N → Position N → Result (CrossTotals N)
  unfolding get_futures_market positive_number calculate_unrealized_pnl calculate_notional
      calculate_maintenance_margin normalized_side
  add_cross_position mark_price_of t p = do
    market ← required (get_futures_market p.symbol) "UNKNOWN_MARKET"
    mark ← positive_number (mark_price_of p.symbol) "INVALID_MARK_PRICE"
    pnl ← calculate_unrealized_pnl p.side p.quantity p.entry_price mark
    notional ← calculate_notional p.quantity mark
    mm ← calculate_maintenance_margin p.quantity mark market.maintenance_margin_rate
    s ← normalized_side p.side
    ok (record {
      unrealized_pnl = add t.unrealized_pnl pnl;
      maintenance_margin = add t.maintenance_margin mm;
      notional = add t.notional notional;
      details =
          t.details
          ++ (record {
            symbol = p.symbol;
            side = s;
            mark_price = mark;
            unrealized_pnl = pnl;
            notional = notional;
            maintenance_margin = mm;
          }
              ∷ []);
    })

  unfoldable pub cross_totals :
      (Text → N) → CrossTotals N → List (Position N) → Result (CrossTotals N)
  unfolding add_cross_position
  cross_totals mark_price_of t [] = ok t
  cross_totals mark_price_of t (p ∷ ps) =
      (if is_cross p.margin_mode then add_cross_position mark_price_of t p else ok t) >>= λ t'.
      cross_totals mark_price_of t' ps

  abbrev pub no_totals : CrossTotals N
  no_totals = record {
    unrealized_pnl = nought;
    maintenance_margin = nought;
    notional = nought;
    details = [];
  }

  unfoldable pub cross_account_health : N → List (Position N) → (Text → N) → Result (CrossHealth N)
  unfolding cross_totals
  cross_account_health wallet positions mark_price_of = do
    throw_if (not (is_finite wallet) || lt wallet nought) "INVALID_WALLET_BALANCE"
    t ← cross_totals mark_price_of no_totals positions
    let equity = add wallet t.unrealized_pnl
    ok (record {
      wallet_balance = wallet;
      unrealized_pnl = t.unrealized_pnl;
      equity = equity;
      notional = t.notional;
      maintenance_margin = t.maintenance_margin;
      margin_ratio = margin_ratio_of equity t.maintenance_margin;
      liquidation_buffer = sub equity t.maintenance_margin;
      liquidatable = ltb 0 (length t.details) && le equity t.maintenance_margin;
      positions = t.details;
    })
