-- ===== src/Trading.antt =====
-- dex/app/futures/trading-api-service.js: the orders of the authenticated trading interface.
pub mod Lifecycle
use lqc_liquidity_chain.Common.{
  ℕ, Bool, true, false, not, ◌&&◌, ◌||◌, Option, none, some, List, same_text, filter, Result, ok,
  err, ◌>>=◌, ◌>>◌, throw_if, required,
}
use lqc_liquidity_chain.Common.Double.{Double}
use lqc_liquidity_chain.Common.Dict.{Dict, lookup, insert, values}
use lqc_liquidity_chain.Common.Text.{Text, to_upper, is_empty}
use lqc_liquidity_chain.Orders.{
  OrderType, market_order, limit_order, OrderInput, OrderStatus, open_demo, filled_demo,
  cancelled_demo, DemoOrder, build_demo_order,
}
use lqc_liquidity_chain.Auth.{
  Permission, read, trade, KeyDescriptor, Signed, Verifier, ReplayGuard, Principal,
  verify_signed_request,
}

pub record StoredOrder (N : Type 0) : Type 0 where
  pub order : DemoOrder N
  pub account_key_id : Text
  pub status : OrderStatus
  pub updated_at : ℕ

-- What the caller presents; the key of a missing `auth` is the empty text.
pub record Credentials : Type 0 where
  pub key_id : Text
  pub signed : Signed

-- The `orders` of the service, and the replay guard that it shares.
pub record Desk (N : Type 0) : Type 0 where
  pub orders : Dict (StoredOrder N)
  pub guard : Option ReplayGuard

abbrev pub status_after : OrderType → OrderStatus
status_after market_order = filled_demo
status_after limit_order = open_demo

abbrev pub is_open : OrderStatus → Bool
is_open open_demo = true
is_open _ = false

abbrev pub is_filled : OrderStatus → Bool
is_filled filled_demo = true
is_filled _ = false

-- `!normalized || order.symbol === normalized`
abbrev pub symbol_matches : Option Text → Text → Bool
symbol_matches none s = true
symbol_matches (some t) s = is_empty t || same_text s (to_upper t)

-- What `createTradingApiService` is given: the key store, the signature check and the prices. A
-- mark price that is missing or zero is `none`.
pub record Ports (N : Type 0) : Type 0 where
  pub resolve_api_key : Text → Option KeyDescriptor
  pub verify_signature : Verifier
  pub get_mark_price : Text → Option N

module _ {N : Type 0} where
  -- an order of the caller's, or none
  unfoldable pub own_order : Text → Text → Dict (StoredOrder N) → Result (StoredOrder N)
  own_order key_id id orders = do
    current ← required (lookup id orders) "ORDER_NOT_FOUND"
    throw_if (not (same_text current.account_key_id key_id)) "ORDER_NOT_FOUND"
    ok current

  -- what `cancelOrder` stores
  unfoldable pub cancelled : ℕ → StoredOrder N → Result (StoredOrder N)
  cancelled now current = do
    throw_if (not (is_open current.status)) "ORDER_NOT_CANCELABLE"
    ok (record current { status = cancelled_demo; updated_at = now })

  -- The guard is written whatever the outcome is.
  unfoldable pub authenticate :
      Ports N → Credentials → Permission → ℕ → Desk N → Result Principal × Desk N
  authenticate ports auth permission now desk =
      let (r, guard) =
        verify_signed_request ports.verify_signature (ports.resolve_api_key auth.key_id) permission
          auth.signed now desk.guard in
      (r, record desk { guard = guard })

  -- `orders.set(order.id, order)`, unless the order could not be made
  abbrev pub put_order : Desk N → Text → Result (StoredOrder N) → Result (StoredOrder N) × Desk N
  put_order desk id (err code) = (err code, desk)
  put_order desk id (ok o) = (ok o, record desk { orders = insert id o desk.orders })

  unfoldable pub cancel_order :
      Ports N → ℕ → Credentials → Text → Desk N → Result (StoredOrder N) × Desk N
  unfolding authenticate own_order cancelled
  cancel_order ports now auth id desk =
      let (r, desk') = authenticate ports auth trade now desk in
      put_order desk' id
        (r >>= λ principal. own_order principal.key_id id desk'.orders >>= cancelled now)

  unfoldable pub get_order :
      Ports N → ℕ → Credentials → Text → Desk N → Result (StoredOrder N) × Desk N
  unfolding authenticate own_order
  get_order ports now auth id desk =
      let (r, desk') = authenticate ports auth read now desk in
      (r >>= λ principal. own_order principal.key_id id desk'.orders, desk')

  abbrev pub selected : (OrderStatus → Bool) → Text → Option Text → StoredOrder N → Bool
  selected wanted key_id symbol o =
      same_text o.account_key_id key_id && wanted o.status && symbol_matches symbol o.order.symbol

  -- the filter that `openOrders` and `userTrades` share
  unfoldable pub select_orders :
      (OrderStatus → Bool)
      → Ports N
      → ℕ
      → Credentials
      → Option Text
      → Desk N
      → Result (List (StoredOrder N)) × Desk N
  unfolding authenticate
  select_orders wanted ports now auth symbol desk =
      let (r, desk') = authenticate ports auth read now desk in
      (
        r >>= λ principal.
            ok (filter (selected wanted principal.key_id symbol) (values desk'.orders)),
        desk',
      )

  unfoldable pub open_orders :
      Ports N → ℕ → Credentials → Option Text → Desk N → Result (List (StoredOrder N)) × Desk N
  unfolding select_orders
  open_orders = select_orders is_open

  unfoldable pub user_trades :
      Ports N → ℕ → Credentials → Option Text → Desk N → Result (List (StoredOrder N)) × Desk N
  unfolding select_orders
  user_trades = select_orders is_filled

module _ {N : Type 0} ⦃d : Double N⦄ where
  -- what `createOrder` stores
  unfoldable pub new_order : Ports N → Text → ℕ → Text → OrderInput N → Result (StoredOrder N)
  new_order ports id now key_id i = do
    let symbol = to_upper i.symbol
    mark ← required (ports.get_mark_price symbol) "MARK_PRICE_UNAVAILABLE"
    built ← build_demo_order id now (record i { symbol = symbol; mark_price = mark })
    ok (record {
      order = built;
      account_key_id = key_id;
      status = status_after built.kind;
      updated_at = now;
    })

  unfoldable pub create_order :
      Ports N → Text → ℕ → Credentials → OrderInput N → Desk N → Result (StoredOrder N) × Desk N
  unfolding authenticate new_order
  create_order ports id now auth i desk =
      let (r, desk') = authenticate ports auth trade now desk in
      put_order desk' id (r >>= λ principal. new_order ports id now principal.key_id i)
