-- ===== src/AccountApi.antt =====
-- dex/app/futures/account-position-api.js: the authenticated queries of account and positions.
pub mod Queries
use lqc_liquidity_chain.Common.{
  ℕ, Bool, not, Option, none, some, List, [], ◌∷◌, map, if◌then◌else◌, same_text, length, filter,
  Result, ok, err, ◌>>=◌, ◌>>◌, map_result,
}
use lqc_liquidity_chain.Common.Double.{Double, nought}
use lqc_liquidity_chain.Common.Dict.{values}
use lqc_liquidity_chain.Common.Text.{Text, codes}
use lqc_liquidity_chain.Common.Validation.{positive_number}
use lqc_liquidity_chain.Risk.{MarginMode, is_cross, Position}
use lqc_liquidity_chain.Positions.{mark_demo_position}
use lqc_liquidity_chain.Book.{Book, list_book}
use lqc_liquidity_chain.Account.{Account, snapshot, health}
use lqc_liquidity_chain.Auth.{
  KeyDescriptor, Verifier, ReplayGuard, Principal, read, verify_signed_request,
}
use lqc_liquidity_chain.Trading.{Credentials, symbol_matches}

-- What `createAccountPositionApi` is given. A price that is missing is no finite number.
pub record QueryPorts (N : Type 0) : Type 0 where
  pub resolve_api_key : Text → Option KeyDescriptor
  pub verify_signature : Verifier
  pub get_mark_price : Text → N

pub record PublicPosition (N : Type 0) : Type 0 where
  pub symbol : Text
  pub side : Text
  pub margin_mode : MarginMode
  pub quantity : N
  pub entry_price : N
  pub mark_price : N
  pub leverage : N
  pub collateral : N
  pub unrealized_pnl : N
  pub equity : N
  pub maintenance_margin : N
  pub liquidation_price : N
  pub liquidatable : Bool
  pub take_profit : Option N
  pub stop_loss : Option N
  pub opened_at : ℕ
  pub updated_at : Option ℕ

pub record AccountInfo (N : Type 0) : Type 0 where
  pub account_key_id : Text
  pub available_balance : N
  pub isolated_reserved : N
  pub cross_reserved : N
  pub total_reserved : N
  pub cross_wallet_balance : N
  pub isolated_unrealized_pnl : N
  pub cross_unrealized_pnl : N
  pub total_unrealized_pnl : N
  pub cross_equity : N
  pub cross_maintenance_margin : N
  pub cross_margin_ratio : Option N
  pub cross_liquidatable : Bool
  pub position_count : ℕ

-- The prices of `health` come from `markPriceOf`, which refuses a bad price by its own message
-- before `health` can.
unfoldable pub mark_error {ℓ} : {A : Type ℓ} → Result A → Result A
mark_error (ok a) = ok a
mark_error (err code) =
    err (
      if same_text (codes code) (codes "INVALID_MARK_PRICE")
      then "MARK_PRICE_UNAVAILABLE"
      else code)

module _ {N : Type 0} ⦃d : Double N⦄ where
  open d use {add, is_finite}

  -- The guard is written whatever the outcome is.
  unfoldable pub authenticate_query :
      QueryPorts N → ℕ → Credentials → Option ReplayGuard → Result Principal × Option ReplayGuard
  authenticate_query ports now auth guard =
      verify_signed_request ports.verify_signature (ports.resolve_api_key auth.key_id) read
        auth.signed now guard

  unfoldable pub mark_price_of : QueryPorts N → Text → Result N
  mark_price_of ports symbol =
      positive_number (ports.get_mark_price symbol) "MARK_PRICE_UNAVAILABLE"

  unfoldable pub public_position : QueryPorts N → Position N → Result (PublicPosition N)
  public_position ports p = do
    price ← mark_price_of ports p.symbol
    marked ← mark_demo_position p price
    ok (record {
      symbol = p.symbol;
      side = p.side;
      margin_mode = p.margin_mode;
      quantity = p.quantity;
      entry_price = p.entry_price;
      mark_price = marked.mark_price;
      leverage = p.leverage;
      collateral = p.collateral;
      unrealized_pnl = marked.health.unrealized_pnl;
      equity = marked.health.equity;
      maintenance_margin = marked.health.maintenance_margin;
      liquidation_price = marked.health.liquidation_price;
      liquidatable = marked.health.liquidatable;
      take_profit = p.take_profit;
      stop_loss = p.stop_loss;
      opened_at = p.opened_at;
      updated_at = p.updated_at;
    })

  abbrev pub book_positions : Book N → List (Position N)
  book_positions b = map (λ e. e.position) (list_book b)

  unfoldable pub positions :
      QueryPorts N
      → ℕ
      → Credentials
      → Option Text
      → Book N
      → Option ReplayGuard
      → Result (Text × List (PublicPosition N)) × Option ReplayGuard
  positions ports now auth symbol b guard =
      let (r, guard') = authenticate_query ports now auth guard in
      (
        r >>= λ principal.
            map_result (public_position ports)
              (filter (λ p. symbol_matches symbol p.symbol) (book_positions b))
            >>= λ values. ok (principal.key_id, values),
        guard',
      )

  -- `reduce((sum, position) => sum + position.unrealizedPnl, 0)`
  unfoldable pub sum_pnl : N → List (PublicPosition N) → N
  sum_pnl total [] = total
  sum_pnl total (p ∷ ps) = sum_pnl (add total p.unrealized_pnl) ps

  -- `accountInfo` after the authentication
  unfoldable pub info_of : QueryPorts N → Text → Account N → Book N → Result (AccountInfo N)
  info_of ports key_id a b = do
    cross ← mark_error (health (book_positions b) ports.get_mark_price a)
    marked ← map_result (public_position ports) (book_positions b)
    let s = snapshot a
    ok (record {
      account_key_id = key_id;
      available_balance = s.available_balance;
      isolated_reserved = s.isolated_reserved;
      cross_reserved = s.cross_reserved;
      total_reserved = s.total_reserved;
      cross_wallet_balance = s.cross_wallet_balance;
      isolated_unrealized_pnl = sum_pnl nought (filter (λ p. not (is_cross p.margin_mode)) marked);
      cross_unrealized_pnl = cross.unrealized_pnl;
      total_unrealized_pnl = sum_pnl nought marked;
      cross_equity = cross.equity;
      cross_maintenance_margin = cross.maintenance_margin;
      cross_margin_ratio = if is_finite cross.margin_ratio then some cross.margin_ratio else none;
      cross_liquidatable = cross.liquidatable;
      position_count = length marked;
    })

  unfoldable pub account_info :
      QueryPorts N
      → ℕ
      → Credentials
      → Account N
      → Book N
      → Option ReplayGuard
      → Result (AccountInfo N) × Option ReplayGuard
  account_info ports now auth a b guard =
      let (r, guard') = authenticate_query ports now auth guard in
      (r >>= λ principal. info_of ports principal.key_id a b, guard')
