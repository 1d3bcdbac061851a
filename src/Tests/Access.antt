-- ===== src/Tests/Access.antt =====
-- Concrete requests, orders and streams: api-auth-contract.js, trading-api-service.js,
-- websocket-stream.js and service-boundary.js of dex/app/futures.
use lqc_liquidity_chain.Common.{
  ℕ, ◌+◌, ◌≤◌, ◌≡◌, refl, true, false, none, some, List, [], ◌∷◌, arith, leb, ltb, if◌then◌else◌,
  length, same_text, ok, err,
}
use lqc_liquidity_chain.Common.Double.{one}
use lqc_liquidity_chain.Common.Dict.{lookup}
use lqc_liquidity_chain.Common.Text.{codes, trim, is_empty}
use lqc_liquidity_chain.Common.Fixed.{ℤ, pos, fixed}
use lqc_liquidity_chain.Risk.{long, CrossHealth, cross_account_health, cross_totals}
use lqc_liquidity_chain.Auth.{read}
use lqc_liquidity_chain.Book.{Book, list_book}
use lqc_liquidity_chain.Account.{Account, snapshot, health, cross_wallet_balance}
use lqc_liquidity_chain.AccountApi.{
  QueryPorts, AccountInfo, authenticate_query, account_info, info_of, book_positions, mark_error,
  sum_pnl,
}
use lqc_liquidity_chain.AccountApi.Queries.{account_info_faithful}
use lqc_liquidity_chain.Orders.{limit_order, open_demo, cancelled_demo, pending_demo}
use lqc_liquidity_chain.Auth.{
  trade, KeyDescriptor, Signed, Verifier, ReplayGuard, Principal, consume, check_request,
  verify_signed_request, drop_expired, drop_oldest, prune, replay_key, validate_request_timestamp,
  assert_permission,
}
use lqc_liquidity_chain.Auth.Replay.{verify_again}
use lqc_liquidity_chain.Auth.Lasting.{Attempt, consume_all, consume_lasting}
use lqc_liquidity_chain.Trading.{
  StoredOrder, Credentials, Desk, Ports, authenticate, cancel_order, own_order, cancelled,
}
use lqc_liquidity_chain.Trading.Lifecycle.{cancel_order_effect}
use lqc_liquidity_chain.Stream.{current}
use lqc_liquidity_chain.Stream.Sequence.{take_numbers, Gapless, take_numbers-Gapless}
use lqc_liquidity_chain.ServiceBoundary.{Monitoring, Engine, Boundary}

abbrev guard : ReplayGuard
guard = record { ttl = 60000; limit = 10; seen = [] }

abbrev key_one : KeyDescriptor
key_one = record { key_id = codes "k1"; label = []; permissions = trade ∷ []; enabled = true }

-- A request that is signed a minute ahead of the server.
abbrev request_ahead : Signed
request_ahead = record {
  request = record {
    method = codes "POST";
    path = codes "/order";
    query = [];
    timestamp = some 60000;
    recv_window = some (some 60000);
    nonce = codes "n1";
  };
  signature = codes "s";
}

abbrev accept_all : Verifier
accept_all = λ _ _ _. true

-- Two requests come in between, one of them a repetition.
abbrev in_between : List Attempt
in_between =
    record { key_id = codes "k2"; nonce = codes "n1"; time = 6 }
    ∷ record { key_id = codes "k1"; nonce = codes "n1"; time = 7 }
    ∷ []

consume_lasting_example :
    let g = consume_all in_between (consume (codes "k1") (codes "n1") 5 guard).1 in
    ((consume (codes "k1") (codes "n1") 9 g).0
      ≡ (if ltb 9 (5 + 60000) then err "REPLAY_DETECTED" else ok tt))
    × (length g.seen ≤ g.limit)
unfolding consume prune drop_expired drop_oldest replay_key trim
consume_lasting_example =
    consume_lasting (codes "k1") (codes "n1") 5 9 in_between guard (omega arith) (omega arith)
      (omega arith, (omega arith, tt)) refl

verify_again_example :
    let (first, after) =
      verify_signed_request accept_all (some key_one) trade request_ahead 0 (some guard) in
    (first ≡ ok (record { key_id = codes "k1"; permission = trade }))
    × ((verify_signed_request accept_all (some key_one) trade request_ahead 60000 after).0
        ≡ ok (record { key_id = codes "k1"; permission = trade }))
unfolding check_request validate_request_timestamp assert_permission consume prune drop_expired
    drop_oldest replay_key trim is_empty
verify_again_example =
    verify_again accept_all (some key_one) trade request_ahead 0 60000 guard {k = key_one}
      (omega arith) (omega arith) (omega arith) refl refl refl

abbrev ports : Ports ℤ
ports = record {
  resolve_api_key = λ _. some key_one;
  verify_signature = accept_all;
  get_mark_price = λ _. none;
}

abbrev credentials : Credentials
credentials = record { key_id = codes "k1"; signed = request_ahead }

abbrev open_order : StoredOrder ℤ
open_order = record {
  order = record {
    id = codes "o1";
    symbol = codes "BTCUSDT";
    side = long;
    kind = limit_order;
    quantity = one;
    price = some one;
    reference_price = one;
    leverage = one;
    notional = one;
    initial_margin = one;
    reduce_only = false;
    take_profit = none;
    stop_loss = none;
    status = pending_demo;
    created_at = 1;
  };
  account_key_id = codes "k1";
  status = open_demo;
  updated_at = 1;
}

abbrev desk : Desk ℤ
desk = record { orders = (codes "o1", open_order) ∷ []; guard = none }

abbrev cancelled_order : StoredOrder ℤ
cancelled_order = record open_order { status = cancelled_demo; updated_at = 7 }

cancel_order_effect_example :
    (principal : Principal) × (old : StoredOrder ℤ) × ((authenticate ports credentials trade 7
        desk).0
      ≡ ok principal)
    × (lookup (codes "o1") desk.orders ≡ some old)
    × (same_text old.account_key_id principal.key_id ≡ true)
    × (old.status ≡ open_demo)
    × (cancelled_order ≡ record old { status = cancelled_demo; updated_at = 7 })
    × (lookup (codes "o1") (cancel_order ports 7 credentials (codes "o1") desk).1.orders
        ≡ some cancelled_order)
unfolding cancel_order authenticate own_order cancelled verify_signed_request check_request
    validate_request_timestamp assert_permission trim is_empty
cancel_order_effect_example =
    cancel_order_effect ports 7 credentials (codes "o1") desk {o = cancelled_order} refl

take_numbers-Gapless_example :
    Gapless (current (codes "trade") []) (take_numbers 3 (codes "trade") [])
unfolding current
take_numbers-Gapless_example = take_numbers-Gapless 3 (codes "trade") [] (omega arith)

abbrev counting_engine : Engine ℕ ℕ ℕ
counting_engine = λ a s. (if leb a 9 then ok (a + 1) else err "NO_ROUTE", s + 1)

-- The sink takes no event.
abbrev broken_monitor : Monitoring ℕ
broken_monitor = record { emit = λ e m. err "MONITORING_DOWN" }

abbrev boundary : Boundary ℕ ℕ ℕ
boundary = record { router = 0; futures = 0; monitoring = 0 }

abbrev reader : KeyDescriptor
reader = record { key_id = codes "k2"; label = []; permissions = read ∷ []; enabled = true }

abbrev query_ports : QueryPorts ℤ
query_ports = record {
  resolve_api_key = λ _. some reader;
  verify_signature = accept_all;
  get_mark_price = λ _. one;
}

abbrev account : Account ℤ
account = record {
  initial = pos 9;
  cash = pos 5;
  isolated_reserved = pos 1;
  cross_reserved = pos 3;
  cumulative_funding = pos 0;
  cumulative_trading_fees = pos 0;
}

abbrev empty_book : Book ℤ
empty_book = record { positions = []; next = 0 }

abbrev account_shown : AccountInfo ℤ
account_shown = record {
  account_key_id = codes "k2";
  available_balance = pos 5;
  isolated_reserved = pos 1;
  cross_reserved = pos 3;
  total_reserved = pos 4;
  cross_wallet_balance = pos 8;
  isolated_unrealized_pnl = pos 0;
  cross_unrealized_pnl = pos 0;
  total_unrealized_pnl = pos 0;
  cross_equity = pos 8;
  cross_maintenance_margin = pos 0;
  cross_margin_ratio = some (pos 0);
  cross_liquidatable = false;
  position_count = 0;
}

account_info_faithful_example :
    (principal : Principal) × (cross : CrossHealth ℤ) × ((authenticate_query query_ports 7
        credentials none).0
      ≡ ok principal)
    × (account_shown.account_key_id ≡ principal.key_id)
    × (account_shown.available_balance ≡ account.cash)
    × (account_shown.isolated_reserved ≡ account.isolated_reserved)
    × (account_shown.cross_reserved ≡ account.cross_reserved)
    × (account_shown.total_reserved ≡ fixed.add account.isolated_reserved account.cross_reserved)
    × (account_shown.cross_wallet_balance ≡ fixed.add account.cash account.cross_reserved)
    × (health (book_positions empty_book) query_ports.get_mark_price account ≡ ok cross)
    × (account_shown.cross_equity ≡ cross.equity)
    × (account_shown.cross_unrealized_pnl ≡ cross.unrealized_pnl)
    × (account_shown.cross_maintenance_margin ≡ cross.maintenance_margin)
    × (account_shown.cross_margin_ratio
        ≡ (if fixed.is_finite cross.margin_ratio then some cross.margin_ratio else none))
    × (account_shown.cross_liquidatable ≡ cross.liquidatable)
    × (account_shown.position_count ≡ length (list_book empty_book))
unfolding account_info info_of authenticate_query verify_signed_request check_request
    validate_request_timestamp assert_permission trim is_empty mark_error health
    cross_account_health cross_totals cross_wallet_balance list_book snapshot sum_pnl
account_info_faithful_example =
    account_info_faithful query_ports 7 credentials account empty_book none {i = account_shown} refl
