-- ===== src/Tests/Trade.antt =====
-- Concrete markets and orders: markets.js and order-engine.js of dex/app/futures.
use lqc_liquidity_chain.Common.{◌≡◌, refl, true, false, some, [], ◌∷◌, All}
use lqc_liquidity_chain.Common.Double.{◌≺◌, nought}
use lqc_liquidity_chain.Common.Dict.{Dict}
use lqc_liquidity_chain.Common.Text.{codes, trim, to_upper, is_empty, is_symbol_char}
use lqc_liquidity_chain.Common.Fixed.{ℤ, fixed, fixed-IsIeee}
use lqc_liquidity_chain.Common.Validation.{positive_number}
use lqc_liquidity_chain.Risk.{long, normalized_side}
use lqc_liquidity_chain.Markets.{
  Market, define_market, futures_markets, is_suspended, get_futures_market,
  normalize_futures_symbol, validate_futures_market, register_markets,
  build_futures_market_registry,
}
use lqc_liquidity_chain.Markets.Registry.{IsRegistered, build_futures_market_registry-IsRegistered}
use lqc_liquidity_chain.Orders.{
  limit_order, OrderInput, ValidOrder, order_type, is_step_aligned, optional_trigger,
  check_triggers, reference_price_of, validate_demo_order,
}
use lqc_liquidity_chain.Orders.Valid.{AreOnSide, validate_demo_order_sound}
use lqc_liquidity_chain.Tests.Safety.{whole}
open fixed use {decimal, lt, is_integer}

abbrev bitcoin : Market ℤ
bitcoin =
    define_market (codes "BTCUSDT") (codes "BTC") (whole 50) (decimal 1 1) (decimal 1 3)
      (decimal 5 3)

abbrev ether : Market ℤ
ether =
    define_market (codes "ETHUSDT") (codes "ETH") (whole 50) (decimal 1 2) (decimal 1 3)
      (decimal 5 3)

abbrev registry : Dict (Market ℤ)
registry = (codes "BTCUSDT", bitcoin) ∷ (codes "ETHUSDT", ether) ∷ []

build_futures_market_registry-IsRegistered_example :
    All (IsRegistered registry) (some bitcoin ∷ some ether ∷ [])
unfolding build_futures_market_registry register_markets validate_futures_market define_market
    to_upper is_symbol_char
build_futures_market_registry-IsRegistered_example =
    build_futures_market_registry-IsRegistered (some bitcoin ∷ some ether ∷ []) {out = registry}
      refl

abbrev order_input : OrderInput ℤ
order_input = record {
  symbol = codes "btc-usdt";
  side = codes "long";
  kind = codes "LIMIT";
  quantity = decimal 5 1;
  leverage = whole 10;
  price = whole 100;
  mark_price = whole 101;
  take_profit = some (whole 120);
  stop_loss = some (whole 90);
  reduce_only = false;
}

abbrev valid_order : ValidOrder ℤ
valid_order = record {
  market = bitcoin;
  side = long;
  kind = limit_order;
  quantity = decimal 5 1;
  leverage = whole 10;
  reference_price = whole 100;
  take_profit = some (whole 120);
  stop_loss = some (whole 90);
}

validate_demo_order_sound_example :
    (get_futures_market (codes "btc-usdt") ≡ some bitcoin)
    × (is_suspended bitcoin.status ≡ false)
    × (nought ≺ decimal 5 1)
    × (is_step_aligned (decimal 5 1) bitcoin.step_size ≡ true)
    × (is_integer (whole 10) ≡ true)
    × (lt bitcoin.max_leverage (whole 10) ≡ false)
    × (nought ≺ whole 100)
    × (limit_order ≡ limit_order → is_step_aligned (whole 100) bitcoin.tick_size ≡ true)
    × AreOnSide long (whole 100) (some (whole 120)) (some (whole 90))
unfolding validate_demo_order get_futures_market futures_markets normalize_futures_symbol
    define_market trim to_upper normalized_side order_type is_step_aligned optional_trigger
    check_triggers reference_price_of positive_number is_empty
validate_demo_order_sound_example =
    validate_demo_order_sound fixed-IsIeee order_input {v = valid_order} refl
