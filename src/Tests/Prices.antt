-- ===== src/Tests/Prices.antt =====
-- Concrete prices, listings and candles: oracle-guard.js, oracle-price-service.js,
-- listing-activation-gate.js and market-data-models.js of dex/app/futures.
use lqc_liquidity_chain.Tests.Safety.{whole}
use lqc_liquidity_chain.Common.{
  ◌≤◌, ◌≡◌, refl, ◌≢◌, ◌↔◌, Bool, true, false, none, some, List, [], ◌∷◌, map, All, length, ok,
}
use lqc_liquidity_chain.Common.Double.{◌≺◌, ◌≼◌, nought, one}
use lqc_liquidity_chain.Common.Dict.{lookup}
use lqc_liquidity_chain.Common.Text.{Text, codes, trim, to_upper, is_empty}
use lqc_liquidity_chain.Common.Fixed.{ℤ, pos, fixed, fixed-IsIeee}
use lqc_liquidity_chain.Common.Validation.{non_negative_number, positive_number, finite_number}
use lqc_liquidity_chain.Markets.{
  Market, demo, define_market, validate_futures_market, get_futures_market, futures_markets,
  normalize_futures_symbol,
}
use lqc_liquidity_chain.MarketData.{
  KlineInput, Kline, build_kline, market_of, timestamp, at_least_nought,
}
use lqc_liquidity_chain.MarketData.Candles.{build_kline_range}
use lqc_liquidity_chain.Oracle.{
  Source, Reading, GuardOptions, Validated, is_fresh, is_near, median, prices, spread_ratio,
  aggregate, read_source, read_sources, sort_numbers, insert_sorted, validate_oracle_sources,
}
use lqc_liquidity_chain.Oracle.Accepted.{IsRead, AreDistinct, validate_oracle_sources-accepted}
use lqc_liquidity_chain.PriceService.{
  Price, Config, Refreshed, normalize_symbol, derive_mark_price, check_breaker, previous_mark,
  guard_at, refresh, get_mark_price,
}
use lqc_liquidity_chain.PriceService
use lqc_liquidity_chain.PriceService.Bounds.{derive_mark_price_bounds, refresh_effect}
use lqc_liquidity_chain.Listing
use lqc_liquidity_chain.Listing.{
  Approval, Candidate, OracleConfig, LimitConfig, check_oracle, check_limits,
  activate_futures_listing,
}
use lqc_liquidity_chain.Listing.Approved.{activate_iff}
open fixed use {add, sub, mul, decimal, lt, le, is_finite, infinity}

abbrev guard_options : GuardOptions ℤ
guard_options = record {
  now = pos 90;
  max_age_ms = pos 10;
  max_deviation_ratio = decimal 5 2;
  max_source_spread_ratio = decimal 5 2;
  min_sources = 3;
  production_mode = true;
}

abbrev sources : List (Source ℤ)
sources =
    record { id = codes "a"; price = whole 100; timestamp = pos 85 }
    ∷ record { id = codes "b"; price = whole 101; timestamp = pos 86 }
    ∷ record { id = codes "c"; price = whole 102; timestamp = pos 90 }
    ∷ record { id = codes "d"; price = whole 150; timestamp = pos 90 }
    ∷ []

abbrev accepted : List (Reading ℤ)
accepted =
    record { id = codes "a"; price = whole 100; timestamp = pos 85; age_ms = pos 5 }
    ∷ record { id = codes "b"; price = whole 101; timestamp = pos 86; age_ms = pos 4 }
    ∷ record { id = codes "c"; price = whole 102; timestamp = pos 90; age_ms = pos 0 }
    ∷ []

abbrev validated : Validated ℤ
validated = record {
  price = whole 101;
  reference_price = decimal 1015 1;
  accepted = accepted;
  rejected_count = 1;
  source_spread_ratio = decimal 2 2;
}

validate_oracle_sources-accepted_example :
    (whole 101 ≡ median (prices accepted))
    × (3 ≤ length accepted)
    × (2 ≤ length accepted)
    × (true ≡ true → 3 ≤ length accepted)
    × AreDistinct accepted
    × All (IsRead (pos 90)) accepted
    × All (λ r. is_fresh (pos 10) r ≡ true) accepted
    × All (λ r. is_near (decimal 1015 1) (decimal 5 2) r ≡ true) accepted
    × (lt (decimal 5 2) (spread_ratio accepted) ≡ false)
unfolding validate_oracle_sources read_sources read_source aggregate median sort_numbers
    insert_sorted spread_ratio non_negative_number positive_number is_empty
validate_oracle_sources-accepted_example =
    validate_oracle_sources-accepted guard_options sources {v = validated} refl

abbrev config : Config ℤ
config = record {
  guard = guard_options;
  max_move_ratio = decimal 1 1;
  max_mark_index_deviation_ratio = decimal 2 2;
  max_read_age_ms = pos 20;
}

derive_mark_price_bounds_example :
    (mul (whole 100) (sub one (decimal 2 2)) ≼ whole 102)
    × (whole 102 ≼ mul (whole 100) (add one (decimal 2 2)))
unfolding derive_mark_price positive_number
derive_mark_price_bounds_example =
    derive_mark_price_bounds fixed-IsIeee (whole 110) (whole 100) (decimal 2 2) {mark = whole 102}
      refl refl refl

abbrev new_price : Price ℤ
new_price = record {
  symbol = codes "BTC";
  index_price = whole 101;
  mark_price = whole 101;
  mark_index_deviation_ratio = pos 0;
  updated_at = pos 90;
  source_count = 3;
  rejected_count = 1;
  source_spread_ratio = decimal 2 2;
}

abbrev no_prices : PriceService.Service ℤ
no_prices = record { prices = []; listeners = 4 ∷ [] }

abbrev one_price : PriceService.Service ℤ
one_price = record { prices = (codes "BTC", new_price) ∷ []; listeners = 4 ∷ [] }

abbrev refreshed : Refreshed ℤ
refreshed = record { next = new_price; deliveries = (4, new_price) ∷ [] }

refresh_effect_example :
    (key : Text) × (v : Validated ℤ) × (normalize_symbol (codes " btc ") ≡ ok key)
    × (validate_oracle_sources (guard_at config (pos 90)) sources ≡ ok v)
    × (new_price.index_price ≡ v.price)
    × (check_breaker config (lookup key no_prices.prices) v.price ≡ ok tt)
    × (derive_mark_price (previous_mark (lookup key no_prices.prices)) v.price (decimal 2 2)
        ≡ ok new_price.mark_price)
    × (lookup key one_price.prices ≡ some new_price)
    × ((k : Text) → k ≢ key → lookup k one_price.prices ≡ lookup k no_prices.prices)
    × (refreshed.deliveries ≡ map (λ l. (l, new_price)) no_prices.listeners)
unfolding refresh validate_oracle_sources read_sources read_source aggregate median sort_numbers
    insert_sorted spread_ratio non_negative_number positive_number is_empty normalize_symbol trim
    to_upper check_breaker derive_mark_price
refresh_effect_example =
    refresh_effect config sources (pos 90) (codes " btc ") no_prices {r = refreshed} {t = one_price}
      refl

abbrev market : Market ℤ
market =
    define_market (codes "BTCUSDT") (codes "BTC") (whole 50) (decimal 1 1) (decimal 1 3)
      (decimal 5 3)

abbrev candidate : Candidate ℤ
candidate = record {
  market = some market;
  oracle =
      some
        (record { min_sources = some 3; max_age_ms = pos 10; max_deviation_ratio = decimal 5 2 });
  risk_limits = some (record {
    max_open_interest = some (pos 500);
    max_position_notional = some (pos 100);
    max_order_notional = some (pos 50);
    others = [];
  });
  approvals = some (λ _. true);
}

activate_iff_example : (activate_futures_listing candidate ≡ ok (market.symbol, Listing.active)) ↔ (
    (validate_futures_market (some market) ≡ true)
    × (market.status ≡ demo)
    × ((o : OracleConfig ℤ) × (candidate.oracle ≡ some o) × (check_oracle o ≡ ok tt))
    × ((l : LimitConfig ℤ) × (candidate.risk_limits ≡ some l) × (check_limits l ≡ ok tt))
    × ((a : Approval → Bool) × (candidate.approvals ≡ some a) × ((x : Approval) → a x ≡ true)))
activate_iff_example = activate_iff candidate market refl

abbrev candle_input : KlineInput ℤ
candle_input = record {
  symbol = codes "BTCUSDT";
  interval = codes "1m";
  open_time = whole 1;
  close_time = whole 2;
  first = whole 100;
  high = whole 110;
  low = whole 90;
  close = whole 95;
  volume = none;
  quote_volume = nought;
  trades = nought;
  closed = true;
}

abbrev candle : Kline ℤ
candle = record {
  symbol = codes "BTCUSDT";
  interval = codes "1m";
  open_time = whole 1;
  close_time = whole 2;
  first = whole 100;
  high = whole 110;
  low = whole 90;
  close = whole 95;
  volume = nought;
  quote_volume = nought;
  trades = nought;
  closed = true;
}

build_kline_range_example :
    (nought ≺ whole 90)
    × (whole 90 ≼ whole 100)
    × (whole 100 ≼ whole 110)
    × (whole 90 ≼ whole 95)
    × (whole 95 ≼ whole 110)
    × (nought ≼ candle.volume)
unfolding build_kline market_of get_futures_market futures_markets define_market
    normalize_futures_symbol timestamp at_least_nought positive_number finite_number trim to_upper
    is_empty
build_kline_range_example = build_kline_range fixed-IsIeee candle_input {k = candle} refl
