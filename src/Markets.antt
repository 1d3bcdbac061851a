-- ===== src/Markets.antt =====
-- dex/app/futures/markets.js: the listed markets, their validation and the registry.
pub mod Registry
use lqc_liquidity_chain.Common.{
  ℕ, Bool, true, false, not, ◌&&◌, ◌||◌, Option, none, some, List, [], ◌∷◌, ◌++◌, leb, ◌==◌,
  same_text, length, filter, find, every, Result, ok, err, ◌>>◌, throw_if,
}
use lqc_liquidity_chain.Common.Double.{Double, nought, one}
use lqc_liquidity_chain.Common.Dict.{Dict, contains, insert}
use lqc_liquidity_chain.Common.Text.{Text, codes, to_upper, trim, is_space, is_symbol_char}

-- `MARKET_STATUS`
pub data MarketStatus : Type 0 where
  demo active suspended : MarketStatus

abbrev pub market_type : Text
market_type = codes "PERPETUAL"

pub record Market (N : Type 0) : Type 0 where
  pub symbol : Text
  pub base : Text
  pub quote : Text
  pub kind : Text
  pub status : MarketStatus
  pub max_leverage : N
  pub tick_size : N
  pub step_size : N
  pub maintenance_margin_rate : N

abbrev pub is_suspended : MarketStatus → Bool
is_suspended suspended = true
is_suspended _ = false

abbrev pub is_listed : MarketStatus → Bool
is_listed suspended = false
is_listed _ = true

-- `[\s/_-]`
is_separator : ℕ → Bool
is_separator c = is_space c || c == b'/' || c == b'_' || c == b'-'

unfoldable pub normalize_futures_symbol : Text → Text
unfolding is_separator
normalize_futures_symbol s = to_upper (filter (λ c. not (is_separator c)) (trim s))

-- `/^[A-Z0-9]{low,high}$/`
is_code : ℕ → ℕ → Text → Bool
is_code low high s = every is_symbol_char s && leb low (length s) && leb (length s) high

module _ {N : Type 0} ⦃d : Double N⦄ where
  open d use {decimal, lt, le, is_finite}

  -- `defineMarket`, with the default quote and status
  unfoldable pub define_market : Text → Text → N → N → N → N → Market N
  define_market s b leverage tick step rate = record {
    symbol = to_upper s;
    base = to_upper b;
    quote = to_upper (codes "USDT");
    kind = market_type;
    status = demo;
    max_leverage = leverage;
    tick_size = tick;
    step_size = step;
    maintenance_margin_rate = rate;
  }

  -- `FUTURES_MARKETS`
  unfoldable pub futures_markets : List (Market N)
  unfolding define_market
  futures_markets =
      define_market (codes "LQCUSDT") (codes "LQC") (decimal 20 0) (decimal 1 4) (decimal 1 0)
        (decimal 1 2)
      ∷ define_market (codes "BTCUSDT") (codes "BTC") (decimal 50 0) (decimal 1 1) (decimal 1 3)
          (decimal 5 3)
      ∷ define_market (codes "ETHUSDT") (codes "ETH") (decimal 50 0) (decimal 1 2) (decimal 1 3)
          (decimal 5 3)
      ∷ define_market (codes "SOLUSDT") (codes "SOL") (decimal 25 0) (decimal 1 3) (decimal 1 2)
          (decimal 75 4)
      ∷ define_market (codes "XRPUSDT") (codes "XRP") (decimal 20 0) (decimal 1 4) (decimal 1 0)
          (decimal 1 2)
      ∷ define_market (codes "FILUSDT") (codes "FIL") (decimal 20 0) (decimal 1 3) (decimal 1 1)
          (decimal 1 2)
      ∷ []

  -- `none` is a value that is no object
  unfoldable pub validate_futures_market : Option (Market N) → Bool
  unfolding is_code
  validate_futures_market none = false
  validate_futures_market (some m) =
      is_code 2 20 m.symbol
      && (is_code 2 12 m.base && is_code 2 12 m.quote)
      && (same_text m.symbol (m.base ++ m.quote) && same_text m.kind market_type)
      && (is_finite m.max_leverage && le one m.max_leverage)
      && (is_finite m.tick_size && lt nought m.tick_size)
      && (is_finite m.step_size && lt nought m.step_size)
      && (is_finite m.maintenance_margin_rate
          && lt nought m.maintenance_margin_rate
          && lt m.maintenance_margin_rate one)

  unfoldable pub get_futures_market : Text → Option (Market N)
  unfolding futures_markets normalize_futures_symbol
  get_futures_market s = find (λ m. same_text m.symbol (normalize_futures_symbol s)) futures_markets

  pub list_active_futures_markets : List (Market N)
  unfolding futures_markets
  list_active_futures_markets = filter (λ m. is_listed m.status) futures_markets

  -- the loop of `buildFuturesMarketRegistry`; the messages leave the symbol out
  unfoldable pub register_markets :
      List (Option (Market N)) → Dict (Market N) → Result (Dict (Market N))
  unfolding validate_futures_market
  register_markets [] registry = ok registry
  register_markets (none ∷ ms) registry = err "Invalid futures market"
  register_markets (some m ∷ ms) registry = do
    throw_if (not (validate_futures_market (some m))) "Invalid futures market"
    throw_if (contains m.symbol registry) "Duplicate futures market"
    register_markets ms (insert m.symbol m registry)

  unfoldable pub build_futures_market_registry : List (Option (Market N)) → Result (Dict (Market N))
  unfolding register_markets
  build_futures_market_registry ms = register_markets ms []
