-- ===== src/MarketData.antt =====
-- dex/app/futures/market-data-models.js: the events of public market data.
pub mod Candles
use lqc_liquidity_chain.Common.{
  Bool, ◌||◌, Option, none, some, List, String, if◌then◌else◌, same_text, Result, ok, err, ◌>>=◌,
  ◌>>◌, throw_if, required, map_result,
}
use lqc_liquidity_chain.Common.Double.{Double, nought}
use lqc_liquidity_chain.Common.Text.{Text, codes, to_upper, trim, is_empty}
use lqc_liquidity_chain.Common.Validation.{finite_number, positive_number}
use lqc_liquidity_chain.Markets.{Market, get_futures_market}

pub record TickerInput (N : Type 0) : Type 0 where
  pub symbol : Text
  pub last_price : N
  pub mark_price : Option N
  pub open_price : Option N
  pub high_price : Option N
  pub low_price : Option N
  pub volume : Option N
  pub quote_volume : Option N
  pub event_time : N

pub record Ticker (N : Type 0) : Type 0 where
  pub event_time : N
  pub symbol : Text
  pub last_price : N
  pub mark_price : N
  pub open_price : N
  pub high_price : N
  pub low_price : N
  pub price_change : N
  pub price_change_percent : N
  pub volume : N
  pub quote_volume : N

pub record Depth (N : Type 0) : Type 0 where
  pub event_time : N
  pub symbol : Text
  pub last_update_id : N
  pub bids : List (N × N)
  pub asks : List (N × N)

pub data TradeSide : Type 0 where
  buy sell : TradeSide

pub record TradeEvent (N : Type 0) : Type 0 where
  pub event_time : N
  pub symbol : Text
  pub trade_id : Text
  pub price : N
  pub quantity : N
  pub side : TradeSide
  pub buyer_maker : Option Bool

pub record KlineInput (N : Type 0) : Type 0 where
  pub symbol : Text
  pub interval : Text
  pub open_time : N
  pub close_time : N
  pub first : N
  pub high : N
  pub low : N
  pub close : N
  pub volume : Option N
  pub quote_volume : N
  pub trades : N
  pub closed : Bool

-- `first` is the source's `open`.
pub record Kline (N : Type 0) : Type 0 where
  pub symbol : Text
  pub interval : Text
  pub open_time : N
  pub close_time : N
  pub first : N
  pub high : N
  pub low : N
  pub close : N
  pub volume : N
  pub quote_volume : N
  pub trades : N
  pub closed : Bool

pub record MarkPriceEvent (N : Type 0) : Type 0 where
  pub event_time : N
  pub symbol : Text
  pub mark_price : N
  pub index_price : Option N
  pub funding_rate : N
  pub next_funding_time : Option N

-- `a ?? b`
abbrev pub value_or {ℓ} : {A : Type ℓ} → Option A → A → A
value_or none b = b
value_or (some a) b = a

-- `value == null ? null : f(value)`
abbrev pub optional {ℓ κ} :
    {A : Type ℓ} {B : Type κ} → (A → Result B) → Option A → Result (Option B)
optional f none = ok none
optional f (some a) = f a >>= λ b. ok (some b)

unfoldable pub trade_side : Text → Result TradeSide
trade_side s =
    if same_text (to_upper s) (codes "BUY")
    then ok buy
    else if same_text (to_upper s) (codes "SELL")
    then ok sell
    else err "INVALID_TRADE_SIDE"

module _ {N : Type 0} ⦃d : Double N⦄ where
  open d use {decimal, sub, mul, div, min, max, lt, same, trunc}

  unfoldable pub market_of : Text → Result (Market N)
  market_of symbol = required (get_futures_market symbol) "UNKNOWN_MARKET"

  unfoldable pub timestamp : N → Result N
  timestamp value = do
    number ← finite_number value "INVALID_TIMESTAMP"
    throw_if (lt number nought) "INVALID_TIMESTAMP"
    ok (trunc number)

  -- `Math.max(0, finite(value, code))`
  unfoldable pub at_least_nought : N → String → Result N
  at_least_nought value code = do number ← finite_number value code; ok (max nought number)

  unfoldable pub build_ticker : TickerInput N → Result (Ticker N)
  build_ticker i = do
    market ← market_of i.symbol
    last ← positive_number i.last_price "INVALID_LAST_PRICE"
    first ← positive_number (value_or i.open_price last) "INVALID_OPEN_PRICE"
    let change = sub last first
    event_time ← timestamp i.event_time
    mark ← positive_number (value_or i.mark_price last) "INVALID_MARK_PRICE"
    high ← positive_number (value_or i.high_price (max first last)) "INVALID_HIGH_PRICE"
    low ← positive_number (value_or i.low_price (min first last)) "INVALID_LOW_PRICE"
    volume ← at_least_nought (value_or i.volume nought) "INVALID_VOLUME"
    quote_volume ← at_least_nought (value_or i.quote_volume nought) "INVALID_QUOTE_VOLUME"
    ok (record {
      event_time = event_time;
      symbol = market.symbol;
      last_price = last;
      mark_price = mark;
      open_price = first;
      high_price = high;
      low_price = low;
      price_change = change;
      price_change_percent = mul (div change first) (decimal 100 0);
      volume = volume;
      quote_volume = quote_volume;
    })

  -- The parts of a level that has two.
  unfoldable pub normalize_level : N × N → Result (N × N)
  normalize_level (price, quantity) = do
    p ← positive_number price "INVALID_DEPTH_PRICE"
    q ← positive_number quantity "INVALID_DEPTH_QUANTITY"
    ok (p, q)

  unfoldable pub build_depth_snapshot :
      Text → N → List (N × N) → List (N × N) → N → Result (Depth N)
  build_depth_snapshot symbol last_update_id bids asks event_time = do
    market ← market_of symbol
    number ← finite_number last_update_id "INVALID_UPDATE_ID"
    let update_id = trunc number
    throw_if (lt update_id nought) "INVALID_UPDATE_ID"
    time ← timestamp event_time
    bs ← map_result normalize_level bids
    as' ← map_result normalize_level asks
    ok (record {
      event_time = time;
      symbol = market.symbol;
      last_update_id = update_id;
      bids = bs;
      asks = as';
    })

  unfoldable pub build_trade : Text → Text → N → N → Text → N → Option Bool → Result (TradeEvent N)
  build_trade symbol trade_id price quantity side event_time buyer_maker = do
    market ← market_of symbol
    s ← trade_side side
    time ← timestamp event_time
    p ← positive_number price "INVALID_TRADE_PRICE"
    q ← positive_number quantity "INVALID_TRADE_QUANTITY"
    ok (record {
      event_time = time;
      symbol = market.symbol;
      trade_id = trade_id;
      price = p;
      quantity = q;
      side = s;
      buyer_maker = buyer_maker;
    })

  unfoldable pub build_kline : KlineInput N → Result (Kline N)
  build_kline i = do
    market ← market_of i.symbol
    let interval = trim i.interval
    throw_if (is_empty interval) "INVALID_KLINE_INTERVAL"
    o ← positive_number i.first "INVALID_KLINE_OPEN"
    h ← positive_number i.high "INVALID_KLINE_HIGH"
    l ← positive_number i.low "INVALID_KLINE_LOW"
    c ← positive_number i.close "INVALID_KLINE_CLOSE"
    throw_if (lt h (max o c) || lt (min o c) l || lt h l) "INVALID_KLINE_RANGE"
    open_time ← timestamp i.open_time
    close_time ← timestamp i.close_time
    volume ← at_least_nought (value_or i.volume nought) "INVALID_KLINE_VOLUME"
    quote_volume ← at_least_nought i.quote_volume "INVALID_KLINE_QUOTE_VOLUME"
    trades ← finite_number i.trades "INVALID_KLINE_TRADES"
    ok (record {
      symbol = market.symbol;
      interval = interval;
      open_time = open_time;
      close_time = close_time;
      first = o;
      high = h;
      low = l;
      close = c;
      volume = volume;
      quote_volume = quote_volume;
      trades = max nought (trunc trades);
      closed = i.closed;
    })

  unfoldable pub build_mark_price :
      Text → N → Option N → N → Option N → N → Result (MarkPriceEvent N)
  build_mark_price symbol mark_price index_price funding_rate next_funding_time event_time = do
    market ← market_of symbol
    time ← timestamp event_time
    mark ← positive_number mark_price "INVALID_MARK_PRICE"
    index ← optional (λ x. positive_number x "INVALID_INDEX_PRICE") index_price
    rate ← finite_number funding_rate "INVALID_FUNDING_RATE"
    next_time ← optional timestamp next_funding_time
    ok (record {
      event_time = time;
      symbol = market.symbol;
      mark_price = mark;
      index_price = index;
      funding_rate = rate;
      next_funding_time = next_time;
    })
