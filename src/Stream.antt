-- ===== src/Stream.antt =====
-- dex/app/futures/websocket-stream.js: the sequence numbers of the streams, and the gateway that
-- numbers the events.
pub mod Sequence
use lqc_liquidity_chain.Common.{
  ℕ, ◌+◌, ◌%◌, Bool, true, false, not, ◌&&◌, ◌||◌, Option, none, some, ◌++◌, ltb, leb, ◌==◌,
  if◌then◌else◌, Result, ok, err, ◌>>=◌, ◌>>◌, throw_if, required,
}
use lqc_liquidity_chain.Common.Double.{Double}
use lqc_liquidity_chain.Common.Dict.{Dict, lookup, insert}
use lqc_liquidity_chain.Common.Text.{Text, codes, to_upper, trim, is_empty}
use lqc_liquidity_chain.Markets.{Market, get_futures_market}

-- the `sequences` of `createStreamSequencer`
abbrev pub Sequencer : Type 0
Sequencer = Dict ℕ

-- `n + 1` where `n` is an integer that a double represents: exact below 2^53, rounded to the even
-- one of the two nearest doubles from there to 2^54, and lost above.
abbrev pub add_one : ℕ → ℕ
add_one n =
    if ltb n 9_007_199_254_740_992
    then n + 1
    else if ltb n 18_014_398_509_481_984 && not (n % 4 == 0)
    then n + 2
    else n

abbrev pub number_or_zero : Option ℕ → ℕ
number_or_zero none = 0
number_or_zero (some n) = n

unfoldable pub current : Text → Sequencer → ℕ
current stream s = number_or_zero (lookup stream s)

unfoldable pub next : Text → Sequencer → ℕ × Sequencer
unfolding current
next stream s = let value = add_one (current stream s) in (value, insert stream value s)

-- `none` is a value that is no integer or is below zero
unfoldable pub reset : Text → Option ℕ → Sequencer → Result (ℕ × Sequencer)
reset stream sequence s = do
  value ← required sequence "INVALID_SEQUENCE"
  ok (value, insert stream value s)

pub record Gap : Type 0 where
  pub gap : Bool
  pub expected : ℕ
  pub received : ℕ
  pub duplicate_or_old : Bool

unfoldable pub detect_sequence_gap : Option ℕ → Option ℕ → Result Gap
detect_sequence_gap previous_sequence incoming_sequence = do
  previous ← required previous_sequence "INVALID_PREVIOUS_SEQUENCE"
  incoming ← required incoming_sequence "INVALID_INCOMING_SEQUENCE"
  throw_if (ltb incoming 1) "INVALID_INCOMING_SEQUENCE"
  ok (record {
    gap = ltb 0 previous && not (incoming == add_one previous);
    expected = if ltb 0 previous then add_one previous else incoming;
    received = incoming;
    duplicate_or_old = ltb 0 previous && leb incoming previous;
  })

-- `normalizeChannel`
unfoldable pub normalize_channel : Text → Result Text
normalize_channel channel =
    let value = trim channel in if is_empty value then err "INVALID_STREAM_CHANNEL" else ok value

-- What a subscriber is sent; the payload is the event itself.
pub record Envelope (E : Type 0) : Type 0 where
  pub stream : Text
  pub channel : Text
  pub symbol : Text
  pub event_time : ℕ
  pub sequence : ℕ
  pub payload : E

module _ (N : Type 0) ⦃d : Double N⦄ where
  abbrev pub is_unknown : Option (Market N) → Bool
  is_unknown none = true
  is_unknown (some _) = false

  -- `normalizeSymbol` of the stream: a listed market under its trimmed name
  unfoldable pub stream_symbol : Text → Result Text
  stream_symbol symbol = do
    let value = to_upper (trim symbol)
    throw_if (is_empty value || is_unknown (get_futures_market value)) "UNKNOWN_MARKET"
    ok value

  unfoldable pub stream_name : Text → Text → Result Text
  unfolding normalize_channel stream_symbol
  stream_name channel symbol = do
    c ← normalize_channel channel
    s ← stream_symbol symbol
    ok (c ++ (codes "." ++ s))

  unfoldable pub envelope :
      {E : Type 0} → ℕ → Text → Text → E → Sequencer → Result (Envelope E × Sequencer)
  envelope now channel symbol payload s = do
    key ← stream_symbol symbol
    stream ← stream_name channel key
    c ← normalize_channel channel
    let (number, s') = next stream s
    ok (
      record {
        stream = stream;
        channel = c;
        symbol = key;
        event_time = now;
        sequence = number;
        payload = payload;
      },
      s',
    )
