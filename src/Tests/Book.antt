-- ===== src/Tests/Book.antt =====
-- A concrete position book (position-book.js). Amounts are in units of 10^-8.
use lqc_liquidity_chain.Common.{◌≡◌, refl, false, none, [], ◌∷◌, ok}
use lqc_liquidity_chain.Common.Double.{one}
use lqc_liquidity_chain.Common.Text.{codes, to_upper, trim}
use lqc_liquidity_chain.Common.Fixed.{ℤ, fixed}
use lqc_liquidity_chain.Markets.{
  get_futures_market, normalize_futures_symbol, futures_markets, define_market,
}
use lqc_liquidity_chain.Common.Validation.{positive_number, finite_number}
use lqc_liquidity_chain.Orders.{is_step_aligned}
use lqc_liquidity_chain.Risk.{Position, isolated, normalized_side}
use lqc_liquidity_chain.Positions.{
  Fill, open_demo_position, validate_market_precision, effective_leverage,
}
use lqc_liquidity_chain.Book.{
  Entry, Book, create_demo_position_book, add, remove, criteria_of_fill, key_of, mode_text,
}
use lqc_liquidity_chain.Book.Keys.{IsKeyed}
use lqc_liquidity_chain.Book.Reached.{Step, created, after, adds, removes, Reach-IsKeyed}
use lqc_liquidity_chain.Book.Refined.{view, Effect, Step-Effect}
open fixed use {decimal}

abbrev a_fill : Fill ℤ
a_fill = record {
  symbol = codes "btcusdt";
  side = codes "long";
  quantity = one;
  entry_price = decimal 100 0;
  leverage = decimal 2 0;
  collateral = decimal 100 0;
  margin_mode = isolated;
  take_profit = none;
  stop_loss = none;
}

abbrev opened : Position ℤ
opened = record {
  id = codes "p1";
  symbol = codes "BTCUSDT";
  side = codes "LONG";
  quantity = one;
  entry_price = decimal 100 0;
  leverage = decimal 2 0;
  collateral = decimal 100 0;
  margin_mode = isolated;
  take_profit = none;
  stop_loss = none;
  cumulative_funding = none;
  last_funding_rate = none;
  last_funding_payment = none;
  last_funding_at = none;
  opened_at = 5;
  updated_at = none;
}

abbrev stored : Entry ℤ
stored = record { ref = 0; position = opened }

abbrev one_position : Book ℤ
one_position = record { positions = (codes "BTCUSDT:LONG:ISOLATED", stored) ∷ []; next = 1 }

adds_one :
    add (codes "p1") 5 a_fill create_demo_position_book
    ≡ ok (record { entry = stored; merged = false }, one_position)
unfolding add create_demo_position_book key_of open_demo_position get_futures_market futures_markets
    normalize_futures_symbol define_market normalized_side to_upper trim validate_market_precision
    is_step_aligned effective_leverage positive_number finite_number mode_text
adds_one = refl

-- A short position of the same symbol stands beside the long one.
abbrev stored_short : Entry ℤ
stored_short = record {
  ref = 1;
  position = record opened { id = codes "p2"; side = codes "SHORT"; opened_at = 6 };
}

abbrev two_positions : Book ℤ
two_positions = record {
  positions =
      (codes "BTCUSDT:LONG:ISOLATED", stored) ∷ (codes "BTCUSDT:SHORT:ISOLATED", stored_short) ∷ [];
  next = 2;
}

adds_another :
    add (codes "p2") 6 (record a_fill { side = codes "Short" }) one_position
    ≡ ok (record { entry = stored_short; merged = false }, two_positions)
unfolding add key_of open_demo_position get_futures_market futures_markets normalize_futures_symbol
    define_market normalized_side to_upper trim validate_market_precision is_step_aligned
    effective_leverage positive_number finite_number mode_text
adds_another = refl

-- The long position is removed again.
Reach-IsKeyed_example : IsKeyed (remove (criteria_of_fill a_fill) two_positions).1
Reach-IsKeyed_example = Reach-IsKeyed (
    after
      (after (after created (adds (codes "p1") 5 a_fill adds_one))
        (adds (codes "p2") 6 (record a_fill { side = codes "Short" }) adds_another))
      (removes (criteria_of_fill a_fill)))

abbrev short_added : Step one_position two_positions
short_added = adds (codes "p2") 6 (record a_fill { side = codes "Short" }) adds_another

Step-Effect_example : Effect short_added (view one_position) (view two_positions)
Step-Effect_example = Step-Effect (after created (adds (codes "p1") 5 a_fill adds_one)) short_added
