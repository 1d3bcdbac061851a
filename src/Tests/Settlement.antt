-- ===== src/Tests/Settlement.antt =====
-- Concrete settlements: fee-controller.js, funding-engine.js, funding-controller.js and
-- liquidation-controller.js of dex/app/futures. Amounts are in units of 10^-8.
use lqc_liquidity_chain.Tests.Money.{account_of, service}
use lqc_liquidity_chain.Common.{◌≡◌, refl, false, none, some, [], ◌∷◌}
use lqc_liquidity_chain.Common.Double.{◌≼◌, nought, one}
use lqc_liquidity_chain.Common.Text.{codes}
use lqc_liquidity_chain.Common.Fixed.{ℤ, pos, fixed, fixed-IsIeee}
use lqc_liquidity_chain.Common.{same_text_refl}
use lqc_liquidity_chain.Risk.{cross}
use lqc_liquidity_chain.Common.Validation.{positive_number, finite_number}
use lqc_liquidity_chain.Fees.{FeeSchedule, FeeShares}
use lqc_liquidity_chain.FeeController.{Trade, Ledger, settle_trade}
use lqc_liquidity_chain.FeeController.Atomic.{FeeEnds, settle_trade-FeeEnds}
use lqc_liquidity_chain.Book.{Entry, Book, get_position, criteria_of, key_of, key_of_position}
use lqc_liquidity_chain.Book.Keys.{IsKeyed}
use lqc_liquidity_chain.Liquidation.{Env, World, liquidate_cross_if_required}
use lqc_liquidity_chain.Liquidation.Steps.{LiquidationEnds, liquidate_cross_if_required-Ends}
use lqc_liquidity_chain.Funding.{FundingInput, calculate_funding_rate, settle}
use lqc_liquidity_chain.Funding.Rate.{funding_rate_bounds}
use lqc_liquidity_chain.Funding.Atomic.{Ends, settle-Ends}
open fixed use {neg, min, max, add, sub, mul, decimal}

abbrev ledger : Ledger ℤ
ledger = record { account = account_of (pos 100_000_000) (pos 0) (pos 0); insurance = some service }

abbrev schedule : FeeSchedule ℤ
schedule = record { maker_rate = decimal 2 4; taker_rate = decimal 5 4 }

abbrev shares : FeeShares ℤ
shares = record { insurance_share = decimal 25 2; treasury_share = decimal 75 2 }

abbrev a_trade : Trade ℤ
a_trade = record { quantity = one; price = one; liquidity_role = codes "taker" }

settle_trade-FeeEnds_example : FeeEnds ledger (settle_trade schedule shares 7 a_trade ledger)
settle_trade-FeeEnds_example = settle_trade-FeeEnds schedule shares 7 a_trade ledger

funding_rate_bounds_example :
    (neg (decimal 5 3) ≼ decimal 5 3) × (◌≼◌ {N = ℤ} (decimal 5 3) (decimal 5 3))
unfolding calculate_funding_rate positive_number finite_number
funding_rate_bounds_example =
    funding_rate_bounds fixed-IsIeee (decimal 101 0) (decimal 100 0) nought (decimal 5 3)
      {rate = decimal 5 3} refl refl

abbrev held_position : Entry ℤ
held_position = record {
  ref = 0;
  position = record {
    id = codes "p1";
    symbol = codes "BTCUSDT";
    side = codes "LONG";
    quantity = one;
    entry_price = decimal 100 0;
    leverage = one;
    collateral = decimal 100 0;
    margin_mode = cross;
    take_profit = none;
    stop_loss = none;
    cumulative_funding = none;
    last_funding_rate = none;
    last_funding_payment = none;
    last_funding_at = none;
    opened_at = 1;
    updated_at = none;
  };
}

abbrev book : Book ℤ
book = record {
  positions = (key_of (criteria_of held_position.position), held_position) ∷ [];
  next = 1;
}

held : get_position (criteria_of held_position.position) book ≡ some held_position
unfolding get_position
held = rw (same_text_refl (key_of (criteria_of held_position.position)))

-- The account cannot make the payment.
abbrev funding_input : FundingInput ℤ
funding_input = record {
  mark_price = decimal 101 0;
  index_price = decimal 100 0;
  interest_rate = nought;
  max_funding_rate = decimal 5 3;
  timestamp = 9;
}

settle-Ends_example :
    Ends held_position funding_input book
      (account_of (pos 7) (pos 0) (pos 0))
      (settle held_position funding_input book (account_of (pos 7) (pos 0) (pos 0)))
settle-Ends_example =
    settle-Ends held_position funding_input book (account_of (pos 7) (pos 0) (pos 0)) held

book-IsKeyed : IsKeyed book
unfolding key_of_position
book-IsKeyed = ((refl, tt), (refl, tt))

-- The price has fallen to a tenth, so that the account is under water.
abbrev crash : Env ℤ
crash = record {
  mark_price_of = λ _. decimal 10 0;
  adl_positions = some [];
  locale_after = λ _ _. false;
  now = 11;
}

abbrev world : World ℤ
world = record {
  account = account_of (pos 7) (pos 0) (pos 0);
  book = book;
  insurance = some service;
}

liquidate_cross_if_required-Ends_example :
    LiquidationEnds world (liquidate_cross_if_required crash world)
liquidate_cross_if_required-Ends_example = liquidate_cross_if_required-Ends crash world book-IsKeyed
