-- ===== src/Funding.antt =====
-- dex/app/futures/funding-engine.js and funding-controller.js: funding rates and payments, and
-- their settlement against the book and the account.
pub mod Atomic
pub mod Rate
use lqc_liquidity_chain.Common.{
  ℕ, not, Option, none, some, ◌==◌, Result, ok, err, ◌>>=◌, ◌>>◌, throw_if, required, Outcome, done,
  refused, rolled_back, rollback_failed,
}
use lqc_liquidity_chain.Common.Double.{Double, nought}
use lqc_liquidity_chain.Common.Text.{Text}
use lqc_liquidity_chain.Common.Validation.{finite_number, positive_number}
use lqc_liquidity_chain.Risk.{Side, long, short, normalized_side, Position}
use lqc_liquidity_chain.Book.{Entry, Book, Replaced, get_position, criteria_of, replace}
use lqc_liquidity_chain.Account.{Account, Snapshot, settle_funding}

pub record FundingInput (N : Type 0) : Type 0 where
  pub mark_price : N
  pub index_price : N
  pub interest_rate : N
  pub max_funding_rate : N
  pub timestamp : ℕ

-- What `settleDemoFunding` returns.
pub record FundedPosition (N : Type 0) : Type 0 where
  pub position : Position N
  pub funding_rate : N
  pub payment : N

pub record Settled (N : Type 0) : Type 0 where
  pub entry : Entry N
  pub funding_rate : N
  pub payment : N
  pub account : Snapshot N
  pub settled_at : Option ℕ

module _ {N : Type 0} ⦃d : Double N⦄ where
  open d use {decimal, add, sub, mul, div, neg, min, max, lt, le, is_finite}

  unfoldable pub calculate_funding_rate : N → N → N → N → Result N
  calculate_funding_rate mark_price index_price interest_rate max_funding_rate = do
    mark ← positive_number mark_price "INVALID_MARK_PRICE"
    index ← positive_number index_price "INVALID_INDEX_PRICE"
    interest ← finite_number interest_rate "INVALID_INTEREST_RATE"
    cap ← positive_number max_funding_rate "INVALID_FUNDING_CAP"
    let premium = div (sub mark index) index
    let raw_rate = add premium interest
    ok (max (neg cap) (min cap raw_rate))

  unfoldable pub signed_payment : Side → N → N
  signed_payment long x = neg x
  signed_payment short x = x

  unfoldable pub calculate_funding_payment : Text → N → N → N → Result N
  unfolding signed_payment
  calculate_funding_payment side quantity mark_price funding_rate = do
    s ← normalized_side side
    qty ← positive_number quantity "INVALID_QUANTITY"
    mark ← positive_number mark_price "INVALID_MARK_PRICE"
    rate ← finite_number funding_rate "INVALID_FUNDING_RATE"
    let notional = mul qty mark
    ok (signed_payment s (mul notional rate))

  -- `value ?? 0`
  abbrev pub or_nought : Option N → N
  or_nought none = nought
  or_nought (some x) = x

  unfoldable pub settle_demo_funding : Position N → FundingInput N → Result (FundedPosition N)
  settle_demo_funding p i = do
    rate ← calculate_funding_rate i.mark_price i.index_price i.interest_rate i.max_funding_rate
    payment ← calculate_funding_payment p.side p.quantity i.mark_price rate
    previous ← finite_number (or_nought p.cumulative_funding) "INVALID_CUMULATIVE_FUNDING"
    ok (record {
      position = record p {
        cumulative_funding = some (add previous payment);
        last_funding_rate = some rate;
        last_funding_payment = some payment;
        last_funding_at = some i.timestamp;
      };
      funding_rate = rate;
      payment = payment;
    })

  -- the `try` around the account: what it throws puts the position back
  unfoldable pub settle_account :
      FundedPosition N → Replaced N → Book N → Account N → Outcome (Settled N) × Book N × Account N
  settle_account funding persisted b a = elim (settle_funding funding.payment a) [
    | ok (account, a') ↦ (
      done (record {
        entry = persisted.entry;
        funding_rate = funding.funding_rate;
        payment = funding.payment;
        account = account;
        settled_at = persisted.entry.position.last_funding_at;
      }),
      b,
      a',
    )
    | err cause ↦ elim (replace persisted.entry persisted.previous.position b) [
      | ok (_, b') ↦ (rolled_back cause, b', a)
      | err rollback ↦ (rollback_failed cause rollback, b, a)
    ]
  ]

  -- what precedes the first change of state
  unfoldable pub prepare_funding : Entry N → FundingInput N → Book N → Result (FundedPosition N)
  prepare_funding e i b = do
    current ← required (get_position (criteria_of e.position) b) "NO_POSITION_TO_SETTLE_FUNDING"
    throw_if (not (current.ref == e.ref)) "POSITION_CHANGED"
    settle_demo_funding e.position i

  unfoldable pub settle :
      Entry N → FundingInput N → Book N → Account N → Outcome (Settled N) × Book N × Account N
  settle e i b a = elim (prepare_funding e i b) [
    | err code ↦ (refused code, b, a)
    | ok funding ↦ elim (replace e funding.position b) [
      | err code ↦ (refused code, b, a)
      | ok (persisted, b') ↦ settle_account funding persisted b' a
    ]
  ]
