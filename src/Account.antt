-- ===== src/Account.antt =====
-- dex/app/futures/account-engine.js: the cash and the margin of a demo account.
pub mod Solvency
use lqc_liquidity_chain.Common.{
  ℕ, Bool, false, not, ◌&&◌, ◌||◌, Option, none, some, List, Result, ok, ◌>>=◌, ◌>>◌, throw_if,
  required,
}
use lqc_liquidity_chain.Common.Double.{Double, nought}
use lqc_liquidity_chain.Common.Text.{Text}
use lqc_liquidity_chain.Risk.{
  MarginMode, isolated, cross, Position, CrossHealth, CrossDetail, cross_account_health,
}

-- The variables that the closures of `createDemoMarginAccount` share.
pub record Account (N : Type 0) : Type 0 where
  pub initial : N
  pub cash : N
  pub isolated_reserved : N
  pub cross_reserved : N
  pub cumulative_funding : N
  pub cumulative_trading_fees : N

pub record Snapshot (N : Type 0) : Type 0 where
  pub initial_balance : N
  pub available_balance : N
  pub isolated_reserved : N
  pub cross_reserved : N
  pub cross_wallet_balance : N
  pub total_reserved : N
  pub cumulative_funding : N
  pub cumulative_trading_fees : N

pub record LiquidationPreview (N : Type 0) : Type 0 where
  pub wallet_before : N
  pub realized_loss : N
  pub bad_debt : N
  pub surviving_equity : N
  pub closed_positions : List (CrossDetail N)
  pub health : CrossHealth N
  pub expected_cash : N
  pub expected_cross_reserved : N

pub record CrossSettlement (N : Type 0) : Type 0 where
  pub preview : LiquidationPreview N
  pub account : Snapshot N
  pub liquidated_at : ℕ

module _ {N : Type 0} where
  abbrev pub reserved : MarginMode → Account N → N
  reserved cross a = a.cross_reserved
  reserved isolated a = a.isolated_reserved

  abbrev pub with_reserved : MarginMode → N → Account N → Account N
  with_reserved cross x a = record a { cross_reserved = x }
  with_reserved isolated x a = record a { isolated_reserved = x }

  unfoldable pub available : Account N → N
  available a = a.cash

module _ {N : Type 0} ⦃d : Double N⦄ where
  open d use {decimal, add, sub, neg, max, lt, le, same, is_finite}

  unfoldable pub create_demo_margin_account : N → Result (Account N)
  create_demo_margin_account initial = do
    throw_if (not (is_finite initial) || lt initial nought) "INVALID_INITIAL_BALANCE"
    ok (record {
      initial = initial;
      cash = initial;
      isolated_reserved = nought;
      cross_reserved = nought;
      cumulative_funding = nought;
      cumulative_trading_fees = nought;
    })

  unfoldable pub cross_wallet_balance : Account N → N
  cross_wallet_balance a = add a.cash a.cross_reserved

  unfoldable pub snapshot : Account N → Snapshot N
  unfolding cross_wallet_balance
  snapshot a = record {
    initial_balance = a.initial;
    available_balance = a.cash;
    isolated_reserved = a.isolated_reserved;
    cross_reserved = a.cross_reserved;
    cross_wallet_balance = cross_wallet_balance a;
    total_reserved = add a.isolated_reserved a.cross_reserved;
    cumulative_funding = a.cumulative_funding;
    cumulative_trading_fees = a.cumulative_trading_fees;
  }

  abbrev pub returns : Account N → Result (Snapshot N × Account N)
  returns a = ok (snapshot a, a)

  -- the tolerance 1e-9
  abbrev pub tolerance : N
  tolerance = decimal 1 9

  unfoldable pub reserve : N → MarginMode → Account N → Result (Snapshot N × Account N)
  unfolding available
  reserve value mode a = do
    throw_if (not (is_finite value) || le value nought) "INVALID_MARGIN_AMOUNT"
    throw_if (lt (available a) value) "INSUFFICIENT_DEMO_BALANCE"
    returns
        (with_reserved mode (add (reserved mode a) value) (record a { cash = sub a.cash value }))

  unfoldable pub release : N → N → MarginMode → Account N → Result (Snapshot N × Account N)
  release value realized mode a = do
    throw_if (not (is_finite value) || lt value nought) "INVALID_MARGIN_AMOUNT"
    throw_if (not (is_finite realized)) "INVALID_REALIZED_PNL"
    throw_if (lt (add (reserved mode a) tolerance) value) "MARGIN_RELEASE_EXCEEDS_RESERVED"
    throw_if (lt (add (add a.cash value) realized) (neg tolerance))
        "REALIZED_LOSS_EXCEEDS_ACCOUNT_EQUITY"
    returns (
        with_reserved mode (max nought (sub (reserved mode a) value))
          (record a { cash = max nought (add (add a.cash value) realized) }))

  unfoldable pub settle_funding : N → Account N → Result (Snapshot N × Account N)
  settle_funding value a = do
    throw_if (not (is_finite value)) "INVALID_FUNDING_PAYMENT"
    throw_if (lt (add a.cash value) (neg tolerance)) "INSUFFICIENT_BALANCE_FOR_FUNDING"
    returns (record a {
      cash = max nought (add a.cash value);
      cumulative_funding = add a.cumulative_funding value;
    })

  unfoldable pub settle_trading_fee : N → Account N → Result (Snapshot N × Account N)
  settle_trading_fee value a = do
    throw_if (not (is_finite value) || lt value nought) "INVALID_TRADING_FEE"
    throw_if (lt (sub a.cash value) (neg tolerance)) "INSUFFICIENT_BALANCE_FOR_TRADING_FEE"
    returns (record a {
      cash = max nought (sub a.cash value);
      cumulative_trading_fees = add a.cumulative_trading_fees value;
    })

  abbrev pub snapshot_is_finite : Snapshot N → Bool
  snapshot_is_finite s =
      is_finite s.available_balance
      && is_finite s.isolated_reserved
      && is_finite s.cross_reserved
      && is_finite s.cumulative_funding
      && is_finite s.cumulative_trading_fees

  -- the fields that `restoreSnapshot` compares by `===`
  abbrev pub same_fields : Snapshot N → Snapshot N → Bool
  same_fields s t =
      same s.available_balance t.available_balance
      && same s.isolated_reserved t.isolated_reserved
      && same s.cross_reserved t.cross_reserved
      && same s.cumulative_funding t.cumulative_funding
      && same s.cumulative_trading_fees t.cumulative_trading_fees

  unfoldable pub restore_snapshot :
      Option (Snapshot N) → Option (Snapshot N) → Account N → Result (Snapshot N × Account N)
  restore_snapshot previous expected a = do
    p ← required previous "INVALID_ACCOUNT_SNAPSHOT"
    throw_if (not (snapshot_is_finite p)) "INVALID_ACCOUNT_SNAPSHOT"
    throw_if (elim expected [ none ↦ false | some e ↦ not (same_fields (snapshot a) e) ])
        "ACCOUNT_CHANGED_SINCE_TRANSACTION_COMMIT"
    returns (record a {
      cash = p.available_balance;
      isolated_reserved = p.isolated_reserved;
      cross_reserved = p.cross_reserved;
      cumulative_funding = p.cumulative_funding;
      cumulative_trading_fees = p.cumulative_trading_fees;
    })

  unfoldable pub consume_liquidation : N → MarginMode → Account N → Result (Snapshot N × Account N)
  consume_liquidation value mode a = do
    throw_if (not (is_finite value) || lt value nought) "INVALID_MARGIN_AMOUNT"
    throw_if (lt (add (reserved mode a) tolerance) value) "LIQUIDATION_CONSUME_EXCEEDS_RESERVED"
    returns (with_reserved mode (max nought (sub (reserved mode a) value)) a)

  unfoldable pub health : List (Position N) → (Text → N) → Account N → Result (CrossHealth N)
  unfolding cross_wallet_balance
  health positions mark_price_of a =
      cross_account_health (cross_wallet_balance a) positions mark_price_of

  unfoldable pub preview_cross_liquidation :
      List (Position N) → (Text → N) → Account N → Result (LiquidationPreview N)
  unfolding health cross_wallet_balance
  preview_cross_liquidation positions mark_price_of a = do
    h ← health positions mark_price_of a
    throw_if (not h.liquidatable) "CROSS_ACCOUNT_NOT_LIQUIDATABLE"
    let before = cross_wallet_balance a
    let surviving = max nought h.equity
    ok (record {
      wallet_before = before;
      realized_loss = max nought (sub before surviving);
      bad_debt = max nought (neg h.equity);
      surviving_equity = surviving;
      closed_positions = h.positions;
      health = h;
      expected_cash = a.cash;
      expected_cross_reserved = a.cross_reserved;
    })

  unfoldable pub commit_cross_liquidation :
      ℕ → LiquidationPreview N → Account N → Result (CrossSettlement N × Account N)
  unfolding snapshot
  commit_cross_liquidation now p a = do
    throw_if (not (is_finite p.surviving_equity) || not (is_finite p.bad_debt))
        "INVALID_LIQUIDATION_PREVIEW"
    throw_if
        (not (same a.cash p.expected_cash) || not (same a.cross_reserved p.expected_cross_reserved))
        "ACCOUNT_CHANGED_SINCE_LIQUIDATION_PREVIEW"
    let a' = record a { cross_reserved = nought; cash = p.surviving_equity }
    ok (record { preview = p; account = snapshot a'; liquidated_at = now }, a')

  unfoldable pub liquidate_cross :
      ℕ → List (Position N) → (Text → N) → Account N → Result (CrossSettlement N × Account N)
  liquidate_cross now positions mark_price_of a = do
    p ← preview_cross_liquidation positions mark_price_of a
    commit_cross_liquidation now p a
