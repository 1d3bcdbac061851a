-- ===== src/FeeController.antt =====
-- dex/app/futures/fee-controller.js: a trading fee is taken from the account and its insurance
-- share is paid into the fund, or neither is.
pub mod Atomic
use lqc_liquidity_chain.Common.{
  ℕ, Option, none, some, if◌then◌else◌, Result, ok, err, ◌>>=◌, ◌>>◌, Outcome, done, refused,
  rolled_back, rollback_failed,
}
use lqc_liquidity_chain.Common.Double.{Double, nought}
use lqc_liquidity_chain.Common.Text.{Text}
use lqc_liquidity_chain.Account.{Account, Snapshot, snapshot, settle_trading_fee, restore_snapshot}
use lqc_liquidity_chain.Insurance.{
  Service, FundObject, DepositPreview, preview_deposit, commit_deposit,
}
use lqc_liquidity_chain.Fees.{
  FeeSchedule, FeeShares, TradingFee, Allocation, calculate_trading_fee, split_trading_fee,
}

pub record Trade (N : Type 0) : Type 0 where
  pub quantity : N
  pub price : N
  pub liquidity_role : Text

pub record FeeSettlement (N : Type 0) : Type 0 where
  pub fee : TradingFee N
  pub allocation : Allocation N
  pub account : Snapshot N
  pub insurance_fund : Option (FundObject N)
  pub settled_at : ℕ

-- The account and the fund service that the controller holds; it may have no service.
pub record Ledger (N : Type 0) : Type 0 where
  pub account : Account N
  pub insurance : Option (Service N)

-- The calculation that precedes every change; the preview is `none` where nothing is due.
pub record FeePlan (N : Type 0) : Type 0 where
  pub fee : TradingFee N
  pub allocation : Allocation N
  pub deposit : Option (DepositPreview N)
  pub insurance : Option (Service N)

module _ {N : Type 0} where
  abbrev pub fund_of : Option (Service N) → Option (FundObject N)
  fund_of none = none
  fund_of (some s) = some s.fund

  -- `commitDeposit`, where a deposit is due
  unfoldable pub commit_due :
      Option (DepositPreview N) → Option (Service N) → Result (Option (Service N))
  commit_due none s = ok s
  commit_due (some p) none = err "INSURANCE_FUND_SERVICE_REQUIRED"
  commit_due (some p) (some s) = commit_deposit p s >>= λ t. ok (some t.1)

module _ {N : Type 0} ⦃d : Double N⦄ where
  open d use {lt}

  unfoldable pub plan_deposit :
      N → Option (Service N) → Result (Option (DepositPreview N) × Option (Service N))
  plan_deposit amount none =
      if lt nought amount then err "INSURANCE_FUND_SERVICE_REQUIRED" else ok (none, none)
  plan_deposit amount (some s) =
      if lt nought amount
      then (preview_deposit amount s >>= λ t. ok (some t.0, some t.1))
      else ok (none, some s)

  unfoldable pub plan_fee :
      FeeSchedule N → FeeShares N → Trade N → Option (Service N) → Result (FeePlan N)
  plan_fee schedule shares t insurance = do
    calculated ← calculate_trading_fee t.quantity t.price t.liquidity_role schedule
    allocation ← split_trading_fee calculated.fee shares
    (due, insurance') ← plan_deposit allocation.insurance_amount insurance
    ok (record { fee = calculated; allocation = allocation; deposit = due; insurance = insurance' })

  -- the `try` around `commitDeposit`, with the account before and after the fee
  unfoldable pub commit_fee :
      ℕ → FeePlan N → Account N → Account N → Outcome (FeeSettlement N) × Ledger N
  commit_fee now p before after = elim (commit_due p.deposit p.insurance) [
    | ok insurance ↦ (
      done (record {
        fee = p.fee;
        allocation = p.allocation;
        account = snapshot after;
        insurance_fund = fund_of insurance;
        settled_at = now;
      }),
      record { account = after; insurance = insurance },
    )
    | err cause ↦ elim (restore_snapshot (some (snapshot before)) (some (snapshot after)) after) [
      | ok (_, restored) ↦
          (rolled_back cause, record { account = restored; insurance = p.insurance })
      | err rollback ↦
          (rollback_failed cause rollback, record { account = after; insurance = p.insurance })
    ]
  ]

  unfoldable pub settle_trade :
      FeeSchedule N → FeeShares N → ℕ → Trade N → Ledger N → Outcome (FeeSettlement N) × Ledger N
  settle_trade schedule shares now t l = elim (plan_fee schedule shares t l.insurance) [
    | err code ↦ (refused code, l)
    | ok p ↦ elim (settle_trading_fee p.fee.fee l.account) [
      | err code ↦ (refused code, record l { insurance = p.insurance })
      | ok (_, after) ↦ commit_fee now p l.account after
    ]
  ]
