-- ===== src/Insurance.antt =====
-- dex/app/futures/insurance-engine.js and insurance-fund-service.js: the fund that covers
-- liquidation losses, and the service that owns it behind previews and commits.
pub mod Previews
pub mod Amounts
pub mod Bounds
use lqc_liquidity_chain.Common.{
  ℕ, ◌+◌, Bool, not, String, ◌==◌, if◌then◌else◌, Result, ok, ◌>>=◌, ◌>>◌, throw_if,
}
use lqc_liquidity_chain.Common.Double.{Double, nought}
use lqc_liquidity_chain.Common.Validation.{non_negative_number}

pub record Fund (N : Type 0) : Type 0 where
  pub balance : N
  pub max_coverage_per_event : N
  pub total_covered : N
  pub total_bad_debt : N

pub record Coverage (N : Type 0) : Type 0 where
  pub fund : Fund N
  pub requested_loss : N
  pub covered : N
  pub bad_debt : N
  pub fully_covered : Bool

-- A frozen fund object: `!==` compares the number under which it was allocated.
pub record FundObject (N : Type 0) : Type 0 where
  pub ref : ℕ
  pub fund : Fund N

pub record DepositPreview (N : Type 0) : Type 0 where
  pub base_fund : FundObject N
  pub next_fund : FundObject N

pub record CoveragePreview (N : Type 0) : Type 0 where
  pub coverage : Coverage N
  pub fund : FundObject N
  pub base_fund : FundObject N

-- The variable `fund` of the service, and the number of the next object.
pub record Service (N : Type 0) : Type 0 where
  pub fund : FundObject N
  pub next : ℕ

module _ {N : Type 0} ⦃d : Double N⦄ where
  open d use {infinity, add, sub, min, lt, le, same, is_finite}

  -- `positiveNumber` of this file
  unfoldable pub positive_amount : N → String → Result N
  unfolding non_negative_number
  positive_amount x code = do n ← non_negative_number x code; throw_if (le n nought) code; ok n

  unfoldable pub coverage_cap : N → Result N
  unfolding positive_amount
  coverage_cap cap =
      if same cap infinity
      then ok infinity
      else positive_amount cap "INVALID_INSURANCE_COVERAGE_CAP"

  unfoldable pub create_insurance_fund : N → N → Result (Fund N)
  create_insurance_fund balance cap = do
    b ← non_negative_number balance "INVALID_INSURANCE_BALANCE"
    c ← coverage_cap cap
    ok (record {
      balance = b;
      max_coverage_per_event = c;
      total_covered = nought;
      total_bad_debt = nought;
    })

  unfoldable pub deposit_insurance : Fund N → N → Result (Fund N)
  deposit_insurance f amount = do
    deposit ← positive_amount amount "INVALID_INSURANCE_DEPOSIT"
    balance ← non_negative_number f.balance "INVALID_INSURANCE_BALANCE"
    ok (record f { balance = add balance deposit })

  unfoldable pub cover_liquidation_loss : Fund N → N → Result (Coverage N)
  cover_liquidation_loss f loss = do
    requested ← non_negative_number loss "INVALID_LIQUIDATION_LOSS"
    balance ← non_negative_number f.balance "INVALID_INSURANCE_BALANCE"
    cap ← coverage_cap f.max_coverage_per_event
    let covered = min (min requested balance) cap
    let bad_debt = sub requested covered
    total_covered ← non_negative_number f.total_covered "INVALID_TOTAL_COVERED"
    total_bad_debt ← non_negative_number f.total_bad_debt "INVALID_TOTAL_BAD_DEBT"
    ok (record {
      fund = record f {
        balance = sub balance covered;
        total_covered = add total_covered covered;
        total_bad_debt = add total_bad_debt bad_debt;
      };
      requested_loss = requested;
      covered = covered;
      bad_debt = bad_debt;
      fully_covered = same bad_debt nought;
    })

module _ {N : Type 0} where
  unfoldable pub create_demo_insurance_fund_service : Fund N → Service N
  create_demo_insurance_fund_service f = record { fund = record { ref = 0; fund = f }; next = 1 }

  unfoldable pub service_snapshot : Service N → FundObject N
  service_snapshot s = s.fund

  unfoldable pub commit_deposit : DepositPreview N → Service N → Result (FundObject N × Service N)
  commit_deposit p s = do
    throw_if (not (s.fund.ref == p.base_fund.ref)) "INSURANCE_FUND_CHANGED_SINCE_PREVIEW"
    ok (p.next_fund, record s { fund = p.next_fund })

  unfoldable pub commit_coverage :
      CoveragePreview N → Service N → Result (CoveragePreview N × Service N)
  commit_coverage p s = do
    throw_if (not (s.fund.ref == p.base_fund.ref)) "INSURANCE_FUND_CHANGED_SINCE_PREVIEW"
    ok (p, record s { fund = p.fund })

module _ {N : Type 0} ⦃d : Double N⦄ where
  -- A preview allocates the next fund object and leaves the current one.
  unfoldable pub preview_deposit : N → Service N → Result (DepositPreview N × Service N)
  preview_deposit amount s = do
    f ← deposit_insurance s.fund.fund amount
    ok (
      record { base_fund = s.fund; next_fund = record { ref = s.next; fund = f } },
      record s { next = s.next + 1 },
    )

  unfoldable pub deposit : N → Service N → Result (FundObject N × Service N)
  unfolding preview_deposit commit_deposit
  deposit amount s = do (p, s') ← preview_deposit amount s; commit_deposit p s'

  unfoldable pub preview_coverage : N → Service N → Result (CoveragePreview N × Service N)
  preview_coverage loss s = do
    c ← cover_liquidation_loss s.fund.fund loss
    ok (
      record { coverage = c; fund = record { ref = s.next; fund = c.fund }; base_fund = s.fund },
      record s { next = s.next + 1 },
    )

  unfoldable pub cover : N → Service N → Result (CoveragePreview N × Service N)
  unfolding preview_coverage commit_coverage
  cover loss s = do (p, s') ← preview_coverage loss s; commit_coverage p s'
