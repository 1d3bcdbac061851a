-- ===== src/Tests/Money.antt =====
-- Concrete accounts and funds: account-engine.js, insurance-engine.js and insurance-fund-service.js of
-- dex/app/futures. Amounts are in units of 10^-8.
use lqc_liquidity_chain.Common.{◌≡◌, refl, false, arith, ok, err}
use lqc_liquidity_chain.Common.Double.{◌≼◌, nought}
use lqc_liquidity_chain.Common.Fixed.{ℤ, pos, negsuc, fixed, fixed-IsIeee}
use lqc_liquidity_chain.Risk.{isolated}
use lqc_liquidity_chain.Account.{
  Account, snapshot, create_demo_margin_account, reserve, release, settle_trading_fee, available,
}
use lqc_liquidity_chain.Account.Solvency.{
  IsSolvent, Reach, here, reserved_step, released_step, charged_step, create-Reach-IsSolvent,
}
use lqc_liquidity_chain.Insurance.{
  Fund, Coverage, Service, DepositPreview, CoveragePreview, coverage_cap, positive_amount,
  cover_liquidation_loss, deposit_insurance, preview_deposit, preview_coverage, commit_deposit,
  commit_coverage,
}
use lqc_liquidity_chain.Common.Validation.{non_negative_number}
use lqc_liquidity_chain.Insurance.Bounds.{cover_bounds}
use lqc_liquidity_chain.Insurance.Previews.{deposit_once}
open fixed use {neg, min, max, add, sub, mul, decimal}

abbrev pub account_of : ℤ → ℤ → ℤ → Account ℤ
account_of cash held fees = record {
  initial = pos 1000;
  cash = cash;
  isolated_reserved = held;
  cross_reserved = pos 0;
  cumulative_funding = pos 0;
  cumulative_trading_fees = fees;
}

-- A margin of 300 is taken and given back with a loss of 100, and a fee of 5 is paid.
traded : Reach (account_of (pos 1000) (pos 0) (pos 0)) (account_of (pos 895) (pos 0) (pos 5))
unfolding reserve release settle_trading_fee available snapshot
traded =
    charged_step {a = account_of (pos 900) (pos 0) (pos 0)}
      {r = snapshot (account_of (pos 895) (pos 0) (pos 5))} (pos 5)
      (released_step {a = account_of (pos 700) (pos 300) (pos 0)}
        {r = snapshot (account_of (pos 900) (pos 0) (pos 0))} (pos 300) (negsuc 99) isolated
        (reserved_step {a = account_of (pos 1000) (pos 0) (pos 0)}
          {r = snapshot (account_of (pos 700) (pos 300) (pos 0))} (pos 300) isolated here refl)
        refl)
      refl

create-Reach-IsSolvent_example : IsSolvent (account_of (pos 895) (pos 0) (pos 5))
unfolding create_demo_margin_account
create-Reach-IsSolvent_example =
    create-Reach-IsSolvent fixed-IsIeee (pos 1000) {a = account_of (pos 1000) (pos 0) (pos 0)} refl
      traded

abbrev fund : Fund ℤ
fund = record {
  balance = pos 100;
  max_coverage_per_event = pos 60;
  total_covered = pos 0;
  total_bad_debt = pos 0;
}

abbrev covered_fund : Fund ℤ
covered_fund = record {
  balance = pos 40;
  max_coverage_per_event = pos 60;
  total_covered = pos 60;
  total_bad_debt = pos 20;
}

abbrev coverage : Coverage ℤ
coverage = record {
  fund = covered_fund;
  requested_loss = pos 80;
  covered = pos 60;
  bad_debt = pos 20;
  fully_covered = false;
}

cover_bounds_example :
    (nought ≼ pos 60)
    × (pos 60 ≼ pos 80)
    × (pos 60 ≼ pos 100)
    × ((cap : ℤ) → coverage_cap (pos 60) ≡ ok cap → pos 60 ≼ cap)
    × (nought ≼ pos 40)
    × (nought ≼ pos 20)
    × (pos 20 ≡ sub (pos 80) (pos 60))
unfolding cover_liquidation_loss non_negative_number positive_amount coverage_cap
cover_bounds_example = cover_bounds fixed-IsIeee fund (pos 80) {c = coverage} refl

abbrev pub service : Service ℤ
service = record { fund = record { ref = 0; fund = fund }; next = 1 }

abbrev fuller_fund : Fund ℤ
fuller_fund = record fund { balance = pos 110 }

deposit_once_example :
    (p : DepositPreview ℤ) × (q : CoveragePreview ℤ) × (s₁ : Service ℤ) × (s₂ : Service ℤ)
    × (s₃ : Service ℤ) × (preview_deposit (pos 10) service ≡ ok (p, s₁))
    × (preview_coverage (pos 80) s₁ ≡ ok (q, s₂))
    × (commit_deposit p s₂ ≡ ok (p.next_fund, s₃))
    × (s₃.fund.fund ≡ fuller_fund)
    × (commit_deposit p s₃ ≡ err "INSURANCE_FUND_CHANGED_SINCE_PREVIEW")
    × (commit_coverage q s₃ ≡ err "INSURANCE_FUND_CHANGED_SINCE_PREVIEW")
unfolding cover_liquidation_loss non_negative_number positive_amount coverage_cap deposit_insurance
deposit_once_example =
    deposit_once (pos 10) (pos 80) service {f = fuller_fund} {c = coverage}
      (record { older = omega arith }) refl refl
