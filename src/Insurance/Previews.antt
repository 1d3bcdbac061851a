-- ===== src/Insurance/Previews.antt =====
-- A preview of the fund service is good for one commit (insurance-fund-service.js).
use lqc_liquidity_chain.Common.{◌+◌, ◌<◌, ◌≡◌, refl, arith, ==_refl, ok, err}
use lqc_liquidity_chain.Common.Double.{Double}
use lqc_liquidity_chain.Insurance.{
  FundObject, DepositPreview, CoveragePreview, Service, commit_deposit, commit_coverage,
  preview_deposit, preview_coverage, deposit_insurance, cover_liquidation_loss, Fund, Coverage,
}

-- Every fund object is older than the next one.
pub record IsFresh {N : Type 0} (s : Service N) : Type 0 where
  pub older : s.fund.ref < s.next

module _ {N : Type 0} ⦃d : Double N⦄ where
  -- A preview of a deposit that is committed right away succeeds with the fund that it computed,
  -- and neither it nor a preview of a loss taken at the same time can be committed afterwards.
  pub deposit_once :
      (amount loss : N) (s : Service N) {f : Fund N} {c : Coverage N}
      → IsFresh s
      → deposit_insurance s.fund.fund amount ≡ ok f
      → cover_liquidation_loss s.fund.fund loss ≡ ok c
      → (p : DepositPreview N) × (q : CoveragePreview N) × (s₁ : Service N) × (s₂ : Service N)
        × (s₃ : Service N) × (preview_deposit amount s ≡ ok (p, s₁))
        × (preview_coverage loss s₁ ≡ ok (q, s₂))
        × (commit_deposit p s₂ ≡ ok (p.next_fund, s₃))
        × (s₃.fund.fund ≡ f)
        × (commit_deposit p s₃ ≡ err "INSURANCE_FUND_CHANGED_SINCE_PREVIEW")
        × (commit_coverage q s₃ ≡ err "INSURANCE_FUND_CHANGED_SINCE_PREVIEW")
  unfolding preview_deposit preview_coverage commit_deposit commit_coverage
  deposit_once amount loss s {f} {c} fresh e e' =
      let next : FundObject N = record { ref = s.next; fund = f } in
      (
        record { base_fund = s.fund; next_fund = next },
        record {
          coverage = c;
          fund = record { ref = s.next + 1; fund = c.fund };
          base_fund = s.fund;
        },
        record { fund = s.fund; next = s.next + 1 },
        record { fund = s.fund; next = s.next + 1 + 1 },
        record { fund = next; next = s.next + 1 + 1 },
        rw e,
        rw e',
        ground (arith, ==_refl s.fund.ref),
        refl,
        ground arith,
        ground arith,
      )
