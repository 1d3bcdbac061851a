-- ===== src/Listing/Approved.antt =====
-- An activated listing has everything that it needs (listing-activation-gate.js).
use lqc_liquidity_chain.Common.{
  ◌≡◌, ◌↔◌, inl, inr, Bool, true, not, some, arith, Option-cases, filter, ok,
}
use lqc_liquidity_chain.Common.Double.{Double}
use lqc_liquidity_chain.Common.Text.{Text}
use lqc_liquidity_chain.Markets.{Market, demo, validate_futures_market}
use lqc_liquidity_chain.Listing.{
  ListingStatus, active, OracleConfig, LimitConfig, Approval, oracle_validated, risk_validated,
  liquidation_stress_passed, insurance_adl_stress_passed, security_gate_passed, activation_approved,
  Candidate, required_approvals, none_missing, check_oracle, check_limits,
  validate_futures_listing_candidate, activate_futures_listing,
}

all_approved :
    (a : Approval → Bool)
    → (none_missing (filter (λ x. not (a x)) required_approvals) ≡ true)
      ↔ ((x : Approval) → a x ≡ true)
all_approved a = (
  λ h. elim [
    | oracle_validated ↦ ground arith
    | risk_validated ↦ ground arith
    | liquidation_stress_passed ↦ ground arith
    | insurance_adl_stress_passed ↦ ground arith
    | security_gate_passed ↦ ground arith
    | activation_approved ↦ ground arith
  ],
  λ h. rw (
    h oracle_validated,
    h risk_validated,
    h liquidation_stress_passed,
    h insurance_adl_stress_passed,
    h security_gate_passed,
    h activation_approved,
  ),
)

module _ {N : Type 0} ⦃d : Double N⦄ where
  open d use {lt}

  activated :
      (c : Candidate N) (m : Market N) (o : OracleConfig N) (l : LimitConfig N)
      (a : Approval → Bool)
      → c.market ≡ some m
      → c.oracle ≡ some o
      → c.risk_limits ≡ some l
      → c.approvals ≡ some a
      → (activate_futures_listing c ≡ ok (m.symbol, active)) ↔ (
          (validate_futures_market (some m) ≡ true)
          × (m.status ≡ demo)
          × (check_oracle o ≡ ok tt)
          × (check_limits l ≡ ok tt)
          × (none_missing (filter (λ x. not (a x)) required_approvals) ≡ true))
  unfolding activate_futures_listing validate_futures_listing_candidate
  activated c m o l a em eo el ea = (λ h. ground arith, λ h. ground arith)

  -- The three configurations are there.
  configured :
      (c : Candidate N) {r : Text × ListingStatus}
      → activate_futures_listing c ≡ ok r
      → ((o : OracleConfig N) × (c.oracle ≡ some o))
        × ((l : LimitConfig N) × (c.risk_limits ≡ some l))
        × ((a : Approval → Bool) × (c.approvals ≡ some a))
  unfolding activate_futures_listing validate_futures_listing_candidate
  configured c h = elim (Option-cases c.oracle) [
    | inl e ↦ absurd (ground arith)
    | inr (o, eo) ↦ elim (Option-cases c.risk_limits) [
      | inl e ↦ absurd (ground arith)
      | inr (l, el) ↦ elim (Option-cases c.approvals) [
        | inl e ↦ absurd (ground arith)
        | inr (a, ea) ↦ ((o, eo), (l, el), (a, ea))
      ]
    ]
  ]

  -- A listing is activated exactly when its market is valid and has the DEMO status, its oracle and
  -- its limits are there and pass their checks, and each of the six approvals is given.
  pub activate_iff :
      (c : Candidate N) (m : Market N)
      → c.market ≡ some m
      → (activate_futures_listing c ≡ ok (m.symbol, active)) ↔ (
          (validate_futures_market (some m) ≡ true)
          × (m.status ≡ demo)
          × ((o : OracleConfig N) × (c.oracle ≡ some o) × (check_oracle o ≡ ok tt))
          × ((l : LimitConfig N) × (c.risk_limits ≡ some l) × (check_limits l ≡ ok tt))
          × ((a : Approval → Bool) × (c.approvals ≡ some a) × ((x : Approval) → a x ≡ true)))
  activate_iff c m e = (
    λ h.
        let ((o, eo), (l, el), (a, ea)) = configured c h in
        let (valid, status, oracle, limits, none_left) = (activated c m o l a e eo el ea).0 h in
        (valid, status, (o, eo, oracle), (l, el, limits), (a, ea, (all_approved a).0 none_left)),
    λ (valid, status, (o, eo, oracle), (l, el, limits), (a, ea, given)).
        (activated c m o l a e eo el ea).1
          (valid, status, oracle, limits, (all_approved a).1 given),
  )
