-- ===== src/FeeController/Atomic.antt =====
-- A trading fee is settled in full or not at all (fee-controller.js).
use lqc_liquidity_chain.Common.{
  ℕ, ◌+◌, ◌≡◌, refl, sym, ap, inl, inr, true, false, Option, none, some, arith, String, ==_refl,
  Bool-cases, ok, err, Result-cases, Outcome, done, refused, rolled_back, rollback_failed,
}
use lqc_liquidity_chain.Common.Double.{Double, nought}
use mathlib.Core.Path.{subst}
use lqc_liquidity_chain.Account.{Account, Snapshot, snapshot, settle_trading_fee}
use lqc_liquidity_chain.Insurance.{
  Service, FundObject, Fund, DepositPreview, deposit_insurance, preview_deposit, commit_deposit,
}
use lqc_liquidity_chain.Fees.{FeeSchedule, FeeShares}
use lqc_liquidity_chain.FeeController.{
  Trade, FeeSettlement, Ledger, FeePlan, fund_of, commit_due, plan_deposit, plan_fee, commit_fee,
  settle_trade,
}

module _ {N : Type 0} ⦃d : Double N⦄ where
  open d use {lt}

  -- The insurance service after an amount was credited to it: an amount above zero is deposited, any
  -- other leaves the fund object.
  abbrev pub Credited : N → Option (Service N) → Option (Service N) → Type 0
  Credited amount none t = t ≡ none
  Credited amount (some s) none = ⊥
  Credited amount (some s) (some t) =
      (lt nought amount ≡ true → deposit_insurance s.fund.fund amount ≡ ok t.fund.fund)
      × (lt nought amount ≡ false → t.fund ≡ s.fund)

  -- A deposit that was just previewed can be committed.
  commit_previewed :
      (amount : N) (s : Service N) {f : Fund N}
      → deposit_insurance s.fund.fund amount ≡ ok f
      → (p : DepositPreview N) × (t u : Service N) × (preview_deposit amount s ≡ ok (p, t))
        × (t.fund ≡ s.fund)
        × (commit_deposit p t ≡ ok (p.next_fund, u))
        × (u.fund.fund ≡ f)
  unfolding preview_deposit commit_deposit
  commit_previewed amount s {f} e =
      let o : FundObject N = record { ref = s.next; fund = f } in
      (
        record { base_fund = s.fund; next_fund = o },
        record s { next = s.next + 1 },
        record { fund = o; next = s.next + 1 },
        rw e,
        refl,
        rw (==_refl s.fund.ref),
        refl,
      )

  plan_deposit-commit :
      (amount : N) (before : Option (Service N)) {due : Option (DepositPreview N)}
      {planned : Option (Service N)}
      → plan_deposit amount before ≡ ok (due, planned)
      → (fund_of planned ≡ fund_of before)
        × ((after : Option (Service N)) × (commit_due due planned ≡ ok after)
            × Credited amount before after)
  unfolding plan_deposit commit_due preview_deposit
  plan_deposit-commit amount none {due} {planned} h =
      let nothing : (due ≡ none) × (planned ≡ none) = ground arith in
      rw nothing.0 (rw nothing.1 (refl, (none, refl, refl)))
  plan_deposit-commit amount (some s) {due} {planned} h = elim (Bool-cases (lt nought amount)) [
    | inl positive ↦ elim (Result-cases (deposit_insurance s.fund.fund amount)) [
      | inl (f, e) ↦
          let (p, t, u, previewed, kept, committed, content) = commit_previewed amount s e in
          let planned_eq : (due ≡ some p) × (planned ≡ some t) = ground arith in
          rw planned_eq.0 (
            rw planned_eq.1 (
              ap some kept,
              (some u, rw committed, (λ _. rw content e, λ no_amount. absurd (ground arith))),
            ))
      | inr (code, e) ↦ absurd (no_preview code e positive)
    ]
    | inr nothing_due ↦
        let planned_eq : (due ≡ none) × (planned ≡ some s) = ground arith in
        rw planned_eq.0
          (rw planned_eq.1 (refl, (some s, refl, (λ positive. absurd (ground arith), λ _. refl))))
  ]
    where
      no_preview :
          (code : String)
          → deposit_insurance s.fund.fund amount ≡ err code
          → lt nought amount ≡ true
          → ⊥
      no_preview code e positive = ground arith

  -- How a settlement may end, and what it leaves.
  abbrev pub FeeEnds : Ledger N → Outcome (FeeSettlement N) × Ledger N → Type 0
  FeeEnds l (done r, l') =
      (settle_trading_fee r.fee.fee l.account ≡ ok (r.account, l'.account))
      × Credited r.allocation.insurance_amount l.insurance l'.insurance
  FeeEnds l (refused code, l') =
      (l'.account ≡ l.account) × (fund_of l'.insurance ≡ fund_of l.insurance)
  FeeEnds l (rolled_back code, l') = ⊥
  FeeEnds l (rollback_failed code code', l') = ⊥

  plan_fee-eq-ok :
      (schedule : FeeSchedule N) (shares : FeeShares N) (t : Trade N) (s : Option (Service N))
      {p : FeePlan N}
      → plan_fee schedule shares t s ≡ ok p
      → plan_deposit p.allocation.insurance_amount s ≡ ok (p.deposit, p.insurance)
  unfolding plan_fee
  plan_fee-eq-ok schedule shares t s h = ground arith

  settled_snapshot :
      (fee : N) (a : Account N) {s : Snapshot N} {b : Account N}
      → settle_trading_fee fee a ≡ ok (s, b)
      → s ≡ snapshot b
  unfolding settle_trading_fee
  settled_snapshot fee a h = ground arith

  -- The fee comes out of the account and its insurance share goes into the fund, or, where the call
  -- is refused, account and fund are as before. A settlement that is under way never fails: no fee
  -- has to be given back.
  pub settle_trade-FeeEnds :
      (schedule : FeeSchedule N) (shares : FeeShares N) (now : ℕ) (t : Trade N) (l : Ledger N)
      → FeeEnds l (settle_trade schedule shares now t l)
  unfolding settle_trade commit_fee
  settle_trade-FeeEnds schedule shares now t l =
      elim (Result-cases (plan_fee schedule shares t l.insurance)) [
        | inr (code, e) ↦
            let ends : settle_trade schedule shares now t l ≡ (refused code, l) =
              rw (e, settle_trade) in
            subst (FeeEnds l) (sym ends) (refl, refl)
        | inl (p, e) ↦
            let planned = plan_fee-eq-ok schedule shares t l.insurance e in
            let (kept, (after, committed, credited)) =
              plan_deposit-commit p.allocation.insurance_amount l.insurance planned in
            elim (Result-cases (settle_trading_fee p.fee.fee l.account)) [
              | inr (code, failed) ↦
                  let ends : settle_trade schedule shares now t l
                      ≡ (refused code, record l { insurance = p.insurance }) =
                    rw (e, settle_trade) (rw failed) in
                  subst (FeeEnds l) (sym ends) (refl, kept)
              | inl ((s, b), paid) ↦
                  let r : FeeSettlement N = record {
                    fee = p.fee;
                    allocation = p.allocation;
                    account = snapshot b;
                    insurance_fund = fund_of after;
                    settled_at = now;
                  } in
                  let committed_all : commit_fee now p l.account b
                      ≡ (done r, record { account = b; insurance = after }) =
                    rw (committed, commit_fee) in
                  let ends : settle_trade schedule shares now t l
                      ≡ (done r, record { account = b; insurance = after }) =
                    rw (e, settle_trade) (rw paid committed_all) in
                  subst (FeeEnds l) (sym ends)
                    (rw (← settled_snapshot p.fee.fee l.account paid) paid, credited)
            ]
      ]
