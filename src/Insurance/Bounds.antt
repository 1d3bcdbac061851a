-- ===== src/Insurance/Bounds.antt =====
-- What the insurance fund pays for a loss (insurance-engine.js).
use lqc_liquidity_chain.Common.{◌≡◌, inl, inr, arith, ok, Result-cases}
use lqc_liquidity_chain.Common.Double.{Double, ◌≼◌, nought, IsIeee}
use lqc_liquidity_chain.Common.Validation.{non_negative_number, non_negative_of_check}
use lqc_liquidity_chain.Insurance.{Fund, Coverage, coverage_cap, cover_liquidation_loss}
use lqc_liquidity_chain.Insurance.Amounts.{coverage_cap_nonneg}

module _ {N : Type 0} ⦃d : Double N⦄ where
  open d use {min, add, sub}

  -- The parts of a coverage that was computed, with the checks that they passed.
  cover-eq-ok :
      (f : Fund N) (loss : N) {c : Coverage N}
      → cover_liquidation_loss f loss ≡ ok c
      → (cap : N) × (coverage_cap f.max_coverage_per_event ≡ ok cap)
        × (non_negative_number loss "INVALID_LIQUIDATION_LOSS" ≡ ok c.requested_loss)
        × (non_negative_number f.balance "INVALID_INSURANCE_BALANCE" ≡ ok f.balance)
        × (c.covered ≡ min (min c.requested_loss f.balance) cap)
        × (c.bad_debt ≡ sub c.requested_loss c.covered)
        × (c.fund.balance ≡ sub f.balance c.covered)
  unfolding cover_liquidation_loss non_negative_number
  cover-eq-ok f loss h = elim (Result-cases (coverage_cap f.max_coverage_per_event)) [
    | inl (most, e) ↦
        (most, e, ground arith, ground arith, ground arith, ground arith, ground arith)
    | inr (code, e) ↦ absurd (ground arith)
  ]

  module _ (laws : IsIeee N) where
    open laws use {
      refl_of_le, le_trans, min_le_left, min_le_right, le_min, sub_nonneg, finite_between,
    }

    -- Two nested minima of amounts at or above zero.
    min_min_bounds :
        (x y z : N)
        → nought ≼ x
        → nought ≼ y
        → nought ≼ z
        → let m = min (min x y) z in (nought ≼ m) × (m ≼ x) × (m ≼ y) × (m ≼ z)
    min_min_bounds x y z p q r =
        let px = (refl_of_le _ _ p).1 in
        let py = (refl_of_le _ _ q).1 in
        let pz = (refl_of_le _ _ r).1 in
        let low = le_min x y nought p q in
        let pm = (refl_of_le _ _ low).1 in
        let left = min_le_left (min x y) z pm pz in
        (
          le_min _ _ _ low r,
          le_trans _ _ _ left (min_le_left x y px py),
          le_trans _ _ _ left (min_le_right x y px py),
          min_le_right (min x y) z pm pz,
        )

    -- A loss is covered by an amount that is never negative and exceeds neither the loss nor the
    -- balance nor the cap of the event; the balance that is left and the bad debt that is recorded
    -- are never negative; and the bad debt is the loss less the covered amount.
    pub cover_bounds :
        (f : Fund N) (loss : N) {c : Coverage N}
        → cover_liquidation_loss f loss ≡ ok c
        → (nought ≼ c.covered)
          × (c.covered ≼ loss)
          × (c.covered ≼ f.balance)
          × ((cap : N) → coverage_cap f.max_coverage_per_event ≡ ok cap → c.covered ≼ cap)
          × (nought ≼ c.fund.balance)
          × (nought ≼ c.bad_debt)
          × (c.bad_debt ≡ sub loss c.covered)
    cover_bounds f loss {c} h =
        let (cap, capped, lossed, balanced, covered, debt, left) = cover-eq-ok f loss h in
        let (loss_eq, loss_fin, loss_ge) =
          non_negative_of_check laws loss "INVALID_LIQUIDATION_LOSS" lossed in
        let (_, bal_fin, bal_ge) =
          non_negative_of_check laws f.balance "INVALID_INSURANCE_BALANCE" balanced in
        let (p, q, r, t) =
          min_min_bounds loss f.balance cap loss_ge bal_ge (coverage_cap_nonneg laws _ capped) in
        let fin = finite_between _ _ p q loss_fin in
        let e : c.covered ≡ min (min loss f.balance) cap = rw loss_eq at covered in
        (
          rw e p,
          rw e q,
          rw e r,
          λ cap' h'. ground arith,
          rw (left, e) (sub_nonneg _ _ r fin),
          rw (debt, e, loss_eq) (sub_nonneg _ _ q fin),
          rw loss_eq at debt,
        )
