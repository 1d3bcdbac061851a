-- ===== src/Liquidation.antt =====
-- dex/app/futures/liquidation-controller.js: the liquidation of all cross positions, with the
pub mod Content
pub mod Restore
pub mod Steps
-- account, the book and the insurance fund kept in step.
use lqc_liquidity_chain.Common.{
  ℕ, Bool, true, false, not, ◌||◌, Option, none, some, List, [], ◌∷◌, map, String, if◌then◌else◌,
  same_text, filter, every, Result, ok, err, ◌>>=◌, ◌>>◌, throw_if, required, Outcome, done,
  refused, rolled_back, rollback_failed,
}
use lqc_liquidity_chain.Common.Double.{Double, nought}
use lqc_liquidity_chain.Common.Text.{Text, codes, to_upper}
use lqc_liquidity_chain.Risk.{Position, CrossHealth}
use lqc_liquidity_chain.Account.{
  Account, Snapshot, snapshot, health, LiquidationPreview, CrossSettlement,
  preview_cross_liquidation, commit_cross_liquidation, restore_snapshot,
}
use lqc_liquidity_chain.Book.{Book, Entry, list_book, entry_is_cross, remove_cross, restore_cross}
use lqc_liquidity_chain.Insurance.{Service}
use lqc_liquidity_chain.Adl.{
  AdlPosition, Resolution, Processed, preview_cover_and_plan, commit_resolution,
}

-- What the controller coordinates; there may be no insurance.
pub record World (N : Type 0) : Type 0 where
  pub account : Account N
  pub book : Book N
  pub insurance : Option (Service N)

pub record LiquidationEvent (N : Type 0) : Type 0 where
  pub settlement : CrossSettlement N
  pub bad_debt_resolution : Option (Processed N)
  pub closed_positions : List (Entry N)

pub data Report (N : Type 0) : Type 0 where
  no_cross_positions : Report N
  account_healthy : CrossHealth N → Report N
  liquidated : LiquidationEvent N → Report N

-- What was computed before the first change of state.
pub record LiquidationPlan (N : Type 0) : Type 0 where
  pub preview : LiquidationPreview N
  pub resolution : Option (Resolution N)
  pub insurance : Option (Service N)

-- The environment of a call: prices, the ADL candidates of the market if they are provided, the
-- collation of strings and the time.
pub record Env (N : Type 0) : Type 0 where
  pub mark_price_of : Text → N
  pub adl_positions : Option (List (AdlPosition N))
  pub locale_after : Text → Text → Bool
  pub now : ℕ

-- the one side of a list of sides, or an error
unfoldable pub single_side : List Text → Result Text
single_side [] = err "MIXED_SIDE_BAD_DEBT_REQUIRES_ALLOCATION"
single_side (s ∷ ss) = do
  throw_if (not (every (same_text s) ss)) "MIXED_SIDE_BAD_DEBT_REQUIRES_ALLOCATION"
  throw_if (not (same_text s (codes "LONG") || same_text s (codes "SHORT")))
      "MIXED_SIDE_BAD_DEBT_REQUIRES_ALLOCATION"
  ok s

module _ {N : Type 0} where
  unfoldable pub cross_entries : Book N → List (Entry N)
  cross_entries b = filter entry_is_cross (list_book b)

  abbrev pub positions_of : List (Entry N) → List (Position N)
  positions_of = map (λ e. e.position)

  abbrev pub no_entries : List (Entry N) → Bool
  no_entries [] = true
  no_entries (_ ∷ _) = false

module _ {N : Type 0} ⦃d : Double N⦄ where
  open d use {lt}

  unfoldable pub evaluate_cross : Env N → World N → Result (CrossHealth N)
  evaluate_cross env w = health (positions_of (cross_entries w.book)) env.mark_price_of w.account

  -- the block under `accountPreview.badDebt > 0`
  unfoldable pub plan_bad_debt :
      Env N
      → List (Entry N)
      → LiquidationPreview N
      → Option (Service N)
      → Result (Option (Resolution N) × Option (Service N))
  plan_bad_debt env positions preview insurance =
      if not (lt nought preview.bad_debt) then ok (none, insurance) else (do
        service ← required insurance "BAD_DEBT_RESOLUTION_REQUIRED"
        side ← single_side (map (λ p. to_upper p.side) (positions_of positions))
        candidates ← required env.adl_positions "GLOBAL_ADL_POSITION_PROVIDER_REQUIRED"
        (resolution, service') ←
            preview_cover_and_plan env.locale_after preview.bad_debt candidates side service
        ok (some resolution, some service'))

  unfoldable pub plan_liquidation : Env N → List (Entry N) → World N → Result (LiquidationPlan N)
  plan_liquidation env positions w = do
    preview ← preview_cross_liquidation (positions_of positions) env.mark_price_of w.account
    (resolution, insurance) ← plan_bad_debt env positions preview w.insurance
    ok (record { preview = preview; resolution = resolution; insurance = insurance })

  -- `commitResolution`, where there is a resolution
  unfoldable pub commit_planned :
      ℕ
      → Option (Resolution N)
      → Option (Service N)
      → Result (Option (Processed N) × Option (Service N))
  commit_planned now none s = ok (none, s)
  commit_planned now (some r) none = err "INSURANCE_ADL_CONTROLLER_REQUIRED"
  commit_planned now (some r) (some s) = commit_resolution now r s >>= λ t. ok (some t.0, some t.1)

  abbrev pub restored_account : Result (Snapshot N × Account N) → Account N → Account N
  restored_account (ok (_, a)) fallback = a
  restored_account (err _) fallback = fallback

  abbrev pub restored_book : Result (List (Entry N) × Book N) → Book N → Book N
  restored_book (ok (_, b)) fallback = b
  restored_book (err _) fallback = fallback

  abbrev pub rollback_outcome :
      String
      → Result (Snapshot N × Account N)
      → Result (List (Entry N) × Book N)
      → Outcome (Report N)
  rollback_outcome cause (ok _) (ok _) = rolled_back cause
  rollback_outcome cause (err e) _ = rollback_failed cause e
  rollback_outcome cause (ok _) (err e) = rollback_failed cause e

  -- both rollbacks after a failed insurance commit are tried
  unfoldable pub undo_liquidation :
      String
      → Account N
      → CrossSettlement N
      → List (Entry N)
      → World N
      → Outcome (Report N) × World N
  undo_liquidation cause before settlement closed w =
      let account = restore_snapshot (some (snapshot before)) (some settlement.account) w.account in
      let book = restore_cross closed w.book in
      (
        rollback_outcome cause account book,
        record w { account = restored_account account w.account; book = restored_book book w.book },
      )

  -- the commits: the book is `book` already, and `before` is the account before
  unfoldable pub commit_liquidation :
      Env N → LiquidationPlan N → List (Entry N) → Book N → Account N → Outcome (Report N) × World N
  commit_liquidation env plan closed book before =
      elim (commit_cross_liquidation env.now plan.preview before) [
        | err cause ↦
            let restored = restore_cross closed book in
            (
              elim restored [ ok _ ↦ rolled_back cause | err e ↦ rollback_failed cause e ],
              record {
                account = before;
                book = restored_book restored book;
                insurance = plan.insurance;
              },
            )
        | ok (settlement, after) ↦ elim (commit_planned env.now plan.resolution plan.insurance) [
          | err cause ↦
              undo_liquidation cause before settlement closed
                (record { account = after; book = book; insurance = plan.insurance })
          | ok (processed, insurance) ↦ (
            done (
                liquidated (record {
                  settlement = settlement;
                  bad_debt_resolution = processed;
                  closed_positions = closed;
                })),
            record { account = after; book = book; insurance = insurance },
          )
        ]
      ]

  -- from the plan on
  unfoldable pub carry_out : Env N → List (Entry N) → World N → Outcome (Report N) × World N
  carry_out env positions w = elim (plan_liquidation env positions w) [
    | err code ↦ (refused code, w)
    | ok plan ↦ elim (remove_cross (some positions) w.book) [
      | err code ↦ (refused code, record w { insurance = plan.insurance })
      | ok (closed, book) ↦ commit_liquidation env plan closed book w.account
    ]
  ]

  unfoldable pub liquidate_cross_if_required : Env N → World N → Outcome (Report N) × World N
  liquidate_cross_if_required env w =
      let positions = cross_entries w.book in
      if no_entries positions then (done no_cross_positions, w) else (elim (evaluate_cross env w) [
        | err code ↦ (refused code, w)
        | ok h ↦ if h.liquidatable then carry_out env positions w else (done (account_healthy h), w)
      ])
