-- ===== src/Account/Solvency.antt =====
-- The cash and the two reserves of an account never fall below zero (account-engine.js).
use lqc_liquidity_chain.Common.{ℕ, ◌≡◌, Option, none, some, List, arith, ok, >>=-eq-ok}
use lqc_liquidity_chain.Common.Double.{Double, ◌≼◌, nought, IsIeee}
use lqc_liquidity_chain.Common.Text.{Text}
use lqc_liquidity_chain.Risk.{MarginMode, isolated, cross, Position}
use lqc_liquidity_chain.Account.{
  Account, Snapshot, LiquidationPreview, CrossSettlement, create_demo_margin_account, reserve,
  release, settle_funding, settle_trading_fee, restore_snapshot, consume_liquidation,
  preview_cross_liquidation, commit_cross_liquidation, liquidate_cross,
}

module _ {N : Type 0} ⦃d : Double N⦄ where
  open d use {add, sub, max}

  pub record IsSolvent (a : Account N) : Type 0 where
    pub cash_ge : nought ≼ a.cash
    pub isolated_ge : nought ≼ a.isolated_reserved
    pub cross_ge : nought ≼ a.cross_reserved

  -- One call that succeeds. A snapshot that is put back has a cash and reserves of at least zero; a
  -- preview that is committed is one that an account made, at whatever moment.
  pub data Reach (start : Account N) : Account N → Type 0 where
    here : Reach start start
    reserved_step :
        {a b : Account N} {r : Snapshot N} (v : N) (m : MarginMode)
        → Reach start a
        → reserve v m a ≡ ok (r, b)
        → Reach start b
    released_step :
        {a b : Account N} {r : Snapshot N} (v pnl : N) (m : MarginMode)
        → Reach start a
        → release v pnl m a ≡ ok (r, b)
        → Reach start b
    funded_step :
        {a b : Account N} {r : Snapshot N} (v : N)
        → Reach start a
        → settle_funding v a ≡ ok (r, b)
        → Reach start b
    charged_step :
        {a b : Account N} {r : Snapshot N} (v : N)
        → Reach start a
        → settle_trading_fee v a ≡ ok (r, b)
        → Reach start b
    consumed_step :
        {a b : Account N} {r : Snapshot N} (v : N) (m : MarginMode)
        → Reach start a
        → consume_liquidation v m a ≡ ok (r, b)
        → Reach start b
    restored_step :
        {a b : Account N} {r : Snapshot N} (p : Snapshot N) (e : Option (Snapshot N))
        → nought ≼ p.available_balance
        → nought ≼ p.isolated_reserved
        → nought ≼ p.cross_reserved
        → Reach start a
        → restore_snapshot (some p) e a ≡ ok (r, b)
        → Reach start b
    committed_step :
        {a b : Account N} {v : LiquidationPreview N} {r : CrossSettlement N} (p : Account N)
        (now : ℕ) (ps : List (Position N)) (f : Text → N)
        → preview_cross_liquidation ps f p ≡ ok v
        → Reach start a
        → commit_cross_liquidation now v a ≡ ok (r, b)
        → Reach start b
    liquidated_step :
        {a b : Account N} {r : CrossSettlement N} (now : ℕ) (ps : List (Position N)) (f : Text → N)
        → Reach start a
        → liquidate_cross now ps f a ≡ ok (r, b)
        → Reach start b

  module _ (laws : IsIeee N) where
    open laws use {
      finite_refl, refl_of_le, le_of_not_lt, lt_of_not_le, le_of_lt, nought_finite, le_max_left,
      refl_of_max, add_nonneg, add_refl, sub_refl, sub_nonneg, le_trans,
    }

    nought_refl : nought {N = N} ≼ nought
    nought_refl = finite_refl nought nought_finite

    max_nonneg : (x : N) → x ≼ x → nought ≼ max nought x
    max_nonneg x h = le_max_left nought x nought_refl h

    reserve-IsSolvent :
        (v : N) (m : MarginMode) (a : Account N) {r : Snapshot N} {b : Account N}
        → IsSolvent a
        → reserve v m a ≡ ok (r, b)
        → IsSolvent b
    unfolding reserve
    reserve-IsSolvent v isolated a s h = ground (
      arith,
      finite_refl v,
      refl_of_le nought a.cash,
      le_of_not_lt a.cash v,
      sub_nonneg a.cash v,
      lt_of_not_le v nought,
      nought_refl,
      le_of_lt nought v,
      add_nonneg a.isolated_reserved v,
    )
    reserve-IsSolvent v cross a s h = ground (
      arith,
      finite_refl v,
      refl_of_le nought a.cash,
      le_of_not_lt a.cash v,
      sub_nonneg a.cash v,
      lt_of_not_le v nought,
      nought_refl,
      le_of_lt nought v,
      add_nonneg a.cross_reserved v,
    )

    release-IsSolvent :
        (v pnl : N) (m : MarginMode) (a : Account N) {r : Snapshot N} {b : Account N}
        → IsSolvent a
        → release v pnl m a ≡ ok (r, b)
        → IsSolvent b
    unfolding release
    release-IsSolvent v pnl isolated a s h = ground (
      arith,
      refl_of_le nought a.cash,
      add_refl a.cash v,
      add_refl (add a.cash v) pnl,
      max_nonneg (add (add a.cash v) pnl),
      refl_of_le nought a.isolated_reserved,
      sub_refl a.isolated_reserved v,
      max_nonneg (sub a.isolated_reserved v),
    )
    release-IsSolvent v pnl cross a s h = ground (
      arith,
      refl_of_le nought a.cash,
      add_refl a.cash v,
      add_refl (add a.cash v) pnl,
      max_nonneg (add (add a.cash v) pnl),
      refl_of_le nought a.cross_reserved,
      sub_refl a.cross_reserved v,
      max_nonneg (sub a.cross_reserved v),
    )

    settle_funding-IsSolvent :
        (v : N) (a : Account N) {r : Snapshot N} {b : Account N}
        → IsSolvent a
        → settle_funding v a ≡ ok (r, b)
        → IsSolvent b
    unfolding settle_funding
    settle_funding-IsSolvent v a s h =
        ground (arith, refl_of_le nought a.cash, add_refl a.cash v, max_nonneg (add a.cash v))

    settle_trading_fee-IsSolvent :
        (v : N) (a : Account N) {r : Snapshot N} {b : Account N}
        → IsSolvent a
        → settle_trading_fee v a ≡ ok (r, b)
        → IsSolvent b
    unfolding settle_trading_fee
    settle_trading_fee-IsSolvent v a s h =
        ground (arith, refl_of_le nought a.cash, sub_refl a.cash v, max_nonneg (sub a.cash v))

    consume_liquidation-IsSolvent :
        (v : N) (m : MarginMode) (a : Account N) {r : Snapshot N} {b : Account N}
        → IsSolvent a
        → consume_liquidation v m a ≡ ok (r, b)
        → IsSolvent b
    unfolding consume_liquidation
    consume_liquidation-IsSolvent v isolated a s h = ground (
      arith,
      refl_of_le nought a.isolated_reserved,
      sub_refl a.isolated_reserved v,
      max_nonneg (sub a.isolated_reserved v),
    )
    consume_liquidation-IsSolvent v cross a s h = ground (
      arith,
      refl_of_le nought a.cross_reserved,
      sub_refl a.cross_reserved v,
      max_nonneg (sub a.cross_reserved v),
    )

    restore_snapshot-IsSolvent :
        (p : Snapshot N) (e : Option (Snapshot N)) (a : Account N) {r : Snapshot N} {b : Account N}
        → nought ≼ p.available_balance
        → nought ≼ p.isolated_reserved
        → nought ≼ p.cross_reserved
        → restore_snapshot (some p) e a ≡ ok (r, b)
        → IsSolvent b
    unfolding restore_snapshot
    restore_snapshot-IsSolvent p none a c i x h = ground arith
    restore_snapshot-IsSolvent p (some e) a c i x h = ground arith

    preview-surviving :
        (ps : List (Position N)) (f : Text → N) (a : Account N) {p : LiquidationPreview N}
        → preview_cross_liquidation ps f a ≡ ok p
        → p.surviving_equity ≡ max nought p.health.equity
    unfolding preview_cross_liquidation
    preview-surviving ps f a e = ground arith

    commit-IsSolvent :
        (now : ℕ) (p : LiquidationPreview N) (x : N) (a : Account N) {r : CrossSettlement N}
        {b : Account N}
        → p.surviving_equity ≡ max nought x
        → IsSolvent a
        → commit_cross_liquidation now p a ≡ ok (r, b)
        → IsSolvent b
    unfolding commit_cross_liquidation
    commit-IsSolvent now p x a e s h =
        ground (arith, finite_refl (max nought x), refl_of_max nought x, max_nonneg x, nought_refl)

    -- A commit checks that the surviving equity is finite, so it is a number.
    liquidate_cross-IsSolvent :
        (now : ℕ) (ps : List (Position N)) (f : Text → N) (a : Account N) {r : CrossSettlement N}
        {b : Account N}
        → IsSolvent a
        → liquidate_cross now ps f a ≡ ok (r, b)
        → IsSolvent b
    unfolding liquidate_cross
    liquidate_cross-IsSolvent now ps f a s h =
        let (p, previewed, committed) =
          >>=-eq-ok (preview_cross_liquidation ps f a) (λ p. commit_cross_liquidation now p a) h in
        commit-IsSolvent now p p.health.equity a (preview-surviving ps f a previewed) s committed

    create-IsSolvent :
        (initial : N) {a : Account N} → create_demo_margin_account initial ≡ ok a → IsSolvent a
    unfolding create_demo_margin_account
    create-IsSolvent initial h =
        ground (arith, finite_refl initial, le_of_not_lt initial nought, nought_refl)

    Reach-IsSolvent : {a b : Account N} → IsSolvent a → Reach a b → IsSolvent b
    Reach-IsSolvent s here = s
    Reach-IsSolvent s (reserved_step {a = a} v m r e) =
        reserve-IsSolvent v m a (Reach-IsSolvent s r) e
    Reach-IsSolvent s (released_step {a = a} v pnl m r e) =
        release-IsSolvent v pnl m a (Reach-IsSolvent s r) e
    Reach-IsSolvent s (funded_step {a = a} v r e) =
        settle_funding-IsSolvent v a (Reach-IsSolvent s r) e
    Reach-IsSolvent s (charged_step {a = a} v r e) =
        settle_trading_fee-IsSolvent v a (Reach-IsSolvent s r) e
    Reach-IsSolvent s (consumed_step {a = a} v m r e) =
        consume_liquidation-IsSolvent v m a (Reach-IsSolvent s r) e
    Reach-IsSolvent s (restored_step {a = a} p x cash_ge isolated_ge cross_ge r e) =
        restore_snapshot-IsSolvent p x a cash_ge isolated_ge cross_ge e
    Reach-IsSolvent s (committed_step {a = a} {v = v} p now ps f previewed r e) =
        commit-IsSolvent now v v.health.equity a (preview-surviving ps f p previewed)
          (Reach-IsSolvent s r) e
    Reach-IsSolvent s (liquidated_step {a = a} now ps f r e) =
        liquidate_cross-IsSolvent now ps f a (Reach-IsSolvent s r) e

    -- However the operations of a new account follow one another (reserving, releasing, funding,
    -- fees, consumed margin, cross liquidations at once or as a preview and a later commit, and
    -- restored snapshots), its cash and both of its reserves stay at or above zero, by the laws of
    -- IEEE 754 alone, where each snapshot that is restored has a cash and reserves at or above zero
    -- and each preview that is committed was made by an account.
    pub create-Reach-IsSolvent :
        (initial : N) {a b : Account N}
        → create_demo_margin_account initial ≡ ok a
        → Reach a b
        → IsSolvent b
    create-Reach-IsSolvent initial e r = Reach-IsSolvent (create-IsSolvent initial e) r
