-- ===== src/Liquidation/Steps.antt =====
-- How a cross liquidation ends, and what it leaves (liquidation-controller.js).
use lqc_liquidity_chain.Common.{
  ◌≡◌, refl, sym, ◌⊎◌, inl, inr, false, Option, some, arith, String, Bool-cases, ok, err,
  Result-cases, Outcome, done, refused, rolled_back, rollback_failed,
}
use lqc_liquidity_chain.Common.Double.{Double, nought}
use lqc_liquidity_chain.Common.Dict.{lookup}
use lqc_liquidity_chain.Common.Text.{Text}
use mathlib.Core.Path.{subst}
use lqc_liquidity_chain.Book.Keys.{IsKeyed}
use lqc_liquidity_chain.Book.Refined.{view, KeepsIsolated}
use lqc_liquidity_chain.Liquidation.Content.{lookup-refilled, emptied-KeepsIsolated}
use lqc_liquidity_chain.Book.{Book, delete_entries, insert_entries, remove_cross}
use lqc_liquidity_chain.Account.{
  Account, CrossSettlement, LiquidationPreview, snapshot, commit_cross_liquidation,
  restore_snapshot,
}
use lqc_liquidity_chain.Insurance.{Service}
use lqc_liquidity_chain.FeeController.{fund_of}
use lqc_liquidity_chain.Liquidation.{
  World, LiquidationEvent, Report, no_cross_positions, account_healthy, liquidated, LiquidationPlan,
  Env, cross_entries, no_entries, evaluate_cross, plan_liquidation, commit_planned,
  undo_liquidation, commit_liquidation, carry_out, liquidate_cross_if_required,
}
use lqc_liquidity_chain.Liquidation.Restore.{
  restore_removed, plan_liquidation-fund, committed_account, restored,
}

module _ {N : Type 0} ⦃d : Double N⦄ where
  -- The book after the calls that remove the cross positions, and after those that put them back.
  abbrev emptied : World N → Book N
  emptied w = delete_entries (cross_entries w.book) w.book

  abbrev refilled : World N → Book N
  refilled w = insert_entries (cross_entries w.book) (emptied w)

  -- What is left of the world `w`, by how a liquidation ended, with the books as the calls make them.
  abbrev CommandEnds : World N → Outcome (Report N) × World N → Type 0
  CommandEnds w (done no_cross_positions, w') = w' ≡ w
  CommandEnds w (done (account_healthy h), w') = (w' ≡ w) × (h.liquidatable ≡ false)
  CommandEnds w (done (liquidated r), w') =
      (w'.account.cross_reserved ≡ nought)
      × (w'.account.cash ≡ r.settlement.preview.surviving_equity)
      × (w'.account.isolated_reserved ≡ w.account.isolated_reserved)
      × (w'.book ≡ emptied w)
  CommandEnds w (refused code, w') =
      (w'.account ≡ w.account) × (w'.book ≡ w.book) × (fund_of w'.insurance ≡ fund_of w.insurance)
  CommandEnds w (rolled_back code, w') =
      (w'.account ≡ w.account)
      × (w'.book ≡ refilled w)
      × (fund_of w'.insurance ≡ fund_of w.insurance)
  CommandEnds w (rollback_failed code code', w') =
      (w'.book ≡ refilled w) × (fund_of w'.insurance ≡ fund_of w.insurance)

  -- The rollback after a failed insurance commit.
  undo-Ends :
      (cause : String) (w : World N) (p : LiquidationPreview N) (r : CrossSettlement N)
      (a : Account N) (s : Option (Service N))
      → a ≡ record w.account { cross_reserved = nought; cash = p.surviving_equity }
      → fund_of s ≡ fund_of w.insurance
      → CommandEnds w (
          undo_liquidation cause w.account r
            (cross_entries w.book)
            (record { account = a; book = emptied w; insurance = s }))
  unfolding undo_liquidation
  undo-Ends cause w p r a s ea es =
      let put_back = restore_removed w.book in
      elim (Result-cases (restore_snapshot (some (snapshot w.account)) (some r.account) a)) [
        | inl ((shot, b), e) ↦
            rw (put_back, e) (restored w.account a (some r.account) (rw ea refl) e, refl, es)
        | inr (code, e) ↦ rw (put_back, e) (refl, es)
      ]

  commit-Ends :
      (env : Env N) (p : LiquidationPlan N) (w : World N)
      → fund_of p.insurance ≡ fund_of w.insurance
      → CommandEnds w (commit_liquidation env p (cross_entries w.book) (emptied w) w.account)
  unfolding commit_liquidation
  commit-Ends env p w kept =
      let closed = cross_entries w.book in
      let here = commit_liquidation env p closed (emptied w) w.account in
      elim (Result-cases (commit_cross_liquidation env.now p.preview w.account)) [
        | inr (code, e) ↦
            let w' : World N = record {
              account = w.account;
              book = refilled w;
              insurance = p.insurance;
            } in
            let ends : here ≡ (rolled_back code, w') =
              rw (e, commit_liquidation) (rw (restore_removed w.book)) in
            subst (CommandEnds w) (sym ends) (refl, refl, kept)
        | inl ((r, a), e) ↦
            let (ea, er) = committed_account env.now p.preview w.account e in
            elim (Result-cases (commit_planned env.now p.resolution p.insurance)) [
              | inr (code, e') ↦
                  let w' : World N = record {
                    account = a;
                    book = emptied w;
                    insurance = p.insurance;
                  } in
                  let ends : here ≡ undo_liquidation code w.account r closed w' =
                    rw (e, commit_liquidation) (rw e') in
                  subst (CommandEnds w) (sym ends)
                    (undo-Ends code w p.preview r a p.insurance ea kept)
              | inl ((processed, s), e') ↦
                  let event : LiquidationEvent N = record {
                    settlement = r;
                    bad_debt_resolution = processed;
                    closed_positions = closed;
                  } in
                  let w' : World N = record { account = a; book = emptied w; insurance = s } in
                  let ends : here ≡ (done (liquidated event), w') =
                    rw (e, commit_liquidation) (rw e') in
                  subst (CommandEnds w) (sym ends) (rw ea refl, rw (ea, er) refl, rw ea refl, refl)
            ]
      ]

  removed-cases :
      (w : World N)
      → ((code : String) × (remove_cross (some (cross_entries w.book)) w.book ≡ err code))
        ⊎ (remove_cross (some (cross_entries w.book)) w.book ≡ ok (cross_entries w.book, emptied w))
  unfolding remove_cross cross_entries
  removed-cases w = elim (Result-cases (remove_cross (some (cross_entries w.book)) w.book)) [
    | inr (code, e) ↦ inl (code, e)
    | inl ((closed, b), e) ↦ inr (ground arith)
  ]

  carry_out-Ends :
      (env : Env N) (w : World N) → CommandEnds w (carry_out env (cross_entries w.book) w)
  unfolding carry_out
  carry_out-Ends env w =
      let closed = cross_entries w.book in
      elim (Result-cases (plan_liquidation env closed w)) [
        | inr (code, e) ↦
            let ends : carry_out env closed w ≡ (refused code, w) = rw (e, carry_out) in
            subst (CommandEnds w) (sym ends) (refl, refl, refl)
        | inl (p, e) ↦
            let kept = plan_liquidation-fund env closed w e in
            elim (removed-cases w) [
              | inl (code, e') ↦
                  let ends : carry_out env closed w
                      ≡ (refused code, record w { insurance = p.insurance }) =
                    rw (e, carry_out) (rw e') in
                  subst (CommandEnds w) (sym ends) (refl, refl, kept)
              | inr e' ↦
                  let ends : carry_out env closed w
                      ≡ commit_liquidation env p closed (emptied w) w.account =
                    rw (e, carry_out) (rw e') in
                  subst (CommandEnds w) (sym ends) (commit-Ends env p w kept)
            ]
      ]

  liquidate_cross_if_required-CommandEnds :
      (env : Env N) (w : World N) → CommandEnds w (liquidate_cross_if_required env w)
  unfolding liquidate_cross_if_required
  liquidate_cross_if_required-CommandEnds env w =
      let call = liquidate_cross_if_required env w in
      elim (Bool-cases (no_entries (cross_entries w.book))) [
        | inl none_held ↦
            let ends : call ≡ (done no_cross_positions, w) =
              rw (none_held, liquidate_cross_if_required) in
            subst (CommandEnds w) (sym ends) refl
        | inr held ↦ elim (Result-cases (evaluate_cross env w)) [
          | inr (code, e) ↦
              let ends : call ≡ (refused code, w) = rw (held, liquidate_cross_if_required) (rw e) in
              subst (CommandEnds w) (sym ends) (refl, refl, refl)
          | inl (h, e) ↦ elim (Bool-cases h.liquidatable) [
            | inl due ↦
                let ends : call ≡ carry_out env (cross_entries w.book) w =
                  rw (held, liquidate_cross_if_required) (rw e (rw due)) in
                subst (CommandEnds w) (sym ends) (carry_out-Ends env w)
            | inr healthy ↦
                let ends : call ≡ (done (account_healthy h), w) =
                  rw (held, liquidate_cross_if_required) (rw e (rw healthy)) in
                subst (CommandEnds w) (sym ends) (refl, healthy)
          ]
        ]
      ]

  -- Every key of the book has the object that it had.
  abbrev pub HasContent : Book N → Book N → Type 0
  HasContent b b' = (k : Text) → lookup k b'.positions ≡ lookup k b.positions

  -- What is left of the world `w`, by how a liquidation ended.
  abbrev pub LiquidationEnds : World N → Outcome (Report N) × World N → Type 0
  LiquidationEnds w (done no_cross_positions, w') = w' ≡ w
  LiquidationEnds w (done (account_healthy h), w') = (w' ≡ w) × (h.liquidatable ≡ false)
  LiquidationEnds w (done (liquidated r), w') =
      (w'.account.cross_reserved ≡ nought)
      × (w'.account.cash ≡ r.settlement.preview.surviving_equity)
      × (w'.account.isolated_reserved ≡ w.account.isolated_reserved)
      × KeepsIsolated (view w.book) (view w'.book)
  LiquidationEnds w (refused code, w') =
      (w'.account ≡ w.account) × (w'.book ≡ w.book) × (fund_of w'.insurance ≡ fund_of w.insurance)
  LiquidationEnds w (rolled_back code, w') =
      (w'.account ≡ w.account)
      × HasContent w.book w'.book
      × (fund_of w'.insurance ≡ fund_of w.insurance)
  LiquidationEnds w (rollback_failed code code', w') =
      HasContent w.book w'.book × (fund_of w'.insurance ≡ fund_of w.insurance)

  refilled-HasContent :
      (w : World N) {b : Book N} → IsKeyed w.book → b ≡ refilled w → HasContent w.book b
  refilled-HasContent w keyed e =
      subst (HasContent w.book) (sym e) (λ k. lookup-refilled w.book k keyed)

  CommandEnds-LiquidationEnds :
      (w : World N) (o : Outcome (Report N) × World N)
      → IsKeyed w.book
      → CommandEnds w o
      → LiquidationEnds w o
  CommandEnds-LiquidationEnds w (done no_cross_positions, w') keyed h = h
  CommandEnds-LiquidationEnds w (done (account_healthy c), w') keyed h = h
  CommandEnds-LiquidationEnds w (done (liquidated r), w') keyed (reserve, cash, own, gone) = (
    reserve,
    cash,
    own,
    subst (λ (b : Book N). KeepsIsolated (view w.book) (view b)) (sym gone)
        (emptied-KeepsIsolated w.book keyed),
  )
  CommandEnds-LiquidationEnds w (refused code, w') keyed h = h
  CommandEnds-LiquidationEnds w (rolled_back code, w') keyed (account, book, fund) =
      (account, refilled-HasContent w keyed book, fund)
  CommandEnds-LiquidationEnds w (rollback_failed code code', w') keyed (book, fund) =
      (refilled-HasContent w keyed book, fund)

  -- In a world whose book has each position under its own key and no key twice, as every book that
  -- its calls make: a call leaves the world as it is where there is no cross position or the account
  -- is healthy. Where it is refused, account, book and insurance fund are as before. Where it
  -- liquidates, the cross reserve is gone, the cash is what survived, the isolated reserve is as
  -- before, and the book has exactly the isolated positions that it had. Where it is rolled back, the
  -- account and the fund are as before and the book has the same object under every key; a rollback
  -- can fail for the account alone, since the book and the fund are in that case too as before.
  pub liquidate_cross_if_required-Ends :
      (env : Env N) (w : World N)
      → IsKeyed w.book
      → LiquidationEnds w (liquidate_cross_if_required env w)
  liquidate_cross_if_required-Ends env w keyed =
      CommandEnds-LiquidationEnds w (liquidate_cross_if_required env w) keyed
        (liquidate_cross_if_required-CommandEnds env w)
