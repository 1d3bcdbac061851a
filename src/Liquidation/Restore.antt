-- ===== src/Liquidation/Restore.antt =====
-- What a cross liquidation takes and puts back (liquidation-controller.js).
use lqc_liquidity_chain.Common.{
  ℕ, ◌≡◌, refl, ap, ◌∙◌, inl, inr, Bool, true, false, not, Option, none, some, List, [], ◌∷◌, arith,
  filter, every, ok, Result-cases,
}
use lqc_liquidity_chain.Common.Double.{Double, nought}
use lqc_liquidity_chain.Common.Dict.{Dict, contains, erase, lookup-erase_self}
use lqc_liquidity_chain.Common.Text.{Text}
use lqc_liquidity_chain.Book.{
  Entry, Book, key_of_position, entry_is_cross, conflicts, delete_entries, insert_entries,
  restore_cross, list_book,
}
use lqc_liquidity_chain.Account.{
  Account, Snapshot, CrossSettlement, LiquidationPreview, snapshot, commit_cross_liquidation,
  restore_snapshot, preview_cross_liquidation,
}
use lqc_liquidity_chain.Insurance.{Service, preview_coverage}
use lqc_liquidity_chain.FeeController.{fund_of}
use lqc_liquidity_chain.Adl.{Resolution, preview_cover_and_plan}
use lqc_liquidity_chain.Liquidation.{
  World, LiquidationPlan, Env, cross_entries, positions_of, plan_bad_debt, plan_liquidation,
}

module _ {V : Type 0} where
  erase-absent : (j k : Text) (m : Dict V) → contains k m ≡ false → contains k (erase j m) ≡ false
  erase-absent j k [] h = h
  erase-absent j k (e ∷ m) h = ground (arith, erase-absent j k m)

module _ {N : Type 0} where
  every-filter : (p : Entry N → Bool) (es : List (Entry N)) → every p (filter p es) ≡ true
  every-filter p [] = refl
  every-filter p (e ∷ es) = ground (arith, every-filter p es)

  delete_entries-absent :
      (es : List (Entry N)) (b : Book N) (k : Text)
      → contains k b.positions ≡ false
      → contains k (delete_entries es b).positions ≡ false
  unfolding delete_entries
  delete_entries-absent [] b k h = h
  delete_entries-absent (e ∷ es) b k h =
      delete_entries-absent es
        (record b { positions = erase (key_of_position e.position) b.positions }) k
        (erase-absent (key_of_position e.position) k b.positions h)

  every-weaken :
      (p q : Entry N → Bool) (es : List (Entry N))
      → ((e : Entry N) → p e ≡ true → q e ≡ true)
      → every p es ≡ true
      → every q es ≡ true
  every-weaken p q [] f h = refl
  every-weaken p q (e ∷ es) f h = ground (arith, f e, every-weaken p q es f)

  -- Deleted entries are in nobody's way.
  no_conflicts :
      (es : List (Entry N)) (b : Book N)
      → every (λ e. not (conflicts (delete_entries es b) e)) es ≡ true
  unfolding delete_entries
  no_conflicts [] b = refl
  no_conflicts (e ∷ es) b =
      let key = key_of_position e.position in
      let b' : Book N = record b { positions = erase key b.positions } in
      let gone =
        delete_entries-absent es b' key (rw (lookup-erase_self key b.positions, contains) refl) in
      ground (arith, gone, no_conflicts es b')

  -- What was removed can be put back.
  pub restore_removed :
      (b : Book N)
      → let closed = cross_entries b in
        restore_cross closed (delete_entries closed b)
        ≡ ok (closed, insert_entries closed (delete_entries closed b))
  unfolding restore_cross cross_entries
  restore_removed b = ground (
    arith,
    every-filter entry_is_cross (list_book b),
    no_conflicts (filter entry_is_cross (list_book b)) b,
  )

module _ {N : Type 0} ⦃d : Double N⦄ where
  open d use {lt}

  -- The insurance service that a plan leaves has the fund that it had.
  plan_bad_debt-fund :
      (env : Env N) (es : List (Entry N)) (p : LiquidationPreview N) (s : Option (Service N))
      {r : Option (Resolution N)} {t : Option (Service N)}
      → plan_bad_debt env es p s ≡ ok (r, t)
      → fund_of t ≡ fund_of s
  unfolding plan_bad_debt preview_cover_and_plan preview_coverage
  plan_bad_debt-fund env es p none h = ground arith
  plan_bad_debt-fund env es p (some s) h = ground arith

  pub plan_liquidation-fund :
      (env : Env N) (es : List (Entry N)) (w : World N) {p : LiquidationPlan N}
      → plan_liquidation env es w ≡ ok p
      → fund_of p.insurance ≡ fund_of w.insurance
  unfolding plan_liquidation
  plan_liquidation-fund env es w {p} h =
      elim (Result-cases
        (preview_cross_liquidation (positions_of es) env.mark_price_of w.account)) [
          | inr (code, e) ↦ absurd (ground arith)
          | inl (v, e) ↦ elim (Result-cases (plan_bad_debt env es v w.insurance)) [
            | inr (code, e') ↦ absurd (ground arith)
            | inl ((r, t), e') ↦
                let kept = plan_bad_debt-fund env es v w.insurance e' in
                let same : p.insurance ≡ t = ground arith in ap fund_of same ∙ kept
          ]
        ]

  pub committed_account :
      (now : ℕ) (p : LiquidationPreview N) (a : Account N) {r : CrossSettlement N} {b : Account N}
      → commit_cross_liquidation now p a ≡ ok (r, b)
      → (b ≡ record a { cross_reserved = nought; cash = p.surviving_equity }) × (r.preview ≡ p)
  unfolding commit_cross_liquidation
  committed_account now p a h = (ground arith, ground arith)

  pub restored :
      (before a : Account N) (e : Option (Snapshot N)) {s : Snapshot N} {b : Account N}
      → before.initial ≡ a.initial
      → restore_snapshot (some (snapshot before)) e a ≡ ok (s, b)
      → b ≡ before
  unfolding restore_snapshot snapshot
  restored before a none i h = ground arith
  restored before a (some e) i h = ground arith
