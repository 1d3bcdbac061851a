-- ===== src/Adl.antt =====
-- dex/app/futures/adl-engine.js and insurance-adl-controller.js: auto-deleveraging once the
-- insurance fund is exhausted.
use lqc_liquidity_chain.Common.{
  ℕ, Bool, true, false, not, List, [], ◌∷◌, if◌then◌else◌, filter, Result, ok, ◌>>=◌, ◌>>◌,
  throw_if, map_result,
}
use lqc_liquidity_chain.Common.Double.{Double, nought}
use lqc_liquidity_chain.Common.Text.{Text}
use lqc_liquidity_chain.Common.Validation.{finite_number, positive_number}
use lqc_liquidity_chain.Risk.{Side, long, short, normalized_side, direction}
use lqc_liquidity_chain.Insurance.{
  Service, FundObject, CoveragePreview, service_snapshot, preview_coverage, commit_coverage,
}

pub record AdlPosition (N : Type 0) : Type 0 where
  pub id : Text
  pub side : Text
  pub quantity : N
  pub entry_price : N
  pub mark_price : N
  pub collateral : N

-- `{ ...position, adlScore }`
pub record Ranked (N : Type 0) : Type 0 where
  pub position : AdlPosition N
  pub score : N

pub record Selected (N : Type 0) : Type 0 where
  pub id : Text
  pub side : Text
  pub score : N
  pub available_profit : N
  pub absorb_amount : N
  pub reduce_quantity : N
  pub remaining_quantity : N

pub record AdlPlan (N : Type 0) : Type 0 where
  pub required_bad_debt : N
  pub selected : List (Selected N)
  pub residual_bad_debt : N

pub record Resolution (N : Type 0) : Type 0 where
  pub coverage : CoveragePreview N
  pub fund_before : FundObject N
  pub adl_plan : AdlPlan N

pub record Processed (N : Type 0) : Type 0 where
  pub resolution : Resolution N
  pub fund : FundObject N
  pub processed_at : ℕ

abbrev pub opposite : Side → Side
opposite long = short
opposite short = long

abbrev pub same_side : Side → Side → Bool
same_side long long = true
same_side short short = true
same_side _ _ = false

module _ {N : Type 0} ⦃d : Double N⦄ where
  open d use {decimal, add, sub, mul, div, abs, min, max, lt, le, same}

  unfoldable pub unrealized_pnl : AdlPosition N → Result N
  unfolding direction
  unrealized_pnl p = do
    s ← normalized_side p.side
    qty ← positive_number p.quantity "INVALID_QUANTITY"
    entry ← positive_number p.entry_price "INVALID_ENTRY_PRICE"
    mark ← positive_number p.mark_price "INVALID_MARK_PRICE"
    ok (mul (mul (direction s) qty) (sub mark entry))

  unfoldable pub adl_score : AdlPosition N → Result N
  adl_score p = do
    margin ← positive_number p.collateral "INVALID_COLLATERAL"
    mark ← positive_number p.mark_price "INVALID_MARK_PRICE"
    qty ← positive_number p.quantity "INVALID_QUANTITY"
    pnl ← unrealized_pnl p
    let profit = max nought pnl
    let leverage = div (mul qty mark) margin
    ok (mul (div profit margin) leverage)

  unfoldable pub rank : AdlPosition N → Result (Ranked N)
  rank p = adl_score p >>= λ s. ok (record { position = p; score = s })

  -- the `filter` on the side, whose test may throw
  unfoldable pub on_side : Side → List (AdlPosition N) → Result (List (AdlPosition N))
  on_side side [] = ok []
  on_side side (p ∷ ps) = do
    s ← normalized_side p.side
    rest ← on_side side ps
    ok (if same_side s side then p ∷ rest else rest)

  -- `localeCompare(a, b) > 0` depends on the locale.
  module _ (locale_after : Text → Text → Bool) where
    -- The comparison of `sort` is positive: `a` goes behind `b`.
    unfoldable pub ranks_after : Ranked N → Ranked N → Bool
    ranks_after a b =
        if lt a.score b.score
        then true
        else if lt b.score a.score
        then false
        else locale_after a.position.id b.position.id

    unfoldable pub insert_ranked : Ranked N → List (Ranked N) → List (Ranked N)
    insert_ranked r [] = r ∷ []
    insert_ranked r (s ∷ ss) = if ranks_after r s then s ∷ insert_ranked r ss else r ∷ s ∷ ss

    unfoldable pub sort_ranked : List (Ranked N) → List (Ranked N)
    sort_ranked [] = []
    sort_ranked (r ∷ rs) = insert_ranked r (sort_ranked rs)

    unfoldable pub rank_adl_candidates : List (AdlPosition N) → Text → Result (List (Ranked N))
    rank_adl_candidates positions bankrupt_side = do
      failed ← normalized_side bankrupt_side
      candidates ← on_side (opposite failed) positions
      ranked ← map_result rank candidates
      ok (sort_ranked (filter (λ r. lt nought r.score) ranked))

  -- one candidate, with what is left to absorb
  unfoldable pub select_candidate : N → Ranked N → N → N → N → Selected N
  select_candidate remaining r profit move quantity =
      let absorb = min remaining profit in
      let reduce_quantity = div absorb move in
      record {
        id = r.position.id;
        side = r.position.side;
        score = r.score;
        available_profit = profit;
        absorb_amount = absorb;
        reduce_quantity = reduce_quantity;
        remaining_quantity = max nought (sub quantity reduce_quantity);
      }

  -- the loop of `buildAdlPlan`: what it selects, and what remains of the debt
  unfoldable pub absorb_debt : N → List (Ranked N) → Result (List (Selected N) × N)
  absorb_debt remaining [] = ok ([], remaining)
  absorb_debt remaining (r ∷ rs) = elim (le remaining nought) [
    | true ↦ ok ([], remaining)
    | false ↦ unrealized_pnl r.position >>= λ pnl. elim (le (max nought pnl) nought) [
      | true ↦ absorb_debt remaining rs
      | false ↦ do
        let profit = max nought pnl
        mark ← positive_number r.position.mark_price "INVALID_MARK_PRICE"
        entry ← positive_number r.position.entry_price "INVALID_ENTRY_PRICE"
        quantity ← positive_number r.position.quantity "INVALID_QUANTITY"
        let chosen = select_candidate remaining r profit (abs (sub mark entry)) quantity
        (rest, left) ← absorb_debt (sub remaining chosen.absorb_amount) rs
        ok (chosen ∷ rest, left)
    ]
  ]

  abbrev pub empty_plan : AdlPlan N
  empty_plan = record { required_bad_debt = nought; selected = []; residual_bad_debt = nought }

  module _ (locale_after : Text → Text → Bool) where
    unfoldable pub build_adl_plan : List (AdlPosition N) → Text → N → Result (AdlPlan N)
    build_adl_plan positions bankrupt_side bad_debt = do
      debt ← finite_number bad_debt "INVALID_BAD_DEBT"
      throw_if (lt debt nought) "INVALID_BAD_DEBT"
      if same debt nought then ok empty_plan else (do
        ranked ← rank_adl_candidates locale_after positions bankrupt_side
        (selected, remaining) ← absorb_debt debt ranked
        ok (record {
          required_bad_debt = debt;
          selected = selected;
          residual_bad_debt = max nought remaining;
        }))

    unfoldable pub preview_cover_and_plan :
        N → List (AdlPosition N) → Text → Service N → Result (Resolution N × Service N)
    preview_cover_and_plan loss positions bankrupt_side s = do
      (coverage, s') ← preview_coverage loss s
      plan ←
          if lt nought coverage.coverage.bad_debt
          then build_adl_plan positions bankrupt_side coverage.coverage.bad_debt
          else ok empty_plan
      ok (record { coverage = coverage; fund_before = service_snapshot s; adl_plan = plan }, s')

  unfoldable pub commit_resolution : ℕ → Resolution N → Service N → Result (Processed N × Service N)
  commit_resolution now r s = do
    throw_if (not (same (service_snapshot s).fund.balance r.fund_before.fund.balance))
        "INSURANCE_FUND_CHANGED_SINCE_PREVIEW"
    (_, s') ← commit_coverage r.coverage s
    ok (record { resolution = r; fund = service_snapshot s'; processed_at = now }, s')

  unfoldable pub cover_and_plan :
      (Text → Text → Bool)
      → ℕ
      → N
      → List (AdlPosition N)
      → Text
      → Service N
      → Result (Processed N × Service N)
  cover_and_plan locale_after now loss positions bankrupt_side s = do
    (r, s') ← preview_cover_and_plan locale_after loss positions bankrupt_side s
    commit_resolution now r s'
