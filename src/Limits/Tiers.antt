-- ===== src/Limits/Tiers.antt =====
-- The tables that `createLeverageTiers` lets through, and the tier that is found in them.
use lqc_liquidity_chain.Common.{
  ℕ, ◌+◌, ◌≡◌, sym, ◌≢◌, inl, inr, false, some, List, [], ◌∷◌, arith, Bool-cases, find, All, ok,
  Result-cases,
}
use lqc_liquidity_chain.Common.Double.{Double, ◌≼◌, ◌≺◌, nought, IsIeee}
use lqc_liquidity_chain.Common.Validation.{positive_number}
use mathlib.Core.Path.{subst}
use lqc_liquidity_chain.Limits.{
  TierInput, Tier, normalize_tiers, create_leverage_tiers, resolve_leverage_tier,
  validate_tier_leverage,
}

module _ {N : Type 0} ⦃d : Double N⦄ where
  open d use {infinity, lt, le}

  -- Caps rise and leverages do not, from the given cap and leverage on; each rate is above zero.
  abbrev pub IsGraded : N → N → List (Tier N) → Type 0
  IsGraded cap leverage [] = Unit
  IsGraded cap leverage (t ∷ ts) =
      (cap ≺ t.max_notional)
      × (t.max_leverage ≼ leverage)
      × (nought ≺ t.maintenance_margin_rate)
      × IsGraded t.max_notional t.max_leverage ts

  module _ (laws : IsIeee N) where
    open laws use {
      finite_refl, nought_finite, lt_of_not_le, le_of_not_lt, le_of_lt, refl_of_le, le_trans,
      nought_le_infinity,
    }

    -- The first tier is checked against the cap and the leverage before it.
    tier_checks :
        (i : ℕ) (cap leverage : N) (t : TierInput N) (ts : List (TierInput N)) {out : List (Tier N)}
        → cap ≼ cap
        → leverage ≼ leverage
        → normalize_tiers i cap leverage (t ∷ ts) ≡ ok out
        → (o : Tier N) × (os : List (Tier N)) × (out ≡ o ∷ os)
          × (cap ≺ o.max_notional)
          × (o.max_leverage ≼ leverage)
          × (nought ≺ o.maintenance_margin_rate)
          × (normalize_tiers (i + 1) o.max_notional o.max_leverage ts ≡ ok os)
    unfolding normalize_tiers positive_number
    tier_checks i cap leverage t ts {out} c l h =
        elim (Result-cases (normalize_tiers (i + 1) t.max_notional t.max_leverage ts)) [
          | inl (os, e) ↦
              let o : Tier N = record {
                tier = i + 1;
                max_notional = t.max_notional;
                max_leverage = t.max_leverage;
                maintenance_margin_rate = t.maintenance_margin_rate;
              } in
              let checks : (out ≡ o ∷ os)
                  × (cap ≺ t.max_notional)
                  × (t.max_leverage ≼ leverage)
                  × (nought ≺ t.maintenance_margin_rate) =
                ground (
                  arith,
                  finite_refl t.max_notional,
                  finite_refl t.max_leverage,
                  finite_refl t.maintenance_margin_rate,
                  finite_refl nought nought_finite,
                  lt_of_not_le t.max_notional cap,
                  lt_of_not_le t.maintenance_margin_rate nought,
                  le_of_not_lt leverage t.max_leverage,
                ) in
              (o, os, checks.0, checks.1, checks.2, checks.3, e)
          | inr (code, e) ↦ absurd (ground arith)
        ]

    normalize_tiers-IsGraded :
        (i : ℕ) (cap leverage : N) (ts : List (TierInput N)) {out : List (Tier N)}
        → cap ≼ cap
        → leverage ≼ leverage
        → normalize_tiers i cap leverage ts ≡ ok out
        → IsGraded cap leverage out
    unfolding normalize_tiers
    normalize_tiers-IsGraded i cap leverage [] {out} c l h =
        let e : out ≡ [] = ground arith in rw e tt
    normalize_tiers-IsGraded i cap leverage (t ∷ ts) c l h =
        let (o, os, e, up, down, rate, rest) = tier_checks i cap leverage t ts c l h in
        let tail =
          normalize_tiers-IsGraded (i + 1) o.max_notional o.max_leverage ts
            (refl_of_le _ _ (le_of_lt _ _ up)).1 (refl_of_le _ _ down).0 rest in
        rw e (up, down, rate, tail)

    -- A table that is let through is not empty; its notional caps rise strictly from zero, its
    -- leverages never rise, and every maintenance rate is above zero.
    pub create_leverage_tiers-IsGraded :
        (ts : List (TierInput N)) {out : List (Tier N)}
        → create_leverage_tiers ts ≡ ok out
        → (out ≢ []) × IsGraded nought infinity out
    unfolding create_leverage_tiers
    create_leverage_tiers-IsGraded [] h = absurd (ground arith)
    create_leverage_tiers-IsGraded (t ∷ ts) h =
        let inf = (refl_of_le _ _ nought_le_infinity).1 in
        let zero_refl = finite_refl nought nought_finite in
        let (o, os, e, _, _, _, _) = tier_checks 0 nought infinity t ts zero_refl inf h in
        (ground arith, normalize_tiers-IsGraded 0 nought infinity (t ∷ ts) zero_refl inf h)

    -- Every tier of a graded table is above the cap and below the leverage that it starts from.
    IsGraded-All :
        (cap leverage : N) (ts : List (Tier N))
        → IsGraded cap leverage ts
        → All (λ u. (cap ≼ u.max_notional) × (u.max_leverage ≼ leverage)) ts
    IsGraded-All cap leverage [] g = tt
    IsGraded-All cap leverage (t ∷ ts) (up, down, rate, g) =
        ((le_of_lt _ _ up, down), weaken ts (IsGraded-All t.max_notional t.max_leverage ts g))
      where
        weaken :
            (us : List (Tier N))
            → All (λ u. (t.max_notional ≼ u.max_notional) × (u.max_leverage ≼ t.max_leverage)) us
            → All (λ u. (cap ≼ u.max_notional) × (u.max_leverage ≼ leverage)) us
        weaken [] h = tt
        weaken (u ∷ us) (h, hs) =
            ((le_trans _ _ _ (le_of_lt _ _ up) h.0, le_trans _ _ _ h.1 down), weaken us hs)

    -- What makes `t` the tier for a notional: it covers it, and every tier that does has a cap at
    -- least as high and a leverage at most as high.
    abbrev pub IsTierFor : N → Tier N → List (Tier N) → Type 0
    IsTierFor notional t ts =
        (notional ≼ t.max_notional)
        × All
            (λ u.
              (notional ≼ u.max_notional
                → (t.max_notional ≼ u.max_notional) × (u.max_leverage ≼ t.max_leverage)))
            ts

    ignore_premise :
        (notional : N) (t : Tier N) (us : List (Tier N))
        → All (λ u. (t.max_notional ≼ u.max_notional) × (u.max_leverage ≼ t.max_leverage)) us
        → All
            (λ u.
              (notional ≼ u.max_notional
                → (t.max_notional ≼ u.max_notional) × (u.max_leverage ≼ t.max_leverage)))
            us
    ignore_premise notional t [] h = tt
    ignore_premise notional t (u ∷ us) (h, hs) = (λ _. h, ignore_premise notional t us hs)

    find-IsTierFor :
        (notional cap leverage : N) (ts : List (Tier N)) (t : Tier N)
        → IsGraded cap leverage ts
        → find (λ t. le notional t.max_notional) ts ≡ some t
        → IsTierFor notional t ts
    find-IsTierFor notional cap leverage [] t g h = absurd (ground arith)
    find-IsTierFor notional cap leverage (u ∷ us) t (up, down, rate, g) h =
        elim (Bool-cases (le notional u.max_notional)) [
          | inl yes_covers ↦
              let same : t ≡ u = ground arith in
              subst (λ t'. IsTierFor notional t' (u ∷ us)) (sym same)
                (
                  yes_covers,
                  (
                    λ _. ((refl_of_le _ _ (le_of_lt _ _ up)).1, (refl_of_le _ _ down).0),
                    ignore_premise notional u us (IsGraded-All u.max_notional u.max_leverage us g),
                  ),
                )
          | inr not_covered ↦
              let found : find (λ t. le notional t.max_notional) us ≡ some t = ground arith in
              let (covers, rest) =
                find-IsTierFor notional u.max_notional u.max_leverage us t g found in
              (covers, (λ c. absurd (ground arith), rest))
        ]

    -- An order whose leverage is let through by a table that `createLeverageTiers` built gets the
    -- tier of its notional, and the leverage is not above that tier's.
    pub validate_tier_leverage-IsTierFor :
        (inputs : List (TierInput N)) (notional leverage : N) {ts : List (Tier N)} {t : Tier N}
        → create_leverage_tiers inputs ≡ ok ts
        → validate_tier_leverage notional leverage ts ≡ ok t
        → IsTierFor notional t ts × (lt t.max_leverage leverage ≡ false)
    unfolding validate_tier_leverage resolve_leverage_tier positive_number
    validate_tier_leverage-IsTierFor inputs notional leverage {ts} {t} built h =
        let graded = (create_leverage_tiers-IsGraded inputs built).1 in
        let found : find (λ u. le notional u.max_notional) ts ≡ some t = ground arith in
        (find-IsTierFor notional nought infinity ts t graded found, ground arith)
