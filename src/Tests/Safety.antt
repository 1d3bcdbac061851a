-- ===== src/Tests/Safety.antt =====
-- Concrete limits and emergency states: leverage-tiers.js, market-risk-limits.js and
-- emergency-controls.js of dex/app/futures.
use lqc_liquidity_chain.Common.{
  ℕ, ◌≡◌, refl, ◌≢◌, ◌↔◌, ◌⊎◌, true, false, none, some, List, [], ◌∷◌, ok,
}
use lqc_liquidity_chain.Common.Double.{nought}
use lqc_liquidity_chain.Common.Text.{codes, trim, to_upper, is_empty}
use lqc_liquidity_chain.Common.Fixed.{ℤ, pos, fixed, fixed-IsIeee}
use lqc_liquidity_chain.Common.Validation.{positive_number}
use lqc_liquidity_chain.Limits.{
  TierInput, Tier, create_leverage_tiers, normalize_tiers, resolve_leverage_tier,
  validate_tier_leverage, RiskLimits, validate_exposure_increase,
}
use lqc_liquidity_chain.Limits.Increase.{exposure_iff}
use lqc_liquidity_chain.Limits.Tiers.{
  IsGraded, IsTierFor, create_leverage_tiers-IsGraded, validate_tier_leverage-IsTierFor,
}
use lqc_liquidity_chain.Emergency.{
  active, reduce_only, halted, MarketState, Transition, EmergencyOrder, normalize_state,
  transition_emergency_state, is_genuine_risk_reduction, validate_emergency_order,
}
use lqc_liquidity_chain.Emergency.Recovery.{
  Run, here, next, passes, staged_recovery, order_passes_iff,
}
open fixed use {add, sub, mul, decimal, lt, le, is_finite, infinity}

abbrev pub whole : ℕ → ℤ
whole n = decimal n 0

abbrev tier_inputs : List (TierInput ℤ)
tier_inputs =
    record {
      max_notional = whole 1000;
      max_leverage = whole 50;
      maintenance_margin_rate = decimal 5 3;
    }
    ∷ record {
      max_notional = whole 5000;
      max_leverage = whole 20;
      maintenance_margin_rate = decimal 1 2;
    }
    ∷ []

abbrev second_tier : Tier ℤ
second_tier = record {
  tier = 2;
  max_notional = whole 5000;
  max_leverage = whole 20;
  maintenance_margin_rate = decimal 1 2;
}

abbrev tiers : List (Tier ℤ)
tiers =
    record {
      tier = 1;
      max_notional = whole 1000;
      max_leverage = whole 50;
      maintenance_margin_rate = decimal 5 3;
    }
    ∷ second_tier
    ∷ []

create_leverage_tiers-IsGraded_example : (tiers ≢ []) × IsGraded nought infinity tiers
unfolding create_leverage_tiers normalize_tiers positive_number
create_leverage_tiers-IsGraded_example =
    create_leverage_tiers-IsGraded fixed-IsIeee tier_inputs {out = tiers} refl

validate_tier_leverage-IsTierFor_example :
    IsTierFor fixed-IsIeee (whole 2000) second_tier tiers × (lt (whole 20) (whole 10) ≡ false)
unfolding create_leverage_tiers normalize_tiers positive_number validate_tier_leverage
    resolve_leverage_tier
validate_tier_leverage-IsTierFor_example =
    validate_tier_leverage-IsTierFor fixed-IsIeee tier_inputs (whole 2000) (whole 10) {ts = tiers}
      {t = second_tier} refl refl

abbrev limits : RiskLimits ℤ
limits = record {
  max_open_interest = pos 500;
  max_position_notional = pos 100;
  max_order_notional = pos 50;
}

exposure_iff_example :
    (validate_exposure_increase (pos 400) (pos 60) (pos 30) limits
      ≡ ok (record { next_open_interest = pos 430; next_position_notional = pos 90 }))
    ↔ ((is_finite (pos 400) ≡ true)
        × (lt (pos 400) nought ≡ false)
        × (is_finite (pos 60) ≡ true)
        × (lt (pos 60) nought ≡ false)
        × (is_finite (pos 30) ≡ true)
        × (lt (pos 30) nought ≡ false)
        × (le (pos 30) nought ≡ false)
        × (lt (pos 50) (pos 30) ≡ false)
        × (lt (pos 100) (pos 90) ≡ false)
        × (lt (pos 500) (pos 430) ≡ false))
exposure_iff_example = exposure_iff (pos 400) (pos 60) (pos 30) limits

abbrev stopped : MarketState
stopped = record { state = halted; reason = some (codes "oracle"); updated_at = none }

abbrev to_reduce_only : Transition
to_reduce_only = record {
  next_state = codes "REDUCE_ONLY";
  reason = codes "recovering";
  timestamp = codes "t1";
  recovery_approved = false;
}

abbrev to_active : Transition
to_active = record {
  next_state = codes "ACTIVE";
  reason = [];
  timestamp = codes "t2";
  recovery_approved = true;
}

abbrev recovering : MarketState
recovering = record {
  state = reduce_only;
  reason = some (codes "recovering");
  updated_at = some (codes "t1");
}

abbrev recovered : MarketState
recovered = record { state = active; reason = none; updated_at = some (codes "t2") }

recovery : Run stopped recovered (active ∷ reduce_only ∷ halted ∷ [])
unfolding transition_emergency_state normalize_state to_upper trim is_empty
recovery =
    next {s = recovering} {t = recovered} to_active
      (next {s = stopped} {t = recovering} to_reduce_only here refl) refl

staged_recovery_example : passes reduce_only (active ∷ reduce_only ∷ halted ∷ []) ≡ true
staged_recovery_example = staged_recovery refl recovery refl

abbrev closing_order : EmergencyOrder ℤ
closing_order = record {
  reduce_only = true;
  position_side = codes "LONG";
  position_quantity = pos 5;
  order_side = codes "SHORT";
  order_quantity = pos 3;
}

order_passes_iff_example :
    (validate_emergency_order recovering closing_order
      ≡ ok (record { state = reduce_only; reduce_only = true }))
    ↔ ((reduce_only ≡ active)
        ⊎ ((reduce_only ≡ reduce_only)
            × (true ≡ true)
            × (is_genuine_risk_reduction closing_order ≡ ok true)))
order_passes_iff_example = order_passes_iff recovering closing_order
