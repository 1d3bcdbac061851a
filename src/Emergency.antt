-- ===== src/Emergency.antt =====
-- dex/app/futures/emergency-controls.js: the market states of an emergency, their transitions, and
-- the orders that each state lets through.
pub mod Recovery
use lqc_liquidity_chain.Common.{
  Bool, true, false, not, ◌&&◌, ◌||◌, Option, none, some, String, if◌then◌else◌, same_text, Result,
  ok, err, ◌>>=◌, ◌>>◌, throw_if,
}
use lqc_liquidity_chain.Common.Double.{Double, nought}
use lqc_liquidity_chain.Common.Text.{Text, codes, to_upper, trim, is_empty}
use lqc_liquidity_chain.Common.Validation.{positive_number}
use lqc_liquidity_chain.Risk.{Side, long, short}
use lqc_liquidity_chain.Adl.{same_side}

-- `STATES`
pub data Mode : Type 0 where
  active reduce_only halted : Mode

pub record MarketState : Type 0 where
  pub state : Mode
  pub reason : Option Text
  pub updated_at : Option Text

pub record Transition : Type 0 where
  pub next_state : Text
  pub reason : Text
  pub timestamp : Text
  pub recovery_approved : Bool

pub record EmergencyOrder (N : Type 0) : Type 0 where
  pub reduce_only : Bool
  pub position_side : Text
  pub position_quantity : N
  pub order_side : Text
  pub order_quantity : N

pub record Permit : Type 0 where
  pub state : Mode
  pub reduce_only : Bool

abbrev pub is_active : Mode → Bool
is_active active = true
is_active _ = false

abbrev pub is_halted : Mode → Bool
is_halted halted = true
is_halted _ = false

abbrev pub same_mode : Mode → Mode → Bool
same_mode active active = true
same_mode reduce_only reduce_only = true
same_mode halted halted = true
same_mode _ _ = false

unfoldable pub normalize_state : Text → Result Mode
normalize_state s =
    if same_text (to_upper s) (codes "ACTIVE")
    then ok active
    else if same_text (to_upper s) (codes "REDUCE_ONLY")
    then ok reduce_only
    else if same_text (to_upper s) (codes "HALTED")
    then ok halted
    else err "INVALID_MARKET_STATE"

unfoldable pub side_of : Text → String → Result Side
side_of s code =
    if same_text (to_upper s) (codes "LONG")
    then ok long
    else if same_text (to_upper s) (codes "SHORT")
    then ok short
    else err code

abbrev pub blank : Text → Bool
blank reason = is_empty (trim reason)

abbrev pub reason_for : Mode → Text → Option Text
reason_for mode reason = if is_active mode then none else some reason

unfoldable pub create_emergency_market_state : Text → Text → Option Text → Result MarketState
create_emergency_market_state state reason updated_at = do
  mode ← normalize_state state
  throw_if (not (is_active mode) && blank reason) "EMERGENCY_REASON_REQUIRED"
  ok (record { state = mode; reason = reason_for mode reason; updated_at = updated_at })

unfoldable pub transition_emergency_state : MarketState → Transition → Result MarketState
transition_emergency_state current t = do
  throw_if (is_empty t.timestamp) "EMERGENCY_TIMESTAMP_REQUIRED"
  let previous = current.state
  next ← normalize_state t.next_state
  throw_if (same_mode previous next) "MARKET_STATE_UNCHANGED"
  throw_if (not (is_active next) && blank t.reason) "EMERGENCY_REASON_REQUIRED"
  throw_if (is_halted previous && is_active next) "STAGED_RECOVERY_REQUIRED"
  throw_if (is_active next && not t.recovery_approved) "RECOVERY_APPROVAL_REQUIRED"
  ok (record { state = next; reason = reason_for next t.reason; updated_at = some t.timestamp })

pub record Triggered : Type 0 where
  pub state : Mode
  pub reason : Option String

-- the ladder of `evaluateEmergencyTriggers`
unfoldable pub triggered_state : Bool → Bool → Bool → Triggered
triggered_state oracle_healthy breaker_allowed in_debt =
    if not oracle_healthy
    then record { state = halted; reason = some "ORACLE_UNHEALTHY" }
    else if not breaker_allowed
    then record { state = halted; reason = some "PRICE_CIRCUIT_BREAKER" }
    else if in_debt
    then record { state = reduce_only; reason = some "RESIDUAL_BAD_DEBT" }
    else record { state = active; reason = none }

module _ {N : Type 0} ⦃d : Double N⦄ where
  open d use {lt, le, is_finite}

  unfoldable pub is_genuine_risk_reduction : EmergencyOrder N → Result Bool
  is_genuine_risk_reduction o = do
    current_side ← side_of o.position_side "INVALID_POSITION_SIDE"
    current_quantity ← positive_number o.position_quantity "INVALID_POSITION_QUANTITY"
    requested_side ← side_of o.order_side "INVALID_ORDER_SIDE"
    requested_quantity ← positive_number o.order_quantity "INVALID_ORDER_QUANTITY"
    ok (
        if same_side current_side requested_side
        then false
        else le requested_quantity current_quantity)

  -- the two tests of the reduce-only state
  unfoldable pub check_reduce_only : Mode → EmergencyOrder N → Result (Unit {0})
  check_reduce_only reduce_only o = do
    throw_if (not o.reduce_only) "MARKET_REDUCE_ONLY"
    genuine ← is_genuine_risk_reduction o
    throw_if (not genuine) "INVALID_REDUCE_ONLY_ORDER"
  check_reduce_only _ o = ok tt

  unfoldable pub validate_emergency_order : MarketState → EmergencyOrder N → Result Permit
  unfolding check_reduce_only is_genuine_risk_reduction
  validate_emergency_order s o = do
    let mode = s.state
    throw_if (is_halted mode) "MARKET_HALTED"
    check_reduce_only mode o
    ok (record { state = mode; reduce_only = o.reduce_only })

  unfoldable pub evaluate_emergency_triggers : Bool → Bool → N → Result Triggered
  evaluate_emergency_triggers oracle_healthy breaker_allowed debt = do
    throw_if (not (is_finite debt) || lt debt nought) "INVALID_RESIDUAL_BAD_DEBT"
    ok (triggered_state oracle_healthy breaker_allowed (lt nought debt))
