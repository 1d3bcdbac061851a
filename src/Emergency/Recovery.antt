-- ===== src/Emergency/Recovery.antt =====
-- Recovery from an emergency goes in stages (emergency-controls.js).
use lqc_liquidity_chain.Common.{
  ◌≡◌, ◌≢◌, ◌↔◌, ◌⊎◌, inl, Bool, true, false, ◌||◌, none, some, List, [], ◌∷◌, arith, ok,
}
use lqc_liquidity_chain.Common.Double.{Double}
use lqc_liquidity_chain.Common.Text.{trim, is_empty}
use lqc_liquidity_chain.Emergency.{
  Mode, active, reduce_only, halted, MarketState, Transition, EmergencyOrder, same_mode,
  transition_emergency_state, is_genuine_risk_reduction, check_reduce_only,
  validate_emergency_order,
}

-- The states that a run of transitions passes through, the last one first.
pub data Run (start : MarketState) : MarketState → List Mode → Type 0 where
  here : Run start start (start.state ∷ [])
  next :
      {s t : MarketState} {modes : List Mode} (tr : Transition)
      → Run start s modes
      → transition_emergency_state s tr ≡ ok t
      → Run start t (t.state ∷ modes)

abbrev pub passes : Mode → List Mode → Bool
passes m [] = false
passes m (n ∷ ns) = same_mode m n || passes m ns

-- What one transition does to the mode.
transition_mode :
    (s t : MarketState) (tr : Transition)
    → transition_emergency_state s tr ≡ ok t
    → (same_mode s.state t.state ≡ false)
      × (t.state ≡ active → (s.state ≡ reduce_only) × (tr.recovery_approved ≡ true))
unfolding transition_emergency_state
transition_mode s t tr h = ground arith

-- A run that has left the halted state has passed through the reduce-only state.
run_passes :
    {start s : MarketState} {modes : List Mode}
    → start.state ≡ halted
    → Run start s modes
    → (s.state ≡ halted) ⊎ (passes reduce_only modes ≡ true)
run_passes h here = inl h
run_passes {start} h (next {s} {t} tr r e) =
    ground (arith, run_passes h r, transition_mode s t tr e)

-- However a halted market becomes active again, it has been reduce-only in between.
pub staged_recovery :
    {start s : MarketState} {modes : List Mode}
    → start.state ≡ halted
    → Run start s modes
    → s.state ≡ active
    → passes reduce_only modes ≡ true
staged_recovery h r a = ground (arith, run_passes h r)

-- A market becomes active only from the reduce-only state and only with an approval, and then has
-- no reason; every other new state has the reason that was given, which is not blank.
pub transition_to :
    (s t : MarketState) (tr : Transition)
    → transition_emergency_state s tr ≡ ok t
    → (t.state ≡ active
        → (s.state ≡ reduce_only) × (tr.recovery_approved ≡ true) × (t.reason ≡ none))
      × (t.state ≢ active → (t.reason ≡ some tr.reason) × (is_empty (trim tr.reason) ≡ false))
      × (t.updated_at ≡ some tr.timestamp)
unfolding transition_emergency_state
transition_to s t tr h = ground arith

module _ {N : Type 0} ⦃d : Double N⦄ where
  open d use {le}

  -- In a halted market no order passes; in an active one every order does; in a reduce-only market
  -- an order passes exactly when it is marked reduce-only and the reduction that it asks for is
  -- genuine.
  pub order_passes_iff :
      (s : MarketState) (o : EmergencyOrder N)
      → (validate_emergency_order s o
          ≡ ok (record { state = s.state; reduce_only = o.reduce_only }))
        ↔ ((s.state ≡ active)
            ⊎ ((s.state ≡ reduce_only)
                × (o.reduce_only ≡ true)
                × (is_genuine_risk_reduction o ≡ ok true)))
  unfolding validate_emergency_order check_reduce_only
  order_passes_iff s o = (λ h. ground arith, λ h. ground arith)
