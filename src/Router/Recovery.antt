-- ===== src/Router/Recovery.antt =====
-- `explainSwapError` and `recoveryActionForError` of dex/app/router-sdk.js.
pub mod Refresh
use lqc_liquidity_chain.Common.{
  ◌≡◌, refl, Bool, true, false, ◌&&◌, ◌||◌, List, [], ◌∷◌, String, ◌==◌, if◌then◌else◌, same_text,
}
use lqc_liquidity_chain.Common.Text.{Text, codes, to_upper}
use lqc_liquidity_chain.Common.Text.{to_lower}

pub data SwapErrorCode : Type 0 where
  user_rejected insufficient_gas stale_quote price_moved no_route risk_blocked : SwapErrorCode
  approval_required route_changed simulation_failed network_error unknown : SwapErrorCode

pub data RecoveryAction : Type 0 where
  refresh_quote switch_network retry add_test_gas review : RecoveryAction

-- The code and the message that are found first; the explanations for the user are left out.
pub record SwapError : Type 0 where
  pub code : Text
  pub message : Text

unfoldable pub starts_with : Text → Text → Bool
starts_with text [] = true
starts_with [] (c ∷ cs) = false
starts_with (t ∷ ts) (c ∷ cs) = t == c && starts_with ts cs

-- `text.includes(part)`
unfoldable pub includes : Text → Text → Bool
unfolding starts_with
includes [] part = starts_with [] part
includes (t ∷ ts) part = starts_with (t ∷ ts) part || includes ts part

abbrev includes_any : Text → List String → Bool
includes_any text [] = false
includes_any text (part ∷ parts) = includes text (codes part) || includes_any text parts

unfoldable pub explain_swap_error : SwapError → SwapErrorCode
explain_swap_error error =
    let code = to_upper error.code in
    let message = to_lower error.message in
    if same_text code (codes "ACTION_REJECTED")
      || includes_any message ("user rejected" ∷ "user denied" ∷ [])
    then user_rejected
    else if same_text code (codes "INSUFFICIENT_FUNDS")
        || includes_any message ("insufficient funds" ∷ [])
    then insufficient_gas
    else if includes_any message ("stalequote" ∷ "staleproof" ∷ "quotetradechanged" ∷ [])
    then stale_quote
    else if includes_any message
        ("quotepricemoved" ∷ "insufficientoutput" ∷ "too little received" ∷ "slippage" ∷ [])
    then price_moved
    else if includes_any message
        ("novalidquote" ∷ "noexecutableroute" ∷ "no approved" ∷ "liquidity" ∷ [])
    then no_route
    else if includes_any message ("paused" ∷ "limit" ∷ "cap" ∷ "unsupportedtoken" ∷ [])
    then risk_blocked
    else if includes_any message ("allowance" ∷ "approve" ∷ [])
    then approval_required
    else if includes_any message
        ("routechangedduringapproval" ∷ "proofroutechanged" ∷ "prooftradechanged" ∷ [])
    then route_changed
    else if same_text code (codes "CALL_EXCEPTION")
        || includes_any message ("execution reverted" ∷ "missing revert data" ∷ [])
    then simulation_failed
    else if same_text code (codes "NETWORK_ERROR")
        || includes_any message ("network" ∷ "chain" ∷ [])
    then network_error
    else unknown

-- `retryable` of the explanation
unfoldable pub is_retryable : SwapErrorCode → Bool
is_retryable risk_blocked = false
is_retryable _ = true

abbrev action_for : SwapErrorCode → RecoveryAction
action_for stale_quote = refresh_quote
action_for price_moved = refresh_quote
action_for no_route = refresh_quote
action_for route_changed = refresh_quote
action_for network_error = switch_network
action_for approval_required = retry
action_for user_rejected = retry
action_for insufficient_gas = add_test_gas
action_for _ = review

unfoldable pub recovery_action_for_error : SwapError → RecoveryAction
recovery_action_for_error error = action_for (explain_swap_error error)

-- An `Error` that is thrown with a message has no code.
abbrev pub thrown : String → SwapError
thrown message = record { code = []; message = codes message }

stale_check : recovery_action_for_error (thrown "StaleQuote") ≡ refresh_quote
unfolding recovery_action_for_error explain_swap_error includes to_lower to_upper
stale_check = refl
