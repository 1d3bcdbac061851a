-- ===== src/Router/Recovery/Refresh.antt =====
-- What a user is told when a check before execution fails (dex/app/router-sdk.js).
use lqc_liquidity_chain.Common.{
  ℕ, ◌≡◌, refl, ◌⊎◌, inl, inr, Bool, true, false, Option, none, some, List, [], ◌∷◌, String, ◌==◌,
  Result, ok, err, ◌>>=◌, throw_if, required,
}
use lqc_liquidity_chain.Common.Text.{to_upper}
use mathlib.Core.Path.{subst}
use lqc_liquidity_chain.Common.Text.{to_lower}
use lqc_liquidity_chain.Router.Payloads.{Proof, Ethers, positive}
use lqc_liquidity_chain.Router.ExecutionPlan.{
  LiveLeg, LivePlan, compare_legs, validate_execution_plan_proof,
}
use lqc_liquidity_chain.Router.Quotes.{
  Snapshot, CurrentQuote, QuotePolicy, validate_execution_quote,
}
use lqc_liquidity_chain.Router.Recovery.{
  refresh_quote, review, explain_swap_error, includes, recovery_action_for_error, thrown,
}

-- What an error leads to: a new quote, or a review of what was given where that is invalid.
abbrev pub LeadsOn : List String → String → Type 0
LeadsOn [] message = recovery_action_for_error (thrown message) ≡ refresh_quote
LeadsOn (invalid ∷ more) message =
    ((message ≡ invalid) × (recovery_action_for_error (thrown message) ≡ review))
    ⊎ LeadsOn more message

module _ (invalid : List String) where
  abbrev Refreshes {ℓ} : {A : Type ℓ} → Result A → Type 0
  Refreshes (ok a) = Unit
  Refreshes (err message) = LeadsOn invalid message

  Refreshes-throw_if :
      (b : Bool) (message : String) → LeadsOn invalid message → Refreshes (throw_if b message)
  Refreshes-throw_if true message m = m
  Refreshes-throw_if false message m = tt

  Refreshes->>= {ℓ κ} :
      {A : Type ℓ} {B : Type κ} (first : Result A) (rest : A → Result B)
      → Refreshes first
      → ((a : A) → Refreshes (rest a))
      → Refreshes (first >>= rest)
  Refreshes->>= (err message) rest m h = m
  Refreshes->>= (ok a) rest m h = h a

  Refreshes-required {ℓ} :
      {A : Type ℓ} (o : Option A) (message : String)
      → LeadsOn invalid message
      → Refreshes (required o message)
  Refreshes-required none message m = m
  Refreshes-required (some a) message m = tt

  Refreshes-positive :
      (o : Option ℕ) (message : String) → LeadsOn invalid message → Refreshes (positive o message)
  unfolding positive
  Refreshes-positive none message m = m
  Refreshes-positive (some n) message m =
      Refreshes->>= (throw_if (n == 0) message) _ (Refreshes-throw_if (n == 0) message m) λ _. tt

abbrev pub proof_errors : List String
proof_errors = "InvalidBestExecutionProof" ∷ []

abbrev pub quote_errors : List String
quote_errors = "Invalid quote validation" ∷ "Invalid quote amounts" ∷ "Invalid quote context" ∷ []

invalid_proof_leads : LeadsOn proof_errors "InvalidBestExecutionProof"
unfolding recovery_action_for_error explain_swap_error includes to_lower to_upper
invalid_proof_leads = inl (refl, refl)

stale_proof_leads : LeadsOn proof_errors "StaleProof"
unfolding recovery_action_for_error explain_swap_error includes to_lower to_upper
stale_proof_leads = inr refl

trade_changed_leads : LeadsOn proof_errors "ProofTradeChanged"
unfolding recovery_action_for_error explain_swap_error includes to_lower to_upper
trade_changed_leads = inr refl

route_changed_leads : LeadsOn proof_errors "ProofRouteChanged"
unfolding recovery_action_for_error explain_swap_error includes to_lower to_upper
route_changed_leads = inr refl

invalid_quote_leads : LeadsOn quote_errors "Invalid quote validation"
unfolding recovery_action_for_error explain_swap_error includes to_lower to_upper
invalid_quote_leads = inl (refl, refl)

invalid_amounts_leads : LeadsOn quote_errors "Invalid quote amounts"
unfolding recovery_action_for_error explain_swap_error includes to_lower to_upper
invalid_amounts_leads = inr (inl (refl, refl))

invalid_context_leads : LeadsOn quote_errors "Invalid quote context"
unfolding recovery_action_for_error explain_swap_error includes to_lower to_upper
invalid_context_leads = inr (inr (inl (refl, refl)))

quote_changed_leads : LeadsOn quote_errors "QuoteTradeChanged"
unfolding recovery_action_for_error explain_swap_error includes to_lower to_upper
quote_changed_leads = inr (inr (inr refl))

stale_quote_leads : LeadsOn quote_errors "StaleQuote"
unfolding recovery_action_for_error explain_swap_error includes to_lower to_upper
stale_quote_leads = inr (inr (inr refl))

price_moved_leads : LeadsOn quote_errors "QuotePriceMoved"
unfolding recovery_action_for_error explain_swap_error includes to_lower to_upper
price_moved_leads = inr (inr (inr refl))

ruleset refresh_rules = (
  Refreshes->>=, Refreshes-throw_if, Refreshes-required, Refreshes-positive, invalid_proof_leads,
  stale_proof_leads, trade_changed_leads, route_changed_leads, invalid_quote_leads,
  invalid_amounts_leads, invalid_context_leads, quote_changed_leads, stale_quote_leads,
  price_moved_leads,
)

compare_legs-Refreshes :
    (lives : List LiveLeg) (legs : _) → Refreshes proof_errors (compare_legs lives legs)
unfolding compare_legs
compare_legs-Refreshes [] [] = tt
compare_legs-Refreshes [] (k ∷ ks) = route_changed_leads
compare_legs-Refreshes (l ∷ ls) [] = route_changed_leads
compare_legs-Refreshes (l ∷ ls) (k ∷ ks) = search (refresh_rules, compare_legs-Refreshes ls ks)

plan-Refreshes :
    (e : Ethers) (p : Proof) (c : LivePlan) (now : Option ℕ)
    → Refreshes proof_errors (validate_execution_plan_proof e p c now)
unfolding validate_execution_plan_proof
plan-Refreshes e p c now = search (refresh_rules, compare_legs-Refreshes) depth 12

quote-Refreshes :
    (s : Snapshot) (c : CurrentQuote) (policy : QuotePolicy)
    → Refreshes quote_errors (validate_execution_quote s c policy)
unfolding validate_execution_quote
quote-Refreshes s c policy = search refresh_rules depth 24

Refreshes-eq-err :
    (invalid : List String) {A : Type 0} (r : Result A) {message : String}
    → Refreshes invalid r
    → r ≡ err message
    → LeadsOn invalid message
Refreshes-eq-err invalid r h e = subst (Refreshes invalid) e h

-- Whatever makes the check of a proof, or of a quote, before execution fail, the user is told to ask
-- for a new quote, unless what was given is invalid, which is to be reviewed: never to retry, to
-- switch the network or to add gas.
pub checks_lead_on :
    (e : Ethers) (p : Proof) (live : LivePlan) (now : Option ℕ) (s : Snapshot) (c : CurrentQuote)
    (policy : QuotePolicy) (message : String)
    → (validate_execution_plan_proof e p live now ≡ err message → LeadsOn proof_errors message)
      × (validate_execution_quote s c policy ≡ err message → LeadsOn quote_errors message)
checks_lead_on e p live now s c policy message = (
  Refreshes-eq-err proof_errors _ (plan-Refreshes e p live now),
  Refreshes-eq-err quote_errors _ (quote-Refreshes s c policy),
)
