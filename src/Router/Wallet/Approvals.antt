-- ===== src/Router/Wallet/Approvals.antt =====
-- What the approvals do to an allowance (exactApprovalAmounts of dex/app/router-sdk.js).
use lqc_liquidity_chain.Common.{
  ℕ, ◌≤◌, ◌<◌, ◌≡◌, refl, sym, ◌⊎◌, inl, inr, Bool, true, false, ◌||◌, Option, none, some, List, [],
  ◌∷◌, arith, leb, ◌==◌, if◌then◌else◌, ok, >>=-eq-ok, ok-inj,
}
use mathlib.Core.Path.{subst}
use lqc_liquidity_chain.Router.Payloads.{positive, positive-eq-ok}
use lqc_liquidity_chain.Router.Wallet.{requires_token_approval, exact_approval_amounts}

-- A token that refuses to change an allowance from one amount above zero to another: the allowance
-- after the approvals, where all of them are accepted.
abbrev approve_all : ℕ → List ℕ → Option ℕ
approve_all allowance [] = some allowance
approve_all allowance (amount ∷ amounts) =
    if allowance == 0 || amount == 0 then approve_all amount amounts else none

-- The allowance serves the amount, and is the amount or what it was.
abbrev pub Serves : ℕ → ℕ → List ℕ → Type 0
Serves allowance amount approvals =
    (after : ℕ) × (approve_all allowance approvals ≡ some after)
    × (amount ≤ after)
    × ((after ≡ amount) ⊎ (after ≡ allowance))
    × (requires_token_approval (some after) (some amount) ≡ ok false)

asks_no_more :
    (after amount : ℕ)
    → 0 < amount
    → amount ≤ after
    → requires_token_approval (some after) (some amount) ≡ ok false
unfolding requires_token_approval positive
asks_no_more after amount h le = ground arith

approvals-Serve :
    (allowance amount : ℕ) (enough free : Bool)
    → 0 < amount
    → leb amount allowance ≡ enough
    → (allowance == 0) ≡ free
    → Serves allowance amount (if enough then [] else if free then amount ∷ [] else 0 ∷ amount ∷ [])
approvals-Serve allowance amount true free h e z =
    let le : amount ≤ allowance = ground arith in
    (allowance, refl, le, inr refl, asks_no_more allowance amount h le)
approvals-Serve allowance amount false true h e z =
    (amount, ground arith, omega arith, inl refl, asks_no_more amount amount h (omega arith))
approvals-Serve allowance amount false false h e z =
    (amount, ground arith, omega arith, inl refl, asks_no_more amount amount h (omega arith))

some-inj : {A : Type 0} {a b : A} → some a ≡ some b → a ≡ b
some-inj h = ground arith

-- Every approval is accepted by a token that changes an allowance only from or to zero; and after
-- them the allowance serves the amount without another approval, and is exactly the amount unless it
-- was enough before.
pub exact_approval_amounts-serve :
    (allowance amount : ℕ) {approvals : List ℕ}
    → exact_approval_amounts (some allowance) (some amount) ≡ ok approvals
    → Serves allowance amount approvals
unfolding exact_approval_amounts
exact_approval_amounts-serve allowance amount {approvals} h =
    let (n, ep, r) = >>=-eq-ok (positive (some amount) "Invalid approval state") _ h in
    let (same, pos) = positive-eq-ok (some amount) "Invalid approval state" ep in
    let chosen = approvals-Serve allowance n (leb n allowance) (allowance == 0) pos refl refl in
    let same_amount : n ≡ amount = some-inj (sym same) in
    subst (λ k. Serves allowance k approvals) same_amount
      (subst (Serves allowance n) (ok-inj r) chosen)
