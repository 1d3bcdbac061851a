-- ===== src/Router/ExecutionPlan.antt =====
-- `validateExecutionPlanProof` of dex/app/router-sdk.js.
use lqc_liquidity_chain.Common.{
  ℕ, ◌+◌, ◌≤◌, ◌≡◌, sym, ap, ◌∙◌, Bool, true, false, not, ◌&&◌, ◌||◌, Option, none, some, List, [],
  ◌∷◌, arith, ltb, leb, ◌==◌, ==_iff, same_text, length, Result, ok, err, ◌>>=◌, ◌>>◌, throw_if,
  required, >>=-eq-ok, ok-inj, required-eq-some, not-false, throw_if-eq-ok,
}
use lqc_liquidity_chain.Common.Text.{Text}
use lqc_liquidity_chain.Common.Text.{to_lower}
use lqc_liquidity_chain.Router.Payloads.{Leg, ProofPayload, Proof, Ethers}
use lqc_liquidity_chain.Router.Proofs.{total_in, total_minimum, verify_best_execution_proof}
use mathlib.Core.Path.{subst}

-- An amount is `none` where it is no bigint of at least zero.
pub record LiveLeg : Type 0 where
  pub dex_id : Text
  pub amount_in : Option ℕ
  pub expected_out : Option ℕ

pub record LivePlan : Type 0 where
  pub chain_id : ℕ
  pub token_in : Text
  pub token_out : Text
  pub amount_in : Option ℕ
  pub kind : Text
  pub legs : List LiveLeg

pub record PlanCheck : Type 0 where
  pub proof_hash : Text
  pub kind : Text
  pub legs : ℕ
  pub total_minimum_out : ℕ

-- `typeof value === 'bigint' && value.toString() === printed`
abbrev pub is_amount : Option ℕ → ℕ → Bool
is_amount none printed = false
is_amount (some value) printed = value == printed

abbrev pub or_zero : Option ℕ → ℕ
or_zero none = 0
or_zero (some n) = n

abbrev at_least : Option ℕ → ℕ → Bool
at_least none bound = false
at_least (some value) bound = leb bound value

-- One round of the loop over the legs.
unfoldable pub same_leg : LiveLeg → Leg → Bool
same_leg live committed =
    same_text (to_lower live.dex_id) committed.dex_id
    && is_amount live.amount_in committed.amount_in
    && at_least live.expected_out committed.minimum_out

-- The loop, with the sums of the inputs and of the committed minimums.
unfoldable pub compare_legs : List LiveLeg → List Leg → Result (ℕ × ℕ)
unfolding same_leg
compare_legs [] [] = ok (0, 0)
compare_legs (live ∷ lives) (committed ∷ rest) = do
  throw_if (not (same_leg live committed)) "ProofRouteChanged"
  sums ← compare_legs lives rest
  ok (or_zero live.amount_in + sums.0, committed.minimum_out + sums.1)
compare_legs _ _ = err "ProofRouteChanged"

abbrev is_other_trade : LivePlan → ProofPayload → Bool
is_other_trade current p =
    not (current.chain_id == p.chain_id)
    || not (same_text (to_lower current.token_in) p.token_in)
    || not (same_text (to_lower current.token_out) p.token_out)
    || not (is_amount current.amount_in p.amount_in)

abbrev is_other_route : LivePlan → ProofPayload → Bool
is_other_route current p =
    not (same_text current.kind p.plan.kind) || not (length current.legs == length p.plan.legs)

unfoldable pub validate_execution_plan_proof :
    Ethers → Proof → LivePlan → Option ℕ → Result PlanCheck
validate_execution_plan_proof e proof current now = do
  throw_if (not (verify_best_execution_proof e proof)) "InvalidBestExecutionProof"
  time ← required now "InvalidBestExecutionProof"
  let p = proof.payload
  throw_if (ltb p.expires_at time) "StaleProof"
  throw_if (is_other_trade current p) "ProofTradeChanged"
  throw_if (is_other_route current p) "ProofRouteChanged"
  sums ← compare_legs current.legs p.plan.legs
  throw_if (not (is_amount current.amount_in sums.0)) "ProofRouteChanged"
  ok (record {
    proof_hash = to_lower proof.proof_hash;
    kind = current.kind;
    legs = length current.legs;
    total_minimum_out = sums.1;
  })

-- What the live legs are expected to give.
abbrev pub live_expected : List LiveLeg → ℕ
live_expected [] = 0
live_expected (l ∷ ls) = or_zero l.expected_out + live_expected ls

same_leg-amounts :
    (l : LiveLeg) (k : Leg)
    → same_leg l k ≡ true
    → (or_zero l.amount_in ≡ k.amount_in) × (k.minimum_out ≤ or_zero l.expected_out)
unfolding same_leg
same_leg-amounts l k h = ground arith

some-inj : {A : Type 0} {a b : A} → some a ≡ some b → a ≡ b
some-inj h = ground arith

pub is_amount-some : (o : Option ℕ) (n : ℕ) → is_amount o n ≡ true → o ≡ some n
is_amount-some none n h = absurd (ground arith)
is_amount-some (some k) n h = ap some ((==_iff k n).0 h)

compare_legs-eq-ok :
    (lives : List LiveLeg) (legs : List Leg) {sums : ℕ × ℕ}
    → compare_legs lives legs ≡ ok sums
    → (sums.0 ≡ total_in legs) × (sums.1 ≡ total_minimum legs) × (sums.1 ≤ live_expected lives)
unfolding compare_legs same_leg
compare_legs-eq-ok [] [] h = ground arith
compare_legs-eq-ok [] (k ∷ ks) h = absurd (ground arith)
compare_legs-eq-ok (l ∷ ls) [] h = absurd (ground arith)
compare_legs-eq-ok (l ∷ ls) (k ∷ ks) {sums} h =
    let (same, r₁) = throw_if-eq-ok (not (same_leg l k)) "ProofRouteChanged" _ h in
    let (rest, er, r₂) = >>=-eq-ok (compare_legs ls ks) _ r₁ in
    let (inputs, minimums, below) = compare_legs-eq-ok ls ks er in
    let (same_in, enough) = same_leg-amounts l k (not-false _ same) in
    let ends : (or_zero l.amount_in + rest.0 ≡ total_in (k ∷ ks))
        × (k.minimum_out + rest.1 ≡ total_minimum (k ∷ ks))
        × (k.minimum_out + rest.1 ≤ live_expected (l ∷ ls)) =
      (omega arith, omega arith, omega arith) in
    subst
      (λ (s : ℕ × ℕ).
        (s.0 ≡ total_in (k ∷ ks)) × (s.1 ≡ total_minimum (k ∷ ks)) × (s.1 ≤ live_expected (l ∷ ls)))
      (ok-inj r₂) ends

other_trade-amount :
    (c : LivePlan) (p : ProofPayload) → is_other_trade c p ≡ false → c.amount_in ≡ some p.amount_in
other_trade-amount c p h = is_amount-some c.amount_in p.amount_in (ground arith)

-- A plan that is let through has not expired; the live amount is the proof's and is what the proof's
-- legs take; the minimum that is enforced is the sum of the legs' minimums, and the live legs are
-- expected to give at least that.
pub validate_execution_plan_proof_sound :
    (e : Ethers) (p : Proof) (c : LivePlan) (now : Option ℕ) {v : PlanCheck}
    → validate_execution_plan_proof e p c now ≡ ok v
    → (or_zero now ≤ p.payload.expires_at)
      × (c.amount_in ≡ some p.payload.amount_in)
      × (total_in p.payload.plan.legs ≡ p.payload.amount_in)
      × (v.total_minimum_out ≡ total_minimum p.payload.plan.legs)
      × (v.total_minimum_out ≤ live_expected c.legs)
unfolding validate_execution_plan_proof
validate_execution_plan_proof_sound e p c now {v} h =
    let (_, r₁) =
      throw_if-eq-ok (not (verify_best_execution_proof e p)) "InvalidBestExecutionProof" _ h in
    let (time, et, r₂) = >>=-eq-ok (required now "InvalidBestExecutionProof") _ r₁ in
    let (fresh, r₃) = throw_if-eq-ok (ltb p.payload.expires_at time) "StaleProof" _ r₂ in
    let (trade, r₄) = throw_if-eq-ok (is_other_trade c p.payload) "ProofTradeChanged" _ r₃ in
    let (_, r₅) = throw_if-eq-ok (is_other_route c p.payload) "ProofRouteChanged" _ r₄ in
    let (sums, es, r₆) = >>=-eq-ok (compare_legs c.legs p.payload.plan.legs) _ r₅ in
    let (whole, r₇) =
      throw_if-eq-ok (not (is_amount c.amount_in sums.0)) "ProofRouteChanged" _ r₆ in
    let (inputs, minimums, below) = compare_legs-eq-ok c.legs p.payload.plan.legs es in
    let amount = other_trade-amount c p.payload trade in
    let total = is_amount-some c.amount_in sums.0 (not-false _ whole) in
    let in_time : time ≤ p.payload.expires_at = ground arith in
    let known : now ≡ some time = required-eq-some now "InvalidBestExecutionProof" et in
    let same_total : p.payload.amount_in ≡ sums.0 = some-inj (sym amount ∙ total) in
    let ends =
      subst
        (λ (w : PlanCheck).
          (w.total_minimum_out ≡ total_minimum p.payload.plan.legs)
          × (w.total_minimum_out ≤ live_expected c.legs))
        (ok-inj r₇) (minimums, below) in
    (
      subst (λ o. or_zero o ≤ p.payload.expires_at) (sym known) in_time,
      amount,
      sym (same_total ∙ inputs),
      ends.0,
      ends.1,
    )
