-- ===== src/Router/Settlements/RoundTrip.antt =====
-- What is built of an execution passes its verification, and says what it gave (dex/app/router-sdk.js).
use lqc_liquidity_chain.Common.{
  ℕ, ◌-◌, ◌*◌, ◌/◌, ◌<◌, ◌≡◌, refl, inl, inr, true, false, not, ◌&&◌, ◌||◌, arith, leb, ◌==◌,
  if◌then◌else◌, ==_iff, ==_refl, Bool-cases, same_text_refl, ok, >>=-eq-ok, ok-inj, throw_if-eq-ok,
}
use mathlib.Core.Path.{subst}
use lqc_liquidity_chain.Common.Text.{to_lower}
use lqc_liquidity_chain.Common.Fixed.{ℤ, pos, eq_ℤ}
use lqc_liquidity_chain.Router.Payloads.{
  Proof, Intent, Settlement, Evidence, of_settlement, of_evidence, Ethers, IsKeccak, positive,
  positive-eq-ok,
}
use lqc_liquidity_chain.Router.Proofs.{verify_best_execution_proof}
use lqc_liquidity_chain.Router.Intents.{verify_execution_intent}
use lqc_liquidity_chain.Router.Settlements.{
  Execution, delta_bps, is_by, seal_settlement, is_other_context, settlement_payload,
  build_settlement_receipt, verify_settlement_receipt, is_other_execution, seal_evidence,
  evidence_payload, build_intent_bound_settlement_receipt, verify_intent_bound_settlement_receipt,
}

eq_ℤ_refl : (z : ℤ) → eq_ℤ z z ≡ true
eq_ℤ_refl z = ground arith

delta_self : (n : ℕ) → 0 < n → delta_bps n n ≡ pos 0
unfolding delta_bps
delta_self n h =
    let nothing : (n - n) * 10000 ≡ 0 = omega arith in
    let zero_part : 0 / n ≡ 0 = omega arith in
    let quotient : (n - n) * 10000 / n ≡ 0 = rw nothing zero_part in ground arith

-- The delta that is written is the one that is computed again.
delta_same :
    (actual expected : ℕ)
    → 0 < actual
    → (not (actual == expected) && expected == 0) ≡ false
    → (not (expected == 0) ≡ true)
      × (eq_ℤ
            (if actual == expected then pos 0 else delta_bps actual expected)
            (delta_bps actual expected)
          ≡ true)
unfolding delta_bps
delta_same actual expected h nz = elim (Bool-cases (actual == expected)) [
  | inl e ↦
      let same : actual ≡ expected = (==_iff actual expected).0 e in
      (
        ground arith,
        subst
            (λ n.
              eq_ℤ (if actual == n then pos 0 else delta_bps actual n) (delta_bps actual n) ≡ true)
            same (rw (==_refl actual, delta_self actual h) refl),
      )
  | inr e ↦ (ground arith, rw e (eq_ℤ_refl (delta_bps actual expected)))
]

module _ (e : Ethers) (laws : IsKeccak e) where
  open laws use {keccak_is_hash, is_hash_lower}

  pub build_settlement_receipt-verifies :
      (p : Proof) (x : Execution) {s : Settlement}
      → e.is_address (to_lower x.recipient) ≡ true
      → build_settlement_receipt e p x ≡ ok s
      → verify_settlement_receipt e s p ≡ true
  unfolding build_settlement_receipt verify_settlement_receipt
  build_settlement_receipt-verifies p x {s} recipient h =
      let plan = p.payload.plan in
      let (proved, r₁) =
        throw_if-eq-ok (not (verify_best_execution_proof e p)) "Invalid best execution proof" _ h in
      let (context, r₂) =
        throw_if-eq-ok (is_other_context e p x) "Invalid settlement context" _ r₁ in
      let (_, r₃) =
        throw_if-eq-ok (not (e.is_address x.recipient)) "Invalid settlement result" _ r₂ in
      let (actual, ea, r₄) =
        >>=-eq-ok (positive x.actual_amount_out "Invalid settlement result") _ r₃ in
      let (_, r₅) = throw_if-eq-ok (not (x.status == 1)) "Invalid settlement result" _ r₄ in
      let (time, r₆) =
        throw_if-eq-ok (not (is_by x.settled_at p.payload.expires_at))
          "Settlement outside proof validity" _ r₅ in
      let (divides, r₇) =
        throw_if-eq-ok (not (actual == plan.expected_out) && plan.expected_out == 0)
          "Division by zero" _ r₆ in
      let (enough, r₈) =
        throw_if-eq-ok (not (leb plan.minimum_out actual)) "Settlement violates minimum output" _
          r₇ in
      let payload = settlement_payload e p x actual in
      let (_, positive_out) = positive-eq-ok x.actual_amount_out "Invalid settlement result" ea in
      let (divisor, delta) = delta_same actual plan.expected_out positive_out divides in
      let facts : verify_settlement_receipt e (seal_settlement e payload) p ≡ true = ground (
        arith,
        keccak_is_hash (of_settlement payload),
        is_hash_lower x.transaction_hash,
        is_hash_lower x.block_hash,
        same_text_refl (to_lower p.proof_hash),
        same_text_refl p.payload.token_out,
        same_text_refl (to_lower (e.keccak_json (of_settlement payload))),
      ) in
      subst (λ w. verify_settlement_receipt e w p ≡ true) (ok-inj r₈) facts

  -- Evidence that is built for an execution of an intent passes its verification against the proof and
  -- the intent, where the recipient's address is still one in lower case.
  pub build_intent_bound_settlement_receipt-verifies :
      (p : Proof) (i : Intent) (x : Execution) {v : Evidence}
      → e.is_address (to_lower x.recipient) ≡ true
      → build_intent_bound_settlement_receipt e p i x ≡ ok v
      → verify_intent_bound_settlement_receipt e v p i ≡ true
  unfolding build_intent_bound_settlement_receipt verify_intent_bound_settlement_receipt
  build_intent_bound_settlement_receipt-verifies p i x {v} recipient h =
      let mismatch = not (verify_execution_intent e i p) || is_other_execution e i x in
      let (same, r₁) = throw_if-eq-ok mismatch "Execution does not match intent" _ h in
      let (settlement, es, r₂) = >>=-eq-ok (build_settlement_receipt e p x) _ r₁ in
      let payload = evidence_payload e p i settlement in
      let facts : verify_intent_bound_settlement_receipt e (seal_evidence e payload) p i ≡ true =
        ground (
          arith,
          build_settlement_receipt-verifies p x recipient es,
          keccak_is_hash (of_evidence payload),
          same_text_refl (to_lower p.proof_hash),
          same_text_refl (to_lower i.intent_hash),
          same_text_refl (to_lower (e.keccak_json (of_evidence payload))),
        ) in
      subst (λ w. verify_intent_bound_settlement_receipt e w p i ≡ true) (ok-inj r₂) facts
