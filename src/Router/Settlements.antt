-- ===== src/Router/Settlements.antt =====
-- Settlement receipts and the evidence that binds them to an intent (dex/app/router-sdk.js).
pub mod RoundTrip
use lqc_liquidity_chain.Common.{
  ℕ, ◌-◌, ◌*◌, ◌/◌, Bool, true, false, not, ◌&&◌, ◌||◌, Option, none, some, leb, ◌==◌,
  if◌then◌else◌, same_text, Result, ok, ◌>>=◌, ◌>>◌, throw_if,
}
use lqc_liquidity_chain.Common.Text.{Text, codes}
use lqc_liquidity_chain.Common.Text.{to_lower}
use lqc_liquidity_chain.Common.Fixed.{ℤ, pos, sub_ℕ, eq_ℤ}
use lqc_liquidity_chain.Router.Payloads.{
  Proof, Intent, SettlementPayload, Settlement, EvidencePayload, Evidence, of_settlement,
  of_evidence, Ethers, same_lower, positive,
}
use lqc_liquidity_chain.Router.Proofs.{verify_best_execution_proof}
use lqc_liquidity_chain.Router.Intents.{verify_execution_intent}

-- What a wallet reports of a transaction. A number is `none` where the field holds no integer of at
-- least zero.
pub record Execution : Type 0 where
  pub chain_id : ℕ
  pub transaction_hash : Text
  pub block_hash : Text
  pub block_number : Option ℕ
  pub recipient : Text
  pub actual_amount_out : Option ℕ
  pub status : ℕ
  pub settled_at : Option ℕ
  pub sender : Text
  pub target : Text
  pub calldata_hash : Text
  pub value : Option ℕ
  pub nonce : Option ℕ

-- `Number((actual - expected) * 10000n / expected)`, which is cut off towards zero.
unfoldable pub delta_bps : ℕ → ℕ → ℤ
delta_bps actual expected =
    if leb expected actual
    then pos ((actual - expected) * 10000 / expected)
    else sub_ℕ 0 ((expected - actual) * 10000 / expected)

abbrev pub is_from : Option ℕ → ℕ → Bool
is_from none bound = false
is_from (some n) bound = leb bound n

abbrev pub is_by : Option ℕ → ℕ → Bool
is_by none bound = false
is_by (some n) bound = not (n == 0) && leb n bound

-- `a === b` for numbers that may be missing.
abbrev pub same_number : Option ℕ → Option ℕ → Bool
same_number none none = true
same_number (some a) (some b) = a == b
same_number _ _ = false

module _ (e : Ethers) where
  abbrev pub seal_settlement : SettlementPayload → Settlement
  seal_settlement payload = record {
    payload = payload;
    settlement_hash = e.keccak_json (of_settlement payload);
  }

  abbrev pub is_other_context : Proof → Execution → Bool
  is_other_context proof x =
      not (x.chain_id == proof.payload.chain_id)
      || not (e.is_hash x.transaction_hash)
      || not (e.is_hash x.block_hash)
      || not (is_from x.block_number proof.payload.quote_block)

  abbrev pub settlement_payload : Proof → Execution → ℕ → SettlementPayload
  settlement_payload proof x actual =
      let plan = proof.payload.plan in
      record {
        version = 1;
        tag = codes "LQC_PROOF_TO_SETTLEMENT";
        chain_id = proof.payload.chain_id;
        proof_hash = to_lower proof.proof_hash;
        transaction_hash = to_lower x.transaction_hash;
        block_hash = to_lower x.block_hash;
        block_number = x.block_number;
        settled_at = x.settled_at;
        recipient = to_lower x.recipient;
        token_out = proof.payload.token_out;
        expected_amount_out = plan.expected_out;
        minimum_amount_out = plan.minimum_out;
        actual_amount_out = some actual;
        minimum_satisfied = leb plan.minimum_out actual;
        execution_delta_bps =
            if actual == plan.expected_out then pos 0 else delta_bps actual plan.expected_out;
      }

  -- A division by an expected amount of zero throws.
  unfoldable pub build_settlement_receipt : Proof → Execution → Result Settlement
  build_settlement_receipt proof x = do
    throw_if (not (verify_best_execution_proof e proof)) "Invalid best execution proof"
    throw_if (is_other_context proof x) "Invalid settlement context"
    throw_if (not (e.is_address x.recipient)) "Invalid settlement result"
    actual ← positive x.actual_amount_out "Invalid settlement result"
    throw_if (not (x.status == 1)) "Invalid settlement result"
    throw_if (not (is_by x.settled_at proof.payload.expires_at)) "Settlement outside proof validity"
    let plan = proof.payload.plan
    throw_if (not (actual == plan.expected_out) && plan.expected_out == 0) "Division by zero"
    throw_if (not (leb plan.minimum_out actual)) "Settlement violates minimum output"
    ok (seal_settlement (settlement_payload proof x actual))

  abbrev pub is_amount_of : SettlementPayload → Option ℕ → Bool
  is_amount_of r none = false
  is_amount_of r (some actual) =
      leb r.minimum_amount_out actual
      && not (r.expected_amount_out == 0)
      && eq_ℤ r.execution_delta_bps (delta_bps actual r.expected_amount_out)

  unfoldable pub verify_settlement_receipt : Settlement → Proof → Bool
  verify_settlement_receipt receipt proof =
      let r = receipt.payload in
      let p = proof.payload in
      verify_best_execution_proof e proof
      && e.is_hash receipt.settlement_hash
      && same_text r.proof_hash (to_lower proof.proof_hash)
      && same_text r.tag (codes "LQC_PROOF_TO_SETTLEMENT")
      && r.version == 1
      && r.chain_id == p.chain_id
      && same_text r.token_out p.token_out
      && r.expected_amount_out == p.plan.expected_out
      && r.minimum_amount_out == p.plan.minimum_out
      && r.minimum_satisfied
      && e.is_hash r.transaction_hash
      && e.is_hash r.block_hash
      && e.is_address r.recipient
      && is_from r.block_number p.quote_block
      && is_by r.settled_at p.expires_at
      && is_amount_of r r.actual_amount_out
      && same_lower (e.keccak_json (of_settlement r)) receipt.settlement_hash

  abbrev pub is_other_execution : Intent → Execution → Bool
  is_other_execution intent x =
      let p = intent.payload in
      not (same_text (to_lower x.sender) p.sender)
      || not (same_text (to_lower x.target) p.target)
      || not (same_text (to_lower x.calldata_hash) p.calldata_hash)
      || not (same_number x.value p.value)
      || not (same_number x.nonce p.nonce)

  abbrev pub seal_evidence : EvidencePayload → Evidence
  seal_evidence payload = record {
    payload = payload;
    evidence_hash = e.keccak_json (of_evidence payload);
  }

  abbrev pub evidence_payload : Proof → Intent → Settlement → EvidencePayload
  evidence_payload proof intent settlement = record {
    version = 1;
    tag = codes "LQC_INTENT_BOUND_SETTLEMENT";
    proof_hash = to_lower proof.proof_hash;
    intent_hash = to_lower intent.intent_hash;
    settlement = settlement;
  }

  unfoldable pub build_intent_bound_settlement_receipt :
      Proof → Intent → Execution → Result Evidence
  build_intent_bound_settlement_receipt proof intent x = do
    throw_if (not (verify_execution_intent e intent proof) || is_other_execution intent x)
        "Execution does not match intent"
    settlement ← build_settlement_receipt proof x
    ok (seal_evidence (evidence_payload proof intent settlement))

  unfoldable pub verify_intent_bound_settlement_receipt : Evidence → Proof → Intent → Bool
  verify_intent_bound_settlement_receipt evidence proof intent =
      let p = evidence.payload in
      verify_execution_intent e intent proof
      && same_text p.proof_hash (to_lower proof.proof_hash)
      && same_text p.intent_hash (to_lower intent.intent_hash)
      && verify_settlement_receipt p.settlement proof
      && e.is_hash evidence.evidence_hash
      && p.version == 1
      && same_text p.tag (codes "LQC_INTENT_BOUND_SETTLEMENT")
      && same_lower (e.keccak_json (of_evidence p)) evidence.evidence_hash
