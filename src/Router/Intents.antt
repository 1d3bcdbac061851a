-- ===== src/Router/Intents.antt =====
-- `buildExecutionIntent`, `verifyExecutionIntent` and the EIP-712 intents of dex/app/router-sdk.js.
pub mod RoundTrip
use lqc_liquidity_chain.Common.{
  ℕ, Bool, true, false, not, ◌&&◌, ◌||◌, Option, none, some, leb, ◌==◌, same_text, Result, ok, err,
  ◌>>=◌, ◌>>◌, throw_if, required,
}
use lqc_liquidity_chain.Common.Text.{Text, codes}
use lqc_liquidity_chain.Common.Text.{to_lower}
use lqc_liquidity_chain.Router.Payloads.{
  Proof, IntentPayload, Intent, of_intent, Ethers, same_lower, positive,
}
use lqc_liquidity_chain.Router.Proofs.{verify_best_execution_proof}

-- A number is `none` where the field holds no integer of at least zero.
pub record IntentInput : Type 0 where
  pub sender : Text
  pub target : Text
  pub calldata_hash : Text
  pub value : Option ℕ
  pub nonce : Option ℕ
  pub deadline : Option ℕ

-- The domain and the message of the typed data; the types are constants.
pub record TypedData : Type 0 where
  pub chain_id : ℕ
  pub verifying_contract : Text
  pub proof_hash : Text
  pub sender : Text
  pub target : Text
  pub calldata_hash : Text
  pub value : ℕ
  pub nonce : ℕ
  pub deadline : ℕ

pub record CanonicalIntent : Type 0 where
  pub payload : IntentPayload
  pub intent_hash : Text
  pub typed_data_hash : Text
  pub hash_scheme : Text
  pub verifying_contract : Text

-- More of the library: `ZeroAddress`, `isHexString(t, 65)`, `TypedDataEncoder.hash`, and
-- `verifyTypedData`, which is `none` where it throws.
pub record Typed : Type 0 where
  pub zero_address : Text
  pub is_signature : Text → Bool
  pub typed_hash : TypedData → Text
  pub verify_typed_data : TypedData → Text → Option Text

abbrev pub is_some : Option ℕ → Bool
is_some none = false
is_some (some n) = true

abbrev pub is_within : Option ℕ → ℕ → Bool
is_within none bound = false
is_within (some n) bound = not (n == 0) && leb n bound

module _ (e : Ethers) where
  abbrev pub seal_intent : IntentPayload → Intent
  seal_intent payload = record {
    payload = payload;
    intent_hash = e.keccak_json (of_intent payload);
  }

  abbrev pub intent_payload : Proof → IntentInput → IntentPayload
  intent_payload proof i = record {
    version = 1;
    tag = codes "LQC_EXECUTION_INTENT";
    chain_id = proof.payload.chain_id;
    proof_hash = to_lower proof.proof_hash;
    sender = to_lower i.sender;
    target = to_lower i.target;
    calldata_hash = to_lower i.calldata_hash;
    value = i.value;
    nonce = i.nonce;
    deadline = i.deadline;
  }

  abbrev pub is_invalid_intent : Proof → IntentInput → Bool
  is_invalid_intent proof i =
      not (verify_best_execution_proof e proof)
      || not (e.is_address i.sender)
      || not (e.is_address i.target)
      || not (e.is_hash i.calldata_hash)
      || not (is_some i.value)
      || not (is_some i.nonce)
      || not (is_within i.deadline proof.payload.expires_at)

  unfoldable pub build_execution_intent : Proof → IntentInput → Result Intent
  build_execution_intent proof i = do
    throw_if (is_invalid_intent proof i) "Invalid execution intent"
    ok (seal_intent (intent_payload proof i))

  unfoldable pub verify_execution_intent : Intent → Proof → Bool
  verify_execution_intent intent proof =
      let p = intent.payload in
      verify_best_execution_proof e proof
      && e.is_hash intent.intent_hash
      && same_text p.proof_hash (to_lower proof.proof_hash)
      && p.version == 1
      && same_text p.tag (codes "LQC_EXECUTION_INTENT")
      && p.chain_id == proof.payload.chain_id
      && e.is_address p.sender
      && e.is_address p.target
      && e.is_hash p.calldata_hash
      && is_some p.nonce
      && is_within p.deadline proof.payload.expires_at
      && is_some p.value
      && same_lower (e.keccak_json (of_intent p)) intent.intent_hash

  module _ (t : Typed) where
    unfoldable pub execution_intent_typed_data : IntentPayload → Text → Result TypedData
    execution_intent_typed_data p contract = do
      throw_if
          (not (e.is_address contract)
            || same_lower contract t.zero_address
            || not (e.is_address p.sender)
            || not (e.is_address p.target)
            || not (e.is_hash p.proof_hash)
            || not (e.is_hash p.calldata_hash)
            || p.chain_id == 0)
          "Invalid EIP-712 execution intent"
      nonce ← required p.nonce "Invalid EIP-712 execution intent"
      deadline ← positive p.deadline "Invalid EIP-712 execution intent"
      value ← required p.value "Invalid EIP-712 execution intent"
      ok (record {
        chain_id = p.chain_id;
        verifying_contract = to_lower contract;
        proof_hash = p.proof_hash;
        sender = p.sender;
        target = p.target;
        calldata_hash = p.calldata_hash;
        value = value;
        nonce = nonce;
        deadline = deadline;
      })

    unfoldable pub execution_intent_typed_data_hash : IntentPayload → Text → Result Text
    execution_intent_typed_data_hash p contract =
        execution_intent_typed_data p contract >>= λ typed. ok (t.typed_hash typed)

    unfoldable pub canonical_execution_intent : IntentPayload → Text → Result CanonicalIntent
    canonical_execution_intent p contract = do
      hash ← execution_intent_typed_data_hash p contract
      ok (record {
        payload = p;
        intent_hash = hash;
        typed_data_hash = hash;
        hash_scheme = codes "EIP712_V1";
        verifying_contract = to_lower contract;
      })

    abbrev hashes_to : Result Text → Text → Bool
    hashes_to (err code) hash = false
    hashes_to (ok h) hash = same_lower h hash

    unfoldable pub verify_canonical_execution_intent : CanonicalIntent → Text → Bool
    verify_canonical_execution_intent c contract =
        same_text c.hash_scheme (codes "EIP712_V1")
        && same_lower c.verifying_contract contract
        && e.is_hash c.intent_hash
        && e.is_hash c.typed_data_hash
        && same_lower c.intent_hash c.typed_data_hash
        && hashes_to (execution_intent_typed_data_hash c.payload contract) c.intent_hash

    abbrev is_signer : Option Text → Text → Bool
    is_signer none sender = false
    is_signer (some signer) sender = same_lower signer sender

    unfoldable pub verify_execution_intent_signature : IntentPayload → Text → Text → Bool
    verify_execution_intent_signature p contract signature =
        t.is_signature signature && elim (execution_intent_typed_data p contract) [
          | err _ ↦ false
          | ok typed ↦ is_signer (t.verify_typed_data typed signature) p.sender
        ]
