-- ===== src/Router/Payloads.antt =====
-- What dex/app/router-sdk.js hashes, and what it takes from the library ethers.
use lqc_liquidity_chain.Common.{
  ℕ, ◌-◌, ◌<◌, ◌≡◌, Bool, true, Option, none, some, List, arith, String, ltb, ◌==◌, if◌then◌else◌,
  same_text, Result, ok, err, ◌>>◌, throw_if,
}
use lqc_liquidity_chain.Common.Text.{Text}
use lqc_liquidity_chain.Common.Text.{to_lower}
use lqc_liquidity_chain.Common.Fixed.{ℤ}

-- Amounts are bigints; the decimal strings that a payload holds are the numbers they print.
pub record Leg : Type 0 where
  pub dex_id : Text
  pub amount_in : ℕ
  pub expected_out : ℕ
  pub minimum_out : ℕ

pub record Candidate : Type 0 where
  pub dex_id : Text
  pub name : Text
  pub amount_out : ℕ
  pub cost : ℕ
  pub net_amount_out : ℕ
  pub price_impact_bps : ℕ
  pub route_data_hash : Text

pub record Plan : Type 0 where
  pub kind : Text
  pub legs : List Leg
  pub expected_out : ℕ
  pub minimum_out : ℕ
  pub cost : ℕ
  pub net_amount_out : ℕ

pub record ProofPayload : Type 0 where
  pub version : ℕ
  pub tag : Text
  pub chain_id : ℕ
  pub quote_block : ℕ
  pub expires_at : ℕ
  pub token_in : Text
  pub token_out : Text
  pub amount_in : ℕ
  pub slippage_bps : ℕ
  pub plan : Plan
  pub best_dex_id : Text
  pub best_net_amount_out : ℕ
  pub improvement_bps : ℕ
  pub candidates : List Candidate

pub record Proof : Type 0 where
  pub payload : ProofPayload
  pub proof_hash : Text

-- A field is `none` where it holds nothing that reads as an integer of at least zero.
pub record IntentPayload : Type 0 where
  pub version : ℕ
  pub tag : Text
  pub chain_id : ℕ
  pub proof_hash : Text
  pub sender : Text
  pub target : Text
  pub calldata_hash : Text
  pub value : Option ℕ
  pub nonce : Option ℕ
  pub deadline : Option ℕ

pub record Intent : Type 0 where
  pub payload : IntentPayload
  pub intent_hash : Text

pub record SettlementPayload : Type 0 where
  pub version : ℕ
  pub tag : Text
  pub chain_id : ℕ
  pub proof_hash : Text
  pub transaction_hash : Text
  pub block_hash : Text
  pub block_number : Option ℕ
  pub settled_at : Option ℕ
  pub recipient : Text
  pub token_out : Text
  pub expected_amount_out : ℕ
  pub minimum_amount_out : ℕ
  pub actual_amount_out : Option ℕ
  pub minimum_satisfied : Bool
  pub execution_delta_bps : ℤ

pub record Settlement : Type 0 where
  pub payload : SettlementPayload
  pub settlement_hash : Text

pub record EvidencePayload : Type 0 where
  pub version : ℕ
  pub tag : Text
  pub proof_hash : Text
  pub intent_hash : Text
  pub settlement : Settlement

pub record Evidence : Type 0 where
  pub payload : EvidencePayload
  pub evidence_hash : Text

pub record RequestPayload : Type 0 where
  pub version : ℕ
  pub tag : Text
  pub chain_id : ℕ
  pub token_in : Text
  pub token_out : Text
  pub amount_in : ℕ
  pub requested_at : ℕ
  pub expires_at : ℕ
  pub client_request_id : Text

pub record QuoteRequest : Type 0 where
  pub payload : RequestPayload
  pub request_hash : Text

-- What is hashed: an object whose fields stand in the order of its record.
pub data Payload : Type 0 where
  of_proof : ProofPayload → Payload
  of_intent : IntentPayload → Payload
  of_settlement : SettlementPayload → Payload
  of_evidence : EvidencePayload → Payload
  of_request : RequestPayload → Payload

-- The library: `isAddress(t)`, `isHexString(t, 32)`, `keccak256(toUtf8Bytes(JSON.stringify(p)))`.
pub record Ethers : Type 0 where
  pub is_address : Text → Bool
  pub is_hash : Text → Bool
  pub keccak_json : Payload → Text

-- A hash is printed as 32 bytes in hexadecimal, in lower case; and hexadecimal may be written in
-- either case.
pub record IsKeccak (e : Ethers) : Type 0 where
  pub keccak_is_hash : (p : Payload) → e.is_hash (e.keccak_json p) ≡ true
  pub keccak_lower : (p : Payload) → to_lower (e.keccak_json p) ≡ e.keccak_json p
  pub is_hash_lower : (t : Text) → e.is_hash t ≡ true → e.is_hash (to_lower t) ≡ true

-- `a.toLowerCase() === b.toLowerCase()`
abbrev pub same_lower : Text → Text → Bool
same_lower a b = same_text (to_lower a) (to_lower b)

-- A bigint above zero.
unfoldable pub positive : Option ℕ → String → Result ℕ
positive none code = err code
positive (some n) code = throw_if (n == 0) code >> ok n

pub positive-eq-ok :
    (o : Option ℕ) (code : String) {n : ℕ} → positive o code ≡ ok n → (o ≡ some n) × (0 < n)
unfolding positive
positive-eq-ok none code h = absurd (ground arith)
positive-eq-ok (some n) code h = ground arith

-- What an amount leaves after a cost: nothing where the cost is not below it.
abbrev pub net_of : ℕ → ℕ → ℕ
net_of amount cost = if ltb cost amount then amount - cost else 0
