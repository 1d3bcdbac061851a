-- ===== src/Tests/Swap.antt =====
-- The execution of a concrete trade with dex/app/router-sdk.js: its plan, intent and settlement.
use lqc_liquidity_chain.Common.{◌≤◌, ◌≡◌, refl, true, false, none, some, [], ◌∷◌, err}
use lqc_liquidity_chain.Common.Text.{codes}
use lqc_liquidity_chain.Common.Text.{to_lower}
use lqc_liquidity_chain.Common.Fixed.{negsuc}
use lqc_liquidity_chain.Router.Payloads.{Intent, Settlement, Evidence, positive}
use lqc_liquidity_chain.Router.Proofs.{total_in, total_minimum, verify_best_execution_proof}
use lqc_liquidity_chain.Router.ExecutionPlan.{
  LivePlan, same_leg, compare_legs, validate_execution_plan_proof, or_zero, live_expected,
  validate_execution_plan_proof_sound,
}
use lqc_liquidity_chain.Router.Intents.{
  IntentInput, build_execution_intent, verify_execution_intent,
}
use lqc_liquidity_chain.Router.Intents.RoundTrip.{build_execution_intent-verifies}
use lqc_liquidity_chain.Router.Settlements.{
  Execution, delta_bps, build_settlement_receipt, verify_settlement_receipt,
  build_intent_bound_settlement_receipt, verify_intent_bound_settlement_receipt,
}
use lqc_liquidity_chain.Router.Settlements.RoundTrip.{
  build_intent_bound_settlement_receipt-verifies,
}
use lqc_liquidity_chain.Router.Canonical.{
  ChainLog, ChainReceipt, Provider, Decoder, Confirmed, canonical_receipt, is_transfer,
  verify_canonical_settlement,
}
use lqc_liquidity_chain.Router.Canonical.Paid.{Paid, verify_canonical_settlement-Paid}
use lqc_liquidity_chain.Router.Quotes.{
  Snapshot, CurrentQuote, QuotePolicy, validate_execution_quote,
}
use lqc_liquidity_chain.Router.Recovery.Refresh.{
  LeadsOn, proof_errors, quote_errors, checks_lead_on,
}
use lqc_liquidity_chain.Router.Wallet.{exact_approval_amounts}
use lqc_liquidity_chain.Router.Wallet.Approvals.{Serves, exact_approval_amounts-serve}
use lqc_liquidity_chain.Gateway.Requests.{is_lower_hash, is_digest}
use lqc_liquidity_chain.Tests.Router.{hash_zero, hash_a, plain, plain-IsKeccak, proof}

abbrev live_plan : LivePlan
live_plan = record {
  chain_id = 97;
  token_in = codes "T1";
  token_out = codes "t2";
  amount_in = some 50;
  kind = codes "single";
  legs = record { dex_id = hash_a; amount_in = some 50; expected_out = some 101 } ∷ [];
}

validate_execution_plan_proof_sound_example :
    (or_zero (some 9) ≤ 1000)
    × (live_plan.amount_in ≡ some 50)
    × (total_in proof.payload.plan.legs ≡ 50)
    × (99 ≡ total_minimum proof.payload.plan.legs)
    × (99 ≤ live_expected live_plan.legs)
unfolding validate_execution_plan_proof verify_best_execution_proof compare_legs same_leg to_lower
    is_lower_hash is_digest
validate_execution_plan_proof_sound_example =
    validate_execution_plan_proof_sound plain proof live_plan (some 9)
      {v = record {
        proof_hash = hash_zero;
        kind = codes "single";
        legs = 1;
        total_minimum_out = 99;
      }}
      refl

abbrev intent_input : IntentInput
intent_input = record {
  sender = codes "0xAb";
  target = codes "0xcd";
  calldata_hash = hash_a;
  value = some 0;
  nonce = some 4;
  deadline = some 900;
}

abbrev intent : Intent
intent = record {
  payload = record {
    version = 1;
    tag = codes "LQC_EXECUTION_INTENT";
    chain_id = 97;
    proof_hash = hash_zero;
    sender = codes "0xab";
    target = codes "0xcd";
    calldata_hash = hash_a;
    value = some 0;
    nonce = some 4;
    deadline = some 900;
  };
  intent_hash = hash_zero;
}

build_execution_intent-verifies_example : verify_execution_intent plain intent proof ≡ true
unfolding build_execution_intent verify_best_execution_proof to_lower is_lower_hash is_digest
build_execution_intent-verifies_example =
    build_execution_intent-verifies plain plain-IsKeccak proof intent_input {intent = intent} refl
      refl refl

abbrev execution : Execution
execution = record {
  chain_id = 97;
  transaction_hash = hash_a;
  block_hash = hash_zero;
  block_number = some 8;
  recipient = codes "0xee";
  actual_amount_out = some 99;
  status = 1;
  settled_at = some 950;
  sender = codes "0xAB";
  target = codes "0xcd";
  calldata_hash = hash_a;
  value = some 0;
  nonce = some 4;
}

-- One per cent less than expected.
abbrev settlement : Settlement
settlement = record {
  payload = record {
    version = 1;
    tag = codes "LQC_PROOF_TO_SETTLEMENT";
    chain_id = 97;
    proof_hash = hash_zero;
    transaction_hash = hash_a;
    block_hash = hash_zero;
    block_number = some 8;
    settled_at = some 950;
    recipient = codes "0xee";
    token_out = codes "t2";
    expected_amount_out = 100;
    minimum_amount_out = 99;
    actual_amount_out = some 99;
    minimum_satisfied = true;
    execution_delta_bps = negsuc 99;
  };
  settlement_hash = hash_zero;
}

abbrev evidence : Evidence
evidence = record {
  payload = record {
    version = 1;
    tag = codes "LQC_INTENT_BOUND_SETTLEMENT";
    proof_hash = hash_zero;
    intent_hash = hash_zero;
    settlement = settlement;
  };
  evidence_hash = hash_zero;
}

build_intent_bound_settlement_receipt-verifies_example :
    verify_intent_bound_settlement_receipt plain evidence proof intent ≡ true
unfolding build_intent_bound_settlement_receipt build_settlement_receipt verify_execution_intent
    verify_best_execution_proof delta_bps positive to_lower is_lower_hash is_digest
build_intent_bound_settlement_receipt-verifies_example =
    build_intent_bound_settlement_receipt-verifies plain plain-IsKeccak proof intent execution
      {v = evidence} refl refl

-- Every word reads as 99.
abbrev decoder : Decoder
decoder = record {
  id = λ _. codes "transfer";
  zero_pad = λ t. t;
  read_word = λ _. 99;
  is_words = λ _. true;
  read_words = λ _. (false, 50, 99);
}

abbrev transfer : ChainLog
transfer = record {
  address = codes "T2";
  topics = codes "transfer" ∷ codes "0xff" ∷ codes "0xEE" ∷ [];
  log_data = hash_a;
}

abbrev chain_receipt : ChainReceipt
chain_receipt = record {
  status = 1;
  hash = hash_a;
  block_number = 8;
  block_hash = hash_zero;
  logs = transfer ∷ [];
}

abbrev node : Provider
node = record {
  get_transaction_receipt = λ _. some chain_receipt;
  get_block = λ _. some hash_zero;
  block_number = some 10;
}

abbrev confirmed_swap : Confirmed
confirmed_swap = record {
  block_hash = hash_zero;
  confirmations = 3;
  matched = 1;
  decoded_amount_out = 99;
}

verify_canonical_settlement-Paid_example : Paid plain decoder settlement proof node 3 confirmed_swap
unfolding verify_canonical_settlement verify_settlement_receipt canonical_receipt is_transfer
    verify_best_execution_proof delta_bps to_lower is_lower_hash is_digest
verify_canonical_settlement-Paid_example =
    verify_canonical_settlement-Paid plain decoder settlement proof node 3 {c = confirmed_swap} refl

abbrev snapshot : Snapshot
snapshot = record {
  chain_id = some 97;
  block_number = some 7;
  quoted_at = some 1000;
  token_in = codes "t1";
  token_out = codes "t2";
  amount_in = some 50;
  amount_out = some 100;
  minimum_out = some 99;
}

-- Five seconds and two blocks later the price has moved.
abbrev moved_quote : CurrentQuote
moved_quote = record {
  chain_id = some 97;
  block_number = some 9;
  now = some 6000;
  token_in = codes "t1";
  token_out = codes "t2";
  amount_in = some 50;
  amount_out = some 98;
}

abbrev default_policy : QuotePolicy
default_policy = record { max_age_ms = none; max_block_drift = none }

quote_check : validate_execution_quote snapshot moved_quote default_policy ≡ err "QuotePriceMoved"
unfolding validate_execution_quote positive
quote_check = refl

checks_lead_on_example :
    (validate_execution_plan_proof plain proof live_plan (some 1001) ≡ err "StaleProof"
      → LeadsOn proof_errors "StaleProof")
    × (validate_execution_quote snapshot moved_quote default_policy ≡ err "StaleProof"
        → LeadsOn quote_errors "StaleProof")
checks_lead_on_example =
    checks_lead_on plain proof live_plan (some 1001) snapshot moved_quote default_policy
      "StaleProof"

exact_approval_amounts-serve_example : Serves 5 7 (0 ∷ 7 ∷ [])
unfolding exact_approval_amounts positive
exact_approval_amounts-serve_example =
    exact_approval_amounts-serve 5 7 {approvals = 0 ∷ 7 ∷ []} refl
