-- ===== src/Router/Intents/RoundTrip.antt =====
-- What is built from a proof of best execution passes its verification (dex/app/router-sdk.js).
use lqc_liquidity_chain.Common.{
  ◌≡◌, refl, sym, true, arith, same_text_refl, ok, >>=-eq-ok, ok-inj, throw_if-eq-ok,
}
use lqc_liquidity_chain.Common.Text.{Text, codes}
use mathlib.Core.Path.{subst}
use lqc_liquidity_chain.Common.Text.{to_lower, to_lower_twice}
use lqc_liquidity_chain.Router.Payloads.{
  ProofPayload, Proof, Intent, of_proof, of_intent, Ethers, IsKeccak,
}
use lqc_liquidity_chain.Router.Proofs.{
  seal_proof, ProofInput, verify_best_execution_proof, build_best_execution_proof,
}
use lqc_liquidity_chain.Router.Proofs.Best.{build_best_execution_proof-IsBest}
use lqc_liquidity_chain.Router.Intents.{
  IntentInput, seal_intent, intent_payload, is_invalid_intent, build_execution_intent,
  verify_execution_intent, Typed, CanonicalIntent, TypedData, execution_intent_typed_data,
  execution_intent_typed_data_hash, canonical_execution_intent, verify_canonical_execution_intent,
}

module _ (e : Ethers) (laws : IsKeccak e) where
  open laws use {keccak_is_hash, is_hash_lower}

  -- What is sealed with its hash passes the verification.
  pub seal_proof-verifies :
      (p : ProofPayload) → verify_best_execution_proof e (seal_proof e p) ≡ true
  unfolding verify_best_execution_proof
  seal_proof-verifies p =
      ground
        (arith, keccak_is_hash (of_proof p), same_text_refl (to_lower (e.keccak_json (of_proof p))))

  pub build_best_execution_proof-verifies :
      (i : ProofInput) {p : Proof}
      → build_best_execution_proof e i ≡ ok p
      → verify_best_execution_proof e p ≡ true
  build_best_execution_proof-verifies i {p} h =
      let (sealed, _, _, _, _) = build_best_execution_proof-IsBest e i h in
      subst (λ q. verify_best_execution_proof e q ≡ true) (sym sealed)
        (seal_proof-verifies p.payload)

  -- An intent that is built for a proof passes the verification against it, where the addresses it
  -- was given are still addresses in lower case.
  pub build_execution_intent-verifies :
      (p : Proof) (i : IntentInput) {intent : Intent}
      → e.is_address (to_lower i.sender) ≡ true
      → e.is_address (to_lower i.target) ≡ true
      → build_execution_intent e p i ≡ ok intent
      → verify_execution_intent e intent p ≡ true
  unfolding build_execution_intent verify_execution_intent
  build_execution_intent-verifies p i {intent} sender target h =
      let payload = intent_payload e p i in
      let (guards, r) = throw_if-eq-ok (is_invalid_intent e p i) "Invalid execution intent" _ h in
      let facts : verify_execution_intent e (seal_intent e payload) p ≡ true = ground (
        arith,
        keccak_is_hash (of_intent payload),
        is_hash_lower i.calldata_hash,
        same_text_refl (to_lower p.proof_hash),
        same_text_refl (to_lower (e.keccak_json (of_intent payload))),
      ) in
      subst (λ x. verify_execution_intent e x p ≡ true) (ok-inj r) facts

  canonical-verifies :
      (t : Typed) (c : CanonicalIntent) (contract : Text)
      → c.hash_scheme ≡ codes "EIP712_V1"
      → to_lower c.verifying_contract ≡ to_lower contract
      → c.typed_data_hash ≡ c.intent_hash
      → e.is_hash c.intent_hash ≡ true
      → execution_intent_typed_data_hash e t c.payload contract ≡ ok c.intent_hash
      → verify_canonical_execution_intent e t c contract ≡ true
  unfolding verify_canonical_execution_intent
  canonical-verifies t c contract scheme for_contract one_hash printed known =
      rw (scheme, for_contract, one_hash, printed, known)
        (ground (
          arith,
          same_text_refl (codes "EIP712_V1"),
          same_text_refl (to_lower contract),
          same_text_refl (to_lower c.intent_hash),
        ))

  -- A canonical intent, whose hash the library prints as one, passes the verification for the
  -- contract it was made for.
  canonical_execution_intent-verifies :
      (t : Typed) (i : Intent) (contract : Text) {c : CanonicalIntent}
      → ((d : TypedData) → e.is_hash (t.typed_hash d) ≡ true)
      → canonical_execution_intent e t i.payload contract ≡ ok c
      → verify_canonical_execution_intent e t c contract ≡ true
  unfolding canonical_execution_intent execution_intent_typed_data_hash
  canonical_execution_intent-verifies t i contract {c} hashes h =
      let known = execution_intent_typed_data_hash e t i.payload contract in
      let (hash, eh, r) = >>=-eq-ok known _ h in
      let (typed, _, r') = >>=-eq-ok (execution_intent_typed_data e t i.payload contract) _ eh in
      let printed : e.is_hash hash ≡ true =
        subst (λ x. e.is_hash x ≡ true) (ok-inj r') (hashes typed) in
      let made : CanonicalIntent = record {
        payload = i.payload;
        intent_hash = hash;
        typed_data_hash = hash;
        hash_scheme = codes "EIP712_V1";
        verifying_contract = to_lower contract;
      } in
      subst (λ x. verify_canonical_execution_intent e t x contract ≡ true) (ok-inj r)
        (canonical-verifies t made contract refl (to_lower_twice contract) refl printed eh)
