-- ===== src/Gateway/Evidence.antt =====
-- What the gateway answers passes the check of the SDK: dex/scripts/quote-api-gateway.mjs with
-- dex/app/router-sdk.js.
use lqc_liquidity_chain.Common.{
  ℕ, ◌-◌, ◌≤◌, ◌<◌, ◌≡◌, refl, sym, ap, true, false, ◌||◌, some, [], ◌∷◌, arith, ltb, leb, ◌==◌,
  same_text, same_text_refl, same_text_sound, length, every, Result, ok, required, >>=-eq-ok,
  ok-inj, throw_if-eq-ok,
}
use lqc_liquidity_chain.Common.Text.{Text, codes}
use mathlib.Core.Path.{subst}
use lqc_liquidity_chain.Common.Text.{to_lower, lower_char}
use lqc_liquidity_chain.Router.Payloads.{
  Proof, RequestPayload, QuoteRequest, of_request, Ethers, positive,
}
use lqc_liquidity_chain.Router.Proofs.{verify_best_execution_proof}
use lqc_liquidity_chain.Router.QuoteApi.{
  is_trace, max_uint256, request_payload, ResponseCheck, seal_request, is_bad_trade,
  build_quote_api_request, input_of, is_other_response, is_other_proof, validate_quote_api_response,
}
use lqc_liquidity_chain.Gateway.Requests.{
  is_hex_char, is_digest, is_lower_hash, is_bad_request, validate_canonical_quote_request,
}
use lqc_liquidity_chain.Gateway.State.{Body, ProviderAnswer}
use lqc_liquidity_chain.Gateway.Handler.{is_bad_evidence, outcome_of}

lower_hex-same : (t : Text) → every is_hex_char t ≡ true → to_lower t ≡ t
unfolding to_lower lower_char
lower_hex-same [] h = refl
lower_hex-same (c ∷ cs) h = ground (arith, lower_hex-same cs)

pub lower_hash-same : (t : Text) → is_lower_hash t ≡ true → to_lower t ≡ t
unfolding is_lower_hash is_digest to_lower lower_char
lower_hash-same [] h = refl
lower_hash-same (a ∷ []) h = absurd (ground arith)
lower_hash-same (a ∷ b ∷ digits) h = ground (arith, lower_hex-same digits)

-- A request that passes the gateway's validation.
module _ (e : Ethers) (request : QuoteRequest) (now : ℕ) where
  abbrev IsCanonical : Type 0
  IsCanonical =
      let r = request.payload in
      (r.version ≡ 1)
      × (r.tag ≡ codes "LQC_MULTI_DEX_QUOTE_REQUEST")
      × (r.chain_id ≡ 97)
      × (e.is_address r.token_in ≡ true)
      × (e.is_address r.token_out ≡ true)
      × (to_lower r.token_in ≡ r.token_in)
      × (to_lower r.token_out ≡ r.token_out)
      × (same_text r.token_in r.token_out ≡ false)
      × ((0 < r.amount_in) × (r.amount_in ≤ max_uint256))
      × ((r.requested_at < r.expires_at) × (r.expires_at - r.requested_at ≤ 60000))
      × (r.requested_at ≤ now)
      × (is_trace r.client_request_id ≡ true)
      × (is_lower_hash request.request_hash ≡ true)
      × (to_lower (e.keccak_json (of_request r)) ≡ request.request_hash)

  validate-IsCanonical : validate_canonical_quote_request e request now ≡ ok tt → IsCanonical
  unfolding validate_canonical_quote_request
  validate-IsCanonical h =
      let r = request.payload in
      let (good, r₁) = throw_if-eq-ok (is_bad_request e request now) "INVALID_REQUEST" _ h in
      (
        ground arith,
        same_text_sound r.tag (codes "LQC_MULTI_DEX_QUOTE_REQUEST") (ground arith),
        ground arith,
        ground arith,
        ground arith,
        sym (same_text_sound r.token_in (to_lower r.token_in) (ground arith)),
        sym (same_text_sound r.token_out (to_lower r.token_out) (ground arith)),
        ground arith,
        (ground arith, ground arith),
        (ground arith, ground arith),
        ground arith,
        ground arith,
        ground arith,
        same_text_sound _ request.request_hash (ground arith),
      )

payload-same :
    (r : RequestPayload)
    → r.version ≡ 1
    → r.tag ≡ codes "LQC_MULTI_DEX_QUOTE_REQUEST"
    → r.chain_id ≡ 97
    → to_lower r.token_in ≡ r.token_in
    → to_lower r.token_out ≡ r.token_out
    → request_payload (input_of r) r.amount_in r.requested_at r.expires_at ≡ r
payload-same r version tag chain token_in token_out = ground arith

is_bad_trade-false :
    (e : Ethers) (request : QuoteRequest) (now : ℕ)
    → IsCanonical e request now
    → is_bad_trade e (input_of request.payload) ≡ false
is_bad_trade-false e request now
      (_, _, chain, in_ok, out_ok, in_low, out_low, apart, _, _, _, _, _, _) =
    rw (chain, in_ok, out_ok, in_low, out_low, apart) refl

-- A canonical request is built again as it is.
rebuilt-same :
    (e : Ethers) (request : QuoteRequest) (now : ℕ)
    → IsCanonical e request now
    → build_quote_api_request e (input_of request.payload) ≡ ok (seal_request e request.payload)
unfolding build_quote_api_request positive
rebuilt-same e request now c =
    let r = request.payload in
    let (version, tag, chain, _, _, in_low, out_low, _, amount, time, _, trace, _, _) = c in
    let same = payload-same r version tag chain in_low out_low in
    let good = is_bad_trade-false e request now c in
    let no_zero : (r.amount_in == 0) ≡ false = ground arith in
    let no_more : ltb max_uint256 r.amount_in ≡ false = ground arith in
    let window : (leb r.expires_at r.requested_at || ltb 60000 (r.expires_at - r.requested_at))
        ≡ false =
      ground arith in
    rw (good, no_zero, no_more, window, trace) (ap (λ q. ok (seal_request e q)) same)

abbrev check_of : QuoteRequest → Proof → ResponseCheck
check_of request proof = record {
  request_hash = to_lower request.request_hash;
  proof_hash = to_lower proof.proof_hash;
  candidate_count = length proof.payload.candidates;
  expires_at = proof.payload.expires_at;
}

evidence-other_proof :
    (e : Ethers) (request : QuoteRequest) (hash : Text) (proof : Proof) (at : ℕ)
    → is_bad_evidence (verify_best_execution_proof e) request hash proof at ≡ false
    → (is_other_proof e request.payload proof at ≡ false) × (at ≤ request.payload.expires_at)
evidence-other_proof e request hash proof at h = (ground arith, ground arith)

module _ (e : Ethers) (hex : (t : Text) → is_lower_hash t ≡ true → e.is_hash t ≡ true) where
  context-same :
      (request : QuoteRequest) (proof : Proof) (now at : ℕ)
      → IsCanonical e request now
      → now ≤ at
      → at ≤ request.payload.expires_at
      → is_other_response e request
          (record { request_hash = request.request_hash; proof = proof })
          (some at)
        ≡ false
  context-same request proof now at c later fresh =
      let (_, _, _, _, _, _, _, _, _, _, started, _, lower, _) = c in
      let printed = hex request.request_hash lower in
      let same = lower_hash-same request.request_hash lower in
      let early : ltb at request.payload.requested_at ≡ false = ground arith in
      let late : ltb request.payload.expires_at at ≡ false = ground arith in
      rw (printed, same, same_text_refl request.request_hash, early, late) refl

  response-accepted :
      (request : QuoteRequest) (hash : Text) (proof : Proof) (now at : ℕ)
      → IsCanonical e request now
      → now ≤ at
      → is_bad_evidence (verify_best_execution_proof e) request hash proof at ≡ false
      → validate_quote_api_response e request
          (record { request_hash = request.request_hash; proof = proof })
          (some at)
        ≡ ok (check_of request proof)
  unfolding validate_quote_api_response
  response-accepted request hash proof now at c later good =
      let (_, _, _, _, _, _, _, _, _, _, _, _, lower, hashed) = c in
      let (right_proof, fresh) = evidence-other_proof e request hash proof at good in
      let same = lower_hash-same request.request_hash lower in
      rw
        (
          context-same request proof now at c later fresh,
          rebuilt-same e request now c,
          hashed,
          same,
          same_text_refl request.request_hash,
          right_proof,
        )
        refl

  -- What the provider answered, once the gateway has let it through, is accepted by the SDK that sent
  -- the request, at the moment of the gateway's check: where the request passed the gateway's
  -- validation when it came, at a moment not after that one, the gateway verifies proofs as the SDK
  -- does, and a hash in lower case is one to the library.
  pub outcome-accepted :
      (request : QuoteRequest) (now verified_at : ℕ) (trace : Text) (answer : Result ProviderAnswer)
      {body : Body}
      → now ≤ verified_at
      → validate_canonical_quote_request e request now ≡ ok tt
      → outcome_of (verify_best_execution_proof e) request trace verified_at answer ≡ ok body
      → (check : ResponseCheck) × (validate_quote_api_response e request
            (record { request_hash = body.request_hash; proof = body.proof })
            (some verified_at)
          ≡ ok check)
        × (check.expires_at ≡ body.proof.payload.expires_at)
  unfolding outcome_of
  outcome-accepted request now verified_at trace answer {body} later valid h =
      let c = validate-IsCanonical e request now valid in
      let (result, _, r₁) = >>=-eq-ok answer _ h in
      let (proof, _, r₂) = >>=-eq-ok (required result.proof "INVALID_QUOTE_EVIDENCE") _ r₁ in
      let bad =
        is_bad_evidence (verify_best_execution_proof e) request result.request_hash proof
          verified_at in
      let (good, r₃) = throw_if-eq-ok bad "INVALID_QUOTE_EVIDENCE" _ r₂ in
      let accepted =
        response-accepted request result.request_hash proof now verified_at c later good in
      subst
        (λ (b : Body).
          (check : ResponseCheck) × (validate_quote_api_response e request
              (record { request_hash = b.request_hash; proof = b.proof }) (some verified_at)
            ≡ ok check)
          × (check.expires_at ≡ b.proof.payload.expires_at))
        (ok-inj r₃) (check_of request proof, accepted, refl)
