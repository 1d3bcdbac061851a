-- ===== src/Tests/Gateway.antt =====
-- Two clients' requests through dex/scripts/quote-api-gateway.mjs and its client.
use lqc_liquidity_chain.Common.{
  ℕ, zero, ◌≤◌, ◌≡◌, refl, ◌↔◌, true, false, none, some, [], ◌∷◌, arith, Result, ok, err,
}
use lqc_liquidity_chain.Common.Dict.{erase}
use lqc_liquidity_chain.Common.Text.{Text, codes, is_space}
use lqc_liquidity_chain.Common.Text.{to_lower}
use lqc_liquidity_chain.Router.Payloads.{QuoteRequest}
use lqc_liquidity_chain.Router.Proofs.{verify_best_execution_proof}
use lqc_liquidity_chain.Router.QuoteApi.{
  is_trace, is_trace_char, ResponseCheck, validate_quote_api_response,
}
use lqc_liquidity_chain.Gateway.Requests.{
  Client, GatewayPolicy, check_policy, is_digest, is_lower_hash, is_client_id, same_digest,
  find_client, bearer_key, authenticate, validate_canonical_quote_request,
}
use lqc_liquidity_chain.Gateway.State.{
  Body, success, answered, reported, caught, drop_expired_entries,
}
use lqc_liquidity_chain.Gateway.Handler.{
  replay_key, retraced, admit, attempt, arrive, outcome_of, finish,
}
use lqc_liquidity_chain.Gateway.Accounting.{IsBalanced}
use lqc_liquidity_chain.Gateway.Capacity.{Fits}
use lqc_liquidity_chain.Gateway.Health.{status_of, health, validate_quote_api_health}
use lqc_liquidity_chain.Gateway.Reached.{
  System, initial, arrived, arrives, finishes, Reach, here, next, Reach-IsSound,
}
use lqc_liquidity_chain.Gateway.Reports.{health-valid_iff}
use lqc_liquidity_chain.Gateway.Evidence.{outcome-accepted, lower_hash-same}
use lqc_liquidity_chain.Gateway.Replay.{finish-replays}
use lqc_liquidity_chain.Gateway.Client.{ClientPolicy, Fetched, reply, unreachable, quote}
use lqc_liquidity_chain.Gateway.Client.Retries.{IsFor, quote-ends}
use lqc_liquidity_chain.Tests.Router.{hash_zero, plain, proof}

abbrev digest_zero : Text
digest_zero = codes "0000000000000000000000000000000000000000000000000000000000000000"

abbrev wallet_client : Client
wallet_client = record { id = codes "wallet"; key_digest = digest_zero }

-- Every key has the digest of zeros.
abbrev zero_digest : Text → Text
zero_digest = λ _. digest_zero

-- One completed request may be kept, and two may be in flight.
abbrev small_policy : GatewayPolicy
small_policy = record {
  clients = wallet_client ∷ [];
  limit = 5;
  window_ms = 60000;
  provider_timeout_ms = 5000;
  max_in_flight = 2;
  max_completed_entries = 1;
}

abbrev request_of : Text → QuoteRequest
request_of id = record {
  payload = record {
    version = 1;
    tag = codes "LQC_MULTI_DEX_QUOTE_REQUEST";
    chain_id = 97;
    token_in = codes "t1";
    token_out = codes "t2";
    amount_in = 50;
    requested_at = 900;
    expires_at = 2000;
    client_request_id = id;
  };
  request_hash = hash_zero;
}

abbrev request_one : QuoteRequest
request_one = request_of (codes "r1")

abbrev request_two : QuoteRequest
request_two = request_of (codes "r2")

abbrev bearer : Text
bearer = codes "Bearer secret"

abbrev trace_one : Text
trace_one = codes "trace"

abbrev body_one : Body
body_one = record { request_hash = hash_zero; proof = proof; trace_id = trace_one }

abbrev with_one : System
with_one =
    arrived
      (arrive plain small_policy zero_digest true bearer request_one trace_one [] 950
        initial.gateway)
      initial

abbrev with_two : System
with_two =
    arrived
      (arrive plain small_policy zero_digest true bearer request_two trace_one [] 951
        with_one.gateway)
      with_one

abbrev after_one : System
after_one = record {
  gateway =
      (finish (replay_key (codes "wallet") (codes "r1")) request_one trace_one (ok body_one)
        with_two.gateway).1;
  waiting = 1;
}

abbrev after_two : System
after_two = record {
  gateway =
      (finish (replay_key (codes "wallet") (codes "r2")) request_two trace_one (ok body_one)
        after_one.gateway).1;
  waiting = 0;
}

after_two-Reach : Reach plain small_policy zero_digest after_two
unfolding arrive finish attempt admit authenticate find_client bearer_key same_digest
    validate_canonical_quote_request caught reported drop_expired_entries is_trace is_trace_char
    is_digest is_lower_hash to_lower is_space
after_two-Reach =
    next
      (next
        (next (next here (arrives true bearer request_one trace_one [] 950 (omega arith) refl))
          (arrives true bearer request_two trace_one [] 951 (omega arith) refl))
        (finishes (replay_key (codes "wallet") (codes "r1")) request_one trace_one (ok body_one)
          refl refl refl))
      (finishes (replay_key (codes "wallet") (codes "r2")) request_two trace_one (ok body_one) refl
        refl refl)

Reach-IsSound_example : IsBalanced 0 after_two.gateway × Fits small_policy after_two.gateway
Reach-IsSound_example =
    Reach-IsSound plain small_policy zero_digest after_two (omega arith) after_two-Reach

-- The two requests were both let in while nothing was kept yet: now two are kept, one above the bound,
-- and the gateway refuses its own report.
own_report_refused :
    validate_quote_api_health (health small_policy 990 after_two.gateway).0 990 60000
    ≡ err "Invalid quote API health"
unfolding validate_quote_api_health health status_of arrive finish attempt admit authenticate
    find_client bearer_key same_digest validate_canonical_quote_request caught reported
    drop_expired_entries is_trace is_trace_char is_digest is_lower_hash to_lower is_space
own_report_refused = refl

health-valid_iff_example :
    let report = (health small_policy 990 after_two.gateway).0 in
    (validate_quote_api_health report 990 60000 ≡ ok report) ↔ (report.completed ≤ 1)
unfolding check_policy is_client_id is_trace_char is_digest
health-valid_iff_example =
    health-valid_iff plain small_policy zero_digest after_two 990 refl after_two-Reach

plain-hex : (t : Text) → is_lower_hash t ≡ true → plain.is_hash t ≡ true
plain-hex t h = rw (lower_hash-same t h) h

outcome-accepted_example :
    (check : ResponseCheck) × (validate_quote_api_response plain request_one
        (record { request_hash = hash_zero; proof = proof })
        (some 960)
      ≡ ok check)
    × (check.expires_at ≡ 1000)
unfolding outcome_of verify_best_execution_proof validate_canonical_quote_request is_trace
    is_trace_char is_digest is_lower_hash to_lower
outcome-accepted_example =
    outcome-accepted plain plain-hex request_one 950 960 trace_one
      (ok (record { request_hash = hash_zero; proof = some proof })) {body = body_one} (omega arith)
      refl refl

finish-replays_example :
    let key = replay_key (codes "wallet") (codes "r1") in
    let (first, after) = finish key request_one trace_one (ok body_one) with_one.gateway in
    let again =
      arrive plain small_policy zero_digest true bearer request_one [] (codes "new") 960 after in
    (first ≡ success body_one false)
    × (again.0 ≡ answered (success (retraced (codes "new") body_one) true))
    × (again.1.usage ≡ with_one.gateway.usage)
    × (again.1.in_flight ≡ erase key with_one.gateway.in_flight)
unfolding authenticate find_client bearer_key same_digest validate_canonical_quote_request is_trace
    is_trace_char is_digest is_lower_hash to_lower is_space
finish-replays_example =
    finish-replays plain small_policy zero_digest true bearer wallet_client request_one trace_one []
      (codes "new") body_one 960 with_one.gateway refl refl (omega arith)

abbrev client_policy : ClientPolicy
client_policy = record {
  is_https = true;
  has_extras = false;
  api_key = codes "0123456789abcdef";
  timeout_ms = 5000;
  max_retries = 1;
  retry_delay_ms = 100;
  max_response_bytes = 262144;
  max_health_age_ms = 60000;
}

-- The service is not reached at first.
abbrev second_time : ℕ → Fetched Body
second_time zero = unreachable
second_time _ = reply 200 body_one none false

quote-ends_example :
    (result : Result Body) × (quote plain client_policy
        (λ _ _. true)
        (λ _. 950)
        second_time
        960
        request_one
      ≡ some result)
    × ((body : Body) → result ≡ ok body → IsFor request_one body 960 × (true ≡ true))
quote-ends_example =
    quote-ends plain client_policy (λ _ _. true) (λ _. 950) second_time 960 request_one
