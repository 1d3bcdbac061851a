-- ===== src/Gateway/Health.antt =====
-- The health and the capabilities of dex/scripts/quote-api-gateway.mjs, and their validation.
use lqc_liquidity_chain.Common.{
  ℕ, ◌+◌, ◌-◌, ◌*◌, ◌≡◌, refl, Bool, true, false, not, ◌&&◌, ◌||◌, List, [], ◌∷◌, leb, ◌==◌,
  if◌then◌else◌, same_text, length, Result, ok, ◌>>◌, throw_if,
}
use lqc_liquidity_chain.Common.Text.{Text, codes}
use lqc_liquidity_chain.Common.Text.{has_text}
use lqc_liquidity_chain.Gateway.Requests.{GatewayPolicy, is_outside}
use lqc_liquidity_chain.Gateway.State.{Metrics, Gateway, purge}

pub data HealthStatus : Type 0 where
  healthy degraded busy : HealthStatus

-- A health report has exactly these fields; its numbers are safe integers of at least zero.
pub record Health : Type 0 where
  pub schema_version : ℕ
  pub tag : Text
  pub status : HealthStatus
  pub checked_at : ℕ
  pub in_flight : ℕ
  pub max_in_flight : ℕ
  pub completed : ℕ
  pub max_completed_entries : ℕ
  pub provider_timeout_ms : ℕ
  pub rate_limit : ℕ
  pub rate_limit_window_ms : ℕ
  pub metrics : Metrics

-- `n / m >= 1` and `n / m >= 0.8`: on numbers up to a million the double on the left is below 0.8
-- just where the quotient is.
abbrev is_full : ℕ → ℕ → Bool
is_full n m = leb m n

abbrev is_nearly_full : ℕ → ℕ → Bool
is_nearly_full n m = leb (4 * m) (5 * n)

unfoldable pub status_of : (in_flight max_in_flight completed max_completed : ℕ) → HealthStatus
status_of in_flight max_in_flight completed max_completed =
    if is_full in_flight max_in_flight || is_full completed max_completed
    then busy
    else if is_nearly_full in_flight max_in_flight || is_nearly_full completed max_completed
    then degraded
    else healthy

-- `handleQuote.health`
unfoldable pub health : GatewayPolicy → ℕ → Gateway → Health × Gateway
unfolding status_of
health p checked_at g =
    let g' = purge checked_at g in
    let in_flight = length g'.in_flight in
    let completed = length g'.completed in
    let report : Health = record {
      schema_version = 1;
      tag = codes "LQC_QUOTE_API_HEALTH";
      status = status_of in_flight p.max_in_flight completed p.max_completed_entries;
      checked_at = checked_at;
      in_flight = in_flight;
      max_in_flight = p.max_in_flight;
      completed = completed;
      max_completed_entries = p.max_completed_entries;
      provider_timeout_ms = p.provider_timeout_ms;
      rate_limit = p.limit;
      rate_limit_window_ms = p.window_ms;
      metrics = g'.metrics;
    } in
    (report, g')

abbrev pub same_status : HealthStatus → HealthStatus → Bool
same_status healthy healthy = true
same_status degraded degraded = true
same_status busy busy = true
same_status _ _ = false

abbrev pub is_capacity_valid : Health → Bool
is_capacity_valid h =
    leb 1 h.max_in_flight
    && leb 1 h.max_completed_entries
    && leb h.in_flight h.max_in_flight
    && leb h.completed h.max_completed_entries

abbrev pub is_policy_valid : Health → Bool
is_policy_valid h =
    not (is_outside 10 30000 h.provider_timeout_ms)
    && leb 1 h.rate_limit
    && leb 1000 h.rate_limit_window_ms

abbrev pub are_counters_valid : Metrics → Bool
are_counters_valid m =
    m.requests == m.authenticated + m.unauthorized
    && leb (m.rate_limited + m.succeeded + m.replayed + m.busy + m.failed) m.authenticated

abbrev pub is_fresh : ℕ → ℕ → Health → Bool
is_fresh now max_age_ms h =
    not (is_outside 1000 300000 max_age_ms)
    && leb h.checked_at now
    && leb (now - h.checked_at) max_age_ms

unfoldable pub validate_quote_api_health : Health → ℕ → ℕ → Result Health
validate_quote_api_health h now max_age_ms = do
  throw_if
      (not (
        h.schema_version == 1
        && same_text h.tag (codes "LQC_QUOTE_API_HEALTH")
        && is_fresh now max_age_ms h
        && is_capacity_valid h
        && is_policy_valid h
        && are_counters_valid h.metrics))
      "Invalid quote API health"
  throw_if
      (not (
        same_status h.status
          (status_of h.in_flight h.max_in_flight h.completed h.max_completed_entries)))
      "Invalid quote API health"
  ok h

-- The features are those that are true.
pub record Capabilities : Type 0 where
  pub schema_version : ℕ
  pub tag : Text
  pub supported_chains : List ℕ
  pub quote_request_versions : List ℕ
  pub quote_response_versions : List ℕ
  pub max_quote_validity_ms : ℕ
  pub features : List Text

pub record Requirements : Type 0 where
  pub chain_id : ℕ
  pub request_version : ℕ
  pub response_version : ℕ
  pub required_features : List Text

abbrev pub default_requirements : Requirements
default_requirements = record {
  chain_id = 97;
  request_version = 1;
  response_version = 1;
  required_features =
      codes "bestExecutionProof"
      ∷ codes "requestHashBinding"
      ∷ codes "idempotentRetries"
      ∷ codes "serviceHealth"
      ∷ [];
}

-- `handleQuote.capabilities`
abbrev pub capabilities : Capabilities
capabilities = record {
  schema_version = 1;
  tag = codes "LQC_QUOTE_API_CAPABILITIES";
  supported_chains = 97 ∷ [];
  quote_request_versions = 1 ∷ [];
  quote_response_versions = 1 ∷ [];
  max_quote_validity_ms = 60000;
  features =
      codes "bestExecutionProof"
      ∷ codes "requestHashBinding"
      ∷ codes "idempotentRetries"
      ∷ codes "concurrentRequestCoalescing"
      ∷ codes "serviceHealth"
      ∷ codes "operationalMetrics"
      ∷ [];
}

abbrev has_number : ℕ → List ℕ → Bool
has_number n [] = false
has_number n (m ∷ ms) = n == m || has_number n ms

abbrev has_all : List Text → List Text → Bool
has_all [] features = true
has_all (f ∷ fs) features = has_text f features && has_all fs features

unfoldable pub validate_quote_api_capabilities : Capabilities → Requirements → Result Requirements
validate_quote_api_capabilities c r = do
  throw_if
      (not (
        c.schema_version == 1
        && same_text c.tag (codes "LQC_QUOTE_API_CAPABILITIES")
        && leb 1 r.chain_id
        && leb 1 r.request_version
        && leb 1 r.response_version
        && has_number r.chain_id c.supported_chains
        && has_number r.request_version c.quote_request_versions
        && has_number r.response_version c.quote_response_versions
        && not (is_outside 1000 60000 c.max_quote_validity_ms)
        && has_all r.required_features c.features))
      "Incompatible quote API capabilities"
  ok r

-- The gateway offers what is required of it.
capabilities_check :
    validate_quote_api_capabilities capabilities default_requirements ≡ ok default_requirements
unfolding validate_quote_api_capabilities
capabilities_check = refl
