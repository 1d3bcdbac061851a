-- ===== src/Gateway/Reports.antt =====
-- When a health report of dex/scripts/quote-api-gateway.mjs passes the validation of the same file.
use lqc_liquidity_chain.Common.{ℕ, ◌≤◌, ◌≡◌, refl, ◌↔◌, true, false, arith, length, ok}
use lqc_liquidity_chain.Common.Text.{Text, codes}
use lqc_liquidity_chain.Router.Payloads.{Ethers}
use lqc_liquidity_chain.Gateway.Requests.{GatewayPolicy, check_policy, is_outside}
use lqc_liquidity_chain.Gateway.State.{Gateway}
use lqc_liquidity_chain.Gateway.Accounting.{IsBalanced}
use lqc_liquidity_chain.Gateway.Reached.{System, Reach, Reach-IsSound}
use lqc_liquidity_chain.Gateway.Health.{
  Health, HealthStatus, healthy, degraded, busy, status_of, health, same_status, is_capacity_valid,
  is_policy_valid, are_counters_valid, is_fresh, validate_quote_api_health,
}

-- What the validation asks of a policy.
abbrev IsProper : GatewayPolicy → Type 0
IsProper p =
    (1 ≤ p.limit)
    × (1000 ≤ p.window_ms)
    × (is_outside 10 30000 p.provider_timeout_ms ≡ false)
    × (1 ≤ p.max_in_flight)
    × (1 ≤ p.max_completed_entries)

check_policy-IsProper : (p : GatewayPolicy) → check_policy p ≡ ok tt → IsProper p
unfolding check_policy
check_policy-IsProper p h = ground arith

same_status_refl : (s : HealthStatus) → same_status s s ≡ true
same_status_refl healthy = refl
same_status_refl degraded = refl
same_status_refl busy = refl

validate-passes :
    (h : Health) (now age : ℕ)
    → h.schema_version ≡ 1
    → h.tag ≡ codes "LQC_QUOTE_API_HEALTH"
    → is_fresh now age h ≡ true
    → is_capacity_valid h ≡ true
    → is_policy_valid h ≡ true
    → are_counters_valid h.metrics ≡ true
    → h.status ≡ status_of h.in_flight h.max_in_flight h.completed h.max_completed_entries
    → validate_quote_api_health h now age ≡ ok h
unfolding validate_quote_api_health
validate-passes h now age version tag fresh capacity policy counters status =
    let status_same = same_status_refl h.status in
    rw (version, tag, fresh, capacity, policy, counters, ← status, status_same) refl

validate-capacity :
    (h : Health) (now age : ℕ) {r : Health}
    → validate_quote_api_health h now age ≡ ok r
    → h.completed ≤ h.max_completed_entries
unfolding validate_quote_api_health
validate-capacity h now age e = ground arith

-- The report of a gateway whose counters are balanced and whose flight is not above its bound.
report-valid_iff :
    (p : GatewayPolicy) (now waiting : ℕ) (g : Gateway)
    → IsProper p
    → IsBalanced waiting g
    → length g.in_flight ≤ p.max_in_flight
    → (validate_quote_api_health (health p now g).0 now 60000 ≡ ok (health p now g).0)
      ↔ ((health p now g).0.completed ≤ p.max_completed_entries)
unfolding health
report-valid_iff p now waiting g (limit, window, timeout, some_flight, some_completed)
      (sum, parts, _) few =
    (
      validate-capacity (health p now g).0 now 60000,
      λ fits.
          validate-passes (health p now g).0 now 60000 refl refl (ground arith) (ground arith)
            (ground arith) (ground arith) refl,
    )

-- In every state that is reached, the report of the gateway passes the gateway's own validation at
-- that moment just when no more completed requests are kept than the bound.
pub health-valid_iff :
    (e : Ethers) (p : GatewayPolicy) (hash : Text → Text) (s : System) (now : ℕ)
    → check_policy p ≡ ok tt
    → Reach e p hash s
    → (validate_quote_api_health (health p now s.gateway).0 now 60000
        ≡ ok (health p now s.gateway).0)
      ↔ ((health p now s.gateway).0.completed ≤ p.max_completed_entries)
health-valid_iff e p hash s now checked reached =
    let (limit, window, timeout, some_flight, some_completed) = check_policy-IsProper p checked in
    let (balanced, (few, _, _)) = Reach-IsSound e p hash s (omega arith) reached in
    report-valid_iff p now s.waiting s.gateway (limit, window, timeout, some_flight, some_completed)
      balanced few
