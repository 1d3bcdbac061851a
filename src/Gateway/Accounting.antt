-- ===== src/Gateway/Accounting.antt =====
-- What the counters and the tables of dex/scripts/quote-api-gateway.mjs add up to in every state that is
-- reached.
use lqc_liquidity_chain.Common.{
  ℕ, suc, ◌+◌, ◌≤◌, ◌<◌, ◌≡◌, refl, Bool, true, not, arith, String, leb, if◌then◌else◌, same_text,
  length, Result, ok, err,
}
use lqc_liquidity_chain.Common.Dict.{lookup, erase}
use lqc_liquidity_chain.Common.Text.{Text}
use lqc_liquidity_chain.Router.Payloads.{QuoteRequest, Ethers}
use lqc_liquidity_chain.Router.QuoteApi.{is_trace}
use lqc_liquidity_chain.Gateway.Requests.{
  GatewayPolicy, authenticate, validate_canonical_quote_request,
}
use lqc_liquidity_chain.Gateway.State.{
  Body, Metrics, Gateway, Response, failure, success, Arrival, answered, joins, starts,
  max_safe_integer, request_one, accept_one, rate_limit, replay, fail_as, count_in, caught,
  reported, purge,
}
use lqc_liquidity_chain.Gateway.Branches.{option-holds, if-settles, option-settles, result-settles}
use lqc_liquidity_chain.Gateway.Handler.{
  charge, retraced, current_usage, replay_key, admit, attempt, settle, arrive, finish, follow,
}

-- The requests that have come to an end after the authentication.
abbrev pub ended : Metrics → ℕ
ended m = m.rate_limited + m.succeeded + m.replayed + m.busy + m.failed

abbrev pub pending : Arrival → ℕ
pending (answered _) = 0
pending (joins _) = 1
pending (starts _) = 1

-- The counters of requests are kept, and `n` more have ended.
abbrev Ends : ℕ → Metrics → Metrics → Type 0
Ends n m m' =
    (m'.requests ≡ m.requests)
    × (m'.authenticated ≡ m.authenticated)
    × (m'.unauthorized ≡ m.unauthorized)
    × (ended m' ≡ ended m + n)

-- One request ends, or goes on.
abbrev Moves : Metrics → Arrival × Gateway → Type 0
Moves m (a, g) =
    (g.metrics.requests ≡ m.requests)
    × (g.metrics.authenticated ≡ m.authenticated)
    × (g.metrics.unauthorized ≡ m.unauthorized)
    × (ended g.metrics + pending a ≡ ended m + 1)

fail_as-Ends :
    (code : String) (m : Metrics) → ended m < max_safe_integer → Ends 1 m (fail_as code m)
fail_as-Ends code m h = ground arith

caught-Ends :
    (code : String) (trace : Text) (g : Gateway)
    → ended g.metrics < max_safe_integer
    → Ends 1 g.metrics (caught code trace g).1.metrics
unfolding caught
caught-Ends code trace g h = fail_as-Ends (reported code) g.metrics h

settle-Moves :
    (trace : Text) (code : String) (g : Gateway)
    → ended g.metrics < max_safe_integer
    → Moves g.metrics (settle trace (err code, g))
settle-Moves trace code g h = ground (arith, caught-Ends code trace g h)

rate_limit-Moves :
    (r : Response) (g : Gateway) (trace : Text)
    → ended g.metrics < max_safe_integer
    → Moves g.metrics (settle trace (ok (answered r), count_in rate_limit g))
rate_limit-Moves r g trace h = ground arith

replay-Moves :
    (r : Response) (g : Gateway) (trace : Text)
    → ended g.metrics < max_safe_integer
    → Moves g.metrics (settle trace (ok (answered r), count_in replay g))
replay-Moves r g trace h = ground arith

waits-Moves : (m : Metrics) → Ends 0 m m
waits-Moves m = (refl, refl, refl, omega arith)

admit-Moves :
    (p : GatewayPolicy) (has : Bool) (id key hash trace : Text) (now : ℕ) (g : Gateway)
    → ended g.metrics < max_safe_integer
    → Moves g.metrics (settle trace (admit p has id key hash trace now g))
unfolding admit
admit-Moves p has id key hash trace now g h =
    let P = Moves g.metrics in
    let g' = charge id (current_usage p id now g) g in
    if-settles P trace (leb p.limit (current_usage p id now g).count) _ _
      (λ _. rate_limit-Moves (failure 429 "RATE_LIMITED" trace true) g trace h)
      (λ _.
        if-settles P trace (not has) _ _ (λ _. settle-Moves trace _ g' h)
          (λ _.
            if-settles P trace (leb p.max_in_flight (length g.in_flight)) _ _
              (λ _. settle-Moves trace _ g' h)
              (λ _.
                if-settles P trace (leb p.max_completed_entries (length g.completed)) _ _
                  (λ _. settle-Moves trace _ g' h) (λ _. (refl, refl, refl, refl)))))

attempt-Moves :
    (e : Ethers) (p : GatewayPolicy) (has : Bool) (id : Text) (request : QuoteRequest)
    (trace : Text) (now : ℕ) (g : Gateway)
    → ended g.metrics < max_safe_integer
    → Moves g.metrics (settle trace (attempt e p has id request trace now g))
unfolding attempt
attempt-Moves e p has id request trace now g h =
    let P = Moves g.metrics in
    let g' = purge now g in
    let key = replay_key id request.payload.client_request_id in
    result-settles P trace (validate_canonical_quote_request e request now) _ _
      (λ _.
        option-settles P trace (lookup key g'.completed) _ _
          (λ entry.
            if-settles P trace (not (same_text entry.request_hash request.request_hash)) _ _
              (λ _. settle-Moves trace _ g' h)
              (λ _. replay-Moves (success (retraced trace entry.body) true) g' trace h))
          (option-settles P trace (lookup key g'.in_flight) _ _
            (λ hash.
              if-settles P trace (not (same_text hash request.request_hash)) _ _
                (λ _. settle-Moves trace _ g' h) (λ _. (refl, refl, refl, refl)))
            (admit-Moves p has id key request.request_hash trace now g' h)))
      (λ code. settle-Moves trace code g h)

-- The counters of a gateway where `waiting` requests are not answered yet: each request was
-- authenticated or refused, and each that was authenticated has ended in one way or waits.
abbrev pub IsBalanced : ℕ → Gateway → Type 0
IsBalanced waiting g =
    (g.metrics.requests ≡ g.metrics.authenticated + g.metrics.unauthorized)
    × (ended g.metrics + waiting ≡ g.metrics.authenticated)
    × (g.metrics.requests ≤ max_safe_integer)

abbrev BalancedAfter : ℕ → Arrival × Gateway → Type 0
BalancedAfter waiting r = IsBalanced (pending r.0 + waiting) r.1

Moves-IsBalanced :
    (waiting : ℕ) (m : Metrics) (r : Arrival × Gateway)
    → m.requests ≡ m.authenticated + m.unauthorized
    → ended m + 1 + waiting ≡ m.authenticated
    → m.requests ≤ max_safe_integer
    → Moves m r
    → BalancedAfter waiting r
Moves-IsBalanced waiting m (a, g) sum parts small moves = (omega arith, omega arith, omega arith)

pub arrive-IsBalanced :
    (e : Ethers) (p : GatewayPolicy) (hash : Text → Text) (has : Bool) (authorization : Text)
    (request : QuoteRequest) (trace_id fresh : Text) (now : ℕ) (g : Gateway) (waiting : ℕ)
    → g.metrics.requests < max_safe_integer
    → IsBalanced waiting g
    → BalancedAfter waiting (arrive e p hash has authorization request trace_id fresh now g)
unfolding arrive
arrive-IsBalanced e p hash has authorization request trace_id fresh now g waiting room h =
    option-holds (BalancedAfter waiting) (authenticate hash p.clients authorization) _ _
      (ground arith)
      λ client.
        let counted = count_in accept_one (count_in request_one g) in
        let trace = if is_trace trace_id then trace_id else fresh in
        let known : (counted.metrics.requests ≡ g.metrics.requests + 1)
            × (counted.metrics.authenticated ≡ g.metrics.authenticated + 1) =
          ground arith in
        Moves-IsBalanced waiting counted.metrics
          (settle trace (attempt e p has client.id request trace now counted)) (omega arith)
          (omega arith) (omega arith)
          (attempt-Moves e p has client.id request trace now counted (omega arith))

pub finish-IsBalanced :
    (key : Text) (request : QuoteRequest) (trace : Text) (outcome : Result Body) (g : Gateway)
    (waiting : ℕ)
    → IsBalanced (suc waiting) g
    → IsBalanced waiting (finish key request trace outcome g).1
unfolding finish
finish-IsBalanced key request trace (err code) g waiting h =
    let g' = record g { in_flight = erase key g.in_flight } in
    let ends = caught-Ends code trace g' (omega arith) in (omega arith, omega arith, omega arith)
finish-IsBalanced key request trace (ok body) g waiting h = ground arith

pub follow-IsBalanced :
    (trace : Text) (outcome : Result Body) (g : Gateway) (waiting : ℕ)
    → IsBalanced (suc waiting) g
    → IsBalanced waiting (follow trace outcome g).1
unfolding follow
follow-IsBalanced trace (err code) g waiting h =
    let ends = caught-Ends code trace g (omega arith) in (omega arith, omega arith, omega arith)
follow-IsBalanced trace (ok body) g waiting h = ground arith
