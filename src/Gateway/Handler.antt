-- ===== src/Gateway/Handler.antt =====
-- `handleQuote` of dex/scripts/quote-api-gateway.mjs: a request arrives, and then is answered, or waits
-- for the provider, or for the answer to the same request.
use lqc_liquidity_chain.Common.{
  ℕ, ◌+◌, ◌*◌, ◌/◌, Bool, true, false, not, ◌||◌, Option, none, some, ◌++◌, ltb, leb, ◌==◌,
  if◌then◌else◌, same_text, length, Result, ok, err, ◌>>=◌, ◌>>◌, throw_if, required,
}
use lqc_liquidity_chain.Common.Dict.{lookup, insert, erase}
use lqc_liquidity_chain.Common.Text.{Text, codes}
use lqc_liquidity_chain.Router.Payloads.{Proof, QuoteRequest, Ethers}
use lqc_liquidity_chain.Router.QuoteApi.{is_trace}
use lqc_liquidity_chain.Gateway.Requests.{
  GatewayPolicy, authenticate, validate_canonical_quote_request,
}
use lqc_liquidity_chain.Gateway.State.{
  Usage, Body, CompletedEntry, Gateway, Response, failure, success, Arrival, answered, joins,
  starts, ProviderAnswer, request_one, refuse_one, accept_one, rate_limit, replay, succeed,
  count_in, caught, purge,
}

abbrev pub replay_key : Text → Text → Text
replay_key client_id client_request_id = client_id ++ (codes ":" ++ client_request_id)

abbrev pub usage_in : ℕ → Option Usage → Usage
usage_in window_start none = record { window_start = window_start; count = 0 }
usage_in window_start (some prior) =
    if prior.window_start == window_start
    then prior
    else record { window_start = window_start; count = 0 }

-- The usage of a client in the current window.
abbrev pub current_usage : GatewayPolicy → Text → ℕ → Gateway → Usage
current_usage p id now g = usage_in (now / p.window_ms * p.window_ms) (lookup id g.usage)

abbrev pub retraced : Text → Body → Body
retraced trace body = record body { trace_id = trace }

-- `current.count += 1; usage.set(client.id, current)`
abbrev pub charge : Text → Usage → Gateway → Gateway
charge id current g = record g {
  usage = insert id (record current { count = current.count + 1 }) g.usage;
}

-- A request that is new takes from the client's limit, and starts where there is room.
unfoldable pub admit :
    GatewayPolicy → Bool → Text → Text → Text → Text → ℕ → Gateway → Result Arrival × Gateway
admit p has_provider id key request_hash trace now g =
    let current = current_usage p id now g in
    if leb p.limit current.count
    then (ok (answered (failure 429 "RATE_LIMITED" trace true)), count_in rate_limit g)
    else let g' = charge id current g in
      if not has_provider
      then (err "SERVICE_UNAVAILABLE", g')
      else if leb p.max_in_flight (length g'.in_flight)
      then (err "SERVICE_BUSY", g')
      else if leb p.max_completed_entries (length g'.completed)
      then (err "SERVICE_BUSY", g')
      else (ok (starts key), record g' { in_flight = insert key request_hash g'.in_flight })

-- A request of a client: a completed one is replayed, one that is in flight is joined.
unfoldable pub attempt :
    Ethers
    → GatewayPolicy
    → Bool
    → Text
    → QuoteRequest
    → Text
    → ℕ
    → Gateway
    → Result Arrival × Gateway
unfolding admit
attempt e p has_provider id request trace now g =
    elim (validate_canonical_quote_request e request now) [
      | err code ↦ (err code, g)
      | ok _ ↦
          let g' = purge now g in
          let key = replay_key id request.payload.client_request_id in
          elim (lookup key g'.completed) [
            | some entry ↦
                if not (same_text entry.request_hash request.request_hash)
                then (err "REQUEST_ID_CONFLICT", g')
                else (ok (answered (success (retraced trace entry.body) true)), count_in replay g')
            | none ↦ elim (lookup key g'.in_flight) [
              | some hash ↦
                  if not (same_text hash request.request_hash)
                  then (err "REQUEST_ID_CONFLICT", g')
                  else (ok (joins key), g')
              | none ↦ admit p has_provider id key request.request_hash trace now g'
            ]
          ]
    ]

abbrev pub settle : Text → Result Arrival × Gateway → Arrival × Gateway
settle trace (ok arrival, g) = (arrival, g)
settle trace (err code, g) = let (response, g') = caught code trace g in (answered response, g')

-- `fresh` is the trace that is made up where none that is valid was sent.
unfoldable pub arrive :
    Ethers
    → GatewayPolicy
    → (Text → Text)
    → Bool
    → Text
    → QuoteRequest
    → Text
    → Text
    → ℕ
    → Gateway
    → Arrival × Gateway
unfolding attempt caught
arrive e p hash has_provider authorization request trace_id fresh now g =
    let trace = if is_trace trace_id then trace_id else fresh in
    let g₁ = count_in request_one g in
    elim (authenticate hash p.clients authorization) [
      | none ↦ (answered (failure 401 "UNAUTHORIZED" trace false), count_in refuse_one g₁)
      | some client ↦
          settle trace
            (attempt e p has_provider client.id request trace now (count_in accept_one g₁))
    ]

-- The evidence of the provider; `verify` is `verifyProof`.
abbrev pub is_bad_evidence : (Proof → Bool) → QuoteRequest → Text → Proof → ℕ → Bool
is_bad_evidence verify request request_hash proof verified_at =
    let r = request.payload in
    let q = proof.payload in
    not (same_text request_hash request.request_hash)
    || not (q.chain_id == r.chain_id)
    || not (same_text q.token_in r.token_in)
    || not (same_text q.token_out r.token_out)
    || not (q.amount_in == r.amount_in)
    || ltb q.expires_at verified_at
    || ltb r.expires_at q.expires_at
    || ltb r.expires_at verified_at
    || not (verify proof)

-- What the promise of a request in flight comes to.
unfoldable pub outcome_of :
    (Proof → Bool) → QuoteRequest → Text → ℕ → Result ProviderAnswer → Result Body
outcome_of verify request trace verified_at answer = do
  result ← answer
  proof ← required result.proof "INVALID_QUOTE_EVIDENCE"
  throw_if (is_bad_evidence verify request result.request_hash proof verified_at)
      "INVALID_QUOTE_EVIDENCE"
  ok (record { request_hash = request.request_hash; proof = proof; trace_id = trace })

abbrev pub entry_of : QuoteRequest → Body → CompletedEntry
entry_of request body = record {
  request_hash = request.request_hash;
  expires_at = body.proof.payload.expires_at;
  body = body;
}

-- The request that started goes on with the outcome.
unfoldable pub finish : Text → QuoteRequest → Text → Result Body → Gateway → Response × Gateway
unfolding caught
finish key request trace outcome g =
    let g' = record g { in_flight = erase key g.in_flight } in
    elim outcome [
      | err code ↦ caught code trace g'
      | ok body ↦ (
        success body false,
        count_in succeed
            (record g' { completed = insert key (entry_of request body) g'.completed }),
      )
    ]

-- A request that joined it does.
unfoldable pub follow : Text → Result Body → Gateway → Response × Gateway
unfolding caught
follow trace outcome g = elim outcome [
  | err code ↦ caught code trace g
  | ok body ↦ (success (retraced trace body) true, count_in replay g)
]
