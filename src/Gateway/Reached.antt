-- ===== src/Gateway/Reached.antt =====
-- Every state that the gateway of dex/scripts/quote-api-gateway.mjs can reach.
use lqc_liquidity_chain.Common.{ℕ, suc, ◌+◌, ◌<◌, ◌≡◌, refl, sym, Bool, true, [], arith, Result}
use lqc_liquidity_chain.Common.Dict.{contains}
use lqc_liquidity_chain.Common.Text.{Text}
use mathlib.Core.Path.{subst}
use lqc_liquidity_chain.Router.Payloads.{QuoteRequest, Ethers}
use lqc_liquidity_chain.Gateway.Requests.{GatewayPolicy}
use lqc_liquidity_chain.Gateway.State.{Body, Metrics, Gateway, Arrival, max_safe_integer}
use lqc_liquidity_chain.Gateway.Handler.{arrive, finish, follow}
use lqc_liquidity_chain.Gateway.Accounting.{
  pending, IsBalanced, arrive-IsBalanced, finish-IsBalanced, follow-IsBalanced,
}
use lqc_liquidity_chain.Gateway.Capacity.{Fits, purge-Fits, arrive-Fits, finish-Fits, follow-Fits}
use lqc_liquidity_chain.Gateway.Health.{health}

-- The gateway, and how many authenticated requests wait for an answer.
pub record System : Type 0 where
  pub gateway : Gateway
  pub waiting : ℕ

abbrev pub no_metrics : Metrics
no_metrics = record {
  requests = 0;
  authenticated = 0;
  unauthorized = 0;
  rate_limited = 0;
  succeeded = 0;
  replayed = 0;
  busy = 0;
  failed = 0;
}

-- What `createQuoteApiGateway` starts with.
abbrev pub initial : System
initial = record {
  gateway = record { usage = []; completed = []; in_flight = []; metrics = no_metrics };
  waiting = 0;
}

abbrev pub arrived : Arrival × Gateway → System → System
arrived r s = record { gateway = r.1; waiting = pending r.0 + s.waiting }

module _ (e : Ethers) (p : GatewayPolicy) (hash : Text → Text) where
  -- The steps interleave in any order: a request arrives, one that started or joined goes on with any
  -- outcome, or the health is asked for. The counter of requests is below the largest safe integer.
  pub data Step (s t : System) : Type 0 where
    arrives :
        (has_provider : Bool) (authorization : Text) (request : QuoteRequest) (trace fresh : Text)
        (now : ℕ)
        → s.gateway.metrics.requests < max_safe_integer
        → t
          ≡ arrived (arrive e p hash has_provider authorization request trace fresh now s.gateway) s
        → Step s t
    finishes :
        (key : Text) (request : QuoteRequest) (trace : Text) (outcome : Result Body)
        → contains key s.gateway.in_flight ≡ true
        → s.waiting ≡ suc t.waiting
        → t.gateway ≡ (finish key request trace outcome s.gateway).1
        → Step s t
    follows :
        (trace : Text) (outcome : Result Body)
        → s.waiting ≡ suc t.waiting
        → t.gateway ≡ (follow trace outcome s.gateway).1
        → Step s t
    checks : (now : ℕ) → s.waiting ≡ t.waiting → t.gateway ≡ (health p now s.gateway).1 → Step s t

  pub data Reach : System → Type 0 where
    here : Reach initial
    next : {s t : System} → Reach s → Step s t → Reach t

  abbrev IsSound : System → Type 0
  IsSound s = IsBalanced s.waiting s.gateway × Fits p s.gateway

  Step-IsSound : {s t : System} → Step s t → IsSound s → IsSound t
  unfolding health
  Step-IsSound {s} {t} (arrives has authorization request trace fresh now room end) (b, f) =
      subst IsSound (sym end) (
        arrive-IsBalanced e p hash has authorization request trace fresh now s.gateway s.waiting
            room b,
        arrive-Fits e p hash has authorization request trace fresh now s.gateway f,
      )
  Step-IsSound {s} {t} (finishes key request trace outcome there one_less end) (b, f) = rw end (
    finish-IsBalanced key request trace outcome s.gateway t.waiting (rw one_less at b),
    finish-Fits p key request trace outcome s.gateway there f,
  )
  Step-IsSound {s} {t} (follows trace outcome one_less end) (b, f) = rw end (
    follow-IsBalanced trace outcome s.gateway t.waiting (rw one_less at b),
    follow-Fits p trace outcome s.gateway f,
  )
  Step-IsSound {s} {t} (checks now same end) (b, f) =
      rw end (rw same at b, purge-Fits p now s.gateway f)

  -- In every state that is reached, each request was authenticated or refused, and each authenticated
  -- one has ended in one way or waits for an answer; no more are in flight than may be; the completed
  -- ones with those in flight stay below the sum of the two bounds; and no client has used more of
  -- its window than the limit.
  pub Reach-IsSound :
      (s : System)
      → 0 < p.max_completed_entries + p.max_in_flight
      → Reach s
      → IsBalanced s.waiting s.gateway × Fits p s.gateway
  Reach-IsSound s room here = ((refl, refl, omega arith), (omega arith, omega arith, tt))
  Reach-IsSound s room (next {s = r} past step) = Step-IsSound step (Reach-IsSound r room past)
