-- ===== src/Gateway/State.antt =====
-- The state of dex/scripts/quote-api-gateway.mjs: the usage of each client, the completed requests and
-- those in flight, and the counters; and how an error is reported.
use lqc_liquidity_chain.Common.{
  ℕ, ◌+◌, Bool, ◌||◌, Option, [], ◌∷◌, String, ltb, if◌then◌else◌, same_text,
}
use lqc_liquidity_chain.Common.Dict.{Dict}
use lqc_liquidity_chain.Common.Text.{Text, codes}
use lqc_liquidity_chain.Router.Payloads.{Proof}

pub record Usage : Type 0 where
  pub window_start : ℕ
  pub count : ℕ

pub record Body : Type 0 where
  pub request_hash : Text
  pub proof : Proof
  pub trace_id : Text

pub record CompletedEntry : Type 0 where
  pub request_hash : Text
  pub expires_at : ℕ
  pub body : Body

pub record Metrics : Type 0 where
  pub requests : ℕ
  pub authenticated : ℕ
  pub unauthorized : ℕ
  pub rate_limited : ℕ
  pub succeeded : ℕ
  pub replayed : ℕ
  pub busy : ℕ
  pub failed : ℕ

-- `in_flight` maps a request's key to its hash.
pub record Gateway : Type 0 where
  pub usage : Dict Usage
  pub completed : Dict CompletedEntry
  pub in_flight : Dict Text
  pub metrics : Metrics

-- An answer; its headers but the mark of a replay are left out.
pub data Response : Type 0 where
  failure : (status : ℕ) (code : String) (trace : Text) (retryable : Bool) → Response
  success : (body : Body) (is_replay : Bool) → Response

-- What a handler that was started has come to.
pub data Arrival : Type 0 where
  answered : Response → Arrival
  joins : (key : Text) → Arrival
  starts : (key : Text) → Arrival

-- What the provider gives: the hash and the proof, where it has one; or the code of its error, which is
-- `SERVICE_UNAVAILABLE` where it takes too long.
pub record ProviderAnswer : Type 0 where
  pub request_hash : Text
  pub proof : Option Proof

abbrev pub max_safe_integer : ℕ
max_safe_integer = 9007199254740991

-- `increment`
abbrev pub bump : ℕ → ℕ
bump n = if ltb n max_safe_integer then n + 1 else n

abbrev pub request_one : Metrics → Metrics
request_one m = record m { requests = bump m.requests }

abbrev pub refuse_one : Metrics → Metrics
refuse_one m = record m { unauthorized = bump m.unauthorized }

abbrev pub accept_one : Metrics → Metrics
accept_one m = record m { authenticated = bump m.authenticated }

abbrev pub rate_limit : Metrics → Metrics
rate_limit m = record m { rate_limited = bump m.rate_limited }

abbrev pub replay : Metrics → Metrics
replay m = record m { replayed = bump m.replayed }

abbrev pub succeed : Metrics → Metrics
succeed m = record m { succeeded = bump m.succeeded }

abbrev is_code : String → String → Bool
is_code a b = same_text (codes a) (codes b)

-- The code that is reported for an error's code.
unfoldable pub reported : String → String
reported code =
    if is_code code "INVALID_REQUEST"
      || is_code code "REQUEST_HASH_MISMATCH"
      || is_code code "REQUEST_ID_CONFLICT"
      || is_code code "INVALID_QUOTE_EVIDENCE"
      || is_code code "NO_ROUTE"
      || is_code code "SERVICE_BUSY"
    then code
    else "SERVICE_UNAVAILABLE"

abbrev pub is_unavailable : String → Bool
is_unavailable code = is_code code "SERVICE_UNAVAILABLE" || is_code code "SERVICE_BUSY"

abbrev pub fail_as : String → Metrics → Metrics
fail_as code m =
    if is_code code "SERVICE_BUSY"
    then record m { busy = bump m.busy }
    else record m { failed = bump m.failed }

abbrev pub count_in : (Metrics → Metrics) → Gateway → Gateway
count_in change g = record g { metrics = change g.metrics }

-- The `catch` around what follows the authentication.
unfoldable pub caught : String → Text → Gateway → Response × Gateway
unfolding reported
caught error trace g =
    let code = reported error in
    (
      failure (if is_unavailable code then 503 else if is_code code "NO_ROUTE" then 422 else 400)
          code trace (is_unavailable code),
      count_in (fail_as code) g,
    )

-- `purgeExpiredCompleted`
unfoldable pub drop_expired_entries : ℕ → Dict CompletedEntry → Dict CompletedEntry
drop_expired_entries now [] = []
drop_expired_entries now (e ∷ es) =
    let rest = drop_expired_entries now es in if ltb e.1.expires_at now then rest else e ∷ rest

abbrev pub purge : ℕ → Gateway → Gateway
purge now g = record g { completed = drop_expired_entries now g.completed }
