-- ===== src/Gateway/Client.antt =====
-- dex/scripts/quote-api-client.mjs: the client of the gateway and its retries.
pub mod Retries
use lqc_liquidity_chain.Common.{
  ℕ, zero, suc, ◌+◌, ◌*◌, Bool, true, false, not, ◌||◌, Option, none, some, List, [], ◌∷◌, String,
  ltb, leb, ◌==◌, if◌then◌else◌, same_text, length, every, Result, ok, err, ◌>>=◌, ◌>>◌, throw_if,
}
use lqc_liquidity_chain.Common.Text.{Text, is_space}
use lqc_liquidity_chain.Router.Payloads.{QuoteRequest, Ethers}
use lqc_liquidity_chain.Router.QuoteApi.{is_trace}
use lqc_liquidity_chain.Gateway.Requests.{is_outside, validate_canonical_quote_request}
use lqc_liquidity_chain.Gateway.State.{Body}

-- The address is given by its parts; what is left of it is taken as valid.
pub record ClientPolicy : Type 0 where
  pub is_https : Bool
  pub has_extras : Bool
  pub api_key : Text
  pub timeout_ms : ℕ
  pub max_retries : ℕ
  pub retry_delay_ms : ℕ
  pub max_response_bytes : ℕ
  pub max_health_age_ms : ℕ

unfoldable pub check_client_policy : ClientPolicy → Result (Unit {0})
check_client_policy c =
    throw_if
      (not c.is_https
        || c.has_extras
        || is_outside 16 512 (length c.api_key)
        || not (every (λ x. not (is_space x)) c.api_key)
        || is_outside 10 30000 c.timeout_ms
        || ltb 2 c.max_retries
        || is_outside 10 1000 c.retry_delay_ms
        || is_outside 1024 1048576 c.max_response_bytes
        || is_outside 1000 300000 c.max_health_age_ms)
      "Invalid quote API client policy"

-- What one `fetch` comes to: a reply with its status and what is read of it, or a failure. Of a body
-- that is an error, its code, which may be missing, and whether it may be retried are read.
pub data Fetched (A : Type 0) : Type 0 where
  reply : (status : ℕ) (body : A) (code : Option String) (retryable : Bool) → Fetched A
  malformed : Fetched A
  too_large : Fetched A
  unreachable : Fetched A

pub data Attempt (A : Type 0) : Type 0 where
  answer : A → Attempt A
  refusal : (code : String) (retryable : Bool) → Attempt A

abbrev is_accepted : ℕ → List ℕ → Bool
is_accepted status [] = false
is_accepted status (s ∷ ss) = status == s || is_accepted status ss

abbrev code_of : Option String → String
code_of none = "INVALID_RESPONSE"
code_of (some code) = code

unfoldable pub request_once : {A : Type 0} → List ℕ → Fetched A → Attempt A
request_once accepted (reply status body code retryable) =
    if is_accepted status accepted then answer body else refusal (code_of code) retryable
request_once accepted malformed = refusal "Invalid quote API response" false
request_once accepted too_large = refusal "Quote API response too large" false
request_once accepted unreachable = refusal "SERVICE_UNAVAILABLE" true

-- How a request went: its result, how often it was sent, and the delays before the retries.
pub record Sent (A : Type 0) : Type 0 where
  pub result : Result A
  pub fetches : ℕ
  pub delays : List ℕ

module _ {A : Type 0} where
  unfoldable pub retried : (delay : ℕ) → Option (Sent A) → Option (Sent A)
  retried delay none = none
  retried delay (some sent) =
      some
        (record { result = sent.result; fetches = sent.fetches + 1; delays = delay ∷ sent.delays })

  abbrev pub ended_with : Result A → ℕ → Sent A
  ended_with result fetches = record { result = result; fetches = fetches; delays = [] }

  -- What follows an attempt: `rest` is what the loop does after the delay.
  unfoldable pub after_attempt :
      (is_last : Bool) (delay : ℕ) → Attempt A → Option (Sent A) → Option (Sent A)
  unfolding retried
  after_attempt is_last delay (answer body) rest = some (ended_with (ok body) 1)
  after_attempt is_last delay (refusal code retryable) rest =
      if is_last || not retryable then some (ended_with (err code) 1) else retried delay rest

  abbrev pub before_attempt : Result (Unit {0}) → Option (Sent A) → Option (Sent A)
  before_attempt (err code) go = some (ended_with (err code) 0)
  before_attempt (ok _) go = go

  module _ (max_retries retry_delay_ms : ℕ) (accepted : List ℕ) where
    -- The loop, from an attempt on; `before` and `fetch` are what the attempt of a number meets. It
    -- is `none` where the fuel runs out.
    unfoldable pub request_from :
        (fuel : ℕ) (before : ℕ → Result (Unit {0})) (fetch : ℕ → Fetched A) (attempt : ℕ)
        → Option (Sent A)
    unfolding request_once after_attempt
    request_from zero before fetch attempt = none
    request_from (suc fuel) before fetch attempt =
        let rest = request_from fuel before fetch (attempt + 1) in
        before_attempt (before attempt) (
          after_attempt (leb max_retries attempt) (retry_delay_ms * (attempt + 1))
            (request_once accepted (fetch attempt)) rest)

-- The body has the version that is asked for, and these fields alone.
abbrev pub is_other_envelope : QuoteRequest → Body → ℕ → Bool
is_other_envelope request body now =
    let r = request.payload in
    let p = body.proof.payload in
    not (same_text body.request_hash request.request_hash)
    || not (is_trace body.trace_id)
    || not (p.chain_id == r.chain_id)
    || not (same_text p.token_in r.token_in)
    || not (same_text p.token_out r.token_out)
    || not (p.amount_in == r.amount_in)
    || ltb p.expires_at now
    || ltb r.expires_at p.expires_at

unfoldable pub validate_quote_envelope : QuoteRequest → Body → ℕ → Result (Unit {0})
validate_quote_envelope request body now =
    throw_if (is_other_envelope request body now) "Invalid quote API proof response"

-- What `quote` does with a body: `is_valid` is `validateQuoteResponse`.
unfoldable pub check_body : (QuoteRequest → Body → Bool) → QuoteRequest → ℕ → Body → Result Body
unfolding validate_quote_envelope
check_body is_valid request arrival body = do
  validate_quote_envelope request body arrival
  throw_if (not (is_valid request body)) "Invalid quote API proof response"
  ok body

-- `clock` gives the moment of each attempt, and `arrival` is that of the answer.
unfoldable pub quote :
    Ethers
    → ClientPolicy
    → (QuoteRequest → Body → Bool)
    → (clock : ℕ → ℕ) (fetch : ℕ → Fetched Body) (arrival : ℕ) → QuoteRequest
    → Option (Result Body)
unfolding request_from check_body
quote e c is_valid clock fetch arrival request =
    elim (request_from c.max_retries c.retry_delay_ms (200 ∷ []) (c.max_retries + 1)
      (λ attempt. validate_canonical_quote_request e request (clock attempt)) fetch 0) [
        | none ↦ none
        | some sent ↦ some (sent.result >>= check_body is_valid request arrival)
      ]
