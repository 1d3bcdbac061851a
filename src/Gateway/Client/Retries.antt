-- ===== src/Gateway/Client/Retries.antt =====
-- The retries of dex/scripts/quote-api-client.mjs end, and what an accepted quote is.
use lqc_liquidity_chain.Common.{
  ℕ, zero, suc, ◌+◌, ◌*◌, ◌≤◌, ◌<◌, ◌≡◌, refl, sym, ap, Bool, true, false, not, ◌||◌, Option, some,
  List, [], ◌∷◌, arith, String, leb, if◌then◌else◌, same_text_sound, length, All, Result, ok, err,
  ◌>>=◌, >>=-eq-ok, ok-inj, not-false, throw_if-eq-ok,
}
use mathlib.Core.Path.{subst}
use lqc_liquidity_chain.Router.Payloads.{QuoteRequest, Ethers}
use lqc_liquidity_chain.Gateway.Requests.{validate_canonical_quote_request}
use lqc_liquidity_chain.Gateway.State.{Body}
use lqc_liquidity_chain.Gateway.Client.{
  ClientPolicy, is_other_envelope, validate_quote_envelope, check_body, quote, Fetched, Attempt,
  answer, refusal, request_once, Sent, ended_with, retried, after_attempt, before_attempt,
  request_from,
}

module _ {A : Type 0} (max_retries retry_delay_ms : ℕ) where
  -- The loop ended: from this attempt on, no more was sent than attempts are left, no more delays were
  -- made than retries are left, and each is the base delay times a number of a retry.
  abbrev pub Ended : ℕ → Option (Sent A) → Type 0
  Ended attempt outcome =
      (sent : Sent A) × (outcome ≡ some sent)
      × (sent.fetches + attempt ≤ max_retries + 1)
      × (length sent.delays + attempt ≤ max_retries)
      × All (λ d. d ≤ retry_delay_ms * max_retries) sent.delays

  retried-Ended :
      (attempt : ℕ) (rest : Option (Sent A))
      → attempt + 1 ≤ max_retries
      → Ended (attempt + 1) rest
      → Ended attempt (retried (retry_delay_ms * (attempt + 1)) rest)
  unfolding retried
  retried-Ended attempt rest le (sent, e, sends, waits, short) =
      let bounded : retry_delay_ms * (attempt + 1) ≤ retry_delay_ms * max_retries = grind arith in
      (
        record {
          result = sent.result;
          fetches = sent.fetches + 1;
          delays = retry_delay_ms * (attempt + 1) ∷ sent.delays;
        },
        ap (retried (retry_delay_ms * (attempt + 1))) e,
        omega arith,
        omega arith,
        (bounded, short),
      )

  stop-Ended :
      (attempt : ℕ) (stop : Bool) (code : String) (rest : Option (Sent A))
      → attempt ≤ max_retries
      → (stop ≡ false → attempt + 1 ≤ max_retries)
      → (attempt + 1 ≤ max_retries → Ended (attempt + 1) rest)
      → Ended attempt (
          if stop
          then some (ended_with (err code) 1)
          else retried (retry_delay_ms * (attempt + 1)) rest)
  stop-Ended attempt true code rest le more h =
      (ended_with (err code) 1, refl, omega arith, omega arith, tt)
  stop-Ended attempt false code rest le more h =
      retried-Ended attempt rest (more refl) (h (more refl))

  after_attempt-Ended :
      (attempt : ℕ) (a : Attempt A) (rest : Option (Sent A))
      → attempt ≤ max_retries
      → (attempt + 1 ≤ max_retries → Ended (attempt + 1) rest)
      → Ended attempt
          (after_attempt (leb max_retries attempt) (retry_delay_ms * (attempt + 1)) a rest)
  unfolding after_attempt
  after_attempt-Ended attempt (answer body) rest le h =
      (ended_with (ok body) 1, refl, omega arith, omega arith, tt)
  after_attempt-Ended attempt (refusal code retryable) rest le h =
      stop-Ended attempt (leb max_retries attempt || not retryable) code rest le
        (λ go_on. ground arith) h

  before_attempt-Ended :
      (attempt : ℕ) (r : Result (Unit {0})) (go : Option (Sent A))
      → attempt ≤ max_retries
      → Ended attempt go
      → Ended attempt (before_attempt r go)
  before_attempt-Ended attempt (err code) go le h =
      (ended_with (err code) 0, refl, omega arith, omega arith, tt)
  before_attempt-Ended attempt (ok _) go le h = h

  -- With a unit of fuel for each attempt that is left, and the one that is made, the loop ends, however
  -- the attempts go: the request is sent no more often than there are attempts left, there are no more
  -- delays than retries left, and each is the base delay times a number that is not above theirs.
  pub request_from-ends :
      (accepted : List ℕ) (fuel : ℕ) (before : ℕ → Result (Unit {0})) (fetch : ℕ → Fetched A)
      (attempt : ℕ)
      → attempt ≤ max_retries
      → max_retries < fuel + attempt
      → Ended attempt (request_from max_retries retry_delay_ms accepted fuel before fetch attempt)
  unfolding request_from
  request_from-ends accepted zero before fetch attempt le enough = absurd (omega arith)
  request_from-ends accepted (suc fuel) before fetch attempt le enough =
      before_attempt-Ended attempt (before attempt) _ le (
        after_attempt-Ended attempt (request_once accepted (fetch attempt)) _ le
          λ more. request_from-ends accepted fuel before fetch (attempt + 1) more (omega arith))

-- What the client lets through is for the request: its hash, tokens and amount are those that were
-- asked for, and neither the proof nor, with it, the request has expired.
abbrev pub IsFor : QuoteRequest → Body → ℕ → Type 0
IsFor request body arrival =
    (body.request_hash ≡ request.request_hash)
    × (body.proof.payload.token_in ≡ request.payload.token_in)
    × (body.proof.payload.token_out ≡ request.payload.token_out)
    × (body.proof.payload.amount_in ≡ request.payload.amount_in)
    × (arrival ≤ body.proof.payload.expires_at)
    × (body.proof.payload.expires_at ≤ request.payload.expires_at)

envelope-IsFor :
    (request : QuoteRequest) (body : Body) (arrival : ℕ)
    → is_other_envelope request body arrival ≡ false
    → IsFor request body arrival
envelope-IsFor request body arrival h =
    let r = request.payload in
    let p = body.proof.payload in
    (
      same_text_sound body.request_hash request.request_hash (ground arith),
      same_text_sound p.token_in r.token_in (ground arith),
      same_text_sound p.token_out r.token_out (ground arith),
      ground arith,
      ground arith,
      ground arith,
    )

check_body-IsFor :
    (is_valid : QuoteRequest → Body → Bool) (request : QuoteRequest) (arrival : ℕ) (body : Body)
    {result : Body}
    → check_body is_valid request arrival body ≡ ok result
    → (result ≡ body) × IsFor request body arrival × (is_valid request body ≡ true)
unfolding check_body validate_quote_envelope
check_body-IsFor is_valid request arrival body h =
    let (same, r₁) =
      throw_if-eq-ok (is_other_envelope request body arrival) "Invalid quote API proof response" _
        h in
    let (valid, r₂) =
      throw_if-eq-ok (not (is_valid request body)) "Invalid quote API proof response" _ r₁ in
    (sym (ok-inj r₂), envelope-IsFor request body arrival same, not-false _ valid)

-- However the network and the clock behave, a quote ends with a result; and a body that it returns is
-- for the request that was sent, has not expired, and passed the validation that the client was given.
pub quote-ends :
    (e : Ethers) (c : ClientPolicy) (is_valid : QuoteRequest → Body → Bool) (clock : ℕ → ℕ)
    (fetch : ℕ → Fetched Body) (arrival : ℕ) (request : QuoteRequest)
    → (result : Result Body) × (quote e c is_valid clock fetch arrival request ≡ some result)
      × ((body : Body)
          → result ≡ ok body
          → IsFor request body arrival × (is_valid request body ≡ true))
unfolding quote
quote-ends e c is_valid clock fetch arrival request =
    let before = λ (attempt : ℕ). validate_canonical_quote_request e request (clock attempt) in
    let (sent, ends, _, _, _) =
      request_from-ends c.max_retries c.retry_delay_ms (200 ∷ []) (c.max_retries + 1) before fetch 0
        (omega arith) (omega arith) in
    (
      sent.result >>= check_body is_valid request arrival,
      rw (ends, quote) refl,
      λ body h.
          let (received, _, checked) =
            >>=-eq-ok sent.result (check_body is_valid request arrival) h in
          let (same, for_request, valid) =
            check_body-IsFor is_valid request arrival received checked in
          subst (λ (b : Body). IsFor request b arrival × (is_valid request b ≡ true)) (sym same)
            (for_request, valid),
    )
