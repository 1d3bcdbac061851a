-- ===== src/Router/QuoteApi.antt =====
-- `buildQuoteApiRequest` and `validateQuoteApiResponse` of dex/app/router-sdk.js.
use lqc_liquidity_chain.Common.{
  ℕ, ◌-◌, Bool, true, not, ◌&&◌, ◌||◌, Option, none, some, ltb, leb, ◌==◌, same_text, length, every,
  Result, ok, ◌>>=◌, ◌>>◌, throw_if, required,
}
use lqc_liquidity_chain.Common.Text.{Text, codes}
use Prim.Native.Nat.{◌^◌}
use lqc_liquidity_chain.Common.Text.{to_lower}
use lqc_liquidity_chain.Router.Payloads.{
  Proof, RequestPayload, QuoteRequest, of_request, Ethers, same_lower, positive,
}
use lqc_liquidity_chain.Router.Proofs.{verify_best_execution_proof}

-- `/^[A-Za-z0-9._:-]{1,128}$/`
unfoldable pub is_trace_char : ℕ → Bool
is_trace_char c =
    (leb 65 c && leb c 90)
    || (leb 97 c && leb c 122)
    || (leb 48 c && leb c 58)
    || c == 46
    || c == 95
    || c == 45

unfoldable pub is_trace : Text → Bool
unfolding is_trace_char
is_trace t = leb 1 (length t) && leb (length t) 128 && every is_trace_char t

-- `ethers.MaxUint256`
abbrev pub max_uint256 : ℕ
max_uint256 = 2 ^ 256 - 1

-- Times are at least zero; `none` is no safe integer.
pub record RequestInput : Type 0 where
  pub chain_id : ℕ
  pub token_in : Text
  pub token_out : Text
  pub amount_in : Option ℕ
  pub requested_at : Option ℕ
  pub expires_at : Option ℕ
  pub client_request_id : Text

pub record QuoteResponse : Type 0 where
  pub request_hash : Text
  pub proof : Proof

pub record ResponseCheck : Type 0 where
  pub request_hash : Text
  pub proof_hash : Text
  pub candidate_count : ℕ
  pub expires_at : ℕ

abbrev pub request_payload : RequestInput → ℕ → ℕ → ℕ → RequestPayload
request_payload i amount_in requested_at expires_at = record {
  version = 1;
  tag = codes "LQC_MULTI_DEX_QUOTE_REQUEST";
  chain_id = 97;
  token_in = to_lower i.token_in;
  token_out = to_lower i.token_out;
  amount_in = amount_in;
  requested_at = requested_at;
  expires_at = expires_at;
  client_request_id = i.client_request_id;
}

-- The request as an input again.
abbrev pub input_of : RequestPayload → RequestInput
input_of r = record {
  chain_id = r.chain_id;
  token_in = r.token_in;
  token_out = r.token_out;
  amount_in = some r.amount_in;
  requested_at = some r.requested_at;
  expires_at = some r.expires_at;
  client_request_id = r.client_request_id;
}

module _ (e : Ethers) where
  abbrev pub seal_request : RequestPayload → QuoteRequest
  seal_request payload = record {
    payload = payload;
    request_hash = e.keccak_json (of_request payload);
  }

  abbrev pub is_bad_trade : RequestInput → Bool
  is_bad_trade i =
      not (i.chain_id == 97)
      || not (e.is_address i.token_in)
      || not (e.is_address i.token_out)
      || same_lower i.token_in i.token_out

  unfoldable pub build_quote_api_request : RequestInput → Result QuoteRequest
  build_quote_api_request i = do
    throw_if (is_bad_trade i) "Invalid quote API request"
    amount_in ← positive i.amount_in "Invalid quote API request"
    throw_if (ltb max_uint256 amount_in) "Invalid quote API request"
    requested_at ← required i.requested_at "Invalid quote API request"
    expires_at ← required i.expires_at "Invalid quote API request"
    throw_if (leb expires_at requested_at || ltb 60000 (expires_at - requested_at))
        "Invalid quote API request"
    throw_if (not (is_trace i.client_request_id)) "Invalid quote API request id"
    ok (seal_request (request_payload i amount_in requested_at expires_at))

  abbrev pub is_other_response : QuoteRequest → QuoteResponse → Option ℕ → Bool
  is_other_response request response none = true
  is_other_response request response (some now) =
      not (e.is_hash request.request_hash)
      || not (same_text response.request_hash (to_lower request.request_hash))
      || ltb now request.payload.requested_at
      || ltb request.payload.expires_at now

  abbrev pub is_other_proof : RequestPayload → Proof → ℕ → Bool
  is_other_proof r proof now =
      let p = proof.payload in
      ltb p.expires_at now
      || ltb r.expires_at p.expires_at
      || not (verify_best_execution_proof e proof)
      || not (p.chain_id == r.chain_id)
      || not (same_text p.token_in r.token_in)
      || not (same_text p.token_out r.token_out)
      || not (p.amount_in == r.amount_in)

  -- A moment that is no safe integer is refused by the first check.
  abbrev moment : Option ℕ → ℕ
  moment none = 0
  moment (some now) = now

  unfoldable pub validate_quote_api_response :
      QuoteRequest → QuoteResponse → Option ℕ → Result ResponseCheck
  validate_quote_api_response request response now = do
    throw_if (is_other_response request response now) "Invalid quote API response context"
    rebuilt ← build_quote_api_request (input_of request.payload)
    throw_if
        (not (same_lower rebuilt.request_hash request.request_hash)
          || is_other_proof request.payload response.proof (moment now))
        "Quote API proof mismatch"
    ok (record {
      request_hash = to_lower request.request_hash;
      proof_hash = to_lower response.proof.proof_hash;
      candidate_count = length response.proof.payload.candidates;
      expires_at = response.proof.payload.expires_at;
    })
