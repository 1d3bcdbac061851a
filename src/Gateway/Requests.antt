-- ===== src/Gateway/Requests.antt =====
-- The clients and the requests of dex/scripts/quote-api-gateway.mjs.
use lqc_liquidity_chain.Common.{
  ℕ, ◌-◌, Bool, true, false, not, ◌&&◌, ◌||◌, Option, none, some, List, [], ◌∷◌, map, ltb, leb,
  ◌==◌, if◌then◌else◌, same_text, length, every, Result, ◌>>◌, throw_if,
}
use lqc_liquidity_chain.Common.Text.{Text, codes, is_space}
use lqc_liquidity_chain.Common.Text.{to_lower, has_text}
use lqc_liquidity_chain.Router.Payloads.{QuoteRequest, of_request, Ethers}
use lqc_liquidity_chain.Router.QuoteApi.{is_trace, is_trace_char, max_uint256}

pub record Client : Type 0 where
  pub id : Text
  pub key_digest : Text

pub record GatewayPolicy : Type 0 where
  pub clients : List Client
  pub limit : ℕ
  pub window_ms : ℕ
  pub provider_timeout_ms : ℕ
  pub max_in_flight : ℕ
  pub max_completed_entries : ℕ

-- `/^[0-9a-f]$/`
abbrev pub is_hex_char : ℕ → Bool
is_hex_char c = (leb 48 c && leb c 57) || (leb 97 c && leb c 102)

-- `/^[0-9a-f]{64}$/`
unfoldable pub is_digest : Text → Bool
is_digest t = length t == 64 && every is_hex_char t

-- `HASH`: `/^0x[0-9a-f]{64}$/`
unfoldable pub is_lower_hash : Text → Bool
unfolding is_digest
is_lower_hash (a ∷ b ∷ digits) = a == 48 && b == 120 && is_digest digits
is_lower_hash _ = false

unfoldable pub is_client_id : Text → Bool
unfolding is_trace_char
is_client_id t = leb 1 (length t) && leb (length t) 64 && every is_trace_char t

abbrev is_client : Client → Bool
is_client c = is_client_id c.id && is_digest c.key_digest

abbrev is_distinct : List Text → Bool
is_distinct [] = true
is_distinct (t ∷ ts) = not (has_text t ts) && is_distinct ts

abbrev client_id : Client → Text
client_id c = c.id

abbrev client_digest : Client → Text
client_digest c = c.key_digest

abbrev pub is_outside : ℕ → ℕ → ℕ → Bool
is_outside low high n = ltb n low || ltb high n

-- The checks of `createQuoteApiGateway`; it starts with an empty state.
unfoldable pub check_policy : GatewayPolicy → Result (Unit {0})
check_policy p = do
  throw_if
      (length p.clients == 0
        || ltb p.limit 1
        || ltb p.window_ms 1000
        || is_outside 10 30000 p.provider_timeout_ms
        || is_outside 1 1000 p.max_in_flight
        || is_outside 1 100000 p.max_completed_entries)
      "Invalid quote API gateway policy"
  throw_if (not (every is_client p.clients)) "Invalid API client policy"
  throw_if
      (not (is_distinct (map client_id p.clients) && is_distinct (map client_digest p.clients)))
      "Duplicate API client policy"

unfoldable pub same_digest : Text → Text → Bool
same_digest left right = is_digest left && is_digest right && same_text left right

-- The last client that matches.
unfoldable pub find_client : List Client → Text → Option Client → Option Client
unfolding same_digest
find_client [] supplied found = found
find_client (c ∷ cs) supplied found =
    find_client cs supplied (if same_digest c.key_digest supplied then some c else found)

abbrev after : Text → Text → Option Text
after [] text = some text
after (p ∷ ps) [] = none
after (p ∷ ps) (c ∷ cs) = if p == c then after ps cs else none

abbrev is_not_space : ℕ → Bool
is_not_space c = not (is_space c)

-- `/^Bearer ([^\s]+)$/.exec(authorization)`
unfoldable pub bearer_key : Text → Option Text
bearer_key authorization = elim (after (codes "Bearer ") authorization) [
  | none ↦ none
  | some key ↦ if leb 1 (length key) && every is_not_space key then some key else none
]

-- `hash` is `hashApiKey`, the SHA-256 of the key in hexadecimal.
unfoldable pub authenticate : (Text → Text) → List Client → Text → Option Client
unfolding find_client bearer_key
authenticate hash clients authorization = elim (bearer_key authorization) [
  | none ↦ find_client clients [] none
  | some key ↦ find_client clients (hash key) none
]

abbrev pub is_bad_request : Ethers → QuoteRequest → ℕ → Bool
is_bad_request e request now =
    let r = request.payload in
    not (r.version == 1)
    || not (same_text r.tag (codes "LQC_MULTI_DEX_QUOTE_REQUEST"))
    || not (r.chain_id == 97)
    || not (e.is_address r.token_in)
    || not (e.is_address r.token_out)
    || not (same_text r.token_in (to_lower r.token_in))
    || not (same_text r.token_out (to_lower r.token_out))
    || same_text r.token_in r.token_out
    || r.amount_in == 0
    || ltb max_uint256 r.amount_in
    || leb r.expires_at r.requested_at
    || ltb 60000 (r.expires_at - r.requested_at)
    || ltb now r.requested_at
    || ltb r.expires_at now
    || not (is_trace r.client_request_id)
    || not (is_lower_hash request.request_hash)

-- The codes of the errors. An amount is a decimal text without leading zeros, which is the number it
-- prints; a request has exactly these fields, in this order.
unfoldable pub validate_canonical_quote_request : Ethers → QuoteRequest → ℕ → Result (Unit {0})
validate_canonical_quote_request e request now = do
  throw_if (is_bad_request e request now) "INVALID_REQUEST"
  throw_if
      (not (same_text (to_lower (e.keccak_json (of_request request.payload))) request.request_hash))
      "REQUEST_HASH_MISMATCH"
