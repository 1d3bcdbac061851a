-- ===== src/Router/Routes.antt =====
-- The routes of dex/app/router-sdk.js: how a path over pools is encoded, and what it costs.
use lqc_liquidity_chain.Common.{
  ℕ, ◌+◌, ◌*◌, Bool, not, ◌&&◌, ◌||◌, List, [], ◌∷◌, ltb, ◌==◌, if◌then◌else◌, same_text, length,
  find, Result, ok, ◌>>=◌, ◌>>◌, throw_if, required, map_result,
}
use lqc_liquidity_chain.Common.Text.{Text, codes}
use lqc_liquidity_chain.Router.Payloads.{same_lower}

pub record Pool : Type 0 where
  pub token_a : Text
  pub token_b : Text
  pub fee : ℕ

pub record Dex : Type 0 where
  pub kind : Text
  pub pools : List Pool
  pub fee_bps : ℕ

-- What is packed: the type of a part, and its value.
pub data Part : Type 0 where
  address : Text → Part
  uint24 : ℕ → Part

-- What the library is asked to encode.
pub data Encoding : Type 0 where
  packed : List Part → Encoding
  address_list : List Text → Encoding

-- `SUPPORTED_V3_FEES`
abbrev pub is_supported_fee : ℕ → Bool
is_supported_fee fee = fee == 100 || fee == 500 || fee == 2500 || fee == 10000

abbrev pub is_v3 : Dex → Bool
is_v3 dex = same_text dex.kind (codes "v3")

abbrev pub joins_tokens : Text → Text → Pool → Bool
joins_tokens a b pool =
    (same_lower pool.token_a a || same_lower pool.token_b a)
    && (same_lower pool.token_a b || same_lower pool.token_b b)

-- A fee that is missing is supported as little as that of a missing pool.
unfoldable pub pool_fee : Dex → Text → Text → Result ℕ
pool_fee dex a b = do
  pool ← required (find (joins_tokens a b) dex.pools) "No approved V3 pool"
  throw_if (not (is_supported_fee pool.fee)) "No approved V3 pool"
  ok pool.fee

unfoldable pub pack_path : Dex → List Text → Result (List Part)
unfolding pool_fee
pack_path dex [] = ok []
pack_path dex (token ∷ []) = ok (address token ∷ [])
pack_path dex (token ∷ next ∷ rest) = do
  fee ← pool_fee dex token next
  parts ← pack_path dex (next ∷ rest)
  ok (address token ∷ uint24 fee ∷ parts)

abbrev encode_path : Dex → List Text → Result Encoding
encode_path dex path =
    if is_v3 dex
    then (pack_path dex path >>= λ parts. ok (packed parts))
    else ok (address_list path)

unfoldable pub encode_route : Dex → List Text → Result Encoding
unfolding pack_path
encode_route dex path = do
  throw_if (ltb (length path) 2 || ltb 4 (length path)) "Invalid route"
  encode_path dex path

unfoldable pub encode_routes : List Dex → List Text → Result (List Encoding)
unfolding encode_route
encode_routes dexes path = map_result (λ dex. encode_route dex path) dexes

-- The sum of the fees, in hundredths of a basis point.
unfoldable pub path_fee : Dex → List Text → Result ℕ
path_fee dex [] = ok 0
path_fee dex (token ∷ []) = ok 0
path_fee dex (token ∷ next ∷ rest) = do
  pool ← required (find (joins_tokens token next) dex.pools) "No approved V3 pool"
  fees ← path_fee dex (next ∷ rest)
  ok (pool.fee + fees)

-- `routeFeeBps`, in hundredths of a basis point.
unfoldable pub route_fee : Dex → List Text → Result ℕ
unfolding path_fee
route_fee dex path = if is_v3 dex then path_fee dex path else ok (dex.fee_bps * 100)
