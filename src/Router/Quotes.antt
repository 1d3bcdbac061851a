-- ===== src/Router/Quotes.antt =====
-- What dex/app/router-sdk.js computes of quotes, and the check of a quote before its execution.
use lqc_liquidity_chain.Common.{
  ℕ, ◌-◌, ◌*◌, ◌/◌, Bool, not, ◌&&◌, ◌||◌, Option, none, some, List, [], ◌∷◌, ltb, leb, ◌==◌,
  if◌then◌else◌, same_text, length, Result, ok, ◌>>=◌, ◌>>◌, throw_if, required,
}
use lqc_liquidity_chain.Common.Text.{Text}
use lqc_liquidity_chain.Router.Payloads.{positive, net_of}

-- An argument is `none` where it is no bigint of at least zero. The slippage is the rounded number of
-- basis points.
unfoldable pub minimum_amount_out : ℕ → Option ℕ → Result ℕ
minimum_amount_out amount_out slippage_bps = do
  bps ← required slippage_bps "Invalid slippage"
  throw_if (ltb 2000 bps) "Invalid slippage"
  ok (amount_out * (10000 - bps) / 10000)

unfoldable pub price_impact_from_expected : Option ℕ → Option ℕ → Result ℕ
price_impact_from_expected amount_out expected_out = do
  amount ← positive amount_out "Invalid quote"
  expected ← positive expected_out "Invalid quote"
  ok (if leb expected amount then 0 else (expected - amount) * 10000 / expected)

unfoldable pub price_impact_bps : Option ℕ → Option ℕ → Option ℕ → Option ℕ → Result ℕ
price_impact_bps amount_in amount_out probe_in probe_out = do
  given ← positive amount_in "Invalid quote"
  amount ← positive amount_out "Invalid quote"
  probe ← positive probe_in "Invalid quote"
  probed ← positive probe_out "Invalid quote"
  price_impact_from_expected (some amount) (some (given * probed / probe))

-- `dex?.gasUnits || ...`: a missing number and zero give the default.
abbrev gas_units : Option ℕ → Bool → ℕ
gas_units none native_swap = if native_swap then 260000 else 220000
gas_units (some units) native_swap =
    if units == 0 then if native_swap then 260000 else 220000 else units

unfoldable pub estimated_gas_wei : Option ℕ → Option ℕ → Bool → Result ℕ
estimated_gas_wei units gas_price_wei native_swap = do
  price ← required gas_price_wei "Invalid gas price"
  ok (gas_units units native_swap * price)

-- A part of a split; its share is in hundredths of a percent.
pub record SplitPart : Type 0 where
  pub dex : Text
  pub amount_in : ℕ
  pub share_bps : ℕ

unfoldable pub split_parts : List Text → List ℕ → ℕ → List SplitPart
split_parts (dex ∷ dexes) (amount ∷ amounts) total =
    let rest = split_parts dexes amounts total in
    if ltb 0 amount
    then record { dex = dex; amount_in = amount; share_bps = amount * 10000 / total } ∷ rest
    else rest
split_parts _ _ total = []

unfoldable pub summarize_split : List Text → List ℕ → Option ℕ → Result (List SplitPart)
unfolding split_parts
summarize_split dexes amounts_in total_amount_in = do
  throw_if (not (length dexes == length amounts_in)) "Invalid split"
  total ← positive total_amount_in "Invalid split"
  ok (split_parts dexes amounts_in total)

unfoldable pub is_split_net_better : Option ℕ → Option ℕ → Option ℕ → Result Bool
is_split_net_better single_amount_out single_cost split_net_amount_out = do
  amount ← required single_amount_out "Invalid net quote"
  cost ← required single_cost "Invalid net quote"
  net ← required split_net_amount_out "Invalid net quote"
  ok (ltb (net_of amount cost) net)

unfoldable pub is_latest_quote : Option ℕ → Option ℕ → Result Bool
is_latest_quote request_id current_id = do
  request ← required request_id "Invalid quote version"
  current ← required current_id "Invalid quote version"
  ok (request == current)

pub record Snapshot : Type 0 where
  pub chain_id : Option ℕ
  pub block_number : Option ℕ
  pub quoted_at : Option ℕ
  pub token_in : Text
  pub token_out : Text
  pub amount_in : Option ℕ
  pub amount_out : Option ℕ
  pub minimum_out : Option ℕ

pub record CurrentQuote : Type 0 where
  pub chain_id : Option ℕ
  pub block_number : Option ℕ
  pub now : Option ℕ
  pub token_in : Text
  pub token_out : Text
  pub amount_in : Option ℕ
  pub amount_out : Option ℕ

-- A part of the policy may be missing, or no safe integer of at least zero.
pub record QuotePolicy : Type 0 where
  pub max_age_ms : Option (Option ℕ)
  pub max_block_drift : Option (Option ℕ)

pub record QuoteCheck : Type 0 where
  pub age_ms : ℕ
  pub block_drift : ℕ
  pub minimum_out : ℕ

-- `value ?? fallback`
abbrev given : Option (Option ℕ) → ℕ → Option ℕ
given none fallback = some fallback
given (some value) fallback = value

unfoldable pub validate_execution_quote : Snapshot → CurrentQuote → QuotePolicy → Result QuoteCheck
validate_execution_quote snapshot current policy = do
  max_age ← required (given policy.max_age_ms 30000) "Invalid quote validation"
  max_drift ← required (given policy.max_block_drift 5) "Invalid quote validation"
  throw_if (ltb max_age 1000) "Invalid quote validation"
  amount_in ← positive snapshot.amount_in "Invalid quote amounts"
  _ ← positive snapshot.amount_out "Invalid quote amounts"
  minimum_out ← positive snapshot.minimum_out "Invalid quote amounts"
  current_in ← positive current.amount_in "Invalid quote amounts"
  current_out ← positive current.amount_out "Invalid quote amounts"
  chain_id ← required snapshot.chain_id "Invalid quote context"
  block ← required snapshot.block_number "Invalid quote context"
  quoted_at ← required snapshot.quoted_at "Invalid quote context"
  current_chain ← required current.chain_id "Invalid quote context"
  current_block ← required current.block_number "Invalid quote context"
  now ← required current.now "Invalid quote context"
  throw_if
      (not (
        chain_id == current_chain
        && same_text snapshot.token_in current.token_in
        && same_text snapshot.token_out current.token_out
        && amount_in == current_in))
      "QuoteTradeChanged"
  throw_if
      (ltb now quoted_at
        || ltb max_age (now - quoted_at)
        || ltb current_block block
        || ltb max_drift (current_block - block))
      "StaleQuote"
  throw_if (ltb current_out minimum_out) "QuotePriceMoved"
  ok (record {
    age_ms = now - quoted_at;
    block_drift = current_block - block;
    minimum_out = minimum_out;
  })
