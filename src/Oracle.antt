-- ===== src/Oracle.antt =====
-- dex/app/futures/oracle-guard.js: the median of several price sources, and the circuit breaker.
pub mod Accepted
use lqc_liquidity_chain.Common.{
  ℕ, zero, suc, ◌-◌, ◌/◌, ◌%◌, Bool, false, ◌&&◌, ◌||◌, List, [], ◌∷◌, map, ltb, ◌==◌,
  if◌then◌else◌, same_text, length, filter, Result, ok, ◌>>=◌, ◌>>◌, throw_if,
}
use lqc_liquidity_chain.Common.Double.{Double, nought}
use lqc_liquidity_chain.Common.Text.{Text, is_empty}
use lqc_liquidity_chain.Common.Validation.{positive_number, non_negative_number}

pub record Source (N : Type 0) : Type 0 where
  pub id : Text
  pub price : N
  pub timestamp : N

-- a source that was checked
pub record Reading (N : Type 0) : Type 0 where
  pub id : Text
  pub price : N
  pub timestamp : N
  pub age_ms : N

pub record GuardOptions (N : Type 0) : Type 0 where
  pub now : N
  pub max_age_ms : N
  pub max_deviation_ratio : N
  pub max_source_spread_ratio : N
  pub min_sources : ℕ
  pub production_mode : Bool

pub record Validated (N : Type 0) : Type 0 where
  pub price : N
  pub reference_price : N
  pub accepted : List (Reading N)
  pub rejected_count : ℕ
  pub source_spread_ratio : N

pub record Breaker (N : Type 0) : Type 0 where
  pub allowed : Bool
  pub move_ratio : N
  pub previous_price : N
  pub next_price : N

-- `sourceIds.has(id)`
abbrev pub has_id : Text → List Text → Bool
has_id i [] = false
has_id i (j ∷ js) = same_text i j || has_id i js

module _ {N : Type 0} ⦃d : Double N⦄ where
  open d use {decimal, infinity, add, sub, div, neg, abs, min, max, lt, le}

  unfoldable pub insert_sorted : N → List N → List N
  insert_sorted x [] = x ∷ []
  insert_sorted x (y ∷ ys) = if lt y x then y ∷ insert_sorted x ys else x ∷ y ∷ ys

  -- `sort((a, b) => a - b)`
  unfoldable pub sort_numbers : List N → List N
  unfolding insert_sorted
  sort_numbers [] = []
  sort_numbers (x ∷ xs) = insert_sorted x (sort_numbers xs)

  -- `xs[i]`, at an index that is in range
  abbrev pub get_or : N → List N → ℕ → N
  get_or e [] i = e
  get_or e (x ∷ xs) zero = x
  get_or e (x ∷ xs) (suc i) = get_or e xs i

  unfoldable pub median : List N → N
  unfolding sort_numbers
  median xs =
      let sorted = sort_numbers xs in
      let middle = length sorted / 2 in
      if length sorted % 2 == 0
      then div (add (get_or nought sorted (middle - 1)) (get_or nought sorted middle)) (decimal 2 0)
      else get_or nought sorted middle

  -- `Math.min(...xs)`, `Math.max(...xs)`
  abbrev pub minimum : List N → N
  minimum [] = infinity
  minimum (x ∷ xs) = min x (minimum xs)

  abbrev pub maximum : List N → N
  maximum [] = neg infinity
  maximum (x ∷ xs) = max x (maximum xs)

  abbrev pub prices : List (Reading N) → List N
  prices = map (λ r. r.price)

  unfoldable pub spread_ratio : List (Reading N) → N
  spread_ratio rs = let low = minimum (prices rs) in div (sub (maximum (prices rs)) low) low

  -- one round of the `map`, with the identifiers seen before
  unfoldable pub read_source : N → List Text → Source N → Result (Reading N)
  read_source now seen s = do
    throw_if (is_empty s.id) "ORACLE_SOURCE_ID_REQUIRED"
    throw_if (has_id s.id seen) "DUPLICATE_ORACLE_SOURCE_ID"
    price ← positive_number s.price "INVALID_ORACLE_PRICE"
    timestamp ← non_negative_number s.timestamp "INVALID_ORACLE_TIMESTAMP"
    throw_if (lt now timestamp) "ORACLE_TIMESTAMP_IN_FUTURE"
    ok (record { id = s.id; price = price; timestamp = timestamp; age_ms = sub now timestamp })

  unfoldable pub read_sources : N → List Text → List (Source N) → Result (List (Reading N))
  read_sources now seen [] = ok []
  read_sources now seen (s ∷ ss) = do
    r ← read_source now seen s
    rest ← read_sources now (s.id ∷ seen) ss
    ok (r ∷ rest)

  abbrev pub is_fresh : N → Reading N → Bool
  is_fresh max_age r = le r.age_ms max_age

  abbrev pub is_near : N → N → Reading N → Bool
  is_near reference max_deviation r = le (div (abs (sub r.price reference)) reference) max_deviation

  -- what follows the reading of the sources
  unfoldable pub aggregate : GuardOptions N → ℕ → List (Reading N) → Result (Validated N)
  aggregate o total valid = do
    throw_if (ltb (length valid) o.min_sources) "INSUFFICIENT_FRESH_ORACLE_SOURCES"
    throw_if (length valid == 2 && lt o.max_source_spread_ratio (spread_ratio valid))
        "ORACLE_SOURCE_SPREAD_TOO_HIGH"
    let reference = median (prices valid)
    let accepted = filter (is_near reference o.max_deviation_ratio) valid
    throw_if (ltb (length accepted) o.min_sources) "ORACLE_PRICE_DEVIATION_TOO_HIGH"
    throw_if (lt o.max_source_spread_ratio (spread_ratio accepted)) "ORACLE_SOURCE_SPREAD_TOO_HIGH"
    ok (record {
      price = median (prices accepted);
      reference_price = reference;
      accepted = accepted;
      rejected_count = total - length accepted;
      source_spread_ratio = spread_ratio accepted;
    })

  unfoldable pub validate_oracle_sources : GuardOptions N → List (Source N) → Result (Validated N)
  validate_oracle_sources o sources = do
    throw_if (ltb o.min_sources 2) "INVALID_MIN_ORACLE_SOURCES"
    throw_if (o.production_mode && ltb o.min_sources 3) "PRODUCTION_ORACLE_REQUIRES_THREE_SOURCES"
    now ← non_negative_number o.now "INVALID_ORACLE_TIME"
    max_age ← positive_number o.max_age_ms "INVALID_ORACLE_MAX_AGE"
    _ ← positive_number o.max_deviation_ratio "INVALID_ORACLE_DEVIATION"
    _ ← positive_number o.max_source_spread_ratio "INVALID_ORACLE_SOURCE_SPREAD"
    readings ← read_sources now [] sources
    aggregate o (length sources) (filter (is_fresh max_age) readings)

  unfoldable pub price_circuit_breaker : N → N → N → Result (Breaker N)
  price_circuit_breaker previous_price next_price max_move_ratio = do
    previous ← positive_number previous_price "INVALID_PREVIOUS_PRICE"
    next ← positive_number next_price "INVALID_NEXT_PRICE"
    max_move ← positive_number max_move_ratio "INVALID_MAX_PRICE_MOVE"
    let move_ratio = div (abs (sub next previous)) previous
    ok (record {
      allowed = le move_ratio max_move;
      move_ratio = move_ratio;
      previous_price = previous;
      next_price = next;
    })
