-- ===== src/PriceService.antt =====
-- dex/app/futures/oracle-price-service.js: the guarded index price and the bounded mark price.
pub mod Bounds
use lqc_liquidity_chain.Common.{
  ℕ, Bool, true, false, not, ◌&&◌, ◌||◌, Option, none, some, List, [], ◌∷◌, ◌++◌, map, ◌==◌,
  if◌then◌else◌, length, filter, Result, ok, err, ◌>>=◌, ◌>>◌, throw_if,
}
use lqc_liquidity_chain.Common.Double.{Double, nought, one}
use lqc_liquidity_chain.Common.Dict.{Dict, lookup, insert}
use lqc_liquidity_chain.Common.Text.{Text, to_upper, trim, is_empty}
use lqc_liquidity_chain.Common.Validation.{positive_number}
use lqc_liquidity_chain.Oracle.{
  Source, GuardOptions, validate_oracle_sources, price_circuit_breaker,
}

pub record Price (N : Type 0) : Type 0 where
  pub symbol : Text
  pub index_price : N
  pub mark_price : N
  pub mark_index_deviation_ratio : N
  pub updated_at : N
  pub source_count : ℕ
  pub rejected_count : ℕ
  pub source_spread_ratio : N

-- The arguments of `createOraclePriceService`; `guard` has the time of the call put in.
pub record Config (N : Type 0) : Type 0 where
  pub guard : GuardOptions N
  pub max_move_ratio : N
  pub max_mark_index_deviation_ratio : N
  pub max_read_age_ms : N

-- `prices` and `listeners`; a listener is known by a number.
pub record Service (N : Type 0) : Type 0 where
  pub prices : Dict (Price N)
  pub listeners : List ℕ

pub record Status (N : Type 0) : Type 0 where
  pub symbol : Text
  pub available : Bool
  pub healthy : Bool
  pub stale : Bool
  pub age_ms : Option N
  pub current : Option (Price N)

pub record Refreshed (N : Type 0) : Type 0 where
  pub next : Price N
  pub deliveries : List (ℕ × Price N)

unfoldable pub normalize_symbol : Text → Result Text
normalize_symbol s =
    let key = to_upper (trim s) in if is_empty key then err "ORACLE_SYMBOL_REQUIRED" else ok key

module _ {N : Type 0} ⦃d : Double N⦄ where
  open d use {add, sub, mul, div, abs, min, max, lt, le, is_finite}

  unfoldable pub derive_mark_price : Option N → N → N → Result N
  derive_mark_price previous_mark index_price max_deviation = do
    index ← positive_number index_price "INVALID_INDEX_PRICE"
    elim previous_mark [
      | none ↦ ok index
      | some p ↦ do
        previous ← positive_number p "INVALID_PREVIOUS_MARK_PRICE"
        deviation ← positive_number max_deviation "INVALID_MARK_INDEX_DEVIATION"
        let lower = mul index (sub one deviation)
        let upper = mul index (add one deviation)
        ok (min upper (max lower previous))
    ]

  unfoldable pub create_oracle_price_service : Config N → Result (Service N)
  create_oracle_price_service c = do
    throw_if (not (is_finite c.max_read_age_ms) || lt c.max_read_age_ms nought)
        "INVALID_ORACLE_READ_AGE"
    _ ← positive_number c.max_mark_index_deviation_ratio "INVALID_MARK_INDEX_DEVIATION"
    ok (record { prices = []; listeners = [] })

  -- the circuit breaker, where there is an earlier price
  unfoldable pub check_breaker : Config N → Option (Price N) → N → Result (Unit {0})
  check_breaker c none price = ok tt
  check_breaker c (some previous) price = do
    breaker ← price_circuit_breaker previous.index_price price c.max_move_ratio
    throw_if (not breaker.allowed) "ORACLE_PRICE_CIRCUIT_BREAKER"

  abbrev pub previous_mark : Option (Price N) → Option N
  previous_mark none = none
  previous_mark (some p) = some p.mark_price

  abbrev pub guard_at : Config N → N → GuardOptions N
  guard_at c now = record (c.guard) { now = now }

  -- `sources` is what the source provider gives for the symbol.
  unfoldable pub refresh :
      Config N → List (Source N) → N → Text → Service N → Result (Refreshed N × Service N)
  refresh c sources now symbol s = do
    key ← normalize_symbol symbol
    validated ← validate_oracle_sources (guard_at c now) sources
    let previous = lookup key s.prices
    check_breaker c previous validated.price
    mark ←
        derive_mark_price (previous_mark previous) validated.price c.max_mark_index_deviation_ratio
    let next : Price N = record {
      symbol = key;
      index_price = validated.price;
      mark_price = mark;
      mark_index_deviation_ratio = div (abs (sub mark validated.price)) validated.price;
      updated_at = now;
      source_count = length validated.accepted;
      rejected_count = validated.rejected_count;
      source_spread_ratio = validated.source_spread_ratio;
    }
    ok (
      record { next = next; deliveries = map (λ l. (l, next)) s.listeners },
      record s { prices = insert key next s.prices },
    )

  unfoldable pub status_of : Config N → N → Text → Option (Price N) → Status N
  status_of c now key none = record {
    symbol = key;
    available = false;
    healthy = false;
    stale = true;
    age_ms = none;
    current = none;
  }
  status_of c now key (some p) =
      let age = max nought (sub now p.updated_at) in
      let stale = lt c.max_read_age_ms age in
      record {
        symbol = key;
        available = true;
        healthy = not stale;
        stale = stale;
        age_ms = some age;
        current = some p;
      }

  unfoldable pub get_status : Config N → N → Text → Service N → Result (Status N)
  unfolding status_of
  get_status c now symbol s = do
    key ← normalize_symbol symbol
    ok (status_of c now key (lookup key s.prices))

  -- the field of a price that may be read, or `none`
  unfoldable pub readable : Config N → (Price N → N) → N → Bool → Text → Option (Price N) → Option N
  unfolding status_of
  readable c field now allow_stale key none = none
  readable c field now allow_stale key (some p) =
      let status = status_of c now key (some p) in
      if not allow_stale && (not status.healthy || status.stale) then none else some (field p)

  -- `normalizeSymbol` has no effect on the key that `getStatus` is called with.
  unfoldable pub readable_price :
      Config N → (Price N → N) → N → Bool → Text → Service N → Result (Option N)
  unfolding readable
  readable_price c field now allow_stale symbol s = do
    key ← normalize_symbol symbol
    ok (readable c field now allow_stale key (lookup key s.prices))

  unfoldable pub get_index_price : Config N → N → Bool → Text → Service N → Result (Option N)
  unfolding readable_price
  get_index_price c = readable_price c (λ p. p.index_price)

  unfoldable pub get_mark_price : Config N → N → Bool → Text → Service N → Result (Option N)
  unfolding readable_price
  get_mark_price c = readable_price c (λ p. p.mark_price)

abbrev pub has_listener : ℕ → List ℕ → Bool
has_listener l [] = false
has_listener l (k ∷ ks) = l == k || has_listener l ks

module _ {N : Type 0} where
  unfoldable pub subscribe : ℕ → Service N → Service N
  subscribe l s = record s {
    listeners = if has_listener l s.listeners then s.listeners else s.listeners ++ (l ∷ []);
  }

  -- the function that `subscribe` returns
  unfoldable pub unsubscribe : ℕ → Service N → Service N
  unsubscribe l s = record s { listeners = filter (λ k. not (k == l)) s.listeners }
