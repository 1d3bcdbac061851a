-- ===== src/Listing.antt =====
-- dex/app/futures/listing-activation-gate.js: what a market needs before it is activated.
pub mod Approved
use lqc_liquidity_chain.Common.{
  ℕ, Bool, true, false, not, ◌||◌, Option, none, some, List, [], ◌∷◌, ltb, if◌then◌else◌, filter,
  every, Result, ok, ◌>>=◌, ◌>>◌, throw_if, required,
}
use lqc_liquidity_chain.Common.Double.{Double, nought, one}
use lqc_liquidity_chain.Common.Text.{Text}
use lqc_liquidity_chain.Markets.{Market, MarketStatus, demo, validate_futures_market}

pub data ListingStatus : Type 0 where
  pending active : ListingStatus

-- `min_sources` is `none` where it is no integer that is at least zero.
pub record OracleConfig (N : Type 0) : Type 0 where
  pub min_sources : Option ℕ
  pub max_age_ms : N
  pub max_deviation_ratio : N

-- The three limits that must be there, `none` where missing, and any further ones.
pub record LimitConfig (N : Type 0) : Type 0 where
  pub max_open_interest : Option N
  pub max_position_notional : Option N
  pub max_order_notional : Option N
  pub others : List N

pub data Approval : Type 0 where
  oracle_validated risk_validated liquidation_stress_passed insurance_adl_stress_passed
        security_gate_passed activation_approved :
      Approval

pub record Candidate (N : Type 0) : Type 0 where
  pub market : Option (Market N)
  pub oracle : Option (OracleConfig N)
  pub risk_limits : Option (LimitConfig N)
  pub approvals : Option (Approval → Bool)

pub record Gate : Type 0 where
  pub symbol : Text
  pub status : ListingStatus
  pub activatable : Bool
  pub missing : List Approval

abbrev pub required_approvals : List Approval
required_approvals =
    oracle_validated ∷ risk_validated ∷ liquidation_stress_passed ∷ insurance_adl_stress_passed
    ∷ security_gate_passed ∷ activation_approved ∷ []

abbrev pub none_missing : List Approval → Bool
none_missing [] = true
none_missing (_ ∷ _) = false

abbrev pub is_demo : MarketStatus → Bool
is_demo demo = true
is_demo _ = false

module _ {N : Type 0} ⦃d : Double N⦄ where
  open d use {lt, le, is_finite}

  unfoldable pub check_oracle : OracleConfig N → Result (Unit {0})
  check_oracle o = do
    throw_if (elim o.min_sources [ none ↦ true | some n ↦ ltb n 3 ])
        "LISTING_ORACLE_REQUIRES_THREE_SOURCES"
    throw_if (not (is_finite o.max_age_ms) || le o.max_age_ms nought)
        "INVALID_LISTING_ORACLE_MAX_AGE"
    throw_if
        (not (is_finite o.max_deviation_ratio)
          || le o.max_deviation_ratio nought
          || le one o.max_deviation_ratio)
        "INVALID_LISTING_ORACLE_DEVIATION"

  abbrev pub bad_limit : N → Bool
  bad_limit x = not (is_finite x) || le x nought

  -- The messages of the `for` loops leave the name of the limit out.
  unfoldable pub check_limits : LimitConfig N → Result (Unit {0})
  check_limits l = do
    interest ← required l.max_open_interest "MISSING_LISTING_RISK_LIMIT"
    position ← required l.max_position_notional "MISSING_LISTING_RISK_LIMIT"
    order ← required l.max_order_notional "MISSING_LISTING_RISK_LIMIT"
    throw_if (not (every (λ x. not (bad_limit x)) (interest ∷ position ∷ order ∷ l.others)))
        "INVALID_LISTING_RISK_LIMIT"
    throw_if (lt position order) "LISTING_ORDER_LIMIT_EXCEEDS_POSITION_LIMIT"
    throw_if (lt interest position) "LISTING_POSITION_LIMIT_EXCEEDS_OPEN_INTEREST"

  unfoldable pub validate_futures_listing_candidate : Candidate N → Result Gate
  validate_futures_listing_candidate c = do
    throw_if (not (validate_futures_market c.market)) "INVALID_FUTURES_LISTING_MARKET"
    market ← required c.market "INVALID_FUTURES_LISTING_MARKET"
    throw_if (not (is_demo market.status)) "FUTURES_LISTING_CANDIDATE_MUST_BE_DEMO"
    oracle ← required c.oracle "LISTING_ORACLE_CONFIG_REQUIRED"
    check_oracle oracle
    limits ← required c.risk_limits "LISTING_RISK_LIMITS_REQUIRED"
    check_limits limits
    approved ← required c.approvals "LISTING_APPROVALS_REQUIRED"
    let missing = filter (λ a. not (approved a)) required_approvals
    ok (record {
      symbol = market.symbol;
      status = if none_missing missing then active else pending;
      activatable = none_missing missing;
      missing = missing;
    })

  unfoldable pub activate_futures_listing : Candidate N → Result (Text × ListingStatus)
  activate_futures_listing c = do
    result ← validate_futures_listing_candidate c
    throw_if (not result.activatable) "FUTURES_LISTING_ACTIVATION_BLOCKED"
    ok (result.symbol, active)
