-- ===== src/Router/Proofs.antt =====
-- `buildBestExecutionProof` and `verifyBestExecutionProof` of dex/app/router-sdk.js.
pub mod Best
use lqc_liquidity_chain.Common.{
  ℕ, ◌+◌, ◌-◌, ◌*◌, ◌/◌, Bool, false, not, ◌&&◌, ◌||◌, Option, none, some, List, [], ◌∷◌, map, ltb,
  leb, ◌==◌, if◌then◌else◌, same_text, length, Result, ok, ◌>>=◌, ◌>>◌, throw_if, required,
  map_result,
}
use lqc_liquidity_chain.Common.Text.{Text, codes}
use lqc_liquidity_chain.Common.Text.{to_lower, has_text}
use lqc_liquidity_chain.Router.Payloads.{
  Leg, Candidate, ProofPayload, Proof, of_proof, Ethers, same_lower, positive, net_of,
}
use lqc_liquidity_chain.Router.Ranking.{RouteQuote, RankedQuote, rank_route_quotes}

-- An amount is `none` where it is no bigint of at least zero.
pub record CandidateInput : Type 0 where
  pub dex_id : Text
  pub name : Text
  pub amount_out : Option ℕ
  pub cost : Option ℕ
  pub price_impact_bps : ℕ
  pub route_data_hash : Text

pub record LegInput : Type 0 where
  pub dex_id : Text
  pub amount_in : Option ℕ
  pub expected_out : Option ℕ
  pub minimum_out : Option ℕ

pub record ProofInput : Type 0 where
  pub chain_id : ℕ
  pub quote_block : Option ℕ
  pub expires_at : Option ℕ
  pub token_in : Text
  pub token_out : Text
  pub amount_in : Option ℕ
  pub slippage_bps : Option ℕ
  pub candidates : List CandidateInput
  pub plan_kind : Text
  pub plan_cost : Option ℕ
  pub plan_legs : List LegInput

abbrev pub candidate_of : CandidateInput → ℕ → ℕ → Candidate
candidate_of c amount_out cost = record {
  dex_id = to_lower c.dex_id;
  name = c.name;
  amount_out = amount_out;
  cost = cost;
  net_amount_out = net_of amount_out cost;
  price_impact_bps = c.price_impact_bps;
  route_data_hash = to_lower c.route_data_hash;
}

module _ (e : Ethers) where
  -- `seen` holds the identifiers of the candidates so far.
  unfoldable pub read_candidates : List Text → List CandidateInput → Result (List Candidate)
  read_candidates seen [] = ok []
  read_candidates seen (c ∷ cs) = do
    let id = to_lower c.dex_id
    throw_if (not (e.is_hash c.dex_id) || has_text id seen) "Invalid proof candidate"
    amount_out ← positive c.amount_out "Invalid proof candidate"
    cost ← required c.cost "Invalid proof candidate"
    throw_if (not (e.is_hash c.route_data_hash)) "Invalid proof candidate"
    rest ← read_candidates (id ∷ seen) cs
    ok (candidate_of c amount_out cost ∷ rest)

unfoldable pub read_leg : List Text → LegInput → Result Leg
read_leg seen leg = do
  throw_if (not (has_text (to_lower leg.dex_id) seen)) "Invalid proof leg"
  amount_in ← positive leg.amount_in "Invalid proof leg"
  expected_out ← positive leg.expected_out "Invalid proof leg"
  minimum_out ← positive leg.minimum_out "Invalid proof leg"
  throw_if (ltb expected_out minimum_out) "Invalid proof leg"
  ok (record {
    dex_id = to_lower leg.dex_id;
    amount_in = amount_in;
    expected_out = expected_out;
    minimum_out = minimum_out;
  })

-- The sums that the loop over the legs accumulates.
abbrev pub total_in : List Leg → ℕ
total_in [] = 0
total_in (l ∷ ls) = l.amount_in + total_in ls

abbrev pub total_expected : List Leg → ℕ
total_expected [] = 0
total_expected (l ∷ ls) = l.expected_out + total_expected ls

abbrev pub total_minimum : List Leg → ℕ
total_minimum [] = 0
total_minimum (l ∷ ls) = l.minimum_out + total_minimum ls

abbrev pub as_quote : Candidate → RouteQuote Candidate
as_quote c = record { item = c; amount_out = some c.amount_out; cost = some c.cost; priority = 0 }

abbrev pub id_of : Candidate → Text
id_of c = c.dex_id

abbrev pub first : {A : Type 0} → List A → Option A
first [] = none
first (x ∷ xs) = some x

abbrev pub is_single : Text → Bool
is_single kind = same_text kind (codes "single")

abbrev pub is_split : Text → Bool
is_split kind = same_text kind (codes "split")

-- The one leg is the route of the best candidate.
unfoldable pub is_best_single : List Leg → ℕ → RankedQuote Candidate → Bool
is_best_single (leg ∷ []) cost best =
    same_text leg.dex_id best.item.dex_id
    && leg.expected_out == best.amount_out
    && cost == best.item.cost
is_best_single _ cost best = false

unfoldable pub check_plan : Text → List Leg → ℕ → RankedQuote Candidate → Result (Unit {0})
unfolding is_best_single
check_plan kind legs cost best = do
  throw_if (is_single kind && not (is_best_single legs cost best))
      "Single route is not best execution"
  throw_if
      (is_split kind
        && (ltb (length legs) 2 || leb (net_of (total_expected legs) cost) best.net_amount_out))
      "Split route does not improve best execution"
  throw_if (not (is_single kind || is_split kind)) "Invalid proof policy"

unfoldable pub improvement : ℕ → ℕ → ℕ
improvement net best = if ltb best net then (net - best) * 10000 / best else 0

unfoldable pub proof_payload :
    ProofInput
    → ℕ
    → ℕ
    → ℕ
    → ℕ
    → List Candidate
    → RankedQuote Candidate
    → List Leg
    → ℕ
    → ProofPayload
unfolding improvement
proof_payload i quote_block expires_at amount_in slippage candidates best legs cost =
    let expected = total_expected legs in
    let net = net_of expected cost in
    record {
      version = 1;
      tag = codes "LQC_PROOF_OF_BEST_EXECUTION";
      chain_id = 97;
      quote_block = quote_block;
      expires_at = expires_at;
      token_in = to_lower i.token_in;
      token_out = to_lower i.token_out;
      amount_in = amount_in;
      slippage_bps = slippage;
      plan = record {
        kind = i.plan_kind;
        legs = legs;
        expected_out = expected;
        minimum_out = total_minimum legs;
        cost = cost;
        net_amount_out = net;
      };
      best_dex_id = best.item.dex_id;
      best_net_amount_out = best.net_amount_out;
      improvement_bps = improvement net best.net_amount_out;
      candidates = candidates;
    }

module _ (e : Ethers) where
  abbrev pub seal_proof : ProofPayload → Proof
  seal_proof payload = record { payload = payload; proof_hash = e.keccak_json (of_proof payload) }

  unfoldable pub build_best_execution_proof : ProofInput → Result Proof
  build_best_execution_proof i = do
    throw_if (not (i.chain_id == 97)) "Invalid proof context"
    quote_block ← positive i.quote_block "Invalid proof context"
    expires_at ← positive i.expires_at "Invalid proof context"
    throw_if
        (not (e.is_address i.token_in)
          || not (e.is_address i.token_out)
          || same_lower i.token_in i.token_out)
        "Invalid proof trade"
    amount_in ← positive i.amount_in "Invalid proof trade"
    throw_if (length i.candidates == 0 || ltb (length i.plan_legs) 1 || ltb 4 (length i.plan_legs))
        "Invalid proof routes"
    candidates ← read_candidates e [] i.candidates
    best ←
        required (first (rank_route_quotes (map as_quote candidates)))
          "No executable proof candidate"
    legs ← map_result (read_leg (map id_of candidates)) i.plan_legs
    throw_if (not (total_in legs == amount_in)) "Invalid proof allocation"
    cost ← required i.plan_cost "Invalid proof allocation"
    check_plan i.plan_kind legs cost best
    slippage ← required i.slippage_bps "Invalid proof policy"
    throw_if (ltb 2000 slippage) "Invalid proof policy"
    ok (
        seal_proof
          (proof_payload i quote_block expires_at amount_in slippage candidates best legs cost))

  unfoldable pub verify_best_execution_proof : Proof → Bool
  verify_best_execution_proof p =
      e.is_hash p.proof_hash && same_lower (e.keccak_json (of_proof p.payload)) p.proof_hash
