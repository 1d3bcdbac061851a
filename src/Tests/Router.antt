-- ===== src/Tests/Router.antt =====
-- A concrete trade through dex/app/router-sdk.js: its proof, intent, settlement and receipts.
use lqc_liquidity_chain.Common.{ℕ, ◌≡◌, refl, none, some, List, [], ◌∷◌, map, leb, length}
use lqc_liquidity_chain.Common.Text.{Text, codes}
use mathlib.Core.List.{Perm}
use lqc_liquidity_chain.Common.Text.{to_lower, to_lower_twice}
use lqc_liquidity_chain.Router.Payloads.{Proof, Ethers, IsKeccak, positive}
use lqc_liquidity_chain.Router.Ranking.{
  RouteQuote, RankedQuote, Keeps, net_quote, executable, in_order, place, sort, rank_route_quotes,
  IsRanked, rank_route_quotes_sorts,
}
use lqc_liquidity_chain.Router.Proofs.{
  CandidateInput, ProofInput, read_candidates, read_leg, is_best_single, check_plan, improvement,
  proof_payload, build_best_execution_proof,
}
use lqc_liquidity_chain.Router.Proofs.Best.{IsBest, build_best_execution_proof-IsBest}
use lqc_liquidity_chain.Gateway.Requests.{is_lower_hash, is_digest}

-- 32 bytes in hexadecimal
abbrev pub hash_zero : Text
hash_zero = codes "0x0000000000000000000000000000000000000000000000000000000000000000"

abbrev pub hash_a : Text
hash_a = codes "0x00000000000000000000000000000000000000000000000000000000000000aa"

abbrev hash_b : Text
hash_b = codes "0x00000000000000000000000000000000000000000000000000000000000000bb"

-- Every hash is zero, and every text is an address.
abbrev pub plain : Ethers
plain = record {
  is_address = λ t. leb 1 (length t);
  is_hash = λ t. is_lower_hash (to_lower t);
  keccak_json = λ _. hash_zero;
}

pub plain-IsKeccak : IsKeccak plain
unfolding is_lower_hash is_digest to_lower
plain-IsKeccak = record {
  keccak_is_hash = λ _. refl;
  keccak_lower = λ _. refl;
  is_hash_lower = λ t h. rw (to_lower_twice t) h;
}

abbrev candidate_a : CandidateInput
candidate_a = record {
  dex_id = hash_a;
  name = codes "a";
  amount_out = some 100;
  cost = some 10;
  price_impact_bps = 3;
  route_data_hash = hash_zero;
}

abbrev candidate_b : CandidateInput
candidate_b = record {
  dex_id = hash_b;
  name = codes "b";
  amount_out = some 120;
  cost = some 40;
  price_impact_bps = 5;
  route_data_hash = hash_zero;
}

-- The route of `a` nets more.
abbrev proof_input : ProofInput
proof_input = record {
  chain_id = 97;
  quote_block = some 7;
  expires_at = some 1000;
  token_in = codes "T1";
  token_out = codes "t2";
  amount_in = some 50;
  slippage_bps = some 100;
  candidates = candidate_b ∷ candidate_a ∷ [];
  plan_kind = codes "single";
  plan_cost = some 10;
  plan_legs =
      record {
        dex_id = hash_a;
        amount_in = some 50;
        expected_out = some 100;
        minimum_out = some 99;
      }
      ∷ [];
}

abbrev pub proof : Proof
proof = record {
  payload = record {
    version = 1;
    tag = codes "LQC_PROOF_OF_BEST_EXECUTION";
    chain_id = 97;
    quote_block = 7;
    expires_at = 1000;
    token_in = codes "t1";
    token_out = codes "t2";
    amount_in = 50;
    slippage_bps = 100;
    plan = record {
      kind = codes "single";
      legs = record { dex_id = hash_a; amount_in = 50; expected_out = 100; minimum_out = 99 } ∷ [];
      expected_out = 100;
      minimum_out = 99;
      cost = 10;
      net_amount_out = 90;
    };
    best_dex_id = hash_a;
    best_net_amount_out = 90;
    improvement_bps = 0;
    candidates =
        record {
          dex_id = hash_b;
          name = codes "b";
          amount_out = 120;
          cost = 40;
          net_amount_out = 80;
          price_impact_bps = 5;
          route_data_hash = hash_zero;
        }
        ∷ record {
          dex_id = hash_a;
          name = codes "a";
          amount_out = 100;
          cost = 10;
          net_amount_out = 90;
          price_impact_bps = 3;
          route_data_hash = hash_zero;
        }
        ∷ [];
  };
  proof_hash = hash_zero;
}

build_best_execution_proof-IsBest_example : IsBest plain proof
unfolding build_best_execution_proof read_candidates read_leg check_plan is_best_single
    proof_payload improvement positive rank_route_quotes executable net_quote sort place in_order
    is_lower_hash is_digest to_lower
build_best_execution_proof-IsBest_example =
    build_best_execution_proof-IsBest plain proof_input {p = proof} refl

abbrev quotes : List (RouteQuote ℕ)
quotes =
    record { item = 0; amount_out = some 30; cost = none; priority = 1 }
    ∷ record { item = 1; amount_out = none; cost = none; priority = 9 }
    ∷ record { item = 2; amount_out = some 40; cost = some 10; priority = 2 }
    ∷ []

-- The quotes net the same, and the priority decides.
rank_check : map (λ q. q.item) (rank_route_quotes quotes) ≡ 2 ∷ 0 ∷ []
unfolding rank_route_quotes executable net_quote sort place in_order
rank_check = refl

rank_route_quotes_sorts_example :
    ((found : List (RankedQuote ℕ)) × Keeps quotes found × Perm (rank_route_quotes quotes) found)
    × IsRanked (rank_route_quotes quotes)
rank_route_quotes_sorts_example = rank_route_quotes_sorts quotes
