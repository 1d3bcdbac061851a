-- ===== src/Router/Proofs/Best.antt =====
-- A proof of best execution is one (`buildBestExecutionProof` of dex/app/router-sdk.js).
use lqc_liquidity_chain.Common.{
  ℕ, ◌+◌, ◌≤◌, ◌≡◌, refl, not, ◌||◌, some, List, [], ◌∷◌, map, arith, ltb, ◌==◌, ==_iff, length,
  All, ok, required, map_result, >>=-eq-ok, ok-inj, required-eq-some, not-false, throw_if-eq-ok,
}
use lqc_liquidity_chain.Common.Text.{Text}
use mathlib.Core.Path.{subst}
use lqc_liquidity_chain.Common.Text.{to_lower, has_text}
use lqc_liquidity_chain.Router.Payloads.{
  Leg, Candidate, Proof, Ethers, positive, same_lower, net_of,
}
use lqc_liquidity_chain.Router.Ranking.{
  RankedQuote, net_quote, executable, rank_route_quotes, rank-best, All-sort,
}
use lqc_liquidity_chain.Router.Proofs.{
  CandidateInput, LegInput, ProofInput, candidate_of, read_candidates, read_leg, total_in,
  total_expected, total_minimum, as_quote, id_of, first, is_best_single, check_plan, proof_payload,
  seal_proof, build_best_execution_proof,
}

first-eq-some :
    {A : Type 0} (l : List A) {x : A} → first l ≡ some x → (rest : List A) × (l ≡ x ∷ rest)
first-eq-some [] h = absurd (ground arith)
first-eq-some (y ∷ ys) h = (ys, ground arith)

abbrev IsNet : Candidate → Type 0
IsNet c = c.net_amount_out ≡ net_of c.amount_out c.cost

abbrev IsNetQuote : RankedQuote Candidate → Type 0
IsNetQuote q = q.net_amount_out ≡ net_of q.amount_out q.item.cost

read_candidates-IsNet :
    (e : Ethers) (seen : List Text) (is : List CandidateInput) {cs : List Candidate}
    → read_candidates e seen is ≡ ok cs
    → All IsNet cs
unfolding read_candidates
read_candidates-IsNet e seen [] h = subst (All IsNet) (ok-inj h) tt
read_candidates-IsNet e seen (i ∷ is) h =
    let (_, r₁) = throw_if-eq-ok _ "Invalid proof candidate" _ h in
    let (out, _, r₂) = >>=-eq-ok (positive i.amount_out "Invalid proof candidate") _ r₁ in
    let (cost, _, r₃) = >>=-eq-ok (required i.cost "Invalid proof candidate") _ r₂ in
    let (_, r₄) = throw_if-eq-ok _ "Invalid proof candidate" _ r₃ in
    let (_, er, r₅) = >>=-eq-ok (read_candidates e _ is) _ r₄ in
    let nets : All IsNet (candidate_of i out cost ∷ _) =
      (refl, read_candidates-IsNet e (to_lower i.dex_id ∷ seen) is er) in
    subst (All IsNet) (ok-inj r₅) nets

executable-IsNetQuote : (cs : List Candidate) → All IsNetQuote (executable (map as_quote cs))
unfolding executable net_quote
executable-IsNetQuote [] = tt
executable-IsNetQuote (c ∷ cs) = ground (arith, executable-IsNetQuote cs)

ranked-IsNetQuote : (cs : List Candidate) → All IsNetQuote (rank_route_quotes (map as_quote cs))
unfolding rank_route_quotes
ranked-IsNetQuote cs = All-sort IsNetQuote _ (executable-IsNetQuote cs)

net-le :
    (b : ℕ) (cs : List Candidate)
    → All IsNet cs
    → All (λ q. q.net_amount_out ≤ b) (executable (map as_quote cs))
    → All (λ c. c.net_amount_out ≤ b) cs
unfolding executable net_quote
net-le b [] n h = tt
net-le b (c ∷ cs) (n, ns) h = ground (arith, net-le b cs ns)

-- The plan nets at least what the best candidate does.
check_plan-net :
    (kind : Text) (legs : List Leg) (cost : ℕ) (best : RankedQuote Candidate)
    → IsNetQuote best
    → check_plan kind legs cost best ≡ ok tt
    → best.net_amount_out ≤ net_of (total_expected legs) cost
unfolding check_plan is_best_single
check_plan-net kind [] cost best n h = ground arith
check_plan-net kind (l ∷ []) cost best n h = ground arith
check_plan-net kind (l ∷ k ∷ ls) cost best n h = ground arith

read_leg-minimum :
    (seen : List Text) (i : LegInput) {leg : Leg}
    → read_leg seen i ≡ ok leg
    → leg.minimum_out ≤ leg.expected_out
unfolding read_leg
read_leg-minimum seen i h =
    let (_, r₁) =
      throw_if-eq-ok (not (has_text (to_lower i.dex_id) seen)) "Invalid proof leg" _ h in
    let (_, _, r₂) = >>=-eq-ok (positive i.amount_in "Invalid proof leg") _ r₁ in
    let (expected, _, r₃) = >>=-eq-ok (positive i.expected_out "Invalid proof leg") _ r₂ in
    let (minimum, _, r₄) = >>=-eq-ok (positive i.minimum_out "Invalid proof leg") _ r₃ in
    let (small, r₅) = throw_if-eq-ok (ltb expected minimum) "Invalid proof leg" _ r₄ in
    let below : minimum ≤ expected = ground arith in
    subst (λ (l : Leg). l.minimum_out ≤ l.expected_out) (ok-inj r₅) below

read_legs-minimum :
    (seen : List Text) (is : List LegInput) {legs : List Leg}
    → map_result (read_leg seen) is ≡ ok legs
    → total_minimum legs ≤ total_expected legs
unfolding read_leg
read_legs-minimum seen [] h = ground arith
read_legs-minimum seen (i ∷ is) h =
    let (leg, el, r₁) = >>=-eq-ok (read_leg seen i) _ h in
    let (legs, es, r₂) = >>=-eq-ok (map_result (read_leg seen) is) _ r₁ in
    let below = read_leg-minimum seen i el in
    let rest = read_legs-minimum seen is es in
    let sums : leg.minimum_out + total_minimum legs ≤ leg.expected_out + total_expected legs =
      omega arith in
    subst (λ ls. total_minimum ls ≤ total_expected ls) (ok-inj r₂) sums

All-le_trans :
    (b n : ℕ) (cs : List Candidate)
    → b ≤ n
    → All (λ c. c.net_amount_out ≤ b) cs
    → All (λ c. c.net_amount_out ≤ n) cs
All-le_trans b n [] le h = tt
All-le_trans b n (c ∷ cs) le (h, hs) = (omega arith, All-le_trans b n cs le hs)

-- Sealed by its hash, with legs that take the amount that is swapped, a minimum that is the sum of
-- theirs and not above what is expected, and a plan that nets no less than any candidate.
abbrev pub IsBest : Ethers → Proof → Type 0
IsBest e p =
    (p ≡ seal_proof e p.payload)
    × (total_in p.payload.plan.legs ≡ p.payload.amount_in)
    × (p.payload.plan.minimum_out ≡ total_minimum p.payload.plan.legs)
    × (p.payload.plan.minimum_out ≤ p.payload.plan.expected_out)
    × All (λ c. c.net_amount_out ≤ p.payload.plan.net_amount_out) p.payload.candidates

-- A proof that is built is sealed by the hash of its payload; its legs take the amount that is
-- swapped; its minimum is the sum of theirs and not above what it expects; and no candidate nets more
-- than its plan.
pub build_best_execution_proof-IsBest :
    (e : Ethers) (i : ProofInput) {p : Proof} → build_best_execution_proof e i ≡ ok p → IsBest e p
unfolding build_best_execution_proof proof_payload
build_best_execution_proof-IsBest e i {p} h =
    let (_, r₁) = throw_if-eq-ok (not (i.chain_id == 97)) "Invalid proof context" _ h in
    let (block, _, r₂) = >>=-eq-ok (positive i.quote_block "Invalid proof context") _ r₁ in
    let (expires, _, r₃) = >>=-eq-ok (positive i.expires_at "Invalid proof context") _ r₂ in
    let (_, r₄) =
      throw_if-eq-ok
        (not (e.is_address i.token_in)
          || not (e.is_address i.token_out)
          || same_lower i.token_in i.token_out)
        "Invalid proof trade" _ r₃ in
    let (amount, _, r₅) = >>=-eq-ok (positive i.amount_in "Invalid proof trade") _ r₄ in
    let (_, r₆) =
      throw_if-eq-ok
        (length i.candidates == 0 || ltb (length i.plan_legs) 1 || ltb 4 (length i.plan_legs))
        "Invalid proof routes" _ r₅ in
    let (cs, ec, r₇) = >>=-eq-ok (read_candidates e [] i.candidates) _ r₆ in
    let (best, eb, r₈) =
      >>=-eq-ok
        (required (first (rank_route_quotes (map as_quote cs))) "No executable proof candidate") _
        r₇ in
    let (legs, el, r₉) = >>=-eq-ok (map_result (read_leg (map id_of cs)) i.plan_legs) _ r₈ in
    let (sum, r₁₀) =
      throw_if-eq-ok (not (total_in legs == amount)) "Invalid proof allocation" _ r₉ in
    let (cost, _, r₁₁) = >>=-eq-ok (required i.plan_cost "Invalid proof allocation") _ r₁₀ in
    let (_, ek, r₁₂) = >>=-eq-ok (check_plan i.plan_kind legs cost best) _ r₁₁ in
    let (slip, _, r₁₃) = >>=-eq-ok (required i.slippage_bps "Invalid proof policy") _ r₁₂ in
    let (_, r₁₄) = throw_if-eq-ok (ltb 2000 slip) "Invalid proof policy" _ r₁₃ in
    let (rest, er) = first-eq-some _ (required-eq-some _ "No executable proof candidate" eb) in
    let nets = subst (All IsNetQuote) er (ranked-IsNetQuote cs) in
    let best_is_most =
      net-le best.net_amount_out cs (read_candidates-IsNet e [] i.candidates ec)
        (rank-best (map as_quote cs) er) in
    let plan_net = check_plan-net i.plan_kind legs cost best nets.0 ek in
    let facts : IsBest e
        (seal_proof e (proof_payload i block expires amount slip cs best legs cost)) =
      (
        refl,
        (==_iff (total_in legs) amount).0 (not-false _ sum),
        refl,
        read_legs-minimum _ i.plan_legs el,
        All-le_trans best.net_amount_out _ cs plan_net best_is_most,
      ) in
    subst (IsBest e) (ok-inj r₁₄) facts
