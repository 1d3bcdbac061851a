-- ===== src/Gateway/Capacity.antt =====
-- What the maps of dex/scripts/quote-api-gateway.mjs may hold.
use lqc_liquidity_chain.Common.{
  ℕ, ◌+◌, ◌≤◌, ◌<◌, ◌≡◌, Bool, true, false, not, arith, leb, if◌then◌else◌, same_text, length, All,
  Result, ok, err,
}
use lqc_liquidity_chain.Common.Dict.{lookup, contains}
use lqc_liquidity_chain.Common.Text.{Text}
use lqc_liquidity_chain.Router.Payloads.{QuoteRequest, Ethers}
use lqc_liquidity_chain.Router.QuoteApi.{is_trace}
use lqc_liquidity_chain.Gateway.Requests.{
  GatewayPolicy, authenticate, validate_canonical_quote_request,
}
use lqc_liquidity_chain.Gateway.State.{
  Body, Gateway, Arrival, request_one, accept_one, count_in, caught, purge,
}
use lqc_liquidity_chain.Gateway.Branches.{
  option-holds, if-settles, option-settles, result-settles, length-insert, length-erase, All-insert,
  length-drop_expired_entries,
}
use lqc_liquidity_chain.Gateway.Handler.{
  charge, entry_of, current_usage, replay_key, admit, attempt, settle, arrive, finish, follow,
}

-- No more requests are in flight than may be; with the completed ones they stay below the sum of the
-- two bounds; and no client has used more of its window than the limit.
abbrev pub Fits : GatewayPolicy → Gateway → Type 0
Fits p g =
    (length g.in_flight ≤ p.max_in_flight)
    × (length g.completed + length g.in_flight < p.max_completed_entries + p.max_in_flight)
    × All (λ u. u.1.count ≤ p.limit) g.usage

abbrev FitsAfter : GatewayPolicy → Arrival × Gateway → Type 0
FitsAfter p r = Fits p r.1

current-below :
    (p : GatewayPolicy) (id : Text) (now : ℕ) (g : Gateway)
    → All (λ u. u.1.count ≤ p.limit) g.usage
    → leb p.limit (current_usage p id now g).count ≡ false
    → (current_usage p id now g).count + 1 ≤ p.limit
current-below p id now g h e = ground arith

charge-Fits :
    (p : GatewayPolicy) (id : Text) (now : ℕ) (g : Gateway)
    → Fits p g
    → leb p.limit (current_usage p id now g).count ≡ false
    → Fits p (charge id (current_usage p id now g) g)
charge-Fits p id now g (few, sum, used) e = (
  few,
  sum,
  All-insert (λ u. u.count ≤ p.limit) id _ g.usage (current-below p id now g used e) used,
)

pub purge-Fits : (p : GatewayPolicy) (now : ℕ) (g : Gateway) → Fits p g → Fits p (purge now g)
purge-Fits p now g (few, sum, used) =
    let shorter = length-drop_expired_entries now g.completed in (few, omega arith, used)

admit-Fits :
    (p : GatewayPolicy) (has : Bool) (id key hash trace : Text) (now : ℕ) (g : Gateway)
    → Fits p g
    → FitsAfter p (settle trace (admit p has id key hash trace now g))
unfolding admit caught
admit-Fits p has id key hash trace now g h =
    let P = FitsAfter p in
    let g' = charge id (current_usage p id now g) g in
    if-settles P trace (leb p.limit (current_usage p id now g).count) _ _ (λ _. h)
      (λ free.
        let h' = charge-Fits p id now g h free in
        if-settles P trace (not has) _ _ (λ _. h')
          (λ _.
            if-settles P trace (leb p.max_in_flight (length g.in_flight)) _ _ (λ _. h')
              (λ room.
                if-settles P trace (leb p.max_completed_entries (length g.completed)) _ _ (λ _. h')
                  (λ space.
                    let longer = length-insert key hash g.in_flight in
                    (ground arith, ground arith, h'.2)))))

attempt-Fits :
    (e : Ethers) (p : GatewayPolicy) (has : Bool) (id : Text) (request : QuoteRequest)
    (trace : Text) (now : ℕ) (g : Gateway)
    → Fits p g
    → FitsAfter p (settle trace (attempt e p has id request trace now g))
unfolding attempt caught
attempt-Fits e p has id request trace now g h =
    let P = FitsAfter p in
    let g' = purge now g in
    let h' = purge-Fits p now g h in
    let key = replay_key id request.payload.client_request_id in
    result-settles P trace (validate_canonical_quote_request e request now) _ _
      (λ _.
        option-settles P trace (lookup key g'.completed) _ _
          (λ entry.
            if-settles P trace (not (same_text entry.request_hash request.request_hash)) _ _
              (λ _. h') (λ _. h'))
          (option-settles P trace (lookup key g'.in_flight) _ _
            (λ hash.
              if-settles P trace (not (same_text hash request.request_hash)) _ _ (λ _. h')
                (λ _. h'))
            (admit-Fits p has id key request.request_hash trace now g' h')))
      (λ code. h)

pub arrive-Fits :
    (e : Ethers) (p : GatewayPolicy) (hash : Text → Text) (has : Bool) (authorization : Text)
    (request : QuoteRequest) (trace_id fresh : Text) (now : ℕ) (g : Gateway)
    → Fits p g
    → Fits p (arrive e p hash has authorization request trace_id fresh now g).1
unfolding arrive
arrive-Fits e p hash has authorization request trace_id fresh now g h =
    option-holds (FitsAfter p) (authenticate hash p.clients authorization) _ _ h λ client.
      attempt-Fits e p has client.id request (if is_trace trace_id then trace_id else fresh) now
        (count_in accept_one (count_in request_one g)) h

-- A request that was in flight and is finished leaves room for the entry it may add.
pub finish-Fits :
    (p : GatewayPolicy) (key : Text) (request : QuoteRequest) (trace : Text) (outcome : Result Body)
    (g : Gateway)
    → contains key g.in_flight ≡ true
    → Fits p g
    → Fits p (finish key request trace outcome g).1
unfolding finish caught
finish-Fits p key request trace (err code) g there (few, sum, used) =
    let shorter = length-erase key g.in_flight there in (omega arith, omega arith, used)
finish-Fits p key request trace (ok body) g there (few, sum, used) =
    let shorter = length-erase key g.in_flight there in
    let longer = length-insert key (entry_of request body) g.completed in
    (omega arith, omega arith, used)

pub follow-Fits :
    (p : GatewayPolicy) (trace : Text) (outcome : Result Body) (g : Gateway)
    → Fits p g
    → Fits p (follow trace outcome g).1
unfolding follow caught
follow-Fits p trace (err code) g h = h
follow-Fits p trace (ok body) g h = h
