-- ===== src/Gateway/Replay.antt =====
-- A request that is sent again: `handleQuote` of dex/scripts/quote-api-gateway.mjs.
use lqc_liquidity_chain.Common.{
  ℕ, ◌≤◌, ◌≡◌, refl, sym, ap, inl, inr, Bool, true, false, some, [], ◌∷◌, arith, ltb, if◌then◌else◌,
  Bool-cases, same_text, same_text_refl, ok,
}
use lqc_liquidity_chain.Common.Dict.{Dict, lookup, erase, lookup-insert_self}
use lqc_liquidity_chain.Common.Text.{Text}
use mathlib.Core.Path.{subst}
use lqc_liquidity_chain.Router.Payloads.{QuoteRequest, Ethers}
use lqc_liquidity_chain.Router.QuoteApi.{is_trace}
use lqc_liquidity_chain.Gateway.Requests.{
  Client, GatewayPolicy, authenticate, validate_canonical_quote_request,
}
use lqc_liquidity_chain.Gateway.State.{
  Body, CompletedEntry, Gateway, success, answered, request_one, accept_one, replay, count_in,
  drop_expired_entries, purge,
}
use lqc_liquidity_chain.Gateway.Handler.{
  replay_key, retraced, attempt, settle, arrive, entry_of, finish,
}

lookup-drop_expired_entries :
    (k : Text) (now : ℕ) (d : Dict CompletedEntry) {v : CompletedEntry}
    → lookup k d ≡ some v
    → now ≤ v.expires_at
    → lookup k (drop_expired_entries now d) ≡ some v
unfolding drop_expired_entries
lookup-drop_expired_entries k now [] h le = absurd (ground arith)
lookup-drop_expired_entries k now (x ∷ d) {v} h le =
    let rest = drop_expired_entries now d in
    elim (Bool-cases (same_text k x.0)) [
      | inl t ↦
          let here : x.1 ≡ v = ground arith in
          let fresh : ltb x.1.expires_at now ≡ false =
            subst (λ (w : CompletedEntry). ltb w.expires_at now ≡ false) (sym here)
              (ground arith) in
          subst (λ b. lookup k (if b then rest else x ∷ rest) ≡ some v) (sym fresh)
            (rw t (ap some here))
      | inr f ↦
          let later = lookup-drop_expired_entries k now d (rw f at h) le in
          elim (ltb x.1.expires_at now) as (λ b. lookup k (if b then rest else x ∷ rest) ≡ some v) [
            | true ↦ later
            | false ↦ rw f later
          ]
    ]

module _ (e : Ethers) (p : GatewayPolicy) (hash : Text → Text) where
  attempt-replays :
      (has : Bool) (id : Text) (request : QuoteRequest) (trace : Text) (now : ℕ) (g : Gateway)
      {entry : CompletedEntry}
      → validate_canonical_quote_request e request now ≡ ok tt
      → lookup (replay_key id request.payload.client_request_id) g.completed ≡ some entry
      → entry.request_hash ≡ request.request_hash
      → now ≤ entry.expires_at
      → attempt e p has id request trace now g
        ≡ (ok (answered (success (retraced trace entry.body) true)), count_in replay (purge now g))
  unfolding attempt
  attempt-replays has id request trace now g {entry} valid known same le =
      let kept = lookup-drop_expired_entries _ now g.completed known le in
      let one_hash = same_text_refl request.request_hash in
      rw (valid, attempt) (rw (kept, same, one_hash) refl)

  arrive-known :
      (has : Bool) (authorization : Text) {client : Client} (request : QuoteRequest)
      (trace_id fresh : Text) (now : ℕ) (g : Gateway)
      → authenticate hash p.clients authorization ≡ some client
      → let trace = if is_trace trace_id then trace_id else fresh in
        arrive e p hash has authorization request trace_id fresh now g
        ≡ settle trace (
            attempt e p has client.id request trace now
              (count_in accept_one (count_in request_one g)))
  unfolding arrive
  arrive-known has authorization request trace_id fresh now g auth = rw (auth, arrive) refl

  -- What a request that was started is answered is what the same request is answered again, under its
  -- own trace, for as long as the proof has not expired; the repetition is marked as one, nothing is
  -- asked of the provider, and nothing is taken from the client's limit.
  pub finish-replays :
      (has : Bool) (authorization : Text) (client : Client) (request : QuoteRequest)
      (trace trace_id fresh : Text) (body : Body) (now : ℕ) (g : Gateway)
      → authenticate hash p.clients authorization ≡ some client
      → validate_canonical_quote_request e request now ≡ ok tt
      → now ≤ body.proof.payload.expires_at
      → let key = replay_key client.id request.payload.client_request_id in
        let (first, after) = finish key request trace (ok body) g in
        let again = arrive e p hash has authorization request trace_id fresh now after in
        (first ≡ success body false)
        × (again.0
            ≡ answered
                (success (retraced (if is_trace trace_id then trace_id else fresh) body) true))
        × (again.1.usage ≡ g.usage)
        × (again.1.in_flight ≡ erase key g.in_flight)
  unfolding finish
  finish-replays has authorization client request trace trace_id fresh body now g auth valid le =
      let key = replay_key client.id request.payload.client_request_id in
      let after = (finish key request trace (ok body) g).1 in
      let counted = count_in accept_one (count_in request_one after) in
      let trace' = if is_trace trace_id then trace_id else fresh in
      let held : lookup key counted.completed ≡ some (entry_of request body) =
        lookup-insert_self key (entry_of request body) g.completed in
      let replays = attempt-replays has client.id request trace' now counted valid held refl le in
      let again = arrive-known has authorization request trace_id fresh now after auth in
      (refl, rw (again, replays) refl, rw (again, replays) refl, rw (again, replays) refl)
