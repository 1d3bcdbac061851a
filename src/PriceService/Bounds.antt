-- ===== src/PriceService/Bounds.antt =====
-- The mark price stays near the index price, and old prices are not read (oracle-price-service.js).
use lqc_liquidity_chain.Common.{
  ◌≡◌, ◌≢◌, ◌↔◌, inl, inr, Bool, false, some, List, map, arith, Option-cases, ok, Result-cases,
}
use lqc_liquidity_chain.Common.Double.{Double, ◌≼◌, nought, one, IsIeee}
use lqc_liquidity_chain.Common.Dict.{lookup, insert, lookup-insert_self, lookup-insert_ne}
use lqc_liquidity_chain.Common.Text.{Text}
use lqc_liquidity_chain.Common.Validation.{positive_number}
use lqc_liquidity_chain.Oracle.{Source, Validated, validate_oracle_sources}
use lqc_liquidity_chain.PriceService.{
  Price, Config, Service, Refreshed, normalize_symbol, derive_mark_price, check_breaker,
  previous_mark, guard_at, refresh, status_of, readable, readable_price, get_mark_price,
}

module _ {N : Type 0} ⦃d : Double N⦄ where
  open d use {add, sub, mul, div, abs, min, max, lt, le}

  module _ (laws : IsIeee N) where
    open laws use {
      finite_refl, refl_of_le, refl_of_min, refl_of_max, le_trans, min_le_left, le_min, le_max_left,
    }

    -- A mark price that is not NaN, derived where there is an earlier one, lies within the deviation
    -- of the index price, if the lower bound is not above the upper one.
    pub derive_mark_price_bounds :
        (previous index deviation : N) {mark : N}
        → derive_mark_price (some previous) index deviation ≡ ok mark
        → mark ≼ mark
        → mul index (sub one deviation) ≼ mul index (add one deviation)
        → (mul index (sub one deviation) ≼ mark) × (mark ≼ mul index (add one deviation))
    unfolding derive_mark_price positive_number
    derive_mark_price_bounds previous index deviation {mark} h number order =
        let low = mul index (sub one deviation) in
        let high = mul index (add one deviation) in
        ground (
          arith,
          refl_of_min high (max low previous),
          refl_of_max low previous,
          le_max_left low previous,
          le_min high (max low previous) low,
          min_le_left high (max low previous),
        )

  -- A refresh that succeeds stores the price that it returns, under the trimmed upper-case symbol,
  -- and nothing under any other; it tells every listener of it; the price comes from sources that
  -- passed the guard, and passed the circuit breaker against the price stored before.
  pub refresh_effect :
      (c : Config N) (sources : List (Source N)) (now : N) (symbol : Text) (s : Service N)
      {r : Refreshed N} {t : Service N}
      → refresh c sources now symbol s ≡ ok (r, t)
      → (key : Text) × (v : Validated N) × (normalize_symbol symbol ≡ ok key)
        × (validate_oracle_sources (guard_at c now) sources ≡ ok v)
        × (r.next.index_price ≡ v.price)
        × (check_breaker c (lookup key s.prices) v.price ≡ ok tt)
        × (derive_mark_price
              (previous_mark (lookup key s.prices))
              v.price
              c.max_mark_index_deviation_ratio
            ≡ ok r.next.mark_price)
        × (lookup key t.prices ≡ some r.next)
        × ((k : Text) → k ≢ key → lookup k t.prices ≡ lookup k s.prices)
        × (r.deliveries ≡ map (λ l. (l, r.next)) s.listeners)
  unfolding refresh
  refresh_effect c sources now symbol s {r} {t} h = elim (Result-cases (normalize_symbol symbol)) [
    | inr (code, e) ↦ absurd (ground arith)
    | inl (key, ek) ↦ elim (Result-cases (validate_oracle_sources (guard_at c now) sources)) [
      | inr (code, e) ↦ absurd (ground arith)
      | inl (v, ev) ↦
          let stored : t ≡ record s { prices = insert key r.next s.prices } = ground arith in
          let facts : (r.next.index_price ≡ v.price)
              × (check_breaker c (lookup key s.prices) v.price ≡ ok tt)
              × (derive_mark_price (previous_mark (lookup key s.prices)) v.price
                    c.max_mark_index_deviation_ratio
                  ≡ ok r.next.mark_price)
              × (r.deliveries ≡ map (λ l. (l, r.next)) s.listeners) =
            ground arith in
          (
            key,
            v,
            ek,
            ev,
            facts.0,
            facts.1,
            facts.2,
            rw stored (lookup-insert_self key r.next s.prices),
            λ k ne. rw stored (lookup-insert_ne k key r.next s.prices ne),
            facts.3,
          )
    ]
  ]

  -- A mark price is read exactly when one is stored and, unless old prices are asked for, its age is
  -- not above the limit; what is read is the stored mark price.
  get_mark_price_iff :
      (c : Config N) (now : N) (allow_stale : Bool) (symbol key : Text) (s : Service N) (x : N)
      → normalize_symbol symbol ≡ ok key
      → (get_mark_price c now allow_stale symbol s ≡ ok (some x)) ↔ (
          (p : Price N) × (lookup key s.prices ≡ some p)
          × (x ≡ p.mark_price)
          × (allow_stale ≡ false
              → lt c.max_read_age_ms (max nought (sub now p.updated_at)) ≡ false))
  unfolding get_mark_price readable_price readable status_of
  get_mark_price_iff c now allow_stale symbol key s x e = (
    λ h. elim (Option-cases (lookup key s.prices)) [
      | inl missing ↦ absurd (ground arith)
      | inr (p, found) ↦ (p, found, ground arith, λ strict. ground arith)
    ],
    λ (p, found, same, age). ground arith,
  )
