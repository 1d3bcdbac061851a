-- ===== src/Markets/Registry.antt =====
-- What the market registry holds (markets.js).
use lqc_liquidity_chain.Common.{
  ◌≡◌, sym, ap, ◌∙◌, ◌≢◌, inl, inr, true, false, Option, none, some, List, [], ◌∷◌, arith, All, ok,
  Result-cases,
}
use lqc_liquidity_chain.Common.Double.{Double}
use lqc_liquidity_chain.Common.Dict.{
  Dict, lookup, contains, insert, lookup-insert_self, lookup-insert_ne,
}
use lqc_liquidity_chain.Common.Text.{Text}
use lqc_liquidity_chain.Markets.{
  Market, validate_futures_market, register_markets, build_futures_market_registry,
}

module _ {N : Type 0} ⦃d : Double N⦄ where
  -- One round of the loop that goes through.
  register-cons :
      (m : Market N) (ms : List (Option (Market N))) (registry : Dict (Market N))
      {out : Dict (Market N)}
      → register_markets (some m ∷ ms) registry ≡ ok out
      → (validate_futures_market (some m) ≡ true)
        × (contains m.symbol registry ≡ false)
        × (register_markets ms (insert m.symbol m registry) ≡ ok out)
  unfolding register_markets
  register-cons m ms registry h =
      elim (Result-cases (register_markets ms (insert m.symbol m registry))) [
        | inl (out', e) ↦ (ground arith, ground arith, ground arith)
        | inr (code, e) ↦ absurd (ground arith)
      ]

  -- What is registered stays registered.
  register-lookup :
      (k : Text) (v : Market N) (ms : List (Option (Market N))) (registry : Dict (Market N))
      {out : Dict (Market N)}
      → lookup k registry ≡ some v
      → register_markets ms registry ≡ ok out
      → lookup k out ≡ some v
  unfolding register_markets
  register-lookup k v [] registry found h = ground arith
  register-lookup k v (none ∷ ms) registry found h = absurd (ground arith)
  register-lookup k v (some m ∷ ms) registry found h =
      let (_, new, rest) = register-cons m ms registry h in
      let other : k ≢ m.symbol = λ e. absurd (clash e new) in
      register-lookup k v ms (insert m.symbol m registry)
        (lookup-insert_ne k m.symbol m registry other ∙ found) rest
    where
      clash : k ≡ m.symbol → contains m.symbol registry ≡ false → ⊥
      clash e new =
          let there : lookup m.symbol registry ≡ some v =
            ap (λ s. lookup s registry) (sym e) ∙ found in
          ground arith

  -- A market of the list that is valid, and which the registry holds under its symbol.
  abbrev pub IsRegistered : Dict (Market N) → Option (Market N) → Type 0
  IsRegistered out none = ⊥
  IsRegistered out (some m) =
      (validate_futures_market (some m) ≡ true) × (lookup m.symbol out ≡ some m)

  register-IsRegistered :
      (ms : List (Option (Market N))) (registry : Dict (Market N)) {out : Dict (Market N)}
      → register_markets ms registry ≡ ok out
      → All (IsRegistered out) ms
  unfolding register_markets
  register-IsRegistered [] registry h = tt
  register-IsRegistered (none ∷ ms) registry h = absurd (ground arith)
  register-IsRegistered (some m ∷ ms) registry h =
      let (valid, _, rest) = register-cons m ms registry h in
      (
        (
          valid,
          register-lookup m.symbol m ms (insert m.symbol m registry)
              (lookup-insert_self m.symbol m registry) rest,
        ),
        register-IsRegistered ms (insert m.symbol m registry) rest,
      )

  -- Where a registry is built, every market of the list is valid and is what the registry holds
  -- under its symbol; so no two different markets have the same symbol.
  pub build_futures_market_registry-IsRegistered :
      (ms : List (Option (Market N))) {out : Dict (Market N)}
      → build_futures_market_registry ms ≡ ok out
      → All (IsRegistered out) ms
  unfolding build_futures_market_registry
  build_futures_market_registry-IsRegistered ms h = register-IsRegistered ms [] h
