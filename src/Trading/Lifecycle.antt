-- ===== src/Trading/Lifecycle.antt =====
-- What the trading interface does to the orders (trading-api-service.js).
use lqc_liquidity_chain.Common.{
  ℕ, ◌≡◌, refl, sym, ◌∙◌, ◌≢◌, inl, inr, true, some, arith, String, Option-cases, same_text, Result,
  ok, err, ◌>>=◌, Result-cases,
}
use lqc_liquidity_chain.Common.Dict.{lookup, lookup-insert_self, lookup-insert_ne}
use lqc_liquidity_chain.Common.Text.{Text}
use lqc_liquidity_chain.Orders.{open_demo, cancelled_demo}
use lqc_liquidity_chain.Auth.{Principal, Permission, trade}
use lqc_liquidity_chain.Trading.{
  StoredOrder, Credentials, Desk, Ports, own_order, cancelled, authenticate, put_order,
  cancel_order,
}

module _ {N : Type 0} where
  authenticate_orders :
      (ports : Ports N) (auth : Credentials) (p : Permission) (now : ℕ) (desk : Desk N)
      → (authenticate ports auth p now desk).1.orders ≡ desk.orders
  unfolding authenticate
  authenticate_orders ports auth p now desk = refl

  -- A cancellation succeeds only for an authenticated caller, on an order of that caller's that is
  -- open, and stores that order as cancelled, with nothing else of it but its time changed.
  pub cancel_order_effect :
      (ports : Ports N) (now : ℕ) (auth : Credentials) (id : Text) (desk : Desk N)
      {o : StoredOrder N}
      → (cancel_order ports now auth id desk).0 ≡ ok o
      → (principal : Principal) × (old : StoredOrder N) × ((authenticate ports auth trade now
            desk).0
          ≡ ok principal)
        × (lookup id desk.orders ≡ some old)
        × (same_text old.account_key_id principal.key_id ≡ true)
        × (old.status ≡ open_demo)
        × (o ≡ record old { status = cancelled_demo; updated_at = now })
        × (lookup id (cancel_order ports now auth id desk).1.orders ≡ some o)
  unfolding cancel_order own_order cancelled
  cancel_order_effect ports now auth id desk {o} h =
      elim (Result-cases (authenticate ports auth trade now desk).0) [
        | inr (code, e) ↦ absurd (ground arith)
        | inl (principal, e) ↦ elim (Option-cases (lookup id desk.orders)) [
          | inl missing ↦ absurd (ground (arith, authenticate_orders ports auth trade now desk))
          | inr (old, found) ↦
              let checks : (same_text old.account_key_id principal.key_id ≡ true)
                  × (old.status ≡ open_demo)
                  × (o ≡ record old { status = cancelled_demo; updated_at = now }) =
                ground (arith, authenticate_orders ports auth trade now desk) in
              (
                principal,
                old,
                e,
                found,
                checks.0,
                checks.1,
                checks.2,
                ground (
                  arith,
                  authenticate_orders ports auth trade now desk,
                  lookup-insert_self id o desk.orders,
                ),
              )
        ]
      ]

  put_order-frame :
      (desk : Desk N) (id k : Text) (r : Result (StoredOrder N))
      → ((put_order desk id r).0 ≡ r)
        × (k ≢ id → lookup k (put_order desk id r).1.orders ≡ lookup k desk.orders)
        × ((code : String) → r ≡ err code → (put_order desk id r).1.orders ≡ desk.orders)
  put_order-frame desk id k (ok o) =
      (refl, lookup-insert_ne k id o desk.orders, λ code e. absurd (ground arith))
  put_order-frame desk id k (err c) = (refl, λ _. refl, λ code e. refl)

  -- A cancellation leaves every other order as it is, and every order where it fails.
  pub cancel_order_others :
      (ports : Ports N) (now : ℕ) (auth : Credentials) (id k : Text) (desk : Desk N)
      → let (r, desk') = cancel_order ports now auth id desk in
        (k ≢ id → lookup k desk'.orders ≡ lookup k desk.orders)
        × ((code : String) → r ≡ err code → desk'.orders ≡ desk.orders)
  unfolding cancel_order own_order cancelled
  cancel_order_others ports now auth id k desk =
      let (r, desk') = authenticate ports auth trade now desk in
      let attempt =
        r >>= λ principal. own_order principal.key_id id desk'.orders >>= cancelled now in
      let (same, others, failed) = put_order-frame desk' id k attempt in
      (others, λ code e. failed code (sym same ∙ e))
