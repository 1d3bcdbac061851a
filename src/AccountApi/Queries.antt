-- ===== src/AccountApi/Queries.antt =====
-- What the account query reports (account-position-api.js).
use lqc_liquidity_chain.Common.{
  ℕ, suc, ◌≡◌, refl, ap, ◌∙◌, inl, inr, Option, none, some, if◌then◌else◌, List, [], ◌∷◌, map,
  arith, length, Result, ok, err, map_result, Result-cases,
}
use lqc_liquidity_chain.Common.Double.{Double}
use lqc_liquidity_chain.Risk.{CrossHealth}
use lqc_liquidity_chain.Book.{Book, list_book}
use lqc_liquidity_chain.Account.{Account, snapshot, health}
use lqc_liquidity_chain.Auth.{Principal, ReplayGuard}
use lqc_liquidity_chain.Trading.{Credentials}
use lqc_liquidity_chain.AccountApi.{
  QueryPorts, AccountInfo, authenticate_query, mark_error, public_position, book_positions, info_of,
  account_info,
}

module _ {A B : Type 0} where
  map_result-length :
      (f : A → Result B) (xs : List A) {ys : List B}
      → map_result f xs ≡ ok ys
      → length ys ≡ length xs
  map_result-length f [] h = ground arith
  map_result-length f (x ∷ xs) h = elim (Result-cases (f x)) [
    | inr (code, e) ↦ absurd (ground arith)
    | inl (y, e) ↦ elim (Result-cases (map_result f xs)) [
      | inr (code, e') ↦ absurd (ground arith)
      | inl (ys, e') ↦ ground (arith, map_result-length f xs e')
    ]
  ]

length-map : {A B : Type 0} (f : A → B) (xs : List A) → length (map f xs) ≡ length xs
length-map f [] = refl
length-map f (x ∷ xs) = ap suc (length-map f xs)

mark_error-eq-ok : {A : Type 0} (r : Result A) {a : A} → mark_error r ≡ ok a → r ≡ ok a
unfolding mark_error
mark_error-eq-ok (ok a) h = h
mark_error-eq-ok (err code) h = absurd (ground arith)

module _ {N : Type 0} ⦃d : Double N⦄ where
  open d use {add, is_finite}

  -- An answer to the account query goes to an authenticated reader only; it shows the account's own
  -- cash and reserves, each and in sum, the cross wallet, the health of its cross positions at the
  -- prices of the provider (equity, profit, maintenance margin, its ratio where that is finite, and
  -- whether it is liquidatable), and the number of positions that the book holds.
  pub account_info_faithful :
      (ports : QueryPorts N) (now : ℕ) (auth : Credentials) (a : Account N) (b : Book N)
      (guard : Option ReplayGuard) {i : AccountInfo N}
      → (account_info ports now auth a b guard).0 ≡ ok i
      → (principal : Principal) × (cross : CrossHealth N) × ((authenticate_query ports now auth
            guard).0
          ≡ ok principal)
        × (i.account_key_id ≡ principal.key_id)
        × (i.available_balance ≡ a.cash)
        × (i.isolated_reserved ≡ a.isolated_reserved)
        × (i.cross_reserved ≡ a.cross_reserved)
        × (i.total_reserved ≡ add a.isolated_reserved a.cross_reserved)
        × (i.cross_wallet_balance ≡ add a.cash a.cross_reserved)
        × (health (book_positions b) ports.get_mark_price a ≡ ok cross)
        × (i.cross_equity ≡ cross.equity)
        × (i.cross_unrealized_pnl ≡ cross.unrealized_pnl)
        × (i.cross_maintenance_margin ≡ cross.maintenance_margin)
        × (i.cross_margin_ratio
            ≡ (if is_finite cross.margin_ratio then some cross.margin_ratio else none))
        × (i.cross_liquidatable ≡ cross.liquidatable)
        × (i.position_count ≡ length (list_book b))
  unfolding account_info info_of snapshot
  account_info_faithful ports now auth a b guard {i} h =
      elim (Result-cases (authenticate_query ports now auth guard).0) [
        | inr (code, e) ↦ absurd (ground arith)
        | inl (principal, e) ↦
            elim (Result-cases (mark_error (health (book_positions b) ports.get_mark_price a))) [
              | inr (code, e') ↦ absurd (ground arith)
              | inl (cross, e') ↦
                  elim (Result-cases (map_result (public_position ports) (book_positions b))) [
                    | inr (code, e'') ↦ absurd (ground arith)
                    | inl (marked, e'') ↦
                        let count : length marked ≡ length (list_book b) =
                          map_result-length _ _ e'' ∙ length-map (λ x. x.position) (list_book b) in
                        (
                          principal,
                          cross,
                          e,
                          ground arith,
                          ground arith,
                          ground arith,
                          ground arith,
                          ground arith,
                          ground arith,
                          mark_error-eq-ok _ e',
                          ground arith,
                          ground arith,
                          ground arith,
                          ground arith,
                          ground arith,
                          ground arith,
                        )
                  ]
            ]
      ]
