-- ===== src/Router/Ranking.antt =====
-- `rankRouteQuotes` of dex/app/router-sdk.js.
use lqc_liquidity_chain.Common.{
  ℕ, ◌+◌, ◌≤◌, ◌<◌, ◌≡◌, refl, sym, ◌⊎◌, inl, inr, Bool, true, false, Option, none, some, List, [],
  ◌∷◌, arith, ltb, leb, ◌==◌, if◌then◌else◌, Bool-cases, Option-cases, All,
}
use lqc_liquidity_chain.Router.Payloads.{net_of}
use mathlib.Core.Path.{subst}
use mathlib.Core.List.{Perm}
use mathlib.Core.List.Perm

-- A candidate with what the ranking reads of it; an amount is `none` where it is no bigint of at
-- least zero.
pub record RouteQuote (A : Type 0) : Type 0 where
  pub item : A
  pub amount_out : Option ℕ
  pub cost : Option ℕ
  pub priority : ℕ

pub record RankedQuote (A : Type 0) : Type 0 where
  pub item : A
  pub amount_out : ℕ
  pub priority : ℕ
  pub net_amount_out : ℕ

abbrev cost_of : Option ℕ → ℕ
cost_of none = 0
cost_of (some c) = c

module _ {A : Type 0} where
  -- a candidate with its net amount, where it has one above zero
  unfoldable pub net_quote : RouteQuote A → Option (RankedQuote A)
  net_quote q = elim q.amount_out [
    | none ↦ none
    | some out ↦
        let net = net_of out (cost_of q.cost) in
        if net == 0
        then none
        else some (record {
          item = q.item;
          amount_out = out;
          priority = q.priority;
          net_amount_out = net;
        })
  ]

  unfoldable pub executable : List (RouteQuote A) → List (RankedQuote A)
  unfolding net_quote
  executable [] = []
  executable (q ∷ qs) =
      let rest = executable qs in elim (net_quote q) [ none ↦ rest | some r ↦ r ∷ rest ]

  -- The comparison of `sort` is not above zero: `a` may stand before `b`.
  unfoldable pub in_order : RankedQuote A → RankedQuote A → Bool
  in_order a b =
      if a.net_amount_out == b.net_amount_out
      then leb b.priority a.priority
      else ltb b.net_amount_out a.net_amount_out

  -- A stable sort.
  unfoldable pub place : RankedQuote A → List (RankedQuote A) → List (RankedQuote A)
  unfolding in_order
  place x [] = x ∷ []
  place x (y ∷ ys) = if in_order x y then x ∷ y ∷ ys else y ∷ place x ys

  unfoldable pub sort : List (RankedQuote A) → List (RankedQuote A)
  unfolding place
  sort [] = []
  sort (x ∷ xs) = place x (sort xs)

  unfoldable pub rank_route_quotes : List (RouteQuote A) → List (RankedQuote A)
  unfolding executable sort
  rank_route_quotes qs = sort (executable qs)

  -- Each quote may stand before all that follow it.
  abbrev IsSorted : List (RankedQuote A) → Type 0
  IsSorted [] = Unit
  IsSorted (x ∷ xs) = All (λ y. in_order x y ≡ true) xs × IsSorted xs

  -- A quote nets more than another, or nets the same and has no lower priority.
  abbrev Precedes : RankedQuote A → RankedQuote A → Type 0
  Precedes x y =
      (y.net_amount_out < x.net_amount_out)
      ⊎ ((y.net_amount_out ≡ x.net_amount_out) × (y.priority ≤ x.priority))

  -- Each quote precedes all that follow it.
  abbrev pub IsRanked : List (RankedQuote A) → Type 0
  IsRanked [] = Unit
  IsRanked (x ∷ xs) = All (Precedes x) xs × IsRanked xs

  All-place :
      (P : RankedQuote A → Type 0) (x : RankedQuote A) (l : List (RankedQuote A))
      → P x
      → All P l
      → All P (place x l)
  unfolding place
  All-place P x [] p h = (p, tt)
  All-place P x (y ∷ ys) p h =
      elim (in_order x y) as (λ b. All P (if b then x ∷ y ∷ ys else y ∷ place x ys)) [
        | true ↦ (p, h)
        | false ↦ (h.0, All-place P x ys p h.1)
      ]

  All-of_place :
      (P : RankedQuote A → Type 0) (x : RankedQuote A) (l : List (RankedQuote A))
      → All P (place x l)
      → P x × All P l
  unfolding place
  All-of_place P x [] = λ h. h
  All-of_place P x (y ∷ ys) =
      elim (in_order x y)
        as (λ b. All P (if b then x ∷ y ∷ ys else y ∷ place x ys) → P x × (P y × All P ys)) [
          | true ↦ λ h. h
          | false ↦ λ h. let (p, rest) = All-of_place P x ys h.1 in (p, (h.0, rest))
        ]

  All-of_sort : (P : RankedQuote A → Type 0) (l : List (RankedQuote A)) → All P (sort l) → All P l
  unfolding sort
  All-of_sort P [] h = h
  All-of_sort P (x ∷ xs) h =
      let (p, rest) = All-of_place P x (sort xs) h in (p, All-of_sort P xs rest)

  All-in_order :
      (x y : RankedQuote A) (l : List (RankedQuote A))
      → in_order x y ≡ true
      → All (λ z. in_order y z ≡ true) l
      → All (λ z. in_order x z ≡ true) l
  unfolding in_order
  All-in_order x y [] e h = tt
  All-in_order x y (z ∷ zs) e (h, hs) = (ground arith, All-in_order x y zs e hs)

  in_order_total : (x y : RankedQuote A) → in_order x y ≡ false → in_order y x ≡ true
  unfolding in_order
  in_order_total x y h = ground arith

  place-IsSorted :
      (x : RankedQuote A) (l : List (RankedQuote A)) → IsSorted l → IsSorted (place x l)
  unfolding place
  place-IsSorted x [] h = (tt, tt)
  place-IsSorted x (y ∷ ys) (below, rest) = elim (Bool-cases (in_order x y)) [
    | inl e ↦ rw e ((e, All-in_order x y ys e below), (below, rest))
    | inr e ↦ rw e (
      All-place (λ z. in_order y z ≡ true) x ys (in_order_total x y e) below,
      place-IsSorted x ys rest,
    )
  ]

  place-perm : (x : RankedQuote A) (l : List (RankedQuote A)) → Perm (place x l) (x ∷ l)
  unfolding place
  place-perm x [] = Perm.rfl
  place-perm x (y ∷ ys) =
      elim (in_order x y) as (λ b. Perm (if b then x ∷ y ∷ ys else y ∷ place x ys) (x ∷ y ∷ ys)) [
        | true ↦ Perm.rfl
        | false ↦ Perm.trans (Perm.cons y (place-perm x ys)) (Perm.swap x y ys)
      ]

  sort-IsSorted : (l : List (RankedQuote A)) → IsSorted (sort l)
  unfolding sort
  sort-IsSorted [] = tt
  sort-IsSorted (x ∷ xs) = place-IsSorted x (sort xs) (sort-IsSorted xs)

  sort-perm : (l : List (RankedQuote A)) → Perm (sort l) l
  unfolding sort
  sort-perm [] = Perm.rfl
  sort-perm (x ∷ xs) = Perm.trans (place-perm x (sort xs)) (Perm.cons x (sort-perm xs))

  in_order-net :
      (x : RankedQuote A) (l : List (RankedQuote A))
      → All (λ y. in_order x y ≡ true) l
      → All (λ y. y.net_amount_out ≤ x.net_amount_out) l
  unfolding in_order
  in_order-net x [] h = tt
  in_order-net x (y ∷ ys) (h, hs) = (ground arith, in_order-net x ys hs)

  pub All-sort : (P : RankedQuote A → Type 0) (l : List (RankedQuote A)) → All P l → All P (sort l)
  unfolding sort
  All-sort P [] h = h
  All-sort P (x ∷ xs) h = All-place P x (sort xs) h.0 (All-sort P xs h.1)

  -- The first of the ranked quotes nets at least as much as every executable one.
  pub rank-best :
      (qs : List (RouteQuote A)) {best : RankedQuote A} {rest : List (RankedQuote A)}
      → rank_route_quotes qs ≡ best ∷ rest
      → All (λ q. q.net_amount_out ≤ best.net_amount_out) (executable qs)
  unfolding rank_route_quotes
  rank-best qs {best} {rest} e =
      let (below, _) = subst IsSorted e (sort-IsSorted (executable qs)) in
      All-of_sort _ (executable qs) (
        subst (All (λ q. q.net_amount_out ≤ best.net_amount_out)) (sym e)
          (omega arith, in_order-net best rest below))

  in_order-Precedes : (x y : RankedQuote A) → in_order x y ≡ true → Precedes x y
  unfolding in_order
  in_order-Precedes x y h = ground arith

  All-Precedes :
      (x : RankedQuote A) (l : List (RankedQuote A))
      → All (λ y. in_order x y ≡ true) l
      → All (Precedes x) l
  All-Precedes x [] h = tt
  All-Precedes x (y ∷ ys) (h, hs) = (in_order-Precedes x y h, All-Precedes x ys hs)

  IsSorted-IsRanked : (l : List (RankedQuote A)) → IsSorted l → IsRanked l
  IsSorted-IsRanked [] h = tt
  IsSorted-IsRanked (x ∷ xs) (h, hs) = (All-Precedes x xs h, IsSorted-IsRanked xs hs)

  -- What is kept of the candidates, in their order: a candidate that nets more than nothing, with
  -- its net amount, and none whose amount is unknown or does not exceed its cost.
  pub data Keeps : List (RouteQuote A) → List (RankedQuote A) → Type 0 where
    nothing : Keeps [] []
    kept :
        (q : RouteQuote A) (r : RankedQuote A) {qs : List (RouteQuote A)}
        {rs : List (RankedQuote A)}
        → r.item ≡ q.item
        → r.priority ≡ q.priority
        → q.amount_out ≡ some r.amount_out
        → r.net_amount_out + cost_of q.cost ≡ r.amount_out
        → 0 < r.net_amount_out
        → Keeps qs rs
        → Keeps (q ∷ qs) (r ∷ rs)
    unknown :
        (q : RouteQuote A) {qs : List (RouteQuote A)} {rs : List (RankedQuote A)}
        → q.amount_out ≡ none
        → Keeps qs rs
        → Keeps (q ∷ qs) rs
    worthless :
        (q : RouteQuote A) (out : ℕ) {qs : List (RouteQuote A)} {rs : List (RankedQuote A)}
        → q.amount_out ≡ some out
        → out ≤ cost_of q.cost
        → Keeps qs rs
        → Keeps (q ∷ qs) rs

  executable-Keeps : (qs : List (RouteQuote A)) → Keeps qs (executable qs)
  unfolding executable net_quote
  executable-Keeps [] = nothing
  executable-Keeps (q ∷ qs) =
      let rest = executable-Keeps qs in
      elim (Option-cases q.amount_out) [
        | inl missing ↦
            let ends : executable (q ∷ qs) ≡ executable qs =
              rw (missing, executable, net_quote) refl in
            subst (Keeps (q ∷ qs)) (sym ends) (unknown q missing rest)
        | inr (out, known) ↦ elim (Bool-cases (net_of out (cost_of q.cost) == 0)) [
          | inl zero_net ↦
              let ends : executable (q ∷ qs) ≡ executable qs =
                rw (known, executable, net_quote) (rw zero_net refl) in
              subst (Keeps (q ∷ qs)) (sym ends) (worthless q out known (ground arith) rest)
          | inr above ↦
              let r : RankedQuote A = record {
                item = q.item;
                amount_out = out;
                priority = q.priority;
                net_amount_out = net_of out (cost_of q.cost);
              } in
              let ends : executable (q ∷ qs) ≡ r ∷ executable qs =
                rw (known, executable, net_quote) (rw above refl) in
              subst (Keeps (q ∷ qs)) (sym ends)
                (kept q r refl refl known (ground arith) (ground arith) rest)
        ]
      ]

  -- The ranking returns exactly the candidates whose amount is known and exceeds their cost, each as
  -- often as it was given and with the difference as its net amount, in an order where a quote nets
  -- more than each that follows it or, netting the same, has no lower priority.
  pub rank_route_quotes_sorts :
      (qs : List (RouteQuote A))
      → ((found : List (RankedQuote A)) × Keeps qs found × Perm (rank_route_quotes qs) found)
        × IsRanked (rank_route_quotes qs)
  unfolding rank_route_quotes
  rank_route_quotes_sorts qs = (
    (executable qs, executable-Keeps qs, sort-perm (executable qs)),
    IsSorted-IsRanked (sort (executable qs)) (sort-IsSorted (executable qs)),
  )
