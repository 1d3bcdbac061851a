-- ===== src/Funding/Atomic.antt =====
-- A funding payment changes both the book and the account, or neither (funding-controller.js).
use lqc_liquidity_chain.Common.Validation.{finite_number}
use lqc_liquidity_chain.Common.{
  ℕ, ◌≡◌, refl, sym, ◌∙◌, ◌≢◌, inl, inr, Option, none, some, arith, ==_refl, same_text_refl, ok,
  err, Result-cases, Outcome, done, refused, rolled_back, rollback_failed,
}
use lqc_liquidity_chain.Common.Double.{Double}
use lqc_liquidity_chain.Common.Dict.{lookup, lookup-insert_self, lookup-insert_ne}
use lqc_liquidity_chain.Common.Text.{Text}
use mathlib.Core.Path.{subst}
use lqc_liquidity_chain.Risk.{Position}
use lqc_liquidity_chain.Book.{
  Entry, Book, get_position, criteria_of, key_of_position, replace, or_else, store,
}
use lqc_liquidity_chain.Account.{Account, settle_funding}
use lqc_liquidity_chain.Funding.{
  FundingInput, or_nought, FundedPosition, Settled, settle_demo_funding, settle_account,
  prepare_funding, settle,
}

or_else_self {ℓ} : {A : Type ℓ} (o : Option A) → or_else o o ≡ o
or_else_self none = refl
or_else_self (some a) = refl

-- The four fields of a position that funding writes.
pub record FundingFields (N : Type 0) : Type 0 where
  pub cumulative : Option N
  pub rate : Option N
  pub payment : Option N
  pub time : Option ℕ

module _ {N : Type 0} where
  abbrev pub with_funding : FundingFields N → Position N → Position N
  with_funding c p = record p {
    cumulative_funding = c.cumulative;
    last_funding_rate = c.rate;
    last_funding_payment = c.payment;
    last_funding_at = c.time;
  }

  abbrev funding_of : Position N → FundingFields N
  funding_of p = record {
    cumulative = p.cumulative_funding;
    rate = p.last_funding_rate;
    payment = p.last_funding_payment;
    time = p.last_funding_at;
  }

  -- A replacement of the current object by one that differs in these fields alone goes through.
  replace_current :
      (e : Entry N) (c : FundingFields N) (b : Book N)
      → lookup (key_of_position e.position) b.positions ≡ some e
      → let (entry, b') = store (key_of_position e.position) (with_funding c e.position) b in
        replace e (with_funding c e.position) b ≡ ok (record { previous = e; entry = entry }, b')
  unfolding replace key_of_position
  replace_current e c b h = rw (
    same_text_refl (key_of_position e.position),
    h,
    ==_refl e.ref,
    or_else_self e.position.take_profit,
    or_else_self e.position.stop_loss,
  )

module _ {N : Type 0} ⦃d : Double N⦄ where
  open d use {add}

  -- The fields after a settlement at `rate` with `payment` at the time `time`.
  abbrev pub settled_fields : N → N → ℕ → Position N → FundingFields N
  settled_fields rate payment time p = record {
    cumulative = some (add (or_nought p.cumulative_funding) payment);
    rate = some rate;
    payment = some payment;
    time = some time;
  }

  funded_position :
      (p : Position N) (i : FundingInput N) {f : FundedPosition N}
      → settle_demo_funding p i ≡ ok f
      → f.position ≡ with_funding (settled_fields f.funding_rate f.payment i.timestamp p) p
  unfolding settle_demo_funding finite_number
  funded_position p i h = ground arith

  -- What is left of the book `b` and the account `a`, by how a settlement of `e` ended.
  abbrev pub Ends :
      Entry N
      → FundingInput N
      → Book N
      → Account N
      → Outcome (Settled N) × Book N × Account N
      → Type 0
  Ends e i b a (done r, b', a') =
      (settle_funding r.payment a ≡ ok (r.account, a'))
      × (lookup (key_of_position e.position) b'.positions ≡ some r.entry)
      × (r.entry.position
          ≡ with_funding (settled_fields r.funding_rate r.payment i.timestamp e.position)
              e.position)
      × (r.settled_at ≡ some i.timestamp)
  Ends e i b a (refused code, b', a') = (b' ≡ b) × (a' ≡ a)
  Ends e i b a (rolled_back code, b', a') =
      (a' ≡ a)
      × ((entry : Entry N) × (lookup (key_of_position e.position) b'.positions ≡ some entry)
          × (entry.position ≡ e.position))
      × ((k : Text) → k ≢ key_of_position e.position → lookup k b'.positions ≡ lookup k b.positions)
  Ends e i b a (rollback_failed code code', b', a') = ⊥

  settle_account-Ends :
      (e : Entry N) (i : FundingInput N) (f : FundedPosition N) (b : Book N) (a : Account N)
      → let c = settled_fields f.funding_rate f.payment i.timestamp e.position in
        let (entry, b') = store (key_of_position e.position) (with_funding c e.position) b in
        Ends e i b a (settle_account f (record { previous = e; entry = entry }) b' a)
  unfolding settle_account key_of_position
  settle_account-Ends e i f b a =
      let c = settled_fields f.funding_rate f.payment i.timestamp e.position in
      let key = key_of_position e.position in
      let t = store key (with_funding c e.position) b in
      elim (Result-cases (settle_funding f.payment a)) [
        | inl ((s, a'), paid) ↦
            let r : Settled N = record {
              entry = t.0;
              funding_rate = f.funding_rate;
              payment = f.payment;
              account = s;
              settled_at = some i.timestamp;
            } in
            let ends : settle_account f (record { previous = e; entry = t.0 }) t.1 a
                ≡ (done r, t.1, a') =
              rw (paid, settle_account) in
            subst (Ends e i b a) (sym ends)
              (paid, lookup-insert_self key t.0 b.positions, refl, refl)
        | inr (code, failed) ↦
            let back =
              replace_current t.0 (funding_of e.position) t.1
                (lookup-insert_self key t.0 b.positions) in
            let again : Entry N = record { ref = t.1.next; position = e.position } in
            let ends : settle_account f (record { previous = e; entry = t.0 }) t.1 a
                ≡ (rolled_back code, (store key e.position t.1).1, a) =
              rw (failed, settle_account) (rw back) in
            subst (Ends e i b a) (sym ends) (
              refl,
              (again, lookup-insert_self key again t.1.positions, refl),
              λ k ne.
                  lookup-insert_ne k key again t.1.positions ne
                  ∙ lookup-insert_ne k key t.0 b.positions ne,
            )
      ]

  -- The settlement of funding for an object that is the current one of the book ends in one of three
  -- ways. It is done: the account has made the payment, and the book holds the position with only its
  -- four funding fields changed, which are the total with the payment added, the rate, the payment
  -- and the time. It is refused: book and account are as before. It is rolled back: the account is as
  -- before, the book holds an object with the content of the old one, and every other position is as
  -- before. The rollback itself never fails.
  pub settle-Ends :
      (e : Entry N) (i : FundingInput N) (b : Book N) (a : Account N)
      → get_position (criteria_of e.position) b ≡ some e
      → Ends e i b a (settle e i b a)
  unfolding settle prepare_funding get_position key_of_position
  settle-Ends e i b a h = elim (Result-cases (settle_demo_funding e.position i)) [
    | inl (f, calculated) ↦
        let c = settled_fields f.funding_rate f.payment i.timestamp e.position in
        let ready : prepare_funding e i b ≡ ok f =
          rw (h, prepare_funding, get_position) (rw (==_refl e.ref) calculated) in
        let t = store (key_of_position e.position) (with_funding c e.position) b in
        let stored : replace e f.position b ≡ ok (record { previous = e; entry = t.0 }, t.1) =
          rw (funded_position e.position i calculated) (replace_current e c b h) in
        let ends : settle e i b a ≡ settle_account f (record { previous = e; entry = t.0 }) t.1 a =
          rw (ready, settle) (rw stored) in
        subst (Ends e i b a) (sym ends) (settle_account-Ends e i f b a)
    | inr (code, failed) ↦
        let ready : prepare_funding e i b ≡ err code =
          rw (h, prepare_funding, get_position) (rw (==_refl e.ref) failed) in
        let ends : settle e i b a ≡ (refused code, b, a) = rw (ready, settle) in
        subst (Ends e i b a) (sym ends) (refl, refl)
  ]
