-- ===== src/Orders/Valid.antt =====
-- What an order satisfies that the order engine lets through (order-engine.js).
use lqc_liquidity_chain.Common.{
  ◌≡◌, Bool, true, false, not, ◌&&◌, Option, none, some, arith, String, ok, required, >>=-eq-ok,
  throw_if-eq-ok, ok-inj, required-eq-some, not-false,
}
use lqc_liquidity_chain.Common.Double.{Double, ◌≼◌, ◌≺◌, nought, IsFinite, IsIeee}
use lqc_liquidity_chain.Common.Validation.{positive_number, positive_of_check}
use mathlib.Core.Path.{subst}
use lqc_liquidity_chain.Risk.{Side, long, short, normalized_side}
use lqc_liquidity_chain.Markets.{is_suspended, get_futures_market}
use lqc_liquidity_chain.Orders.{
  OrderType, limit_order, market_order, is_limit, OrderInput, ValidOrder, order_type,
  is_step_aligned, optional_trigger, off_tick, check_triggers, reference_price_of,
  validate_demo_order,
}

limit_aligned :
    (k : OrderType) (b : Bool) → k ≡ limit_order → (is_limit k && not b) ≡ false → b ≡ true
limit_aligned k b e h = ground arith

module _ {N : Type 0} ⦃d : Double N⦄ where
  open d use {lt, le, is_integer}

  -- The triggers stand on their sides of the price: a long position takes its profit above it and
  -- stops its loss below it, a short one the other way round.
  abbrev pub AreOnSide : Side → N → Option N → Option N → Type 0
  AreOnSide long price profit loss =
      ((p : N) → profit ≡ some p → price ≺ p) × ((q : N) → loss ≡ some q → q ≺ price)
  AreOnSide short price profit loss =
      ((p : N) → profit ≡ some p → p ≺ price) × ((q : N) → loss ≡ some q → price ≺ q)

  -- The checks that an order went through.
  abbrev Went : OrderInput N → ValidOrder N → Type 0
  Went i v =
      (get_futures_market i.symbol ≡ some v.market)
      × (is_suspended v.market.status ≡ false)
      × ((positive_number i.quantity "INVALID_QUANTITY" ≡ ok v.quantity)
          × (is_step_aligned v.quantity v.market.step_size ≡ true))
      × ((is_integer v.leverage ≡ true) × (lt v.market.max_leverage v.leverage ≡ false))
      × (reference_price_of v.kind i ≡ ok v.reference_price)
      × (v.kind ≡ limit_order → is_step_aligned v.reference_price v.market.tick_size ≡ true)
      × (optional_trigger i.take_profit "INVALID_TAKE_PROFIT" ≡ ok v.take_profit)
      × (optional_trigger i.stop_loss "INVALID_STOP_LOSS" ≡ ok v.stop_loss)
      × (check_triggers v.side v.reference_price v.take_profit v.stop_loss ≡ ok tt)

  -- The parts of an order that went through.
  order-eq-ok : (i : OrderInput N) {v : ValidOrder N} → validate_demo_order i ≡ ok v → Went i v
  unfolding validate_demo_order
  order-eq-ok i {v} h =
      let (market, em, r₁) =
        >>=-eq-ok (required (get_futures_market i.symbol) "UNKNOWN_MARKET") _ h in
      let (listed, r₂) = throw_if-eq-ok (is_suspended market.status) _ _ r₁ in
      let (side, es, r₃) = >>=-eq-ok (normalized_side i.side) _ r₂ in
      let (kind, ek, r₄) = >>=-eq-ok (order_type i.kind) _ r₃ in
      let (quantity, eq, r₅) = >>=-eq-ok (positive_number i.quantity "INVALID_QUANTITY") _ r₄ in
      let (step, r₆) = throw_if-eq-ok (not (is_step_aligned quantity market.step_size)) _ _ r₅ in
      let (leverage, el, r₇) = >>=-eq-ok (positive_number i.leverage "INVALID_LEVERAGE") _ r₆ in
      let (whole, r₈) = throw_if-eq-ok (not (is_integer leverage)) _ _ r₇ in
      let (within, r₉) = throw_if-eq-ok (lt market.max_leverage leverage) _ _ r₈ in
      let (price, ep, r₁₀) = >>=-eq-ok (reference_price_of kind i) _ r₉ in
      let (tick, r₁₁) =
        throw_if-eq-ok (is_limit kind && not (is_step_aligned price market.tick_size)) _ _ r₁₀ in
      let (profit, et, r₁₂) =
        >>=-eq-ok (optional_trigger i.take_profit "INVALID_TAKE_PROFIT") _ r₁₁ in
      let (loss, eo, r₁₃) = >>=-eq-ok (optional_trigger i.stop_loss "INVALID_STOP_LOSS") _ r₁₂ in
      let (_, r₁₄) = throw_if-eq-ok (off_tick profit market.tick_size) _ _ r₁₃ in
      let (_, r₁₅) = throw_if-eq-ok (off_tick loss market.tick_size) _ _ r₁₄ in
      let (u, ec, r₁₆) = >>=-eq-ok (check_triggers side price profit loss) _ r₁₅ in
      subst (Went i) (ok-inj r₁₆) (
        required-eq-some _ _ em,
        listed,
        (eq, not-false _ step),
        (not-false _ whole, within),
        ep,
        (λ is_limit_order. limit_aligned kind _ is_limit_order tick),
        et,
        eo,
        ec,
      )

  module _ (laws : IsIeee N) where
    open laws use {finite_refl, lt_of_not_le}

    trigger-positive :
        (o : Option N) (code : String) {p : Option N} (x : N)
        → optional_trigger o code ≡ ok p
        → p ≡ some x
        → x ≼ x
    unfolding optional_trigger positive_number
    trigger-positive none code x h e = absurd (ground arith)
    trigger-positive (some y) code x h e = ground (arith, finite_refl x)

    triggers-AreOnSide :
        (s : Side) (price : N) (profit loss : Option N)
        → price ≼ price
        → ((x : N) → profit ≡ some x → x ≼ x)
        → ((x : N) → loss ≡ some x → x ≼ x)
        → check_triggers s price profit loss ≡ ok tt
        → AreOnSide s price profit loss
    unfolding check_triggers
    triggers-AreOnSide long price profit loss pr fp fl h = (
      λ p e. ground (arith, fp p e, lt_of_not_le p price),
      λ q e. ground (arith, fl q e, lt_of_not_le price q),
    )
    triggers-AreOnSide short price profit loss pr fp fl h = (
      λ p e. ground (arith, fp p e, lt_of_not_le price p),
      λ q e. ground (arith, fl q e, lt_of_not_le q price),
    )

    price_positive :
        (k : OrderType) (j : OrderInput N) {p : N}
        → reference_price_of k j ≡ ok p
        → IsFinite p × (nought ≺ p)
    unfolding reference_price_of
    price_positive limit_order j e =
        let (same, fin, pos') = positive_of_check laws _ _ e in (rw same fin, rw same pos')
    price_positive market_order j e =
        let (same, fin, pos') = positive_of_check laws _ _ e in (rw same fin, rw same pos')

    -- An order that is let through is one for a listed market that is not suspended. Its quantity is
    -- above zero and a multiple of the market's step, its leverage is an integer that is not above
    -- the market's, its reference price is above zero and, for a limit order, a multiple of the
    -- tick; and its triggers stand on their sides of that price.
    pub validate_demo_order_sound :
        (i : OrderInput N) {v : ValidOrder N}
        → validate_demo_order i ≡ ok v
        → (get_futures_market i.symbol ≡ some v.market)
          × (is_suspended v.market.status ≡ false)
          × (nought ≺ v.quantity)
          × (is_step_aligned v.quantity v.market.step_size ≡ true)
          × (is_integer v.leverage ≡ true)
          × (lt v.market.max_leverage v.leverage ≡ false)
          × (nought ≺ v.reference_price)
          × (v.kind ≡ limit_order → is_step_aligned v.reference_price v.market.tick_size ≡ true)
          × AreOnSide v.side v.reference_price v.take_profit v.stop_loss
    validate_demo_order_sound i {v} h =
        let (em, listed, (eq, step), (whole, within), ep, tick, et, eo, ec) = order-eq-ok i h in
        let (same_quantity, _, quantity_pos) = positive_of_check laws _ _ eq in
        let (price_fin, price_pos) = price_positive v.kind i ep in
        (
          em,
          listed,
          rw same_quantity quantity_pos,
          step,
          whole,
          within,
          price_pos,
          tick,
          triggers-AreOnSide v.side v.reference_price v.take_profit v.stop_loss
              (finite_refl _ price_fin) (λ x. trigger-positive _ _ x et)
              (λ x. trigger-positive _ _ x eo) ec,
        )
