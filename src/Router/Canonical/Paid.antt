-- ===== src/Router/Canonical/Paid.antt =====
-- A settlement that the chain confirms paid at least the minimum (dex/app/router-sdk.js).
use lqc_liquidity_chain.Common.{
  ℕ, ◌+◌, ◌-◌, ◌≤◌, ◌≡◌, refl, true, not, ◌||◌, some, arith, ltb, ◌==◌, ==_iff, same_text, length,
  filter, filter-All, All, List, [], ◌∷◌, true, same_text_sound, ok, required, >>=-eq-ok, ok-inj,
  required-eq-some, not-false, throw_if-eq-ok,
}
use mathlib.Core.Path.{subst}
use lqc_liquidity_chain.Common.Text.{codes, to_lower}
use lqc_liquidity_chain.Router.Payloads.{Proof, SettlementPayload, Settlement, Ethers}
use lqc_liquidity_chain.Router.ExecutionPlan.{is_amount, is_amount-some}
use lqc_liquidity_chain.Router.Settlements.{verify_settlement_receipt, is_amount_of}
use lqc_liquidity_chain.Router.Canonical.{
  ChainLog, topic, ChainReceipt, Provider, Decoder, Confirmed, is_bad_count, is_other_receipt,
  canonical_receipt, is_transfer, sum_words, confirmed, verify_canonical_settlement,
}

-- What a receipt that verifies says is not below the minimum of the proof.
verify_settlement_receipt-minimum :
    (e : Ethers) (s : Settlement) (p : Proof) (actual : ℕ)
    → verify_settlement_receipt e s p ≡ true
    → s.payload.actual_amount_out ≡ some actual
    → p.payload.plan.minimum_out ≤ actual
unfolding verify_settlement_receipt
verify_settlement_receipt-minimum e s p actual h known =
    let paid : is_amount_of e s.payload (some actual) ≡ true =
      subst (λ o. is_amount_of e s.payload o ≡ true) known (ground arith) in
    ground (arith, (==_iff s.payload.minimum_amount_out p.payload.plan.minimum_out).0)

canonical_receipt-eq-ok :
    (provider : Provider) (r : SettlementPayload) (n : ℕ) {found : ChainReceipt × ℕ}
    → canonical_receipt provider r n ≡ ok found
    → (provider.get_transaction_receipt r.transaction_hash ≡ some found.0)
      × ((latest : ℕ) × (provider.block_number ≡ some latest)
          × (found.1 ≡ latest + 1 - found.0.block_number))
      × (n ≤ found.1)
unfolding canonical_receipt
canonical_receipt-eq-ok provider r n {found} h =
    let (chain, ec, r₁) =
      >>=-eq-ok
        (required (provider.get_transaction_receipt r.transaction_hash)
          "Settlement transaction not successful")
        _ h in
    let (_, r₂) =
      throw_if-eq-ok (not (chain.status == 1)) "Settlement transaction not successful" _ r₁ in
    let (_, r₃) = throw_if-eq-ok (is_other_receipt chain r) "Settlement receipt mismatch" _ r₂ in
    let (block, _, r₄) =
      >>=-eq-ok (required (provider.get_block r.block_number) "Settlement block is not canonical") _
        r₃ in
    let (_, r₅) =
      throw_if-eq-ok (not (same_text (to_lower block) r.block_hash))
        "Settlement block is not canonical" _ r₄ in
    let (latest, el, r₆) =
      >>=-eq-ok (required provider.block_number "Settlement lacks confirmations") _ r₅ in
    let (deep, r₇) =
      throw_if-eq-ok (ltb (latest + 1 - chain.block_number) n) "Settlement lacks confirmations" _
        r₆ in
    let deep_enough : n ≤ latest + 1 - chain.block_number = ground arith in
    subst
      (λ (f : ChainReceipt × ℕ).
        (provider.get_transaction_receipt r.transaction_hash ≡ some f.0)
        × ((top : ℕ) × (provider.block_number ≡ some top) × (f.1 ≡ top + 1 - f.0.block_number))
        × (n ≤ f.1))
      (ok-inj r₇)
      (
        required-eq-some _ "Settlement transaction not successful" ec,
        (latest, required-eq-some _ "Settlement lacks confirmations" el, refl),
        deep_enough,
      )

module _ {A : Type 0} {P Q : A → Type 0} where
  All-map : ((x : A) → P x → Q x) → (xs : List A) → All P xs → All Q xs
  All-map f [] h = tt
  All-map f (x ∷ xs) (h, hs) = (f x h, All-map f xs hs)

module _ (e : Ethers) (d : Decoder) where
  -- A log of the token's transfer event to the recipient.
  abbrev pub IsPayment : SettlementPayload → ChainLog → Type 0
  IsPayment r log =
      (to_lower log.address ≡ r.token_out)
      × (topic log.topics 0 ≡ to_lower (d.id (codes "Transfer(address,address,uint256)")))
      × (topic log.topics 2 ≡ to_lower (d.zero_pad r.recipient))

  is_transfer-IsPayment :
      (r : SettlementPayload) (log : ChainLog) → is_transfer e d r log ≡ true → IsPayment r log
  unfolding is_transfer
  is_transfer-IsPayment r log h = (
    same_text_sound (to_lower log.address) r.token_out (ground arith),
    same_text_sound (topic log.topics 0)
        (to_lower (d.id (codes "Transfer(address,address,uint256)"))) (ground arith),
    same_text_sound (topic log.topics 2) (to_lower (d.zero_pad r.recipient)) (ground arith),
  )

  transfers-All :
      (r : SettlementPayload) (logs : List ChainLog)
      → All (IsPayment r) (filter (is_transfer e d r) logs)
  transfers-All r logs =
      All-map (is_transfer-IsPayment r) (filter (is_transfer e d r) logs)
        (filter-All (is_transfer e d r) logs)

  abbrev pub Paid : Settlement → Proof → Provider → ℕ → Confirmed → Type 0
  Paid s p provider n c =
      (chain : ChainReceipt) × (provider.get_transaction_receipt s.payload.transaction_hash
        ≡ some chain)
      × (sum_words e d (filter (is_transfer e d s.payload) chain.logs) ≡ c.decoded_amount_out)
      × All (IsPayment s.payload) (filter (is_transfer e d s.payload) chain.logs)
      × (s.payload.actual_amount_out ≡ some c.decoded_amount_out)
      × (p.payload.plan.minimum_out ≤ c.decoded_amount_out)
      × ((latest : ℕ) × (provider.block_number ≡ some latest)
          × (c.confirmations ≡ latest + 1 - chain.block_number))
      × (1 ≤ n)
      × (n ≤ c.confirmations)

  -- A settlement that is confirmed has a receipt on the chain whose counted logs are transfers of
  -- the token to the recipient and sum up to what was received, which is not below the minimum
  -- of the proof; its confirmations are the blocks of the chain from its own to the latest, both
  -- counted, and are no fewer than were asked for, at least one.
  pub verify_canonical_settlement-Paid :
      (s : Settlement) (p : Proof) (provider : Provider) (n : ℕ) {c : Confirmed}
      → verify_canonical_settlement e d s p provider n ≡ ok c
      → Paid s p provider n c
  unfolding verify_canonical_settlement
  verify_canonical_settlement-Paid s p provider n {c} h =
      let r = s.payload in
      let (valid, r₁) =
        throw_if-eq-ok (not (verify_settlement_receipt e s p)) "Invalid settlement receipt" _ h in
      let (count, r₂) = throw_if-eq-ok (is_bad_count n) "Invalid canonical verifier" _ r₁ in
      let (found, ef, r₃) = >>=-eq-ok (canonical_receipt provider r n) _ r₂ in
      let transfers = filter (is_transfer e d r) found.0.logs in
      let mismatch =
        length transfers == 0 || not (is_amount r.actual_amount_out (sum_words e d transfers)) in
      let (paid, r₄) = throw_if-eq-ok mismatch "Settlement output log mismatch" _ r₃ in
      let (known, counted, deep) = canonical_receipt-eq-ok provider r n ef in
      let total = is_amount-some r.actual_amount_out (sum_words e d transfers) (ground arith) in
      let enough = verify_settlement_receipt-minimum e s p _ (not-false _ valid) total in
      let asked : 1 ≤ n = ground arith in
      let facts : Paid s p provider n (confirmed e d r found.1 transfers) =
        (found.0, known, refl, transfers-All r found.0.logs, total, enough, counted, asked, deep) in
      subst (Paid s p provider n) (ok-inj r₄) facts
