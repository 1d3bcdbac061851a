-- ===== src/Router/Canonical.antt =====
-- `verifyCanonicalSettlement` and `verifyCanonicalNativeSettlement` of dex/app/router-sdk.js: a
-- settlement receipt against the chain.
pub mod Paid
use lqc_liquidity_chain.Common.{
  ℕ, zero, suc, ◌+◌, ◌-◌, Bool, not, ◌&&◌, ◌||◌, Option, none, some, List, [], ◌∷◌, ltb, ◌==◌,
  same_text, length, filter, Result, ok, ◌>>=◌, ◌>>◌, throw_if, required,
}
use lqc_liquidity_chain.Common.Text.{Text, codes}
use lqc_liquidity_chain.Common.Text.{to_lower}
use lqc_liquidity_chain.Router.Payloads.{Proof, SettlementPayload, Settlement, Ethers}
use lqc_liquidity_chain.Router.ExecutionPlan.{is_amount}
use lqc_liquidity_chain.Router.Settlements.{same_number, verify_settlement_receipt}

pub record ChainLog : Type 0 where
  pub address : Text
  pub topics : List Text
  pub log_data : Text

pub record ChainReceipt : Type 0 where
  pub status : ℕ
  pub hash : Text
  pub block_number : ℕ
  pub block_hash : Text
  pub logs : List ChainLog

-- The node: `getTransactionReceipt`, the hash of `getBlock`, `getBlockNumber`. What it does not have,
-- or is no number, is `none`.
pub record Provider : Type 0 where
  pub get_transaction_receipt : Text → Option ChainReceipt
  pub get_block : Option ℕ → Option Text
  pub block_number : Option ℕ

-- More of the library: `id`, `zeroPadValue(t, 32)`, `BigInt` of 32 bytes in hexadecimal,
-- `isHexString(t, 96)`, and the decoding of a Boolean and two integers.
pub record Decoder : Type 0 where
  pub id : Text → Text
  pub zero_pad : Text → Text
  pub read_word : Text → ℕ
  pub is_words : Text → Bool
  pub read_words : Text → Bool × ℕ × ℕ

pub record Confirmed : Type 0 where
  pub block_hash : Text
  pub confirmations : ℕ
  pub matched : ℕ
  pub decoded_amount_out : ℕ

-- `String(log.topics?.[i]||'').toLowerCase()`
abbrev pub topic : List Text → ℕ → Text
topic [] i = []
topic (t ∷ ts) zero = to_lower t
topic (t ∷ ts) (suc i) = topic ts i

abbrev is_bad_count : ℕ → Bool
is_bad_count required_confirmations = ltb required_confirmations 1 || ltb 100 required_confirmations

abbrev is_other_receipt : ChainReceipt → SettlementPayload → Bool
is_other_receipt chain r =
    not (same_text (to_lower chain.hash) r.transaction_hash)
    || not (same_number (some chain.block_number) r.block_number)
    || not (same_text (to_lower chain.block_hash) r.block_hash)

-- The steps that the two verifications share: the receipt on the chain, and its confirmations. A
-- block above the latest has none, where the code's number is not above zero.
unfoldable pub canonical_receipt : Provider → SettlementPayload → ℕ → Result (ChainReceipt × ℕ)
canonical_receipt provider r required_confirmations = do
  chain ←
      required (provider.get_transaction_receipt r.transaction_hash)
        "Settlement transaction not successful"
  throw_if (not (chain.status == 1)) "Settlement transaction not successful"
  throw_if (is_other_receipt chain r) "Settlement receipt mismatch"
  block ← required (provider.get_block r.block_number) "Settlement block is not canonical"
  throw_if (not (same_text (to_lower block) r.block_hash)) "Settlement block is not canonical"
  latest ← required provider.block_number "Settlement lacks confirmations"
  let confirmations = latest + 1 - chain.block_number
  throw_if (ltb confirmations required_confirmations) "Settlement lacks confirmations"
  ok (chain, confirmations)

module _ (e : Ethers) (d : Decoder) where
  unfoldable pub is_transfer : SettlementPayload → ChainLog → Bool
  is_transfer r log =
      same_text (to_lower log.address) r.token_out
      && same_text (topic log.topics 0)
          (to_lower (d.id (codes "Transfer(address,address,uint256)")))
      && same_text (topic log.topics 2) (to_lower (d.zero_pad r.recipient))
      && e.is_hash log.log_data

  abbrev pub sum_words : List ChainLog → ℕ
  sum_words [] = 0
  sum_words (log ∷ logs) = d.read_word log.log_data + sum_words logs

  abbrev pub confirmed : SettlementPayload → ℕ → List ChainLog → Confirmed
  confirmed r confirmations transfers = record {
    block_hash = r.block_hash;
    confirmations = confirmations;
    matched = length transfers;
    decoded_amount_out = sum_words transfers;
  }

  unfoldable pub verify_canonical_settlement : Settlement → Proof → Provider → ℕ → Result Confirmed
  verify_canonical_settlement receipt proof provider required_confirmations = do
    throw_if (not (verify_settlement_receipt e receipt proof)) "Invalid settlement receipt"
    throw_if (is_bad_count required_confirmations) "Invalid canonical verifier"
    let r = receipt.payload
    found ← canonical_receipt provider r required_confirmations
    let transfers = filter (is_transfer r) found.0.logs
    throw_if (length transfers == 0 || not (is_amount r.actual_amount_out (sum_words transfers)))
        "Settlement output log mismatch"
    ok (confirmed r found.1 transfers)

  unfoldable pub is_native_swap : SettlementPayload → Proof → Text → ChainLog → Bool
  is_native_swap r proof native_router log =
      same_text (to_lower log.address) (to_lower native_router)
      && same_text (topic log.topics 0) (
          to_lower
            (d.id (codes "NativeSwapExecuted(address,address,address,bool,uint256,uint256)")))
      && same_text (topic log.topics 2) (to_lower (d.zero_pad r.recipient))
      && same_text (topic log.topics 3) (to_lower (d.zero_pad proof.payload.token_in))
      && d.is_words log.log_data

  abbrev the_only : List ChainLog → Option ChainLog
  the_only (log ∷ []) = some log
  the_only _ = none

  unfoldable pub verify_canonical_native_settlement :
      Settlement → Proof → Provider → Text → ℕ → Result Confirmed
  verify_canonical_native_settlement receipt proof provider native_router required_confirmations =
      do
        throw_if (not (verify_settlement_receipt e receipt proof)) "Invalid settlement receipt"
        throw_if (not (e.is_address native_router) || is_bad_count required_confirmations)
            "Invalid native verifier"
        let r = receipt.payload
        found ← canonical_receipt provider r required_confirmations
        log ←
            required (the_only (filter (is_native_swap r proof native_router) found.0.logs))
              "Native settlement event mismatch"
        let (native_in, amount_in, amount_out) = d.read_words log.log_data
        throw_if
            (native_in
              || not (amount_in == proof.payload.amount_in)
              || not (is_amount r.actual_amount_out amount_out))
            "Native settlement amount mismatch"
        ok (record {
          block_hash = r.block_hash;
          confirmations = found.1;
          matched = 1;
          decoded_amount_out = amount_out;
        })
