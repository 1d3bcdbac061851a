-- ===== src/Router/Wallet.antt =====
-- The wallet's side of dex/app/router-sdk.js: its session, its approvals, its funds, its receipts.
pub mod Approvals
use lqc_liquidity_chain.Common.{
  ℕ, ◌+◌, ◌*◌, Bool, true, false, not, ◌||◌, Option, List, [], ◌∷◌, ltb, leb, ◌==◌, if◌then◌else◌,
  length, Result, ok, err, ◌>>=◌, ◌>>◌, throw_if, required,
}
use lqc_liquidity_chain.Common.Text.{Text}
use lqc_liquidity_chain.Common.Text.{to_lower}
use lqc_liquidity_chain.Router.Payloads.{Ethers, same_lower, positive}

pub data SessionState : Type 0 where
  disconnected wrong_network connected : SessionState

unfoldable pub wallet_session_state : List Text → Bool → Text → Text → SessionState
wallet_session_state accounts remembered chain_id expected_chain_id =
    if not remembered || length accounts == 0
    then disconnected
    else if not (same_lower chain_id expected_chain_id)
    then wrong_network
    else connected

pub record SessionCheck : Type 0 where
  pub account : Text
  pub chain_id : ℕ

-- A chain is `none` where `BigInt` throws.
unfoldable pub validate_execution_session :
    Ethers → Text → List Text → Option ℕ → Option ℕ → Result SessionCheck
validate_execution_session e expected_account [] chain_id expected_chain_id =
    err "Wallet execution account unavailable"
validate_execution_session e expected_account (account ∷ _) chain_id expected_chain_id = do
  throw_if (not (e.is_address expected_account) || not (e.is_address account))
      "Wallet execution account unavailable"
  throw_if (not (same_lower account expected_account)) "Wallet execution account changed"
  chain ← required chain_id "Wallet execution chain unavailable"
  expected ← required expected_chain_id "Wallet execution chain unavailable"
  throw_if (not (chain == expected)) "Wallet execution chain changed"
  ok (record { account = to_lower expected_account; chain_id = chain })

unfoldable pub validate_pending_nonce : Option ℕ → Option ℕ → Result ℕ
validate_pending_nonce expected_nonce current_nonce = do
  expected ← required expected_nonce "Invalid pending nonce"
  current ← required current_nonce "Invalid pending nonce"
  throw_if (not (current == expected)) "Pending nonce changed"
  ok expected

unfoldable pub requires_token_approval : Option ℕ → Option ℕ → Result Bool
requires_token_approval allowance amount_in = do
  allowed ← required allowance "Invalid approval state"
  amount ← positive amount_in "Invalid approval state"
  ok (ltb allowed amount)

unfoldable pub exact_approval_amounts : Option ℕ → Option ℕ → Result (List ℕ)
exact_approval_amounts allowance amount_in = do
  allowed ← required allowance "Invalid approval state"
  amount ← positive amount_in "Invalid approval state"
  ok (if leb amount allowed then [] else if allowed == 0 then amount ∷ [] else 0 ∷ amount ∷ [])

pub record SwapReceipt : Type 0 where
  pub status : ℕ
  pub hash : Text
  pub block_number : Option ℕ
  pub block_hash : Text

pub record SwapConfirmation : Type 0 where
  pub transaction_hash : Text
  pub block_hash : Text
  pub block_number : ℕ

unfoldable pub validate_swap_receipt : Ethers → SwapReceipt → Text → Result SwapConfirmation
validate_swap_receipt e receipt submitted_hash = do
  throw_if (not (e.is_hash submitted_hash)) "Invalid submitted transaction"
  throw_if (not (receipt.status == 1)) "Swap transaction failed"
  throw_if (not (e.is_hash receipt.hash) || not (same_lower receipt.hash submitted_hash))
      "Swap transaction hash mismatch"
  block ← positive receipt.block_number "Invalid swap confirmation"
  throw_if (not (e.is_hash receipt.block_hash)) "Invalid swap confirmation"
  ok (record {
    transaction_hash = to_lower receipt.hash;
    block_hash = to_lower receipt.block_hash;
    block_number = block;
  })

-- `native_input` is `none` where it is no Boolean.
pub record Funds : Type 0 where
  pub native_balance : Option ℕ
  pub token_balance : Option ℕ
  pub amount_in : Option ℕ
  pub estimated_gas : Option ℕ
  pub fee_per_gas : Option ℕ
  pub native_input : Option Bool

pub record FundsCheck : Type 0 where
  pub gas_cost : ℕ
  pub required_native : ℕ

-- The token that is paid with, which a native input has no need of.
unfoldable pub check_token : Bool → Option ℕ → ℕ → Result (Unit {0})
check_token true token_balance amount = ok tt
check_token false token_balance amount = do
  balance ← required token_balance "Invalid transaction funds"
  throw_if (ltb balance amount) "insufficient funds: token balance"

unfoldable pub validate_transaction_funds : Funds → Result FundsCheck
unfolding check_token
validate_transaction_funds f = do
  balance ← required f.native_balance "Invalid transaction funds"
  amount ← positive f.amount_in "Invalid transaction funds"
  gas ← required f.estimated_gas "Invalid transaction funds"
  fee ← required f.fee_per_gas "Invalid transaction funds"
  native ← required f.native_input "Invalid transaction funds"
  check_token native f.token_balance amount
  let gas_cost = gas * fee
  let required_native = gas_cost + (if native then amount else 0)
  throw_if (ltb balance required_native) "insufficient funds: native balance and gas"
  ok (record { gas_cost = gas_cost; required_native = required_native })
