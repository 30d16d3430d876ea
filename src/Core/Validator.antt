-- ===== src/Core/Validator.antt =====
-- core/tx_validator.py and core/exceptions.py. The intrinsic gas is that of evm/gas.py, which the
-- module repeats with the numbers written out.
use ethereum_blockchain.Prelude.{ℕ, ◌+◌, ◌*◌, none, some, not, ltb, ◌==◌, if◌then◌else◌}
use ethereum_blockchain.Bytes.{Bytes}
use ethereum_blockchain.World.{World, get_account}
use ethereum_blockchain.Evm.{calculate_intrinsic_gas}
use ethereum_blockchain.Transaction.{Transaction, EthKeys, recover_sender}

-- The subclasses of TransactionError with their attributes; InvalidSignature's reason is a text only.
pub data TransactionError : Type 0 where
  invalid_signature : TransactionError
  invalid_nonce insufficient_balance exceeds_block_gas_limit intrinsic_gas_too_low :
      ℕ → ℕ → TransactionError

pub data Validation : Type 0 where
  valid : Bytes → Validation
  invalid : TransactionError → Validation

-- Steps 2 to 5, for the sender recovered.
unfoldable pub check_sender : Transaction → World → ℕ → Bytes → Validation
check_sender tx world_state block_gas_limit sender =
    let account = get_account sender world_state in
    let total_cost = tx.value + tx.gas * tx.gas_price in
    let intrinsic = calculate_intrinsic_gas tx.calldata in
    if not (account.nonce == tx.nonce)
    then invalid (invalid_nonce account.nonce tx.nonce)
    else if ltb account.balance total_cost
    then invalid (insufficient_balance total_cost account.balance)
    else if ltb block_gas_limit tx.gas
    then invalid (exceeds_block_gas_limit tx.gas block_gas_limit)
    else if ltb tx.gas intrinsic
    then invalid (intrinsic_gas_too_low intrinsic tx.gas)
    else valid sender

-- `validate_transaction`
unfoldable pub validate_transaction : EthKeys → Transaction → World → ℕ → Validation
validate_transaction eth tx world_state block_gas_limit = elim (recover_sender eth tx) [
  | none ↦ invalid invalid_signature
  | some sender ↦ check_sender tx world_state block_gas_limit sender
]
