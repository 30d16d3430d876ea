-- ===== src/Core/Apply.antt =====
-- core/state_transition.py. The world state is passed on explicitly. The fuel of the machine is two
-- more than the transaction's gas.
use ethereum_blockchain.Prelude.{
  ℕ, ◌+◌, ◌-◌, ◌*◌, Bool, true, false, Option, none, some, ltb, ◌==◌, [], if◌then◌else◌, length,
}
use ethereum_blockchain.Prelude.Maybe.{◌>>=◌}
use ethereum_blockchain.Bytes.{Bytes}
use ethereum_blockchain.World.{
  World, get_account, add_balance, deduct_balance, increment_nonce, set_code, snapshot, revert,
}
use ethereum_blockchain.Evm.{
  Host, Error, out_of_gas, Result, ok, err, ExecutionContext, ExecutionResult, Frame, new_frame,
  execute, persist, transfer_positive, compute_contract_address, calculate_intrinsic_gas,
}
use ethereum_blockchain.Transaction.{Transaction, EthKeys}
use ethereum_blockchain.Core.Validator.{TransactionError, valid, invalid, validate_transaction}

-- The `error` text of a result: "execution failed", an EVMError's, or "unexpected error: " with that of
-- a ValueError of the world state.
pub data Failure : Type 0 where
  execution_failed value_error : Failure
  evm_error : Error → Failure

pub record TransactionResult : Type 0 where
  pub success : Bool
  pub return_data : Bytes
  pub gas_used : ℕ
  pub gas_remaining : ℕ
  pub error : Option Failure
  pub contract_address : Option Bytes

-- How one of the three `_execute_` functions ends: with an exception, or with a result, its contract
-- address and the world state.
pub data Execution : Type 0 where
  raised : Failure → Execution
  returned : ExecutionResult → Option Bytes → World → Execution

-- How `apply_transaction` ends: with an exception of the validation, with a ValueError out of one of
-- its own handlers, or with a result and the world state.
pub data Application : Type 0 where
  rejected : TransactionError → Application
  crashed : Application
  applied : TransactionResult → World → Application

-- The world state that a run leaves: the object that it was given, as it is now.
abbrev pub world_after : World → Option World → World
world_after w none = w
world_after w (some w') = w'

abbrev pub gas_gone : ℕ → ExecutionResult
gas_gone gas = record { success = false; return_data = []; gas_used = gas; gas_remaining = 0 }

-- `_execute_value_transfer`
unfoldable pub execute_value_transfer : Transaction → Bytes → World → ℕ → Execution
execute_value_transfer tx sender w gas_available =
    elim (transfer_positive sender tx.to tx.value w) [
      | none ↦ raised value_error
      | some w' ↦
          returned
            (record {
              success = true;
              return_data = [];
              gas_used = 0;
              gas_remaining = gas_available;
            })
            none w'
    ]

-- The end of `_execute_contract_call`, once the machine has run from `w`.
unfoldable pub after_call : Bytes → World → ℕ → Result ExecutionResult × Frame → Execution
after_call to w gas_available (ok result, e) =
    let w' = world_after w e.world_state in
    returned result none (if result.success then persist to e.storage w' else w')
after_call to w gas_available (err (out_of_gas needed remaining), e) =
    returned (gas_gone gas_available) none (world_after w e.world_state)
after_call to w gas_available (err x, e) = raised (evm_error x)

-- The end of `_execute_create`, likewise.
unfoldable pub after_create : Bytes → World → ℕ → Result ExecutionResult × Frame → Execution
after_create address w gas_available (ok result, e) =
    let w' = world_after w e.world_state in
    if result.success
    then returned result (some address)
        (persist address e.storage (set_code address result.return_data w'))
    else returned result none w'
after_create address w gas_available (err (out_of_gas needed remaining), e) =
    returned (gas_gone gas_available) none (world_after w e.world_state)
after_create address w gas_available (err x, e) = raised (evm_error x)

module _ (host : Host) where
  -- `_execute_contract_call`
  unfoldable pub execute_contract_call : Transaction → Bytes → World → ℕ → Execution
  execute_contract_call tx sender w gas_available =
      let contract = get_account tx.to w in
      elim (transfer_positive sender tx.to tx.value w) [
        | none ↦ raised value_error
        | some w' ↦
            let context : ExecutionContext = record {
              caller = sender;
              address = tx.to;
              value = tx.value;
              calldata = tx.calldata;
              gas = gas_available;
            } in
            after_call tx.to w' gas_available (
              execute host (tx.gas + 2)
                (new_frame contract.code context contract.storage (some w')))
      ]

  -- `_execute_create`
  unfoldable pub execute_create : Transaction → Bytes → World → ℕ → Execution
  execute_create tx sender w gas_available =
      let address = compute_contract_address host.keccak256 sender tx.nonce in
      elim (transfer_positive sender address tx.value (add_balance address 0 w)) [
        | none ↦ raised value_error
        | some w' ↦
            let context : ExecutionContext = record {
              caller = sender;
              address = address;
              value = tx.value;
              calldata = [];
              gas = gas_available;
            } in
            after_create address w' gas_available
              (execute host (tx.gas + 2) (new_frame tx.calldata context [] (some w')))
      ]

  -- Step 5 of `apply_transaction`.
  unfoldable pub execute_transaction : Transaction → Bytes → World → ℕ → Execution
  execute_transaction tx sender w gas =
      if length tx.to == 0
      then execute_create tx sender w gas
      else if length (get_account tx.to w).code == 0
      then execute_value_transfer tx sender w gas
      else execute_contract_call tx sender w gas

-- Steps 3 and 4, also as repeated after a revert.
unfoldable pub charge : Bytes → ℕ → World → Option World
charge sender upfront_gas_cost w = do
  w' ← deduct_balance sender upfront_gas_cost w
  some (increment_nonce sender w')

-- Revert, charge again, and consume all gas: step 6 and the two handlers.
unfoldable pub penalize : Transaction → Bytes → World → Bytes → Failure → Application
penalize tx sender saved output failure =
    elim (charge sender (tx.gas * tx.gas_price) (revert saved saved)) [
      | none ↦ crashed
      | some w ↦
          applied
            (record {
              success = false;
              return_data = output;
              gas_used = tx.gas;
              gas_remaining = 0;
              error = some failure;
              contract_address = none;
            })
            w
    ]

-- Steps 6 and 7, or a handler.
unfoldable pub settle : Transaction → Bytes → World → Execution → Application
settle tx sender saved (raised failure) = penalize tx sender saved [] failure
settle tx sender saved (returned result address w) =
    let refund = result.gas_remaining * tx.gas_price in
    if result.success
    then applied
        (record {
          success = true;
          return_data = result.return_data;
          gas_used = tx.gas - result.gas_remaining;
          gas_remaining = result.gas_remaining;
          error = none;
          contract_address = address;
        })
        (if ltb 0 refund then add_balance sender refund w else w)
    else penalize tx sender saved result.return_data execution_failed

module _ (host : Host) where
  -- `apply_transaction`, once the transaction is valid.
  unfoldable pub apply_valid : Transaction → World → Bytes → Application
  apply_valid tx w sender =
      let saved = snapshot w in
      elim (charge sender (tx.gas * tx.gas_price) w) [
        | none ↦ penalize tx sender saved [] value_error
        | some w' ↦
            settle tx sender saved
              (execute_transaction host tx sender w' (tx.gas - calculate_intrinsic_gas tx.calldata))
      ]

  -- `apply_transaction`
  unfoldable pub apply_transaction : EthKeys → Transaction → World → ℕ → Application
  apply_transaction eth tx w block_gas_limit =
      elim (validate_transaction eth tx w block_gas_limit) [
        | invalid e ↦ rejected e
        | valid sender ↦ apply_valid tx w sender
      ]
