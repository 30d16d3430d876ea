-- ===== src/Core/Conserve.antt =====
-- core/state_transition.py: what applying a valid transaction does to the state and the gas.
use ethereum_blockchain.Prelude.{
  ℕ, ◌+◌, ◌≤◌, ◌≡◌, ◌≢◌, refl, ◌∙◌, Option, none, some, Option-cases, Bool-cases, inl, inr, arith,
  ◌==◌, [], length,
}
use mathlib.Core.Path.{subst}
use ethereum_blockchain.Prelude.Dict.{Dict}
use ethereum_blockchain.Bytes.{Bytes}
use ethereum_blockchain.World.{World, get_account, add_balance}
use ethereum_blockchain.World.Total.{total, total-add_balance, total-set_code}
use ethereum_blockchain.Evm.{
  Host, out_of_gas, out_of_fuel, Result, ok, err, ExecutionContext, ExecutionResult, Frame,
  new_frame, execute, transfer_positive, compute_contract_address,
}
use ethereum_blockchain.Evm.Advances.{value_held}
use ethereum_blockchain.Evm.Children.{total-persist, total-transfer_positive}
use ethereum_blockchain.Evm.Outcome.{Accounts, execute-Accounts}
use ethereum_blockchain.Evm.Fuel.{execute-Steps}
use ethereum_blockchain.Transaction.{Transaction}
use ethereum_blockchain.Core.Apply.{
  Execution, evm_error, raised, returned, world_after, execute_value_transfer, after_call,
  after_create, execute_contract_call, execute_create, execute_transaction,
}

-- An execution keeps the sum of the balances and leaves no more gas than it was given, if it returns;
-- and its exception, if it raises one, is not that the fuel ran out.
unfoldable pub Keeps : ℕ → ℕ → Execution → Type 0
Keeps v gas (raised failure) = failure ≢ evm_error out_of_fuel
Keeps v gas (returned result address w) = (total w ≡ v) × (result.gas_remaining ≤ gas)

total-world_after :
    (w : World) (o : Option World) → value_held o ≡ total w → total (world_after w o) ≡ total w
total-world_after w none e = refl
total-world_after w (some w') e = e

module _ (gas : ℕ) (w : World) where
  after_call-Keeps :
      (to : Bytes) (r : Result ExecutionResult × Frame)
      → value_held r.1.world_state ≡ total w
      → r.1.gas_remaining ≤ gas
      → Accounts gas r
      → r.0 ≢ err out_of_fuel
      → Keeps (total w) gas (after_call to w gas r)
  unfolding after_call Keeps Accounts
  after_call-Keeps to (ok result, e) held le a clean = elim (Bool-cases result.success) [
    | inl succeeded ↦
        rw (succeeded, after_call)
          (
            total-persist to e.storage _ ∙ total-world_after w e.world_state held,
            omega (arith, a.0),
          )
    | inr failed ↦
        rw (failed, after_call) (total-world_after w e.world_state held, omega (arith, a.0))
  ]
  after_call-Keeps to (err (out_of_gas n g), e) held le a clean =
      (total-world_after w e.world_state held, omega arith)
  after_call-Keeps to (err x, e) held le a clean = λ p. clean (ground arith)

  after_create-Keeps :
      (address : Bytes) (r : Result ExecutionResult × Frame)
      → value_held r.1.world_state ≡ total w
      → r.1.gas_remaining ≤ gas
      → Accounts gas r
      → r.0 ≢ err out_of_fuel
      → Keeps (total w) gas (after_create address w gas r)
  unfolding after_create Keeps Accounts
  after_create-Keeps address (ok result, e) held le a clean = elim (Bool-cases result.success) [
    | inl succeeded ↦
        rw (succeeded, after_create)
          (
            total-persist address e.storage _
                ∙ total-set_code address result.return_data _
                ∙ total-world_after w e.world_state held,
            omega (arith, a.0),
          )
    | inr failed ↦
        rw (failed, after_create) (total-world_after w e.world_state held, omega (arith, a.0))
  ]
  after_create-Keeps address (err (out_of_gas n g), e) held le a clean =
      (total-world_after w e.world_state held, omega arith)
  after_create-Keeps address (err x, e) held le a clean = λ p. clean (ground arith)

module _ (host : Host) (tx : Transaction) (sender : Bytes) (gas : ℕ) (enough : gas ≤ tx.gas) where
  -- A machine started on `w` with that gas.
  run-Keeps :
      (code : Bytes) (context : ExecutionContext) (storage : Dict ℕ ℕ) (w : World)
      → context.gas ≡ gas
      → let r = execute host (tx.gas + 2) (new_frame code context storage (some w)) in
        (value_held r.1.world_state ≡ total w)
        × (r.1.gas_remaining ≤ gas)
        × Accounts gas r
        × (r.0 ≢ err out_of_fuel)
  unfolding new_frame
  run-Keeps code context storage w e =
      let start = new_frame code context storage (some w) in
      let s = execute-Steps host (tx.gas + 2) start (omega arith) in
      (
        s.advances.value,
        omega (arith, s.advances.gas),
        subst (λ g. Accounts g (execute host (tx.gas + 2) start)) e
            (execute-Accounts host (tx.gas + 2) start (omega arith)),
        s.clean,
      )

  execute_value_transfer-Keeps :
      (w : World) → Keeps (total w) gas (execute_value_transfer tx sender w gas)
  unfolding execute_value_transfer Keeps
  execute_value_transfer-Keeps w = elim (Option-cases (transfer_positive sender tx.to tx.value w)) [
    | inl e ↦ rw (e, execute_value_transfer) (λ p. cc)
    | inr (w', e) ↦
        rw (e, execute_value_transfer)
          (total-transfer_positive sender tx.to tx.value w e, omega arith)
  ]

  execute_contract_call-Keeps :
      (w : World) → Keeps (total w) gas (execute_contract_call host tx sender w gas)
  unfolding execute_contract_call Keeps
  execute_contract_call-Keeps w = elim (Option-cases (transfer_positive sender tx.to tx.value w)) [
    | inl e ↦ rw (e, execute_contract_call) (λ p. cc)
    | inr (w', e) ↦
        let (held, le, a, clean) =
          run-Keeps (get_account tx.to w).code _ (get_account tx.to w).storage w' refl in
        rw (e, execute_contract_call, ← total-transfer_positive sender tx.to tx.value w e)
          (after_call-Keeps gas w' tx.to _ held le a clean)
  ]

  execute_create-Keeps : (w : World) → Keeps (total w) gas (execute_create host tx sender w gas)
  unfolding execute_create Keeps
  execute_create-Keeps w =
      let address = compute_contract_address host.keccak256 sender tx.nonce in
      elim (Option-cases (transfer_positive sender address tx.value (add_balance address 0 w))) [
        | inl e ↦ rw (e, execute_create) (λ p. cc)
        | inr (w', e) ↦
            let same : total w ≡ total w' = omega (
              arith,
              total-transfer_positive sender address tx.value (add_balance address 0 w) e,
              total-add_balance address 0 w,
            ) in
            let (held, le, a, clean) = run-Keeps tx.calldata _ [] w' refl in
            rw (e, execute_create, same) (after_create-Keeps gas w' address _ held le a clean)
      ]

  pub execute_transaction-Keeps :
      (w : World) → Keeps (total w) gas (execute_transaction host tx sender w gas)
  unfolding execute_transaction
  execute_transaction-Keeps w = elim (Bool-cases (length tx.to == 0)) [
    | inl creation ↦ rw (creation, execute_transaction) (execute_create-Keeps w)
    | inr call ↦ elim (Bool-cases (length (get_account tx.to w).code == 0)) [
      | inl no_code ↦ rw (call, no_code, execute_transaction) (execute_value_transfer-Keeps w)
      | inr code ↦ rw (call, code, execute_transaction) (execute_contract_call-Keeps w)
    ]
  ]
