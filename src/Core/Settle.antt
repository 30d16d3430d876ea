-- ===== src/Core/Settle.antt =====
-- core/state_transition.py: how a valid transaction is settled.
use ethereum_blockchain.Prelude.{
  ℕ, ◌+◌, ◌-◌, ◌*◌, ◌≤◌, ◌≡◌, ◌≢◌, refl, sym, true, some, Bool-cases, ◌⊎◌, inl, inr, arith, ltb, [],
  if◌then◌else◌,
}
use native.Mathlib.Nat.{add-mul}
use ethereum_blockchain.Bytes.{Bytes}
use ethereum_blockchain.World.{
  World, get_account, add_balance, increment_nonce, snapshot, revert, modify_account, debit,
}
use ethereum_blockchain.World.Lookup.{deduct_balance_cases}
use ethereum_blockchain.World.Total.{
  total, total-add_balance, total-deduct_balance, total-increment_nonce,
}
use ethereum_blockchain.Evm.{Host, out_of_fuel, calculate_intrinsic_gas}
use ethereum_blockchain.Transaction.{Transaction, EthKeys}
use ethereum_blockchain.Core.Validator.{valid, validate_transaction}
use ethereum_blockchain.Core.Apply.{
  Failure, execution_failed, evm_error, TransactionResult, Execution, raised, returned, Application,
  rejected, crashed, applied, charge, penalize, settle, apply_valid, apply_transaction,
}
use ethereum_blockchain.Core.Valid.{IsValid, validate_transaction-IsValid}
use ethereum_blockchain.Core.Conserve.{Keeps, execute_transaction-Keeps}

-- What a transaction of `sender` costs and does: the gas is split into what was used and what remains;
-- the balances lose what the used gas costs; and a failure changes nothing but the sender's nonce and
-- balance, which pays for all the gas. The error of a failure is never that the fuel of the machine
-- ran out.
pub record Settles (tx : Transaction) (w : World) (sender : Bytes) (r : TransactionResult)
    (w' : World) : Type 0 where
  pub gas : r.gas_used + r.gas_remaining ≡ tx.gas
  pub value : total w' + r.gas_used * tx.gas_price ≡ total w
  pub fuelled : r.error ≢ some (evm_error out_of_fuel)
  pub failure :
      (r.success ≡ true)
      ⊎ ((r.gas_used ≡ tx.gas)
          × (w' ≡ increment_nonce sender (modify_account sender (debit (tx.gas * tx.gas_price)) w)))

pub IsSettled : Transaction → World → Bytes → Application → Type 0
IsSettled tx w sender (rejected e) = ⊥
IsSettled tx w sender crashed = ⊥
IsSettled tx w sender (applied r w') = Settles tx w sender r w'

module _ (tx : Transaction) (w : World) (sender : Bytes)
    (covers : tx.gas * tx.gas_price ≤ (get_account sender w).balance) where
  pub charge-covered :
      (w' : World) × (charge sender (tx.gas * tx.gas_price) w ≡ some w')
      × (w' ≡ increment_nonce sender (modify_account sender (debit (tx.gas * tx.gas_price)) w))
      × (total w' + tx.gas * tx.gas_price ≡ total w)
  unfolding charge
  charge-covered = elim (deduct_balance_cases sender (tx.gas * tx.gas_price) w) [
    | inl (short, _) ↦ absurd (omega arith)
    | inr (_, e) ↦ (
      increment_nonce sender (modify_account sender (debit (tx.gas * tx.gas_price)) w),
      rw (e, charge) refl,
      refl,
      omega (
        arith,
        total-increment_nonce sender (modify_account sender (debit (tx.gas * tx.gas_price)) w),
        total-deduct_balance sender (tx.gas * tx.gas_price) w e,
      ),
    )
  ]

  penalize-IsSettled :
      (output : Bytes) (failure : Failure)
      → failure ≢ evm_error out_of_fuel
      → IsSettled tx w sender (penalize tx sender w output failure)
  unfolding penalize IsSettled revert
  penalize-IsSettled output failure fuelled =
      let (w', e, same, loss) = charge-covered in
      rw (e, penalize)
        (record {
          gas = omega arith;
          value = loss;
          fuelled = λ p. fuelled (ground arith);
          failure = inr (refl, same);
        })

  settle-IsSettled :
      (gas : ℕ) (charged : World) (x : Execution)
      → gas ≤ tx.gas
      → total charged + tx.gas * tx.gas_price ≡ total w
      → Keeps (total charged) gas x
      → IsSettled tx w sender (settle tx sender w x)
  unfolding settle IsSettled Keeps
  settle-IsSettled gas charged (raised failure) le paid keeps = penalize-IsSettled [] failure keeps
  settle-IsSettled gas charged (returned result address w') le paid keeps =
      elim (Bool-cases result.success) [
        | inr failed ↦
            rw (failed, settle) (penalize-IsSettled result.return_data execution_failed λ p. cc)
        | inl succeeded ↦
            let left = result.gas_remaining in
            let bill : (tx.gas - left) * tx.gas_price + left * tx.gas_price
                ≡ tx.gas * tx.gas_price =
              let back : tx.gas - left + left ≡ tx.gas = omega (arith, keeps.1) in
              rw back at (sym (add-mul (tx.gas - left) left tx.gas_price)) in
            let refunded : total (
                  if ltb 0 (left * tx.gas_price)
                  then add_balance sender (left * tx.gas_price) w'
                  else w')
                ≡ total w' + left * tx.gas_price =
              ground (arith, total-add_balance sender (left * tx.gas_price) w') in
            rw (succeeded, settle)
              (record {
                gas = omega (arith, keeps.1);
                value = omega (arith, refunded, bill, paid, keeps.0);
                fuelled = λ p. cc;
                failure = inl refl;
              })
      ]

module _ (host : Host) (tx : Transaction) (w : World) (sender : Bytes) where
  apply_valid-IsSettled :
      (limit : ℕ) → IsValid tx w limit sender → IsSettled tx w sender (apply_valid host tx w sender)
  unfolding apply_valid snapshot
  apply_valid-IsSettled limit h =
      let covers : tx.gas * tx.gas_price ≤ (get_account sender w).balance =
        omega (arith, h.balance) in
      let gas = tx.gas - calculate_intrinsic_gas tx.calldata in
      let (charged, e, _, paid) = charge-covered tx w sender covers in
      rw (e, apply_valid)
        (settle-IsSettled tx w sender covers gas charged _ (omega arith) paid
          (execute_transaction-Keeps host tx sender gas (omega arith) charged))

  -- A transaction that validation lets through is applied: no exception leaves apply_transaction,
  -- and no failure is the machine running out of the model's fuel. The gas used and the gas
  -- remaining add up to the transaction's gas; the sum of all balances falls by exactly what the
  -- used gas costs, whatever contracts ran; and a failure uses all the gas and leaves the state as
  -- it was but for the sender's nonce, one higher, and balance, lower by the price of all the gas.
  pub apply_transaction-IsSettled :
      (eth : EthKeys) (limit : ℕ)
      → validate_transaction eth tx w limit ≡ valid sender
      → IsSettled tx w sender (apply_transaction host eth tx w limit)
  unfolding apply_transaction
  apply_transaction-IsSettled eth limit e =
      rw (e, apply_transaction)
        (apply_valid-IsSettled limit ((validate_transaction-IsValid eth tx w limit sender).0 e).1)
