-- ===== src/Core/Call.antt =====
-- core/state_transition.py, `_execute_contract_call`: a transaction whose run in the machine completes.
use ethereum_blockchain.Prelude.{
  ℕ, ◌+◌, ◌-◌, ◌*◌, ◌≤◌, ◌≡◌, ◌≢◌, ◌∙◌, refl, true, false, none, some, arith, ltb, ◌==◌,
  if◌then◌else◌, length,
}
use ethereum_blockchain.Prelude.Dict.{Dict, beq_bytes, nat_eq, bytes_eq, lookup, Distinct}
use ethereum_blockchain.Bytes.{Bytes}
use ethereum_blockchain.World.{
  World, get_account, get_storage, add_balance, increment_nonce, modify_account, debit, snapshot,
}
use ethereum_blockchain.Evm.{
  Host, ExecutionResult, Result, Frame, new_frame, execute, persist, calculate_intrinsic_gas,
}
use ethereum_blockchain.Evm.Persist.{persist-Distinct, or_else, persist_keeps, get_storage-persist}
use ethereum_blockchain.Evm.Completes.{Completes}
use ethereum_blockchain.Transaction.{Transaction}
use ethereum_blockchain.Core.Apply.{
  TransactionResult, returned, applied, settle, after_call, apply_valid,
}
use ethereum_blockchain.Core.Valid.{IsValid}
use ethereum_blockchain.Core.Payment.{Pays, combined-Pays, charged_account}
use ethereum_blockchain.Core.Apply.{penalize, execution_failed}
use ethereum_blockchain.World.{revert}
use ethereum_blockchain.Core.Start.{
  refunded_code, gas_available, bill_of, call_frame, get_storage_congr, refunded_storage,
  apply_valid-Starts,
}

-- What the client of a run that completes keeps of it.
after_call-Completes :
    (to : Bytes) (w : World) (gas used : ℕ) (output : Bytes) (final : Dict ℕ ℕ) (e : Frame)
    (r : Result ExecutionResult × Frame)
    → e.world_state ≡ some w
    → Completes e true output used final r
    → after_call to w gas r
      ≡ returned
          (record {
            success = true;
            return_data = output;
            gas_used = used;
            gas_remaining = e.gas_remaining - used;
          })
          none
          (persist to final w)
unfolding after_call
after_call-Completes to w gas used output final e (r, e') is c =
    let world : e'.world_state ≡ some w = c.world ∙ is in rw (c.result, c.storage, world) refl

call_frame-Completes :
    (host : Host) (tx : Transaction) (sender : Bytes) (w w' : World) (used : ℕ) (output : Bytes)
    (final : Dict ℕ ℕ)
    → Completes
        (call_frame tx sender w w')
        true
        output
        used
        final
        (execute host (tx.gas + 2) (call_frame tx sender w w'))
    → after_call tx.to w' (gas_available tx) (execute host (tx.gas + 2) (call_frame tx sender w w'))
      ≡ returned
          (record {
            success = true;
            return_data = output;
            gas_used = used;
            gas_remaining = gas_available tx - used;
          })
          none
          (persist tx.to final w')
unfolding new_frame
call_frame-Completes host tx sender w w' used output final c =
    after_call-Completes tx.to w' (gas_available tx) used output final (call_frame tx sender w w')
      (execute host (tx.gas + 2) (call_frame tx sender w w')) refl c

-- What a slot holds after the call.
abbrev pub slot_after : Bytes → Bytes → ℕ → Dict ℕ ℕ → World → ℕ
slot_after to b j final w =
    if beq_bytes to b then or_else (lookup j final) (get_storage b j w) else get_storage b j w

-- The outcome of a transaction that calls a contract with success.
pub record Calls (host : Host) (tx : Transaction) (w : World) (sender output : Bytes) (used : ℕ)
    (final : Dict ℕ ℕ) : Type 0 where
  pub receipt : TransactionResult
  pub after : World
  pub applies : apply_valid host tx w sender ≡ applied receipt after
  pub succeeds : receipt.success ≡ true
  pub returns : receipt.return_data ≡ output
  pub costs : receipt.gas_used ≡ calculate_intrinsic_gas tx.calldata + used
  pub pays :
      Pays sender tx.to tx.value
        ((calculate_intrinsic_gas tx.calldata + used) * tx.gas_price)
        w
        after
  pub slots : (b : Bytes) (j : ℕ) → get_storage b j after ≡ slot_after tx.to b j final w
  pub codes : (b : Bytes) → (get_account b after).code ≡ (get_account b w).code
  pub distinct :
      ((b : Bytes) → Distinct (get_account b w).storage)
      → (b : Bytes) → Distinct (get_account b after).storage

-- The outcome of a transaction whose call reverts: all gas is used, and nothing has changed but the sender's
-- nonce, one higher, and its balance, lower by the price of the gas.
pub record Fails (host : Host) (tx : Transaction) (w : World) (sender output : Bytes) : Type 0 where
  pub applies :
      apply_valid host tx w sender
      ≡ applied
          (record {
            success = false;
            return_data = output;
            gas_used = tx.gas;
            gas_remaining = 0;
            error = some execution_failed;
            contract_address = none;
          })
          (increment_nonce sender (modify_account sender (debit (tx.gas * tx.gas_price)) w))

after_call-reverted :
    (to : Bytes) (w : World) (gas used : ℕ) (output : Bytes) (final : Dict ℕ ℕ) (e : Frame)
    (r : Result ExecutionResult × Frame)
    → e.world_state ≡ some w
    → Completes e false output used final r
    → after_call to w gas r
      ≡ returned
          (record {
            success = false;
            return_data = output;
            gas_used = used;
            gas_remaining = e.gas_remaining - used;
          })
          none
          w
unfolding after_call
after_call-reverted to w gas used output final e (r, e') is c =
    let world : e'.world_state ≡ some w = c.world ∙ is in rw (c.result, world) refl

module _ (host : Host) (tx : Transaction) (w : World) (limit : ℕ) (sender : Bytes)
    (valid : IsValid tx w limit sender) where
  -- call
  pub apply_valid-Calls :
      (output : Bytes) (used : ℕ) (final : Dict ℕ ℕ)
      → length tx.to ≢ 0
      → (length (get_account tx.to w).code == 0) ≡ false
      → Distinct final
      → used ≤ gas_available tx
      → ((w' : World)
          → Completes
              (call_frame tx sender w w')
              true
              output
              used
              final
              (execute host (tx.gas + 2) (call_frame tx sender w w')))
      → Calls host tx w sender output used final
  unfolding apply_valid settle snapshot
  apply_valid-Calls output used final call has_code distinct le runs =
      let s = apply_valid-Starts host tx w limit sender valid call has_code in
      let at = λ (b : Bytes).
        charged_account sender b (tx.gas * tx.gas_price) w (omega (arith, valid.balance)) in
      let ran = call_frame-Completes host tx sender w s.funded used output final (runs s.funded) in
      let left = gas_available tx - used in
      let fee = calculate_intrinsic_gas tx.calldata + used in
      let bill = bill_of tx used valid.intrinsic le in
      let refund = left * tx.gas_price in
      let w₂ = persist tx.to final s.funded in
      let kept = λ (b : Bytes). persist_keeps tx.to b final s.funded in
      record {
        receipt = record {
          success = true;
          return_data = output;
          gas_used = tx.gas - left;
          gas_remaining = left;
          error = none;
          contract_address = none;
        };
        after = if ltb 0 refund then add_balance sender refund w₂ else w₂;
        applies = rw (s.charges, s.executes, ran, apply_valid) refl;
        succeeds = refl;
        returns = refl;
        costs = omega (arith, valid.intrinsic);
        pays =
            combined-Pays sender tx.to tx.value (fee * tx.gas_price) refund w s.charged w₂
              (λ b. (rw (← bill, s.is) ((at b).0), rw s.is ((at b).1)))
              (λ b. rw ((kept b).0) (s.moves.balances b)) (λ b. (kept b).1 ∙ s.moves.nonces b);
        codes = λ b. refunded_code sender b refund w₂ ∙ (kept b).2 ∙ s.codes b;
        distinct = λ h b.
            rw (refunded_storage sender b refund w₂)
              (persist-Distinct tx.to b final s.funded λ c. rw (s.storages c) (h c));
        slots = λ b j.
            let same = get_storage_congr b j w s.funded (s.storages b) in
            get_storage_congr b j w₂ _ (refunded_storage sender b refund w₂)
            ∙ rw (← same) (get_storage-persist tx.to b j final s.funded distinct);
      }

  -- A run that ends in a revert.
  pub apply_valid-Fails :
      (output : Bytes) (used : ℕ) (final : Dict ℕ ℕ)
      → length tx.to ≢ 0
      → (length (get_account tx.to w).code == 0) ≡ false
      → ((w' : World)
          → Completes
              (call_frame tx sender w w')
              false
              output
              used
              final
              (execute host (tx.gas + 2) (call_frame tx sender w w')))
      → Fails host tx w sender output
  unfolding apply_valid settle snapshot penalize revert new_frame
  apply_valid-Fails output used final call has_code runs =
      let s = apply_valid-Starts host tx w limit sender valid call has_code in
      let ran =
        after_call-reverted tx.to s.funded (gas_available tx) used output final
          (call_frame tx sender w s.funded)
          (execute host (tx.gas + 2) (call_frame tx sender w s.funded)) refl (runs s.funded) in
      record {
        applies =
            rw (s.charges, s.executes, ran, apply_valid, settle, penalize, s.charges, ← s.is) refl;
      }
