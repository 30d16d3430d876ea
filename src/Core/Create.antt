-- ===== src/Core/Create.antt =====
-- core/state_transition.py, `_execute_create`: a transaction whose init code completes.
use ethereum_blockchain.Prelude.{
  ℕ, ◌+◌, ◌-◌, ◌*◌, ◌≤◌, ◌≡◌, ◌∙◌, [], refl, true, none, some, inl, inr, arith, ltb, ◌==◌,
  if◌then◌else◌, length,
}
use ethereum_blockchain.Prelude.Dict.{Dict, beq_bytes, beq_bytes_iff, nat_eq, bytes_eq, Distinct}
use ethereum_blockchain.Bytes.{Bytes}
use ethereum_blockchain.World.{World, get_account, get_storage, add_balance, set_code, snapshot}
use ethereum_blockchain.World.Lookup.{transfer_cases}
use ethereum_blockchain.Evm.{
  Host, ExecutionContext, ExecutionResult, Result, ok, Frame, new_frame, execute, persist,
  calculate_intrinsic_gas, compute_contract_address,
}
use ethereum_blockchain.Evm.Completes.{Completes}
use ethereum_blockchain.Transaction.{Transaction}
use ethereum_blockchain.Core.Apply.{
  TransactionResult, returned, applied, settle, after_create, execute_create, execute_transaction,
  apply_valid,
}
use ethereum_blockchain.Core.Valid.{IsValid}
use ethereum_blockchain.Core.Settle.{charge-covered}
use ethereum_blockchain.Core.Payment.{
  Pays, combined-Pays, charged_account, transfer_positive-transfer,
}
use ethereum_blockchain.Core.Start.{
  refunded_code, gas_available, bill_of, charged_storage, refunded_storage, get_storage_congr,
}
use ethereum_blockchain.Core.Call.{slot_after}
use ethereum_blockchain.Core.Install.{
  credit_nothing, installed, installed_account, installed_slots, installed-Distinct,
}

-- Where the contract goes.
abbrev pub new_address : Host → Transaction → Bytes → Bytes
new_address host tx sender = compute_contract_address host.keccak256 sender tx.nonce

abbrev pub create_context : Host → Transaction → Bytes → ExecutionContext
create_context host tx sender = record {
  caller = sender;
  address = new_address host tx sender;
  value = tx.value;
  calldata = [];
  gas = gas_available tx;
}

-- The frame of the init code, once the world state is `w'`.
abbrev pub create_frame : Host → Transaction → Bytes → World → Frame
create_frame host tx sender w' = new_frame tx.calldata (create_context host tx sender) [] (some w')

create_frame-Completes :
    (host : Host) (tx : Transaction) (sender : Bytes) (w' : World) (used : ℕ) (output : Bytes)
    (final : Dict ℕ ℕ)
    → Completes
        (create_frame host tx sender w')
        true
        output
        used
        final
        (execute host (tx.gas + 2) (create_frame host tx sender w'))
    → after_create
        (new_address host tx sender)
        w'
        (gas_available tx)
        (execute host (tx.gas + 2) (create_frame host tx sender w'))
      ≡ returned
          (record {
            success = true;
            return_data = output;
            gas_used = used;
            gas_remaining = gas_available tx - used;
          })
          (some (new_address host tx sender))
          (installed (new_address host tx sender) output final w')
unfolding new_frame installed after_create
create_frame-Completes host tx sender w' used output final c =
    after (execute host (tx.gas + 2) (create_frame host tx sender w')) c.result c.storage c.world
  where
    after :
        (r : Result ExecutionResult × Frame)
        → r.0
          ≡ ok (record {
            success = true;
            return_data = output;
            gas_used = used;
            gas_remaining = gas_available tx - used;
          })
        → r.1.storage ≡ final
        → r.1.world_state ≡ some w'
        → after_create (new_address host tx sender) w' (gas_available tx) r
          ≡ returned
              (record {
                success = true;
                return_data = output;
                gas_used = used;
                gas_remaining = gas_available tx - used;
              })
              (some (new_address host tx sender))
              (persist
                (new_address host tx sender)
                final
                (set_code (new_address host tx sender) output w'))
    after (r, e) h k l = rw (h, k, l) refl

-- The outcome of a transaction that creates a contract.
pub record Creates (host : Host) (tx : Transaction) (w : World) (sender code : Bytes) (used : ℕ)
    (final : Dict ℕ ℕ) : Type 0 where
  pub receipt : TransactionResult
  pub after : World
  pub applies : apply_valid host tx w sender ≡ applied receipt after
  pub succeeds : receipt.success ≡ true
  pub address : receipt.contract_address ≡ some (new_address host tx sender)
  pub costs : receipt.gas_used ≡ calculate_intrinsic_gas tx.calldata + used
  pub pays :
      Pays sender
        (new_address host tx sender)
        tx.value
        ((calculate_intrinsic_gas tx.calldata + used) * tx.gas_price)
        w
        after
  pub codes :
      (b : Bytes)
      → (get_account b after).code
        ≡ (if beq_bytes (new_address host tx sender) b then code else (get_account b w).code)
  pub distinct :
      ((b : Bytes) → Distinct (get_account b w).storage)
      → (b : Bytes) → Distinct (get_account b after).storage
  pub slots :
      (b : Bytes) (j : ℕ)
      → get_storage b j after ≡ slot_after (new_address host tx sender) b j final w

module _ (host : Host) (tx : Transaction) (w : World) (limit : ℕ) (sender : Bytes)
    (valid : IsValid tx w limit sender) where
  -- create
  pub apply_valid-Creates :
      (code : Bytes) (used : ℕ) (final : Dict ℕ ℕ)
      → length tx.to ≡ 0
      → Distinct final
      → used ≤ gas_available tx
      → ((w' : World)
          → Completes
              (create_frame host tx sender w')
              true
              code
              used
              final
              (execute host (tx.gas + 2) (create_frame host tx sender w')))
      → Creates host tx w sender code used final
  unfolding apply_valid settle execute_transaction execute_create snapshot
  apply_valid-Creates code used final create distinct le runs =
      let covers : tx.gas * tx.gas_price ≤ (get_account sender w).balance =
        omega (arith, valid.balance) in
      let (charged, e, is, _) = charge-covered tx w sender covers in
      let at = λ (b : Bytes). charged_account sender b (tx.gas * tx.gas_price) w covers in
      let address = new_address host tx sender in
      let is_create : (length tx.to == 0) ≡ true = ground arith in
      let w₁ = add_balance address 0 charged in
      let same = credit_nothing address charged in
      let same_storage : (b : Bytes) → (get_account b w₁).storage ≡ (get_account b w).storage =
        λ b. same.storages b ∙ rw is (charged_storage sender b (tx.gas * tx.gas_price) w) in
      elim (transfer_cases sender address tx.value w₁) [
        | inl (short, _) ↦ absurd (
            let self = (beq_bytes_iff sender sender).1 refl in
            let own = rw (← is, self) at ((at sender).0) in
            omega (arith, own, valid.balance, same.balances sender))
        | inr (_, (w₂, e₂, m)) ↦
            let e₃ = transfer_positive-transfer sender address tx.value w₁ in
            let ran = create_frame-Completes host tx sender w₂ used code final (runs w₂) in
            let left = gas_available tx - used in
            let fee = calculate_intrinsic_gas tx.calldata + used in
            let bill = bill_of tx used valid.intrinsic le in
            let refund = left * tx.gas_price in
            let w₃ = installed address code final w₂ in
            let kept = installed_account address code final w₂ in
            record {
              receipt = record {
                success = true;
                return_data = code;
                gas_used = tx.gas - left;
                gas_remaining = left;
                error = none;
                contract_address = some address;
              };
              after = if ltb 0 refund then add_balance sender refund w₃ else w₃;
              applies = rw (e, is_create, e₃, e₂, apply_valid, execute_create, ran) refl;
              succeeds = refl;
              address = refl;
              costs = omega (arith, valid.intrinsic);
              pays =
                  combined-Pays sender address tx.value (fee * tx.gas_price) refund w w₁ w₃
                    (λ b. (
                      rw (same.balances b, ← bill, is) ((at b).0),
                      rw (same.nonces b, is) ((at b).1),
                    ))
                    (λ b. rw ((kept b).0) (m.balances b)) (λ b. (kept b).1 ∙ m.nonces b);
              codes = λ b.
                  let before : (get_account b w₂).code ≡ (get_account b w).code =
                    m.codes b ∙ same.codes b ∙ rw is ((at b).2) in
                  refunded_code sender b refund w₃ ∙ rw (← before) ((kept b).2);
              distinct = λ h b. rw (refunded_storage sender b refund w₃) (
                  installed-Distinct address code final w₂ b
                    λ c. rw (m.storages c, same_storage c) (h c));
              slots = λ b j.
                  let before = get_storage_congr b j w w₂ (m.storages b ∙ same_storage b) in
                  get_storage_congr b j w₃ _ (refunded_storage sender b refund w₃)
                  ∙ rw (← before) (installed_slots address code final w₂ b j distinct);
            }
      ]
