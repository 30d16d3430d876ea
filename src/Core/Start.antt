-- ===== src/Core/Start.antt =====
-- core/state_transition.py, `apply_transaction` up to the run of a contract: the charge, the transfer of the
-- value and the frame.
use ethereum_blockchain.Prelude.{
  ℕ, ◌+◌, ◌-◌, ◌*◌, ◌≤◌, ◌≡◌, ◌≢◌, ◌∙◌, refl, false, some, inl, inr, arith, ltb, ◌==◌,
  if◌then◌else◌, length,
}
use native.Mathlib.Nat.{add-mul}
use ethereum_blockchain.Prelude.Dict.{beq_bytes_iff, nat_eq, bytes_eq}
use ethereum_blockchain.Bytes.{Bytes}
use ethereum_blockchain.World.{
  World, get_account, get_storage, add_balance, increment_nonce, modify_account, debit, credit,
  bump_nonce,
}
use ethereum_blockchain.World.Lookup.{Moves, get_account-modify_account, transfer_cases}
use ethereum_blockchain.Evm.{
  Host, ExecutionContext, Frame, new_frame, execute, calculate_intrinsic_gas,
}
use ethereum_blockchain.Transaction.{Transaction}
use ethereum_blockchain.Core.Apply.{after_call, execute_contract_call, execute_transaction}
use ethereum_blockchain.Core.Apply.{charge}
use ethereum_blockchain.Core.Valid.{IsValid}
use ethereum_blockchain.Core.Settle.{charge-covered}
use ethereum_blockchain.Core.Payment.{charged_account, transfer_positive-transfer}

-- The gas that the contract gets.
abbrev pub gas_available : Transaction → ℕ
gas_available tx = tx.gas - calculate_intrinsic_gas tx.calldata

-- The price of all the gas is that of the gas used and the refund.
pub bill_of :
    (tx : Transaction) (used : ℕ)
    → calculate_intrinsic_gas tx.calldata ≤ tx.gas
    → used ≤ gas_available tx
    → tx.gas * tx.gas_price
      ≡ (calculate_intrinsic_gas tx.calldata + used) * tx.gas_price
        + (gas_available tx - used) * tx.gas_price
bill_of tx used intrinsic le =
    let fee = calculate_intrinsic_gas tx.calldata + used in
    let whole : fee + (gas_available tx - used) ≡ tx.gas = omega arith in
    rw whole at (add-mul fee (gas_available tx - used) tx.gas_price)

-- The context of the call.
abbrev pub call_context : Transaction → Bytes → ExecutionContext
call_context tx sender = record {
  caller = sender;
  address = tx.to;
  value = tx.value;
  calldata = tx.calldata;
  gas = gas_available tx;
}

-- The frame of the call, once the world state is `w'`.
abbrev pub call_frame : Transaction → Bytes → World → World → Frame
call_frame tx sender w w' =
    let contract = get_account tx.to w in
    new_frame contract.code (call_context tx sender) contract.storage (some w')

-- Neither the charge nor the refund touches a storage.
pub charged_storage :
    (s b : Bytes) (x : ℕ) (w : World)
    → (get_account b (increment_nonce s (modify_account s (debit x) w))).storage
      ≡ (get_account b w).storage
unfolding increment_nonce
charged_storage s b x w =
    let last = get_account-modify_account s b bump_nonce (modify_account s (debit x) w) in
    let first = get_account-modify_account s b (debit x) w in
    let at_s = get_account-modify_account s s (debit x) w in
    ground (arith, last, first, at_s, beq_bytes_iff s b, beq_bytes_iff s s)

pub refunded_storage :
    (s b : Bytes) (x : ℕ) (w : World)
    → (get_account b (if ltb 0 x then add_balance s x w else w)).storage ≡ (get_account b w).storage
unfolding add_balance
refunded_storage s b x w =
    let credited = get_account-modify_account s b (credit x) w in
    ground (arith, credited, beq_bytes_iff s b)

pub refunded_code :
    (s b : Bytes) (x : ℕ) (w : World)
    → (get_account b (if ltb 0 x then add_balance s x w else w)).code ≡ (get_account b w).code
unfolding add_balance
refunded_code s b x w =
    let credited = get_account-modify_account s b (credit x) w in
    ground (arith, credited, beq_bytes_iff s b)

pub get_storage_congr :
    (b : Bytes) (j : ℕ) (w w' : World)
    → (get_account b w').storage ≡ (get_account b w).storage
    → get_storage b j w' ≡ get_storage b j w
unfolding get_storage
get_storage_congr b j w w' e = rw e refl

-- A call that has come to the machine.
pub record Starts (host : Host) (tx : Transaction) (w : World) (sender : Bytes) : Type 0 where
  pub charged : World
  pub funded : World
  pub charges : charge sender (tx.gas * tx.gas_price) w ≡ some charged
  pub is :
      charged ≡ increment_nonce sender (modify_account sender (debit (tx.gas * tx.gas_price)) w)
  pub moves : Moves sender tx.to tx.value charged funded
  pub executes :
      execute_transaction host tx sender charged (gas_available tx)
      ≡ after_call tx.to funded
          (gas_available tx)
          (execute host (tx.gas + 2) (call_frame tx sender w funded))
  pub storages : (b : Bytes) → (get_account b funded).storage ≡ (get_account b w).storage
  pub codes : (b : Bytes) → (get_account b funded).code ≡ (get_account b w).code

-- A valid transaction to an account with code comes so far.
pub apply_valid-Starts :
    (host : Host) (tx : Transaction) (w : World) (limit : ℕ) (sender : Bytes)
    → IsValid tx w limit sender
    → length tx.to ≢ 0
    → (length (get_account tx.to w).code == 0) ≡ false
    → Starts host tx w sender
unfolding execute_transaction execute_contract_call
apply_valid-Starts host tx w limit sender valid call has_code =
    let covers : tx.gas * tx.gas_price ≤ (get_account sender w).balance =
      omega (arith, valid.balance) in
    let (charged, e, is, _) = charge-covered tx w sender covers in
    let at = λ (b : Bytes). charged_account sender b (tx.gas * tx.gas_price) w covers in
    let is_call : (length tx.to == 0) ≡ false = ground arith in
    let same_code : (get_account tx.to charged).code ≡ (get_account tx.to w).code =
      rw is ((at tx.to).2) in
    let same_storage : (b : Bytes) → (get_account b charged).storage ≡ (get_account b w).storage =
      λ b. rw is (charged_storage sender b (tx.gas * tx.gas_price) w) in
    elim (transfer_cases sender tx.to tx.value charged) [
      | inl (short, _) ↦ absurd (
          let self = (beq_bytes_iff sender sender).1 refl in
          let own = rw (← is, self) at ((at sender).0) in omega (arith, own, valid.balance))
      | inr (_, (funded, e₂, m)) ↦
          let e₃ = transfer_positive-transfer sender tx.to tx.value charged in
          record {
            charged = charged;
            funded = funded;
            charges = e;
            is = is;
            moves = m;
            executes =
                rw
                  (
                    is_call,
                    same_code,
                    has_code,
                    e₃,
                    e₂,
                    execute_contract_call,
                    same_code,
                    same_storage tx.to,
                  )
                  refl;
            storages = λ b. m.storages b ∙ same_storage b;
            codes = λ b. m.codes b ∙ rw is ((at b).2);
          }
    ]
