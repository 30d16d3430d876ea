-- ===== src/Core/Payment.antt =====
-- core/state_transition.py, `_execute_value_transfer`: what a plain payment does, account by account.
use ethereum_blockchain.Prelude.{
  ℕ, ◌+◌, ◌-◌, ◌*◌, ◌≤◌, ◌≡◌, ◌≢◌, [], refl, true, false, none, Bool-cases, inl, inr, arith, ltb,
  ◌==◌, if◌then◌else◌, length,
}
use native.Mathlib.Nat.{add-mul}
use ethereum_blockchain.Prelude.Dict.{beq_bytes, beq_bytes_iff, nat_eq}
use ethereum_blockchain.Bytes.{Bytes}
use ethereum_blockchain.World.{
  World, get_account, add_balance, increment_nonce, transfer, modify_account, debit, credit,
  bump_nonce, snapshot,
}
use ethereum_blockchain.World.Lookup.{get_account-modify_account, transfer_cases}
use ethereum_blockchain.Evm.{Host, transfer_positive, calculate_intrinsic_gas}
use ethereum_blockchain.Transaction.{Transaction}
use ethereum_blockchain.Core.Apply.{
  TransactionResult, applied, settle, execute_value_transfer, execute_transaction, apply_valid,
}
use ethereum_blockchain.Core.Valid.{IsValid}
use ethereum_blockchain.Core.Settle.{charge-covered}

pub transfer_positive-transfer :
    (s r : Bytes) (x : ℕ) (w : World) → transfer_positive s r x w ≡ transfer s r x w
unfolding transfer_positive transfer
transfer_positive-transfer s r x w = elim (Bool-cases (x == 0)) [
  | inl nothing ↦ let none_moved : ltb 0 x ≡ false = ground arith in rw (nothing, none_moved) refl
  | inr something ↦ let moved : ltb 0 x ≡ true = ground arith in rw (something, moved) refl
]

-- The sender's account after the charge, and every other.
pub charged_account :
    (s b : Bytes) (x : ℕ) (w : World)
    → x ≤ (get_account s w).balance
    → let w' = increment_nonce s (modify_account s (debit x) w) in
      ((get_account b w').balance + (if beq_bytes s b then x else 0) ≡ (get_account b w).balance)
      × ((get_account b w').nonce ≡ (get_account b w).nonce + (if beq_bytes s b then 1 else 0))
      × ((get_account b w').code ≡ (get_account b w).code)
unfolding increment_nonce
charged_account s b x w le =
    let w₁ = modify_account s (debit x) w in
    let last = get_account-modify_account s b bump_nonce w₁ in
    let first = get_account-modify_account s b (debit x) w in
    let at_s = get_account-modify_account s s (debit x) w in
    (
      ground (arith, last, first, at_s, beq_bytes_iff s b, beq_bytes_iff s s),
      ground (arith, last, first, at_s, beq_bytes_iff s b, beq_bytes_iff s s),
      ground (arith, last, first, at_s, beq_bytes_iff s b, beq_bytes_iff s s),
    )

refunded_account :
    (s b : Bytes) (x : ℕ) (w : World)
    → let w' = if ltb 0 x then add_balance s x w else w in
      ((get_account b w').balance ≡ (get_account b w).balance + (if beq_bytes s b then x else 0))
      × ((get_account b w').nonce ≡ (get_account b w).nonce)
unfolding add_balance
refunded_account s b x w =
    let credited = get_account-modify_account s b (credit x) w in
    (ground (arith, credited, beq_bytes_iff s b), ground (arith, credited, beq_bytes_iff s b))

-- What a payment of `value`, with `fee` paid for gas, does at every address.
pub record Pays (sender to : Bytes) (value fee : ℕ) (w w' : World) : Type 0 where
  pub balances :
      (b : Bytes)
      → (get_account b w').balance + (if beq_bytes sender b then value + fee else 0)
        ≡ (get_account b w).balance + (if beq_bytes to b then value else 0)
  pub nonces :
      (b : Bytes)
      → (get_account b w').nonce ≡ (get_account b w).nonce + (if beq_bytes sender b then 1 else 0)

-- The charge, the transfer and the refund, one after the other.
pub combined-Pays :
    (sender to : Bytes) (value fee refund : ℕ) (w w₁ w₂ : World)
    → ((b : Bytes)
        → ((get_account b w₁).balance + (if beq_bytes sender b then fee + refund else 0)
            ≡ (get_account b w).balance)
          × ((get_account b w₁).nonce
              ≡ (get_account b w).nonce + (if beq_bytes sender b then 1 else 0)))
    → ((b : Bytes)
        → (get_account b w₂).balance + (if beq_bytes sender b then value else 0)
          ≡ (get_account b w₁).balance + (if beq_bytes to b then value else 0))
    → ((b : Bytes) → (get_account b w₂).nonce ≡ (get_account b w₁).nonce)
    → Pays sender to value fee w (if ltb 0 refund then add_balance sender refund w₂ else w₂)
combined-Pays sender to value fee refund w w₁ w₂ charged balances nonces = record {
  balances =
      λ b. combine b _ _ _ _ (charged b).0 (balances b) (refunded_account sender b refund w₂).0;
  nonces = λ b. omega (arith, (charged b).1, nonces b, (refunded_account sender b refund w₂).1);
}
  where
    combine :
        (b : Bytes) (x₀ x₁ x₂ x₃ : ℕ)
        → x₁ + (if beq_bytes sender b then fee + refund else 0) ≡ x₀
        → x₂ + (if beq_bytes sender b then value else 0)
          ≡ x₁ + (if beq_bytes to b then value else 0)
        → x₃ ≡ x₂ + (if beq_bytes sender b then refund else 0)
        → x₃ + (if beq_bytes sender b then value + fee else 0)
          ≡ x₀ + (if beq_bytes to b then value else 0)
    combine b x₀ x₁ x₂ x₃ h₁ h₂ h₃ = elim (Bool-cases (beq_bytes sender b)) [
      | inl own ↦
          let k₁ = rw own at h₁ in
          let k₂ = rw own at h₂ in let k₃ = rw own at h₃ in rw own (omega (arith, k₁, k₂, k₃))
      | inr other ↦
          let k₁ = rw other at h₁ in
          let k₂ = rw other at h₂ in let k₃ = rw other at h₃ in rw other (omega (arith, k₁, k₂, k₃))
    ]

module _ (host : Host) (tx : Transaction) (w : World) (limit : ℕ) (sender : Bytes)
    (valid : IsValid tx w limit sender) where
  -- A valid transaction to an account without code succeeds and uses exactly the intrinsic gas:
  -- the recipient gains the value, the sender loses the value and the price of that gas and its
  -- nonce grows by one, no other balance or nonce changes, and sender and recipient may be the
  -- same.
  pub apply_valid-Pays :
      length tx.to ≢ 0
      → length (get_account tx.to w).code ≡ 0
      → (r : TransactionResult) × (w' : World) × (apply_valid host tx w sender ≡ applied r w')
        × (r.success ≡ true)
        × (r.gas_used ≡ calculate_intrinsic_gas tx.calldata)
        × Pays sender tx.to tx.value (calculate_intrinsic_gas tx.calldata * tx.gas_price) w w'
  unfolding apply_valid settle execute_transaction execute_value_transfer snapshot
  apply_valid-Pays payment no_code =
      let covers : tx.gas * tx.gas_price ≤ (get_account sender w).balance =
        omega (arith, valid.balance) in
      let (charged, e, is, _) = charge-covered tx w sender covers in
      let gas = tx.gas - calculate_intrinsic_gas tx.calldata in
      let at = λ (b : Bytes). charged_account sender b (tx.gas * tx.gas_price) w covers in
      let is_call : (length tx.to == 0) ≡ false = ground arith in
      let same_code : (get_account tx.to charged).code ≡ (get_account tx.to w).code =
        rw is ((at tx.to).2) in
      let code_test : (length (get_account tx.to charged).code == 0) ≡ true =
        rw same_code (ground arith) in
      elim (transfer_cases sender tx.to tx.value charged) [
        | inl (short, _) ↦ absurd (
            let self = (beq_bytes_iff sender sender).1 refl in
            let own = rw (← is, self) at ((at sender).0) in omega (arith, own, valid.balance))
        | inr (_, (w₂, e₂, m)) ↦
            let e₃ = transfer_positive-transfer sender tx.to tx.value charged in
            let refund = gas * tx.gas_price in
            let fee = calculate_intrinsic_gas tx.calldata * tx.gas_price in
            let bill : tx.gas * tx.gas_price ≡ fee + refund =
              let whole : calculate_intrinsic_gas tx.calldata + gas ≡ tx.gas =
                omega (arith, valid.intrinsic) in
              rw whole at (add-mul (calculate_intrinsic_gas tx.calldata) gas tx.gas_price) in
            let r : TransactionResult = record {
              success = true;
              return_data = [];
              gas_used = tx.gas - gas;
              gas_remaining = gas;
              error = none;
              contract_address = none;
            } in
            (
              r,
              (if ltb 0 refund then add_balance sender refund w₂ else w₂),
              rw (e, is_call, code_test, e₃, e₂, apply_valid, execute_value_transfer) refl,
              refl,
              omega (arith, valid.intrinsic),
              combined-Pays sender tx.to tx.value fee refund w charged w₂
                  (λ b. (rw (← bill, is) ((at b).0), rw is ((at b).1))) m.balances m.nonces,
            )
      ]
