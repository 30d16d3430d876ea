-- ===== src/Core/Valid.antt =====
-- core/tx_validator.py: which transactions `validate_transaction` lets through.
use ethereum_blockchain.Prelude.{
  ℕ, ◌+◌, ◌*◌, ◌≤◌, ◌≡◌, ◌↔◌, refl, some, Option-cases, Bool-cases, true, false, inl, inr, arith,
  ltb, ◌==◌,
}
use ethereum_blockchain.Bytes.{Bytes}
use ethereum_blockchain.World.{World, get_account}
use ethereum_blockchain.Evm.{calculate_intrinsic_gas}
use ethereum_blockchain.Transaction.{Transaction, EthKeys, recover_sender}
use ethereum_blockchain.Core.Validator.{valid, check_sender, validate_transaction}

-- The conditions 2 to 5 of the Yellow Paper, for the sender.
pub record IsValid (tx : Transaction) (w : World) (limit : ℕ) (sender : Bytes) : Type 0 where
  pub nonce : (get_account sender w).nonce ≡ tx.nonce
  pub balance : tx.value + tx.gas * tx.gas_price ≤ (get_account sender w).balance
  pub block : tx.gas ≤ limit
  pub intrinsic : calculate_intrinsic_gas tx.calldata ≤ tx.gas

check_sender-IsValid :
    (tx : Transaction) (w : World) (limit : ℕ) (sender s : Bytes)
    → check_sender tx w limit sender ≡ valid s
    → (sender ≡ s) × IsValid tx w limit sender
unfolding check_sender
check_sender-IsValid tx w limit sender s e =
    let account = get_account sender w in
    elim (Bool-cases (account.nonce == tx.nonce)) [
      | inr other ↦ absurd (let bad = rw (other, check_sender) at e in cc)
      | inl same ↦ elim (Bool-cases (ltb account.balance (tx.value + tx.gas * tx.gas_price))) [
        | inl poor ↦ absurd (let bad = rw (same, poor, check_sender) at e in cc)
        | inr rich ↦ elim (Bool-cases (ltb limit tx.gas)) [
          | inl over ↦ absurd (let bad = rw (same, rich, over, check_sender) at e in cc)
          | inr within ↦ elim (Bool-cases (ltb tx.gas (calculate_intrinsic_gas tx.calldata))) [
            | inl low ↦ absurd (let bad = rw (same, rich, within, low, check_sender) at e in cc)
            | inr enough ↦
                let found = rw (same, rich, within, enough, check_sender) at e in
                (
                  cc,
                  record {
                    nonce = ground arith;
                    balance = ground arith;
                    block = ground arith;
                    intrinsic = ground arith;
                  },
                )
          ]
        ]
      ]
    ]

IsValid-check_sender :
    (tx : Transaction) (w : World) (limit : ℕ) (s : Bytes)
    → IsValid tx w limit s
    → check_sender tx w limit s ≡ valid s
unfolding check_sender
IsValid-check_sender tx w limit s h =
    let same : ((get_account s w).nonce == tx.nonce) ≡ true = let e = h.nonce in ground arith in
    let rich : ltb (get_account s w).balance (tx.value + tx.gas * tx.gas_price) ≡ false =
      let b = h.balance in ground arith in
    let within : ltb limit tx.gas ≡ false = let b = h.block in ground arith in
    let enough : ltb tx.gas (calculate_intrinsic_gas tx.calldata) ≡ false =
      let b = h.intrinsic in ground arith in
    rw (same, rich, within, enough, check_sender) refl

-- Validation returns a sender exactly if it is the one recovered from the signature, its nonce is
-- the transaction's, its balance covers the value and the price of all the gas, the gas is within
-- the block's limit and covers the intrinsic gas.
pub validate_transaction-IsValid :
    (eth : EthKeys) (tx : Transaction) (w : World) (limit : ℕ) (s : Bytes)
    → (validate_transaction eth tx w limit ≡ valid s)
      ↔ ((recover_sender eth tx ≡ some s) × IsValid tx w limit s)
unfolding validate_transaction
validate_transaction-IsValid eth tx w limit s =
    (sound, λ h. rw (h.0, validate_transaction) (IsValid-check_sender tx w limit s h.1))
  where
    sound :
        validate_transaction eth tx w limit ≡ valid s
        → (recover_sender eth tx ≡ some s) × IsValid tx w limit s
    sound e = elim (Option-cases (recover_sender eth tx)) [
      | inl unsigned ↦ absurd (let bad = rw (unsigned, validate_transaction) at e in cc)
      | inr (sender, recovered) ↦
          let (same, h) =
            check_sender-IsValid tx w limit sender s (rw (recovered, validate_transaction) at e) in
          (rw same at recovered, rw same at h)
    ]
