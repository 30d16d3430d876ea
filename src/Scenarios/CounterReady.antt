-- ===== src/Scenarios/CounterReady.antt =====
-- scenarios/02_counter.py: what each of its transactions relies on.
use ethereum_blockchain.Prelude.{
  ℕ, ◌+◌, ◌*◌, ◌≤◌, ◌≡◌, refl, Bool, true, false, if◌then◌else◌, Bool-cases, inl, inr, arith,
}
use ethereum_blockchain.Prelude.Dict.{
  nat_eq, bytes_eq, beq_bytes, beq_bytes_iff, insert, lookup, Distinct,
}
use ethereum_blockchain.Bytes.{Bytes}
use ethereum_blockchain.World.{World, create_genesis_state, get_account, get_storage, set_account}
use ethereum_blockchain.Evm.{Host, calculate_intrinsic_gas}
use ethereum_blockchain.Transaction.{Transaction, EthKeys, sign_transaction}
use ethereum_blockchain.Transaction.Recovery.{Recovers, recover_sender-sign_transaction}
use ethereum_blockchain.Core.{TransactionResult, applied, apply_transaction, apply_valid}
use ethereum_blockchain.Core.Valid.{IsValid, validate_transaction-IsValid}
use ethereum_blockchain.Core.Payment.{Pays}
use ethereum_blockchain.Scenarios.Transfer.{block_gas_limit, one_eth}
use ethereum_blockchain.Scenarios.Counter.{CounterEnding, transaction, checked, submit, genesis}

-- The sender after `n` transactions, in a state whose storages are dictionaries.
pub record Ready (d : Bytes) (n : ℕ) (w : World) : Type 0 where
  pub nonce : (get_account d w).nonce ≡ n
  pub funds : one_eth ≤ (get_account d w).balance + n * 100_000
  pub distinct : (b : Bytes) → Distinct (get_account b w).storage

nothing : (b : Bool) → ◌≡◌ {A = ℕ} (if b then 0 else 0) 0
nothing true = refl
nothing false = refl

pub Ready-Pays :
    (d to : Bytes) (n fee : ℕ) (w w' : World)
    → fee ≤ 100_000
    → Pays d to 0 fee w w'
    → ((b : Bytes) → Distinct (get_account b w').storage)
    → Ready d n w
    → Ready d (n + 1) w'
Ready-Pays d to n fee w w' le p distinct h =
    let self = (beq_bytes_iff d d).1 refl in
    let nonce = rw self at (p.nonces d) in
    let paid = rw self at (p.balances d) in
    let gained = nothing (beq_bytes to d) in
    record {
      nonce = omega (arith, nonce, h.nonce);
      funds = omega (arith, paid, gained, h.funds, le);
      distinct = distinct;
    }

module _ (host : Host) (eth : EthKeys) (law : Recovers eth) (key : eth.PrivateKey) where
  abbrev deployer : Bytes
  deployer = eth.address_of key

  abbrev signed : Transaction → Transaction
  signed tx = sign_transaction eth tx key

  pub Ready-IsValid :
      (n : ℕ) (to calldata : Bytes) (w : World)
      → n ≤ 2
      → calculate_intrinsic_gas calldata ≤ 100_000
      → Ready deployer n w
      → IsValid (signed (transaction n 100_000 to calldata)) w block_gas_limit deployer
  unfolding sign_transaction
  Ready-IsValid n to calldata w le intrinsic h = record {
    nonce = h.nonce;
    balance = omega (arith, h.funds, le);
    block = omega arith;
    intrinsic = intrinsic;
  }

  pub submit-applied :
      (now : ℕ) (tx : Transaction) (w w' : World) (r : TransactionResult)
      (next : TransactionResult → World → CounterEnding)
      → IsValid (signed tx) w block_gas_limit deployer
      → apply_valid host (signed tx) w deployer ≡ applied r w'
      → r.success ≡ true
      → submit host eth key now tx w next ≡ next r w'
  unfolding submit checked apply_transaction
  submit-applied now tx w w' r next is e succeeded =
      let recovered = recover_sender-sign_transaction eth law tx key in
      let validated =
        (validate_transaction-IsValid eth (signed tx) w block_gas_limit deployer).1
          (recovered, is) in
      rw (validated, apply_transaction, e, checked, succeeded) refl

pub genesis-Ready :
    (host : Host) (eth : EthKeys) (key : eth.PrivateKey) (now : ℕ)
    → Ready (eth.address_of key) 0 (genesis host eth key now)
unfolding genesis create_genesis_state get_account set_account insert lookup Distinct
genesis-Ready host eth key now =
    let self = (beq_bytes_iff (eth.address_of key) (eth.address_of key)).1 refl in
    record {
      nonce = rw self refl;
      funds = rw self (omega arith);
      distinct = λ b. elim (Bool-cases (beq_bytes (eth.address_of key) b)) [
        | inl e ↦ rw e tt
        | inr e ↦ rw e tt
      ];
    }

-- No slot of the genesis state is set.
pub genesis-slots :
    (host : Host) (eth : EthKeys) (key : eth.PrivateKey) (now : ℕ) (b : Bytes) (j : ℕ)
    → get_storage b j (genesis host eth key now) ≡ 0
unfolding genesis create_genesis_state get_storage get_account set_account insert lookup
genesis-slots host eth key now b j = elim (Bool-cases (beq_bytes (eth.address_of key) b)) [
  | inl e ↦ rw e refl
  | inr e ↦ rw e refl
]
