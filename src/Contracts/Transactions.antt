-- ===== src/Contracts/Transactions.antt =====
-- core/state_transition.py with contracts/counter.py and contracts/token.py: a transaction that increments
-- the counter, and one that moves tokens.
use ethereum_blockchain.Prelude.{
  ℕ, ◌+◌, ◌^◌, ◌%◌, ◌<◌, ◌≤◌, ◌≡◌, ◌≢◌, refl, true, false, [], some, ltb, ◌==◌, if◌then◌else◌,
  Bool-cases, inl, inr, arith, length,
}
use ethereum_blockchain.Prelude.Dict.{
  Dict, nat_eq, lookup, insert, lookup-insert, Distinct, insert-Distinct,
}
use ethereum_blockchain.Bytes.{digits, Bytes, AreBytes, from_bytes, window}
use ethereum_blockchain.World.{World, get_account, get_storage, or_zero}
use ethereum_blockchain.Evm.{Host, add, new_frame}
use ethereum_blockchain.Transaction.{Transaction}
use ethereum_blockchain.Core.Valid.{IsValid}
use ethereum_blockchain.Core.Start.{gas_available, call_context}
use ethereum_blockchain.Contracts.Defs.{counter_runtime_bytecode, token_runtime_bytecode}
use ethereum_blockchain.Contracts.Selector.{selected, selected-window}
use ethereum_blockchain.Contracts.Counter.{count_of}
use ethereum_blockchain.Contracts.CounterRefines.{counter_call, increment_call, get_count_call}
use ethereum_blockchain.Contracts.Token.{balance, moved}
use ethereum_blockchain.Contracts.Ledger.{transfer_call, token_call, pay, serve, Keeps-moved}
use ethereum_blockchain.Core.Call.{Fails}
use ethereum_blockchain.Contracts.Deployed.{
  Ends-Fails, Covers-refl, Covers-insert, Leaves, Calls-Leaves, Ends-Calls,
}
use ethereum_blockchain.Contracts.Counter
use ethereum_blockchain.Contracts.Token

is_increment :
    (calldata : Bytes)
    → counter_call calldata ≡ increment_call
    → (0xd09de08a == from_bytes (window calldata 0 4)) ≡ true
is_increment calldata h = elim (Bool-cases (0xd09de08a == from_bytes (window calldata 0 4))) [
  | inl same ↦ same
  | inr other ↦ elim (Bool-cases (0xa87d942c == from_bytes (window calldata 0 4))) [
    | inl reads ↦ absurd (let bad = rw (other, reads) at h in cc)
    | inr neither ↦ absurd (let bad = rw (other, neither) at h in cc)
  ]
]

is_get_count :
    (calldata : Bytes)
    → counter_call calldata ≡ get_count_call
    → ((0xd09de08a == from_bytes (window calldata 0 4)) ≡ false)
      × ((0xa87d942c == from_bytes (window calldata 0 4)) ≡ true)
is_get_count calldata h = elim (Bool-cases (0xd09de08a == from_bytes (window calldata 0 4))) [
  | inl increments ↦ absurd (let bad = rw increments at h in cc)
  | inr other ↦ elim (Bool-cases (0xa87d942c == from_bytes (window calldata 0 4))) [
    | inl same ↦ (other, same)
    | inr neither ↦ absurd (let bad = rw (other, neither) at h in cc)
  ]
]

is_transfer :
    (calldata : Bytes) (to amount : ℕ)
    → token_call calldata ≡ transfer_call to amount
    → ((0xa9059cbb == from_bytes (window calldata 0 4)) ≡ true)
      × (from_bytes (window calldata 4 32) ≡ to)
      × (from_bytes (window calldata 36 32) ≡ amount)
is_transfer calldata to amount h =
    elim (Bool-cases (0xa9059cbb == from_bytes (window calldata 0 4))) [
      | inl same ↦ let args = rw same at h in (same, cc, cc)
      | inr other ↦ elim (Bool-cases (0x70a08231 == from_bytes (window calldata 0 4))) [
        | inl reads ↦ absurd (let bad = rw (other, reads) at h in cc)
        | inr neither ↦ absurd (let bad = rw (other, neither) at h in cc)
      ]
    ]

-- The slots of the contract at an address.
abbrev pub slots_of : Bytes → World → ℕ → ℕ
slots_of address w k = get_storage address k w

module _ (host : Host) (tx : Transaction) (w : World) (limit : ℕ) (sender : Bytes)
    (valid : IsValid tx w limit sender) (call : length tx.to ≢ 0)
    (distinct : Distinct (get_account tx.to w).storage) (bytes : AreBytes tx.calldata) where
  abbrev st : Dict ℕ ℕ
  st = (get_account tx.to w).storage

  counted :
      (j : ℕ)
      → or_zero (lookup j (insert 0 (add 1 (count_of st)) st))
        ≡ (if 0 == j then (slots_of tx.to w 0 + 1) % 2 ^ 256 else slots_of tx.to w j)
  unfolding get_storage
  counted j =
      let swap : 1 + count_of st ≡ count_of st + 1 = omega arith in
      elim (Bool-cases (0 == j)) [
        | inl same ↦ rw (lookup-insert 0 j (add 1 (count_of st)) st, same, swap) refl
        | inr apart ↦ rw (lookup-insert 0 j (add 1 (count_of st)) st, apart) refl
      ]

  -- A valid transaction that calls increment on an account with the counter's code, with gas for
  -- it, succeeds and uses 5151 gas above the intrinsic gas: slot 0 of the account grows by one
  -- modulo 2^256, no other slot of any account changes, the transaction's value moves and the
  -- sender pays for the gas used. The account's storage has each key once, and the calldata is a
  -- byte string.
  pub increment-Leaves :
      (get_account tx.to w).code ≡ counter_runtime_bytecode
      → counter_call tx.calldata ≡ increment_call
      → 5151 ≤ gas_available tx
      → Leaves host tx w sender [] 5151
          (λ j. if 0 == j then (slots_of tx.to w 0 + 1) % 2 ^ 256 else slots_of tx.to w j)
  unfolding new_frame from_bytes
  increment-Leaves code called gas =
      let st = (get_account tx.to w).storage in
      let c = call_context tx sender in
      let final = insert 0 (add 1 (count_of st)) st in
      let same : (0xd09de08a == selected c) ≡ true =
        rw (selected-window c bytes) (is_increment tx.calldata called) in
      Calls-Leaves host tx w sender [] 5151 final _ (Covers-insert 0 _ st st (Covers-refl st))
        counted
        (Ends-Calls host tx w limit sender counter_runtime_bytecode [] 5151 final valid call code
          refl (insert-Distinct 0 _ st distinct) gas
          λ w'. (
            _,
            Counter.increment-Ends host c (some w') st (gas_available tx) same gas,
            refl,
            refl,
            refl,
            refl,
            refl,
          ))

  -- A valid transaction that calls transfer on an account with the token's code, with gas for it
  -- and an amount that the sender's slot covers, succeeds and uses 10301 gas above the intrinsic
  -- gas: the amount is taken from the sender's slot of the account and added, modulo 2^256, to the
  -- recipient's, its other slots stay as they were, no slot of another account changes, the
  -- transaction's value moves and the sender pays for the gas used. The account's storage has each
  -- key once and words below 2^256, and the calldata is a byte string.
  pub transfer-Leaves :
      (to amount : ℕ)
      → (get_account tx.to w).code ≡ token_runtime_bytecode
      → token_call tx.calldata ≡ transfer_call to amount
      → amount ≤ slots_of tx.to w (from_bytes sender)
      → ((who : ℕ) → slots_of tx.to w who < 2 ^ 256)
      → 10301 ≤ gas_available tx
      → Leaves host tx w sender [] 10301 (pay (from_bytes sender) to amount (slots_of tx.to w))
  unfolding new_frame from_bytes get_storage
  transfer-Leaves to amount code called covered words gas =
      let st = (get_account tx.to w).storage in
      let c = call_context tx sender in
      let from = from_bytes sender in
      let (first, to_arg, amount_arg) = is_transfer tx.calldata to amount called in
      let same : (0xa9059cbb == selected c) ≡ true = rw (selected-window c bytes) first in
      let enough : ltb (balance st from) amount ≡ false = ground arith in
      let paid =
        Keeps-moved st (balance st) from to amount enough
          (record { same = λ k. refl; words = words }) in
      Calls-Leaves host tx w sender [] 10301 (moved from to amount st) _
        (Covers-insert to _ _ st (Covers-insert from _ st st (Covers-refl st))) paid.same
        (Ends-Calls host tx w limit sender token_runtime_bytecode [] 10301 (moved from to amount st)
          valid call code refl (insert-Distinct to _ _ (insert-Distinct from _ st distinct)) gas
          λ w'. (
            _,
            Token.transfer-Ends host c (some w') st (gas_available tx) same (rw amount_arg enough)
                gas,
            refl,
            refl,
            rw (to_arg, amount_arg) refl,
            refl,
            refl,
          ))

module _ (host : Host) (tx : Transaction) (w : World) (limit : ℕ) (sender : Bytes)
    (valid : IsValid tx w limit sender) (call : length tx.to ≢ 0)
    (distinct : Distinct (get_account tx.to w).storage) (bytes : AreBytes tx.calldata) where
  pub get_count-Leaves :
      (get_account tx.to w).code ≡ counter_runtime_bytecode
      → counter_call tx.calldata ≡ get_count_call
      → 176 ≤ gas_available tx
      → slots_of tx.to w 0 < 2 ^ 256
      → 32 ≤ host.memory_limit
      → Leaves host tx w sender (digits 32 (slots_of tx.to w 0)) 176 (slots_of tx.to w)
  unfolding new_frame from_bytes get_storage
  get_count-Leaves code called gas word fits =
      let st = (get_account tx.to w).storage in
      let c = call_context tx sender in
      let seen = selected-window c bytes in
      let (other, same) = is_get_count tx.calldata called in
      Calls-Leaves host tx w sender (digits 32 (count_of st)) 176 st (λ j. or_zero (lookup j st))
        (Covers-refl st) (λ j. refl)
        (Ends-Calls host tx w limit sender counter_runtime_bytecode (digits 32 (count_of st)) 176 st
          valid call code refl distinct gas
          λ w'. (
            _,
            Counter.get_count-Ends host c (some w') st (gas_available tx) (rw seen other)
                (rw seen same) gas word fits,
            refl,
            refl,
            refl,
            refl,
            refl,
          ))

module _ (host : Host) (tx : Transaction) (w : World) (limit : ℕ) (sender : Bytes)
    (valid : IsValid tx w limit sender) (call : length tx.to ≢ 0)
    (bytes : AreBytes tx.calldata) where
  -- A valid transaction to an account with the token's code, with at least 185 gas above the
  -- intrinsic gas, whose call the ledger in the account's slots refuses (a transfer that the
  -- sender's slot does not cover, or an unknown selector) fails without output and with the error
  -- of a failed execution; all its gas is used, and the state is as it was but for the sender's
  -- nonce, one higher, and balance, lower by the price of the gas. The calldata is a byte string.
  pub refused-Fails :
      (get_account tx.to w).code ≡ token_runtime_bytecode
      → (serve (from_bytes sender) (token_call tx.calldata) (slots_of tx.to w)).0.success ≡ false
      → 185 ≤ gas_available tx
      → Fails host tx w sender []
  unfolding new_frame from_bytes get_storage
  refused-Fails code refused gas =
      let st = (get_account tx.to w).storage in
      let c = call_context tx sender in
      let from = from_bytes sender in
      let seen = selected-window c bytes in
      elim (Bool-cases (0xa9059cbb == selected c)) [
        | inl same ↦
            let refused' = rw (← seen, same) at refused in
            let short : ltb (balance st from) (from_bytes (window tx.calldata 36 32)) ≡ true =
              ground arith in
            Ends-Fails host tx w limit sender token_runtime_bytecode [] 185 valid call code refl gas
              λ w'. (
                _,
                Token.uncovered-Ends host c (some w') st (gas_available tx) same short gas,
                refl,
                refl,
                refl,
                refl,
                refl,
              )
        | inr other ↦ elim (Bool-cases (0x70a08231 == selected c)) [
          | inl reads ↦ absurd (let bad = rw (← seen, other, reads) at refused in cc)
          | inr other' ↦
              let enough : 66 ≤ gas_available tx = omega (arith, gas) in
              Ends-Fails host tx w limit sender token_runtime_bytecode [] 66 valid call code refl
                enough
                λ w'. (
                  _,
                  Token.other-Ends host c (some w') st (gas_available tx) other other' enough,
                  refl,
                  refl,
                  refl,
                  refl,
                  refl,
                )
        ]
      ]
