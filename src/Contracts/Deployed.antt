-- ===== src/Contracts/Deployed.antt =====
-- core/state_transition.py and contracts/: transactions that call one of the two contracts, from the
-- validation to the storage that is left in the world state.
use ethereum_blockchain.Prelude.{
  ℕ, ◌+◌, ◌-◌, ◌*◌, ◌≤◌, ◌≡◌, ◌≢◌, ◌∙◌, refl, true, false, some, ◌==◌, if◌then◌else◌, Bool-cases,
  Option-cases, inl, inr, arith, length,
}
use ethereum_blockchain.Prelude.Dict.{
  Dict, nat_eq, bytes_eq, beq_bytes, beq_bytes_iff, lookup, insert, lookup-insert, Distinct,
}
use ethereum_blockchain.Bytes.{Bytes}
use ethereum_blockchain.World.{World, get_account, get_storage, or_zero}
use ethereum_blockchain.Evm.{Host, Frame, ok, new_frame, calculate_intrinsic_gas}
use ethereum_blockchain.Evm.Trace.{Ends}
use ethereum_blockchain.Evm.Persist.{or_else}
use ethereum_blockchain.Evm.Completes.{Ends-Completes}
use ethereum_blockchain.Transaction.{Transaction}
use ethereum_blockchain.Core.{TransactionResult, applied, apply_valid}
use ethereum_blockchain.Core.Valid.{IsValid}
use ethereum_blockchain.Core.Payment.{Pays}
use ethereum_blockchain.Core.Start.{gas_available, call_context}
use ethereum_blockchain.Core.Call.{Fails, apply_valid-Fails, slot_after, Calls, apply_valid-Calls}

-- A storage that has every slot that `st` has.
pub record Covers (final st : Dict ℕ ℕ) : Type 0 where
  pub slot : (j : ℕ) → or_else (lookup j final) (or_zero (lookup j st)) ≡ or_zero (lookup j final)

pub Covers-refl : (st : Dict ℕ ℕ) → Covers st st
Covers-refl st = record {
  slot = λ j. elim (Option-cases (lookup j st)) [
    | inl absent ↦ rw absent refl
    | inr (v, present) ↦ rw present refl
  ];
}

pub Covers-insert : (k v : ℕ) (final st : Dict ℕ ℕ) → Covers final st → Covers (insert k v final) st
Covers-insert k v final st h = record {
  slot = λ j. elim (Bool-cases (k == j)) [
    | inl same ↦ rw (lookup-insert k j v final, same) refl
    | inr apart ↦ rw (lookup-insert k j v final, apart) (h.slot j)
  ];
}

slot_after-Covers :
    (to b : Bytes) (j : ℕ) (final : Dict ℕ ℕ) (w : World)
    → Covers final (get_account to w).storage
    → slot_after to b j final w
      ≡ (if beq_bytes to b then or_zero (lookup j final) else get_storage b j w)
unfolding get_storage
slot_after-Covers to b j final w h = elim (Bool-cases (beq_bytes to b)) [
  | inl own ↦ let is_b : to ≡ b = (beq_bytes_iff to b).0 own in rw (own, ← is_b) (h.slot j)
  | inr other ↦ rw other refl
]

-- What a call of the contract at `address` leaves: `slots` there, and every other slot as it was.
pub record Leaves (host : Host) (tx : Transaction) (w : World) (sender output : Bytes) (used : ℕ)
    (slots : ℕ → ℕ) : Type 0 where
  pub receipt : TransactionResult
  pub after : World
  pub applies : apply_valid host tx w sender ≡ applied receipt after
  pub succeeds : receipt.success ≡ true
  pub returns : receipt.return_data ≡ output
  pub costs : receipt.gas_used ≡ calculate_intrinsic_gas tx.calldata + used
  pub pays :
      Pays sender tx.to tx.value
        ((calculate_intrinsic_gas tx.calldata + used) * tx.gas_price)
        w
        after
  pub codes : (b : Bytes) → (get_account b after).code ≡ (get_account b w).code
  pub distinct :
      ((b : Bytes) → Distinct (get_account b w).storage)
      → (b : Bytes) → Distinct (get_account b after).storage
  pub contract : (j : ℕ) → get_storage tx.to j after ≡ slots j
  pub others : (b : Bytes) (j : ℕ) → b ≢ tx.to → get_storage b j after ≡ get_storage b j w

pub Calls-Leaves :
    (host : Host) (tx : Transaction) (w : World) (sender output : Bytes) (used : ℕ)
    (final : Dict ℕ ℕ) (slots : ℕ → ℕ)
    → Covers final (get_account tx.to w).storage
    → ((j : ℕ) → or_zero (lookup j final) ≡ slots j)
    → Calls host tx w sender output used final
    → Leaves host tx w sender output used slots
Calls-Leaves host tx w sender output used final slots h same c = record {
  receipt = c.receipt;
  after = c.after;
  applies = c.applies;
  succeeds = c.succeeds;
  returns = c.returns;
  costs = c.costs;
  pays = c.pays;
  codes = c.codes;
  distinct = c.distinct;
  contract = λ j.
      let own = (beq_bytes_iff tx.to tx.to).1 refl in
      c.slots tx.to j ∙ slot_after-Covers tx.to tx.to j final w h ∙ rw own (same j);
  others = λ b j apart.
      let other : beq_bytes tx.to b ≡ false = ground (arith, beq_bytes_iff tx.to b) in
      c.slots b j ∙ slot_after-Covers tx.to b j final w h ∙ rw other refl;
}

-- A run of the contract's code that ends without an exception or a revert.
pub Ends-Calls :
    (host : Host) (tx : Transaction) (w : World) (limit : ℕ) (sender code output : Bytes) (used : ℕ)
    (final : Dict ℕ ℕ)
    → IsValid tx w limit sender
    → length tx.to ≢ 0
    → (get_account tx.to w).code ≡ code
    → (length code == 0) ≡ false
    → Distinct final
    → used ≤ gas_available tx
    → ((w' : World)
        → (e' : Frame) × Ends host
            (new_frame code (call_context tx sender) (get_account tx.to w).storage (some w'))
            (ok tt, e')
          × (e'.reverted ≡ false)
          × (e'.return_data ≡ output)
          × (e'.storage ≡ final)
          × (e'.gas_remaining ≡ gas_available tx - used)
          × (e'.world_state ≡ some w'))
    → Calls host tx w sender output used final
unfolding new_frame
Ends-Calls host tx w limit sender code output used final valid call is nonempty distinct le ends =
    apply_valid-Calls host tx w limit sender valid output used final call (rw is nonempty) distinct
      le
      λ w'.
        let (e', run, kept, out, st, gas, world) = ends w' in
        rw is (
          rw (kept, out, st) at
            (Ends-Completes host (tx.gas + 2)
              (new_frame code (call_context tx sender) (get_account tx.to w).storage (some w')) e'
              used run (omega arith) le gas world))

-- A run of the contract's code that ends in a revert.
pub Ends-Fails :
    (host : Host) (tx : Transaction) (w : World) (limit : ℕ) (sender code output : Bytes) (used : ℕ)
    → IsValid tx w limit sender
    → length tx.to ≢ 0
    → (get_account tx.to w).code ≡ code
    → (length code == 0) ≡ false
    → used ≤ gas_available tx
    → ((w' : World)
        → (e' : Frame) × Ends host
            (new_frame code (call_context tx sender) (get_account tx.to w).storage (some w'))
            (ok tt, e')
          × (e'.reverted ≡ true)
          × (e'.return_data ≡ output)
          × (e'.storage ≡ (get_account tx.to w).storage)
          × (e'.gas_remaining ≡ gas_available tx - used)
          × (e'.world_state ≡ some w'))
    → Fails host tx w sender output
unfolding new_frame
Ends-Fails host tx w limit sender code output used valid call is nonempty le ends =
    apply_valid-Fails host tx w limit sender valid output used (get_account tx.to w).storage call
      (rw is nonempty)
      λ w'.
        let (e', run, fails, out, st, gas, world) = ends w' in
        rw is (
          rw (fails, out, st) at
            (Ends-Completes host (tx.gas + 2)
              (new_frame code (call_context tx sender) (get_account tx.to w).storage (some w')) e'
              used run (omega arith) le gas world))
