-- ===== src/Core/Install.antt =====
-- core/state_transition.py: what each change of the world state in `_execute_create` leaves as it was.
use ethereum_blockchain.Prelude.{ℕ, ◌≡◌, ◌∙◌, arith, if◌then◌else◌}
use ethereum_blockchain.Prelude.Dict.{Dict, beq_bytes, beq_bytes_iff, nat_eq, bytes_eq, Distinct}
use ethereum_blockchain.Bytes.{Bytes}
use ethereum_blockchain.World.{
  World, get_account, get_storage, add_balance, credit, with_code, set_code,
}
use ethereum_blockchain.World.Lookup.{get_account-modify_account}
use ethereum_blockchain.Evm.{persist}
use ethereum_blockchain.Evm.Persist.{persist-Distinct, persist_keeps, get_storage-persist}
use ethereum_blockchain.Core.Start.{get_storage_congr}
use ethereum_blockchain.Core.Call.{slot_after}

-- A credit of nothing, which puts the account there.
pub record Same (w w' : World) : Type 0 where
  pub balances : (b : Bytes) → (get_account b w').balance ≡ (get_account b w).balance
  pub nonces : (b : Bytes) → (get_account b w').nonce ≡ (get_account b w).nonce
  pub storages : (b : Bytes) → (get_account b w').storage ≡ (get_account b w).storage
  pub codes : (b : Bytes) → (get_account b w').code ≡ (get_account b w).code

pub credit_nothing : (a : Bytes) (w : World) → Same w (add_balance a 0 w)
unfolding add_balance
credit_nothing a w = record {
  balances = λ b. ground (arith, get_account-modify_account a b (credit 0) w, beq_bytes_iff a b);
  nonces = λ b. ground (arith, get_account-modify_account a b (credit 0) w, beq_bytes_iff a b);
  storages = λ b. ground (arith, get_account-modify_account a b (credit 0) w, beq_bytes_iff a b);
  codes = λ b. ground (arith, get_account-modify_account a b (credit 0) w, beq_bytes_iff a b);
}

-- What the code and the storage of the new contract leave.
module _ (a : Bytes) (code : Bytes) (final : Dict ℕ ℕ) (w : World) where
  unfoldable pub installed : World
  installed = persist a final (set_code a code w)

  coded :
      (b : Bytes)
      → ((get_account b (set_code a code w)).balance ≡ (get_account b w).balance)
        × ((get_account b (set_code a code w)).nonce ≡ (get_account b w).nonce)
        × ((get_account b (set_code a code w)).storage ≡ (get_account b w).storage)
        × ((get_account b (set_code a code w)).code
            ≡ (if beq_bytes a b then code else (get_account b w).code))
  unfolding set_code
  coded b =
      let here = get_account-modify_account a b (with_code code) w in
      (
        ground (arith, here, beq_bytes_iff a b),
        ground (arith, here, beq_bytes_iff a b),
        ground (arith, here, beq_bytes_iff a b),
        ground (arith, here, beq_bytes_iff a b),
      )

  pub installed_account :
      (b : Bytes)
      → ((get_account b installed).balance ≡ (get_account b w).balance)
        × ((get_account b installed).nonce ≡ (get_account b w).nonce)
        × ((get_account b installed).code
            ≡ (if beq_bytes a b then code else (get_account b w).code))
  unfolding installed
  installed_account b =
      let (balance, nonce, storage, is) = coded b in
      let (balance', nonce', is') = persist_keeps a b final (set_code a code w) in
      (balance' ∙ balance, nonce' ∙ nonce, is' ∙ is)

  pub installed_slots :
      (b : Bytes) (j : ℕ) → Distinct final → get_storage b j installed ≡ slot_after a b j final w
  unfolding installed
  installed_slots b j distinct =
      rw (← get_storage_congr b j w (set_code a code w) ((coded b).2))
        (get_storage-persist a b j final (set_code a code w) distinct)

  pub installed-Distinct :
      (b : Bytes)
      → ((c : Bytes) → Distinct (get_account c w).storage)
      → Distinct (get_account b installed).storage
  unfolding installed
  installed-Distinct b h =
      persist-Distinct a b final (set_code a code w) λ c. rw ((coded c).2) (h c)
