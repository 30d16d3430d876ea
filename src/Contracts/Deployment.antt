-- ===== src/Contracts/Deployment.antt =====
-- scenarios/02_counter.py and scenarios/03_token.py, the deployment: the init code in a transaction.
use ethereum_blockchain.Prelude.{
  ℕ, ◌+◌, ◌<◌, ◌≤◌, ◌≡◌, refl, true, false, [], ◌++◌, some, ltb, ◌==◌, Bool-cases, inl, inr, arith,
  length,
}
use ethereum_blockchain.Prelude.Dict.{Distinct}
use ethereum_blockchain.Bytes.{Bytes}
use ethereum_blockchain.Memory
use ethereum_blockchain.World.{World}
use ethereum_blockchain.Evm.{Host, new_frame, execute}
use ethereum_blockchain.Evm.Completes.{Completes, Ends-Completes}
use ethereum_blockchain.Transaction.{Transaction}
use ethereum_blockchain.Core.Valid.{IsValid}
use ethereum_blockchain.Core.Start.{gas_available}
use ethereum_blockchain.Core.Create.{create_context, create_frame, Creates, apply_valid-Creates}
use ethereum_blockchain.Contracts.Init.{header, build_init_code, init_code-Ends}

built :
    (runtime code : Bytes)
    → build_init_code runtime ≡ some code
    → code ≡ header (length runtime) ++ runtime
unfolding build_init_code
built runtime code h = elim (Bool-cases (ltb 255 (length runtime))) [
  | inl long ↦ absurd (let bad = rw long at h in cc)
  | inr short ↦ let made = rw short at h in cc
]

init-Completes :
    (host : Host) (tx : Transaction) (sender runtime : Bytes) (w' : World)
    → tx.calldata ≡ header (length runtime) ++ runtime
    → (length runtime == 0) ≡ false
    → Memory.round_up (length runtime) ≤ host.memory_limit
    → 18 ≤ gas_available tx
    → Completes
        (create_frame host tx sender w')
        true
        runtime
        18
        []
        (execute host (tx.gas + 2) (create_frame host tx sender w'))
unfolding new_frame
init-Completes host tx sender runtime w' is nonempty fits gas =
    let c = create_context host tx sender in
    let (m, run) =
      init_code-Ends host c (some w') runtime tx.calldata (gas_available tx) is nonempty fits gas in
    Ends-Completes host (tx.gas + 2) (create_frame host tx sender w') _ 18 run (omega arith) gas
      refl refl

-- A valid transaction to no address whose calldata is build_init_code of a runtime code that is
-- not empty, with gas for it and a host that can allocate the code, succeeds, reports the address
-- derived from the sender and the nonce, and leaves exactly that runtime code there; it uses 18
-- gas above the intrinsic gas, no other code and no slot changes, the value moves to the new
-- address and the sender pays for the gas used.
pub deploy-Creates :
    (host : Host) (tx : Transaction) (w : World) (limit : ℕ) (sender runtime : Bytes)
    → IsValid tx w limit sender
    → length tx.to ≡ 0
    → build_init_code runtime ≡ some tx.calldata
    → 0 < length runtime
    → Memory.round_up (length runtime) ≤ host.memory_limit
    → 18 ≤ gas_available tx
    → Creates host tx w sender runtime 18 []
unfolding Distinct
deploy-Creates host tx w limit sender runtime valid create made nonempty fits gas =
    let some_length : (length runtime == 0) ≡ false = ground arith in
    apply_valid-Creates host tx w limit sender valid runtime 18 [] create tt gas λ w'.
      init-Completes host tx sender runtime w' (built runtime tx.calldata made) some_length fits gas
