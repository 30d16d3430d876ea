-- ===== src/Core/Tests.antt =====
-- core/state_transition.py on a payment of five wei.
use ethereum_blockchain.Prelude.{◌+◌, ◌*◌, ◌≡◌, true, ◌↔◌, refl, [], ◌∷◌, some, length}
use ethereum_blockchain.Prelude.Dict.{lookup, insert}
use ethereum_blockchain.Bytes.{Bytes}
use ethereum_blockchain.World.{World, get_account, create_genesis_state, set_account}
use ethereum_blockchain.Evm.{Host, calculate_intrinsic_gas}
use ethereum_blockchain.Evm.Intrinsic.{zeros, calculate_intrinsic_gas-zeros}
use ethereum_blockchain.Transaction.{
  Transaction, sign_transaction, signing_hash, is_signed, recover_sender,
}
use ethereum_blockchain.Transaction.Tests.{toy_keys, payment}
use ethereum_blockchain.Core.Validator.{valid, check_sender, validate_transaction}
use ethereum_blockchain.Core.Apply.{TransactionResult, applied, apply_valid, apply_transaction}
use ethereum_blockchain.Core.Payment.{Pays, apply_valid-Pays}
use ethereum_blockchain.Core.Valid.{IsValid, validate_transaction-IsValid}
use ethereum_blockchain.Core.Settle.{IsSettled, apply_transaction-IsSettled}

abbrev host : Host
host = record { keccak256 = λ bs. bs; memory_limit = 1_000_000 }

abbrev start : World
start = create_genesis_state ((1 ∷ [], 100_000) ∷ (2 ∷ [], 7) ∷ [])

abbrev signed : Transaction
signed = sign_transaction toy_keys payment 1

signed_is_valid : validate_transaction toy_keys signed start 1_000_000 ≡ valid (1 ∷ [])
unfolding validate_transaction check_sender recover_sender is_signed sign_transaction signing_hash
    get_account create_genesis_state set_account lookup insert calculate_intrinsic_gas
signed_is_valid = refl

apply_transaction-IsSettled_example :
    IsSettled signed start (1 ∷ []) (apply_transaction host toy_keys signed start 1_000_000)
apply_transaction-IsSettled_example =
    apply_transaction-IsSettled host signed start (1 ∷ []) toy_keys 1_000_000 signed_is_valid

validate_transaction-IsValid_example :
    (validate_transaction toy_keys signed start 1_000_000 ≡ valid (1 ∷ []))
    ↔ ((recover_sender toy_keys signed ≡ some (1 ∷ [])) × IsValid signed start 1_000_000 (1 ∷ []))
validate_transaction-IsValid_example =
    validate_transaction-IsValid toy_keys signed start 1_000_000 (1 ∷ [])

abbrev sample : Bytes
sample = 0 ∷ 5 ∷ []

calculate_intrinsic_gas-zeros_example :
    calculate_intrinsic_gas sample + 12 * zeros sample ≡ 21000 + 16 * length sample
calculate_intrinsic_gas-zeros_example = calculate_intrinsic_gas-zeros sample

no_code_there : length (get_account signed.to start).code ≡ 0
unfolding sign_transaction get_account create_genesis_state set_account lookup insert
no_code_there = refl

signed-IsValid : IsValid signed start 1_000_000 (1 ∷ [])
signed-IsValid = (validate_transaction-IsValid_example.0 signed_is_valid).1

apply_valid-Pays_example :
    (r : TransactionResult) × (w' : World) × (apply_valid host signed start (1 ∷ []) ≡ applied r w')
    × (r.success ≡ true)
    × (r.gas_used ≡ calculate_intrinsic_gas signed.calldata)
    × Pays
        (1 ∷ [])
        signed.to
        signed.value
        (calculate_intrinsic_gas signed.calldata * signed.gas_price)
        start
        w'
unfolding sign_transaction
apply_valid-Pays_example =
    apply_valid-Pays host signed start 1_000_000 (1 ∷ []) signed-IsValid (λ e. cc) no_code_there
