-- ===== src/Scenarios/Tests.antt =====
-- scenarios/01_eth_transfer.py and scenarios/02_counter.py with a small signature scheme.
use ethereum_blockchain.Prelude.{
  [], ◌++◌, ◌-◌, ◌*◌, ◌≡◌, refl, ◌∷◌, replicate, length, if◌then◌else◌, Bool-cases, inl, inr, arith,
}
use ethereum_blockchain.World.{World, get_balance, get_storage, get_account, state_root_placeholder}
use ethereum_blockchain.Evm.{Host}
use ethereum_blockchain.Transaction.Tests.{toy_keys, toy_keys-Recovers}
use ethereum_blockchain.Chain.{Block, block_hash}
use ethereum_blockchain.Scenarios.Transfer.{
  gas_price_unit, gas_limit, one_eth, transfer_value, eth_transfer,
}
use ethereum_blockchain.Scenarios.Transfer
use ethereum_blockchain.Scenarios.Counter.{
  finished, contract_addr, signed, deploy_tx, increment_tx, get_count_tx, counter_scenario,
}
use ethereum_blockchain.Contracts.Init.{header}
use ethereum_blockchain.Scenarios.CounterEnds.{counter_scenario-finished}
use ethereum_blockchain.Contracts.{increment_signature, counter_runtime_bytecode}
use ethereum_blockchain.Prelude.Dict.{beq_bytes}
use ethereum_blockchain.Bytes.{Bytes}
use ethereum_blockchain.Scenarios.TransferEnds.{eth_transfer-finished}

abbrev host : Host
host = record { keccak256 = λ bs. bs; memory_limit = 1_000_000 }

eth_transfer-finished_example :
    (w' : World) × (genesis : Block) × (block : Block) × (eth_transfer host toy_keys 1 2 77
      ≡ Transfer.finished w' genesis block)
    × (get_balance (toy_keys.address_of 1) w'
        ≡ one_eth - transfer_value - gas_limit * gas_price_unit)
    × (get_balance (toy_keys.address_of 2) w' ≡ transfer_value)
    × ((get_account (toy_keys.address_of 1) w').nonce ≡ 1)
    × (block.header.parent_hash ≡ block_hash toy_keys.keccak256 genesis)
    × (block.header.number ≡ 1)
    × (block.header.state_root ≡ state_root_placeholder toy_keys.keccak256 w')
eth_transfer-finished_example =
    eth_transfer-finished host toy_keys toy_keys-Recovers 1 2 77 (λ e. cc) (λ e. cc)

-- A hash of 32 bytes that knows the two selectors of the counter.
abbrev counter_hash : Bytes → Bytes
counter_hash bs =
    if beq_bytes bs increment_signature
    then 0xd0 ∷ 0x9d ∷ 0xe0 ∷ 0x8a ∷ replicate 28 0
    else 0xa8 ∷ 0x7d ∷ 0x94 ∷ 0x2c ∷ replicate 28 0

counter_hash_size : (bs : Bytes) → length (counter_hash bs) ≡ 32
counter_hash_size bs = elim (Bool-cases (beq_bytes bs increment_signature)) [
  | inl e ↦ rw e refl
  | inr e ↦ rw e refl
]

abbrev counter_host : Host
counter_host = record { keccak256 = counter_hash; memory_limit = 1_000_000 }

counter_scenario-finished_example :
    (w' : World) × (block : Block) × (counter_scenario counter_host toy_keys 1 77
      ≡ finished 1 w' block)
    × (get_storage (contract_addr counter_host toy_keys 1 77) 0 w' ≡ 1)
    × ((get_account (toy_keys.address_of 1) w').nonce ≡ 3)
    × (block.header.number ≡ 1)
    × (block.header.state_root ≡ state_root_placeholder toy_keys.keccak256 w')
    × (block.transactions
        ≡ signed counter_host toy_keys 1 77
            (deploy_tx counter_host toy_keys 1 77 (header 88 ++ counter_runtime_bytecode))
          ∷ signed counter_host toy_keys 1 77 (increment_tx counter_host toy_keys 1 77)
          ∷ signed counter_host toy_keys 1 77 (get_count_tx counter_host toy_keys 1 77)
          ∷ [])
counter_scenario-finished_example =
    counter_scenario-finished counter_host toy_keys toy_keys-Recovers 1 77 counter_hash_size refl
      refl (omega arith)
