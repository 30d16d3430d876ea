-- ===== src/Scenarios/Counter.antt =====
-- scenarios/02_counter.py, `main`, less what it prints. The key and the time are arguments.
use ethereum_blockchain.Prelude.{ℕ, [], ◌∷◌, none, some, not, take, ◌==◌, if◌then◌else◌}
use ethereum_blockchain.Prelude.Dict.{beq_bytes}
use ethereum_blockchain.Bytes.{Bytes, from_bytes}
use ethereum_blockchain.World.{World, create_genesis_state, get_account, state_root_placeholder}
use ethereum_blockchain.Evm.{Host, compute_contract_address}
use ethereum_blockchain.Transaction.{Transaction, EthKeys, sign_transaction}
use ethereum_blockchain.Core.{
  TransactionResult, Application, rejected, crashed, applied, apply_transaction,
}
use ethereum_blockchain.Chain.{Block, create_genesis_block, create_block}
use ethereum_blockchain.Contracts.{counter_runtime_bytecode, encode_increment, encode_get_count}
use ethereum_blockchain.Contracts.Init.{build_init_code}
use ethereum_blockchain.Scenarios.Transfer.{gas_price_unit, block_gas_limit, one_eth}

abbrev pub gas_limit_deploy : ℕ
gas_limit_deploy = 100_000

abbrev pub gas_limit_call : ℕ
gas_limit_call = 100_000

-- How the script ends: with an exception of the library, a RuntimeError, an assertion that fails, or its end,
-- with the count that it read, the state and the block.
pub data CounterEnding : Type 0 where
  exception runtime_error assertion_failed : CounterEnding
  finished : ℕ → World → Block → CounterEnding

-- The transactions of the script, which differ in these four.
abbrev pub transaction : ℕ → ℕ → Bytes → Bytes → Transaction
transaction nonce gas to calldata = record {
  nonce = nonce;
  gas_price = gas_price_unit;
  gas = gas;
  to = to;
  value = 0;
  calldata = calldata;
  v = 0;
  r = 0;
  s = 0;
}

-- `apply_transaction` and the check after it.
unfoldable pub checked : Application → (TransactionResult → World → CounterEnding) → CounterEnding
checked (rejected e) next = exception
checked crashed next = exception
checked (applied result w) next = if not result.success then runtime_error else next result w

module _ (host : Host) (eth : EthKeys) (deployer_priv : eth.PrivateKey) (now : ℕ) where
  abbrev pub deployer_addr : Bytes
  deployer_addr = eth.address_of deployer_priv

  abbrev pub signed : Transaction → Transaction
  signed tx = sign_transaction eth tx deployer_priv

  unfoldable pub submit :
      Transaction → World → (TransactionResult → World → CounterEnding) → CounterEnding
  unfolding checked
  submit tx w next = checked (apply_transaction host eth (signed tx) w block_gas_limit) next

  unfoldable pub genesis : World
  genesis = create_genesis_state ((deployer_addr, one_eth) ∷ [])

  abbrev pub contract_addr : Bytes
  contract_addr = compute_contract_address host.keccak256 deployer_addr 0

  abbrev pub deploy_tx : Bytes → Transaction
  deploy_tx init_code = transaction 0 gas_limit_deploy [] init_code

  abbrev pub increment_tx : Transaction
  increment_tx = transaction 1 gas_limit_call contract_addr (encode_increment host.keccak256)

  abbrev pub get_count_tx : Transaction
  get_count_tx = transaction 2 gas_limit_call contract_addr (encode_get_count host.keccak256)

  -- After the third transaction.
  unfoldable pub count_and_block : Bytes → TransactionResult → World → CounterEnding
  count_and_block init_code result w =
      let count = from_bytes (take 32 result.return_data) in
      let genesis_block =
        create_genesis_block eth.keccak256 (state_root_placeholder eth.keccak256 genesis) 0 in
      let transactions =
        signed (deploy_tx init_code) ∷ signed increment_tx ∷ signed get_count_tx ∷ [] in
      let block1 =
        create_block eth.keccak256 genesis_block transactions
          (state_root_placeholder eth.keccak256 w) now in
      if not (count == 1) then assertion_failed else finished count w block1

  -- After the deployment.
  unfoldable pub use_contract : Bytes → TransactionResult → World → CounterEnding
  unfolding submit count_and_block
  use_contract init_code result w =
      if not (beq_bytes (get_account contract_addr w).code counter_runtime_bytecode)
      then assertion_failed
      else submit increment_tx w λ _ w'. submit get_count_tx w' (count_and_block init_code)

  -- `main`
  unfoldable pub counter_scenario : CounterEnding
  unfolding submit use_contract
  counter_scenario = elim (build_init_code counter_runtime_bytecode) [
    | none ↦ exception
    | some init_code ↦ submit (deploy_tx init_code) genesis (use_contract init_code)
  ]
