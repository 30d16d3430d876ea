-- ===== src/Scenarios/Transfer.antt =====
-- scenarios/01_eth_transfer.py, `main`, less what it prints. The two keys and the time are arguments.
use ethereum_blockchain.Prelude.{ℕ, ◌-◌, ◌*◌, ◌/◌, ◌^◌, [], ◌∷◌, not, ltb, ◌==◌, if◌then◌else◌}
use ethereum_blockchain.Prelude.Dict.{bytes_eq, insert}
use ethereum_blockchain.Bytes.{Bytes}
use ethereum_blockchain.World.{World, create_genesis_state, get_balance, state_root_placeholder}
use ethereum_blockchain.Evm.{Host}
use ethereum_blockchain.Transaction.{Transaction, EthKeys, sign_transaction}
use ethereum_blockchain.Core.{Application, rejected, crashed, applied, apply_transaction}
use ethereum_blockchain.Chain.{Block, create_genesis_block, create_block}

abbrev pub gas_price_unit : ℕ
gas_price_unit = 1

abbrev pub gas_limit : ℕ
gas_limit = 21_000

abbrev pub block_gas_limit : ℕ
block_gas_limit = 1_000_000

abbrev pub one_eth : ℕ
one_eth = 10 ^ 18

abbrev pub transfer_value : ℕ
transfer_value = one_eth / 10

-- How the script ends: with an exception of `apply_transaction`, the RuntimeError, the first of the three
-- assertions that fails, or its end, with what it has made.
pub data Ending : Type 0 where
  exception runtime_error : Ending
  assertion_failed : ℕ → Ending
  finished : World → Block → Block → Ending

unfoldable pub unsigned_tx : Bytes → Transaction
unsigned_tx recipient_addr = record {
  nonce = 0;
  gas_price = gas_price_unit;
  gas = gas_limit;
  to = recipient_addr;
  value = transfer_value;
  calldata = [];
  v = 0;
  r = 0;
  s = 0;
}

unfoldable pub genesis_state : Bytes → Bytes → World
genesis_state sender_addr recipient_addr =
    create_genesis_state (insert recipient_addr 0 (insert sender_addr one_eth []))

-- Step 7.
unfoldable pub verify_balances : ℕ → ℕ → ℕ → Ending → Ending
verify_balances sender_initial_balance sender_post_balance recipient_post_balance end =
    let expected_gas_cost = gas_limit * gas_price_unit in
    let expected_sender_balance = one_eth - transfer_value - expected_gas_cost in
    let expected_recipient_balance = transfer_value in
    if not (sender_post_balance == expected_sender_balance)
    then assertion_failed 1
    else if not (recipient_post_balance == expected_recipient_balance)
    then assertion_failed 2
    else if not (ltb sender_post_balance sender_initial_balance)
    then assertion_failed 3
    else end

module _ (host : Host) (eth : EthKeys) (sender_addr recipient_addr : Bytes) (genesis_block : Block)
    (signed_tx : Transaction) (now : ℕ) where
  -- Steps 6 and 7, after `apply_transaction` on the genesis state `w`.
  unfoldable pub after_transaction : World → Application → Ending
  after_transaction w (rejected e) = exception
  after_transaction w crashed = exception
  after_transaction w (applied result w') =
      if not result.success
      then runtime_error
      else let block1_state_root = state_root_placeholder eth.keccak256 w' in
        let block1 =
          create_block eth.keccak256 genesis_block (signed_tx ∷ []) block1_state_root now in
        verify_balances (get_balance sender_addr w) (get_balance sender_addr w')
          (get_balance recipient_addr w') (finished w' genesis_block block1)

-- `main`
unfoldable pub eth_transfer : Host → (eth : EthKeys) → eth.PrivateKey → eth.PrivateKey → ℕ → Ending
eth_transfer host eth sender_private_key recipient_private_key now =
    let sender_addr = eth.address_of sender_private_key in
    let recipient_addr = eth.address_of recipient_private_key in
    let world_state = genesis_state sender_addr recipient_addr in
    let genesis_block =
      create_genesis_block eth.keccak256 (state_root_placeholder eth.keccak256 world_state) 0 in
    let signed_tx = sign_transaction eth (unsigned_tx recipient_addr) sender_private_key in
    after_transaction host eth sender_addr recipient_addr genesis_block signed_tx now world_state
      (apply_transaction host eth signed_tx world_state block_gas_limit)
