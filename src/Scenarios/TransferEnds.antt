-- ===== src/Scenarios/TransferEnds.antt =====
-- scenarios/01_eth_transfer.py: how the script ends.
use ethereum_blockchain.Prelude.{ℕ, ◌-◌, ◌*◌, ◌≡◌, ◌≢◌, refl, [], ◌∷◌, true, false, arith, length}
use ethereum_blockchain.Prelude.Dict.{bytes_eq, beq_bytes, beq_bytes_iff, insert, lookup}
use ethereum_blockchain.Bytes.{Bytes}
use ethereum_blockchain.World.{
  World, Account, create_genesis_state, get_balance, get_account, set_account,
  state_root_placeholder,
}
use ethereum_blockchain.Evm.{Host, calculate_intrinsic_gas, calldata_gas}
use ethereum_blockchain.Transaction.{Transaction, EthKeys, sign_transaction}
use ethereum_blockchain.Transaction.Recovery.{Recovers, recover_sender-sign_transaction}
use ethereum_blockchain.Core.{TransactionResult, applied, apply_transaction, apply_valid}
use ethereum_blockchain.Core.Valid.{IsValid, validate_transaction-IsValid}
use ethereum_blockchain.Core.Payment.{Pays, apply_valid-Pays}
use ethereum_blockchain.Chain.{Block, block_hash, create_genesis_block, create_block}
use ethereum_blockchain.Scenarios.Transfer.{
  gas_price_unit, gas_limit, block_gas_limit, one_eth, transfer_value, unsigned_tx, genesis_state,
  verify_balances, after_transaction, eth_transfer, finished,
}

abbrev funded : ℕ → Account
funded balance = record { nonce = 0; balance = balance; code = []; storage = [] }

genesis_accounts :
    (s r : Bytes)
    → beq_bytes s r ≡ false
    → (get_account s (genesis_state s r) ≡ funded one_eth)
      × (get_account r (genesis_state s r) ≡ funded 0)
unfolding genesis_state create_genesis_state get_account set_account insert lookup
genesis_accounts s r apart =
    let self_s = (beq_bytes_iff s s).1 refl in
    let self_r = (beq_bytes_iff r r).1 refl in
    (rw (apart, apart, self_s) refl, rw (apart, apart, self_r, apart) refl)

initial_balance :
    (s r : Bytes) → beq_bytes s r ≡ false → get_balance s (genesis_state s r) ≡ one_eth
unfolding get_balance
initial_balance s r apart = rw ((genesis_accounts s r apart).0, get_balance) refl

module _ (host : Host) (eth : EthKeys) (law : Recovers eth)
    (sender_key recipient_key : eth.PrivateKey) (now : ℕ) where
  abbrev sender : Bytes
  sender = eth.address_of sender_key

  abbrev recipient : Bytes
  recipient = eth.address_of recipient_key

  abbrev signed_tx : Transaction
  signed_tx = sign_transaction eth (unsigned_tx recipient) sender_key

  signed-IsValid :
      beq_bytes sender recipient ≡ false
      → IsValid signed_tx (genesis_state sender recipient) block_gas_limit sender
  unfolding sign_transaction unsigned_tx calculate_intrinsic_gas calldata_gas
  signed-IsValid apart =
      let (is, _) = genesis_accounts sender recipient apart in
      record {
        nonce = rw is refl;
        balance = rw is (omega arith);
        block = omega arith;
        intrinsic = omega arith;
      }

  applies-applied :
      (r : TransactionResult) (w' : World)
      → beq_bytes sender recipient ≡ false
      → apply_valid host signed_tx (genesis_state sender recipient) sender ≡ applied r w'
      → apply_transaction host eth signed_tx (genesis_state sender recipient) block_gas_limit
        ≡ applied r w'
  unfolding apply_transaction
  applies-applied r w' apart e =
      let w = genesis_state sender recipient in
      let recovered = recover_sender-sign_transaction eth law (unsigned_tx recipient) sender_key in
      let validated =
        (validate_transaction-IsValid eth signed_tx w block_gas_limit sender).1
          (recovered, signed-IsValid apart) in
      rw (validated, apply_transaction) e

  -- The balances and the nonce after the payment.
  paid_accounts :
      (w' : World)
      → beq_bytes sender recipient ≡ false
      → Pays sender recipient transfer_value
          (gas_limit * gas_price_unit)
          (genesis_state sender recipient)
          w'
      → (get_balance sender w' ≡ one_eth - transfer_value - gas_limit * gas_price_unit)
        × (get_balance recipient w' ≡ transfer_value)
        × ((get_account sender w').nonce ≡ 1)
  unfolding get_balance
  paid_accounts w' apart p =
      let (at_s, at_r) = genesis_accounts sender recipient apart in
      let self_s = (beq_bytes_iff sender sender).1 refl in
      let self_r = (beq_bytes_iff recipient recipient).1 refl in
      let apart' : beq_bytes recipient sender ≡ false =
        ground (arith, beq_bytes_iff sender recipient, beq_bytes_iff recipient sender) in
      let from = rw (self_s, apart', at_s) at (p.balances sender) in
      let to = rw (self_r, apart, at_r) at (p.balances recipient) in
      let nonce = rw (self_s, at_s) at (p.nonces sender) in
      (omega (arith, from), omega (arith, to), omega (arith, nonce))

  payment :
      beq_bytes sender recipient ≡ false
      → length recipient ≢ 0
      → (r : TransactionResult) × (w' : World) × (apply_valid host signed_tx
            (genesis_state sender recipient)
            sender
          ≡ applied r w')
        × (r.success ≡ true)
        × Pays sender recipient transfer_value
            (gas_limit * gas_price_unit)
            (genesis_state sender recipient)
            w'
  unfolding sign_transaction unsigned_tx calculate_intrinsic_gas calldata_gas
  payment apart payable =
      let (_, at_r) = genesis_accounts sender recipient apart in
      let no_code : length (get_account recipient (genesis_state sender recipient)).code ≡ 0 =
        rw at_r refl in
      let (r, w', e, succeeded, _, pays) =
        apply_valid-Pays host signed_tx (genesis_state sender recipient) block_gas_limit sender
          (signed-IsValid apart) payable no_code in
      (r, w', e, succeeded, pays)

  -- The script of the transfer runs to its end, no exception is raised and every assertion holds,
  -- whatever the keys and the time, if eth_keys recovers the signer of each of its signatures, the
  -- two addresses differ and the recipient's is not empty: the sender then has one ether less a
  -- tenth and less 21000 wei and the nonce 1, the recipient has a tenth of an ether, and block 1
  -- follows the genesis block with the root of the new state.
  pub eth_transfer-finished :
      sender ≢ recipient
      → length recipient ≢ 0
      → (w' : World) × (genesis : Block) × (block : Block) × (eth_transfer host eth sender_key
            recipient_key now
          ≡ finished w' genesis block)
        × (get_balance sender w' ≡ one_eth - transfer_value - gas_limit * gas_price_unit)
        × (get_balance recipient w' ≡ transfer_value)
        × ((get_account sender w').nonce ≡ 1)
        × (block.header.parent_hash ≡ block_hash eth.keccak256 genesis)
        × (block.header.number ≡ 1)
        × (block.header.state_root ≡ state_root_placeholder eth.keccak256 w')
  unfolding eth_transfer after_transaction verify_balances create_block create_genesis_block
  eth_transfer-finished differ payable =
      let apart : beq_bytes sender recipient ≡ false =
        ground (arith, beq_bytes_iff sender recipient) in
      let (r, w', e, succeeded, pays) = payment apart payable in
      let (at_sender, at_recipient, nonce) = paid_accounts w' apart pays in
      let initial : get_balance sender (genesis_state sender recipient) ≡ one_eth =
        initial_balance sender recipient apart in
      (
        w',
        create_genesis_block eth.keccak256
            (state_root_placeholder eth.keccak256 (genesis_state sender recipient)) 0,
        create_block eth.keccak256
            (create_genesis_block eth.keccak256
              (state_root_placeholder eth.keccak256 (genesis_state sender recipient)) 0)
            (signed_tx ∷ []) (state_root_placeholder eth.keccak256 w') now,
        rw
            (
              applies-applied r w' apart e,
              after_transaction,
              succeeded,
              at_sender,
              at_recipient,
              initial,
            )
            refl,
        at_sender,
        at_recipient,
        nonce,
        refl,
        refl,
        refl,
      )
