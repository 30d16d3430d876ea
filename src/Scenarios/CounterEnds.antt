-- ===== src/Scenarios/CounterEnds.antt =====
-- scenarios/02_counter.py: how the script ends.
use ethereum_blockchain.Prelude.{
  ℕ, ◌+◌, ◌%◌, ◌^◌, ◌<◌, ◌≤◌, ◌≡◌, ◌≢◌, ◌∙◌, refl, ap, [], ◌∷◌, ◌++◌, take, length-drop, arith,
  length,
}
use ethereum_blockchain.Prelude.Dict.{lookup, beq_bytes_iff}
use ethereum_blockchain.Bytes.{Bytes, AreBytes, digits, from_bytes, window}
use ethereum_blockchain.World.{World, get_account, get_storage, state_root_placeholder}
use ethereum_blockchain.Evm.{Host, compute_contract_address, calculate_intrinsic_gas, calldata_gas}
use ethereum_blockchain.Transaction.{Transaction, EthKeys, sign_transaction}
use ethereum_blockchain.Transaction.Recovery.{Recovers}
use ethereum_blockchain.Core.{TransactionResult}
use ethereum_blockchain.Chain.{Block, create_genesis_block, create_block}
use ethereum_blockchain.Contracts.{
  compute_selector, counter_runtime_bytecode, increment_signature, get_count_signature,
  encode_increment, encode_get_count,
}
use ethereum_blockchain.Contracts.Selector.{selector_bytes}
use ethereum_blockchain.Contracts.Counter.{increment_selector, get_count_selector}
use ethereum_blockchain.Contracts.CounterRefines.{counter_call, increment_call, get_count_call}
use ethereum_blockchain.Contracts.Init.{header, build_init_code}
use ethereum_blockchain.Contracts.Deployment.{deploy-Creates}
use ethereum_blockchain.Contracts.Transactions.{slots_of, increment-Leaves, get_count-Leaves}
use ethereum_blockchain.Scenarios.Counter.{
  CounterEnding, finished, signed, submit, genesis, contract_addr, deploy_tx, increment_tx,
  get_count_tx, count_and_block, use_contract, counter_scenario,
}
use ethereum_blockchain.Scenarios.CounterReady.{
  Ready, Ready-Pays, Ready-IsValid, submit-applied, genesis-Ready, genesis-slots,
}

module _ (host : Host) (eth : EthKeys) (law : Recovers eth) (key : eth.PrivateKey) (now : ℕ)
    (hash : (bs : Bytes) → length (host.keccak256 bs) ≡ 32)
    (increments : take 4 (host.keccak256 increment_signature) ≡ selector_bytes increment_selector)
    (counts : take 4 (host.keccak256 get_count_signature) ≡ selector_bytes get_count_selector)
    (fits : 96 ≤ host.memory_limit) where
  abbrev d : Bytes
  d = eth.address_of key

  abbrev address : Bytes
  address = contract_addr host eth key now

  -- A transaction that the script submits with success, and what the next one starts from: the counter at its
  -- address, holding `n`.
  record Applied (tx : Transaction) (w : World) (nonce n : ℕ) : Type 0 where
    receipt : TransactionResult
    after : World
    submits :
        (next : TransactionResult → World → CounterEnding)
        → submit host eth key now tx w next ≡ next receipt after
    ready : Ready d nonce after
    code : (get_account address after).code ≡ counter_runtime_bytecode
    count : get_storage address 0 after ≡ n

  address_nonempty : length address ≢ 0
  unfolding compute_contract_address
  address_nonempty e = omega (arith, e, length-drop 12 (host.keccak256 _), hash _)

  abbrev init_code : Bytes
  init_code = header 88 ++ counter_runtime_bytecode

  deployed : Applied (deploy_tx host eth key now init_code) (genesis host eth key now) 1 0
  unfolding sign_transaction build_init_code calculate_intrinsic_gas calldata_gas lookup
  deployed =
      let w = genesis host eth key now in
      let ready = genesis-Ready host eth key now in
      let valid =
        Ready-IsValid host eth law key 0 [] init_code w (omega arith) (omega arith) ready in
      let c =
        deploy-Creates host (signed host eth key now (deploy_tx host eth key now init_code)) w
          1_000_000 d counter_runtime_bytecode valid refl refl (omega arith) fits (omega arith) in
      let self = (beq_bytes_iff address address).1 refl in
      record {
        receipt = c.receipt;
        after = c.after;
        submits = λ next.
            submit-applied host eth law key now (deploy_tx host eth key now init_code) w c.after
              c.receipt next valid c.applies c.succeeds;
        ready =
            Ready-Pays d address 0 _ w c.after (omega arith) c.pays (c.distinct ready.distinct)
              ready;
        code = rw self at (c.codes address);
        count = (rw self at (c.slots address 0)) ∙ genesis-slots host eth key now address 0;
      }

  increment_calldata : encode_increment host.keccak256 ≡ selector_bytes increment_selector
  unfolding encode_increment compute_selector
  increment_calldata = increments

  get_count_calldata : encode_get_count host.keccak256 ≡ selector_bytes get_count_selector
  unfolding encode_get_count compute_selector
  get_count_calldata = counts

  small_increment : calculate_intrinsic_gas (encode_increment host.keccak256) ≡ 21064
  unfolding calculate_intrinsic_gas calldata_gas
  small_increment = rw increment_calldata refl

  small_get_count : calculate_intrinsic_gas (encode_get_count host.keccak256) ≡ 21064
  unfolding calculate_intrinsic_gas calldata_gas
  small_get_count = rw get_count_calldata refl

  increment_is_called :
      AreBytes (encode_increment host.keccak256)
      × (counter_call (encode_increment host.keccak256) ≡ increment_call)
  unfolding window from_bytes
  increment_is_called =
      rw increment_calldata ((omega arith, (omega arith, (omega arith, (omega arith, tt)))), refl)

  get_count_is_called :
      AreBytes (encode_get_count host.keccak256)
      × (counter_call (encode_get_count host.keccak256) ≡ get_count_call)
  unfolding window from_bytes
  get_count_is_called =
      rw get_count_calldata ((omega arith, (omega arith, (omega arith, (omega arith, tt)))), refl)

  incremented :
      (w : World)
      → Ready d 1 w
      → (get_account address w).code ≡ counter_runtime_bytecode
      → get_storage address 0 w ≡ 0
      → Applied (increment_tx host eth key now) w 2 1
  unfolding sign_transaction
  incremented w ready code none_yet =
      let valid =
        Ready-IsValid host eth law key 1 address (encode_increment host.keccak256) w (omega arith)
          (omega (arith, small_increment)) ready in
      let (bytes, called) = increment_is_called in
      let l =
        increment-Leaves host (signed host eth key now (increment_tx host eth key now)) w 1_000_000
          d valid address_nonempty (ready.distinct address) bytes code called
          (omega (arith, small_increment)) in
      record {
        receipt = l.receipt;
        after = l.after;
        submits = λ next.
            submit-applied host eth law key now (increment_tx host eth key now) w l.after l.receipt
              next valid l.applies l.succeeds;
        ready =
            Ready-Pays d address 1 _ w l.after (omega (arith, small_increment)) l.pays
              (l.distinct ready.distinct) ready;
        code = l.codes address ∙ code;
        count = l.contract 0 ∙ ap (λ n. (n + 1) % 2 ^ 256) none_yet;
      }

  counted :
      (w : World)
      → Ready d 2 w
      → (get_account address w).code ≡ counter_runtime_bytecode
      → get_storage address 0 w ≡ 1
      → (a : Applied (get_count_tx host eth key now) w 3 1) × (a.receipt.return_data ≡ digits 32 1)
  unfolding sign_transaction
  counted w ready code one =
      let valid =
        Ready-IsValid host eth law key 2 address (encode_get_count host.keccak256) w (omega arith)
          (omega (arith, small_get_count)) ready in
      let (bytes, called) = get_count_is_called in
      let word : slots_of address w 0 < 2 ^ 256 = rw one (omega arith) in
      let l =
        get_count-Leaves host (signed host eth key now (get_count_tx host eth key now)) w 1_000_000
          d valid address_nonempty (ready.distinct address) bytes code called
          (omega (arith, small_get_count)) word (omega (arith, fits)) in
      (
        record {
          receipt = l.receipt;
          after = l.after;
          submits = λ next.
              submit-applied host eth law key now (get_count_tx host eth key now) w l.after
                l.receipt next valid l.applies l.succeeds;
          ready =
              Ready-Pays d address 2 _ w l.after (omega (arith, small_get_count)) l.pays
                (l.distinct ready.distinct) ready;
          code = l.codes address ∙ code;
          count = l.contract 0 ∙ one;
        },
        l.returns ∙ ap (digits 32) one,
      )

  read_back : from_bytes (take 32 (digits 32 1)) ≡ 1
  unfolding from_bytes digits
  read_back = refl

  deployment_checked :
      (r : TransactionResult) (w : World)
      → (get_account address w).code ≡ counter_runtime_bytecode
      → use_contract host eth key now init_code r w
        ≡ submit host eth key now (increment_tx host eth key now) w λ _ w'.
          submit host eth key now
            (get_count_tx host eth key now)
            w'
            (count_and_block host eth key now init_code)
  unfolding use_contract
  deployment_checked r w code = rw code refl

  -- The script of the counter runs to its end, no exception is raised and every assertion holds,
  -- whatever the key and the time: the code is deployed, incremented once and read, and the count
  -- read is 1. Slot 0 of the contract then holds 1, the deployer has sent three transactions, and
  -- block 1 lists the deployment, the increment and the reading, in this order and each as signed,
  -- with the root of the new state. It is assumed that eth_keys recovers the signer of each of its
  -- signatures, that a hash has 32 bytes, that the hashes of the two signatures start with the
  -- selectors in the bytecode, and that the host can allocate 96 bytes.
  pub counter_scenario-finished :
      (w' : World) × (block : Block) × (counter_scenario host eth key now ≡ finished 1 w' block)
      × (get_storage address 0 w' ≡ 1)
      × ((get_account d w').nonce ≡ 3)
      × (block.header.number ≡ 1)
      × (block.header.state_root ≡ state_root_placeholder eth.keccak256 w')
      × (block.transactions
          ≡ signed host eth key now (deploy_tx host eth key now init_code)
            ∷ signed host eth key now (increment_tx host eth key now)
            ∷ signed host eth key now (get_count_tx host eth key now)
            ∷ [])
  unfolding counter_scenario build_init_code use_contract count_and_block create_block
      create_genesis_block
  counter_scenario-finished =
      let a = deployed in
      let b = incremented a.after a.ready a.code a.count in
      let (c, output) = counted b.after b.ready b.code b.count in
      let genesis_block =
        create_genesis_block eth.keccak256
          (state_root_placeholder eth.keccak256 (genesis host eth key now)) 0 in
      let transactions =
        signed host eth key now (deploy_tx host eth key now init_code)
        ∷ signed host eth key now (increment_tx host eth key now)
        ∷ signed host eth key now (get_count_tx host eth key now)
        ∷ [] in
      (
        c.after,
        create_block eth.keccak256 genesis_block transactions
            (state_root_placeholder eth.keccak256 c.after) now,
        a.submits (use_contract host eth key now init_code)
            ∙ deployment_checked a.receipt a.after a.code
            ∙ b.submits _
            ∙ c.submits _
            ∙ rw (output, read_back) refl,
        c.count,
        c.ready.nonce,
        refl,
        refl,
        refl,
      )
