-- ===== src/Evm/Calls.antt =====
-- evm/vm.py, `_op_create` and `_op_call`; core/address.py. The child machine's `execute` is the
-- parameter `run`. The world state is one object that caller and callee share: the child starts from
-- the caller's, and the caller goes on with what the child left, also after a failure.
use ethereum_blockchain.Prelude.{
  ℕ, ◌+◌, ◌-◌, false, not, ◌&&◌, [], ◌∷◌, ◌++◌, Option, none, some, ltb, ◌==◌, if◌then◌else◌, min,
  length, take, drop, replicate,
}
use ethereum_blockchain.Prelude.Dict.{Dict}
use ethereum_blockchain.Bytes.{Bytes, from_bytes, to_bytes}
use ethereum_blockchain.Rlp.{int_to_rlp_bytes, rlp_encode, string, list, nil, cons}
use ethereum_blockchain.Memory
use ethereum_blockchain.World.{
  Account, World, get_account, increment_nonce, add_balance, transfer, set_code, set_storage,
}
use ethereum_blockchain.Evm.State.{
  out_of_gas, host_error, ExecutionContext, ExecutionResult, Frame, Host, Result, ok, err, Action,
  ⊤, pure, raise, gets, modify, ◌>>=◌, ◌>>◌, stack_pop, stack_push,
}
use ethereum_blockchain.Evm.Jumpdests.{find_jumpdests}
use ethereum_blockchain.Evm.Handlers.{read_memory, write_memory}

-- core/address.py: `keccak256(rlp([sender, nonce]))[12:]`
unfoldable pub compute_contract_address : (Bytes → Bytes) → Bytes → ℕ → Bytes
compute_contract_address keccak256 sender nonce = drop 12 (
    keccak256
      (rlp_encode (list (cons (string sender) (cons (string (int_to_rlp_bytes nonce)) nil)))))

-- `EVM.__init__`
unfoldable pub new_frame : Bytes → ExecutionContext → Dict ℕ ℕ → Option World → Frame
new_frame code context storage world_state = record {
  code = code;
  program_counter = 0;
  stack = [];
  memory = [];
  storage = storage;
  gas_remaining = context.gas;
  context = context;
  world_state = world_state;
  stopped = false;
  return_data = [];
  reverted = false;
  valid_jumpdests = find_jumpdests code;
}

-- `for key, val in evm.storage.items(): world_state.set_storage(address, key, val)`
unfoldable pub persist : Bytes → Dict ℕ ℕ → World → World
persist address [] w = w
persist address ((key, value) ∷ storage) w =
    persist address storage (set_storage address key value w)

abbrev pub map_world : (World → World) → Option World → Option World
map_world f none = none
map_world f (some w) = some (f w)

abbrev pub Runner : Type 0
Runner = Frame → Result ExecutionResult × Frame

-- `if value > 0: transfer(...)`
unfoldable pub transfer_positive : Bytes → Bytes → ℕ → World → Option World
transfer_positive s r value w = if ltb 0 value then transfer s r value w else some w

unfoldable pub set_world : Option World → Action ⊤
set_world w = modify (λ e. record e { world_state = w })

unfoldable pub on_world : (World → World) → Action ⊤
on_world f = modify (λ e. record e { world_state = map_world f e.world_state })

unfoldable pub spend : ℕ → Action ⊤
spend gas = modify (λ e. record e { gas_remaining = e.gas_remaining - gas })

-- CREATE, once the init code has returned.
unfoldable pub created : Bytes → Result ExecutionResult → Dict ℕ ℕ → Action ⊤
created address (ok result) storage =
    if result.success
    then (do
      on_world (λ w. persist address storage (set_code address result.return_data w))
      spend result.gas_used
      stack_push (from_bytes address))
    else (do spend result.gas_used; stack_push 0)
created address (err (out_of_gas needed remaining)) storage = stack_push 0
created address (err x) storage = raise x

-- Run a child, and go on with the world state that it leaves.
unfoldable pub run_child :
    Runner → Frame → (Result ExecutionResult → Dict ℕ ℕ → Action ⊤) → Action ⊤
run_child run child k = do
  let after = run child
  set_world after.1.world_state
  k after.0 after.1.storage

-- CREATE once the account exists: move the value, and run the init code.
unfoldable pub create_funded : Runner → Bytes → Bytes → ℕ → World → Bytes → ℕ → Action ⊤
create_funded run creator address value prepared init_code gas =
    elim (transfer_positive creator address value prepared) [
      | none ↦ stack_push 0
      | some funded ↦
          let context : ExecutionContext = record {
            caller = creator;
            address = address;
            value = value;
            calldata = [];
            gas = gas;
          } in
          run_child run (new_frame init_code context [] (some funded)) (created address)
    ]

-- The padding of return data up to `ret_length`.
abbrev pub padded : Bytes → ℕ → Bytes
padded bs size = if ltb (length bs) size then bs ++ replicate (size - length bs) 0 else bs

module _ (host : Host) where
  -- `if ret_length > 0 and result.return_data:` the caller's memory gets the data, cut or padded.
  unfoldable pub return_to_memory : ℕ → ℕ → Bytes → Action ⊤
  return_to_memory ret_offset ret_length bs =
      if ltb 0 ret_length && not (length bs == 0)
      then write_memory
          (Memory.write_range host.memory_limit ret_offset (padded (take ret_length bs) ret_length))
      else pure tt

  -- CALL, once the callee has returned.
  unfoldable pub called : Bytes → ℕ → ℕ → ℕ → Result ExecutionResult → Dict ℕ ℕ → Action ⊤
  called target forwarded ret_offset ret_length (ok result) storage =
      if result.success
      then (do
        on_world (persist target storage)
        return_to_memory ret_offset ret_length result.return_data
        spend result.gas_used
        stack_push 1)
      else (do spend forwarded; stack_push 0)
  called target forwarded ret_offset ret_length (err (out_of_gas needed remaining)) storage = do
    spend forwarded
    stack_push 0
  called target forwarded ret_offset ret_length (err x) storage = raise x

  -- CREATE with a world state.
  unfoldable pub create_in : Runner → ℕ → ℕ → ℕ → World → Action ⊤
  create_in run value offset size w = do
    init_code ← read_memory host offset size
    context ← gets (λ e. e.context)
    let creator = context.address
    let address = compute_contract_address host.keccak256 creator (get_account creator w).nonce
    let prepared = add_balance address 0 (increment_nonce creator w)
    set_world (some prepared)
    gas ← gets (λ e. e.gas_remaining)
    create_funded run creator address value prepared init_code gas

  unfoldable pub op_create : Runner → Action ⊤
  op_create run = do
    value ← stack_pop
    offset ← stack_pop
    size ← stack_pop
    w ← gets (λ e. e.world_state)
    elim w [ none ↦ stack_push 0 | some w' ↦ create_in run value offset size w' ]

  -- CALL once the value has been moved: `funded` is the world state, `account` the target's account as
  -- it was fetched before.
  unfoldable pub call_funded : Runner → Bytes → Account → ℕ → ℕ → Bytes → ℕ → ℕ → World → Action ⊤
  call_funded run target account value forwarded input ret_offset ret_length funded = do
    set_world (some funded)
    caller ← gets (λ e. e.context.address)
    let context : ExecutionContext = record {
      caller = caller;
      address = target;
      value = value;
      calldata = input;
      gas = forwarded;
    }
    if length account.code == 0
        then (do
          modify (λ e. record e { gas_remaining = e.gas_remaining - forwarded + forwarded })
          stack_push 1)
        else run_child run (new_frame account.code context account.storage (some funded))
            (called target forwarded ret_offset ret_length)

  -- `if args_length > 0: input_data = self.memory.read_range(...)`
  unfoldable pub read_input : ℕ → ℕ → Action Bytes
  read_input args_offset args_length =
      if ltb 0 args_length then read_memory host args_offset args_length else pure []

  -- CALL with a world state.
  unfoldable pub call_in : Runner → ℕ → ℕ → ℕ → ℕ → ℕ → ℕ → ℕ → World → Action ⊤
  call_in run gas addr_int value args_offset args_length ret_offset ret_length w =
      elim (to_bytes 32 addr_int) [
        | none ↦ raise host_error
        | some word ↦ do
          let target = drop 12 word
          remaining ← gets (λ e. e.gas_remaining)
          input ← read_input args_offset args_length
          caller ← gets (λ e. e.context.address)
          let account = get_account target w
          elim (transfer_positive caller target value w) [
            | none ↦ stack_push 0
            | some funded ↦
                call_funded run target account value (min gas remaining) input ret_offset ret_length
                  funded
          ]
      ]

  unfoldable pub op_call : Runner → Action ⊤
  op_call run = do
    gas ← stack_pop
    addr_int ← stack_pop
    value ← stack_pop
    args_offset ← stack_pop
    args_length ← stack_pop
    ret_offset ← stack_pop
    ret_length ← stack_pop
    w ← gets (λ e. e.world_state)
    elim w [
      | none ↦ stack_push 0
      | some w' ↦ call_in run gas addr_int value args_offset args_length ret_offset ret_length w'
    ]
