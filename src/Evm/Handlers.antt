-- ===== src/Evm/Handlers.antt =====
-- evm/vm.py: the handlers of single opcodes, but for CREATE and CALL. NOT of a word above `max_uint256`
-- gives 0 here, where Python would push a negative number.
use ethereum_blockchain.Prelude.{
  ℕ, ◌+◌, ◌-◌, ◌*◌, ◌/◌, ◌%◌, ◌^◌, Bool, true, List, Option, none, some, ltb, leb, ◌==◌,
  if◌then◌else◌, length, get_or, set,
}
use ethereum_blockchain.Prelude.Dict
use ethereum_blockchain.Prelude.Dict.{Dict, nat_eq}
use ethereum_blockchain.Bytes.{Bytes, from_bytes, window}
use ethereum_blockchain.Memory
use ethereum_blockchain.World.{or_zero}
use ethereum_blockchain.Evm.State.{
  stack_underflow, invalid_jump_destination, host_error, Host, mod_value, max_uint256, ok, Action,
  ⊤, pure, raise, gets, modify, ◌>>=◌, ◌>>◌, stack_pop, stack_push, stack_peek,
}
use ethereum_blockchain.Evm.Jumpdests.{is_member}

-- === Stop and arithmetic ===

unfoldable pub op_stop : Action ⊤
op_stop = modify (λ e. record e { stopped = true })

-- Pop `a` and then `b`, and push a result: the shape of the two-operand handlers.
unfoldable pub binary : (ℕ → ℕ → ℕ) → Action ⊤
binary f = do a ← stack_pop; b ← stack_pop; stack_push (f a b)

unfoldable pub unary : (ℕ → ℕ) → Action ⊤
unary f = do a ← stack_pop; stack_push (f a)

abbrev pub add : ℕ → ℕ → ℕ
add a b = (a + b) % mod_value

abbrev pub mul : ℕ → ℕ → ℕ
mul a b = (a * b) % mod_value

-- Python's `(a - b) % MOD_VALUE`, which is never negative.
abbrev pub sub : ℕ → ℕ → ℕ
sub a b = (a + (mod_value - b % mod_value)) % mod_value

abbrev pub div : ℕ → ℕ → ℕ
div a b = if b == 0 then 0 else a / b

abbrev pub mod_op : ℕ → ℕ → ℕ
mod_op a b = if b == 0 then 0 else a % b

-- `pow(base, exponent, MOD_VALUE)`
abbrev pub exp : ℕ → ℕ → ℕ
exp base exponent = base ^ exponent % mod_value

abbrev pub flag : Bool → ℕ
flag b = if b then 1 else 0

abbrev pub lt : ℕ → ℕ → ℕ
lt a b = flag (ltb a b)

abbrev pub gt : ℕ → ℕ → ℕ
gt a b = flag (ltb b a)

abbrev pub eq : ℕ → ℕ → ℕ
eq a b = flag (a == b)

abbrev pub iszero : ℕ → ℕ
iszero a = flag (a == 0)

abbrev pub not_word : ℕ → ℕ
not_word a = max_uint256 - a

-- A call of the memory, which replaces it; where the host cannot serve it, Python raises.
unfoldable pub on_memory : {A : Type 0} → (Bytes → Option (A × Bytes)) → Action A
unfolding raise
on_memory f e = elim (f e.memory) [
  | none ↦ raise host_error e
  | some (a, m) ↦ (ok a, record e { memory = m })
]

unfoldable pub write_memory : (Bytes → Option Bytes) → Action ⊤
unfolding raise
write_memory f e = elim (f e.memory) [
  | none ↦ raise host_error e
  | some m ↦ (ok tt, record e { memory = m })
]

-- === Environment ===

unfoldable pub op_address : Action ⊤
op_address = do stack_push (from_bytes (← gets (λ e. e.context.address)))

unfoldable pub op_caller : Action ⊤
op_caller = do stack_push (from_bytes (← gets (λ e. e.context.caller)))

unfoldable pub op_callvalue : Action ⊤
op_callvalue = do stack_push (← gets (λ e. e.context.value))

unfoldable pub op_calldataload : Action ⊤
op_calldataload = do
  offset ← stack_pop
  calldata ← gets (λ e. e.context.calldata)
  stack_push (from_bytes (window calldata offset 32))

unfoldable pub op_calldatasize : Action ⊤
op_calldatasize = do stack_push (length (← gets (λ e. e.context.calldata)))

unfoldable pub op_codesize : Action ⊤
op_codesize = do stack_push (length (← gets (λ e. e.code)))

-- === Stack ===

unfoldable pub op_pop : Action ⊤
op_pop = do _ ← stack_pop; pure tt

unfoldable pub op_push : ℕ → Action ⊤
op_push n = do
  start ← gets (λ e. e.program_counter)
  code ← gets (λ e. e.code)
  stack_push (from_bytes (window code start n))
  modify (λ e. record e { program_counter = e.program_counter + n })

unfoldable pub op_dup : ℕ → Action ⊤
op_dup depth = do value ← stack_peek depth; stack_push value

-- Exchange the top with the item `depth` below it.
abbrev pub swapped : ℕ → List ℕ → List ℕ
swapped depth s = set (set s 0 (get_or s depth 0)) depth (get_or s 0 0)

unfoldable pub op_swap : ℕ → Action ⊤
unfolding raise
op_swap depth e =
    if leb (length e.stack) depth
    then raise (stack_underflow (depth + 1) (length e.stack)) e
    else (ok tt, record e { stack = swapped depth e.stack })

-- === Storage and flow ===

unfoldable pub op_sload : Action ⊤
op_sload = do
  key ← stack_pop
  storage ← gets (λ e. e.storage)
  stack_push (or_zero (Dict.lookup key storage))

unfoldable pub op_sstore : Action ⊤
op_sstore = do
  key ← stack_pop
  value ← stack_pop
  modify (λ e. record e { storage = Dict.insert key value e.storage })

unfoldable pub jump_to : ℕ → Action ⊤
unfolding raise
jump_to destination e =
    if is_member destination e.valid_jumpdests
    then (ok tt, record e { program_counter = destination })
    else raise (invalid_jump_destination destination) e

unfoldable pub op_jump : Action ⊤
op_jump = do destination ← stack_pop; jump_to destination

unfoldable pub op_jumpi : Action ⊤
op_jumpi = do
  destination ← stack_pop
  condition ← stack_pop
  if condition == 0 then pure tt else jump_to destination

unfoldable pub op_msize : Action ⊤
op_msize = do stack_push (Memory.size (← gets (λ e. e.memory)))

unfoldable pub op_gas : Action ⊤
op_gas = do stack_push (← gets (λ e. e.gas_remaining))

unfoldable pub op_jumpdest : Action ⊤
op_jumpdest = pure tt

module _ (host : Host) where
  -- `memory.read_range(offset, size)`
  unfoldable pub read_memory : ℕ → ℕ → Action Bytes
  unfolding on_memory
  read_memory offset size = on_memory (Memory.read_range host.memory_limit offset size)

  unfoldable pub op_sha3 : Action ⊤
  op_sha3 = do
    offset ← stack_pop
    size ← stack_pop
    input ← read_memory offset size
    stack_push (from_bytes (host.keccak256 input))

  -- The body of CALLDATACOPY and CODECOPY: `bytearray(size)`, filled from `source` as far as it goes.
  unfoldable pub copy_to_memory : Bytes → ℕ → ℕ → ℕ → Action ⊤
  copy_to_memory source dest_offset offset size =
      if size == 0
      then pure tt
      else if ltb host.memory_limit size
      then raise host_error
      else write_memory
          (Memory.write_range host.memory_limit dest_offset (window source offset size))

  unfoldable pub op_calldatacopy : Action ⊤
  op_calldatacopy = do
    dest_offset ← stack_pop
    offset ← stack_pop
    size ← stack_pop
    calldata ← gets (λ e. e.context.calldata)
    copy_to_memory calldata dest_offset offset size

  unfoldable pub op_codecopy : Action ⊤
  op_codecopy = do
    dest_offset ← stack_pop
    offset ← stack_pop
    size ← stack_pop
    code ← gets (λ e. e.code)
    copy_to_memory code dest_offset offset size

  unfoldable pub op_mload : Action ⊤
  op_mload = do
    offset ← stack_pop
    value ← on_memory (Memory.load host.memory_limit offset)
    stack_push value

  unfoldable pub op_mstore : Action ⊤
  op_mstore = do
    offset ← stack_pop
    value ← stack_pop
    write_memory (Memory.store host.memory_limit offset value)

  unfoldable pub op_mstore8 : Action ⊤
  op_mstore8 = do
    offset ← stack_pop
    value ← stack_pop
    write_memory (Memory.store8 host.memory_limit offset value)

  unfoldable pub op_return : Action ⊤
  op_return = do
    offset ← stack_pop
    size ← stack_pop
    output ← read_memory offset size
    modify (λ e. record e { return_data = output; stopped = true })

  unfoldable pub op_revert : Action ⊤
  op_revert = do
    offset ← stack_pop
    size ← stack_pop
    output ← read_memory offset size
    modify (λ e. record e { return_data = output; stopped = true; reverted = true })
