-- ===== src/Evm/Tests.antt =====
-- Runs of the machine on small programs.
use ethereum_blockchain.Prelude.{
  ◌⊎◌, ◌≢◌, ℕ, ◌≡◌, ◌↔◌, refl, [], ◌∷◌, none, some, true, arith, get_elem?,
}
use ethereum_blockchain.Prelude.Dict.{nat_eq}
use ethereum_blockchain.Bytes.{Bytes, from_bytes, window, to_bytes}
use ethereum_blockchain.Memory
use ethereum_blockchain.Evm.State.{
  Frame, Host, ExecutionContext, ExecutionResult, Result, ok, err, stack_pop, stack_push,
  consume_gas, ◌>>=◌, pure, raise, gets, modify,
}
use ethereum_blockchain.Evm.Gas.{op_invalid, gas_cost, opcode_jumpdest}
use ethereum_blockchain.Evm.Jumpdests.{find_jumpdests, is_member}
use ethereum_blockchain.Evm.Handlers.{
  binary, op_push, op_mstore, op_return, read_memory, write_memory,
}
use ethereum_blockchain.Evm.Calls.{new_frame}
use ethereum_blockchain.Evm.Advances.{Steps}
use ethereum_blockchain.Evm.Fuel.{execute-Steps}
use ethereum_blockchain.Evm.Tables.{Dispatched, Refused, dispatch_cases}
use ethereum_blockchain.Evm.Outcome.{Accounts, execute-Accounts}
use ethereum_blockchain.Evm.Targets.{Starts, find_jumpdests-Starts}
use ethereum_blockchain.Evm.Execute.{
  call_handler, execute, is_done, dispatch, instruction, handlers,
}

abbrev host : Host
host = record { keccak256 = λ bs. bs; memory_limit = 1_000_000 }

abbrev context : ExecutionContext
context = record { caller = 1 ∷ []; address = 2 ∷ []; value = 0; calldata = []; gas = 100 }

-- PUSH1 2, PUSH1 3, ADD, PUSH1 0, MSTORE, PUSH1 32, PUSH1 0, RETURN
abbrev adder : Frame
adder =
    new_frame (0x60 ∷ 2 ∷ 0x60 ∷ 3 ∷ 0x01 ∷ 0x60 ∷ 0 ∷ 0x52 ∷ 0x60 ∷ 32 ∷ 0x60 ∷ 0 ∷ 0xf3 ∷ [])
      context [] none

value_of : Result ExecutionResult → ℕ
value_of (ok r) = from_bytes r.return_data
value_of (err e) = 1000

gas_of : Result ExecutionResult → ℕ
gas_of (ok r) = r.gas_used
gas_of (err e) = 1000

adder_returns : value_of (execute host 20 adder).0 ≡ 5
unfolding value_of execute is_done dispatch instruction handlers new_frame gas_cost find_jumpdests
    consume_gas op_push stack_push stack_pop binary op_mstore op_return read_memory write_memory
    from_bytes window Memory.store Memory.read_range Memory.expand_to Memory.write_at to_bytes ◌>>=◌
    pure raise gets modify call_handler
adder_returns = refl

adder_gas : gas_of (execute host 20 adder).0 ≡ 21
unfolding gas_of execute is_done dispatch instruction handlers new_frame gas_cost find_jumpdests
    consume_gas op_push stack_push stack_pop binary op_mstore op_return read_memory write_memory
    from_bytes window Memory.store Memory.read_range Memory.expand_to Memory.write_at to_bytes ◌>>=◌
    pure raise gets modify call_handler
adder_gas = refl

execute-Steps_example : Steps adder (execute host 102 adder)
unfolding new_frame
execute-Steps_example = execute-Steps host 102 adder (omega arith)

adder-Accounts : Accounts 100 (execute host 102 adder)
unfolding new_frame
adder-Accounts = execute-Accounts host 102 adder (omega arith)

-- PUSH1 0x5b, JUMPDEST: the second 0x5b is a target, the first is data.
abbrev target : Bytes
target = 0x60 ∷ 0x5b ∷ 0x5b ∷ []

only_second : find_jumpdests target ≡ 2 ∷ []
unfolding find_jumpdests
only_second = refl

find_jumpdests-Starts_example :
    (is_member 2 (find_jumpdests target) ≡ true)
    ↔ (Starts target 0 2 × (get_elem? target 2 ≡ some opcode_jumpdest))
find_jumpdests-Starts_example = find_jumpdests-Starts target 2

-- SWAP1.
dispatch_cases_example :
    ((gas_cost 0x90 ≢ none) × (0x90 ≢ op_invalid) × Dispatched host (execute host 5) 0x90)
    ⊎ (((gas_cost 0x90 ≡ none) ⊎ (0x90 ≡ op_invalid)) × Refused host (execute host 5) 0x90)
dispatch_cases_example = dispatch_cases host (execute host 5) 0x90
