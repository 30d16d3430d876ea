-- ===== src/Evm/Execute.antt =====
-- evm/vm.py, `_dispatch` and `execute`: the table of handlers and the main loop. The loop takes fuel,
-- a unit for each instruction, also those of nested frames; Evm/Fuel shows how much is enough.
-- Python's limit on nested calls (RecursionError) is not modelled.
use ethereum_blockchain.Prelude.{
  ℕ, zero, suc, ◌+◌, ◌-◌, Bool, true, false, not, [], ◌∷◌, Option, none, some, leb, ◌==◌, ◌||◌,
  if◌then◌else◌, length, get_or,
}
use Prim.Native.Nat.{bit_and, bit_or}
use ethereum_blockchain.Prelude.Dict.{Dict, lookup, nat_eq}
use ethereum_blockchain.Evm.State.{
  out_of_gas, out_of_fuel, invalid_opcode, ExecutionResult, Frame, Host, Result, ok, err, Action, ⊤,
  raise, modify, ◌>>◌, continue, consume_gas,
}
use ethereum_blockchain.Evm.Gas.{is_push, is_dup, is_swap, gas_cost, op_invalid}
use ethereum_blockchain.Evm.Handlers.{
  op_stop, binary, unary, add, mul, sub, div, mod_op, exp, lt, gt, eq, iszero, not_word, op_address,
  op_caller, op_callvalue, op_calldataload, op_calldatasize, op_codesize, op_pop, op_push, op_dup,
  op_swap, op_sload, op_sstore, op_jump, op_jumpi, op_msize, op_gas, op_jumpdest, op_sha3,
  op_calldatacopy, op_codecopy, op_mload, op_mstore, op_mstore8, op_return, op_revert,
}
use ethereum_blockchain.Evm.Calls.{Runner, op_create, op_call}

-- `handlers.get(opcode)`, called if it is there.
unfoldable pub call_handler : ℕ → Option (Action ⊤) → Action ⊤
call_handler opcode none e = raise (invalid_opcode opcode (e.program_counter - 1)) e
call_handler opcode (some handler) e = handler e

-- The end of `execute`: the result, or OutOfGas passed on with all gas gone.
unfoldable pub finish : ℕ → Result ⊤ × Frame → Result ExecutionResult × Frame
finish initial_gas (ok _, e) = (
  ok (record {
    success = not e.reverted;
    return_data = e.return_data;
    gas_used = initial_gas - e.gas_remaining;
    gas_remaining = e.gas_remaining;
  }),
  e,
)
finish initial_gas (err (out_of_gas needed remaining), e) =
    (err (out_of_gas needed remaining), record e { reverted = true; gas_remaining = 0 })
finish initial_gas (err x, e) = (err x, e)

-- The INVALID instruction.
abbrev pub invalidate : Frame → Frame
invalidate e = record e { gas_remaining = 0; stopped = true; reverted = true }

abbrev pub advance : Frame → Frame
advance e = record e { program_counter = e.program_counter + 1 }

-- `while not self.stopped and self.program_counter < len(self.code)`
unfoldable pub is_done : Frame → Bool
is_done e = e.stopped || leb (length e.code) e.program_counter

module _ (host : Host) where
  -- The dict `handlers` of `_dispatch`.
  unfoldable pub handlers : Runner → Dict ℕ (Action ⊤)
  handlers run =
      (0x00, op_stop)
      ∷ (0x01, binary add)
      ∷ (0x02, binary mul)
      ∷ (0x03, binary sub)
      ∷ (0x04, binary div)
      ∷ (0x06, binary mod_op)
      ∷ (0x0a, binary exp)
      ∷ (0x10, binary lt)
      ∷ (0x11, binary gt)
      ∷ (0x14, binary eq)
      ∷ (0x15, unary iszero)
      ∷ (0x16, binary bit_and)
      ∷ (0x17, binary bit_or)
      ∷ (0x19, unary not_word)
      ∷ (0x20, op_sha3 host)
      ∷ (0x30, op_address)
      ∷ (0x33, op_caller)
      ∷ (0x34, op_callvalue)
      ∷ (0x35, op_calldataload)
      ∷ (0x36, op_calldatasize)
      ∷ (0x37, op_calldatacopy host)
      ∷ (0x38, op_codesize)
      ∷ (0x39, op_codecopy host)
      ∷ (0x50, op_pop)
      ∷ (0x51, op_mload host)
      ∷ (0x52, op_mstore host)
      ∷ (0x53, op_mstore8 host)
      ∷ (0x54, op_sload)
      ∷ (0x55, op_sstore)
      ∷ (0x56, op_jump)
      ∷ (0x57, op_jumpi)
      ∷ (0x59, op_msize)
      ∷ (0x5a, op_gas)
      ∷ (0x5b, op_jumpdest)
      ∷ (0xf0, op_create host run)
      ∷ (0xf1, op_call host run)
      ∷ (0xf3, op_return host)
      ∷ (0xfd, op_revert host)
      ∷ []

  -- `_dispatch`
  unfoldable pub dispatch : Runner → ℕ → Action ⊤
  dispatch run opcode =
      if is_push opcode
      then op_push (opcode - 0x60 + 1)
      else if is_dup opcode
      then op_dup (opcode - 0x80)
      else if is_swap opcode
      then op_swap (opcode - 0x90 + 1)
      else call_handler opcode (lookup opcode (handlers run))

  -- One instruction of known cost: pay, move on, dispatch.
  unfoldable pub instruction : Runner → ℕ → ℕ → Action ⊤
  instruction run opcode cost = do consume_gas cost; modify advance; dispatch run opcode

  unfoldable pub run_loop : ℕ → Action ⊤
  run_loop zero e = raise out_of_fuel e
  run_loop (suc f) e =
      let opcode = get_or e.code e.program_counter 0 in
      let child = λ (c : Frame). finish c.gas_remaining (run_loop f c) in
      let next = λ (cost : ℕ). continue (instruction child opcode cost e) (λ _ e'. run_loop f e') in
      elim (is_done e) [
        | true ↦ (ok tt, e)
        | false ↦ elim (gas_cost opcode) [
          | none ↦ raise (invalid_opcode opcode e.program_counter) e
          | some cost ↦ elim (opcode == op_invalid) [
            | true ↦ (ok tt, invalidate e)
            | false ↦ next cost
          ]
        ]
      ]

  -- `execute`
  unfoldable pub execute : ℕ → Runner
  unfolding run_loop finish
  execute f e = finish e.gas_remaining (run_loop f e)
