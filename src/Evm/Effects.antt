-- ===== src/Evm/Effects.antt =====
-- evm/vm.py: the rules of the opcodes with a handler of their own, as in Evm/Rules.
use ethereum_blockchain.Prelude.{
  ℕ, suc, ◌+◌, ◌-◌, ◌≤◌, ◌≡◌, refl, true, false, List, ◌∷◌, Option, some, arith, leb, ltb, ◌==◌,
  length, get_elem?,
}
use ethereum_blockchain.Prelude.Dict.{Dict, nat_eq, lookup, insert}
use ethereum_blockchain.Bytes.{Bytes, from_bytes, window}
use ethereum_blockchain.Memory
use ethereum_blockchain.World.{World, or_zero}
use ethereum_blockchain.Evm.State.{
  ExecutionContext, Frame, Host, Result, ⊤, pure, gets, modify, ◌>>=◌, stack_pop, stack_push,
}
use ethereum_blockchain.Evm.Gas.{gas_cost}
use ethereum_blockchain.Evm.Jumpdests.{find_jumpdests, is_member}
use ethereum_blockchain.Evm.Handlers.{
  op_swap, op_pop, op_calldataload, op_caller, op_sload, op_sstore, op_jumpi, jump_to, op_jumpdest,
  op_mstore, write_memory, op_codecopy, copy_to_memory,
}
use ethereum_blockchain.Evm.Execute.{call_handler, dispatch, handlers}
use ethereum_blockchain.Evm.Trace.{Ends}
use ethereum_blockchain.Evm.Rules.{at, action-Ends}

module _ (host : Host) (code : Bytes) (context : ExecutionContext) (w : Option World) where
  module _ (pc : ℕ) (s : List ℕ) (m : Bytes) (st : Dict ℕ ℕ) (g : ℕ) (r : Result ⊤ × Frame) where
    pub pop-Ends :
        (a : ℕ)
        → get_elem? code pc ≡ some 0x50
        → 2 ≤ g
        → Ends host (at host code context w (pc + 1) s m st (g - 2)) r
        → Ends host (at host code context w pc (a ∷ s) m st g) r
    unfolding gas_cost dispatch handlers lookup call_handler op_pop ◌>>=◌ stack_pop pure
    pop-Ends a e enough rest =
        action-Ends host code context w pc 0x50 2 op_pop (a ∷ s) m st g _ r e refl refl
          (λ run e'. refl) enough (omega arith) refl refl rest

    pub jumpdest-Ends :
        get_elem? code pc ≡ some 0x5b
        → 1 ≤ g
        → Ends host (at host code context w (pc + 1) s m st (g - 1)) r
        → Ends host (at host code context w pc s m st g) r
    unfolding gas_cost dispatch handlers lookup call_handler op_jumpdest pure
    jumpdest-Ends e enough rest =
        action-Ends host code context w pc 0x5b 1 op_jumpdest s m st g _ r e refl refl
          (λ run e'. refl) enough (omega arith) refl refl rest

    pub calldataload-Ends :
        (offset : ℕ)
        → get_elem? code pc ≡ some 0x35
        → leb 1024 (length s) ≡ false
        → 3 ≤ g
        → Ends host
            (at host code context w
              (pc + 1)
              (from_bytes (window context.calldata offset 32) ∷ s)
              m
              st
              (g - 3))
            r
        → Ends host (at host code context w pc (offset ∷ s) m st g) r
    unfolding gas_cost dispatch handlers lookup call_handler op_calldataload ◌>>=◌ stack_pop gets
        stack_push
    calldataload-Ends offset e room enough rest =
        action-Ends host code context w pc 0x35 3 op_calldataload (offset ∷ s) m st g _ r e refl
          refl (λ run e'. refl) enough (omega arith) (rw room refl) refl rest

    pub caller-Ends :
        get_elem? code pc ≡ some 0x33
        → leb 1024 (length s) ≡ false
        → 2 ≤ g
        → Ends host (at host code context w (pc + 1) (from_bytes context.caller ∷ s) m st (g - 2)) r
        → Ends host (at host code context w pc s m st g) r
    unfolding gas_cost dispatch handlers lookup call_handler op_caller ◌>>=◌ gets stack_push
    caller-Ends e room enough rest =
        action-Ends host code context w pc 0x33 2 op_caller s m st g _ r e refl refl
          (λ run e'. refl) enough (omega arith) (rw room refl) refl rest

    pub sload-Ends :
        (key : ℕ)
        → get_elem? code pc ≡ some 0x54
        → leb 1024 (length s) ≡ false
        → 100 ≤ g
        → Ends host (at host code context w (pc + 1) (or_zero (lookup key st) ∷ s) m st (g - 100)) r
        → Ends host (at host code context w pc (key ∷ s) m st g) r
    unfolding gas_cost dispatch handlers lookup call_handler op_sload ◌>>=◌ stack_pop gets
        stack_push
    sload-Ends key e room enough rest =
        action-Ends host code context w pc 0x54 100 op_sload (key ∷ s) m st g _ r e refl refl
          (λ run e'. refl) enough (omega arith) (rw room refl) refl rest

    pub sstore-Ends :
        (key value : ℕ)
        → get_elem? code pc ≡ some 0x55
        → 5000 ≤ g
        → Ends host (at host code context w (pc + 1) s m (insert key value st) (g - 5000)) r
        → Ends host (at host code context w pc (key ∷ value ∷ s) m st g) r
    unfolding gas_cost dispatch handlers lookup call_handler op_sstore ◌>>=◌ stack_pop modify
    sstore-Ends key value e enough rest =
        action-Ends host code context w pc 0x55 5000 op_sstore (key ∷ value ∷ s) m st g _ r e refl
          refl (λ run e'. refl) enough (omega arith) refl refl rest

    pub swap1-Ends :
        (a b : ℕ)
        → get_elem? code pc ≡ some 0x90
        → 3 ≤ g
        → Ends host (at host code context w (pc + 1) (b ∷ a ∷ s) m st (g - 3)) r
        → Ends host (at host code context w pc (a ∷ b ∷ s) m st g) r
    unfolding gas_cost dispatch op_swap
    swap1-Ends a b e enough rest =
        let deep : leb (suc (suc (length s))) 1 ≡ false = ground arith in
        action-Ends host code context w pc 0x90 3 (op_swap 1) (a ∷ b ∷ s) m st g
          (at host code context w (pc + 1) (b ∷ a ∷ s) m st (g - 3)) r e refl refl (λ run e'. refl)
          enough (omega arith) (rw deep refl) refl rest

    pub jumpi-Ends :
        (d c : ℕ)
        → get_elem? code pc ≡ some 0x57
        → (c == 0) ≡ false
        → is_member d (find_jumpdests code) ≡ true
        → 10 ≤ g
        → Ends host (at host code context w d s m st (g - 10)) r
        → Ends host (at host code context w pc (d ∷ c ∷ s) m st g) r
    unfolding gas_cost dispatch handlers lookup call_handler op_jumpi ◌>>=◌ stack_pop jump_to
    jumpi-Ends d c e nonzero target enough rest =
        action-Ends host code context w pc 0x57 10 op_jumpi (d ∷ c ∷ s) m st g _ r e refl refl
          (λ run e'. refl) enough (omega arith) (rw (nonzero, target) refl) refl rest

    pub jumpi_not-Ends :
        (d c : ℕ)
        → get_elem? code pc ≡ some 0x57
        → (c == 0) ≡ true
        → 10 ≤ g
        → Ends host (at host code context w (pc + 1) s m st (g - 10)) r
        → Ends host (at host code context w pc (d ∷ c ∷ s) m st g) r
    unfolding gas_cost dispatch handlers lookup call_handler op_jumpi ◌>>=◌ stack_pop jump_to pure
    jumpi_not-Ends d c e is_zero enough rest =
        action-Ends host code context w pc 0x57 10 op_jumpi (d ∷ c ∷ s) m st g _ r e refl refl
          (λ run e'. refl) enough (omega arith) (rw is_zero refl) refl rest

    pub mstore-Ends :
        (offset value : ℕ) (m' : Bytes)
        → get_elem? code pc ≡ some 0x52
        → Memory.store host.memory_limit offset value m ≡ some m'
        → 3 ≤ g
        → Ends host (at host code context w (pc + 1) s m' st (g - 3)) r
        → Ends host (at host code context w pc (offset ∷ value ∷ s) m st g) r
    unfolding gas_cost dispatch handlers lookup call_handler op_mstore ◌>>=◌ stack_pop write_memory
    mstore-Ends offset value m' e stored enough rest =
        action-Ends host code context w pc 0x52 3 (op_mstore host) (offset ∷ value ∷ s) m st g _ r e
          refl refl (λ run e'. refl) enough (omega arith) (rw (stored, write_memory) refl) refl rest

    pub codecopy-Ends :
        (dest_offset offset size : ℕ) (m' : Bytes)
        → get_elem? code pc ≡ some 0x39
        → (size == 0) ≡ false
        → size ≤ host.memory_limit
        → Memory.write_range host.memory_limit dest_offset (window code offset size) m ≡ some m'
        → 3 ≤ g
        → Ends host (at host code context w (pc + 1) s m' st (g - 3)) r
        → Ends host (at host code context w pc (dest_offset ∷ offset ∷ size ∷ s) m st g) r
    unfolding gas_cost dispatch handlers lookup call_handler op_codecopy copy_to_memory ◌>>=◌
        stack_pop gets write_memory
    codecopy-Ends dest_offset offset size m' e some_size fits written enough rest =
        let room : ltb host.memory_limit size ≡ false = ground arith in
        action-Ends host code context w pc 0x39 3 (op_codecopy host)
          (dest_offset ∷ offset ∷ size ∷ s) m st g _ r e refl refl (λ run e'. refl) enough
          (omega arith) (rw (some_size, room, written, write_memory) refl) refl rest
