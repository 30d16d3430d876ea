-- ===== src/Evm/Halts.antt =====
-- evm/vm.py: the opcodes that end a frame. Each rule names the gas that is left, so that the gas of a
-- program adds up to one difference.
use ethereum_blockchain.Prelude.{
  ℕ, ◌+◌, ◌-◌, ◌≡◌, refl, true, false, List, ◌∷◌, Option, some, arith, ◌==◌, get_elem?,
}
use ethereum_blockchain.Prelude.Dict.{Dict, nat_eq, lookup}
use ethereum_blockchain.Bytes.{Bytes}
use ethereum_blockchain.Memory
use ethereum_blockchain.World.{World}
use ethereum_blockchain.Evm.State.{
  ExecutionContext, Frame, Host, ok, Action, ⊤, modify, ◌>>=◌, stack_pop,
}
use ethereum_blockchain.Evm.Gas.{gas_cost, op_invalid}
use ethereum_blockchain.Evm.Handlers.{op_stop, op_return, op_revert, read_memory, on_memory}
use ethereum_blockchain.Evm.Calls.{Runner}
use ethereum_blockchain.Evm.Execute.{call_handler, dispatch, handlers, is_done}
use ethereum_blockchain.Evm.Trace.{Ends, halt-Ends}
use ethereum_blockchain.Evm.Rules.{get_or_of_get_elem?, at, affords}

read_memory-ok :
    (host : Host) (offset size : ℕ) (e : Frame) {output m' : Bytes}
    → Memory.read_range host.memory_limit offset size e.memory ≡ some (output, m')
    → read_memory host offset size e ≡ (ok output, record e { memory = m' })
unfolding read_memory on_memory
read_memory-ok host offset size e h = rw (h, on_memory) refl

module _ (host : Host) (code : Bytes) (context : ExecutionContext) (w : Option World) where
  module _ (pc : ℕ) (s : List ℕ) (m : Bytes) (st : Dict ℕ ℕ) (g g' : ℕ) (left : g ≡ g') where
    halts :
        (act : Action ⊤) (op : ℕ) (s' : List ℕ) (e' : Frame)
        → get_elem? code pc ≡ some op
        → gas_cost op ≡ some 0
        → (op == op_invalid) ≡ false
        → ((run : Runner) (e : Frame) → dispatch host run op e ≡ act e)
        → act (at host code context w (pc + 1) s' m st g') ≡ (ok tt, e')
        → is_done e' ≡ true
        → Ends host (at host code context w pc s' m st g) (ok tt, e')
    halts act op s' e' e known valid is h done =
        let here = get_or_of_get_elem? code pc 0 e in
        let same : g - 0 ≡ g' = omega (arith, left) in
        halt-Ends host (at host code context w pc s' m st g) e' 0
          (affords host code context w pc op 0 s' m st g e known valid (omega arith))
          (λ run. rw (here, same, is run (at host code context w (pc + 1) s' m st g')) h) done

    pub stop-Ends :
        get_elem? code pc ≡ some 0x00
        → Ends host
            (at host code context w pc s m st g)
            (ok tt, record (at host code context w (pc + 1) s m st g') { stopped = true })
    unfolding gas_cost dispatch handlers lookup call_handler op_stop modify is_done
    stop-Ends e = halts op_stop 0x00 s _ e refl refl (λ run e'. refl) refl refl

    module _ (offset size : ℕ) (output m' : Bytes) where
      pub return-Ends :
          get_elem? code pc ≡ some 0xf3
          → Memory.read_range host.memory_limit offset size m ≡ some (output, m')
          → Ends host (at host code context w pc (offset ∷ size ∷ s) m st g) (
            ok tt,
            record (at host code context w (pc + 1) s m' st g') {
              return_data = output;
              stopped = true;
            },
          )
      unfolding gas_cost dispatch handlers lookup call_handler op_return ◌>>=◌ stack_pop modify
          is_done
      return-Ends e read =
          halts (op_return host) 0xf3 (offset ∷ size ∷ s) _ e refl refl (λ run e'. refl)
            (rw (read_memory-ok host offset size (at host code context w (pc + 1) s m st g') read)
              refl)
            refl

      pub revert-Ends :
          get_elem? code pc ≡ some 0xfd
          → Memory.read_range host.memory_limit offset size m ≡ some (output, m')
          → Ends host (at host code context w pc (offset ∷ size ∷ s) m st g) (
            ok tt,
            record (at host code context w (pc + 1) s m' st g') {
              return_data = output;
              stopped = true;
              reverted = true;
            },
          )
      unfolding gas_cost dispatch handlers lookup call_handler op_revert ◌>>=◌ stack_pop modify
          is_done
      revert-Ends e read =
          halts (op_revert host) 0xfd (offset ∷ size ∷ s) _ e refl refl (λ run e'. refl)
            (rw (read_memory-ok host offset size (at host code context w (pc + 1) s m st g') read)
              refl)
            refl
