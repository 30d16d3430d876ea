-- ===== src/Evm/Completes.antt =====
-- evm/vm.py, `execute`: what a run that ends without an exception hands to its caller.
use ethereum_blockchain.Prelude.{ℕ, ◌+◌, ◌-◌, ◌≤◌, ◌≡◌, refl, Bool, not, arith}
use ethereum_blockchain.Prelude.Dict.{Dict}
use ethereum_blockchain.Bytes.{Bytes}
use ethereum_blockchain.Evm.State.{Host, Frame, Result, ok, ExecutionResult}
use ethereum_blockchain.Evm.Execute.{finish, execute}
use ethereum_blockchain.Evm.Trace.{Ends}

-- A run from `e` ends with this result, this storage, and the world state as it was.
pub record Completes (e : Frame) (success : Bool) (output : Bytes) (used : ℕ) (final : Dict ℕ ℕ)
    (r : Result ExecutionResult × Frame) : Type 0 where
  pub result :
      r.0
      ≡ ok (record {
        success = success;
        return_data = output;
        gas_used = used;
        gas_remaining = e.gas_remaining - used;
      })
  pub storage : r.1.storage ≡ final
  pub world : r.1.world_state ≡ e.world_state

pub Ends-Completes :
    (host : Host) (f : ℕ) (e e' : Frame) (used : ℕ)
    → Ends host e (ok tt, e')
    → e.gas_remaining + 2 ≤ f
    → used ≤ e.gas_remaining
    → e'.gas_remaining ≡ e.gas_remaining - used
    → e'.world_state ≡ e.world_state
    → Completes e (not e'.reverted) e'.return_data used e'.storage (execute host f e)
unfolding execute finish
Ends-Completes host f e e' used h enough le gas world =
    let spent : e.gas_remaining - (e.gas_remaining - used) ≡ used = omega arith in
    record {
      result = rw (h.runs f enough, gas, spent) refl;
      storage = rw (h.runs f enough) refl;
      world = rw (h.runs f enough) world;
    }
