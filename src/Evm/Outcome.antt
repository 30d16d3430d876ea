-- ===== src/Evm/Outcome.antt =====
-- evm/vm.py, `execute`: the gas that a run reports.
use ethereum_blockchain.Prelude.{ℕ, ◌+◌, ◌≤◌, ◌≡◌, refl, not, arith}
use ethereum_blockchain.Evm.State.{out_of_gas, ExecutionResult, Frame, Host, Result, ok, err, ⊤}
use ethereum_blockchain.Evm.Execute.{finish, execute}
use ethereum_blockchain.Evm.Fuel.{run_loop-Steps}

-- A result splits the gas `G` of the start into what was used and what the frame has left; its
-- success is that the frame did not revert. OutOfGas leaves no gas; any other error leaves at most `G`.
unfoldable pub Accounts : ℕ → Result ExecutionResult × Frame → Type 0
Accounts G (ok r, e) =
    (r.gas_used + r.gas_remaining ≡ G)
    × (r.gas_remaining ≡ e.gas_remaining)
    × (r.success ≡ not e.reverted)
    × (r.return_data ≡ e.return_data)
Accounts G (err (out_of_gas needed remaining), e) = e.gas_remaining ≡ 0
Accounts G (err x, e) = e.gas_remaining ≤ G

finish-Accounts : (G : ℕ) (r : Result ⊤ × Frame) → r.1.gas_remaining ≤ G → Accounts G (finish G r)
unfolding finish Accounts
finish-Accounts G (ok a, e) le = (omega arith, refl, refl, refl)
finish-Accounts G (err (out_of_gas n g), e) le = refl
finish-Accounts G (err x, e) le = le

-- With two more units of fuel than gas, a run that returns reports as gas used and gas remaining
-- exactly the gas that it started with, the latter being what its frame has left, and reports
-- success exactly if the frame did not revert; a run that raises OutOfGas ends with no gas, and no
-- other error ends with more gas than there was.
pub execute-Accounts :
    (host : Host) (f : ℕ) (e : Frame)
    → e.gas_remaining + 2 ≤ f
    → Accounts e.gas_remaining (execute host f e)
unfolding execute
execute-Accounts host f e enough =
    finish-Accounts e.gas_remaining _ (run_loop-Steps host f e enough).advances.gas
