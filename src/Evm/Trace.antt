-- ===== src/Evm/Trace.antt =====
-- evm/vm.py, `execute`: rules that follow a program from one instruction to the next, for any storage,
-- calldata and gas.
use ethereum_blockchain.Prelude.{
  ℕ, zero, suc, ◌+◌, ◌-◌, ◌≤◌, ◌≡◌, refl, true, false, some, arith, ltb, ◌==◌, get_or,
}
use ethereum_blockchain.Evm.State.{Frame, Host, Result, ok, ⊤, modify, ◌>>=◌, consume_gas}
use ethereum_blockchain.Evm.Gas.{gas_cost, op_invalid}
use ethereum_blockchain.Evm.Calls.{Runner}
use ethereum_blockchain.Evm.Execute.{dispatch, finish, instruction, is_done, run_loop, advance}

-- The opcode that a frame is at.
abbrev pub opcode_at : Frame → ℕ
opcode_at e = get_or e.code e.program_counter 0

-- The frame that an instruction's handler gets.
abbrev pub paid : ℕ → Frame → Frame
paid cost e = advance (record e { gas_remaining = e.gas_remaining - cost })

-- The loop goes on from `e` with this cost.
pub record Affords (e : Frame) (cost : ℕ) : Type 0 where
  pub going : is_done e ≡ false
  pub known : gas_cost (opcode_at e) ≡ some cost
  pub valid : (opcode_at e == op_invalid) ≡ false
  pub enough : cost ≤ e.gas_remaining

module _ (host : Host) where
  -- From `e` the loop ends in `r`, on any fuel that is enough.
  pub record Ends (e : Frame) (r : Result ⊤ × Frame) : Type 0 where
    pub runs : (f : ℕ) → e.gas_remaining + 2 ≤ f → run_loop host f e ≡ r

  instruction-paid :
      (run : Runner) (op cost : ℕ) (e : Frame)
      → cost ≤ e.gas_remaining
      → instruction host run op cost e ≡ dispatch host run op (paid cost e)
  unfolding instruction consume_gas ◌>>=◌ modify
  instruction-paid run op cost e le =
      let covered : ltb e.gas_remaining cost ≡ false = ground arith in rw covered refl

  round :
      (f : ℕ) (e e' : Frame) (cost : ℕ)
      → Affords e cost
      → ((run : Runner) → dispatch host run (opcode_at e) (paid cost e) ≡ (ok tt, e'))
      → run_loop host (suc f) e ≡ run_loop host f e'
  unfolding run_loop
  round f e e' cost a h =
      let child = λ (c : Frame). finish c.gas_remaining (run_loop host f c) in
      rw
        (
          a.going,
          a.known,
          a.valid,
          instruction-paid child (opcode_at e) cost e a.enough,
          h child,
          run_loop,
        )
        refl

  pub step-Ends :
      (e e' : Frame) (cost : ℕ) (r : Result ⊤ × Frame)
      → Affords e cost
      → 1 ≤ cost
      → ((run : Runner) → dispatch host run (opcode_at e) (paid cost e) ≡ (ok tt, e'))
      → e'.gas_remaining ≡ e.gas_remaining - cost
      → Ends e' r
      → Ends e r
  step-Ends e e' cost r a pos h gas rest = record { runs = go }
    where
      go : (f : ℕ) → e.gas_remaining + 2 ≤ f → run_loop host f e ≡ r
      go zero le = absurd (omega arith)
      go (suc f) le = rw (round f e e' cost a h) (rest.runs f (omega (arith, a.enough)))

  pub halt-Ends :
      (e e' : Frame) (cost : ℕ)
      → Affords e cost
      → ((run : Runner) → dispatch host run (opcode_at e) (paid cost e) ≡ (ok tt, e'))
      → is_done e' ≡ true
      → Ends e (ok tt, e')
  unfolding run_loop
  halt-Ends e e' cost a h done = record { runs = go }
    where
      go : (f : ℕ) → e.gas_remaining + 2 ≤ f → run_loop host f e ≡ (ok tt, e')
      go zero le = absurd (omega arith)
      go (suc zero) le = absurd (omega arith)
      go (suc (suc f)) le = rw (round (suc f) e e' cost a h, done, run_loop) refl
