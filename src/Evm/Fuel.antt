-- ===== src/Evm/Fuel.antt =====
-- evm/vm.py, `execute`: the fuel that the loop needs. An instruction costs gas, or stops the frame, and
-- a nested frame gets at most the gas that is left.
use ethereum_blockchain.Prelude.{
  ℕ, zero, suc, ◌+◌, ◌-◌, ◌≤◌, ◌≡◌, refl, true, false, some, Option-cases, inl, inr, Bool-cases,
  arith, ltb, ◌==◌, get_or,
}
use ethereum_blockchain.Prelude.Dict.{lookup, nat_eq}
use ethereum_blockchain.Evm.State.{
  out_of_gas, invalid_opcode, Frame, Host, Result, ok, err, ⊤, raise, ◌>>=◌, consume_gas,
}
use ethereum_blockchain.Evm.Gas.{gas_cost, op_invalid}
use ethereum_blockchain.Evm.Calls.{Runner}
use ethereum_blockchain.Evm.Execute.{
  handlers, dispatch, finish, instruction, is_done, run_loop, execute,
}
use ethereum_blockchain.Evm.Advances.{
  Advances-refl, Advances-trans, Advances-same, Steps, Steps-continue, returned, raised,
}
use ethereum_blockchain.Evm.Children.{RunsSound}
use ethereum_blockchain.Evm.RunSound.{instruction_pays, instruction-Steps}
use ethereum_blockchain.Evm.Halting.{is_halting, costs_or_halts, instruction_progress}

-- A machine that never runs.
idle : Runner
idle e = (err (invalid_opcode 0 0), e)

-- An instruction that is free starts no other machine.
free_is_idle :
    (host : Host) (run : Runner) (op : ℕ)
    → is_halting op ≡ true
    → (op == op_invalid) ≡ false
    → dispatch host run op ≡ dispatch host idle op
unfolding dispatch handlers lookup
free_is_idle host run op h valid = elim (Bool-cases (op == 0x00)) [
  | inl e ↦ let is : op ≡ 0x00 = ground arith in rw is refl
  | inr ne ↦ elim (Bool-cases (op == 0xf3)) [
    | inl e ↦ let is : op ≡ 0xf3 = ground arith in rw is refl
    | inr ne' ↦ let is : op ≡ 0xfd = ground arith in rw is refl
  ]
]

idle-RunsSound : (G : ℕ) → RunsSound G idle
unfolding idle
idle-RunsSound G = record { steps = λ e le. raised e cc }

cannot_pay :
    (host : Host) (run : Runner) (op cost : ℕ) (e : Frame)
    → ltb e.gas_remaining cost ≡ true
    → instruction host run op cost e ≡ (err (out_of_gas cost e.gas_remaining), e)
unfolding instruction consume_gas ◌>>=◌ raise
cannot_pay host run op cost e short = rw short refl

-- A paid instruction steps if the machines that it can pay for do.
paid-Steps :
    (host : Host) (run : Runner) (op cost f : ℕ) (e : Frame)
    → gas_cost op ≡ some cost
    → (op == op_invalid) ≡ false
    → e.gas_remaining + 2 ≤ suc f
    → ((G : ℕ) → G + 2 ≤ f → RunsSound G run)
    → Steps e (instruction host run op cost e)
unfolding instruction
paid-Steps host run op cost f e known valid enough h =
    elim (Bool-cases (ltb e.gas_remaining cost)) [
      | inl short ↦
          rw (cannot_pay host run op cost e short)
            (raised e {x = out_of_gas cost e.gas_remaining} cc)
      | inr paid ↦ elim (Bool-cases (ltb 0 cost)) [
        | inl costs ↦
            instruction-Steps host run op cost e (h (e.gas_remaining - cost) (ground arith))
        | inr free ↦
            let halting : is_halting op ≡ true =
              let h = costs_or_halts op cost known in rw free at h in
            rw (free_is_idle host run op halting valid)
              (instruction-Steps host idle op cost e (idle-RunsSound _))
      ]
    ]

finish-Steps : (e : Frame) (r : Result ⊤ × Frame) (G : ℕ) → Steps e r → Steps e (finish G r)
unfolding finish
finish-Steps e (ok a, e') G s = record { advances = s.advances; clean = cc }
finish-Steps e (err (out_of_gas n g), e') G s = record {
  advances =
      Advances-trans s.advances (Advances-same e' _ refl refl refl (omega arith) refl refl refl);
  clean = cc;
}
finish-Steps e (err x, e') G s = record {
  advances = s.advances;
  clean = λ p. s.clean (ground arith);
}

stopped-is_done : (e : Frame) → e.stopped ≡ true → is_done e ≡ true
unfolding is_done
stopped-is_done e stops = rw stops refl

run_loop_stopped :
    (host : Host) (f : ℕ) (e : Frame) → 1 ≤ f → is_done e ≡ true → run_loop host f e ≡ (ok tt, e)
unfolding run_loop
run_loop_stopped host zero e some_fuel stops = absurd (omega arith)
run_loop_stopped host (suc f) e some_fuel stops = rw (stops, run_loop) refl

pub run_loop-Steps :
    (host : Host) (f : ℕ) (e : Frame) → e.gas_remaining + 2 ≤ f → Steps e (run_loop host f e)
unfolding run_loop raise
run_loop-Steps host zero e enough = absurd (omega arith)
run_loop-Steps host (suc f) e enough =
    let opcode = get_or e.code e.program_counter 0 in
    elim (Bool-cases (is_done e)) [
      | inl done ↦ rw (done, run_loop) (returned (Advances-refl e))
      | inr going ↦ elim (Option-cases (gas_cost opcode)) [
        | inl unknown ↦ rw (going, unknown, run_loop) (raised e cc)
        | inr (cost, known) ↦ elim (Bool-cases (opcode == op_invalid)) [
          | inl invalid ↦
              rw (going, known, invalid, run_loop)
                (returned (Advances-same e _ refl refl refl (omega arith) refl refl refl))
          | inr valid ↦
              let child = λ (c : Frame). finish c.gas_remaining (run_loop host f c) in
              let children : (G : ℕ) → G + 2 ≤ f → RunsSound G child = λ G le. record {
                steps = λ c within. finish-Steps c _ _ (run_loop-Steps host f c (omega arith));
              } in
              let after = (instruction host child opcode cost e).1 in
              rw (going, known, valid, run_loop)
                (Steps-continue e (instruction host child opcode cost e) _
                  (paid-Steps host child opcode cost f e known valid enough children)
                  (λ a p. elim (instruction_progress host child opcode cost e a known valid p) [
                    | inl costs ↦ run_loop-Steps host f _ (
                        let pays =
                          instruction_pays host child opcode cost e a
                            (λ le. children _ (omega arith)) p in
                        omega (arith, pays))
                    | inr stops ↦
                        rw
                          (run_loop_stopped host f after (omega arith)
                            (stopped-is_done after stops))
                          (returned (Advances-refl after))
                  ]))
        ]
      ]
    ]

-- A run of the machine with two more units of fuel than gas does not run out of fuel, also with
-- nested CREATE and CALL; it keeps the code, context and jump targets, spends no more gas than
-- there is, leaves at most 1024 items on the stack and a whole number of words in memory if it
-- starts so, and leaves the sum of all balances as it was, whatever the outcome.
pub execute-Steps :
    (host : Host) (f : ℕ) (e : Frame) → e.gas_remaining + 2 ≤ f → Steps e (execute host f e)
unfolding execute
execute-Steps host f e enough = finish-Steps e _ _ (run_loop-Steps host f e enough)
