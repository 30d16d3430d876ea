-- ===== src/Evm/CallSound.antt =====
-- evm/vm.py: CALL advances the frame if the machine that it starts does.
use ethereum_blockchain.Prelude.{
  ℕ, ◌+◌, ◌-◌, ◌≤◌, ◌≡◌, refl, [], Option, none, some, Option-cases, inl, inr, Bool-cases, arith,
  ltb, ◌==◌, length, min, drop,
}
use ethereum_blockchain.Bytes.{Bytes, to_bytes}
use ethereum_blockchain.World.{Account, World, get_account}
use ethereum_blockchain.World.Total.{total}
use ethereum_blockchain.Evm.State.{Frame, Host, pure, modify, host_error, stack_push}
use ethereum_blockchain.Evm.Calls.{
  Runner, transfer_positive, read_input, call_funded, call_in, op_call,
}
use ethereum_blockchain.Evm.Advances.{
  Advances-same, value_held, Sound, returned, pure-Sound, raise-Sound, if-Sound, stack_pop-Sound,
  stack_push-Sound,
}
use ethereum_blockchain.Evm.Guarded.{
  SoundIf, anyway, bind-if, Within, Holds, Funded, bind-Within, set_world-Funded, gets_world-if,
  gets_gas-if, gets-Funded, if-Funded, with_less, with_bound,
}
use ethereum_blockchain.Evm.MemorySound.{read_memory-Sound, read_memory_keeps}
use ethereum_blockchain.Evm.Children.{
  RunsSound, total-transfer_positive, run_child-if, new_frame-Holds, called-Sound,
}

module _ (host : Host) where
  read_input-Sound : (o n : ℕ) → Sound (read_input host o n)
  unfolding read_input
  read_input-Sound o n = if-Sound (ltb 0 n) _ _ (read_memory-Sound host o n) (pure-Sound [])

  read_input-Funded :
      (G v g o n : ℕ) (e : Frame) → Funded G v g e → Funded G v g (read_input host o n e).1
  unfolding read_input pure
  read_input-Funded G v g o n e p = elim (Bool-cases (ltb 0 n)) [
    | inl some_input ↦
        let (gas, world) = read_memory_keeps host o n e in rw (some_input, gas, world) p
    | inr no_input ↦ rw no_input p
  ]

  -- An account without code: the gas forwarded is taken and given back.
  refund-if :
      (G v g : ℕ)
      → SoundIf (Funded G v g) (modify (λ e. record e { gas_remaining = e.gas_remaining - g + g }))
  unfolding modify
  refund-if G v g = record {
    steps = λ e p. returned (Advances-same e _ refl refl refl (omega (arith, p.1)) refl refl refl);
  }

  refund-Holds :
      (G v g : ℕ) (e : Frame)
      → Funded G v g e
      → Holds G v (modify (λ e. record e { gas_remaining = e.gas_remaining - g + g }) e).1
  unfolding modify
  refund-Holds G v g e p = (omega (arith, p.0.0, p.1), p.0.1)

  module _ (run : Runner) (G : ℕ) (h : RunsSound G run) where
    call_funded-if :
        (v : ℕ) (target : Bytes) (account : Account) (value g : ℕ) (input : Bytes) (o n : ℕ)
        (funded : World)
        → total funded ≡ v
        → SoundIf (Funded G v g) (call_funded host run target account value g input o n funded)
    unfolding call_funded
    call_funded-if v target account value g input o n funded same =
        set_world-Funded G v g (some funded) _ same (
          gets-Funded G v g _ _ λ caller.
            if-Funded G v g (length account.code == 0) _ _
              (bind-if (Funded G v g) (Holds G v) (refund-if G v g) (refund-Holds G v g)
                λ _. anyway (Holds G v) (stack_push-Sound 1))
              (with_bound G v g λ bound.
                (run_child-if G v run _ _ h
                  (new_frame-Holds G account.code _ account.storage funded bound same)
                  (called-Sound host target g o n))))

    -- The value moves, or the call fails with the world state as it was.
    move_value :
        (target caller : Bytes) (value g remaining : ℕ) (input : Bytes) (rl ro : ℕ) (w : World)
        → g ≤ remaining
        → SoundIf (Funded G (total w) remaining) (elim (transfer_positive caller target value w) [
          | none ↦ stack_push 0
          | some funded ↦
              call_funded host run target (get_account target w) value g input ro rl funded
        ])
    move_value target caller value g remaining input rl ro w le =
        elim (Option-cases (transfer_positive caller target value w)) [
          | inl e ↦ rw e (anyway _ (stack_push-Sound 0))
          | inr (funded, e) ↦ rw e (
              with_less G (total w) g remaining le (
                call_funded-if (total w) target (get_account target w) value g input ro rl funded
                  (total-transfer_positive caller target value w e)))
        ]

    call_in-if :
        (gas addr value ao al ro rl : ℕ) (w : World)
        → SoundIf (Holds G (total w)) (call_in host run gas addr value ao al ro rl w)
    unfolding call_in
    call_in-if gas addr value ao al ro rl w = elim (Option-cases (to_bytes 32 addr)) [
      | inl e ↦ rw (e, call_in) (anyway _ (raise-Sound host_error cc))
      | inr (word, e) ↦
          rw (e, call_in)
            (gets_gas-if G (total w) _ λ remaining.
              bind-if (Funded G (total w) remaining) (Funded G (total w) remaining)
                (anyway _ (read_input-Sound ao al)) (read_input-Funded G (total w) remaining ao al)
                λ input. gets-Funded G (total w) remaining _ _ λ caller.
                  move_value (drop 12 word) caller value (min gas remaining) remaining input rl ro w
                    (omega arith))
    ]

    call_some :
        (gas addr value ao al ro rl : ℕ) (w : Option World)
        → SoundIf (Holds G (value_held w)) (elim w [
          | none ↦ stack_push 0
          | some w' ↦ call_in host run gas addr value ao al ro rl w'
        ])
    call_some gas addr value ao al ro rl none = anyway _ (stack_push-Sound 0)
    call_some gas addr value ao al ro rl (some w) = call_in-if gas addr value ao al ro rl w

    pub op_call-Sound : SoundIf (Within G) (op_call host run)
    unfolding op_call
    op_call-Sound = bind-Within G stack_pop-Sound λ gas. bind-Within G stack_pop-Sound λ addr.
        bind-Within G stack_pop-Sound λ value. bind-Within G stack_pop-Sound λ ao.
          bind-Within G stack_pop-Sound λ al. bind-Within G stack_pop-Sound λ ro.
            bind-Within G stack_pop-Sound
              λ rl. gets_world-if G _ (call_some gas addr value ao al ro rl)
