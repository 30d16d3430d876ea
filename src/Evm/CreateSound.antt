-- ===== src/Evm/CreateSound.antt =====
-- evm/vm.py: CREATE advances the frame if the machine that it starts does.
use ethereum_blockchain.Prelude.{
  ℕ, ◌≤◌, ◌≡◌, ◌∙◌, [], Option, none, some, Option-cases, inl, inr, arith,
}
use ethereum_blockchain.Bytes.{Bytes}
use ethereum_blockchain.World.{World, increment_nonce, add_balance}
use ethereum_blockchain.World.Total.{total, total-add_balance, total-increment_nonce}
use ethereum_blockchain.Evm.State.{Host, stack_push}
use ethereum_blockchain.Evm.Calls.{Runner, transfer_positive, create_funded, create_in, op_create}
use ethereum_blockchain.Evm.Advances.{value_held, gets-Sound, stack_pop-Sound, stack_push-Sound}
use ethereum_blockchain.Evm.Guarded.{
  SoundIf, anyway, Within, Holds, bind-Within, bind-Holds, then_set_world, gets_world-if,
  gets_gas-if, with_bound,
}
use ethereum_blockchain.Evm.MemorySound.{read_memory-Sound}
use ethereum_blockchain.Evm.Children.{
  RunsSound, total-transfer_positive, run_child-if, new_frame-Holds, created-Sound,
}

module _ (host : Host) where
  module _ (run : Runner) (G : ℕ) (h : RunsSound G run) where
    created_in-if :
        (v : ℕ) (creator address : Bytes) (value : ℕ) (prepared : World) (init_code : Bytes)
        (gas : ℕ)
        → total prepared ≡ v
        → gas ≤ G
        → SoundIf (Holds G v) (create_funded run creator address value prepared init_code gas)
    unfolding create_funded
    created_in-if v creator address value prepared init_code gas same bound =
        elim (Option-cases (transfer_positive creator address value prepared)) [
          | inl e ↦ rw (e, create_funded) (anyway (Holds G v) (stack_push-Sound 0))
          | inr (w, e) ↦
              rw (e, create_funded)
                (run_child-if G v run _ _ h
                  (new_frame-Holds G init_code _ [] w bound
                    (total-transfer_positive creator address value prepared e ∙ same))
                  (created-Sound address))
        ]

    create_in-if :
        (value offset size : ℕ) (w : World)
        → SoundIf (Holds G (total w)) (create_in host run value offset size w)
    unfolding create_in
    create_in-if value offset size w =
        bind-Holds G (total w) (read_memory-Sound host offset size) λ init_code.
          bind-Holds G (total w) (gets-Sound _) λ context.
            let prepared = add_balance _ 0 (increment_nonce context.address w) in
            let same : total prepared ≡ total w = omega (
              arith,
              total-add_balance _ 0 (increment_nonce context.address w),
              total-increment_nonce context.address w,
            ) in
            then_set_world G (total w) (some prepared) _ same (
              gets_gas-if G (total w) _ λ gas.
                with_bound G (total w) gas
                  λ bound. created_in-if (total w) _ _ value prepared init_code gas same bound)

    create_some :
        (value offset size : ℕ) (w : Option World)
        → SoundIf
            (Holds G (value_held w))
            (elim w [ none ↦ stack_push 0 | some w' ↦ create_in host run value offset size w' ])
    create_some value offset size none = anyway _ (stack_push-Sound 0)
    create_some value offset size (some w) = create_in-if value offset size w

    pub op_create-Sound : SoundIf (Within G) (op_create host run)
    unfolding op_create
    op_create-Sound = bind-Within G stack_pop-Sound λ value. bind-Within G stack_pop-Sound λ offset.
        bind-Within G stack_pop-Sound λ size. gets_world-if G _ (create_some value offset size)
