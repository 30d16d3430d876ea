-- ===== src/Evm/Sound.antt =====
-- evm/vm.py: every handler of a single opcode advances the frame.
use ethereum_blockchain.Prelude.{
  ℕ, ◌≡◌, refl, ap, ◌∙◌, List, inl, inr, Bool-cases, arith, leb, ◌==◌, length, length-set, set,
  get_or,
}
use ethereum_blockchain.Evm.State.{Frame, modify}
use ethereum_blockchain.Evm.Jumpdests.{is_member}
use ethereum_blockchain.Evm.Handlers.{
  swapped, op_stop, binary, unary, op_address, op_caller, jump_to, op_callvalue, op_calldataload,
  op_calldatasize, op_codesize, op_pop, op_push, op_dup, op_swap, op_sload, op_sstore, op_jump,
  op_jumpi, op_msize, op_gas, op_jumpdest,
}
use ethereum_blockchain.Evm.Advances.{
  Sound, sound, >>=-Sound, modify-Sound, pure-Sound, gets-Sound, returned, raised, if-Sound,
  Advances-same, value_held, stack_pop-Sound, stack_push-Sound,
}

pub unmoved :
    (f : Frame → Frame)
    → ((e : Frame) → (f e).code ≡ e.code)
    → ((e : Frame) → (f e).context ≡ e.context)
    → ((e : Frame) → (f e).valid_jumpdests ≡ e.valid_jumpdests)
    → ((e : Frame) → (f e).gas_remaining ≡ e.gas_remaining)
    → ((e : Frame) → (f e).stack ≡ e.stack)
    → ((e : Frame) → (f e).memory ≡ e.memory)
    → ((e : Frame) → (f e).world_state ≡ e.world_state)
    → Sound (modify f)
unmoved f c x j g s m w = modify-Sound f λ e.
    Advances-same e (f e) (c e) (x e) (j e) (omega (arith, g e)) (s e) (m e) (ap value_held (w e))

pub op_stop-Sound : Sound op_stop
unfolding op_stop
op_stop-Sound =
    unmoved _ (λ e. refl) (λ e. refl) (λ e. refl) (λ e. refl) (λ e. refl) (λ e. refl) (λ e. refl)

pub binary-Sound : (f : ℕ → ℕ → ℕ) → Sound (binary f)
unfolding binary
binary-Sound f = search sound

pub unary-Sound : (f : ℕ → ℕ) → Sound (unary f)
unfolding unary
unary-Sound f = search sound

pub op_address-Sound : Sound op_address
unfolding op_address
op_address-Sound = search sound

pub op_caller-Sound : Sound op_caller
unfolding op_caller
op_caller-Sound = search sound

pub op_callvalue-Sound : Sound op_callvalue
unfolding op_callvalue
op_callvalue-Sound = search sound

pub op_calldataload-Sound : Sound op_calldataload
unfolding op_calldataload
op_calldataload-Sound = search sound

pub op_calldatasize-Sound : Sound op_calldatasize
unfolding op_calldatasize
op_calldatasize-Sound = search sound

pub op_codesize-Sound : Sound op_codesize
unfolding op_codesize
op_codesize-Sound = search sound

pub op_pop-Sound : Sound op_pop
unfolding op_pop
op_pop-Sound = search sound

pub op_push-Sound : (n : ℕ) → Sound (op_push n)
unfolding op_push
op_push-Sound n = >>=-Sound (gets-Sound _) λ start. >>=-Sound (gets-Sound _) λ code.
    >>=-Sound (stack_push-Sound _) λ _.
      unmoved _ (λ e. refl) (λ e. refl) (λ e. refl) (λ e. refl) (λ e. refl) (λ e. refl) (λ e. refl)

pub op_dup-Sound : (n : ℕ) → Sound (op_dup n)
unfolding op_dup
op_dup-Sound n = search sound

length-swapped : (n : ℕ) (s : List ℕ) → length (swapped n s) ≡ length s
length-swapped n s =
    length-set (set s 0 (get_or s n 0)) n (get_or s 0 0) ∙ length-set s 0 (get_or s n 0)

pub op_swap-Sound : (n : ℕ) → Sound (op_swap n)
unfolding op_swap
op_swap-Sound n = record {
  steps = λ e. elim (Bool-cases (leb (length e.stack) n)) [
    | inl short ↦ rw short (raised e cc)
    | inr enough ↦ rw enough (
        returned (record {
          code = refl;
          context = refl;
          jumpdests = refl;
          gas = omega arith;
          depth = rw (length-swapped n e.stack) (λ h. h);
          aligned = λ h. h;
          value = refl;
        }))
  ];
}

pub op_sload-Sound : Sound op_sload
unfolding op_sload
op_sload-Sound = search sound

pub op_sstore-Sound : Sound op_sstore
unfolding op_sstore
op_sstore-Sound = >>=-Sound stack_pop-Sound λ key. >>=-Sound stack_pop-Sound λ value.
    unmoved _ (λ e. refl) (λ e. refl) (λ e. refl) (λ e. refl) (λ e. refl) (λ e. refl) (λ e. refl)

jump_to-Sound : (d : ℕ) → Sound (jump_to d)
unfolding jump_to
jump_to-Sound d = record {
  steps = λ e. elim (Bool-cases (is_member d e.valid_jumpdests)) [
    | inl valid ↦
        rw valid (returned (Advances-same e _ refl refl refl (omega arith) refl refl refl))
    | inr invalid ↦ rw invalid (raised e cc)
  ];
}

pub op_jump-Sound : Sound op_jump
unfolding op_jump
op_jump-Sound = search (sound, jump_to-Sound)

pub op_jumpi-Sound : Sound op_jumpi
unfolding op_jumpi
op_jumpi-Sound =
    >>=-Sound stack_pop-Sound
      λ d. >>=-Sound stack_pop-Sound λ c. if-Sound (c == 0) _ _ (pure-Sound tt) (jump_to-Sound d)

pub op_msize-Sound : Sound op_msize
unfolding op_msize
op_msize-Sound = search sound

pub op_gas-Sound : Sound op_gas
unfolding op_gas
op_gas-Sound = search sound

pub op_jumpdest-Sound : Sound op_jumpdest
unfolding op_jumpdest
op_jumpdest-Sound = pure-Sound tt
