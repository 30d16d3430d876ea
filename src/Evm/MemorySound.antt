-- ===== src/Evm/MemorySound.antt =====
-- evm/vm.py: the handlers that use memory advance the frame, and leave all but memory alone.
use ethereum_blockchain.Prelude.{
  ℕ, ◌%◌, ◌≡◌, refl, Option, some, Option-cases, inl, inr, arith, ltb, ◌==◌, length,
}
use ethereum_blockchain.Bytes.{Bytes, window}
use ethereum_blockchain.Memory
use ethereum_blockchain.Memory.Bytewise.{store-Writes, store8-Writes, write_range-Writes}
use ethereum_blockchain.Memory.Words.{load-window, read_range-window}
use ethereum_blockchain.Evm.State.{Frame, Host, host_error}
use ethereum_blockchain.Evm.Handlers.{
  on_memory, write_memory, read_memory, copy_to_memory, op_sha3, op_calldatacopy, op_codecopy,
  op_mload, op_mstore, op_mstore8, op_return, op_revert,
}
use ethereum_blockchain.Evm.Advances.{
  Advances, Sound, returned, raised, sound, >>=-Sound, pure-Sound, raise-Sound, if-Sound,
  stack_pop-Sound, stack_push-Sound,
}
use ethereum_blockchain.Evm.Sound.{unmoved}

-- The size stays a whole number of words.
abbrev IsAligned : Bytes → Type 0
IsAligned m = length m % 32 ≡ 0

moved_memory :
    (e : Frame) (m : Bytes)
    → (IsAligned e.memory → IsAligned m)
    → Advances e (record e { memory = m })
moved_memory e m h = record {
  code = refl;
  context = refl;
  jumpdests = refl;
  gas = omega arith;
  depth = λ h. h;
  aligned = h;
  value = refl;
}

module _ {A : Type 0} (f : Bytes → Option (A × Bytes)) where
  pub on_memory-Sound :
      ((m m' : Bytes) (a : A) → f m ≡ some (a, m') → IsAligned m → IsAligned m')
      → Sound (on_memory f)
  unfolding on_memory
  on_memory-Sound h = record {
    steps = λ e. elim (Option-cases (f e.memory)) [
      | inl e₁ ↦ rw (e₁, on_memory) (raised e cc)
      | inr ((a, m), e₁) ↦ rw (e₁, on_memory) (returned (moved_memory e m (h e.memory m a e₁)))
    ];
  }

  -- Reading memory changes nothing else.
  pub on_memory_keeps :
      (e : Frame)
      → ((on_memory f e).1.gas_remaining ≡ e.gas_remaining)
        × ((on_memory f e).1.world_state ≡ e.world_state)
  unfolding on_memory
  on_memory_keeps e = elim (Option-cases (f e.memory)) [
    | inl e₁ ↦ rw (e₁, on_memory) (refl, refl)
    | inr (am, e₁) ↦ rw (e₁, on_memory) (refl, refl)
  ]

module _ (f : Bytes → Option Bytes) where
  pub write_memory-Sound :
      ((m m' : Bytes) → f m ≡ some m' → IsAligned m → IsAligned m') → Sound (write_memory f)
  unfolding write_memory
  write_memory-Sound h = record {
    steps = λ e. elim (Option-cases (f e.memory)) [
      | inl e₁ ↦ rw (e₁, write_memory) (raised e cc)
      | inr (m, e₁) ↦ rw (e₁, write_memory) (returned (moved_memory e m (h e.memory m e₁)))
    ];
  }

pub write_range-Sound :
    (limit o : ℕ) (bs : Bytes) → Sound (write_memory (Memory.write_range limit o bs))
write_range-Sound limit o bs =
    write_memory-Sound _ λ m m' e. (write_range-Writes limit o bs m e).aligned

module _ (host : Host) where
  pub read_memory-Sound : (o n : ℕ) → Sound (read_memory host o n)
  unfolding read_memory
  read_memory-Sound o n =
      on_memory-Sound _ λ m m' bs e. (read_range-window host.memory_limit o n m e).2

  pub read_memory_keeps :
      (o n : ℕ) (e : Frame)
      → ((read_memory host o n e).1.gas_remaining ≡ e.gas_remaining)
        × ((read_memory host o n e).1.world_state ≡ e.world_state)
  unfolding read_memory
  read_memory_keeps o n e = on_memory_keeps (Memory.read_range host.memory_limit o n) e

  pub op_sha3-Sound : Sound (op_sha3 host)
  unfolding op_sha3
  op_sha3-Sound = search (sound, read_memory-Sound)

  copy_to_memory-Sound : (bs : Bytes) (d o n : ℕ) → Sound (copy_to_memory host bs d o n)
  unfolding copy_to_memory
  copy_to_memory-Sound bs d o n = if-Sound (n == 0) _ _ (pure-Sound tt) (
      if-Sound (ltb host.memory_limit n) _ _ (raise-Sound host_error cc)
        (write_range-Sound host.memory_limit d (window bs o n)))

  pub op_calldatacopy-Sound : Sound (op_calldatacopy host)
  unfolding op_calldatacopy
  op_calldatacopy-Sound = search (sound, copy_to_memory-Sound)

  pub op_codecopy-Sound : Sound (op_codecopy host)
  unfolding op_codecopy
  op_codecopy-Sound = search (sound, copy_to_memory-Sound)

  pub op_mload-Sound : Sound (op_mload host)
  unfolding op_mload
  op_mload-Sound = >>=-Sound stack_pop-Sound λ o.
      >>=-Sound (on_memory-Sound _ λ m m' v e. (load-window host.memory_limit o m e).1.aligned)
        λ v. stack_push-Sound v

  pub op_mstore-Sound : Sound (op_mstore host)
  unfolding op_mstore
  op_mstore-Sound = >>=-Sound stack_pop-Sound λ o.
      >>=-Sound stack_pop-Sound
        λ v. write_memory-Sound _ λ m m' e. (store-Writes host.memory_limit o v m e).1.aligned

  pub op_mstore8-Sound : Sound (op_mstore8 host)
  unfolding op_mstore8
  op_mstore8-Sound = >>=-Sound stack_pop-Sound λ o.
      >>=-Sound stack_pop-Sound
        λ v. write_memory-Sound _ λ m m' e. (store8-Writes host.memory_limit o v m e).aligned

  pub op_return-Sound : Sound (op_return host)
  unfolding op_return
  op_return-Sound = >>=-Sound stack_pop-Sound λ o. >>=-Sound stack_pop-Sound λ n.
      >>=-Sound (read_memory-Sound o n) λ output.
        unmoved _ (λ e. refl) (λ e. refl) (λ e. refl) (λ e. refl) (λ e. refl) (λ e. refl)
          (λ e. refl)

  pub op_revert-Sound : Sound (op_revert host)
  unfolding op_revert
  op_revert-Sound = >>=-Sound stack_pop-Sound λ o. >>=-Sound stack_pop-Sound λ n.
      >>=-Sound (read_memory-Sound o n) λ output.
        unmoved _ (λ e. refl) (λ e. refl) (λ e. refl) (λ e. refl) (λ e. refl) (λ e. refl)
          (λ e. refl)
