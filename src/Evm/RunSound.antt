-- ===== src/Evm/RunSound.antt =====
-- evm/vm.py, `_dispatch` and one round of `execute`: what every instruction keeps.
use ethereum_blockchain.Prelude.{
  ℕ, ◌+◌, ◌-◌, ◌≤◌, ◌≡◌, refl, Bool, true, false, [], ◌∷◌, Option, none, some, inl, inr, Bool-cases,
  arith, ltb, ◌==◌, if◌then◌else◌, All,
}
use ethereum_blockchain.Prelude.Dict.{Dict, lookup, nat_eq}
use ethereum_blockchain.Evm.State.{
  Frame, Host, Result, ok, err, Action, ⊤, raise, modify, ◌>>=◌, ◌>>◌, continue, consume_gas,
}
use ethereum_blockchain.Evm.Gas.{is_push, is_dup, is_swap}
use ethereum_blockchain.Evm.Calls.{Runner}
use ethereum_blockchain.Evm.Execute.{handlers, call_handler, dispatch, advance, instruction}
use ethereum_blockchain.Evm.Advances.{
  Advances-same, Steps, Steps-continue, raised, modify-Sound, consume_gas-Sound,
}
use ethereum_blockchain.Evm.Guarded.{SoundIf, anyway, Within, bind-Within}
use ethereum_blockchain.Evm.Sound.{
  op_stop-Sound, binary-Sound, unary-Sound, op_address-Sound, op_caller-Sound, op_callvalue-Sound,
  op_calldataload-Sound, op_calldatasize-Sound, op_codesize-Sound, op_pop-Sound, op_push-Sound,
  op_dup-Sound, op_swap-Sound, op_sload-Sound, op_sstore-Sound, op_jump-Sound, op_jumpi-Sound,
  op_msize-Sound, op_gas-Sound, op_jumpdest-Sound,
}
use ethereum_blockchain.Evm.MemorySound.{
  op_sha3-Sound, op_calldatacopy-Sound, op_codecopy-Sound, op_mload-Sound, op_mstore-Sound,
  op_mstore8-Sound, op_return-Sound, op_revert-Sound,
}
use ethereum_blockchain.Evm.Children.{RunsSound}
use ethereum_blockchain.Evm.CreateSound.{op_create-Sound}
use ethereum_blockchain.Evm.CallSound.{op_call-Sound}

-- What every entry of a table satisfies, the entry found does.
All-lookup :
    {V : Type 0} (P : V → Type 0) (k : ℕ) (v : V) (d : Dict ℕ V)
    → All (λ p. P p.1) d
    → lookup k d ≡ some v
    → P v
unfolding lookup
All-lookup P k v [] h e = cc
All-lookup {V} P k v ((j, w) ∷ d) h e = elim (Bool-cases (j == k)) [
  | inl same ↦ let found : w ≡ v = ground arith in rw (← found) h.0
  | inr other ↦ All-lookup P k v d h.1 (rw other at e)
]

-- The entries of a table, one after the other.
infixr 20 ◌▸◌
◌▸◌ : {A B : Type 0} → A → B → A × B
a ▸ b = (a, b)

module _ (host : Host) (run : Runner) (G : ℕ) (h : RunsSound G run) where
  handlers-Sound : All (λ p. SoundIf (Within G) p.1) (handlers host run)
  unfolding handlers
  handlers-Sound =
      anyway _ op_stop-Sound
      ▸ anyway _ (binary-Sound _)
      ▸ anyway _ (binary-Sound _)
      ▸ anyway _ (binary-Sound _)
      ▸ anyway _ (binary-Sound _)
      ▸ anyway _ (binary-Sound _)
      ▸ anyway _ (binary-Sound _)
      ▸ anyway _ (binary-Sound _)
      ▸ anyway _ (binary-Sound _)
      ▸ anyway _ (binary-Sound _)
      ▸ anyway _ (unary-Sound _)
      ▸ anyway _ (binary-Sound _)
      ▸ anyway _ (binary-Sound _)
      ▸ anyway _ (unary-Sound _)
      ▸ anyway _ (op_sha3-Sound host)
      ▸ anyway _ op_address-Sound
      ▸ anyway _ op_caller-Sound
      ▸ anyway _ op_callvalue-Sound
      ▸ anyway _ op_calldataload-Sound
      ▸ anyway _ op_calldatasize-Sound
      ▸ anyway _ (op_calldatacopy-Sound host)
      ▸ anyway _ op_codesize-Sound
      ▸ anyway _ (op_codecopy-Sound host)
      ▸ anyway _ op_pop-Sound
      ▸ anyway _ (op_mload-Sound host)
      ▸ anyway _ (op_mstore-Sound host)
      ▸ anyway _ (op_mstore8-Sound host)
      ▸ anyway _ op_sload-Sound
      ▸ anyway _ op_sstore-Sound
      ▸ anyway _ op_jump-Sound
      ▸ anyway _ op_jumpi-Sound
      ▸ anyway _ op_msize-Sound
      ▸ anyway _ op_gas-Sound
      ▸ anyway _ op_jumpdest-Sound
      ▸ op_create-Sound host run G h
      ▸ op_call-Sound host run G h
      ▸ anyway _ (op_return-Sound host)
      ▸ anyway _ (op_revert-Sound host)
      ▸ tt

  call_handler-Sound :
      (opcode : ℕ) (o : Option (Action ⊤))
      → lookup opcode (handlers host run) ≡ o
      → SoundIf (Within G) (call_handler opcode o)
  unfolding call_handler raise
  call_handler-Sound opcode none e = record { steps = λ e p. raised e cc }
  call_handler-Sound opcode (some m) e = record {
    steps = (All-lookup (SoundIf (Within G)) opcode m (handlers host run) handlers-Sound e).steps;
  }

  if-Within :
      (b : Bool) (x y : Action ⊤)
      → SoundIf (Within G) x
      → SoundIf (Within G) y
      → SoundIf (Within G) (if b then x else y)
  if-Within true x y hx hy = hx
  if-Within false x y hx hy = hy

  dispatch-Sound : (opcode : ℕ) → SoundIf (Within G) (dispatch host run opcode)
  unfolding dispatch
  dispatch-Sound opcode = if-Within (is_push opcode) _ _ (anyway _ (op_push-Sound _)) (
      if-Within (is_dup opcode) _ _ (anyway _ (op_dup-Sound _)) (
        if-Within (is_swap opcode) _ _ (anyway _ (op_swap-Sound _))
          (call_handler-Sound opcode _ refl)))

-- What is paid is gone.
pub consume_gas_pays :
    (cost : ℕ) (e : Frame) (a : ⊤)
    → (consume_gas cost e).0 ≡ ok a
    → (consume_gas cost e).1.gas_remaining + cost ≡ e.gas_remaining
unfolding consume_gas raise
consume_gas_pays cost e a p = elim (Bool-cases (ltb e.gas_remaining cost)) [
  | inl short ↦ absurd (let bad = rw short at p in ground arith)
  | inr paid ↦ rw paid (ground arith)
]

-- One paid instruction, from a frame that can pay for it or not.
pub instruction-Steps :
    (host : Host) (run : Runner) (opcode cost : ℕ) (e : Frame)
    → RunsSound (e.gas_remaining - cost) run
    → Steps e (instruction host run opcode cost e)
unfolding instruction ◌>>=◌
instruction-Steps host run opcode cost e h =
    Steps-continue e (consume_gas cost e) _ ((consume_gas-Sound cost).steps e) λ a paid.
      (bind-Within (e.gas_remaining - cost)
          (modify-Sound advance
            λ e'. Advances-same e' _ refl refl refl (omega arith) refl refl refl)
          (λ _. dispatch-Sound host run _ h opcode)).steps
        (consume_gas cost e).1 (omega (arith, consume_gas_pays cost e a paid))

-- One that does not raise costs what it says at least.
pub instruction_pays :
    (host : Host) (run : Runner) (opcode cost : ℕ) (e : Frame) (b : ⊤)
    → (cost ≤ e.gas_remaining → RunsSound (e.gas_remaining - cost) run)
    → (instruction host run opcode cost e).0 ≡ ok b
    → (instruction host run opcode cost e).1.gas_remaining + cost ≤ e.gas_remaining
unfolding instruction ◌>>=◌
instruction_pays host run opcode cost e b h = go (consume_gas cost e) (consume_gas_pays cost e)
  where
    rest : Action ⊤
    rest = modify advance >> dispatch host run opcode

    rest_sound : cost ≤ e.gas_remaining → SoundIf (Within (e.gas_remaining - cost)) rest
    rest_sound le =
        bind-Within (e.gas_remaining - cost)
          (modify-Sound advance
            λ e'. Advances-same e' _ refl refl refl (omega arith) refl refl refl)
          (λ _. dispatch-Sound host run _ (h le) opcode)

    go :
        (r : Result ⊤ × Frame)
        → ((a : ⊤) → r.0 ≡ ok a → r.1.gas_remaining + cost ≡ e.gas_remaining)
        → (continue r (λ _. rest)).0 ≡ ok b
        → (continue r (λ _. rest)).1.gas_remaining + cost ≤ e.gas_remaining
    go (ok a, e') pays p = omega (
      arith,
      pays a refl,
      ((rest_sound (omega (arith, pays a refl))).steps e'
          (omega (arith, pays a refl))).advances.gas,
    )
    go (err x, e') pays p = absurd (ground arith)
