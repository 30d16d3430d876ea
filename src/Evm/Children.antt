-- ===== src/Evm/Children.antt =====
-- evm/vm.py: what a nested machine does to the frame that starts it.
use ethereum_blockchain.Prelude.{
  ℕ, ◌≤◌, ◌≡◌, ◌≢◌, refl, ap, ◌∙◌, not, ◌&&◌, [], ◌∷◌, Option, none, some, inl, inr, Bool-cases,
  arith, ltb, ◌==◌, length,
}
use ethereum_blockchain.Prelude.Dict.{Dict}
use ethereum_blockchain.Bytes.{Bytes, from_bytes}
use ethereum_blockchain.World.{World, set_code}
use ethereum_blockchain.World.Total.{total, total-set_code, total-set_storage, total-transfer}
use ethereum_blockchain.Evm.State.{
  ExecutionContext, ExecutionResult, Frame, Host, Result, ok, err, Action, ⊤, out_of_fuel,
  out_of_gas,
}
use ethereum_blockchain.Evm.Calls.{
  new_frame, persist, map_world, Runner, transfer_positive, on_world, spend, created,
  return_to_memory, called, run_child,
}
use ethereum_blockchain.Evm.Advances.{
  Steps, Advances-same, value_held, Sound, >>=-Sound, pure-Sound, raise-Sound, modify-Sound,
  if-Sound, stack_push-Sound,
}
use ethereum_blockchain.Evm.Guarded.{SoundIf, anyway, Holds, then_set_world}
use ethereum_blockchain.Evm.MemorySound.{write_range-Sound}

-- From at most `G` gas, the machine that a call starts advances its own frame and does not run out of
-- the model's fuel.
pub record RunsSound (G : ℕ) (run : Runner) : Type 0 where
  pub steps : (e : Frame) → e.gas_remaining ≤ G → Steps e (run e)

pub total-persist : (a : Bytes) (s : Dict ℕ ℕ) (w : World) → total (persist a s w) ≡ total w
unfolding persist
total-persist a [] w = refl
total-persist a ((k, v) ∷ s) w = total-persist a s _ ∙ total-set_storage a k v w

pub on_world-Sound :
    (f : World → World) → ((w : World) → total (f w) ≡ total w) → Sound (on_world f)
unfolding on_world
on_world-Sound f h =
    modify-Sound _
      λ e. Advances-same e _ refl refl refl (omega arith) refl refl (held e.world_state)
  where
    held : (w : Option World) → value_held (map_world f w) ≡ value_held w
    held none = refl
    held (some w) = h w

pub spend-Sound : (g : ℕ) → Sound (spend g)
unfolding spend
spend-Sound g = modify-Sound _ λ e. Advances-same e _ refl refl refl (omega arith) refl refl refl

pub total-transfer_positive :
    (s r : Bytes) (x : ℕ) (w : World) {w' : World}
    → transfer_positive s r x w ≡ some w'
    → total w' ≡ total w
unfolding transfer_positive
total-transfer_positive s r x w {w'} e = elim (Bool-cases (ltb 0 x)) [
  | inl positive ↦ total-transfer s r x w (rw positive at e)
  | inr nothing ↦ let same : w' ≡ w = ground arith in rw same
]

-- The callee starts from a world state of value `v`, and hands one of value `v` on.
pub run_child-if :
    (G v : ℕ) (run : Runner) (child : Frame) (k : Result ExecutionResult → Dict ℕ ℕ → Action ⊤)
    → RunsSound G run
    → Holds G v child
    → ((r : Result ExecutionResult) (s : Dict ℕ ℕ) → r ≢ err out_of_fuel → Sound (k r s))
    → SoundIf (Holds G v) (run_child run child k)
unfolding run_child
run_child-if G v run child k h held rest =
    then_set_world G v _ _ ((h.steps child held.0).advances.value ∙ held.1)
      (anyway (Holds G v) (rest _ _ (h.steps child held.0).clean))

pub new_frame-Holds :
    (G : ℕ) (code : Bytes) (c : ExecutionContext) (s : Dict ℕ ℕ) (w : World) {v : ℕ}
    → c.gas ≤ G
    → total w ≡ v
    → Holds G v (new_frame code c s (some w))
unfolding new_frame
new_frame-Holds G code c s w le h = (le, h)

pub created-Sound :
    (a : Bytes) (r : Result ExecutionResult) (s : Dict ℕ ℕ)
    → r ≢ err out_of_fuel
    → Sound (created a r s)
unfolding created
created-Sound a (ok r) s ne =
    if-Sound r.success _ _
      (>>=-Sound
        (on_world-Sound _
          λ w. total-persist a s (set_code a r.return_data w) ∙ total-set_code a r.return_data w)
        λ _. >>=-Sound (spend-Sound r.gas_used) λ _. stack_push-Sound (from_bytes a))
      (>>=-Sound (spend-Sound r.gas_used) λ _. stack_push-Sound 0)
created-Sound a (err (out_of_gas n g)) s ne = stack_push-Sound 0
created-Sound a (err x) s ne = raise-Sound x (λ e. ne (ap err e))

module _ (host : Host) where
  pub return_to_memory-Sound : (o n : ℕ) (bs : Bytes) → Sound (return_to_memory host o n bs)
  unfolding return_to_memory
  return_to_memory-Sound o n bs =
      if-Sound (ltb 0 n && not (length bs == 0)) _ _ (write_range-Sound host.memory_limit o _)
        (pure-Sound tt)

  pub called-Sound :
      (a : Bytes) (g o n : ℕ) (r : Result ExecutionResult) (s : Dict ℕ ℕ)
      → r ≢ err out_of_fuel
      → Sound (called host a g o n r s)
  unfolding called
  called-Sound a g o n (ok r) s ne =
      if-Sound r.success _ _
        (>>=-Sound (on_world-Sound _ (total-persist a s)) λ _.
          >>=-Sound (return_to_memory-Sound o n r.return_data)
            λ _. >>=-Sound (spend-Sound r.gas_used) λ _. stack_push-Sound 1)
        (>>=-Sound (spend-Sound g) λ _. stack_push-Sound 0)
  called-Sound a g o n (err (out_of_gas m l)) s ne =
      >>=-Sound (spend-Sound g) λ _. stack_push-Sound 0
  called-Sound a g o n (err x) s ne = raise-Sound x (λ e. ne (ap err e))
