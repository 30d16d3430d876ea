-- ===== src/Contracts/Replay.antt =====
-- Calls of a deployed contract, one after the other, as the scenarios make them: each call runs on a new
-- frame with the storage that the calls before it left, and a call that fails leaves the storage as it
-- was. Beside it, what a contract promises: a step on an abstract state.
use ethereum_blockchain.Prelude.{
  ℕ, ◌+◌, ◌-◌, ◌≤◌, ◌≡◌, refl, Bool, false, List, [], ◌∷◌, Option, if◌then◌else◌, not, All, arith,
}
use ethereum_blockchain.Prelude.Dict.{Dict}
use ethereum_blockchain.Bytes.{Bytes, AreBytes}
use ethereum_blockchain.World.{World}
use ethereum_blockchain.Evm.{
  Host, ExecutionContext, Frame, Result, ok, err, ExecutionResult, new_frame, execute,
}
use ethereum_blockchain.Evm.Trace.{Ends}
use ethereum_blockchain.Evm.Completes.{Completes, Ends-Completes}

pub record Answer : Type 0 where
  pub success : Bool
  pub output : Bytes

-- What the caller keeps of a run on this storage.
abbrev pub outcome : Dict ℕ ℕ → Result ExecutionResult × Frame → Answer × Dict ℕ ℕ
outcome st (ok r, e) =
    (record { success = r.success; output = r.return_data }, if r.success then e.storage else st)
outcome st (err x, e) = (record { success = false; output = [] }, st)

-- A call, with enough fuel for its gas.
unfoldable pub deliver :
    Host → Bytes → Option World → ExecutionContext → Dict ℕ ℕ → Answer × Dict ℕ ℕ
deliver host code w context st =
    outcome st (execute host (context.gas + 2) (new_frame code context st w))

pub Completes-deliver :
    (host : Host) (code : Bytes) (w : Option World) (context : ExecutionContext) (st : Dict ℕ ℕ)
    (success : Bool) (output : Bytes) (used : ℕ) (final : Dict ℕ ℕ)
    → Completes
        (new_frame code context st w)
        success
        output
        used
        final
        (execute host (context.gas + 2) (new_frame code context st w))
    → deliver host code w context st
      ≡ (record { success = success; output = output }, if success then final else st)
unfolding deliver
Completes-deliver host code w context st success output used final c =
    let r = execute host (context.gas + 2) (new_frame code context st w) in
    answers r c.result c.storage
  where
    answers :
        (r : Result ExecutionResult × Frame) {left : ℕ}
        → r.0
          ≡ ok (record {
            success = success;
            return_data = output;
            gas_used = used;
            gas_remaining = left;
          })
        → r.1.storage ≡ final
        → outcome st r
          ≡ (record { success = success; output = output }, if success then final else st)
    answers (r, e) h k = rw (h, k) refl

-- A run on a new frame that ends decides what the call returns.
pub Ends-deliver :
    (host : Host) (code : Bytes) (w : Option World) (context : ExecutionContext) (st : Dict ℕ ℕ)
    (used : ℕ) (e' : Frame)
    → Ends host (new_frame code context st w) (ok tt, e')
    → used ≤ context.gas
    → e'.gas_remaining ≡ context.gas - used
    → e'.world_state ≡ w
    → deliver host code w context st ≡ (
      record { success = not e'.reverted; output = e'.return_data },
      if not e'.reverted then e'.storage else st,
    )
unfolding new_frame
Ends-deliver host code w context st used e' h le gas world =
    Completes-deliver host code w context st _ _ used _ (
      Ends-Completes host (context.gas + 2) (new_frame code context st w) e' used h (omega arith) le
        gas world)

-- What a call must bring: gas and calldata that is a byte string.
pub record Admissible (gas : ℕ) (context : ExecutionContext) : Type 0 where
  pub enough : gas ≤ context.gas
  pub bytes : AreBytes context.calldata

-- The answers to some calls and the state after them.
unfoldable pub replay :
    {S : Type 0} → (ExecutionContext → S → Answer × S) → List ExecutionContext → S → List Answer × S
replay step [] s = ([], s)
replay step (c ∷ cs) s =
    let now = step c s in let later = replay step cs now.1 in (now.0 ∷ later.0, later.1)

-- A contract's storage and the abstract state, step by step.
module _ {S T : Type 0} (step : ExecutionContext → S → Answer × S)
    (step' : ExecutionContext → T → Answer × T) (gas : ℕ) (R : S → T → Type 0) where
  pub record Simulates : Type 0 where
    pub each :
        (c : ExecutionContext) (s : S) (t : T)
        → Admissible gas c
        → R s t
        → ((step c s).0 ≡ (step' c t).0) × R (step c s).1 (step' c t).1

  pub replays :
      Simulates
      → (cs : List ExecutionContext) (s : S) (t : T) → All (Admissible gas) cs
      → R s t
      → ((replay step cs s).0 ≡ (replay step' cs t).0)
        × R (replay step cs s).1 (replay step' cs t).1
  unfolding replay
  replays sim [] s t h r = (refl, r)
  replays sim (c ∷ cs) s t h r =
      let (answer, r') = sim.each c s t h.0 r in
      let (answers, last) = replays sim cs (step c s).1 (step' c t).1 h.1 r' in
      (rw (answer, answers) refl, last)

-- What every call keeps holds after all of them.
pub replay_keeps :
    {S : Type 0} (step : ExecutionContext → S → Answer × S) (gas : ℕ) (P : S → Type 0)
    → ((c : ExecutionContext) (s : S) → Admissible gas c → P s → P (step c s).1)
    → (cs : List ExecutionContext) (s : S) → All (Admissible gas) cs
    → P s
    → P (replay step cs s).1
unfolding replay
replay_keeps step gas P each [] s h p = p
replay_keeps step gas P each (c ∷ cs) s h p =
    replay_keeps step gas P each cs (step c s).1 h.1 (each c s h.0 p)
