-- ===== src/Evm/Rules.antt =====
-- evm/vm.py: for each opcode that the contracts use, the rule that takes a frame past it. A rule's last
-- argument is about the frame after the instruction, its conclusion about the one before.
use ethereum_blockchain.Prelude.{
  ℕ, zero, suc, ◌+◌, ◌-◌, ◌≤◌, ◌≡◌, refl, true, false, List, [], ◌∷◌, Option, some, arith, leb,
  ◌==◌, length, get_or, get_elem?, lt_of_get_elem?,
}
use ethereum_blockchain.Prelude.Dict.{Dict, nat_eq}
use ethereum_blockchain.Bytes.{Bytes, from_bytes, window}
use ethereum_blockchain.World.{World}
use ethereum_blockchain.Evm.State.{
  ExecutionContext, Frame, Host, Result, ok, Action, ⊤, gets, modify, ◌>>=◌, stack_pop, stack_push,
  stack_peek,
}
use ethereum_blockchain.Evm.Gas.{gas_cost, op_invalid, is_push, is_dup}
use ethereum_blockchain.Evm.Jumpdests.{find_jumpdests}
use ethereum_blockchain.Evm.Handlers.{binary, op_push, op_dup}
use ethereum_blockchain.Evm.Calls.{Runner}
use ethereum_blockchain.Evm.Execute.{dispatch, is_done}
use ethereum_blockchain.Evm.Trace.{Affords, Ends, step-Ends}

pub get_or_of_get_elem? :
    {A : Type 0} (xs : List A) (i : ℕ) (d : A) {a : A} → get_elem? xs i ≡ some a → get_or xs i d ≡ a
get_or_of_get_elem? [] i d e = absurd cc
get_or_of_get_elem? (x ∷ xs) zero d e = cc
get_or_of_get_elem? (x ∷ xs) (suc i) d e = get_or_of_get_elem? xs i d e

module _ (host : Host) (code : Bytes) (context : ExecutionContext) (w : Option World) where
  -- A running frame of the code.
  abbrev pub at : ℕ → List ℕ → Bytes → Dict ℕ ℕ → ℕ → Frame
  at pc stack memory storage gas = record {
    code = code;
    program_counter = pc;
    stack = stack;
    memory = memory;
    storage = storage;
    gas_remaining = gas;
    context = context;
    world_state = w;
    stopped = false;
    return_data = [];
    reverted = false;
    valid_jumpdests = find_jumpdests code;
  }

  pub affords :
      (pc op cost : ℕ) (s : List ℕ) (m : Bytes) (st : Dict ℕ ℕ) (g : ℕ)
      → get_elem? code pc ≡ some op
      → gas_cost op ≡ some cost
      → (op == op_invalid) ≡ false
      → cost ≤ g
      → Affords (at pc s m st g) cost
  unfolding is_done
  affords pc op cost s m st g e known valid enough =
      let is = get_or_of_get_elem? code pc 0 e in
      let within = lt_of_get_elem? code pc e in
      record { going = ground arith; known = rw is known; valid = rw is valid; enough = enough }

  -- An instruction whose handler is known.
  pub handler-Ends :
      (pc op cost : ℕ) (s : List ℕ) (m : Bytes) (st : Dict ℕ ℕ) (g : ℕ) (e' : Frame)
      (r : Result ⊤ × Frame)
      → get_elem? code pc ≡ some op
      → gas_cost op ≡ some cost
      → (op == op_invalid) ≡ false
      → cost ≤ g
      → 1 ≤ cost
      → ((run : Runner) → dispatch host run op (at (pc + 1) s m st (g - cost)) ≡ (ok tt, e'))
      → e'.gas_remaining ≡ g - cost
      → Ends host e' r
      → Ends host (at pc s m st g) r
  handler-Ends pc op cost s m st g e' r e known valid enough pos h gas rest =
      let is = get_or_of_get_elem? code pc 0 e in
      step-Ends host (at pc s m st g) e' cost r (affords pc op cost s m st g e known valid enough)
        pos (λ run. rw is (h run)) gas rest

  pub push-Ends :
      (pc op : ℕ) (s : List ℕ) (m : Bytes) (st : Dict ℕ ℕ) (g : ℕ) (r : Result ⊤ × Frame)
      → get_elem? code pc ≡ some op
      → is_push op ≡ true
      → (op == op_invalid) ≡ false
      → leb 1024 (length s) ≡ false
      → 3 ≤ g
      → Ends host
          (at
            (pc + 1 + (op - 0x60 + 1))
            (from_bytes (window code (pc + 1) (op - 0x60 + 1)) ∷ s)
            m
            st
            (g - 3))
          r
      → Ends host (at pc s m st g) r
  unfolding gas_cost dispatch op_push ◌>>=◌ gets stack_push modify
  push-Ends pc op s m st g r e push valid room enough rest =
      handler-Ends pc op 3 s m st g _ r e (rw push refl) valid enough (omega arith)
        (λ run. rw (push, room) refl) refl rest

  pub push1-Ends :
      (pc v : ℕ) (s : List ℕ) (m : Bytes) (st : Dict ℕ ℕ) (g : ℕ) (r : Result ⊤ × Frame)
      → get_elem? code pc ≡ some 0x60
      → get_elem? code (pc + 1) ≡ some v
      → leb 1024 (length s) ≡ false
      → 3 ≤ g
      → Ends host (at (pc + 2) (v ∷ s) m st (g - 3)) r
      → Ends host (at pc s m st g) r
  unfolding window from_bytes
  push1-Ends pc v s m st g r e immediate room enough rest =
      let byte : get_or code (pc + 1) 0 ≡ v = get_or_of_get_elem? code (pc + 1) 0 immediate in
      let value : from_bytes (window code (pc + 1) 1) ≡ v = rw byte (omega arith) in
      let next : pc + 1 + 1 ≡ pc + 2 = omega arith in
      push-Ends pc 0x60 s m st g r e refl refl room enough (rw (value, next) rest)

  pub dup-Ends :
      (pc op v : ℕ) (s : List ℕ) (m : Bytes) (st : Dict ℕ ℕ) (g : ℕ) (r : Result ⊤ × Frame)
      → get_elem? code pc ≡ some op
      → is_push op ≡ false
      → is_dup op ≡ true
      → (op == op_invalid) ≡ false
      → get_elem? s (op - 0x80) ≡ some v
      → leb 1024 (length s) ≡ false
      → 3 ≤ g
      → Ends host (at (pc + 1) (v ∷ s) m st (g - 3)) r
      → Ends host (at pc s m st g) r
  unfolding gas_cost dispatch op_dup stack_peek ◌>>=◌ stack_push
  dup-Ends pc op v s m st g r e push dup valid item room enough rest =
      handler-Ends pc op 3 s m st g _ r e (rw (push, dup) refl) valid enough (omega arith)
        (λ run. rw (push, dup, item, room, stack_peek) refl) refl rest

  -- The opcodes of two operands.
  pub binary-Ends :
      (pc op cost a b : ℕ) (f : ℕ → ℕ → ℕ) (s : List ℕ) (m : Bytes) (st : Dict ℕ ℕ) (g : ℕ)
      (r : Result ⊤ × Frame)
      → get_elem? code pc ≡ some op
      → gas_cost op ≡ some cost
      → (op == op_invalid) ≡ false
      → ((run : Runner) (e : Frame) → dispatch host run op e ≡ binary f e)
      → leb 1024 (length s) ≡ false
      → cost ≤ g
      → 1 ≤ cost
      → Ends host (at (pc + 1) (f a b ∷ s) m st (g - cost)) r
      → Ends host (at pc (a ∷ b ∷ s) m st g) r
  unfolding binary ◌>>=◌ stack_pop stack_push
  binary-Ends pc op cost a b f s m st g r e known valid is room enough pos rest =
      handler-Ends pc op cost (a ∷ b ∷ s) m st g _ r e known valid enough pos
        (λ run. rw (is run (at (pc + 1) (a ∷ b ∷ s) m st (g - cost)), room) refl) refl rest

  -- An opcode of one operand or none, or several, with its handler.
  pub action-Ends :
      (pc op cost : ℕ) (act : Action ⊤) (s : List ℕ) (m : Bytes) (st : Dict ℕ ℕ) (g : ℕ)
      (e' : Frame) (r : Result ⊤ × Frame)
      → get_elem? code pc ≡ some op
      → gas_cost op ≡ some cost
      → (op == op_invalid) ≡ false
      → ((run : Runner) (e : Frame) → dispatch host run op e ≡ act e)
      → cost ≤ g
      → 1 ≤ cost
      → act (at (pc + 1) s m st (g - cost)) ≡ (ok tt, e')
      → e'.gas_remaining ≡ g - cost
      → Ends host e' r
      → Ends host (at pc s m st g) r
  action-Ends pc op cost act s m st g e' r e known valid is enough pos h gas rest =
      handler-Ends pc op cost s m st g e' r e known valid enough pos
        (λ run. rw (is run (at (pc + 1) s m st (g - cost))) h) gas rest
