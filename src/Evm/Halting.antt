-- ===== src/Evm/Halting.antt =====
-- evm/vm.py and evm/gas.py: the instructions that cost nothing stop the frame.
use ethereum_blockchain.Prelude.{
  ℕ, ◌≤◌, ◌≡◌, refl, Bool, true, false, [], ◌∷◌, some, inl, inr, Bool-cases, arith, ltb, ◌==◌, ◌||◌,
  ◌&&◌,
}
use mathlib.Core.Logic.{◌⊎◌}
use ethereum_blockchain.Prelude.Dict.{Dict, lookup, nat_eq}
use ethereum_blockchain.Evm.State.{
  Frame, Host, Result, ok, err, Action, ⊤, modify, ◌>>=◌, ◌>>◌, continue, consume_gas,
}
use ethereum_blockchain.Evm.Gas.{is_push, is_dup, is_swap, gas_cost, gas_table, op_invalid}
use ethereum_blockchain.Evm.Handlers.{op_stop, op_return, op_revert}
use ethereum_blockchain.Evm.Calls.{Runner}
use ethereum_blockchain.Evm.Execute.{handlers, call_handler, dispatch, advance, instruction}

-- A test that every entry of a table passes.
unfoldable pub check_all : {V : Type 0} → (ℕ → V → Bool) → Dict ℕ V → Bool
check_all check [] = true
check_all check ((k, v) ∷ d) = check k v && check_all check d

pub check_all-lookup :
    {V : Type 0} (check : ℕ → V → Bool) (k : ℕ) (v : V) (d : Dict ℕ V)
    → check_all check d ≡ true
    → lookup k d ≡ some v
    → check k v ≡ true
unfolding lookup check_all
check_all-lookup check k v [] h e = absurd cc
check_all-lookup check k v ((j, w) ∷ d) h e = elim (Bool-cases (j == k)) [
  | inl same ↦
      let found : w ≡ v = ground arith in
      let key : j ≡ k = ground arith in rw (← found, ← key) (ground arith)
  | inr other ↦ check_all-lookup check k v d (ground arith) (rw other at e)
]

-- STOP, RETURN, REVERT and INVALID.
abbrev pub is_halting : ℕ → Bool
is_halting op = (op == 0x00) || (op == 0xf3) || (op == 0xfd) || (op == op_invalid)

only_halting_is_free : check_all (λ op cost. ltb 0 cost || is_halting op) gas_table ≡ true
unfolding check_all
only_halting_is_free = refl

pub costs_or_halts : (op cost : ℕ) → gas_cost op ≡ some cost → (ltb 0 cost || is_halting op) ≡ true
unfolding gas_cost
costs_or_halts op cost e = elim (Bool-cases (is_push op)) [
  | inl push ↦ flat (rw push at e)
  | inr p ↦ elim (Bool-cases (is_dup op)) [
    | inl dup ↦ flat (rw (p, dup) at e)
    | inr d ↦ elim (Bool-cases (is_swap op)) [
      | inl swap ↦ flat (rw (p, d, swap) at e)
      | inr s ↦
          check_all-lookup (λ op cost. ltb 0 cost || is_halting op) op cost gas_table
            only_halting_is_free (rw (p, d, s) at e)
    ]
  ]
]
  where
    flat : some 3 ≡ some cost → (ltb 0 cost || is_halting op) ≡ true
    flat h = let three : 3 ≡ cost = ground arith in rw (← three) refl

-- An action that stops the frame if it does not raise.
record Halts {A : Type 0} (m : Action A) : Type 0 where
  stops : (e : Frame) (a : A) → (m e).0 ≡ ok a → (m e).1.stopped ≡ true

>>=-Halts :
    {A B : Type 0} (m : Action A) (f : A → Action B) → ((a : A) → Halts (f a)) → Halts (m >>= f)
unfolding ◌>>=◌
>>=-Halts {A} {B} m f h = record { stops = λ e b. go (m e) b }
  where
    go : (r : Result A × Frame) (b : B) → (continue r f).0 ≡ ok b → (continue r f).1.stopped ≡ true
    go (ok a, e) b p = (h a).stops e b p
    go (err x, e) b p = absurd (ground arith)

op_stop-Halts : Halts op_stop
unfolding op_stop modify
op_stop-Halts = record { stops = λ e a p. refl }

modify-Halts : (f : Frame → Frame) → ((e : Frame) → (f e).stopped ≡ true) → Halts (modify f)
unfolding modify
modify-Halts f h = record { stops = λ e a p. h e }

module _ (host : Host) (run : Runner) where
  op_return-Halts : Halts (op_return host)
  unfolding op_return
  op_return-Halts =
      >>=-Halts _ _
        λ offset. >>=-Halts _ _ λ size. >>=-Halts _ _ λ output. modify-Halts _ (λ e. refl)

  op_revert-Halts : Halts (op_revert host)
  unfolding op_revert
  op_revert-Halts =
      >>=-Halts _ _
        λ offset. >>=-Halts _ _ λ size. >>=-Halts _ _ λ output. modify-Halts _ (λ e. refl)

  dispatch-Halts :
      (op : ℕ) → is_halting op ≡ true → (op == op_invalid) ≡ false → Halts (dispatch host run op)
  unfolding dispatch handlers lookup call_handler
  dispatch-Halts op h valid = elim (Bool-cases (op == 0x00)) [
    | inl e ↦ let is : op ≡ 0x00 = ground arith in rw is (record { stops = op_stop-Halts.stops })
    | inr ne ↦ elim (Bool-cases (op == 0xf3)) [
      | inl e ↦
          let is : op ≡ 0xf3 = ground arith in rw is (record { stops = op_return-Halts.stops })
      | inr ne' ↦
          let is : op ≡ 0xfd = ground arith in rw is (record { stops = op_revert-Halts.stops })
    ]
  ]

-- An instruction that does not raise makes the frame cheaper by a unit at least, or stops it.
pub instruction_progress :
    (host : Host) (run : Runner) (op cost : ℕ) (e : Frame) (a : ⊤)
    → gas_cost op ≡ some cost
    → (op == op_invalid) ≡ false
    → (instruction host run op cost e).0 ≡ ok a
    → (1 ≤ cost) ⊎ ((instruction host run op cost e).1.stopped ≡ true)
unfolding instruction
instruction_progress host run op cost e a known valid p = elim (Bool-cases (ltb 0 cost)) [
  | inl costs ↦ inl (ground arith)
  | inr free ↦
      let halting : is_halting op ≡ true = let h = costs_or_halts op cost known in rw free at h in
      let halts =
        >>=-Halts (consume_gas cost) (λ _. modify advance >> dispatch host run op)
          λ _.
            >>=-Halts (modify advance) (λ _. dispatch host run op)
              λ _. dispatch-Halts host run op halting valid in
      inr (halts.stops e a p)
]
