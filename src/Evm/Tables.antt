-- ===== src/Evm/Tables.antt =====
-- evm/gas.py and evm/vm.py: the table of costs and the table of handlers.
use ethereum_blockchain.Prelude.{
  ℕ, ◌+◌, ◌-◌, ◌≤◌, ◌≡◌, ◌≢◌, refl, ap, Bool, true, false, none, some, Option-cases, ◌⊎◌, inl, inr,
  Bool-cases, ◌==◌, ◌||◌, ◌&&◌, not, arith,
}
use ethereum_blockchain.Prelude.Dict.{Dict, lookup, contains, nat_eq}
use ethereum_blockchain.Evm.State.{Host, Frame, Action, ⊤, invalid_opcode, raise}
use ethereum_blockchain.Evm.Gas.{is_push, is_dup, is_swap, gas_cost, gas_table, op_invalid}
use ethereum_blockchain.Evm.Handlers.{op_push, op_dup, op_swap}
use ethereum_blockchain.Evm.Calls.{Runner}
use ethereum_blockchain.Evm.Execute.{handlers, call_handler, dispatch}
use ethereum_blockchain.Evm.Halting.{check_all, check_all-lookup}

untabled : {V : Type 0} (op : ℕ) (d : Dict ℕ V) → lookup op d ≡ none → contains op d ≡ false
unfolding contains
untabled op d e = rw (e, contains) refl

module _ (host : Host) (run : Runner) where
  -- How an opcode is dispatched: PUSHn, DUPn and SWAPn by their number, others by the table, and
  -- without a handler it is refused.
  pub data Dispatched (op : ℕ) : Type 0 where
    pushes :
        (n : ℕ) → 1 ≤ n → n ≤ 32 → op ≡ 0x5f + n → dispatch host run op ≡ op_push n → Dispatched op
    dups : (n : ℕ) → n ≤ 15 → op ≡ 0x80 + n → dispatch host run op ≡ op_dup n → Dispatched op
    swaps :
        (n : ℕ) → 1 ≤ n → n ≤ 16 → op ≡ 0x8f + n → dispatch host run op ≡ op_swap n → Dispatched op
    tabled :
        (handler : Action ⊤)
        → lookup op (handlers host run) ≡ some handler
        → dispatch host run op ≡ handler
        → Dispatched op

  pub Refused : ℕ → Type 0
  Refused op =
      (e : Frame) → dispatch host run op e ≡ raise (invalid_opcode op (e.program_counter - 1)) e

  in_table : ℕ → Bool
  in_table op = contains op (handlers host run) || (op == op_invalid)

  all_in_table : check_all (λ op cost. in_table op) gas_table ≡ true
  unfolding check_all in_table handlers contains lookup
  all_in_table = refl

  all_priced :
      check_all (λ op handler. contains op gas_table && not (op == op_invalid)) (handlers host run)
      ≡ true
  unfolding check_all handlers contains lookup
  all_priced = refl

  tabled_is_priced :
      (op : ℕ) (handler : Action ⊤)
      → lookup op (handlers host run) ≡ some handler
      → (contains op gas_table && not (op == op_invalid)) ≡ true
  tabled_is_priced op handler e =
      check_all-lookup (λ op handler. contains op gas_table && not (op == op_invalid)) op handler
        (handlers host run) all_priced e

  -- Of the opcodes outside the three families, those with a handler have a cost and are not INVALID,
  -- and those without have none or are INVALID.
  with_handler :
      (op : ℕ) (handler : Action ⊤)
      → lookup op (handlers host run) ≡ some handler
      → (lookup op gas_table ≢ none) × (op ≢ op_invalid)
  unfolding contains
  with_handler op handler e =
      let priced = tabled_is_priced op handler e in
      (
        λ none_there. let bad = rw (none_there, contains) at priced in cc,
        λ is. let bad = rw is at priced in ground arith,
      )

  without_handler :
      (op : ℕ)
      → lookup op (handlers host run) ≡ none
      → (lookup op gas_table ≡ none) ⊎ (op ≡ op_invalid)
  unfolding in_table
  without_handler op missing = elim (Option-cases (lookup op gas_table)) [
    | inl free ↦ inl free
    | inr (cost, e) ↦
        let found = check_all-lookup (λ op cost. in_table op) op cost gas_table all_in_table e in
        let absent = untabled op (handlers host run) missing in inr (ground arith)
  ]

  -- Either an opcode has a cost and is not INVALID, and dispatch then runs its handler: op_push,
  -- op_dup or op_swap with its number for PUSHn, DUPn or SWAPn, and the entry of the table for any
  -- other; or it has no cost or is INVALID, and dispatch would raise InvalidOpcode.
  pub dispatch_cases :
      (op : ℕ)
      → ((gas_cost op ≢ none) × (op ≢ op_invalid) × Dispatched op)
        ⊎ (((gas_cost op ≡ none) ⊎ (op ≡ op_invalid)) × Refused op)
  unfolding gas_cost dispatch call_handler Refused in_table contains
  dispatch_cases op = elim (Bool-cases (is_push op)) [
    | inl push ↦ inl (
      rw (push, gas_cost) (λ e. cc),
      (λ e. ground arith),
      pushes (op - 0x5f) (ground arith) (ground arith) (ground arith)
          (rw (push, dispatch) (ap op_push (ground arith))),
    )
    | inr p ↦ elim (Bool-cases (is_dup op)) [
      | inl dup ↦ inl (
        rw (p, dup, gas_cost) (λ e. cc),
        (λ e. ground arith),
        dups (op - 0x80) (ground arith) (ground arith) (rw (p, dup, dispatch) refl),
      )
      | inr d ↦ elim (Bool-cases (is_swap op)) [
        | inl swap ↦ inl (
          rw (p, d, swap, gas_cost) (λ e. cc),
          (λ e. ground arith),
          swaps (op - 0x8f) (ground arith) (ground arith) (ground arith)
              (rw (p, d, swap, dispatch) (ap op_swap (ground arith))),
        )
        | inr s ↦ elim (Option-cases (lookup op (handlers host run))) [
          | inl missing ↦ inr (
            rw (p, d, s, gas_cost) (without_handler op missing),
            λ e. rw (p, d, s, missing, dispatch) refl,
          )
          | inr (handler, e) ↦
              let (priced, valid) = with_handler op handler e in
              inl (
                rw (p, d, s, gas_cost) priced,
                valid,
                tabled handler e (rw (p, d, s, e, dispatch) refl),
              )
        ]
      ]
    ]
  ]
