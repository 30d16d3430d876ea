-- ===== src/Evm/Targets.antt =====
-- evm/vm.py, `_find_jumpdests`: the valid jump targets are the JUMPDEST bytes where an instruction
-- starts.
use ethereum_blockchain.Prelude.{
  ℕ, zero, suc, ◌+◌, ◌-◌, ◌<◌, ◌≤◌, ◌≡◌, ◌↔◌, ◌⊎◌, ap, ◌∙◌, true, some, Option-cases, inl, inr,
  Bool-cases, arith, ◌==◌, length, get_elem?, lt_of_get_elem?,
}
use mathlib.Core.Path.{subst}
use native.Mathlib.Decide.{dec_lt}
use ethereum_blockchain.Bytes.{Bytes}
use ethereum_blockchain.Evm.Gas.{opcode_jumpdest}
use ethereum_blockchain.Evm.Jumpdests.{next_instruction, scan_jumpdests, find_jumpdests, is_member}

-- `d` is reached from `pc` by going from one instruction to the next: PUSHn, opcode 0x5f + n, is
-- followed by n bytes of data, and any other instruction by the next one.
pub data Starts (code : Bytes) : ℕ → ℕ → Type 0 where
  here : (pc : ℕ) → Starts code pc pc
  past_push :
      (pc n d : ℕ)
      → 1 ≤ n
      → n ≤ 32
      → get_elem? code pc ≡ some (0x5f + n)
      → Starts code (pc + 1 + n) d
      → Starts code pc d
  past_other :
      (pc op d : ℕ)
      → (op < 0x60) ⊎ (0x7f < op)
      → get_elem? code pc ≡ some op
      → Starts code (pc + 1) d
      → Starts code pc d

next_instruction_push : (n pc : ℕ) → 1 ≤ n → n ≤ 32 → next_instruction (0x5f + n) pc ≡ pc + 1 + n
next_instruction_push n pc one most = ground arith

next_instruction_other : (op pc : ℕ) → (op < 0x60) ⊎ (0x7f < op) → next_instruction op pc ≡ pc + 1
next_instruction_other op pc (inl lt) = ground arith
next_instruction_other op pc (inr gt) = ground arith

-- The step that the scan takes.
step :
    (code : Bytes) (pc op d : ℕ)
    → get_elem? code pc ≡ some op
    → Starts code (next_instruction op pc) d
    → Starts code pc d
step code pc op d e s = elim (dec_lt op 0x60) [
  | yes lt ↦
      past_other pc op d (inl lt) e
        (subst (λ p. Starts code p d) (next_instruction_other op pc (inl lt)) s)
  | no ge ↦ elim (dec_lt 0x7f op) [
    | yes gt ↦
        past_other pc op d (inr gt) e
          (subst (λ p. Starts code p d) (next_instruction_other op pc (inr gt)) s)
    | no le ↦
        let n = op - 0x5f in
        let is : op ≡ 0x5f + n = omega arith in
        past_push pc n d (omega arith) (omega arith) (e ∙ ap some is) (
          subst (λ p. Starts code p d)
            (ap (λ o. next_instruction o pc) is
              ∙ next_instruction_push n pc (omega arith) (omega arith))
            s)
  ]
]

scan-Starts :
    (f : ℕ) (code : Bytes) (pc d : ℕ)
    → is_member d (scan_jumpdests f code pc) ≡ true
    → Starts code pc d × (get_elem? code d ≡ some opcode_jumpdest)
unfolding scan_jumpdests is_member
scan-Starts zero code pc d h = absurd cc
scan-Starts (suc f) code pc d h = elim (Option-cases (get_elem? code pc)) [
  | inl e ↦ absurd (let bad = rw (e, scan_jumpdests) at h in cc)
  | inr (op, e) ↦ elim (Bool-cases (op == opcode_jumpdest)) [
    | inl target ↦ elim (Bool-cases (d == pc)) [
      | inl same ↦
          let there : d ≡ pc = ground arith in
          let is : op ≡ opcode_jumpdest = ground arith in rw there (here pc, rw is at e)
      | inr other ↦
          let (s, j) =
            scan-Starts f code (next_instruction op pc) d
              (rw (e, target, other, scan_jumpdests) at h) in
          (step code pc op d e s, j)
    ]
    | inr no_target ↦
        let (s, j) =
          scan-Starts f code (next_instruction op pc) d (rw (e, no_target, scan_jumpdests) at h) in
        (step code pc op d e s, j)
  ]
]

-- What the scan finds after an instruction, it finds at that instruction.
scan_on :
    (f : ℕ) (code : Bytes) (pc op d : ℕ)
    → get_elem? code pc ≡ some op
    → is_member d (scan_jumpdests f code (next_instruction op pc)) ≡ true
    → is_member d (scan_jumpdests (suc f) code pc) ≡ true
unfolding scan_jumpdests is_member
scan_on f code pc op d e found = elim (Bool-cases (op == opcode_jumpdest)) [
  | inl target ↦ rw (e, target, scan_jumpdests) (ground arith)
  | inr no_target ↦ rw (e, no_target, scan_jumpdests) found
]

Starts-scan :
    (f : ℕ) (code : Bytes) (pc d : ℕ)
    → Starts code pc d
    → get_elem? code d ≡ some opcode_jumpdest
    → length code ≤ pc + f
    → is_member d (scan_jumpdests f code pc) ≡ true
unfolding scan_jumpdests is_member
Starts-scan zero code _ _ (here pc) j enough = absurd (omega (arith, lt_of_get_elem? code pc j))
Starts-scan zero code _ _ (past_push pc n d one most e s) j enough =
    absurd (omega (arith, lt_of_get_elem? code pc e))
Starts-scan zero code _ _ (past_other pc op d other e s) j enough =
    absurd (omega (arith, lt_of_get_elem? code pc e))
Starts-scan (suc f) code _ _ (here pc) j enough = rw (j, scan_jumpdests) (ground arith)
Starts-scan (suc f) code _ _ (past_push pc n d one most e s) j enough =
    scan_on f code pc (0x5f + n) d e (
      rw (next_instruction_push n pc one most)
        (Starts-scan f code (pc + 1 + n) d s j (omega arith)))
Starts-scan (suc f) code _ _ (past_other pc op d other e s) j enough =
    scan_on f code pc op d e
      (rw (next_instruction_other op pc other) (Starts-scan f code (pc + 1) d s j (omega arith)))

-- A jump to d is valid exactly where d is the start of an instruction and that instruction is
-- JUMPDEST. Instructions start at 0 and, after PUSHn, past its n bytes of data, or after any other
-- instruction at the next byte.
pub find_jumpdests-Starts :
    (code : Bytes) (d : ℕ)
    → (is_member d (find_jumpdests code) ≡ true)
      ↔ (Starts code 0 d × (get_elem? code d ≡ some opcode_jumpdest))
unfolding find_jumpdests
find_jumpdests-Starts code d = (
  scan-Starts (length code) code 0 d,
  λ h. Starts-scan (length code) code 0 d h.0 h.1 (omega arith),
)
