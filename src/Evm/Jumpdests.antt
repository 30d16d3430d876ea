-- ===== src/Evm/Jumpdests.antt =====
-- evm/vm.py, `_find_jumpdests`: the scan for valid jump targets.
use ethereum_blockchain.Prelude.{
  ℕ, zero, suc, ◌+◌, ◌-◌, Bool, List, [], ◌∷◌, none, some, false, ◌==◌, ◌||◌, if◌then◌else◌, length,
  get_elem?,
}
use ethereum_blockchain.Bytes.{Bytes}
use ethereum_blockchain.Evm.Gas.{is_push, opcode_jumpdest}

-- Where the next instruction starts: past the opcode and its PUSH data.
abbrev pub next_instruction : ℕ → ℕ → ℕ
next_instruction opcode pc = if is_push opcode then pc + (opcode - 0x60 + 1) + 1 else pc + 1

-- The loop, on fuel: each round moves `pc` on, so the length of the code is enough.
unfoldable pub scan_jumpdests : ℕ → Bytes → ℕ → List ℕ
scan_jumpdests zero code pc = []
scan_jumpdests (suc f) code pc = elim (get_elem? code pc) [
  | none ↦ []
  | some opcode ↦
      let rest = scan_jumpdests f code (next_instruction opcode pc) in
      if opcode == opcode_jumpdest then pc ∷ rest else rest
]

unfoldable pub find_jumpdests : Bytes → List ℕ
unfolding scan_jumpdests
find_jumpdests code = scan_jumpdests (length code) code 0

-- `destination in self.valid_jumpdests`
unfoldable pub is_member : ℕ → List ℕ → Bool
is_member a [] = false
is_member a (b ∷ bs) = (a == b) || is_member a bs
