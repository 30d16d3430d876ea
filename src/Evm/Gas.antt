-- ===== src/Evm/Gas.antt =====
-- evm/opcodes.py and evm/gas.py: the opcodes and what each costs.
use ethereum_blockchain.Prelude.{
  ℕ, ◌+◌, Bool, [], ◌∷◌, Option, some, leb, ◌==◌, ◌&&◌, if◌then◌else◌,
}
use ethereum_blockchain.Prelude.Dict.{Dict, lookup, nat_eq}
use ethereum_blockchain.Bytes.{Bytes}

abbrev pub gas_create : ℕ
gas_create = 32000

abbrev pub gas_sstore : ℕ
gas_sstore = 5000

abbrev pub gas_sload : ℕ
gas_sload = 100

abbrev pub gas_call_base : ℕ
gas_call_base = 100

abbrev pub op_invalid : ℕ
op_invalid = 0xfe

abbrev pub opcode_jumpdest : ℕ
opcode_jumpdest = 0x5b

-- The families PUSH1 to PUSH32, DUP1 to DUP16 and SWAP1 to SWAP16.
abbrev pub is_push : ℕ → Bool
is_push op = leb 0x60 op && leb op 0x7f

abbrev pub is_dup : ℕ → Bool
is_dup op = leb 0x80 op && leb op 0x8f

abbrev pub is_swap : ℕ → Bool
is_swap op = leb 0x90 op && leb op 0x9f

-- The literal entries of `GAS_COSTS`, in its order.
abbrev pub gas_table : Dict ℕ ℕ
gas_table =
    (0x00, 0)
    ∷ (0x01, 3)
    ∷ (0x02, 5)
    ∷ (0x03, 3)
    ∷ (0x04, 5)
    ∷ (0x06, 5)
    ∷ (0x0a, 10)
    ∷ (0x10, 3)
    ∷ (0x11, 3)
    ∷ (0x14, 3)
    ∷ (0x15, 3)
    ∷ (0x16, 3)
    ∷ (0x17, 3)
    ∷ (0x19, 3)
    ∷ (0x20, 30)
    ∷ (0x30, 2)
    ∷ (0x33, 2)
    ∷ (0x34, 2)
    ∷ (0x35, 3)
    ∷ (0x36, 2)
    ∷ (0x37, 3)
    ∷ (0x38, 2)
    ∷ (0x39, 3)
    ∷ (0x50, 2)
    ∷ (0x51, 3)
    ∷ (0x52, 3)
    ∷ (0x53, 3)
    ∷ (0x54, gas_sload)
    ∷ (0x55, gas_sstore)
    ∷ (0x56, 8)
    ∷ (0x57, 10)
    ∷ (0x59, 2)
    ∷ (0x5a, 2)
    ∷ (0x5b, 1)
    ∷ (0xf0, gas_create)
    ∷ (0xf1, gas_call_base)
    ∷ (0xf3, 0)
    ∷ (0xfd, 0)
    ∷ (op_invalid, 0)
    ∷ []

-- `GAS_COSTS.get(opcode)`, after the three loops that add the families.
unfoldable pub gas_cost : ℕ → Option ℕ
unfolding lookup
gas_cost op =
    if is_push op
    then some 3
    else if is_dup op
    then some 3
    else if is_swap op
    then some 3
    else lookup op gas_table

-- `calculate_intrinsic_gas`, which core/tx_validator.py repeats with the numbers written out.
unfoldable pub calldata_gas : ℕ → Bytes → ℕ
calldata_gas gas [] = gas
calldata_gas gas (b ∷ bs) = calldata_gas (if b == 0 then gas + 4 else gas + 16) bs

unfoldable pub calculate_intrinsic_gas : Bytes → ℕ
unfolding calldata_gas
calculate_intrinsic_gas bs = calldata_gas 21000 bs
