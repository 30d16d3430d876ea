-- ===== src/Evm/Intrinsic.antt =====
-- evm/gas.py, `calculate_intrinsic_gas`, in closed form.
use ethereum_blockchain.Prelude.{
  ℕ, ◌+◌, ◌*◌, ◌≡◌, [], ◌∷◌, Bool-cases, inl, inr, arith, ◌==◌, if◌then◌else◌, length,
}
use ethereum_blockchain.Bytes.{Bytes}
use ethereum_blockchain.Evm.Gas.{calldata_gas, calculate_intrinsic_gas}

-- The number of zero bytes.
pub zeros : Bytes → ℕ
zeros [] = 0
zeros (b ∷ bs) = if b == 0 then 1 + zeros bs else zeros bs

calldata_gas-zeros :
    (gas : ℕ) (bs : Bytes) → calldata_gas gas bs + 12 * zeros bs ≡ gas + 16 * length bs
unfolding calldata_gas zeros
calldata_gas-zeros gas [] = omega arith
calldata_gas-zeros gas (b ∷ bs) = elim (Bool-cases (b == 0)) [
  | inl zero_byte ↦ rw zero_byte (omega (arith, calldata_gas-zeros (gas + 4) bs))
  | inr other ↦ rw other (omega (arith, calldata_gas-zeros (gas + 16) bs))
]

-- The intrinsic gas is 21000, and 16 for each byte of the data, less 12 for each that is zero.
pub calculate_intrinsic_gas-zeros :
    (bs : Bytes) → calculate_intrinsic_gas bs + 12 * zeros bs ≡ 21000 + 16 * length bs
unfolding calculate_intrinsic_gas
calculate_intrinsic_gas-zeros bs = calldata_gas-zeros 21000 bs
