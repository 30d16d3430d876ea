-- ===== src/Contracts/Abi.antt =====
-- contracts/abi.py, and `decode_uint256` of scenarios/03_token.py. A signature is given as the bytes of
-- its text. `none` is a ValueError; a negative number has no counterpart.
use ethereum_blockchain.Prelude.{
  ℕ, ◌-◌, ◌^◌, List, [], ◌∷◌, ◌++◌, Option, none, some, leb, ◌==◌, not, if◌then◌else◌, length, take,
  replicate,
}
use ethereum_blockchain.Bytes.{Bytes, digits, from_bytes}

unfoldable pub compute_selector : (Bytes → Bytes) → Bytes → Bytes
compute_selector keccak256 signature = take 4 (keccak256 signature)

unfoldable pub encode_uint256 : ℕ → Option Bytes
encode_uint256 value = if leb (2 ^ 256) value then none else some (digits 32 value)

-- `addr.rjust(32, b'\x00')` of an address of 20 bytes.
unfoldable pub encode_address : Bytes → Option Bytes
encode_address addr =
    if not (length addr == 20) then none else some (replicate (32 - length addr) 0 ++ addr)

abbrev pub join : List Bytes → Bytes
join [] = []
join (bs ∷ rest) = bs ++ join rest

unfoldable pub encode_call : Bytes → List Bytes → Bytes
encode_call selector args = selector ++ join args

unfoldable pub decode_uint256 : Bytes → ℕ
decode_uint256 bs = from_bytes (take 32 bs)
