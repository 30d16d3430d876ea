-- ===== src/Contracts/Defs.antt =====
-- contracts/counter.py and contracts/token.py: the runtime code, and the functions that build calldata.
use ethereum_blockchain.Prelude.{ℕ, [], ◌∷◌, Option, some}
use ethereum_blockchain.Prelude.Maybe.{◌>>=◌}
use ethereum_blockchain.Bytes.{Bytes}
use ethereum_blockchain.Contracts.Abi.{
  compute_selector, encode_uint256, encode_address, encode_call,
}

-- "increment()"
abbrev pub increment_signature : Bytes
increment_signature = 105 ∷ 110 ∷ 99 ∷ 114 ∷ 101 ∷ 109 ∷ 101 ∷ 110 ∷ 116 ∷ 40 ∷ 41 ∷ []

-- "getCount()"
abbrev pub get_count_signature : Bytes
get_count_signature = 103 ∷ 101 ∷ 116 ∷ 67 ∷ 111 ∷ 117 ∷ 110 ∷ 116 ∷ 40 ∷ 41 ∷ []

-- "transfer(address,uint256)"
abbrev pub transfer_signature : Bytes
transfer_signature =
    116 ∷ 114 ∷ 97 ∷ 110 ∷ 115 ∷ 102 ∷ 101 ∷ 114 ∷ 40 ∷ 97 ∷ 100 ∷ 100 ∷ 114 ∷ 101 ∷ 115 ∷ 115 ∷ 44
    ∷ 117 ∷ 105 ∷ 110 ∷ 116 ∷ 50 ∷ 53 ∷ 54 ∷ 41 ∷ []

-- "balanceOf(address)"
abbrev pub balance_of_signature : Bytes
balance_of_signature =
    98 ∷ 97 ∷ 108 ∷ 97 ∷ 110 ∷ 99 ∷ 101 ∷ 79 ∷ 102 ∷ 40 ∷ 97 ∷ 100 ∷ 100 ∷ 114 ∷ 101 ∷ 115 ∷ 115
    ∷ 41 ∷ []

-- COUNTER_RUNTIME_BYTECODE
abbrev pub counter_runtime_bytecode : Bytes
counter_runtime_bytecode =
    -- the selector
    0x7f ∷ 0 ∷ 0 ∷ 0 ∷ 1 ∷ 0 ∷ 0 ∷ 0 ∷ 0 ∷ 0 ∷ 0 ∷ 0 ∷ 0 ∷ 0 ∷ 0 ∷ 0 ∷ 0 ∷ 0 ∷ 0 ∷ 0 ∷ 0 ∷ 0 ∷ 0 ∷ 0
    ∷ 0 ∷ 0 ∷ 0 ∷ 0 ∷ 0 ∷ 0 ∷ 0 ∷ 0 ∷ 0 ∷ 0x60 ∷ 0x00 ∷ 0x35 ∷ 0x04 ∷ 0x80 ∷ 0x63 ∷ 0xd0 ∷ 0x9d
    ∷ 0xe0 ∷ 0x8a ∷ 0x14 ∷ 0x60 ∷ 0x3f ∷ 0x57 ∷ 0x80 ∷ 0x63 ∷ 0xa8 ∷ 0x7d ∷ 0x94 ∷ 0x2c ∷ 0x14
    ∷ 0x60 ∷ 0x4b ∷ 0x57 ∷ 0x50 ∷ 0x60 ∷ 0x00 ∷ 0x60 ∷ 0x00 ∷ 0xfd
    -- increment()
    ∷ 0x5b ∷ 0x50 ∷ 0x60 ∷ 0x00 ∷ 0x54 ∷ 0x60 ∷ 0x01 ∷ 0x01 ∷ 0x60 ∷ 0x00 ∷ 0x55 ∷ 0x00
    -- getCount()
    ∷ 0x5b ∷ 0x50 ∷ 0x60 ∷ 0x00 ∷ 0x54 ∷ 0x60 ∷ 0x00 ∷ 0x52 ∷ 0x60 ∷ 0x20 ∷ 0x60 ∷ 0x00 ∷ 0xf3 ∷ []

-- TOKEN_RUNTIME_BYTECODE
abbrev pub token_runtime_bytecode : Bytes
token_runtime_bytecode =
    -- the selector
    0x7f ∷ 0 ∷ 0 ∷ 0 ∷ 1 ∷ 0 ∷ 0 ∷ 0 ∷ 0 ∷ 0 ∷ 0 ∷ 0 ∷ 0 ∷ 0 ∷ 0 ∷ 0 ∷ 0 ∷ 0 ∷ 0 ∷ 0 ∷ 0 ∷ 0 ∷ 0 ∷ 0
    ∷ 0 ∷ 0 ∷ 0 ∷ 0 ∷ 0 ∷ 0 ∷ 0 ∷ 0 ∷ 0 ∷ 0x60 ∷ 0x00 ∷ 0x35 ∷ 0x04 ∷ 0x80 ∷ 0x63 ∷ 0xa9 ∷ 0x05
    ∷ 0x9c ∷ 0xbb ∷ 0x14 ∷ 0x60 ∷ 0x3f ∷ 0x57 ∷ 0x80 ∷ 0x63 ∷ 0x70 ∷ 0xa0 ∷ 0x82 ∷ 0x31 ∷ 0x14
    ∷ 0x60 ∷ 0x62 ∷ 0x57 ∷ 0x50 ∷ 0x60 ∷ 0x00 ∷ 0x60 ∷ 0x00 ∷ 0xfd
    -- transfer(address,uint256)
    ∷ 0x5b ∷ 0x50 ∷ 0x60 ∷ 0x04 ∷ 0x35 ∷ 0x60 ∷ 0x24 ∷ 0x35 ∷ 0x33 ∷ 0x80 ∷ 0x54 ∷ 0x82 ∷ 0x81
    ∷ 0x10 ∷ 0x60 ∷ 0x5c ∷ 0x57 ∷ 0x82 ∷ 0x90 ∷ 0x03 ∷ 0x90 ∷ 0x55 ∷ 0x81 ∷ 0x54 ∷ 0x01 ∷ 0x81
    ∷ 0x55 ∷ 0x50 ∷ 0x00
    -- revert
    ∷ 0x5b ∷ 0x60 ∷ 0x00 ∷ 0x60 ∷ 0x00 ∷ 0xfd
    -- balanceOf(address)
    ∷ 0x5b ∷ 0x50 ∷ 0x60 ∷ 0x04 ∷ 0x35 ∷ 0x54 ∷ 0x60 ∷ 0x00 ∷ 0x52 ∷ 0x60 ∷ 0x20 ∷ 0x60 ∷ 0x00
    ∷ 0xf3 ∷ []

unfoldable pub encode_increment : (Bytes → Bytes) → Bytes
encode_increment keccak256 = compute_selector keccak256 increment_signature

unfoldable pub encode_get_count : (Bytes → Bytes) → Bytes
encode_get_count keccak256 = compute_selector keccak256 get_count_signature

-- `none` is a ValueError of one of the two encodings.
unfoldable pub encode_transfer : (Bytes → Bytes) → Bytes → ℕ → Option Bytes
encode_transfer keccak256 to_address amount = do
  to_word ← encode_address to_address
  amount_word ← encode_uint256 amount
  some (encode_call (compute_selector keccak256 transfer_signature) (to_word ∷ amount_word ∷ []))

unfoldable pub encode_balance_of : (Bytes → Bytes) → Bytes → Option Bytes
encode_balance_of keccak256 address = do
  word ← encode_address address
  some (encode_call (compute_selector keccak256 balance_of_signature) (word ∷ []))
