-- ===== src/Contracts/Calldata.antt =====
-- contracts/abi.py and contracts/token.py: what the contract reads back from the calldata.
use ethereum_blockchain.Prelude.{
  ℕ, ◌^◌, ◌<◌, ◌≡◌, refl, ◌∙◌, false, [], ◌++◌, some, arith, leb, length, length-append, replicate,
  take,
}
use ethereum_blockchain.Bytes.{
  Bytes, digits, from_bytes, from_bytes-digits, length-digits, window, window-append_left,
  window-append_right,
}
use ethereum_blockchain.Contracts.Abi.{
  compute_selector, encode_uint256, encode_address, encode_call,
}
use ethereum_blockchain.Contracts.Defs.{transfer_signature, encode_transfer}
use ethereum_blockchain.Contracts.Selector.{selector_bytes}
use ethereum_blockchain.Contracts.Token.{transfer_selector}
use ethereum_blockchain.Contracts.Ledger.{transfer_call, token_call}

address_word : Bytes → Bytes
address_word address = replicate 12 0 ++ address

from_bytes-address_word : (address : Bytes) → from_bytes (address_word address) ≡ from_bytes address
unfolding address_word from_bytes
from_bytes-address_word address = refl

some-address :
    (address : Bytes) → length address ≡ 20 → encode_address address ≡ some (address_word address)
unfolding encode_address address_word
some-address address h = rw h refl

some-uint256 : (value : ℕ) → value < 2 ^ 256 → encode_uint256 value ≡ some (digits 32 value)
unfolding encode_uint256
some-uint256 value h = let small : leb (2 ^ 256) value ≡ false = ground arith in rw small refl

length-address_word : (address : Bytes) → length address ≡ 20 → length (address_word address) ≡ 32
unfolding address_word
length-address_word address h = rw h refl

length-args :
    (to : Bytes) (amount : ℕ)
    → length to ≡ 20
    → length (selector_bytes transfer_selector ++ (address_word to ++ (digits 32 amount ++ [])))
      ≡ 68
length-args to amount h = omega (
  arith,
  length-append (address_word to) (digits 32 amount ++ []),
  length-append (digits 32 amount) [],
  length-address_word to h,
  length-digits 32 amount,
)

-- The selector, whatever the arguments.
transfer_word :
    (args : Bytes) → from_bytes (window (selector_bytes transfer_selector ++ args) 0 4) ≡ 0xa9059cbb
unfolding window from_bytes
transfer_word args = refl

-- encode_transfer of an address of 20 bytes and an amount below 2^256 succeeds with 68 bytes, in
-- which the token reads a transfer of that amount to that address, if the hash of the signature
-- starts with the selector in the token's bytecode.
pub token_call-encode_transfer :
    (keccak256 : Bytes → Bytes) (to : Bytes) (amount : ℕ)
    → take 4 (keccak256 transfer_signature) ≡ selector_bytes transfer_selector
    → length to ≡ 20
    → amount < 2 ^ 256
    → (calldata : Bytes) × (encode_transfer keccak256 to amount ≡ some calldata)
      × (length calldata ≡ 68)
      × (token_call calldata ≡ transfer_call (from_bytes to) amount)
unfolding encode_transfer encode_call compute_selector
token_call-encode_transfer keccak256 to amount selector size word =
    let args = address_word to ++ (digits 32 amount ++ []) in
    let calldata = selector_bytes transfer_selector ++ args in
    let made : encode_transfer keccak256 to amount ≡ some calldata =
      rw (some-address to size, some-uint256 amount word, selector) refl in
    let first = length-address_word to size in
    let second = length-digits 32 amount in
    let to_word : window calldata 4 32 ≡ address_word to =
      window-append_right (selector_bytes transfer_selector) args 0 32
      ∙ rw first at (window-append_left (address_word to) (digits 32 amount ++ [])) in
    let rest : window args 32 32 ≡ window (digits 32 amount ++ []) 0 32 =
      rw first at (window-append_right (address_word to) (digits 32 amount ++ []) 0 32) in
    let amount_word : window calldata 36 32 ≡ digits 32 amount =
      window-append_right (selector_bytes transfer_selector) args 32 32
      ∙ rest
      ∙ rw second at (window-append_left (digits 32 amount) []) in
    (
      calldata,
      made,
      length-args to amount size,
      rw
          (
            transfer_word args,
            to_word,
            amount_word,
            from_bytes-address_word to,
            from_bytes-digits 32 amount word,
          )
          refl,
    )
