-- ===== src/Chain/Tests.antt =====
-- chain/blockchain.py on a chain of one and two blocks, hashed by the identity.
use ethereum_blockchain.Prelude.{
  ◌+◌, ◌<◌, ◌≤◌, ◌^◌, ◌≡◌, ◌↔◌, ◌⊎◌, refl, true, [], ◌∷◌, none, some, arith, length,
}
use ethereum_blockchain.Bytes.{Bytes, digits, byte_length}
use ethereum_blockchain.Rlp.{list, rlp_encode, encode_string, encode_payload, int_to_rlp_bytes}
use ethereum_blockchain.Transaction.Tests.{payment}
use ethereum_blockchain.Chain.Defs.{
  Block, Blockchain, header_fields, last_of, appended, block_hash, create_block,
  create_genesis_block, new_blockchain, latest, height, append_block, get_block_by_number,
  validate_chain,
}
use ethereum_blockchain.Chain.Linked.{IsChain, genesis-IsChain}
use ethereum_blockchain.Chain.Append.{
  append_block-IsChain, append_block-create_block, get_block_by_number_cases,
}
use ethereum_blockchain.Chain.Replaced.{replaced, validate_chain-replaced}
use ethereum_blockchain.Chain.Tamper.{block_hash-injective}

abbrev keccak256 : Bytes → Bytes
keccak256 bs = bs

abbrev genesis : Block
genesis = create_genesis_block keccak256 (7 ∷ []) 0

abbrev one : Blockchain
one = new_blockchain keccak256 genesis

one-IsChain : IsChain keccak256 one
one-IsChain = genesis-IsChain keccak256 (7 ∷ []) 0

abbrev block : Block
block = create_block keccak256 genesis (payment ∷ []) (8 ∷ []) 5

abbrev two : Blockchain
two = record {
  genesis = genesis;
  later = block ∷ [];
  genesis_hash = block_hash keccak256 genesis;
  later_hashes = block_hash keccak256 block ∷ [];
}

grown_to_two : append_block keccak256 block one ≡ appended (block_hash keccak256 block) two
unfolding append_block create_block create_genesis_block new_blockchain block_hash latest height
    last_of rlp_encode encode_string encode_payload int_to_rlp_bytes
grown_to_two = refl

append_block-IsChain_example :
    IsChain keccak256 two
    × (latest keccak256 two ≡ block)
    × (block_hash keccak256 block ≡ block_hash keccak256 block)
append_block-IsChain_example = append_block-IsChain keccak256 one one-IsChain block grown_to_two

append_block-create_block_example :
    let b = create_block keccak256 (latest keccak256 one) (payment ∷ []) (8 ∷ []) 5 in
    (c' : Blockchain) × (append_block keccak256 b one ≡ appended (block_hash keccak256 b) c')
    × IsChain keccak256 c'
    × (height keccak256 c' ≡ height keccak256 one + 1)
append_block-create_block_example =
    append_block-create_block keccak256 one one-IsChain (payment ∷ []) (8 ∷ []) 5

two-IsChain : IsChain keccak256 two
two-IsChain = (append_block-IsChain keccak256 one one-IsChain block grown_to_two).0

abbrev forged : Block
forged = create_genesis_block keccak256 (9 ∷ []) 0

validate_chain-replaced_example :
    (validate_chain keccak256 (replaced 0 forged two) ≡ true)
    ↔ (block_hash keccak256 forged ≡ block_hash keccak256 genesis)
unfolding create_genesis_block
validate_chain-replaced_example =
    validate_chain-replaced keccak256 forged genesis block two 0 two-IsChain refl refl refl

get_block_by_number_cases_example :
    ((height keccak256 two < 1) × (get_block_by_number keccak256 1 two ≡ none))
    ⊎ ((1 ≤ height keccak256 two)
        × ((b : Block) × (get_block_by_number keccak256 1 two ≡ some b) × (b.header.number ≡ 1)))
get_block_by_number_cases_example = get_block_by_number_cases keccak256 two two-IsChain 1

genesis_is_small : length (rlp_encode (list (header_fields genesis.header))) < 256 ^ 8
unfolding create_genesis_block rlp_encode encode_string encode_payload int_to_rlp_bytes digits
    byte_length
genesis_is_small = omega arith

block_hash-injective_example : genesis.header ≡ genesis.header
block_hash-injective_example =
    block_hash-injective keccak256 genesis genesis (λ e. refl) genesis_is_small refl
