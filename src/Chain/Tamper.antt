-- ===== src/Chain/Tamper.antt =====
-- chain/block.py, `block_hash`.
use ethereum_blockchain.Prelude.{◌<◌, ◌^◌, ◌≡◌, length}
use ethereum_blockchain.Bytes.{Bytes}
use ethereum_blockchain.Rlp.{list, rlp_encode}
use ethereum_blockchain.Rlp.RoundTrip.{rlp_encode-injective}
use ethereum_blockchain.Rlp.Ints.{int_to_rlp_bytes-injective}
use ethereum_blockchain.Chain.Defs.{Block, header_fields, block_hash}

-- Two blocks with the same hash have the same header, if the hash does not collide on the two
-- encoded headers and the first encoding is shorter than 256^8 bytes.
pub block_hash-injective :
    (keccak256 : Bytes → Bytes) (a b : Block)
    → (block_hash keccak256 a ≡ block_hash keccak256 b
        → rlp_encode (list (header_fields a.header)) ≡ rlp_encode (list (header_fields b.header)))
    → length (rlp_encode (list (header_fields a.header))) < 256 ^ 8
    → block_hash keccak256 a ≡ block_hash keccak256 b
    → a.header ≡ b.header
block_hash-injective keccak256 a b collision small e =
    let same =
      rlp_encode-injective (list (header_fields a.header)) (list (header_fields b.header)) small
        (collision e) in
    let number = int_to_rlp_bytes-injective a.header.number b.header.number cc in
    let timestamp = int_to_rlp_bytes-injective a.header.timestamp b.header.timestamp cc in cc
