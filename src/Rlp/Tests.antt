-- ===== src/Rlp/Tests.antt =====
-- Runs of encoding/rlp.py on small inputs.
use ethereum_blockchain.Prelude.{
  ℕ, ◌^◌, ◌<◌, ◌≤◌, ◌≡◌, ◌≢◌, refl, [], ◌∷◌, length, some, get_elem?, arith,
}
use ethereum_blockchain.Bytes.{AreBytes, from_bytes, byte_length}
use ethereum_blockchain.Rlp.Encode.{
  Item, string, list, nil, cons, rlp_encode, encode_string, encode_payload, int_to_rlp_bytes,
}
use ethereum_blockchain.Rlp.Decode.{ok, err, out_of_fuel, decode_item, rlp_decode}
use ethereum_blockchain.Rlp.RoundTrip.{rlp_decode-rlp_encode, rlp_encode-injective}
use ethereum_blockchain.Rlp.Total.{ReadsWithin, rlp_decode-total}
use ethereum_blockchain.Rlp.Ints.{int_to_rlp_bytes-canonical}

-- ["cat", [], 5]
abbrev nested : Item
nested =
    list (cons (string (0x63 ∷ 0x61 ∷ 0x74 ∷ [])) (cons (list nil) (cons (string (5 ∷ [])) nil)))

nested_encoded : rlp_encode nested ≡ 0xc6 ∷ 0x83 ∷ 0x63 ∷ 0x61 ∷ 0x74 ∷ 0xc0 ∷ 5 ∷ []
unfolding rlp_encode encode_string encode_payload
nested_encoded = refl

nested_is_small : length (rlp_encode nested) < 256 ^ 8
unfolding rlp_encode encode_string encode_payload
nested_is_small = omega arith

rlp_decode-rlp_encode_example : rlp_decode (rlp_encode nested) ≡ ok nested
rlp_decode-rlp_encode_example = rlp_decode-rlp_encode nested nested_is_small

rlp_encode-injective_example : nested ≡ nested
rlp_encode-injective_example = rlp_encode-injective nested nested nested_is_small refl

rlp_decode-total_example :
    (rlp_decode (0xc3 ∷ 0x83 ∷ 1 ∷ []) ≢ err out_of_fuel)
    × ((o : ℕ) → ReadsWithin (0xc3 ∷ 0x83 ∷ 1 ∷ []) o (decode_item 12 (0xc3 ∷ 0x83 ∷ 1 ∷ []) o))
rlp_decode-total_example = rlp_decode-total (0xc3 ∷ 0x83 ∷ 1 ∷ [])

int_to_rlp_bytes-canonical_example :
    AreBytes (int_to_rlp_bytes 1024)
    × (from_bytes (int_to_rlp_bytes 1024) ≡ 1024)
    × (get_elem? (int_to_rlp_bytes 1024) 0 ≢ some 0)
    × (length (int_to_rlp_bytes 1024) ≤ byte_length 1024)
int_to_rlp_bytes-canonical_example = int_to_rlp_bytes-canonical 1024
