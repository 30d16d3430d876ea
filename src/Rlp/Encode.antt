-- ===== src/Rlp/Encode.antt =====
-- encoding/rlp.py, the encoder. The `isinstance` dispatch of `rlp_encode` is a match on the two
-- constructors of `Item`; any other Python value (a TypeError there) is no `Item`. Python's `len` is
-- below 2 ^ 63, so `bytes([0xb7 + len(len_bytes)])` never meets a number above 255.
use ethereum_blockchain.Prelude.{
  ℕ, ◌+◌, [], ◌∷◌, ◌++◌, ◌&&◌, ltb, leb, ◌==◌, if◌then◌else◌, length, get_or,
}
use ethereum_blockchain.Bytes.{Bytes, digits, byte_length}

-- What RLP encodes: byte strings, and lists of such.
mutual
  pub data Item : Type 0 where
    string : Bytes → Item
    list : Items → Item

  pub data Items : Type 0 where
    nil : Items
    cons : Item → Items → Items

unfoldable pub int_to_rlp_bytes : ℕ → Bytes
int_to_rlp_bytes n = if n == 0 then [] else digits (byte_length n) n

unfoldable pub encode_length : ℕ → Bytes
encode_length length' = if length' == 0 then 0 ∷ [] else digits (byte_length length') length'

unfoldable pub encode_string : Bytes → Bytes
unfolding encode_length
encode_string s =
    if (length s == 1) && ltb (get_or s 0 0) 0x80
    then s
    else if leb (length s) 55
    then (0x80 + length s) ∷ s
    else (0xb7 + length (encode_length (length s))) ∷ (encode_length (length s) ++ s)

-- The prefix that `_encode_list` puts before the joined items.
unfoldable pub encode_payload : Bytes → Bytes
unfolding encode_length
encode_payload payload =
    if leb (length payload) 55
    then (0xc0 + length payload) ∷ payload
    else (0xf7 + length (encode_length (length payload)))
      ∷ (encode_length (length payload) ++ payload)

unfoldable mutual
  pub rlp_encode : Item → Bytes
  rlp_encode (string s) = encode_string s
  rlp_encode (list xs) = encode_payload (encode_items xs)

  -- `b''.join(rlp_encode(item) for item in items)`
  pub encode_items : Items → Bytes
  encode_items nil = []
  encode_items (cons x xs) = rlp_encode x ++ encode_items xs
