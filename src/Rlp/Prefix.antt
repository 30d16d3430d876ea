-- ===== src/Rlp/Prefix.antt =====
-- What the decoder does at each of the five kinds of prefix byte.
use ethereum_blockchain.Prelude.{ℕ, suc, ◌+◌, ◌-◌, ◌<◌, ◌≤◌, ◌≡◌, [], ◌∷◌, arith, some, get_elem?}
use ethereum_blockchain.Bytes.{Bytes}
use ethereum_blockchain.Rlp.Encode.{string}
use ethereum_blockchain.Rlp.Decode.{
  ok, ◌>>=◌, decode_string, decode_length, decode_long_string, decode_item, decode_list,
  string_exceeds, list_length_of_length_exceeds,
}

module _ (f n o : ℕ) (bs : Bytes) where
  pub decode_item-byte :
      get_elem? bs o ≡ some n → n < 0x80 → decode_item (suc f) bs o ≡ ok (string (n ∷ []), o + 1)
  unfolding decode_item
  decode_item-byte e h = rw (e, decode_item) (ground arith)

  pub decode_item-short_string :
      get_elem? bs o ≡ some (0x80 + n)
      → n ≤ 55
      → decode_item (suc f) bs o ≡ decode_string bs (o + 1) n string_exceeds
  unfolding decode_item
  decode_item-short_string e h =
      let back : 0x80 + n - 0x80 ≡ n = omega arith in rw (e, decode_item, back) (ground arith)

  pub decode_item-long_string :
      get_elem? bs o ≡ some (0xb7 + n)
      → 0 < n
      → n ≤ 8
      → decode_item (suc f) bs o ≡ decode_long_string bs (o + 1) n
  unfolding decode_item
  decode_item-long_string e p h =
      let back : 0xb7 + n - 0xb7 ≡ n = omega arith in rw (e, decode_item, back) (ground arith)

  pub decode_item-short_list :
      get_elem? bs o ≡ some (0xc0 + n)
      → n ≤ 55
      → decode_item (suc f) bs o ≡ decode_list f bs (o + 1) n
  unfolding decode_item
  decode_item-short_list e h =
      let back : 0xc0 + n - 0xc0 ≡ n = omega arith in rw (e, decode_item, back) (ground arith)

  pub decode_item-long_list :
      get_elem? bs o ≡ some (0xf7 + n)
      → 0 < n
      → decode_item (suc f) bs o ≡ (
          decode_length bs (o + 1) n list_length_of_length_exceeds >>= decode_list f bs (o + 1 + n))
  unfolding decode_item
  decode_item-long_list e p =
      let back : 0xf7 + n - 0xf7 ≡ n = omega arith in rw (e, decode_item, back) (ground arith)
