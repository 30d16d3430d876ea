-- ===== src/Rlp/Decode.antt =====
-- encoding/rlp.py, the decoder. Positions are offsets into the whole input, as in the source. What a
-- call leaves of the input is not a structural part of it, so each call costs a unit of fuel;
-- `rlp_decode` gives enough for every input.
use ethereum_blockchain.Prelude.{
  ℕ, zero, suc, ◌+◌, ◌-◌, ◌*◌, [], ◌∷◌, none, some, ltb, leb, ◌==◌, if◌then◌else◌, length,
  get_elem?, take, drop,
}
use ethereum_blockchain.Bytes.{Bytes, from_bytes}
use ethereum_blockchain.Rlp.Encode.{Item, Items, string, list, nil, cons}

-- The ValueErrors of the decoder, one for each message; `out_of_fuel` has no counterpart there.
pub data Error : Type 0 where
  unexpected_end string_exceeds length_of_length_exceeds long_string_exceeds : Error
  list_length_of_length_exceeds payload_exceeds not_filled : Error
  trailing : ℕ → Error
  out_of_fuel : Error

pub data Result (A : Type 0) : Type 0 where
  ok : A → Result A
  err : Error → Result A

infixl 5 ◌>>=◌
abbrev pub ◌>>=◌ : {A B : Type 0} → Result A → (A → Result B) → Result B
ok a >>= f = f a
err e >>= f = err e

-- `data[start:end]`
abbrev pub slice : Bytes → ℕ → ℕ → Bytes
slice bs start end = take (end - start) (drop start bs)

-- Rules 2 and 3 once the length is known: `start` to `start + str_len`.
unfoldable pub decode_string : Bytes → ℕ → ℕ → Error → Result (Item × ℕ)
decode_string bs start str_len e =
    if ltb (length bs) (start + str_len)
    then err e
    else ok (string (slice bs start (start + str_len)), start + str_len)

-- The big-endian length of `len_of_len` bytes at `len_start`.
unfoldable pub decode_length : Bytes → ℕ → ℕ → Error → Result ℕ
decode_length bs len_start len_of_len e =
    if ltb (length bs) (len_start + len_of_len)
    then err e
    else ok (from_bytes (slice bs len_start (len_start + len_of_len)))

-- Rule 3.
unfoldable pub decode_long_string : Bytes → ℕ → ℕ → Result (Item × ℕ)
unfolding decode_string decode_length
decode_long_string bs len_start len_of_len = do
  str_len ← decode_length bs len_start len_of_len length_of_length_exceeds
  decode_string bs (len_start + len_of_len) str_len long_string_exceeds

unfoldable mutual
  -- `_decode_item`
  pub decode_item : ℕ → Bytes → ℕ → Result (Item × ℕ)
  decode_item zero bs offset = err out_of_fuel
  decode_item (suc f) bs offset =
      let short_list = λ (prefix : ℕ). decode_list f bs (offset + 1) (prefix - 0xc0) in
      let long_list = λ (prefix : ℕ). do
        list_len ← decode_length bs (offset + 1) (prefix - 0xf7) list_length_of_length_exceeds
        decode_list f bs (offset + 1 + (prefix - 0xf7)) list_len
      in elim (get_elem? bs offset) [
        | none ↦ err unexpected_end
        | some prefix ↦
            if ltb prefix 0x80
            then ok (string (prefix ∷ []), offset + 1)
            else if leb prefix 0xb7
            then decode_string bs (offset + 1) (prefix - 0x80) string_exceeds
            else if leb prefix 0xbf
            then decode_long_string bs (offset + 1) (prefix - 0xb7)
            else if leb prefix 0xf7
            then short_list prefix
            else long_list prefix
      ]

  -- `_decode_list`
  pub decode_list : ℕ → Bytes → ℕ → ℕ → Result (Item × ℕ)
  decode_list zero bs start list_len = err out_of_fuel
  decode_list (suc f) bs start list_len =
      let items = do xs ← decode_items f bs start (start + list_len); ok (list xs, start + list_len)
      in if ltb (length bs) (start + list_len) then err payload_exceeds else items

  -- The loop of `_decode_list`: `while pos < end`, then `if pos != end`.
  pub decode_items : ℕ → Bytes → ℕ → ℕ → Result Items
  decode_items zero bs pos end = err out_of_fuel
  decode_items (suc f) bs pos end =
      let more = do
        (x, pos') ← decode_item f bs pos
        xs ← decode_items f bs pos' end
        ok (cons x xs)
      in if ltb pos end then more else if pos == end then ok nil else err not_filled

-- `if consumed != len(data)`
unfoldable pub finish : Bytes → Item → ℕ → Result Item
finish bs x consumed = if consumed == length bs then ok x else err (trailing (length bs - consumed))

unfoldable pub rlp_decode : Bytes → Result Item
unfolding finish
rlp_decode bs = do (x, consumed) ← decode_item (3 * length bs + 3) bs 0; finish bs x consumed
