-- ===== src/Rlp/RoundTrip.antt =====
-- What was encoded decodes back.
use ethereum_blockchain.Prelude.{
  ℕ, zero, suc, ◌+◌, ◌*◌, ◌^◌, ◌<◌, ◌≤◌, ◌≡◌, refl, sym, [], ◌∷◌, ◌++◌, append-nil, inl, inr, arith,
  length, length-append,
}
use ethereum_blockchain.Bytes.{Bytes, from_bytes}
use ethereum_blockchain.Rlp.Encode.{
  Item, Items, string, list, nil, cons, encode_length, encode_string, encode_payload, rlp_encode,
  encode_items,
}
use ethereum_blockchain.Rlp.Decode.{
  Error, ok, decode_string, decode_length, decode_long_string, decode_item, decode_list,
  decode_items, rlp_decode, length_of_length_exceeds, long_string_exceeds, string_exceeds,
  list_length_of_length_exceeds,
}
use ethereum_blockchain.Rlp.Prefix.{
  decode_item-byte, decode_item-short_string, decode_item-long_string, decode_item-short_list,
  decode_item-long_list,
}
use ethereum_blockchain.Rlp.Lengths.{
  encode_string-cases, length-encode_string, length-encode_payload, length-rlp_encode_pos,
  encode_payload-cases, from_bytes-encode_length, encode_length_bounds,
}
use ethereum_blockchain.Rlp.Offsets.{
  StandsAt, StandsAt-slice, StandsAt-length, StandsAt-head, StandsAt-left, StandsAt-right,
  StandsAt-tail,
}

module _ {bs : Bytes} {o : ℕ} where
  decode_string-StandsAt :
      (s : Bytes) (e : Error)
      → StandsAt bs o s
      → decode_string bs o (length s) e ≡ ok (string s, o + length s)
  unfolding decode_string
  decode_string-StandsAt s e h = rw (StandsAt-slice h) (ground (arith, StandsAt-length h))

  decode_length-StandsAt :
      (s : Bytes) (e : Error)
      → StandsAt bs o s
      → decode_length bs o (length s) e ≡ ok (from_bytes s)
  unfolding decode_length
  decode_length-StandsAt s e h = rw (StandsAt-slice h) (ground (arith, StandsAt-length h))

decode_long_string-StandsAt :
    (s : Bytes) (o : ℕ) (bs : Bytes)
    → 55 < length s
    → StandsAt bs o (encode_length (length s) ++ s)
    → decode_long_string bs o (length (encode_length (length s)))
      ≡ ok (string s, o + length (encode_length (length s)) + length s)
unfolding decode_long_string
decode_long_string-StandsAt s o bs long h =
    let size = encode_length (length s) in
    rw
      (
        decode_length-StandsAt size length_of_length_exceeds (StandsAt-left size s h),
        from_bytes-encode_length (length s) (omega arith),
      )
      (decode_string-StandsAt s long_string_exceeds (StandsAt-right size s h))

decode_item-string :
    (s : Bytes) (f o : ℕ) (bs : Bytes)
    → length s < 256 ^ 8
    → StandsAt bs o (encode_string s)
    → decode_item (suc f) bs o ≡ ok (string s, o + length (encode_string s))
decode_item-string s f o bs small h = elim (encode_string-cases s) [
  | inl (b, e, low, enc) ↦ rw (enc, e) (decode_item-byte f b o bs (StandsAt-head (rw enc at h)) low)
  | inr (inl (short, enc)) ↦
      let h' : StandsAt bs o ((0x80 + length s) ∷ s) = rw enc at h in
      rw
        (
          enc,
          decode_item-short_string f (length s) o bs (StandsAt-head h') short,
          decode_string-StandsAt s string_exceeds (StandsAt-tail h'),
        )
        (ground arith)
  | inr (inr (long, enc)) ↦
      let size = encode_length (length s) in
      let bounds = encode_length_bounds (length s) (omega arith) small in
      let h' : StandsAt bs o ((0xb7 + length size) ∷ (size ++ s)) = rw enc at h in
      rw
        (
          enc,
          decode_item-long_string f (length size) o bs (StandsAt-head h') bounds.0 bounds.1,
          decode_long_string-StandsAt s (o + 1) bs long (StandsAt-tail h'),
        )
        (ground (arith, length-append size s))
]

-- With enough fuel, `x` is read off any place where its encoding stands.
abbrev ReadsItem : Item → Type 0
ReadsItem x =
    (f o : ℕ) (bs : Bytes)
    → 3 * length (rlp_encode x) ≤ f
    → length (rlp_encode x) < 256 ^ 8
    → StandsAt bs o (rlp_encode x)
    → decode_item f bs o ≡ ok (x, o + length (rlp_encode x))

abbrev ReadsItems : Items → Type 0
ReadsItems xs =
    (f o : ℕ) (bs : Bytes)
    → 3 * length (encode_items xs) < f
    → length (encode_items xs) < 256 ^ 8
    → StandsAt bs o (encode_items xs)
    → decode_items f bs o (o + length (encode_items xs)) ≡ ok xs

decode_list-StandsAt :
    (xs : Items)
    → ReadsItems xs
    → (f o : ℕ) (bs : Bytes) → 3 * length (encode_items xs) < f
    → length (encode_items xs) < 256 ^ 8
    → StandsAt bs o (encode_items xs)
    → decode_list (suc f) bs o (length (encode_items xs))
      ≡ ok (list xs, o + length (encode_items xs))
unfolding decode_list
decode_list-StandsAt xs ih f o bs fuel small h =
    rw (ih f o bs fuel small h) (ground (arith, StandsAt-length h))

-- The prefix of a list's payload, short or long, leads the decoder to `decode_list`.
decode_item-list :
    (xs : Items)
    → ReadsItems xs
    → (f o : ℕ) (bs : Bytes) → 3 * length (encode_items xs) < f
    → length (encode_items xs) < 256 ^ 8
    → StandsAt bs o (encode_payload (encode_items xs))
    → decode_item (suc (suc f)) bs o ≡ ok (list xs, o + length (encode_payload (encode_items xs)))
decode_item-list xs ih f o bs fuel small h =
    let p = encode_items xs in
    elim (encode_payload-cases p) [
      | inl (short, enc) ↦
          let h' : StandsAt bs o ((0xc0 + length p) ∷ p) = rw enc at h in
          rw
            (
              enc,
              decode_item-short_list (suc f) (length p) o bs (StandsAt-head h') short,
              decode_list-StandsAt xs ih f (o + 1) bs fuel small (StandsAt-tail h'),
            )
            (ground arith)
      | inr (long, enc) ↦
          let size = encode_length (length p) in
          let bounds = encode_length_bounds (length p) (omega arith) small in
          let h' : StandsAt bs o ((0xf7 + length size) ∷ (size ++ p)) = rw enc at h in
          let t = StandsAt-tail h' in
          rw
            (
              enc,
              decode_item-long_list (suc f) (length size) o bs (StandsAt-head h') bounds.0,
              decode_length-StandsAt size list_length_of_length_exceeds (StandsAt-left size p t),
              from_bytes-encode_length (length p) (omega arith),
              decode_list-StandsAt xs ih f (o + 1 + length size) bs fuel small
                  (StandsAt-right size p t),
            )
            (ground (arith, length-append size p))
    ]

decode_items-nil : (f o end : ℕ) (bs : Bytes) → end ≡ o → decode_items (suc f) bs o end ≡ ok nil
unfolding decode_items
decode_items-nil f o end bs e = rw e (ground arith)

decode_items-cons :
    (f o o' end : ℕ) (bs : Bytes) (x : Item) (xs : Items)
    → o < end
    → decode_item f bs o ≡ ok (x, o')
    → decode_items f bs o' end ≡ ok xs
    → decode_items (suc f) bs o end ≡ ok (cons x xs)
unfolding decode_items
decode_items-cons f o o' end bs x xs lt e es = rw (e, es) (ground arith)

mutual
  unfolding rlp_encode

  reads_item : (x : Item) → ReadsItem x
  reads_item (string s) zero o bs fuel small h =
      absurd (omega (arith, length-rlp_encode_pos (string s)))
  reads_item (string s) (suc f) o bs fuel small h =
      decode_item-string s f o bs (omega (arith, length-encode_string s)) h
  reads_item (list xs) zero o bs fuel small h =
      absurd (omega (arith, length-rlp_encode_pos (list xs)))
  reads_item (list xs) (suc zero) o bs fuel small h =
      absurd (omega (arith, length-encode_payload (encode_items xs)))
  reads_item (list xs) (suc (suc f)) o bs fuel small h =
      decode_item-list xs (reads_items xs) f o bs
        (omega (arith, length-encode_payload (encode_items xs)))
        (omega (arith, length-encode_payload (encode_items xs))) h

  reads_items : (xs : Items) → ReadsItems xs
  reads_items xs zero o bs fuel small h = absurd (omega arith)
  reads_items nil (suc f) o bs fuel small h = decode_items-nil f o (o + 0) bs (omega arith)
  reads_items (cons x xs) (suc f) o bs fuel small h =
      let sum = length-append (rlp_encode x) (encode_items xs) in
      let pos = length-rlp_encode_pos x in
      let rest = StandsAt-right (rlp_encode x) (encode_items xs) h in
      let end : o + length (rlp_encode x ++ encode_items xs)
          ≡ o + length (rlp_encode x) + length (encode_items xs) =
        omega (arith, sum) in
      rw end (
        decode_items-cons f o (o + length (rlp_encode x)) _ bs x xs (omega (arith, pos))
          (reads_item x f o bs (omega (arith, sum)) (omega (arith, sum))
            (StandsAt-left (rlp_encode x) (encode_items xs) h))
          (reads_items xs f (o + length (rlp_encode x)) bs (omega (arith, sum, pos))
            (omega (arith, sum)) rest))

-- Decoding the encoding of an item gives the item back, if the encoding is shorter than 256^8
-- bytes.
pub rlp_decode-rlp_encode :
    (x : Item) → length (rlp_encode x) < 256 ^ 8 → rlp_decode (rlp_encode x) ≡ ok x
unfolding rlp_decode
rlp_decode-rlp_encode x small =
    let bs = rlp_encode x in
    let whole : StandsAt bs 0 bs = record {
      before = [];
      after = [];
      parts = sym (append-nil bs);
      offset = refl;
    } in
    rw (reads_item x (3 * length bs + 3) 0 bs (omega arith) small whole) (ground arith)

-- Two items with the same encoding are the same, if it is shorter than 256^8 bytes.
pub rlp_encode-injective :
    (x y : Item) → length (rlp_encode x) < 256 ^ 8 → rlp_encode x ≡ rlp_encode y → x ≡ y
rlp_encode-injective x y small e =
    cc (rlp_decode-rlp_encode x small, rlp_decode-rlp_encode y (rw e at small))
