-- ===== src/Rlp/Lengths.antt =====
-- The byte counts of the encoder's parts, and what the decoder finds behind a prefix.
use ethereum_blockchain.Prelude.{
  ℕ, zero, suc, ◌+◌, ◌-◌, ◌^◌, ◌<◌, ◌≤◌, ◌≡◌, ◌≢◌, refl, [], ◌∷◌, ◌++◌, arith, true, Bool-cases,
  inl, inr, ltb, leb, ◌==◌, ◌&&◌, get_or, length, length-append, drop-append_length,
  take-append_length,
}
use mathlib.Core.Logic.{◌⊎◌}
use ethereum_blockchain.Bytes.{
  Bytes, byte_length, from_bytes, length-digits, byte_length_bound, byte_length-lt,
  from_bytes-digits,
}
use ethereum_blockchain.Rlp.Encode.{
  Item, string, list, rlp_encode, encode_items, encode_length, encode_payload, encode_string,
}
use ethereum_blockchain.Rlp.Decode.{slice}

-- The middle part of three is the slice between its ends.
pub slice-middle :
    (pre xs post : Bytes) → slice (pre ++ (xs ++ post)) (length pre) (length pre + length xs) ≡ xs
slice-middle pre xs post =
    let e : length pre + length xs - length pre ≡ length xs = omega arith in
    rw (e, drop-append_length pre (xs ++ post)) (take-append_length xs post)

pub length-encode_length : (n : ℕ) → n ≢ 0 → length (encode_length n) ≡ byte_length n
unfolding encode_length
length-encode_length n h = elim (Bool-cases (n == 0)) [
  | inl e ↦ absurd (h (ground arith))
  | inr e ↦ rw e (length-digits (byte_length n) n)
]

pub from_bytes-encode_length : (n : ℕ) → n ≢ 0 → from_bytes (encode_length n) ≡ n
unfolding encode_length
from_bytes-encode_length n h = elim (Bool-cases (n == 0)) [
  | inl e ↦ absurd (h (ground arith))
  | inr e ↦ rw e (from_bytes-digits (byte_length n) n (byte_length-lt n))
]

-- A length below 2 ^ 64 takes one to eight bytes.
pub encode_length_bounds :
    (n : ℕ) → n ≢ 0 → n < 256 ^ 8 → (0 < length (encode_length n)) × (length (encode_length n) ≤ 8)
encode_length_bounds n h k =
    rw (length-encode_length n h)
      (omega (arith, positive (byte_length n) (byte_length-lt n)), byte_length_bound n 8 k)
  where
    positive : (b : ℕ) → n < 256 ^ b → 0 < b
    positive zero p = absurd (h (omega arith))
    positive (suc b) p = omega arith

single_byte :
    (s : Bytes)
    → ((length s == 1) && ltb (get_or s 0 0) 0x80) ≡ true
    → (b : ℕ) × (s ≡ b ∷ []) × (b < 0x80)
single_byte [] h = cc
single_byte (b ∷ []) h = (b, refl, ground arith)
single_byte (b ∷ c ∷ s) h = absurd (ground arith)

-- The three rules of `encode_string`, each with the strings that it is for.
pub encode_string-cases :
    (s : Bytes)
    → ((b : ℕ) × (s ≡ b ∷ []) × (b < 0x80) × (encode_string s ≡ b ∷ []))
      ⊎ ((length s ≤ 55) × (encode_string s ≡ (0x80 + length s) ∷ s))
      ⊎ ((55 < length s)
          × (encode_string s
              ≡ (0xb7 + length (encode_length (length s))) ∷ (encode_length (length s) ++ s)))
unfolding encode_string
encode_string-cases s = elim (Bool-cases ((length s == 1) && ltb (get_or s 0 0) 0x80)) [
  | inl one ↦ let (b, e, low) = single_byte s one in inl (b, e, low, rw one e)
  | inr many ↦ inr (elim (Bool-cases (leb (length s) 55)) [
    | inl short ↦ inl (ground arith, rw (many, short))
    | inr long ↦ inr (ground arith, rw (many, long))
  ])
]

-- The two rules of `encode_payload`.
pub encode_payload-cases :
    (p : Bytes)
    → ((length p ≤ 55) × (encode_payload p ≡ (0xc0 + length p) ∷ p))
      ⊎ ((55 < length p)
          × (encode_payload p
              ≡ (0xf7 + length (encode_length (length p))) ∷ (encode_length (length p) ++ p)))
unfolding encode_payload
encode_payload-cases p = elim (Bool-cases (leb (length p) 55)) [
  | inl short ↦ inl (ground arith, rw short)
  | inr long ↦ inr (ground arith, rw long)
]

-- A prefix is never empty, so a payload is shorter than its encoding.
pub length-encode_payload : (p : Bytes) → length p < length (encode_payload p)
length-encode_payload p = elim (encode_payload-cases p) [
  | inl (_, enc) ↦ rw enc (omega arith)
  | inr (_, enc) ↦ rw enc (omega (arith, length-append (encode_length (length p)) p))
]

pub length-encode_string : (s : Bytes) → length s ≤ length (encode_string s)
length-encode_string s = elim (encode_string-cases s) [
  | inl (b, e, low, enc) ↦ rw (enc, e) (omega arith)
  | inr (inl (_, enc)) ↦ rw enc (omega arith)
  | inr (inr (_, enc)) ↦ rw enc (omega (arith, length-append (encode_length (length s)) s))
]

pub length-rlp_encode_pos : (x : Item) → 0 < length (rlp_encode x)
unfolding rlp_encode
length-rlp_encode_pos (string s) = elim (encode_string-cases s) [
  | inl (b, e, low, enc) ↦ rw enc (omega arith)
  | inr (inl (_, enc)) ↦ rw enc (omega arith)
  | inr (inr (_, enc)) ↦ rw enc (omega arith)
]
length-rlp_encode_pos (list xs) = omega (arith, length-encode_payload (encode_items xs))
