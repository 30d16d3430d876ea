-- ===== src/Rlp/Ints.antt =====
-- Integers as RLP byte strings: big-endian, minimal, and without loss.
use ethereum_blockchain.Prelude.{
  ℕ, ◌-◌, ◌^◌, ◌<◌, ◌≤◌, ◌≡◌, ◌≢◌, refl, sym, ap, ◌∙◌, Bool-cases, inl, inr, [], ◌∷◌, arith, some,
  ◌==◌, length, get_elem?,
}
use ethereum_blockchain.Bytes.{
  Bytes, AreBytes, from_bytes, digits, byte_length, from_bytes-digits, from_bytes-lt,
  digits-AreBytes, length-digits, byte_length-lt, byte_length-le,
}
use ethereum_blockchain.Rlp.Encode.{int_to_rlp_bytes}

pub from_bytes-int_to_rlp_bytes : (n : ℕ) → from_bytes (int_to_rlp_bytes n) ≡ n
unfolding int_to_rlp_bytes
from_bytes-int_to_rlp_bytes n = elim (Bool-cases (n == 0)) [
  | inl e ↦ rw e (unfold from_bytes in ground arith)
  | inr e ↦ rw e (from_bytes-digits (byte_length n) n (byte_length-lt n))
]

pub int_to_rlp_bytes-AreBytes : (n : ℕ) → AreBytes (int_to_rlp_bytes n)
unfolding int_to_rlp_bytes
int_to_rlp_bytes-AreBytes n = elim (Bool-cases (n == 0)) [
  | inl e ↦ rw e tt
  | inr e ↦ rw e (digits-AreBytes (byte_length n) n)
]

pub int_to_rlp_bytes-injective : (n m : ℕ) → int_to_rlp_bytes n ≡ int_to_rlp_bytes m → n ≡ m
int_to_rlp_bytes-injective n m e = cc (from_bytes-int_to_rlp_bytes n, from_bytes-int_to_rlp_bytes m)

pub length-int_to_rlp_bytes : (n : ℕ) → length (int_to_rlp_bytes n) ≤ byte_length n
unfolding int_to_rlp_bytes
length-int_to_rlp_bytes n = ground (arith, length-digits (byte_length n) n)

from_bytes-zero : (bs : Bytes) → from_bytes (0 ∷ bs) ≡ from_bytes bs
unfolding from_bytes
from_bytes-zero bs = refl

-- A number whose digits lead with a zero fits in one digit fewer.
leading_zero :
    (len n : ℕ) (bs : Bytes)
    → n < 256 ^ len
    → AreBytes bs
    → bs ≡ digits len n
    → get_elem? bs 0 ≡ some 0
    → n < 256 ^ (len - 1)
leading_zero len n [] small are e h = cc
leading_zero len n (b ∷ bs) small are e h =
    let zero_first : b ≡ 0 = ground arith in
    let e' : digits len n ≡ 0 ∷ bs = sym e ∙ ap (λ t. t ∷ bs) zero_first in
    let value : n ≡ from_bytes bs =
      sym (from_bytes-digits len n small) ∙ ap from_bytes e' ∙ from_bytes-zero bs in
    let count : length bs ≡ len - 1 = omega (arith, ap length e, length-digits len n) in
    rw (value, ← count) (from_bytes-lt bs are.1)

pub int_to_rlp_bytes-minimal : (n : ℕ) → get_elem? (int_to_rlp_bytes n) 0 ≢ some 0
unfolding int_to_rlp_bytes
int_to_rlp_bytes-minimal n = elim (Bool-cases (n == 0)) [
  | inl e ↦ rw e (λ h. cc)
  | inr e ↦ rw e λ h.
      let fits = byte_length-lt n in
      let fewer =
        leading_zero (byte_length n) n (digits (byte_length n) n) fits
          (digits-AreBytes (byte_length n) n) refl h in
      omega (arith, byte_length-le n (ground arith), fewer)
]

-- What int_to_rlp_bytes gives are bytes, each below 256, whose big-endian number is the number
-- given; they have no leading zero byte, and are no more than the bytes that the number needs.
pub int_to_rlp_bytes-canonical :
    (n : ℕ)
    → AreBytes (int_to_rlp_bytes n)
      × (from_bytes (int_to_rlp_bytes n) ≡ n)
      × (get_elem? (int_to_rlp_bytes n) 0 ≢ some 0)
      × (length (int_to_rlp_bytes n) ≤ byte_length n)
int_to_rlp_bytes-canonical n = (
  int_to_rlp_bytes-AreBytes n,
  from_bytes-int_to_rlp_bytes n,
  int_to_rlp_bytes-minimal n,
  length-int_to_rlp_bytes n,
)
