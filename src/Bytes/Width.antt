-- ===== src/Bytes/Width.antt =====
-- `int.bit_length` and the number of bytes that hold a number.
use ethereum_blockchain.Prelude.{
  ℕ, zero, suc, ◌+◌, ◌*◌, ◌/◌, ◌-◌, ◌^◌, ◌<◌, ◌≤◌, ◌≡◌, refl, arith, pow-add,
}
use native.Mathlib.Decide.{dec_lt}
use native.Mathlib.Nat.{pow-suc, pow-zero, pow-le-pow_right, le_trans}

-- Halvings until zero; the fuel `n` is enough, since each halving loses at least one.
count_bits : ℕ → ℕ → ℕ
count_bits zero n = 0
count_bits (suc f) zero = 0
count_bits (suc f) (suc n) = suc (count_bits f (suc n / 2))

-- `n.bit_length()`
unfoldable pub bit_length : ℕ → ℕ
unfolding count_bits
bit_length n = count_bits n n

-- `(n.bit_length() + 7) // 8`
unfoldable pub byte_length : ℕ → ℕ
unfolding bit_length
byte_length n = (bit_length n + 7) / 8

count_bits-lt : (f n : ℕ) → n ≤ f → n < 2 ^ count_bits f n
unfolding count_bits
count_bits-lt zero n h = rw pow-zero (omega arith)
count_bits-lt (suc f) zero h = rw pow-zero (omega arith)
count_bits-lt (suc f) (suc n) h =
    rw pow-suc (omega (arith, count_bits-lt f (suc n / 2) (omega arith)))

count_bits-zero : (f : ℕ) → count_bits f 0 ≡ 0
unfolding count_bits
count_bits-zero zero = refl
count_bits-zero (suc f) = refl

count_bits-le : (f n : ℕ) → n ≤ f → 0 < n → 2 ^ count_bits f n ≤ 2 * n
unfolding count_bits
count_bits-le zero n h p = absurd (omega arith)
count_bits-le (suc f) zero h p = absurd (omega arith)
count_bits-le (suc f) (suc zero) h p = rw (pow-suc, count_bits-zero f) (omega arith)
count_bits-le (suc f) (suc (suc n)) h p =
    rw pow-suc (omega (arith, count_bits-le f (suc (suc n) / 2) (omega arith) (omega arith)))

pow_256 : (k : ℕ) → 256 ^ k ≡ 2 ^ (8 * k)
pow_256 zero = refl
pow_256 (suc k) =
    let e : 8 * suc k ≡ 8 * k + 8 = omega arith in
    rw (pow-suc, pow_256 k, e, pow-add 2 (8 * k) 8) (omega arith)

-- The bytes counted are enough to hold the number.
pub byte_length-lt : (n : ℕ) → n < 256 ^ byte_length n
unfolding byte_length
byte_length-lt n = rw (pow_256 ((bit_length n + 7) / 8)) (
    le_trans (count_bits-lt n n (omega arith))
      (pow-le-pow_right {n = 2} (omega arith) {i = bit_length n} (omega arith)))

bit_length_pos : (n : ℕ) → 0 < n → 0 < bit_length n
unfolding bit_length
bit_length_pos zero h = absurd (omega arith)
bit_length_pos (suc n) h = omega arith

-- One byte fewer would not hold it.
pub byte_length-le : (n : ℕ) → 0 < n → 256 ^ (byte_length n - 1) ≤ n
unfolding byte_length
byte_length-le n h =
    let halves : 2 ^ (8 * ((bit_length n + 7) / 8 - 1)) * 2 ≤ 2 * n =
      rw (← pow-suc 2 (8 * ((bit_length n + 7) / 8 - 1))) (
        le_trans
          (pow-le-pow_right {n = 2} (omega arith) {j = bit_length n}
            (omega (arith, bit_length_pos n h)))
          (count_bits-le n n (omega arith) h)) in
    rw (pow_256 ((bit_length n + 7) / 8 - 1)) (omega (arith, halves))

-- A number below 256 to the `k` takes at most `k` bytes.
pub byte_length_bound : (n k : ℕ) → n < 256 ^ k → byte_length n ≤ k
byte_length_bound zero k h = unfold byte_length in omega arith
byte_length_bound (suc n) k h = elim (dec_lt k (byte_length (suc n))) [
  | yes p ↦ absurd (
      omega (
        arith,
        byte_length-le (suc n) (omega arith),
        pow-le-pow_right {n = 256} (omega arith) {i = k} {j = byte_length (suc n) - 1}
            (omega arith),
      ))
  | no p ↦ omega arith
]
