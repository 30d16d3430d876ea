-- ===== src/Bytes/Digits.antt =====
-- Big-endian digits in base 256.
use ethereum_blockchain.Prelude.{
  ℕ, zero, suc, ◌+◌, ◌*◌, ◌/◌, ◌%◌, ◌^◌, ◌<◌, ◌≡◌, refl, ◌∙◌, List, [], ◌∷◌, ◌++◌, Option, none,
  some, arith, ltb, if◌then◌else◌, length, length-append, All, lt→ltb, ltb→lt, Bool-cases, inl, inr,
}
use native.Mathlib.Nat.{pow-suc, pow-zero}

abbrev pub Bytes : Type 0
Bytes = List ℕ

-- Every element is a byte.
abbrev pub AreBytes : Bytes → Type 0
AreBytes bs = All (λ b. b < 256) bs

from_digits : ℕ → Bytes → ℕ
from_digits acc [] = acc
from_digits acc (b ∷ bs) = from_digits (acc * 256 + b) bs

-- `int.from_bytes(bs, "big")`
unfoldable pub from_bytes : Bytes → ℕ
unfolding from_digits
from_bytes bs = from_digits 0 bs

-- The last `len` digits of `n`, most significant first.
unfoldable pub digits : ℕ → ℕ → Bytes
digits zero n = []
digits (suc len) n = digits len (n / 256) ++ (n % 256) ∷ []

-- `n.to_bytes(len, "big")`; `none` is the OverflowError of a number that does not fit.
unfoldable pub to_bytes : ℕ → ℕ → Option Bytes
unfolding digits
to_bytes len n = if ltb n (256 ^ len) then some (digits len n) else none

from_digits-append :
    (acc : ℕ) (xs : Bytes) (b : ℕ) → from_digits acc (xs ++ b ∷ []) ≡ from_digits acc xs * 256 + b
unfolding from_digits
from_digits-append acc [] b = refl
from_digits-append acc (x ∷ xs) b = from_digits-append (acc * 256 + x) xs b

pub from_bytes-append : (xs : Bytes) (b : ℕ) → from_bytes (xs ++ b ∷ []) ≡ from_bytes xs * 256 + b
unfolding from_bytes
from_bytes-append xs b = from_digits-append 0 xs b

pub length-digits : (len n : ℕ) → length (digits len n) ≡ len
unfolding digits
length-digits zero n = refl
length-digits (suc len) n =
    omega
      (arith, length-append (digits len (n / 256)) ((n % 256) ∷ []), length-digits len (n / 256))

pub AreBytes-append : (xs ys : Bytes) → AreBytes xs → AreBytes ys → AreBytes (xs ++ ys)
AreBytes-append [] ys h k = k
AreBytes-append (x ∷ xs) ys h k = (h.0, AreBytes-append xs ys h.1 k)

pub digits-AreBytes : (len n : ℕ) → AreBytes (digits len n)
unfolding digits
digits-AreBytes zero n = tt
digits-AreBytes (suc len) n =
    AreBytes-append (digits len (n / 256)) ((n % 256) ∷ []) (digits-AreBytes len (n / 256))
      (omega arith, tt)

-- Reading the digits back gives the number, if it fits.
pub from_bytes-digits : (len n : ℕ) → n < 256 ^ len → from_bytes (digits len n) ≡ n
unfolding digits
from_bytes-digits zero n h = let h' : n < 1 = rw pow-zero at h in unfold from_bytes in omega arith
from_bytes-digits (suc len) n h =
    let h' : n < 256 ^ len * 256 = rw pow-suc at h in
    rw
      (
        from_bytes-append (digits len (n / 256)) (n % 256),
        from_bytes-digits len (n / 256) (omega arith),
      )
      (omega arith)

from_digits-lt :
    (acc : ℕ) (xs : Bytes) (bound : ℕ)
    → AreBytes xs
    → acc < bound
    → from_digits acc xs < bound * 256 ^ length xs
unfolding from_digits
from_digits-lt acc [] bound h k = rw pow-zero (omega arith)
from_digits-lt acc (x ∷ xs) bound h k =
    let ih = from_digits-lt (acc * 256 + x) xs (bound * 256) h.1 (omega arith) in
    rw (pow-suc 256 (length xs)) (grind arith)

-- A byte string reads as a number below 256 to its length.
pub from_bytes-lt : (xs : Bytes) → AreBytes xs → from_bytes xs < 256 ^ length xs
unfolding from_bytes
from_bytes-lt xs h = omega (arith, from_digits-lt 0 xs 1 h (omega arith))

pub to_bytes-eq-some :
    (len n : ℕ) {bs : Bytes} → to_bytes len n ≡ some bs → (n < 256 ^ len) × (bs ≡ digits len n)
unfolding to_bytes
to_bytes-eq-some len n e = elim (Bool-cases (ltb n (256 ^ len))) [
  | inl fits ↦ (ltb→lt n (256 ^ len) fits, ground arith)
  | inr large ↦ absurd (ground arith)
]

pub some-digits : (len n : ℕ) → n < 256 ^ len → to_bytes len n ≡ some (digits len n)
unfolding to_bytes
some-digits len n h = rw (lt→ltb n (256 ^ len) h)

from_digits-shift :
    (acc : ℕ) (xs : Bytes) → from_digits acc xs ≡ acc * 256 ^ length xs + from_digits 0 xs
unfolding from_digits
from_digits-shift acc [] = rw pow-zero (omega arith)
from_digits-shift acc (x ∷ xs) =
    let whole = from_digits-shift (acc * 256 + x) xs in
    let rest = from_digits-shift (0 * 256 + x) xs in
    rw (pow-suc 256 (length xs), whole, rest) (grind arith)

from_digits-concat :
    (acc : ℕ) (xs ys : Bytes) → from_digits acc (xs ++ ys) ≡ from_digits (from_digits acc xs) ys
unfolding from_digits
from_digits-concat acc [] ys = refl
from_digits-concat acc (x ∷ xs) ys = from_digits-concat (acc * 256 + x) xs ys

-- Two byte strings end to end, as a number.
pub from_bytes-concat :
    (xs ys : Bytes) → from_bytes (xs ++ ys) ≡ from_bytes xs * 256 ^ length ys + from_bytes ys
unfolding from_bytes
from_bytes-concat xs ys = from_digits-concat 0 xs ys ∙ from_digits-shift (from_digits 0 xs) ys
