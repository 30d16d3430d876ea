-- ===== src/Bytes/Window.antt =====
-- A range of a byte string, with zeros past its end: what the EVM copies from memory, code and calldata.
use ethereum_blockchain.Prelude.{
  ◌++◌, ℕ, zero, suc, ◌+◌, ◌≤◌, ◌<◌, ◌≡◌, refl, ap, [], ◌∷◌, arith, length, get_or, get_or-append,
}
use ethereum_blockchain.Bytes.Digits.{Bytes, AreBytes}

-- The byte at `i`; what lies past the end reads as zero.
abbrev pub byte_at : Bytes → ℕ → ℕ
byte_at m i = get_or m i 0

-- The `n` bytes from `o` on, zeros past the end included.
unfoldable pub window : Bytes → ℕ → ℕ → Bytes
window m o zero = []
window m o (suc n) = byte_at m o ∷ window m (o + 1) n

pub length-window : (m : Bytes) (o n : ℕ) → length (window m o n) ≡ n
unfolding window
length-window m o zero = refl
length-window m o (suc n) = ap suc (length-window m (o + 1) n)

pub window-eq :
    (m : Bytes) (o n : ℕ) (bs : Bytes)
    → length bs ≡ n
    → ((i : ℕ) → i < n → byte_at m (o + i) ≡ byte_at bs i)
    → window m o n ≡ bs
unfolding window
window-eq m o zero [] e h = refl
window-eq m o zero (b ∷ bs) e h = absurd (omega arith)
window-eq m o (suc n) [] e h = absurd (omega arith)
window-eq m o (suc n) (b ∷ bs) e h =
    let start : o + 0 ≡ o = omega arith in
    let first : byte_at m o ≡ b = rw start at (h 0 (omega arith)) in
    rw first (
      ap (λ t. b ∷ t)
        (window-eq m (o + 1) n bs (omega arith) λ i lt.
          let next : o + 1 + i ≡ o + suc i = omega arith in rw next (h (suc i) (omega arith))))

-- Memories that agree on a range have the same window there.
pub window_congr :
    (m m' : Bytes) (o n : ℕ)
    → ((i : ℕ) → o ≤ i → i < o + n → byte_at m' i ≡ byte_at m i)
    → window m' o n ≡ window m o n
unfolding window
window_congr m m' o zero h = refl
window_congr m m' o (suc n) h = rw (
  h o (omega arith) (omega arith),
  window_congr m m' (o + 1) n λ i a b. h i (omega arith) (omega arith),
)

pub byte_at-lt : (m : Bytes) (i : ℕ) → AreBytes m → byte_at m i < 256
byte_at-lt [] i h = omega arith
byte_at-lt (x ∷ m) zero h = h.0
byte_at-lt (x ∷ m) (suc i) h = byte_at-lt m i h.1

pub window-AreBytes : (m : Bytes) (o n : ℕ) → AreBytes m → AreBytes (window m o n)
unfolding window
window-AreBytes m o zero h = tt
window-AreBytes m o (suc n) h = (byte_at-lt m o h, window-AreBytes m (o + 1) n h)

byte_at-append : (xs ys : Bytes) (i : ℕ) → byte_at (xs ++ ys) (length xs + i) ≡ byte_at ys i
byte_at-append [] ys i = let e : 0 + i ≡ i = omega arith in rw e refl
byte_at-append (x ∷ xs) ys i =
    let e : suc (length xs) + i ≡ suc (length xs + i) = omega arith in rw e (byte_at-append xs ys i)

-- A window past the first of two byte strings is one of the second.
pub window-append_right :
    (xs ys : Bytes) (o n : ℕ) → window (xs ++ ys) (length xs + o) n ≡ window ys o n
unfolding window
window-append_right xs ys o zero = refl
window-append_right xs ys o (suc n) =
    let next : length xs + o + 1 ≡ length xs + (o + 1) = omega arith in
    rw (byte_at-append xs ys o, next, window-append_right xs ys (o + 1) n) refl

-- The first of two byte strings is a window of the whole.
pub window-append_left : (xs ys : Bytes) → window (xs ++ ys) 0 (length xs) ≡ xs
window-append_left xs ys = window-eq (xs ++ ys) 0 (length xs) xs refl λ i lt.
    let first : 0 + i ≡ i = omega arith in rw (first, get_or-append xs ys i 0) (ground arith)
