-- ===== src/Memory/Bytewise.antt =====
-- bytewise
use ethereum_blockchain.Prelude.{
  ℕ, ◌+◌, ◌-◌, ◌%◌, ◌^◌, ◌≤◌, ◌<◌, ◌≡◌, refl, [], ◌∷◌, ◌++◌, some, arith, Bool-cases, inl, inr, ltb,
  ◌==◌, if◌then◌else◌, length, take, drop, replicate, set, length-append, length-take, length-drop,
  length-replicate, length-set, get_or-append, get_or-take, get_or-drop, get_or-replicate,
  get_or-past, get_or-set, ◌&&◌, leb,
}
use native.Mathlib.Decide.{dec_lt}
use mathlib.Core.Logic.{◌⊎◌}
use ethereum_blockchain.Prelude.Maybe.{>>=-eq-some}
use ethereum_blockchain.Bytes.{Bytes, byte_at, digits, to_bytes, length-digits, to_bytes-eq-some}
use ethereum_blockchain.Memory.Defs.{round_up, expand_to, write_at, store, store8, write_range}

-- Expanding gives room for the access, in whole words, and changes no byte.
pub record Expands (m : Bytes) (needed : ℕ) (m' : Bytes) : Type 0 where
  pub fits : needed ≤ length m'
  pub grows : length m ≤ length m'
  pub aligned : length m % 32 ≡ 0 → length m' % 32 ≡ 0
  pub kept : (i : ℕ) → byte_at m' i ≡ byte_at m i

-- An expansion leaves the memory alone, or appends zeros up to the next word boundary.
expand_to-cases :
    (limit offset size : ℕ) (m : Bytes) {m' : Bytes}
    → 0 < size
    → expand_to limit m offset size ≡ some m'
    → ((offset + size ≤ length m) × (m' ≡ m))
      ⊎ ((length m < offset + size) × (m' ≡ m ++ replicate (round_up (offset + size) - length m) 0))
unfolding expand_to
expand_to-cases limit offset size m pos e = elim (Bool-cases (ltb (length m) (offset + size))) [
  | inl small ↦ inr (ground arith, ground arith)
  | inr large ↦ inl (ground arith, ground arith)
]

byte_at-append_zeros : (m : Bytes) (n i : ℕ) → byte_at (m ++ replicate n 0) i ≡ byte_at m i
byte_at-append_zeros m n i =
    rw (get_or-append m (replicate n 0) i 0, get_or-replicate {A = ℕ} n 0 (i - length m))
      (ground (arith, get_or-past m i 0))

pub expand_to-Expands :
    (limit offset size : ℕ) (m : Bytes) {m' : Bytes}
    → 0 < size
    → expand_to limit m offset size ≡ some m'
    → Expands m (offset + size) m'
expand_to-Expands limit offset size m {m'} pos e =
    elim (expand_to-cases limit offset size m pos e) [
      | inl (fits, same) ↦
          rw same (record { fits = fits; grows = omega arith; aligned = λ h. h; kept = λ i. refl })
      | inr (small, longer) ↦
          let zeros = round_up (offset + size) - length m in
          let sum = length-append m (replicate zeros 0) in
          let count = length-replicate zeros (let z : ℕ = 0 in z) in
          rw longer (record {
            fits = omega (arith, sum, count);
            grows = omega (arith, sum);
            aligned = λ h. omega (arith, sum, count);
            kept = byte_at-append_zeros m zeros;
          })
    ]

-- Overwriting a part that fits: the size stays, the part reads as written, and all else as before.
pub length-write_at :
    (m : Bytes) (offset : ℕ) (bs : Bytes)
    → offset + length bs ≤ length m
    → length (write_at m offset bs) ≡ length m
unfolding write_at
length-write_at m offset bs h = omega (
  arith,
  length-append (take offset m) (bs ++ drop (offset + length bs) m),
  length-append bs (drop (offset + length bs) m),
  length-take offset m,
  length-drop (offset + length bs) m,
)

pub byte_at-write_at :
    (m : Bytes) (offset : ℕ) (bs : Bytes) (i : ℕ)
    → offset + length bs ≤ length m
    → byte_at (write_at m offset bs) i ≡ (
        if leb offset i && ltb i (offset + length bs) then byte_at bs (i - offset) else byte_at m i)
unfolding write_at
byte_at-write_at m offset bs i h =
    let front : length (take offset m) ≡ offset = omega (arith, length-take offset m) in
    rw
      (
        get_or-append (take offset m) (bs ++ drop (offset + length bs) m) i 0,
        front,
        get_or-append bs (drop (offset + length bs) m) (i - offset) 0,
        get_or-take offset m i 0,
        get_or-drop (offset + length bs) m (i - offset - length bs) 0,
      )
      (elim (dec_lt i (offset + length bs)) [
        | yes before ↦ ground arith
        | no past ↦
            let back : offset + length bs + (i - offset - length bs) ≡ i = omega arith in
            rw back (ground arith)
      ])

-- What a write of `bs` at `offset` did: `i` reads as written within the range, and as before outside;
-- the memory has not shrunk, and is still a whole number of words if it was.
pub record Writes (m : Bytes) (offset : ℕ) (bs : Bytes) (m' : Bytes) : Type 0 where
  pub grows : length m ≤ length m'
  pub aligned : length m % 32 ≡ 0 → length m' % 32 ≡ 0
  pub bytes :
      (i : ℕ)
      → byte_at m' i ≡ (
          if leb offset i && ltb i (offset + length bs)
          then byte_at bs (i - offset)
          else byte_at m i)

pub write_at-Writes :
    (m : Bytes) (offset : ℕ) (bs : Bytes) {m₁ : Bytes}
    → Expands m (offset + length bs) m₁
    → Writes m offset bs (write_at m₁ offset bs)
write_at-Writes m offset bs {m₁} h = record {
  grows = rw (length-write_at m₁ offset bs h.fits) h.grows;
  aligned = rw (length-write_at m₁ offset bs h.fits) h.aligned;
  bytes = λ i. rw (byte_at-write_at m₁ offset bs i h.fits, h.kept i);
}

-- A successful write_range writes the bytes at the offset and leaves every other byte as it was.
pub write_range-Writes :
    (limit offset : ℕ) (bs m : Bytes) {m' : Bytes}
    → write_range limit offset bs m ≡ some m'
    → Writes m offset bs m'
unfolding write_range
write_range-Writes limit offset bs m {m'} e = elim (Bool-cases (length bs == 0)) [
  | inl empty ↦
      let none_written : length bs ≡ 0 = ground arith in
      let same : m' ≡ m = ground arith in
      rw same (record { grows = omega arith; aligned = λ h. h; bytes = λ i. ground arith })
  | inr more ↦
      let (m₁, e₁, e₂) = >>=-eq-some (expand_to limit m offset (length bs)) _ (rw more at e) in
      let done : m' ≡ write_at m₁ offset bs = cc in
      rw done (
        write_at-Writes m offset bs
          (expand_to-Expands limit offset (length bs) m (ground arith) e₁))
]

-- A successful store has a value below 2^256 and writes its 32 big-endian bytes at the offset,
-- leaving every other byte as it was.
pub store-Writes :
    (limit offset value : ℕ) (m : Bytes) {m' : Bytes}
    → store limit offset value m ≡ some m'
    → (value < 256 ^ 32) × Writes m offset (digits 32 value) m'
unfolding store
store-Writes limit offset value m {m'} e =
    let (m₁, e₁, e₂) = >>=-eq-some (expand_to limit m offset 32) _ e in
    let (word, e₃, e₄) = >>=-eq-some (to_bytes 32 value) _ e₂ in
    let (fits, is_word) = to_bytes-eq-some 32 value e₃ in
    let done : m' ≡ write_at m₁ offset (digits 32 value) = cc in
    (
      fits,
      rw done (
          write_at-Writes m offset (digits 32 value)
            (rw (length-digits 32 value) (expand_to-Expands limit offset 32 m (omega arith) e₁))),
    )

set-Writes :
    (m : Bytes) (offset value : ℕ) {m₁ : Bytes}
    → Expands m (offset + 1) m₁
    → Writes m offset (value ∷ []) (set m₁ offset value)
set-Writes m offset value {m₁} x = record {
  grows = rw length-set x.grows;
  aligned = rw length-set x.aligned;
  bytes = λ i.
      rw (get_or-set m₁ offset value i 0 (omega (arith, x.fits)), x.kept i)
        (elim (dec_lt offset i) [
          | yes after ↦ ground arith
          | no before ↦ elim (dec_lt i offset) [
            | yes p ↦ ground arith
            | no p ↦
                let here : i ≡ offset = omega arith in
                let none_left : offset - offset ≡ 0 = omega arith in
                rw (here, none_left) (ground arith)
          ]
        ]);
}

-- A successful store8 writes the lowest byte of the value at the offset and leaves every other
-- byte as it was.
pub store8-Writes :
    (limit offset value : ℕ) (m : Bytes) {m' : Bytes}
    → store8 limit offset value m ≡ some m'
    → Writes m offset ((value % 256) ∷ []) m'
unfolding store8
store8-Writes limit offset value m {m'} e =
    let (m₁, e₁, e₂) = >>=-eq-some (expand_to limit m offset 1) _ e in
    let done : m' ≡ set m₁ offset (value % 256) = cc in
    rw done
      (set-Writes m offset (value % 256) (expand_to-Expands limit offset 1 m (omega arith) e₁))
