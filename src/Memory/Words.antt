-- ===== src/Memory/Words.antt =====
-- evm/memory.py: what `load` and `read_range` return, and that they read back what was written.
use ethereum_blockchain.Prelude.{
  ℕ, ◌+◌, ◌-◌, ◌^◌, ◌%◌, ◌≤◌, ◌<◌, ◌≡◌, refl, sym, ◌∙◌, ap, [], ◌++◌, replicate, some, arith, false,
  Bool-cases, inl, inr, ltb, ◌==◌, length, take, drop, length-take, length-drop, get_or-take,
  get_or-drop, ◌⊎◌,
}
use ethereum_blockchain.Prelude.Maybe.{>>=-eq-some}
use ethereum_blockchain.Bytes.{
  Bytes, byte_at, window, window-eq, window_congr, digits, from_bytes, length-digits,
  from_bytes-digits, some-digits,
}
use ethereum_blockchain.Rlp.{slice}
use ethereum_blockchain.Memory.Defs.{
  round_up, expand_to, write_at, load, store, read_range, write_range,
}
use ethereum_blockchain.Memory.Bytewise.{
  Expands, expand_to-Expands, Writes, store-Writes, write_range-Writes,
}

-- A slice within the bounds is the window.
slice-window : (m : Bytes) (o n : ℕ) → o + n ≤ length m → slice m o (o + n) ≡ window m o n
slice-window m o n h =
    let e : o + n - o ≡ n = omega arith in
    rw e (
      sym (
        window-eq m o n (take n (drop o m))
          (omega (arith, length-take n (drop o m), length-drop o m))
          λ i lt. rw (get_or-take n (drop o m) i 0, get_or-drop o m i 0) (ground arith)))

-- A successful load gives the big-endian number of the 32 bytes at the offset, zeros past the end
-- included, and only expands the memory.
pub load-window :
    (limit offset : ℕ) (m : Bytes) {v : ℕ} {m' : Bytes}
    → load limit offset m ≡ some (v, m')
    → (v ≡ from_bytes (window m offset 32)) × Expands m (offset + 32) m'
unfolding load
load-window limit offset m {v} {m'} e =
    let (m₁, e₁, e₂) = >>=-eq-some (expand_to limit m offset 32) _ e in
    let x = expand_to-Expands limit offset 32 m (omega arith) e₁ in
    let value : v ≡ from_bytes (slice m₁ offset (offset + 32)) = cc in
    let same : m' ≡ m₁ = cc in
    (
      value
          ∙ ap from_bytes
              (slice-window m₁ offset 32 x.fits ∙ window_congr m m₁ offset 32 (λ i a b. x.kept i)),
      rw same x,
    )

-- A successful read_range returns the bytes of the range with zeros past the end of memory,
-- changes no byte, and keeps memory a whole number of words.
pub read_range-window :
    (limit offset size : ℕ) (m : Bytes) {bs m' : Bytes}
    → read_range limit offset size m ≡ some (bs, m')
    → (bs ≡ window m offset size)
      × ((i : ℕ) → byte_at m' i ≡ byte_at m i)
      × (length m % 32 ≡ 0 → length m' % 32 ≡ 0)
unfolding read_range
read_range-window limit offset size m {bs} {m'} e = elim (Bool-cases (size == 0)) [
  | inl empty ↦
      let none_read : size ≡ 0 = ground arith in
      let same : m' ≡ m = ground arith in
      let bytes : bs ≡ [] = ground arith in
      rw (bytes, none_read, same) (unfold window in refl, λ i. refl, λ h. h)
  | inr more ↦
      let (m₁, e₁, e₂) = >>=-eq-some (expand_to limit m offset size) _ (rw more at e) in
      let x = expand_to-Expands limit offset size m (ground arith) e₁ in
      let value : bs ≡ slice m₁ offset (offset + size) = cc in
      let same : m' ≡ m₁ = cc in
      (
        value
            ∙ slice-window m₁ offset size x.fits
            ∙ window_congr m m₁ offset size (λ i a b. x.kept i),
        rw same x.kept,
        rw same x.aligned,
      )
]

window-Writes :
    (m m' : Bytes) (offset : ℕ) (bs : Bytes)
    → Writes m offset bs m'
    → window m' offset (length bs) ≡ bs
window-Writes m m' offset bs w = window-eq m' offset (length bs) bs refl λ i lt.
    let back : offset + i - offset ≡ i = omega arith in
    rw (w.bytes (offset + i), back) (ground arith)

-- A word that was stored is what the next load there returns.
pub load-store :
    (limit offset value : ℕ) (m : Bytes) {m₁ m₂ : Bytes} {v : ℕ}
    → store limit offset value m ≡ some m₁
    → load limit offset m₁ ≡ some (v, m₂)
    → v ≡ value
load-store limit offset value m {m₁} {m₂} {v} st ld =
    let (fits, w) = store-Writes limit offset value m st in
    let written : window m₁ offset 32 ≡ digits 32 value =
      rw (length-digits 32 value) at (window-Writes m m₁ offset (digits 32 value) w) in
    (load-window limit offset m₁ ld).0 ∙ ap from_bytes written ∙ from_bytes-digits 32 value fits

-- Where the host can allocate the words, an access succeeds.
expand_to_total :
    (limit offset size : ℕ) (m : Bytes)
    → round_up (offset + size) ≤ limit
    → (m' : Bytes) × (expand_to limit m offset size ≡ some m')
unfolding expand_to
expand_to_total limit offset size m h = elim (Bool-cases (size == 0)) [
  | inl e ↦ (m, rw e)
  | inr e ↦ elim (Bool-cases (ltb (length m) (offset + size))) [
    | inl small ↦
        (m ++ replicate (round_up (offset + size) - length m) 0, rw (e, small) (ground arith))
    | inr large ↦ (m, rw (e, large))
  ]
]

-- A word below 2^256 stored at an offset within the host's limit is stored, and loading at that
-- offset gives it back.
pub load-store_total :
    (limit offset value : ℕ) (m : Bytes)
    → value < 256 ^ 32
    → round_up (offset + 32) ≤ limit
    → (m₁ : Bytes) × (m₂ : Bytes) × (store limit offset value m ≡ some m₁)
      × (load limit offset m₁ ≡ some (value, m₂))
load-store_total limit offset value m word fits =
    let (x, ex) = expand_to_total limit offset 32 m fits in
    let stored : store limit offset value m ≡ some (write_at x offset (digits 32 value)) =
      unfold store in rw (ex, some-digits 32 value word) in
    let m₁ = write_at x offset (digits 32 value) in
    let (y, ey) = expand_to_total limit offset 32 m₁ fits in
    let loaded : load limit offset m₁ ≡ some (from_bytes (slice y offset (offset + 32)), y) =
      unfold load in rw ey in
    let value_back = load-store limit offset value m stored loaded in
    (m₁, y, stored, loaded ∙ ap (λ v. some (v, y)) value_back)

-- A store leaves the words that do not overlap it as they were.
pub load-store_apart :
    (limit offset other value : ℕ) (m : Bytes) {m₁ m₂ m₃ : Bytes} {u v : ℕ}
    → (offset + 32 ≤ other) ⊎ (other + 32 ≤ offset)
    → load limit other m ≡ some (u, m₃)
    → store limit offset value m ≡ some m₁
    → load limit other m₁ ≡ some (v, m₂)
    → v ≡ u
load-store_apart limit offset other value m {m₁} apart ld st ld' =
    let w = (store-Writes limit offset value m st).1 in
    let same : window m₁ other 32 ≡ window m other 32 =
      window_congr m m₁ other 32 λ i a b. rw (w.bytes i, length-digits 32 value) (ground arith) in
    (load-window limit other m₁ ld').0 ∙ ap from_bytes same ∙ sym (load-window limit other m ld).0

-- A range that was written reads back as what was written, if both calls succeed.
pub read_range-write_range :
    (limit offset : ℕ) (bs m : Bytes) {m₁ m₂ r : Bytes}
    → write_range limit offset bs m ≡ some m₁
    → read_range limit offset (length bs) m₁ ≡ some (r, m₂)
    → r ≡ bs
read_range-write_range limit offset bs m {m₁} wr rd =
    (read_range-window limit offset (length bs) m₁ rd).0
    ∙ window-Writes m m₁ offset bs (write_range-Writes limit offset bs m wr)

-- A range written at the start of an empty memory is written, and reads back.
pub read_range-write_range_total :
    (limit : ℕ) (bs : Bytes)
    → (length bs == 0) ≡ false
    → round_up (length bs) ≤ limit
    → (m₁ : Bytes) × (m₂ : Bytes) × (write_range limit 0 bs [] ≡ some m₁)
      × (read_range limit 0 (length bs) m₁ ≡ some (bs, m₂))
read_range-write_range_total limit bs nonempty fits =
    let first : 0 + length bs ≡ length bs = omega arith in
    let fits' : round_up (0 + length bs) ≤ limit = rw first fits in
    let (x, ex) = expand_to_total limit 0 (length bs) [] fits' in
    let m₁ = write_at x 0 bs in
    let written : write_range limit 0 bs [] ≡ some m₁ =
      unfold write_range in rw (nonempty, ex) refl in
    let (y, ey) = expand_to_total limit 0 (length bs) m₁ fits' in
    let back : read_range limit 0 (length bs) m₁ ≡ some (slice y 0 (0 + length bs), y) =
      unfold read_range in rw (nonempty, ey) refl in
    let same = read_range-write_range limit 0 bs [] written back in
    (m₁, y, written, back ∙ ap (λ r. some (r, y)) same)
