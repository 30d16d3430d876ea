-- ===== src/Memory/Defs.antt =====
-- evm/memory.py. A `Memory` is its `_data`. `limit` is the largest byte array that the host can
-- allocate: past it the `extend` of `_expand_to` raises (MemoryError or OverflowError), which is
-- `none` here, as is the OverflowError of `to_bytes` in `store`.
use ethereum_blockchain.Prelude.{
  ℕ, ◌+◌, ◌-◌, ◌*◌, ◌/◌, ◌%◌, [], ◌++◌, Option, none, some, ltb, ◌==◌, if◌then◌else◌, length, take,
  drop, replicate, set,
}
use ethereum_blockchain.Prelude.Maybe.{◌>>=◌}
use ethereum_blockchain.Bytes.{Bytes, from_bytes, to_bytes}
use ethereum_blockchain.Rlp.{slice}

-- The next multiple of 32.
abbrev pub round_up : ℕ → ℕ
round_up needed = (needed + 31) / 32 * 32

unfoldable pub expand_to : ℕ → Bytes → ℕ → ℕ → Option Bytes
expand_to limit m offset size =
    if size == 0
    then some m
    else if ltb (length m) (offset + size)
    then if ltb limit (round_up (offset + size))
      then none
      else some (m ++ replicate (round_up (offset + size) - length m) 0)
    else some m

-- `_data[offset:offset + len(bs)] = bs`, within the size.
unfoldable pub write_at : Bytes → ℕ → Bytes → Bytes
write_at m offset bs = take offset m ++ (bs ++ drop (offset + length bs) m)

unfoldable pub load : ℕ → ℕ → Bytes → Option (ℕ × Bytes)
load limit offset m = do
  m' ← expand_to limit m offset 32
  some (from_bytes (slice m' offset (offset + 32)), m')

unfoldable pub store : ℕ → ℕ → ℕ → Bytes → Option Bytes
store limit offset value m = do
  m' ← expand_to limit m offset 32
  word ← to_bytes 32 value
  some (write_at m' offset word)

unfoldable pub store8 : ℕ → ℕ → ℕ → Bytes → Option Bytes
store8 limit offset value m = do m' ← expand_to limit m offset 1; some (set m' offset (value % 256))

unfoldable pub read_range : ℕ → ℕ → ℕ → Bytes → Option (Bytes × Bytes)
read_range limit offset size m =
    if size == 0
    then some ([], m)
    else do m' ← expand_to limit m offset size; some (slice m' offset (offset + size), m')

unfoldable pub write_range : ℕ → ℕ → Bytes → Bytes → Option Bytes
write_range limit offset bs m =
    if length bs == 0
    then some m
    else do m' ← expand_to limit m offset (length bs); some (write_at m' offset bs)

unfoldable pub size : Bytes → ℕ
size m = length m
