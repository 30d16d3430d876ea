-- ===== src/Memory/Tests.antt =====
-- Runs of evm/memory.py on small inputs.
use ethereum_blockchain.Prelude.{ℕ, ◌%◌, ◌^◌, ◌<◌, ◌≡◌, refl, [], ◌∷◌, ◌++◌, some, arith, inl}
use ethereum_blockchain.Bytes.{Bytes, byte_at, from_bytes, digits, to_bytes, window}
use ethereum_blockchain.Memory.Defs.{
  expand_to, write_at, load, store, store8, read_range, write_range,
}
use ethereum_blockchain.Memory.Bytewise.{
  Expands, Writes, write_range-Writes, store-Writes, store8-Writes,
}
use ethereum_blockchain.Memory.Words.{
  load-window, read_range-window, load-store_total, load-store_apart, read_range-write_range,
}

abbrev word : Bytes
word = digits 32 258

-- A word at 0 in an empty memory.
abbrev one_word : Bytes
one_word =
    0 ∷ 0 ∷ 0 ∷ 0 ∷ 0 ∷ 0 ∷ 0 ∷ 0 ∷ 0 ∷ 0 ∷ 0 ∷ 0 ∷ 0 ∷ 0 ∷ 0 ∷ 0 ∷ 0 ∷ 0 ∷ 0 ∷ 0 ∷ 0 ∷ 0 ∷ 0 ∷ 0
    ∷ 0 ∷ 0 ∷ 0 ∷ 0 ∷ 0 ∷ 0 ∷ 1 ∷ 2 ∷ []

stored : store 1000 0 258 [] ≡ some one_word
unfolding store expand_to write_at to_bytes digits
stored = refl

loaded : load 1000 0 one_word ≡ some (258, one_word)
unfolding load expand_to from_bytes
loaded = refl

zeros_loaded : load 1000 32 [] ≡ some (0, window [] 0 64)
unfolding load expand_to from_bytes window
zeros_loaded = refl

apart_loaded : load 1000 32 one_word ≡ some (0, one_word ++ window [] 0 32)
unfolding load expand_to from_bytes window
apart_loaded = refl

range_read : read_range 1000 30 3 one_word ≡ some (1 ∷ 2 ∷ 0 ∷ [], one_word ++ window [] 0 32)
unfolding read_range expand_to window
range_read = refl

range_written : write_range 1000 30 (1 ∷ 2 ∷ []) one_word ≡ some one_word
unfolding write_range expand_to write_at
range_written = refl

range_kept : read_range 1000 30 2 one_word ≡ some (1 ∷ 2 ∷ [], one_word)
unfolding read_range expand_to
range_kept = refl

byte_stored : store8 1000 31 258 one_word ≡ some one_word
unfolding store8 expand_to
byte_stored = refl

load-window_example : (258 ≡ from_bytes (window one_word 0 32)) × Expands one_word 32 one_word
load-window_example = load-window 1000 0 one_word loaded

store-Writes_example : (258 < 256 ^ 32) × Writes [] 0 (digits 32 258) one_word
store-Writes_example = store-Writes 1000 0 258 [] stored

load-store_apart_example : ◌≡◌ {A = ℕ} 0 0
load-store_apart_example =
    load-store_apart 1000 0 32 258 [] (inl (omega arith)) zeros_loaded stored apart_loaded

read_range-window_example :
    (1 ∷ 2 ∷ 0 ∷ [] ≡ window one_word 30 3)
    × ((i : ℕ) → byte_at (one_word ++ window [] 0 32) i ≡ byte_at one_word i)
    × (32 % 32 ≡ 0 → 64 % 32 ≡ 0)
unfolding window
read_range-window_example = read_range-window 1000 30 3 one_word range_read

write_range-Writes_example : Writes one_word 30 (1 ∷ 2 ∷ []) one_word
write_range-Writes_example = write_range-Writes 1000 30 (1 ∷ 2 ∷ []) one_word range_written

read_range-write_range_example : ◌≡◌ {A = Bytes} (1 ∷ 2 ∷ []) (1 ∷ 2 ∷ [])
read_range-write_range_example =
    read_range-write_range 1000 30 (1 ∷ 2 ∷ []) one_word range_written range_kept

store8-Writes_example : Writes one_word 31 (2 ∷ []) one_word
store8-Writes_example = store8-Writes 1000 31 258 one_word byte_stored

load-store_total_example :
    (m₁ : Bytes) × (m₂ : Bytes) × (store 1000 8 77 [] ≡ some m₁) × (load 1000 8 m₁ ≡ some (77, m₂))
load-store_total_example = load-store_total 1000 8 77 [] (omega arith) (omega arith)
