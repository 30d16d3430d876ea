-- ===== src/Contracts/ReturnWord.antt =====
-- contracts/counter.py and contracts/token.py: the code that returns one word, which both contracts share.
use ethereum_blockchain.Prelude.{
  ℕ, ◌+◌, ◌^◌, ◌<◌, ◌≤◌, ◌≡◌, refl, true, false, [], ◌∷◌, Option, some, arith, ltb, length, take,
  get_elem?,
}
use mathlib.Core.List.{append-nil}
use ethereum_blockchain.Prelude.Dict.{Dict}
use ethereum_blockchain.Bytes.{Bytes, digits, some-digits, length-digits}
use ethereum_blockchain.Memory
use ethereum_blockchain.World.{World}
use ethereum_blockchain.Evm.{Host, ExecutionContext, ok}
use ethereum_blockchain.Evm.Trace.{Ends}
use ethereum_blockchain.Evm.Rules.{at, push1-Ends}
use ethereum_blockchain.Evm.Effects.{mstore-Ends}
use ethereum_blockchain.Evm.Halts.{return-Ends}

take-length : (bs : Bytes) → take (length bs) bs ≡ bs
take-length [] = refl
take-length (b ∷ bs) = rw (take-length bs) refl

store_first :
    (limit v : ℕ) → v < 256 ^ 32 → 32 ≤ limit → Memory.store limit 0 v [] ≡ some (digits 32 v)
unfolding Memory.store Memory.expand_to Memory.write_at
store_first limit v word fits =
    let room : ltb limit 32 ≡ false = ground arith in
    rw (room, some-digits 32 v word, length-digits 32 v, append-nil (digits 32 v)) refl

read_first :
    (limit v : ℕ) → Memory.read_range limit 0 32 (digits 32 v) ≡ some (digits 32 v, digits 32 v)
unfolding Memory.read_range Memory.expand_to
read_first limit v =
    let size = length-digits 32 v in
    let whole : take 32 (digits 32 v) ≡ digits 32 v = rw size at (take-length (digits 32 v)) in
    rw (size, whole) refl

module _ (host : Host) (code : Bytes) (context : ExecutionContext) (w : Option World) where
  -- PUSH1 0, MSTORE, PUSH1 32, PUSH1 0, RETURN.
  pub return_word-Ends :
      (pc v : ℕ) (st : Dict ℕ ℕ) (g g' : ℕ)
      → get_elem? code pc ≡ some 0x60
      → get_elem? code (pc + 1) ≡ some 0x00
      → get_elem? code (pc + 2) ≡ some 0x52
      → get_elem? code (pc + 2 + 1) ≡ some 0x60
      → get_elem? code (pc + 2 + 1 + 1) ≡ some 0x20
      → get_elem? code (pc + 2 + 1 + 2) ≡ some 0x60
      → get_elem? code (pc + 2 + 1 + 2 + 1) ≡ some 0x00
      → get_elem? code (pc + 2 + 1 + 2 + 2) ≡ some 0xf3
      → v < 256 ^ 32
      → 32 ≤ host.memory_limit
      → g' + 12 ≡ g
      → Ends host (at host code context w pc (v ∷ []) [] st g) (
        ok tt,
        record (at host code context w (pc + 2 + 1 + 2 + 2 + 1) [] (digits 32 v) st g') {
          return_data = digits 32 v;
          stopped = true;
        },
      )
  return_word-Ends pc v st g g' e₀ e₁ e₂ e₃ e₄ e₅ e₆ e₇ word fits left =
      push1-Ends host code context w pc 0 _ [] st g _ e₀ e₁ refl (omega arith) (
        mstore-Ends host code context w (pc + 2) [] [] st _ _ 0 v (digits 32 v) e₂
          (store_first host.memory_limit v word fits) (omega arith)
          (push1-Ends host code context w (pc + 2 + 1) 32 _ _ st _ _ e₃ e₄ refl (omega arith) (
            push1-Ends host code context w (pc + 2 + 1 + 2) 0 _ _ st _ _ e₅ e₆ refl (omega arith) (
              return-Ends host code context w (pc + 2 + 1 + 2 + 2) [] _ st _ g' (omega arith) 0 32
                (digits 32 v) (digits 32 v) e₇ (read_first host.memory_limit v)))))
