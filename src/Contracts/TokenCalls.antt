-- ===== src/Contracts/TokenCalls.antt =====
-- contracts/token.py: what each call of the bytecode answers, and the storage after it.
use ethereum_blockchain.Prelude.{
  ℕ, ◌^◌, ◌<◌, ◌≤◌, ◌≡◌, refl, true, false, [], Option, ltb, ◌==◌, arith,
}
use ethereum_blockchain.Prelude.Dict.{Dict}
use ethereum_blockchain.Bytes.{digits, from_bytes}
use ethereum_blockchain.World.{World}
use ethereum_blockchain.Evm.{Host, ExecutionContext, new_frame}
use ethereum_blockchain.Contracts.Defs.{token_runtime_bytecode}
use ethereum_blockchain.Contracts.Selector.{selected}
use ethereum_blockchain.Contracts.Replay.{Answer, deliver, Ends-deliver}
use ethereum_blockchain.Contracts.Token.{
  balance, argument, moved, transfer-Ends, uncovered-Ends, balance_of-Ends, other-Ends,
}

abbrev pub reverted : Answer
reverted = record { success = false; output = [] }

module _ (host : Host) (w : Option World) (c : ExecutionContext) (st : Dict ℕ ℕ)
    (enough : 10301 ≤ c.gas) where
  abbrev answer : Answer × Dict ℕ ℕ
  answer = deliver host token_runtime_bytecode w c st

  pub called-transfer :
      (0xa9059cbb == selected c) ≡ true
      → ltb (balance st (from_bytes c.caller)) (argument 36 c) ≡ false
      → answer ≡ (
        record { success = true; output = [] },
        moved (from_bytes c.caller) (argument 4 c) (argument 36 c) st,
      )
  unfolding new_frame from_bytes
  called-transfer same covered =
      Ends-deliver host token_runtime_bytecode w c st 10301 _
        (transfer-Ends host c w st c.gas same covered enough) enough refl refl

  pub called-uncovered :
      (0xa9059cbb == selected c) ≡ true
      → ltb (balance st (from_bytes c.caller)) (argument 36 c) ≡ true
      → answer ≡ (reverted, st)
  unfolding new_frame from_bytes
  called-uncovered same short =
      Ends-deliver host token_runtime_bytecode w c st 185 _
        (uncovered-Ends host c w st c.gas same short (omega (arith, enough)))
        (omega (arith, enough)) refl refl

  pub called-balance_of :
      (0xa9059cbb == selected c) ≡ false
      → (0x70a08231 == selected c) ≡ true
      → balance st (argument 4 c) < 2 ^ 256
      → 32 ≤ host.memory_limit
      → answer ≡ (record { success = true; output = digits 32 (balance st (argument 4 c)) }, st)
  unfolding new_frame from_bytes
  called-balance_of other same word fits =
      Ends-deliver host token_runtime_bytecode w c st 179 _
        (balance_of-Ends host c w st c.gas other same (omega (arith, enough)) word fits)
        (omega (arith, enough)) refl refl

  pub called-unknown :
      (0xa9059cbb == selected c) ≡ false
      → (0x70a08231 == selected c) ≡ false
      → answer ≡ (reverted, st)
  unfolding new_frame from_bytes
  called-unknown other other' =
      Ends-deliver host token_runtime_bytecode w c st 66 _
        (other-Ends host c w st c.gas other other' (omega (arith, enough))) (omega (arith, enough))
        refl refl
