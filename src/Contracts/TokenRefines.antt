-- ===== src/Contracts/TokenRefines.antt =====
-- contracts/token.py: the bytecode answers as the ledger does.
use ethereum_blockchain.Prelude.{
  ℕ, ◌^◌, ◌<◌, ◌≤◌, ◌≡◌, refl, true, false, List, Option, ltb, ◌==◌, Bool-cases, inl, inr, All,
}
use ethereum_blockchain.Prelude.Dict.{Dict}
use ethereum_blockchain.Bytes.{from_bytes}
use ethereum_blockchain.World.{World}
use ethereum_blockchain.Evm.{Host, ExecutionContext}
use ethereum_blockchain.Contracts.Defs.{token_runtime_bytecode}
use ethereum_blockchain.Contracts.Selector.{selected, selected-window}
use ethereum_blockchain.Contracts.Replay.{Answer, deliver, Admissible, replay, replays}
use ethereum_blockchain.Contracts.Token.{balance, argument}
use ethereum_blockchain.Contracts.TokenCalls.{
  called-transfer, called-uncovered, called-balance_of, called-unknown,
}
use ethereum_blockchain.Contracts.Ledger.{Ledger, token_step, Keeps, Keeps-moved}

module _ (host : Host) (w : Option World) (fits : 32 ≤ host.memory_limit) where
  abbrev contract : ExecutionContext → Dict ℕ ℕ → Answer × Dict ℕ ℕ
  contract = deliver host token_runtime_bytecode w

  abbrev Agrees : (c : ExecutionContext) (st : Dict ℕ ℕ) (b : Ledger) → Answer × Ledger → Type 0
  Agrees c st b expected = ((contract c st).0 ≡ expected.0) × Keeps (contract c st).1 expected.1

  contract-Agrees :
      (c : ExecutionContext) (st : Dict ℕ ℕ) (b : Ledger)
      → Admissible 10301 c
      → Keeps st b
      → Agrees c st b (token_step c b)
  contract-Agrees c st b h r =
      let seen = selected-window c h.bytes in
      let from = from_bytes c.caller in
      elim (Bool-cases (0xa9059cbb == selected c)) [
        | inl same ↦ elim (Bool-cases (ltb (balance st from) (argument 36 c))) [
          | inl short ↦
              let short' : ltb (b from) (argument 36 c) ≡ true = rw (r.same from) at short in
              rw (called-uncovered host w c st h.enough same short, ← seen, same, short') (refl, r)
          | inr covered ↦
              let covered' : ltb (b from) (argument 36 c) ≡ false = rw (r.same from) at covered in
              rw (called-transfer host w c st h.enough same covered, ← seen, same, covered')
                (refl, Keeps-moved st b from (argument 4 c) (argument 36 c) covered' r)
        ]
        | inr other ↦ elim (Bool-cases (0x70a08231 == selected c)) [
          | inl same ↦
              let word : balance st (argument 4 c) < 2 ^ 256 =
                rw (r.same (argument 4 c)) (r.words (argument 4 c)) in
              rw
                (
                  called-balance_of host w c st h.enough other same word fits,
                  ← seen,
                  other,
                  same,
                  r.same (argument 4 c),
                )
                (refl, r)
          | inr other' ↦
              rw (called-unknown host w c st h.enough other other', ← seen, other, other') (refl, r)
        ]
      ]

-- Whatever calls are made on the token's bytecode, one after the other and each with at least
-- 10301 gas and a byte string as calldata, the machine gives the answers of a ledger that starts
-- with what the slots hold: a transfer that the caller's balance covers takes the amount from it
-- and adds it, modulo 2^256, to the recipient's balance, which may be the caller's own, one that
-- it does not cover fails, balanceOf gives the balance, and any other call fails. The slots then
-- hold that ledger. The host can allocate a word, and every slot starts below 2^256.
pub replay-token :
    (host : Host) (w : Option World) (calls : List ExecutionContext) (st : Dict ℕ ℕ)
    → 32 ≤ host.memory_limit
    → ((who : ℕ) → balance st who < 2 ^ 256)
    → All (Admissible 10301) calls
    → ((replay (deliver host token_runtime_bytecode w) calls st).0
        ≡ (replay token_step calls (balance st)).0)
      × Keeps
          (replay (deliver host token_runtime_bytecode w) calls st).1
          (replay token_step calls (balance st)).1
replay-token host w calls st fits words h =
    replays (deliver host token_runtime_bytecode w) token_step 10301 Keeps
      (record { each = contract-Agrees host w fits }) calls st (balance st) h
      (record { same = λ k. refl; words = words })
