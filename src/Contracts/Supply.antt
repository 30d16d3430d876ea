-- ===== src/Contracts/Supply.antt =====
-- contracts/token.py: the sum of all that the storage keeps.
use ethereum_blockchain.Prelude.{
  ℕ, ◌+◌, ◌-◌, ◌^◌, ◌<◌, ◌≤◌, ◌≡◌, refl, false, List, [], ◌∷◌, Option, ltb, ◌==◌, Bool-cases, inl,
  inr, All, arith,
}
use ethereum_blockchain.Prelude.Dict.{Dict, nat_eq, lookup, insert}
use ethereum_blockchain.Bytes.{from_bytes}
use ethereum_blockchain.World.{World}
use ethereum_blockchain.Evm.{Host, ExecutionContext, add, sub}
use ethereum_blockchain.Contracts.Defs.{token_runtime_bytecode}
use ethereum_blockchain.Contracts.Selector.{selected}
use ethereum_blockchain.Contracts.Replay.{deliver, Admissible, replay, replay_keeps}
use ethereum_blockchain.Contracts.Token.{balance, argument, moved}
use ethereum_blockchain.Contracts.TokenCalls.{
  called-transfer, called-uncovered, called-balance_of, called-unknown,
}

unfoldable pub supply : Dict ℕ ℕ → ℕ
supply [] = 0
supply ((k, v) ∷ st) = v + supply st

supply-insert : (k v : ℕ) (st : Dict ℕ ℕ) → supply (insert k v st) + balance st k ≡ supply st + v
unfolding supply insert lookup
supply-insert k v [] = omega arith
supply-insert k v ((j, x) ∷ st) = elim (Bool-cases (j == k)) [
  | inl e ↦ rw e (omega arith)
  | inr e ↦ rw e (omega (arith, supply-insert k v st))
]

pub balance_le : (st : Dict ℕ ℕ) (k : ℕ) → balance st k ≤ supply st
unfolding supply lookup
balance_le [] k = omega arith
balance_le ((j, x) ∷ st) k = elim (Bool-cases (j == k)) [
  | inl e ↦ rw e (omega arith)
  | inr e ↦ rw e (omega (arith, balance_le st k))
]

-- A transfer that is covered, of a supply that fits in a word.
supply-moved :
    (from to amount : ℕ) (st : Dict ℕ ℕ)
    → ltb (balance st from) amount ≡ false
    → supply st < 2 ^ 256
    → supply (moved from to amount st) ≡ supply st
supply-moved from to amount st covered word =
    let le : amount ≤ balance st from = ground arith in
    let rest : sub (balance st from) amount ≡ balance st from - amount =
      omega (arith, balance_le st from) in
    let debited = insert from (balance st from - amount) st in
    let first = supply-insert from (balance st from - amount) st in
    let bound = balance_le debited to in
    let room : add (balance debited to) amount ≡ balance debited to + amount =
      omega (arith, first, bound, balance_le st from) in
    let second = supply-insert to (balance debited to + amount) debited in
    rw (rest, room) (omega (arith, first, second, balance_le st from))

module _ (host : Host) (w : Option World) (total : ℕ) (fits : 32 ≤ host.memory_limit)
    (small : total < 2 ^ 256) where
  supply-deliver :
      (c : ExecutionContext) (st : Dict ℕ ℕ)
      → Admissible 10301 c
      → supply st ≡ total
      → supply (deliver host token_runtime_bytecode w c st).1 ≡ total
  supply-deliver c st h same =
      let word : supply st < 2 ^ 256 = rw same small in
      let from = from_bytes c.caller in
      elim (Bool-cases (0xa9059cbb == selected c)) [
        | inl transfers ↦ elim (Bool-cases (ltb (balance st from) (argument 36 c))) [
          | inl short ↦ rw (called-uncovered host w c st h.enough transfers short) same
          | inr covered ↦
              rw
                (
                  called-transfer host w c st h.enough transfers covered,
                  supply-moved from (argument 4 c) (argument 36 c) st covered word,
                )
                same
        ]
        | inr other ↦ elim (Bool-cases (0x70a08231 == selected c)) [
          | inl reads ↦
              rw
                (called-balance_of host w c st h.enough other reads
                  (omega (arith, balance_le st (argument 4 c))) fits)
                same
          | inr other' ↦ rw (called-unknown host w c st h.enough other other') same
        ]
      ]

-- Whatever calls are made on the token's bytecode, each with at least 10301 gas and a byte string
-- as calldata, the sum of all that its storage holds stays the same, if it is below 2^256 and the
-- host can allocate a word.
pub supply-replay :
    (host : Host) (w : Option World) (calls : List ExecutionContext) (st : Dict ℕ ℕ)
    → 32 ≤ host.memory_limit
    → supply st < 2 ^ 256
    → All (Admissible 10301) calls
    → supply (replay (deliver host token_runtime_bytecode w) calls st).1 ≡ supply st
supply-replay host w calls st fits small h =
    replay_keeps (deliver host token_runtime_bytecode w) 10301 (λ s. supply s ≡ supply st)
      (supply-deliver host w (supply st) fits small) calls st h refl
