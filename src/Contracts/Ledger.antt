-- ===== src/Contracts/Ledger.antt =====
-- contracts/token.py: the ledger that the bytecode implements, and the storage that holds it.
use ethereum_blockchain.Prelude.{
  ℕ, ◌+◌, ◌-◌, ◌^◌, ◌%◌, ◌<◌, ◌≤◌, ◌≡◌, refl, true, false, [], ltb, ◌==◌, if◌then◌else◌, Bool-cases,
  inl, inr, arith,
}
use ethereum_blockchain.Prelude.Dict.{Dict, nat_eq, insert, lookup-insert}
use ethereum_blockchain.Bytes.{Bytes, digits, from_bytes, window}
use ethereum_blockchain.Evm.{ExecutionContext, sub}
use ethereum_blockchain.Contracts.Replay.{Answer}
use ethereum_blockchain.Contracts.Token.{balance, moved}

-- The calls that the contract tells apart, with their arguments.
pub data TokenCall : Type 0 where
  transfer_call : ℕ → ℕ → TokenCall
  balance_of_call : ℕ → TokenCall
  unknown_call : TokenCall

-- By the first four bytes of the calldata; an argument past the end reads as zeros.
abbrev pub token_call : Bytes → TokenCall
token_call calldata =
    if 0xa9059cbb == from_bytes (window calldata 0 4)
    then transfer_call (from_bytes (window calldata 4 32)) (from_bytes (window calldata 36 32))
    else if 0x70a08231 == from_bytes (window calldata 0 4)
    then balance_of_call (from_bytes (window calldata 4 32))
    else unknown_call

abbrev pub Ledger : Type 0
Ledger = ℕ → ℕ

abbrev pub put : ℕ → ℕ → Ledger → Ledger
put who amount b k = if who == k then amount else b k

abbrev pub pay : ℕ → ℕ → ℕ → Ledger → Ledger
pay from to amount b =
    let debited = put from (b from - amount) b in put to ((debited to + amount) % 2 ^ 256) debited

-- A ledger in which the caller can move what it has, added modulo 2^256, and anyone can read a
-- balance.
abbrev pub serve : ℕ → TokenCall → Ledger → Answer × Ledger
serve from (transfer_call to amount) b =
    if ltb (b from) amount
    then (record { success = false; output = [] }, b)
    else (record { success = true; output = [] }, pay from to amount b)
serve from (balance_of_call who) b = (record { success = true; output = digits 32 (b who) }, b)
serve from unknown_call b = (record { success = false; output = [] }, b)

abbrev pub token_step : ExecutionContext → Ledger → Answer × Ledger
token_step context b = serve (from_bytes context.caller) (token_call context.calldata) b

-- The storage holds the ledger.
pub record Keeps (st : Dict ℕ ℕ) (b : Ledger) : Type 0 where
  pub same : (k : ℕ) → balance st k ≡ b k
  pub words : (k : ℕ) → b k < 2 ^ 256

balance-insert :
    (who amount k : ℕ) (st : Dict ℕ ℕ)
    → balance (insert who amount st) k ≡ (if who == k then amount else balance st k)
balance-insert who amount k st = elim (Bool-cases (who == k)) [
  | inl e ↦ rw (lookup-insert who k amount st, e) refl
  | inr e ↦ rw (lookup-insert who k amount st, e) refl
]

Keeps-insert :
    (st : Dict ℕ ℕ) (b : Ledger) (who amount : ℕ)
    → amount < 2 ^ 256
    → Keeps st b
    → Keeps (insert who amount st) (put who amount b)
Keeps-insert st b who amount word r = record {
  same = λ k. rw (balance-insert who amount k st, r.same k) refl;
  words = λ k. elim (Bool-cases (who == k)) [ inl e ↦ rw e word | inr e ↦ rw e (r.words k) ];
}

sub_covered : (a b : ℕ) → b ≤ a → a < 2 ^ 256 → sub a b ≡ a - b
sub_covered a b le word = omega arith

-- A transfer that is covered, in the storage and in the ledger.
pub Keeps-moved :
    (st : Dict ℕ ℕ) (b : Ledger) (from to amount : ℕ)
    → ltb (b from) amount ≡ false
    → Keeps st b
    → Keeps (moved from to amount st) (pay from to amount b)
Keeps-moved st b from to amount covered r =
    let word = r.words from in
    let le : amount ≤ b from = ground arith in
    let rest : sub (balance st from) amount ≡ b from - amount =
      rw (r.same from) (sub_covered (b from) amount le word) in
    let debited = Keeps-insert st b from (b from - amount) (omega arith) r in
    let left = put from (b from - amount) b to in
    rw (rest, debited.same to)
      (Keeps-insert (insert from (b from - amount) st) (put from (b from - amount) b) to
        ((left + amount) % 2 ^ 256) (omega arith) debited)
