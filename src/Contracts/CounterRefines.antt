-- ===== src/Contracts/CounterRefines.antt =====
-- contracts/counter.py: the bytecode and the counter that it implements.
use ethereum_blockchain.Prelude.{
  ℕ, ◌+◌, ◌^◌, ◌%◌, ◌<◌, ◌≤◌, ◌≡◌, ◌≢◌, refl, true, false, List, [], Option, arith, ◌==◌,
  if◌then◌else◌, Bool-cases, inl, inr, All,
}
use ethereum_blockchain.Prelude.Dict.{
  Dict, nat_eq, lookup, insert, lookup-insert, lookup-insert_self,
}
use ethereum_blockchain.Bytes.{Bytes, digits, from_bytes, window}
use ethereum_blockchain.World.{World}
use ethereum_blockchain.Evm.{Host, ExecutionContext, add, new_frame}
use ethereum_blockchain.Contracts.Defs.{counter_runtime_bytecode}
use ethereum_blockchain.Contracts.Selector.{selected, selected-window}
use ethereum_blockchain.Contracts.Replay.{
  Answer, deliver, Ends-deliver, Admissible, replay, replays,
}
use ethereum_blockchain.Contracts.Counter.{count_of, increment-Ends, get_count-Ends, other-Ends}

-- The calls that the contract tells apart.
pub data CounterCall : Type 0 where
  increment_call get_count_call unknown_call : CounterCall

-- By the first four bytes of the calldata.
abbrev pub counter_call : Bytes → CounterCall
counter_call calldata =
    if 0xd09de08a == from_bytes (window calldata 0 4)
    then increment_call
    else if 0xa87d942c == from_bytes (window calldata 0 4)
    then get_count_call
    else unknown_call

-- A counter modulo 2 ^ 256 that can be incremented and read.
abbrev pub count : CounterCall → ℕ → Answer × ℕ
count increment_call n = (record { success = true; output = [] }, (n + 1) % 2 ^ 256)
count get_count_call n = (record { success = true; output = digits 32 n }, n)
count unknown_call n = (record { success = false; output = [] }, n)

abbrev pub counter_step : ExecutionContext → ℕ → Answer × ℕ
counter_step context n = count (counter_call context.calldata) n

-- The storage holds the count in slot 0; the other slots are those of `first`.
pub record Holds (first st : Dict ℕ ℕ) (n : ℕ) : Type 0 where
  pub same : count_of st ≡ n
  pub word : n < 2 ^ 256
  pub others : (k : ℕ) → k ≢ 0 → lookup k st ≡ lookup k first

Holds-insert :
    (first st : Dict ℕ ℕ) (n : ℕ)
    → Holds first st n
    → Holds first (insert 0 (add 1 (count_of st)) st) ((n + 1) % 2 ^ 256)
Holds-insert first st n r =
    let swap : n + 1 ≡ 1 + n = omega arith in
    record {
      same = rw (lookup-insert_self 0 (add 1 (count_of st)) st, r.same, swap) refl;
      word = omega arith;
      others = λ k apart.
          rw (lookup-insert 0 k (add 1 (count_of st)) st)
            (let differs : (0 == k) ≡ false = ground arith in rw differs (r.others k apart));
    }

module _ (host : Host) (w : Option World) (first : Dict ℕ ℕ) (fits : 32 ≤ host.memory_limit) where
  abbrev contract : ExecutionContext → Dict ℕ ℕ → Answer × Dict ℕ ℕ
  contract = deliver host counter_runtime_bytecode w

  abbrev Agrees : (c : ExecutionContext) (st : Dict ℕ ℕ) (n : ℕ) → Answer × ℕ → Type 0
  Agrees c st n expected =
      ((contract c st).0 ≡ expected.0) × Holds first (contract c st).1 expected.1

  module _ (c : ExecutionContext) (st : Dict ℕ ℕ) (n : ℕ) (h : Admissible 5151 c)
      (r : Holds first st n) where
    increment-Agrees : (0xd09de08a == selected c) ≡ true → Agrees c st n (count increment_call n)
    unfolding new_frame from_bytes
    increment-Agrees same =
        let called =
          Ends-deliver host counter_runtime_bytecode w c st 5151 _
            (increment-Ends host c w st c.gas same h.enough) h.enough refl refl in
        rw called (refl, Holds-insert first st n r)

    get_count-Agrees :
        (0xd09de08a == selected c) ≡ false
        → (0xa87d942c == selected c) ≡ true
        → Agrees c st n (count get_count_call n)
    unfolding new_frame from_bytes
    get_count-Agrees other same =
        let enough : 176 ≤ c.gas = omega (arith, h.enough) in
        let word : count_of st < 2 ^ 256 = rw (r.same) (r.word) in
        let called =
          Ends-deliver host counter_runtime_bytecode w c st 176 _
            (get_count-Ends host c w st c.gas other same enough word fits) enough refl refl in
        rw (called, r.same) (refl, r)

    other-Agrees :
        (0xd09de08a == selected c) ≡ false
        → (0xa87d942c == selected c) ≡ false
        → Agrees c st n (count unknown_call n)
    unfolding new_frame from_bytes
    other-Agrees other other' =
        let enough : 66 ≤ c.gas = omega (arith, h.enough) in
        let called =
          Ends-deliver host counter_runtime_bytecode w c st 66 _
            (other-Ends host c w st c.gas other other' enough) enough refl refl in
        rw called (refl, r)

  contract-Agrees :
      (c : ExecutionContext) (st : Dict ℕ ℕ) (n : ℕ)
      → Admissible 5151 c
      → Holds first st n
      → Agrees c st n (counter_step c n)
  contract-Agrees c st n h r =
      let seen = selected-window c h.bytes in
      elim (Bool-cases (0xd09de08a == selected c)) [
        | inl same ↦ rw (← seen, same) (increment-Agrees c st n h r same)
        | inr other ↦ elim (Bool-cases (0xa87d942c == selected c)) [
          | inl same ↦ rw (← seen, other, same) (get_count-Agrees c st n h r other same)
          | inr other' ↦ rw (← seen, other, other') (other-Agrees c st n h r other other')
        ]
      ]

-- Whatever calls are made on the counter's bytecode, one after the other and each with at least
-- 5151 gas and a byte string as calldata, the machine gives the answers of a counter modulo 2^256
-- that starts at what slot 0 holds: increment and getCount by the first four bytes of the
-- calldata, a failure for any others. Slot 0 then holds that counter, and every other slot is as
-- it was. The host can allocate a word, and slot 0 starts below 2^256.
pub replay-counter :
    (host : Host) (w : Option World) (calls : List ExecutionContext) (st : Dict ℕ ℕ)
    → 32 ≤ host.memory_limit
    → count_of st < 2 ^ 256
    → All (Admissible 5151) calls
    → ((replay (deliver host counter_runtime_bytecode w) calls st).0
        ≡ (replay counter_step calls (count_of st)).0)
      × Holds st
          (replay (deliver host counter_runtime_bytecode w) calls st).1
          (replay counter_step calls (count_of st)).1
replay-counter host w calls st fits word h =
    replays (deliver host counter_runtime_bytecode w) counter_step 5151 (Holds st)
      (record { each = contract-Agrees host w st fits }) calls st (count_of st) h
      (record { same = refl; word = word; others = λ k apart. refl })
