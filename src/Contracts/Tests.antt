-- ===== src/Contracts/Tests.antt =====
-- contracts/: calls and transactions on the counter and the token.
use ethereum_blockchain.Prelude.{
  ℕ, ◌+◌, ◌^◌, ◌%◌, ◌<◌, ◌≡◌, refl, Bool, true, List, [], ◌∷◌, ◌++◌, none, some, ltb, ◌==◌, ◌&&◌,
  if◌then◌else◌, Bool-cases, inl, inr, All, arith, length, replicate, ltb→lt,
}
use ethereum_blockchain.Prelude.Dict.{Dict, nat_eq, lookup, Distinct}
use ethereum_blockchain.Bytes.{Bytes, AreBytes, from_bytes, window}
use ethereum_blockchain.World.{World, get_account, get_storage}
use ethereum_blockchain.Evm.{Host, ExecutionContext, calculate_intrinsic_gas, calldata_gas}
use ethereum_blockchain.Transaction.{Transaction}
use ethereum_blockchain.Core.Valid.{IsValid}
use ethereum_blockchain.Core.Create.{Creates}
use ethereum_blockchain.Contracts.Defs.{
  counter_runtime_bytecode, token_runtime_bytecode, encode_transfer,
}
use ethereum_blockchain.Contracts.Replay.{deliver, replay, Admissible}
use ethereum_blockchain.Contracts.Counter.{count_of}
use ethereum_blockchain.Contracts.CounterRefines.{counter_step, Holds, replay-counter}
use ethereum_blockchain.Contracts.Token.{balance}
use ethereum_blockchain.Contracts.Ledger.{token_step, token_call, transfer_call, Keeps, pay}
use ethereum_blockchain.Contracts.TokenRefines.{replay-token}
use ethereum_blockchain.Contracts.Supply.{supply, supply-replay}
use ethereum_blockchain.Contracts.Calldata.{token_call-encode_transfer}
use ethereum_blockchain.Contracts.Init.{header, build_init_code}
use ethereum_blockchain.Contracts.Deployment.{deploy-Creates}
use ethereum_blockchain.Core.Call.{Fails}
use ethereum_blockchain.Contracts.Deployed.{Leaves}
use ethereum_blockchain.Contracts.Transactions.{
  refused-Fails, slots_of, increment-Leaves, transfer-Leaves,
}

-- A hash that knows the selector of transfer only.
abbrev host : Host
host = record { keccak256 = λ bs. 0xa9 ∷ 0x05 ∷ 0x9c ∷ 0xbb ∷ bs; memory_limit = 1_000_000 }

abbrev are_bytes : Bytes → Bool
are_bytes [] = true
are_bytes (b ∷ bs) = ltb b 256 && are_bytes bs

are_bytes-AreBytes : (bs : Bytes) → are_bytes bs ≡ true → AreBytes bs
are_bytes-AreBytes [] h = tt
are_bytes-AreBytes (b ∷ bs) h = elim (Bool-cases (ltb b 256)) [
  | inl small ↦ (ltb→lt b 256 small, are_bytes-AreBytes bs (rw small at h))
  | inr large ↦ absurd (let bad = rw large at h in cc)
]

abbrev context : Bytes → ExecutionContext
context calldata = record {
  caller = 1 ∷ [];
  address = 9 ∷ [];
  value = 0;
  calldata = calldata;
  gas = 20_000;
}

-- The calldata of the two calls of the counter.
abbrev increments : Bytes
increments = 0xd0 ∷ 0x9d ∷ 0xe0 ∷ 0x8a ∷ []

abbrev reads : Bytes
reads = 0xa8 ∷ 0x7d ∷ 0x94 ∷ 0x2c ∷ []

-- Forty tokens to the account 7.
abbrev sends : Bytes
sends = 0xa9 ∷ 0x05 ∷ 0x9c ∷ 0xbb ∷ (replicate 31 0 ++ (7 ∷ (replicate 31 0 ++ (40 ∷ []))))

-- Two increments, a call that the counter does not know, and a reading.
abbrev counter_calls : List ExecutionContext
counter_calls = context increments ∷ context increments ∷ context [] ∷ context reads ∷ []

counter_calls-Admissible : All (Admissible 5151) counter_calls
counter_calls-Admissible =
    let once : Admissible 5151 (context increments) = record {
      enough = omega arith;
      bytes = are_bytes-AreBytes increments refl;
    } in
    let empty : Admissible 5151 (context []) = record { enough = omega arith; bytes = tt } in
    let last : Admissible 5151 (context reads) = record {
      enough = omega arith;
      bytes = are_bytes-AreBytes reads refl;
    } in
    (once, (once, (empty, (last, tt))))

replay-counter_example :
    ((replay (deliver host counter_runtime_bytecode none) counter_calls []).0
      ≡ (replay counter_step counter_calls (count_of [])).0)
    × Holds []
        (replay (deliver host counter_runtime_bytecode none) counter_calls []).1
        (replay counter_step counter_calls (count_of [])).1
unfolding lookup
replay-counter_example =
    replay-counter host none counter_calls [] (omega arith) (omega arith) counter_calls-Admissible

-- The counter stands at two.
two_counted : (replay counter_step counter_calls 0).1 ≡ 2
unfolding replay window from_bytes
two_counted = refl

abbrev tokens : Dict ℕ ℕ
tokens = (1, 100) ∷ (7, 5) ∷ []

abbrev token_calls : List ExecutionContext
token_calls = context sends ∷ context sends ∷ context sends ∷ []

token_calls-Admissible : All (Admissible 10301) token_calls
token_calls-Admissible =
    let once : Admissible 10301 (context sends) = record {
      enough = omega arith;
      bytes = are_bytes-AreBytes sends refl;
    } in
    (once, (once, (once, tt)))

tokens_are_words : (who : ℕ) → balance tokens who < 2 ^ 256
unfolding lookup
tokens_are_words who = ground arith

replay-token_example :
    ((replay (deliver host token_runtime_bytecode none) token_calls tokens).0
      ≡ (replay token_step token_calls (balance tokens)).0)
    × Keeps
        (replay (deliver host token_runtime_bytecode none) token_calls tokens).1
        (replay token_step token_calls (balance tokens)).1
replay-token_example =
    replay-token host none token_calls tokens (omega arith) tokens_are_words token_calls-Admissible

-- The third transfer is not covered.
twenty_left : (replay token_step token_calls (balance tokens)).1 1 ≡ 20
unfolding replay window from_bytes lookup
twenty_left = refl

supply_fits : supply tokens < 2 ^ 256
unfolding supply
supply_fits = omega arith

supply-replay_example :
    supply (replay (deliver host token_runtime_bytecode none) token_calls tokens).1 ≡ supply tokens
supply-replay_example =
    supply-replay host none token_calls tokens (omega arith) supply_fits token_calls-Admissible

token_call-encode_transfer_example :
    (calldata : Bytes) × (encode_transfer host.keccak256 (replicate 20 7) 40 ≡ some calldata)
    × (length calldata ≡ 68)
    × (token_call calldata ≡ transfer_call (from_bytes (replicate 20 7)) 40)
token_call-encode_transfer_example =
    token_call-encode_transfer host.keccak256 (replicate 20 7) 40 refl refl (omega arith)

-- The sender 1, and the two contracts at 9 and 8.
abbrev world : World
world =
    (1 ∷ [], record { nonce = 0; balance = 1_000_000; code = []; storage = [] })
    ∷ (
      9 ∷ [],
      record { nonce = 1; balance = 0; code = counter_runtime_bytecode; storage = (0, 41) ∷ [] },
    )
    ∷ (8 ∷ [], record { nonce = 1; balance = 0; code = token_runtime_bytecode; storage = tokens })
    ∷ []

abbrev transaction : Bytes → Bytes → Transaction
transaction to calldata = record {
  nonce = 0;
  gas_price = 1;
  gas = 60_000;
  to = to;
  value = 0;
  calldata = calldata;
  v = 0;
  r = 0;
  s = 0;
}

abbrev incrementing : Transaction
incrementing = transaction (9 ∷ []) increments

abbrev sending : Transaction
sending = transaction (8 ∷ []) sends

abbrev deploying : Transaction
deploying = transaction [] (header 88 ++ counter_runtime_bytecode)

incrementing-IsValid : IsValid incrementing world 1_000_000 (1 ∷ [])
unfolding get_account lookup calculate_intrinsic_gas calldata_gas
incrementing-IsValid = record {
  nonce = refl;
  balance = omega arith;
  block = omega arith;
  intrinsic = omega arith;
}

sending-IsValid : IsValid sending world 1_000_000 (1 ∷ [])
unfolding get_account lookup calculate_intrinsic_gas calldata_gas
sending-IsValid = record {
  nonce = refl;
  balance = omega arith;
  block = omega arith;
  intrinsic = omega arith;
}

deploying-IsValid : IsValid deploying world 1_000_000 (1 ∷ [])
unfolding get_account lookup calculate_intrinsic_gas calldata_gas
deploying-IsValid = record {
  nonce = refl;
  balance = omega arith;
  block = omega arith;
  intrinsic = omega arith;
}

increment-Leaves_example :
    Leaves host incrementing world
      (1 ∷ [])
      []
      5151
      (λ j. if 0 == j then (slots_of (9 ∷ []) world 0 + 1) % 2 ^ 256 else slots_of (9 ∷ []) world j)
unfolding get_account lookup Distinct calculate_intrinsic_gas calldata_gas window from_bytes
increment-Leaves_example =
    increment-Leaves host incrementing world 1_000_000 (1 ∷ []) incrementing-IsValid (λ e. cc)
      (refl, tt) (are_bytes-AreBytes increments refl) refl refl (omega arith)

transfer-Leaves_example :
    Leaves host sending world (1 ∷ []) [] 10301 (pay 1 7 40 (slots_of (8 ∷ []) world))
unfolding get_account get_storage lookup Distinct calculate_intrinsic_gas calldata_gas window
    from_bytes
transfer-Leaves_example =
    transfer-Leaves host sending world 1_000_000 (1 ∷ []) sending-IsValid (λ e. cc)
      (refl, (refl, tt)) (are_bytes-AreBytes sends refl) 7 40 refl refl (omega arith)
      (λ who. tokens_are_words who) (omega arith)

deploy-Creates_example : Creates host deploying world (1 ∷ []) counter_runtime_bytecode 18 []
unfolding build_init_code calculate_intrinsic_gas calldata_gas
deploy-Creates_example =
    deploy-Creates host deploying world 1_000_000 (1 ∷ []) counter_runtime_bytecode
      deploying-IsValid refl refl (omega arith) (omega arith) (omega arith)

-- A thousand tokens to the account 7.
abbrev overdraws : Bytes
overdraws = 0xa9 ∷ 0x05 ∷ 0x9c ∷ 0xbb ∷ (replicate 31 0 ++ (7 ∷ (replicate 30 0 ++ (3 ∷ 232 ∷ []))))

abbrev overdrawing : Transaction
overdrawing = transaction (8 ∷ []) overdraws

overdrawing-IsValid : IsValid overdrawing world 1_000_000 (1 ∷ [])
unfolding get_account lookup calculate_intrinsic_gas calldata_gas
overdrawing-IsValid = record {
  nonce = refl;
  balance = omega arith;
  block = omega arith;
  intrinsic = omega arith;
}

refused-Fails_example : Fails host overdrawing world (1 ∷ []) []
unfolding get_account get_storage lookup calculate_intrinsic_gas calldata_gas window from_bytes
refused-Fails_example =
    refused-Fails host overdrawing world 1_000_000 (1 ∷ []) overdrawing-IsValid (λ e. cc)
      (are_bytes-AreBytes overdraws refl) refl refl (omega arith)
