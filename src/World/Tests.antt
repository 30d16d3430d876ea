-- ===== src/World/Tests.antt =====
-- Runs of state/world_state.py on a state of two accounts.
use ethereum_blockchain.Prelude.{
  ◌+◌, ◌≤◌, ◌<◌, ◌≡◌, ◌⊎◌, refl, ◌&&◌, ◌==◌, if◌then◌else◌, [], ◌∷◌, none, some, true, false,
  Bool-cases, inl, inr,
}
use ethereum_blockchain.Prelude.Dict.{
  beq_bytes, beq_bytes_iff, contains, Distinct, bytes_eq, lookup, insert, nat_eq,
}
use ethereum_blockchain.Bytes.{Bytes}
use ethereum_blockchain.World.Defs.{
  World, get_account, modify_account, deduct_balance, transfer, debit, credit, set_storage,
  account_exists, get_storage, create_genesis_state, add_balance, set_account,
}
use ethereum_blockchain.World.Lookup.{
  Moves, get_account-modify_account, deduct_balance_cases, transfer_cases, get_storage-set_storage,
}
use ethereum_blockchain.World.Root.{Agrees, state_root_placeholder, state_root_placeholder_congr}
use ethereum_blockchain.World.Total.{total, total-transfer, total-deduct_balance, balance-le-total}

abbrev alice : Bytes
alice = 1 ∷ []

abbrev bob : Bytes
bob = 2 ∷ []

abbrev start : World
start = create_genesis_state ((alice, 10) ∷ (bob, 5) ∷ [])

abbrev paid : World
paid = create_genesis_state ((alice, 7) ∷ (bob, 8) ∷ [])

seven_left : transfer alice bob 3 start ≡ some paid
unfolding transfer deduct_balance add_balance modify_account get_account create_genesis_state
    set_account lookup insert
seven_left = refl

deducted : deduct_balance alice 3 start ≡ some (create_genesis_state ((alice, 7) ∷ (bob, 5) ∷ []))
unfolding deduct_balance modify_account get_account create_genesis_state set_account lookup insert
deducted = refl

total_after_transfer : total paid ≡ total start
total_after_transfer = total-transfer alice bob 3 start seven_left

total_after_deduction : total (create_genesis_state ((alice, 7) ∷ (bob, 5) ∷ [])) + 3 ≡ total start
total_after_deduction = total-deduct_balance alice 3 start deducted

transfer_cases_example :
    (((get_account alice start).balance < 30) × (transfer alice bob 30 start ≡ none))
    ⊎ ((30 ≤ (get_account alice start).balance)
        × ((w' : World) × (transfer alice bob 30 start ≡ some w') × Moves alice bob 30 start w'))
transfer_cases_example = transfer_cases alice bob 30 start

deduct_balance_cases_example :
    (((get_account bob start).balance < 6) × (deduct_balance bob 6 start ≡ none))
    ⊎ ((6 ≤ (get_account bob start).balance)
        × (deduct_balance bob 6 start ≡ some (modify_account bob (debit 6) start)))
deduct_balance_cases_example = deduct_balance_cases bob 6 start

get_account-modify_account_example :
    get_account bob (modify_account alice (credit 1) start)
    ≡ (if beq_bytes alice bob then credit 1 (get_account alice start) else get_account bob start)
get_account-modify_account_example = get_account-modify_account alice bob (credit 1) start

get_storage-set_storage_example :
    get_storage alice 4 (set_storage alice 3 9 start)
    ≡ (if beq_bytes alice alice && (3 == 4) then 9 else get_storage alice 4 start)
get_storage-set_storage_example = get_storage-set_storage alice alice 3 4 9 start

balance-le-total_example : (get_account bob start).balance ≤ total start
balance-le-total_example = balance-le-total bob start

-- The same accounts in another order, one with a slot more.
abbrev reordered : World
reordered =
    (bob, record { nonce = 0; balance = 5; code = []; storage = (0, 9) ∷ [] })
    ∷ (alice, record { nonce = 0; balance = 10; code = []; storage = [] })
    ∷ []

abbrev ordered : World
ordered =
    (alice, record { nonce = 0; balance = 10; code = []; storage = [] })
    ∷ (bob, record { nonce = 0; balance = 5; code = []; storage = [] })
    ∷ []

abbrev hash : Bytes → Bytes
hash bs = 1 ∷ bs

not_both : (a : Bytes) → beq_bytes alice a ≡ true → beq_bytes bob a ≡ false
not_both a h = let is = (beq_bytes_iff alice a).0 h in rw (← is) refl

same_accounts :
    (a : Bytes)
    → (account_exists a ordered ≡ account_exists a reordered)
      × Agrees (get_account a ordered) (get_account a reordered)
unfolding account_exists contains get_account lookup
same_accounts a = elim (Bool-cases (beq_bytes alice a)) [
  | inl e ↦
      let other = not_both a e in
      rw (e, other, contains, get_account, lookup)
        (refl, record { nonce = refl; balance = refl; code = refl })
  | inr e ↦ elim (Bool-cases (beq_bytes bob a)) [
    | inl k ↦
        rw (e, k, contains, get_account, lookup)
          (refl, record { nonce = refl; balance = refl; code = refl })
    | inr k ↦
        rw (e, k, contains, get_account, lookup)
          (refl, record { nonce = refl; balance = refl; code = refl })
  ]
]

state_root_placeholder_congr_example :
    state_root_placeholder hash ordered ≡ state_root_placeholder hash reordered
unfolding Distinct lookup
state_root_placeholder_congr_example =
    state_root_placeholder_congr hash ordered reordered (refl, (refl, tt)) (refl, (refl, tt))
      (λ a. (same_accounts a).0) (λ a. (same_accounts a).1)
