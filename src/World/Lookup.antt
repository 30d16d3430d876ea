-- ===== src/World/Lookup.antt =====
-- state/world_state.py: what each method leaves at every address.
use ethereum_blockchain.Prelude.{
  ℕ, ◌+◌, ◌≤◌, ◌<◌, ◌≡◌, refl, none, some, arith, ltb, ◌==◌, ◌&&◌, if◌then◌else◌, Bool-cases, inl,
  inr,
}
use mathlib.Core.Logic.{◌⊎◌}
use ethereum_blockchain.Prelude.Dict
use ethereum_blockchain.Prelude.Dict.{
  Dict, nat_eq, bytes_eq, beq_bytes, beq_bytes_iff, lookup-insert,
}
use ethereum_blockchain.Bytes.{Bytes}
use ethereum_blockchain.World.Defs.{
  Account, World, or_empty, get_account, set_account, modify_account, add_balance, deduct_balance,
  transfer, get_storage, set_storage, credit, debit, with_storage,
}

-- After modify_account, the address has its old account with the change applied, or the changed
-- empty account if it had none, and every other address has the account it had.
pub get_account-modify_account :
    (a b : Bytes) (f : Account → Account) (w : World)
    → get_account b (modify_account a f w)
      ≡ (if beq_bytes a b then f (get_account a w) else get_account b w)
unfolding modify_account set_account get_account
get_account-modify_account a b f w =
    rw (lookup-insert a b (f (or_empty (Dict.lookup a w))) w) (ground arith)

-- Value is deducted exactly where the balance covers it.
pub deduct_balance_cases :
    (a : Bytes) (x : ℕ) (w : World)
    → (((get_account a w).balance < x) × (deduct_balance a x w ≡ none))
      ⊎ ((x ≤ (get_account a w).balance)
          × (deduct_balance a x w ≡ some (modify_account a (debit x) w)))
unfolding deduct_balance
deduct_balance_cases a x w = elim (Bool-cases (ltb (get_account a w).balance x)) [
  | inl short ↦ inl (ground arith, rw short)
  | inr covered ↦ inr (ground arith, rw covered)
]

-- What `x` wei moved from `s` to `r` does at every address, `s` and `r` equal or not: the balances,
-- and that nothing else changes.
pub record Moves (s r : Bytes) (x : ℕ) (w w' : World) : Type 0 where
  pub balances :
      (b : Bytes)
      → (get_account b w').balance + (if beq_bytes s b then x else 0)
        ≡ (get_account b w).balance + (if beq_bytes r b then x else 0)
  pub nonces : (b : Bytes) → (get_account b w').nonce ≡ (get_account b w).nonce
  pub codes : (b : Bytes) → (get_account b w').code ≡ (get_account b w).code
  pub storages : (b : Bytes) → (get_account b w').storage ≡ (get_account b w).storage

moved : Bytes → Bytes → ℕ → World → World
moved s r x w = modify_account r (credit x) (modify_account s (debit x) w)

moved-Moves :
    (s r : Bytes) (x : ℕ) (w : World)
    → x ≤ (get_account s w).balance
    → Moves s r x w (moved s r x w)
unfolding moved
moved-Moves s r x w h = record {
  balances = λ b.
      ground (arith, at b, at_s b, at_s r, beq_bytes_iff s b, beq_bytes_iff r b, beq_bytes_iff s r);
  nonces = λ b.
      ground (arith, at b, at_s b, at_s r, beq_bytes_iff s b, beq_bytes_iff r b, beq_bytes_iff s r);
  codes = λ b.
      ground (arith, at b, at_s b, at_s r, beq_bytes_iff s b, beq_bytes_iff r b, beq_bytes_iff s r);
  storages = λ b.
      ground (arith, at b, at_s b, at_s r, beq_bytes_iff s b, beq_bytes_iff r b, beq_bytes_iff s r);
}
  where
    at :
        (b : Bytes)
        → get_account b (modify_account r (credit x) (modify_account s (debit x) w)) ≡ (
            if beq_bytes r b
            then credit x (get_account r (modify_account s (debit x) w))
            else get_account b (modify_account s (debit x) w))
    at b = get_account-modify_account r b (credit x) (modify_account s (debit x) w)

    at_s :
        (b : Bytes)
        → get_account b (modify_account s (debit x) w)
          ≡ (if beq_bytes s b then debit x (get_account s w) else get_account b w)
    at_s b = get_account-modify_account s b (debit x) w

-- A transfer fails exactly if the sender's balance is below the amount; else it moves the amount
-- from the sender to the recipient and changes no other balance and no nonce, code or storage,
-- also if the two are the same account.
pub transfer_cases :
    (s r : Bytes) (x : ℕ) (w : World)
    → (((get_account s w).balance < x) × (transfer s r x w ≡ none))
      ⊎ ((x ≤ (get_account s w).balance)
          × ((w' : World) × (transfer s r x w ≡ some w') × Moves s r x w w'))
unfolding transfer add_balance
transfer_cases s r x w = elim (Bool-cases (x == 0)) [
  | inl nothing ↦ inr (
    ground arith,
    (
      w,
      rw nothing,
      record {
        balances = λ b. ground arith;
        nonces = λ b. refl;
        codes = λ b. refl;
        storages = λ b. refl;
      },
    ),
  )
  | inr something ↦ elim (deduct_balance_cases s x w) [
    | inl (short, e) ↦ inl (short, rw (something, e))
    | inr (covered, e) ↦ inr (
      covered,
      (moved s r x w, rw (something, e) (unfold moved in refl), moved-Moves s r x w covered),
    )
  ]
]

-- A slot reads as what was last stored in it, and every other slot of every account as before.
pub get_storage-set_storage :
    (a b : Bytes) (k j v : ℕ) (w : World)
    → get_storage b j (set_storage a k v w)
      ≡ (if beq_bytes a b && (k == j) then v else get_storage b j w)
unfolding get_storage set_storage
get_storage-set_storage a b k j v w =
    rw (get_account-modify_account a b (with_storage k v) w)
      (ground (arith, beq_bytes_iff a b, lookup-insert k j v (get_account a w).storage))
