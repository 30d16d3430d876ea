-- ===== src/World/Total.antt =====
-- state/world_state.py: the sum of all balances under each method.
use ethereum_blockchain.Prelude.{ℕ, ◌+◌, ◌≤◌, ◌≡◌, [], ◌∷◌, some, arith, Bool-cases, inl, inr, ◌==◌}
use ethereum_blockchain.Prelude.Dict.{nat_eq, bytes_eq, lookup, insert}
use ethereum_blockchain.Prelude.Maybe.{>>=-eq-some}
use ethereum_blockchain.Bytes.{Bytes}
use ethereum_blockchain.World.Defs.{
  Account, World, or_empty, get_account, set_account, modify_account, add_balance, deduct_balance,
  increment_nonce, transfer, set_code, set_storage, credit, debit, bump_nonce, with_code,
  with_storage,
}
use ethereum_blockchain.World.Lookup.{deduct_balance_cases}

-- The sum of the balances of all accounts.
pub total : World → ℕ
total [] = 0
total ((a, c) ∷ w) = c.balance + total w

total-insert :
    (a : Bytes) (c : Account) (w : World)
    → total (insert a c w) + (or_empty (lookup a w)).balance ≡ total w + c.balance
unfolding total insert lookup
total-insert a c [] = omega arith
total-insert a c ((b, d) ∷ w) = ground (arith, total-insert a c w)

-- A modified account changes the sum by the change of its balance.
pub total-modify_account :
    (a : Bytes) (f : Account → Account) (w : World)
    → total (modify_account a f w) + (get_account a w).balance
      ≡ total w + (f (get_account a w)).balance
unfolding modify_account set_account get_account
total-modify_account a f w = total-insert a (f (or_empty (lookup a w))) w

pub balance-le-total : (a : Bytes) (w : World) → (get_account a w).balance ≤ total w
unfolding get_account total lookup
balance-le-total a [] = omega arith
balance-le-total a ((b, d) ∷ w) = ground (arith, balance-le-total a w)

pub total-add_balance : (a : Bytes) (x : ℕ) (w : World) → total (add_balance a x w) ≡ total w + x
unfolding add_balance
total-add_balance a x w = omega (arith, total-modify_account a (credit x) w)

pub total-increment_nonce : (a : Bytes) (w : World) → total (increment_nonce a w) ≡ total w
unfolding increment_nonce
total-increment_nonce a w = omega (arith, total-modify_account a bump_nonce w)

pub total-set_code : (a : Bytes) (code : Bytes) (w : World) → total (set_code a code w) ≡ total w
unfolding set_code
total-set_code a code w = omega (arith, total-modify_account a (with_code code) w)

pub total-set_storage : (a : Bytes) (k v : ℕ) (w : World) → total (set_storage a k v w) ≡ total w
unfolding set_storage
total-set_storage a k v w = omega (arith, total-modify_account a (with_storage k v) w)

-- A deduction that succeeds lowers the sum of all balances by the amount.
pub total-deduct_balance :
    (a : Bytes) (x : ℕ) (w : World) {w' : World}
    → deduct_balance a x w ≡ some w'
    → total w' + x ≡ total w
total-deduct_balance a x w {w'} e = elim (deduct_balance_cases a x w) [
  | inl (_, none_left) ↦ cc
  | inr (covered, done) ↦
      let same : w' ≡ modify_account a (debit x) w = cc in
      rw same (omega (arith, total-modify_account a (debit x) w))
]

-- A transfer that succeeds leaves the sum of all balances as it was.
pub total-transfer :
    (s r : Bytes) (x : ℕ) (w : World) {w' : World} → transfer s r x w ≡ some w' → total w' ≡ total w
unfolding transfer
total-transfer s r x w {w'} e = elim (Bool-cases (x == 0)) [
  | inl nothing ↦ ground arith
  | inr something ↦
      let (w₁, e₁, e₂) = >>=-eq-some (deduct_balance s x w) _ (rw something at e) in
      let done : w' ≡ add_balance r x w₁ = cc in
      rw done (omega (arith, total-add_balance r x w₁, total-deduct_balance s x w e₁))
]
