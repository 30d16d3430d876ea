-- ===== src/World/Defs.antt =====
-- state/account.py and state/world_state.py. A `World` is the dict `_accounts`; a method that changes
-- it returns the new dict, and `none` where it raises ValueError, which it does before any change.
-- `copy.deepcopy` and the shared `EMPTY_ACCOUNT` need no model: every change goes through
-- `modify_account`, which copies, so a value held elsewhere never changes.
use ethereum_blockchain.Prelude.{
  ℕ, ◌+◌, ◌-◌, Bool, [], ◌∷◌, Option, none, some, ltb, ◌==◌, ◌&&◌, if◌then◌else◌,
}
use ethereum_blockchain.Prelude.Dict
use ethereum_blockchain.Prelude.Dict.{Dict, nat_eq, bytes_eq, beq_bytes}
use ethereum_blockchain.Prelude.Maybe.{◌>>=◌}
use ethereum_blockchain.Bytes.{Bytes}

pub record Account : Type 0 where
  pub nonce : ℕ
  pub balance : ℕ
  pub code : Bytes
  pub storage : Dict ℕ ℕ

-- `Account.is_empty`
unfoldable pub is_empty : Account → Bool
is_empty a = (a.nonce == 0) && ((a.balance == 0) && beq_bytes a.code [])

abbrev pub empty_account : Account
empty_account = record { nonce = 0; balance = 0; code = []; storage = [] }

abbrev pub World : Type 0
World = Dict Bytes Account

abbrev pub or_empty : Option Account → Account
or_empty none = empty_account
or_empty (some a) = a

unfoldable pub get_account : Bytes → World → Account
get_account address w = or_empty (Dict.lookup address w)

unfoldable pub set_account : Bytes → Account → World → World
set_account address account w = Dict.insert address account w

unfoldable pub account_exists : Bytes → World → Bool
account_exists address w = Dict.contains address w

unfoldable pub get_balance : Bytes → World → ℕ
get_balance address w = (get_account address w).balance

unfoldable pub modify_account : Bytes → (Account → Account) → World → World
modify_account address modifier w = set_account address (modifier (get_account address w)) w

-- `snapshot` is a deep copy, and `revert` puts it in place of the accounts.
unfoldable pub snapshot : World → World
snapshot w = w

unfoldable pub revert : World → World → World
revert saved w = saved

-- The modifiers that the methods pass to `modify_account`.
abbrev pub credit : ℕ → Account → Account
credit amount a = record a { balance = a.balance + amount }

abbrev pub debit : ℕ → Account → Account
debit amount a = record a { balance = a.balance - amount }

abbrev pub bump_nonce : Account → Account
bump_nonce a = record a { nonce = a.nonce + 1 }

abbrev pub with_code : Bytes → Account → Account
with_code code a = record a { code = code }

abbrev pub with_storage : ℕ → ℕ → Account → Account
with_storage key value a = record a { storage = Dict.insert key value a.storage }

unfoldable pub add_balance : Bytes → ℕ → World → World
add_balance address amount = modify_account address (credit amount)

unfoldable pub deduct_balance : Bytes → ℕ → World → Option World
deduct_balance address amount w =
    if ltb (get_account address w).balance amount
    then none
    else some (modify_account address (debit amount) w)

unfoldable pub increment_nonce : Bytes → World → World
increment_nonce address = modify_account address bump_nonce

unfoldable pub transfer : Bytes → Bytes → ℕ → World → Option World
transfer sender recipient amount w =
    if amount == 0
    then some w
    else do w' ← deduct_balance sender amount w; some (add_balance recipient amount w')

unfoldable pub set_code : Bytes → Bytes → World → World
set_code address code = modify_account address (with_code code)

abbrev pub or_zero : Option ℕ → ℕ
or_zero none = 0
or_zero (some v) = v

unfoldable pub get_storage : Bytes → ℕ → World → ℕ
get_storage address key w = or_zero (Dict.lookup key (get_account address w).storage)

unfoldable pub set_storage : Bytes → ℕ → ℕ → World → World
set_storage address key value = modify_account address (with_storage key value)

-- `for address, balance in alloc.items(): state.set_account(address, Account(balance=balance))`
add_genesis : Dict Bytes ℕ → World → World
unfolding set_account
add_genesis [] w = w
add_genesis ((address, balance) ∷ alloc) w =
    add_genesis alloc (set_account address (record empty_account { balance = balance }) w)

unfoldable pub create_genesis_state : Dict Bytes ℕ → World
unfolding add_genesis
create_genesis_state alloc = add_genesis alloc []
