-- ===== src/World/Root.antt =====
-- state/world_state.py, `state_root_placeholder`, and `code_hash` of state/account.py. The hash of
-- `eth_hash` is a parameter.
use ethereum_blockchain.Prelude.{
  ◌≡◌, ◌∙◌, sym, ap, refl, false, List, [], ◌∷◌, ◌++◌, Bool-cases, inl, inr,
}
use ethereum_blockchain.Prelude.Dict.{beq_bytes, bytes_eq, lookup, contains, Distinct}
use ethereum_blockchain.Bytes.{Bytes}
use ethereum_blockchain.Rlp.{string, list, nil, cons, rlp_encode, int_to_rlp_bytes}
use ethereum_blockchain.World.Defs.{Account, World, get_account, account_exists}
use ethereum_blockchain.World.Order.{sorted, has, Fresh, has-sorted, sorted-Ascends, Ascends-unique}

-- `Account.code_hash`
unfoldable pub code_hash : (Bytes → Bytes) → Account → Bytes
code_hash keccak256 a = keccak256 a.code

-- `self._accounts.keys()`
abbrev pub keys : World → List Bytes
keys [] = []
keys ((address, account) ∷ w) = address ∷ keys w

unfoldable pub account_item : Bytes → Account → Bytes
account_item addr acct = rlp_encode (
    list (
      cons (string addr) (
        cons (string (int_to_rlp_bytes acct.nonce))
          (cons (string (int_to_rlp_bytes acct.balance)) (cons (string acct.code) nil)))))

-- `b"".join(items)`, for the items of these addresses.
unfoldable pub account_items : World → List Bytes → Bytes
unfolding account_item
account_items w [] = []
account_items w (addr ∷ addrs) = account_item addr (get_account addr w) ++ account_items w addrs

unfoldable pub state_root_placeholder : (Bytes → Bytes) → World → Bytes
unfolding account_items
state_root_placeholder keccak256 [] = keccak256 []
state_root_placeholder keccak256 (entry ∷ w) =
    keccak256 (account_items (entry ∷ w) (sorted (keys (entry ∷ w))))

-- The state of no account is no exception.
root_of_items :
    (keccak256 : Bytes → Bytes) (w : World)
    → state_root_placeholder keccak256 w ≡ keccak256 (account_items w (sorted (keys w)))
unfolding state_root_placeholder account_items
root_of_items keccak256 [] = refl
root_of_items keccak256 (entry ∷ w) = refl

has-keys : (a : Bytes) (w : World) → has a (keys w) ≡ account_exists a w
unfolding account_exists contains lookup
has-keys a [] = refl
has-keys a ((b, c) ∷ w) = elim (Bool-cases (beq_bytes b a)) [
  | inl e ↦ rw (e, contains) refl
  | inr e ↦ rw (e, contains) (has-keys a w)
]

keys-Fresh : (w : World) → Distinct w → Fresh (keys w)
unfolding Distinct account_exists contains
keys-Fresh [] h = tt
keys-Fresh ((a, c) ∷ w) h =
    let absent : account_exists a w ≡ false = rw (h.0, contains) refl in
    (has-keys a w ∙ absent, keys-Fresh w h.1)

-- What of an account the root depends on.
pub record Agrees (a b : Account) : Type 0 where
  pub nonce : a.nonce ≡ b.nonce
  pub balance : a.balance ≡ b.balance
  pub code : a.code ≡ b.code

account_items_congr :
    (w w' : World) (addrs : List Bytes)
    → ((a : Bytes) → Agrees (get_account a w) (get_account a w'))
    → account_items w addrs ≡ account_items w' addrs
unfolding account_items account_item
account_items_congr w w' [] same = refl
account_items_congr w w' (a ∷ addrs) same =
    let s = same a in
    let rest = account_items_congr w w' addrs same in rw (s.nonce, s.balance, s.code, rest) refl

-- Two states whose dictionaries have each address once get the same state_root_placeholder if they
-- have the same addresses and agree on the nonce, the balance and the code at each, in whatever
-- order the accounts were added and whatever their storages hold.
pub state_root_placeholder_congr :
    (keccak256 : Bytes → Bytes) (w w' : World)
    → Distinct w
    → Distinct w'
    → ((a : Bytes) → account_exists a w ≡ account_exists a w')
    → ((a : Bytes) → Agrees (get_account a w) (get_account a w'))
    → state_root_placeholder keccak256 w ≡ state_root_placeholder keccak256 w'
state_root_placeholder_congr keccak256 w w' d d' exists same =
    let members = λ (v : World) (a : Bytes). has-sorted a (keys v) ∙ has-keys a v in
    let order : sorted (keys w) ≡ sorted (keys w') =
      Ascends-unique (sorted (keys w)) (sorted (keys w')) (sorted-Ascends (keys w) (keys-Fresh w d))
        (sorted-Ascends (keys w') (keys-Fresh w' d'))
        λ a. members w a ∙ exists a ∙ sym (members w' a) in
    root_of_items keccak256 w
    ∙ ap keccak256 (ap (account_items w) order ∙ account_items_congr w w' (sorted (keys w')) same)
    ∙ sym (root_of_items keccak256 w')
