-- ===== src/Transaction/Defs.antt =====
-- transactions/transaction.py. What it takes from eth_keys and eth_hash is the record `EthKeys`.
use ethereum_blockchain.Prelude.{
  ℕ, ◌+◌, ◌-◌, Bool, not, ◌&&◌, Option, none, leb, ◌==◌, if◌then◌else◌,
}
use ethereum_blockchain.Bytes.{Bytes}
use ethereum_blockchain.Rlp.{Items, list, string, nil, cons, int_to_rlp_bytes, rlp_encode}

-- `v`, `r` and `s`, with 0 for all three when unsigned.
pub record Transaction : Type 0 where
  pub nonce : ℕ
  pub gas_price : ℕ
  pub gas : ℕ
  pub to : Bytes
  pub value : ℕ
  pub calldata : Bytes
  pub v : ℕ
  pub r : ℕ
  pub s : ℕ

-- The integers, for `tx.v - 27`: `negsuc n` is -(n + 1).
pub data ℤ : Type 0 where
  pos negsuc : ℕ → ℤ

-- A difference of natural numbers.
abbrev pub subtract : ℕ → ℕ → ℤ
subtract a b = if leb b a then pos (a - b) else negsuc (b - a - 1)

pub record Signature : Type 0 where
  pub v : ℕ
  pub r : ℕ
  pub s : ℕ

-- The functions of eth_keys and eth_hash that the module calls: `sign_msg_hash`,
-- `to_canonical_address` of a key's public key, and `Signature(vrs=...)` followed by
-- `recover_public_key_from_msg_hash` and `to_canonical_address`, `none` where one of them raises.
pub record EthKeys : Type 1 where
  pub PrivateKey : Type 0
  pub keccak256 : Bytes → Bytes
  pub sign_msg_hash : PrivateKey → Bytes → Signature
  pub address_of : PrivateKey → Bytes
  pub recover_address : ℤ → ℕ → ℕ → Bytes → Option Bytes

unfoldable pub is_signed : Transaction → Bool
is_signed tx = not (tx.v == 0) && (not (tx.r == 0) && not (tx.s == 0))

-- The list that `signing_hash` encodes.
abbrev pub unsigned_fields : Transaction → Items
unsigned_fields tx = cons (string (int_to_rlp_bytes tx.nonce)) (
    cons (string (int_to_rlp_bytes tx.gas_price)) (
      cons (string (int_to_rlp_bytes tx.gas)) (
        cons (string tx.to)
          (cons (string (int_to_rlp_bytes tx.value)) (cons (string tx.calldata) nil)))))

unfoldable pub signing_hash : EthKeys → Transaction → Bytes
signing_hash eth tx = eth.keccak256 (rlp_encode (list (unsigned_fields tx)))

unfoldable pub sign_transaction : (eth : EthKeys) → Transaction → eth.PrivateKey → Transaction
sign_transaction eth tx private_key =
    let signature = eth.sign_msg_hash private_key (signing_hash eth tx) in
    record tx { v = signature.v + 27; r = signature.r; s = signature.s }

-- `none` is the ValueError of an unsigned transaction, or what eth_keys raises.
unfoldable pub recover_sender : EthKeys → Transaction → Option Bytes
recover_sender eth tx =
    if is_signed tx
    then eth.recover_address (subtract tx.v 27) tx.r tx.s (signing_hash eth tx)
    else none
