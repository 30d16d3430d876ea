-- ===== src/Transaction/Tests.antt =====
-- transactions/transaction.py with a small signature scheme in place of eth_keys.
use ethereum_blockchain.Prelude.{ℕ, ◌+◌, ◌-◌, ◌<◌, ◌^◌, ◌≡◌, refl, [], ◌∷◌, some, arith, length}
use ethereum_blockchain.Bytes.{digits, byte_length}
use ethereum_blockchain.Rlp.{list, rlp_encode, encode_string, encode_payload, int_to_rlp_bytes}
use ethereum_blockchain.Transaction.Defs.{
  Transaction, EthKeys, unsigned_fields, sign_transaction, recover_sender,
}
use ethereum_blockchain.Transaction.Recovery.{
  Recovers, recover_sender-sign_transaction, signing_hash-injective,
}

-- A key is a number, a signature reveals it, and nothing is hashed.
abbrev pub toy_keys : EthKeys
toy_keys = record {
  PrivateKey = ℕ;
  keccak256 = λ bs. bs;
  sign_msg_hash = λ key h. record { v = 1; r = key + 1; s = 1 };
  address_of = λ key. key ∷ [];
  recover_address = λ v r s h. some ((r - 1) ∷ []);
}

pub toy_keys-Recovers : Recovers toy_keys
toy_keys-Recovers = record {
  r_nonzero = λ k h e. omega arith;
  s_nonzero = λ k h e. omega arith;
  recovers = λ k h. let back : k + 1 - 1 ≡ k = omega arith in rw back refl;
}

-- Five wei to the account 2, with no calldata.
abbrev pub payment : Transaction
payment = record {
  nonce = 0;
  gas_price = 2;
  gas = 30_000;
  to = 2 ∷ [];
  value = 5;
  calldata = [];
  v = 0;
  r = 0;
  s = 0;
}

recover_sender-sign_transaction_example :
    recover_sender toy_keys (sign_transaction toy_keys payment 1) ≡ some (1 ∷ [])
recover_sender-sign_transaction_example =
    recover_sender-sign_transaction toy_keys toy_keys-Recovers payment 1

payment_is_small : length (rlp_encode (list (unsigned_fields payment))) < 256 ^ 8
unfolding rlp_encode encode_string encode_payload int_to_rlp_bytes digits byte_length
payment_is_small = omega arith

signing_hash-injective_example :
    (payment.nonce ≡ payment.nonce)
    × (payment.gas_price ≡ payment.gas_price)
    × (payment.gas ≡ payment.gas)
    × (payment.to ≡ payment.to)
    × (payment.value ≡ payment.value)
    × (payment.calldata ≡ payment.calldata)
signing_hash-injective_example =
    signing_hash-injective toy_keys payment payment (λ e. refl) payment_is_small refl
