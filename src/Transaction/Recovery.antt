-- ===== src/Transaction/Recovery.antt =====
-- transactions/transaction.py: signing and recovering.
use ethereum_blockchain.Prelude.{
  ℕ, ◌+◌, ◌-◌, ◌<◌, ◌≡◌, ◌≢◌, refl, true, false, some, arith, ◌==◌, leb, length, ◌^◌,
}
use ethereum_blockchain.Bytes.{Bytes}
use ethereum_blockchain.Rlp.{list, rlp_encode}
use ethereum_blockchain.Rlp.RoundTrip.{rlp_encode-injective}
use ethereum_blockchain.Rlp.Ints.{int_to_rlp_bytes-injective}
use ethereum_blockchain.Transaction.Defs.{
  Transaction, EthKeys, pos, subtract, is_signed, unsigned_fields, signing_hash, sign_transaction,
  recover_sender,
}

-- What the code relies on of eth_keys: a signature has non-zero `r` and `s`, and the address recovered
-- from it, for the hash that was signed, is the signer's.
pub record Recovers (eth : EthKeys) : Type 0 where
  pub r_nonzero : (k : eth.PrivateKey) (h : Bytes) → (eth.sign_msg_hash k h).r ≢ 0
  pub s_nonzero : (k : eth.PrivateKey) (h : Bytes) → (eth.sign_msg_hash k h).s ≢ 0
  pub recovers :
      (k : eth.PrivateKey) (h : Bytes)
      → let sig = eth.sign_msg_hash k h in
        eth.recover_address (pos sig.v) sig.r sig.s h ≡ some (eth.address_of k)

nonzero : (n : ℕ) → n ≢ 0 → (n == 0) ≡ false
nonzero n h = ground arith

subtract-add : (v : ℕ) → subtract (v + 27) 27 ≡ pos v
subtract-add v =
    let covers : leb 27 (v + 27) ≡ true = ground arith in
    let back : v + 27 - 27 ≡ v = omega arith in rw (covers, back) refl

-- The sender recovered from a signed transaction is the signer's address, if eth_keys recovers the
-- signer of each of its signatures, whose r and s are not zero.
pub recover_sender-sign_transaction :
    (eth : EthKeys)
    → Recovers eth
    → (tx : Transaction) (key : eth.PrivateKey)
    → recover_sender eth (sign_transaction eth tx key) ≡ some (eth.address_of key)
unfolding recover_sender sign_transaction signing_hash is_signed
recover_sender-sign_transaction eth law tx key =
    let h = eth.keccak256 (rlp_encode (list (unsigned_fields tx))) in
    let sig = eth.sign_msg_hash key h in
    let r_test : (sig.r == 0) ≡ false = nonzero sig.r (law.r_nonzero key h) in
    let s_test : (sig.s == 0) ≡ false = nonzero sig.s (law.s_nonzero key h) in
    let v_test : (sig.v + 27 == 0) ≡ false = nonzero (sig.v + 27) (λ e. omega arith) in
    rw (v_test, r_test, s_test, subtract-add sig.v) (law.recovers key h)

-- Two transactions with the same signing hash agree in nonce, gas price, gas, recipient, value and
-- data, if the hash does not collide on their encodings and the first encoding is shorter than
-- 256^8 bytes.
pub signing_hash-injective :
    (eth : EthKeys) (t u : Transaction)
    → (signing_hash eth t ≡ signing_hash eth u
        → rlp_encode (list (unsigned_fields t)) ≡ rlp_encode (list (unsigned_fields u)))
    → length (rlp_encode (list (unsigned_fields t))) < 256 ^ 8
    → signing_hash eth t ≡ signing_hash eth u
    → (t.nonce ≡ u.nonce)
      × (t.gas_price ≡ u.gas_price)
      × (t.gas ≡ u.gas)
      × (t.to ≡ u.to)
      × (t.value ≡ u.value)
      × (t.calldata ≡ u.calldata)
unfolding signing_hash
signing_hash-injective eth t u collision small e =
    let same =
      rlp_encode-injective (list (unsigned_fields t)) (list (unsigned_fields u)) small
        (collision e) in
    (
      int_to_rlp_bytes-injective t.nonce u.nonce cc,
      int_to_rlp_bytes-injective t.gas_price u.gas_price cc,
      int_to_rlp_bytes-injective t.gas u.gas cc,
      cc,
      int_to_rlp_bytes-injective t.value u.value cc,
      cc,
    )
