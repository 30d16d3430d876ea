-- ===== src/Evm/Persist.antt =====
-- evm/vm.py and core/state_transition.py: what writing a frame's storage back leaves in the world state.
use ethereum_blockchain.Prelude.{
  ℕ, ◌≡◌, ◌∙◌, refl, [], ◌∷◌, Option, none, some, ◌==◌, if◌then◌else◌, Bool-cases, inl, inr, arith,
}
use ethereum_blockchain.Prelude.Dict.{
  insert-Distinct, Dict, nat_eq, bytes_eq, beq_bytes, beq_bytes_iff, lookup, Distinct,
}
use ethereum_blockchain.Bytes.{Bytes}
use ethereum_blockchain.World.{
  modify_account, with_storage, World, get_account, get_storage, set_storage, with_storage,
}
use ethereum_blockchain.World.Lookup.{get_account-modify_account, get_storage-set_storage}
use ethereum_blockchain.Evm.Calls.{persist}

-- The value of a slot if it has one, and `v` if not.
abbrev pub or_else : Option ℕ → ℕ → ℕ
or_else none v = v
or_else (some u) v = u

-- Writing back changes no balance, no nonce and no code.
pub persist_keeps :
    (a b : Bytes) (st : Dict ℕ ℕ) (w : World)
    → ((get_account b (persist a st w)).balance ≡ (get_account b w).balance)
      × ((get_account b (persist a st w)).nonce ≡ (get_account b w).nonce)
      × ((get_account b (persist a st w)).code ≡ (get_account b w).code)
unfolding persist set_storage
persist_keeps a b [] w = (refl, refl, refl)
persist_keeps a b ((k, v) ∷ st) w =
    let here = get_account-modify_account a b (with_storage k v) w in
    let later = persist_keeps a b st (set_storage a k v w) in
    (
      ground (arith, here, later.0, beq_bytes_iff a b),
      ground (arith, here, later.1, beq_bytes_iff a b),
      ground (arith, here, later.2, beq_bytes_iff a b),
    )

-- A slot that the storage has reads as it does there, any other as before.
pub get_storage-persist :
    (a b : Bytes) (j : ℕ) (st : Dict ℕ ℕ) (w : World)
    → Distinct st
    → get_storage b j (persist a st w)
      ≡ (if beq_bytes a b then or_else (lookup j st) (get_storage b j w) else get_storage b j w)
unfolding persist lookup Distinct
get_storage-persist a b j [] w h = ground arith
get_storage-persist a b j ((k, v) ∷ st) w h =
    let later = get_storage-persist a b j st (set_storage a k v w) h.1 in
    let here = get_storage-set_storage a b k j v w in
    elim (Bool-cases (beq_bytes a b)) [
      | inr other ↦
          let later' = rw other at later in
          let here' = rw other at here in rw other (later' ∙ here')
      | inl own ↦ elim (Bool-cases (k == j)) [
        | inl same ↦
            let is_j : k ≡ j = ground arith in
            let none_later : lookup j st ≡ none = rw is_j at h.0 in
            let later' = rw (own, none_later) at later in
            let here' = rw (own, same) at here in rw (own, same) (later' ∙ here')
        | inr apart ↦
            let later' = rw own at later in
            let here' = rw (own, apart) at here in rw (own, apart, ← here') later'
      ]
    ]

-- Each storage still has each key once.
pub persist-Distinct :
    (a b : Bytes) (st : Dict ℕ ℕ) (w : World)
    → ((c : Bytes) → Distinct (get_account c w).storage)
    → Distinct (get_account b (persist a st w)).storage
unfolding persist set_storage
persist-Distinct a b [] w h = h b
persist-Distinct a b ((k, v) ∷ st) w h =
    persist-Distinct a b st (modify_account a (with_storage k v) w) λ c.
      let here = get_account-modify_account a c (with_storage k v) w in
      elim (Bool-cases (beq_bytes a c)) [
        | inl own ↦ rw (here, own) (insert-Distinct k v (get_account a w).storage (h a))
        | inr other ↦ rw (here, other) (h c)
      ]
