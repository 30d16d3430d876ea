-- ===== src/Chain/Linked.antt =====
-- chain/block.py and chain/blockchain.py: the links from each block to the one before.
use ethereum_blockchain.Prelude.{
  ℕ, zero, suc, ◌+◌, ◌≡◌, refl, ap, true, List, [], ◌∷◌, ◌++◌, map, some, arith, length, get_elem?,
}
use ethereum_blockchain.Prelude.Dict.{beq_bytes, beq_bytes_iff}
use ethereum_blockchain.Bytes.{Bytes}
use ethereum_blockchain.Chain.Defs.{
  Block, Blockchain, last_of, block_hash, create_genesis_block, new_blockchain, latest,
  validate_from,
}

pub last_of-map :
    {A B : Type 0} (f : A → B) (a : A) (xs : List A) → last_of (f a) (map f xs) ≡ f (last_of a xs)
unfolding last_of
last_of-map f a [] = refl
last_of-map f a (b ∷ xs) = last_of-map f b xs

pub map-snoc :
    {A B : Type 0} (f : A → B) (xs : List A) (b : A)
    → map f (xs ++ (b ∷ [])) ≡ map f xs ++ (f b ∷ [])
map-snoc f [] b = refl
map-snoc f (x ∷ xs) b = ap (λ ys. f x ∷ ys) (map-snoc f xs b)

module _ (keccak256 : Bytes → Bytes) where
  -- Each block of the list has the hash of the one before as its parent, and the next number.
  unfoldable pub Linked : Block → List Block → Type 0
  Linked p [] = Unit
  Linked p (b ∷ bs) =
      (b.header.parent_hash ≡ block_hash keccak256 p)
      × (b.header.number ≡ p.header.number + 1)
      × Linked b bs

  -- A chain from block 0, with the hashes of its blocks at hand.
  pub record IsChain (c : Blockchain) : Type 0 where
    pub origin : c.genesis.header.number ≡ 0
    pub linked : Linked c.genesis c.later
    pub genesis_hash : c.genesis_hash ≡ block_hash keccak256 c.genesis
    pub later_hashes : c.later_hashes ≡ map (block_hash keccak256) c.later

  pub Linked-snoc :
      (p : Block) (bs : List Block) (b : Block)
      → Linked p bs
      → b.header.parent_hash ≡ block_hash keccak256 (last_of p bs)
      → b.header.number ≡ (last_of p bs).header.number + 1
      → Linked p (bs ++ (b ∷ []))
  unfolding Linked last_of
  Linked-snoc p [] b h parent number = (parent, number, tt)
  Linked-snoc p (x ∷ bs) b h parent number = (h.0, h.1, Linked-snoc x bs b h.2 parent number)

  pub Linked-number :
      (p : Block) (bs : List Block) (i : ℕ) {b : Block}
      → Linked p bs
      → get_elem? (p ∷ bs) i ≡ some b
      → b.header.number ≡ p.header.number + i
  unfolding Linked
  Linked-number p bs zero {b} h e = let same : p ≡ b = cc in rw (← same) (omega arith)
  Linked-number p [] (suc i) h e = cc
  Linked-number p (x ∷ bs) (suc i) h e = omega (arith, Linked-number x bs i h.2 e, h.1)

  pub Linked-last :
      (p : Block) (bs : List Block)
      → Linked p bs
      → (last_of p bs).header.number ≡ p.header.number + length bs
  unfolding Linked last_of
  Linked-last p [] h = omega arith
  Linked-last p (x ∷ bs) h = omega (arith, Linked-last x bs h.2, h.1)

  pub Linked-validate_from :
      (p : Block) (bs : List Block) → Linked p bs → validate_from keccak256 p bs ≡ true
  unfolding Linked validate_from
  Linked-validate_from p [] h = refl
  Linked-validate_from p (x ∷ bs) h =
      let same : beq_bytes x.header.parent_hash (block_hash keccak256 p) ≡ true =
        (beq_bytes_iff x.header.parent_hash (block_hash keccak256 p)).1 h.0 in
      rw (same, validate_from) (Linked-validate_from x bs h.2)

  pub latest_hash :
      (c : Blockchain)
      → IsChain c
      → last_of c.genesis_hash c.later_hashes ≡ block_hash keccak256 (latest keccak256 c)
  unfolding latest
  latest_hash c h =
      rw (h.genesis_hash, h.later_hashes) (last_of-map (block_hash keccak256) c.genesis c.later)

  -- The chain of a genesis block alone.
  pub genesis-IsChain :
      (state_root : Bytes) (timestamp : ℕ)
      → IsChain (new_blockchain keccak256 (create_genesis_block keccak256 state_root timestamp))
  unfolding new_blockchain create_genesis_block Linked
  genesis-IsChain state_root timestamp = record {
    origin = refl;
    linked = tt;
    genesis_hash = refl;
    later_hashes = refl;
  }
