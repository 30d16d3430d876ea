-- ===== src/Chain/Append.antt =====
-- chain/blockchain.py: what appending a block keeps, and what the chain answers.
use ethereum_blockchain.Prelude.{
  ℕ, zero, suc, ◌+◌, ◌<◌, ◌≤◌, ◌≡◌, ◌⊎◌, refl, sym, ap, ◌∙◌, true, List, [], ◌∷◌, ◌++◌, none, some,
  Option-cases, Bool-cases, inl, inr, arith, ◌==◌, length, get_elem?, lt_of_get_elem?,
}
use ethereum_blockchain.Prelude.Dict.{beq_bytes, beq_bytes_iff}
use ethereum_blockchain.Bytes.{Bytes}
use ethereum_blockchain.Transaction.{Transaction}
use ethereum_blockchain.Chain.Defs.{
  Block, Blockchain, last_of, appended, block_hash, create_block, latest, height, append_block,
  get_block_by_number,
}
use ethereum_blockchain.Chain.Linked.{
  IsChain, Linked-snoc, Linked-number, Linked-last, latest_hash, map-snoc,
}

last_of-snoc : {A : Type 0} (a : A) (xs : List A) (b : A) → last_of a (xs ++ (b ∷ [])) ≡ b
unfolding last_of
last_of-snoc a [] b = refl
last_of-snoc a (x ∷ xs) b = last_of-snoc x xs b

none_past : {A : Type 0} (xs : List A) (i : ℕ) → get_elem? xs i ≡ none → length xs ≤ i
none_past [] i e = omega arith
none_past (x ∷ xs) zero e = absurd cc
none_past (x ∷ xs) (suc i) e = omega (arith, none_past xs i e)

module _ (keccak256 : Bytes → Bytes) (c : Blockchain) (h : IsChain keccak256 c) where
  grown : Block → Blockchain
  grown b = record c {
    later = c.later ++ (b ∷ []);
    later_hashes = c.later_hashes ++ (block_hash keccak256 b ∷ []);
  }

  grown-IsChain :
      (b : Block)
      → b.header.parent_hash ≡ block_hash keccak256 (latest keccak256 c)
      → b.header.number ≡ height keccak256 c + 1
      → IsChain keccak256 (grown b)
  unfolding grown latest height
  grown-IsChain b parent number = record {
    origin = h.origin;
    linked = Linked-snoc keccak256 c.genesis c.later b h.linked parent number;
    genesis_hash = h.genesis_hash;
    later_hashes = rw (h.later_hashes) (sym (map-snoc (block_hash keccak256) c.later b));
  }

  grown-latest : (b : Block) → latest keccak256 (grown b) ≡ b
  unfolding grown latest
  grown-latest b = last_of-snoc c.genesis c.later b

  -- On a chain from block 0 whose blocks each have the hash of the one before as parent and the
  -- next number, and whose stored hashes are those of its blocks, appending a block, if it is not
  -- refused, gives such a chain again, with that block as the latest, and returns its hash.
  pub append_block-IsChain :
      (b : Block) {new_hash : Bytes} {c' : Blockchain}
      → append_block keccak256 b c ≡ appended new_hash c'
      → IsChain keccak256 c' × (latest keccak256 c' ≡ b) × (new_hash ≡ block_hash keccak256 b)
  unfolding append_block grown
  append_block-IsChain b {new_hash} {c'} e =
      let expected = last_of c.genesis_hash c.later_hashes in
      elim (Bool-cases (beq_bytes b.header.parent_hash expected)) [
        | inr other ↦ absurd (let bad = rw (other, append_block) at e in cc)
        | inl same ↦ elim (Bool-cases (b.header.number == height keccak256 c + 1)) [
          | inr skipped ↦ absurd (let bad = rw (same, skipped, append_block) at e in cc)
          | inl next ↦
              let found = rw (same, next, append_block) at e in
              let is : c' ≡ grown b = cc in
              rw is (
                grown-IsChain b
                    ((beq_bytes_iff b.header.parent_hash expected).0 same
                      ∙ latest_hash keccak256 c h)
                    (ground arith),
                grown-latest b,
                cc,
              )
        ]
      ]

  -- A block that create_block builds on the latest one is always accepted by append_block, which
  -- returns its hash and a chain that is again well linked and one higher.
  pub append_block-create_block :
      (transactions : List Transaction) (state_root : Bytes) (timestamp : ℕ)
      → let b = create_block keccak256 (latest keccak256 c) transactions state_root timestamp in
        (c' : Blockchain) × (append_block keccak256 b c ≡ appended (block_hash keccak256 b) c')
        × IsChain keccak256 c'
        × (height keccak256 c' ≡ height keccak256 c + 1)
  unfolding append_block grown create_block height
  append_block-create_block transactions state_root timestamp =
      let b = create_block keccak256 (latest keccak256 c) transactions state_root timestamp in
      let expected = last_of c.genesis_hash c.later_hashes in
      let same : beq_bytes (block_hash keccak256 (latest keccak256 c)) expected ≡ true =
        (beq_bytes_iff (block_hash keccak256 (latest keccak256 c)) expected).1
          (sym (latest_hash keccak256 c h)) in
      let next : ((latest keccak256 c).header.number + 1 == (latest keccak256 c).header.number + 1)
          ≡ true =
        ground arith in
      (
        grown b,
        rw (same, next, append_block) refl,
        grown-IsChain b refl refl,
        ap (λ (x : Block). x.header.number) (grown-latest b),
      )

  -- On a well linked chain, get_block_by_number fails exactly above the height, and else returns
  -- the block that has that number.
  pub get_block_by_number_cases :
      (n : ℕ)
      → ((height keccak256 c < n) × (get_block_by_number keccak256 n c ≡ none))
        ⊎ ((n ≤ height keccak256 c)
            × ((b : Block) × (get_block_by_number keccak256 n c ≡ some b) × (b.header.number ≡ n)))
  unfolding get_block_by_number height latest
  get_block_by_number_cases n =
      let blocks = c.genesis ∷ c.later in
      let top = Linked-last keccak256 c.genesis c.later h.linked in
      elim (Option-cases (get_elem? blocks n)) [
        | inl e ↦ inl (omega (arith, top, h.origin, none_past blocks n e), e)
        | inr (b, e) ↦
            let position = Linked-number keccak256 c.genesis c.later n h.linked e in
            inr (
              omega (arith, top, h.origin, lt_of_get_elem? blocks n e),
              (b, e, omega (arith, position, h.origin)),
            )
      ]
