-- ===== src/Chain/Replaced.antt =====
-- chain/blockchain.py, `validate_chain`: what it finds of a block that was replaced.
use ethereum_blockchain.Prelude.{
  ℕ, zero, suc, ◌≡◌, ◌↔◌, sym, ap, ◌∙◌, true, List, [], ◌∷◌, some, Bool-cases, inl, inr, get_elem?,
}
use mathlib.Core.Path.{subst}
use ethereum_blockchain.Prelude.Dict.{beq_bytes, beq_bytes_iff}
use ethereum_blockchain.Bytes.{Bytes}
use ethereum_blockchain.Chain.Defs.{Block, Blockchain, block_hash, validate_from, validate_chain}
use ethereum_blockchain.Chain.Linked.{Linked, IsChain, Linked-validate_from}

-- The list with another element at an index, and the chain with another block at a height.
unfoldable pub put_block : {A : Type 0} → ℕ → A → List A → List A
put_block i b [] = []
put_block zero b (x ∷ xs) = b ∷ xs
put_block (suc i) b (x ∷ xs) = x ∷ put_block i b xs

unfoldable pub replaced : ℕ → Block → Blockchain → Blockchain
replaced zero b c = record c { genesis = b }
replaced (suc i) b c = record c { later = put_block i b c.later }

module _ (keccak256 : Bytes → Bytes) (b old next : Block) where
  -- The block before a linked one is replaced.
  head_replaced :
      (bs : List Block)
      → Linked keccak256 old bs
      → get_elem? bs 0 ≡ some next
      → (validate_from keccak256 b bs ≡ true) ↔ (block_hash keccak256 b ≡ block_hash keccak256 old)
  unfolding Linked validate_from
  head_replaced [] h first = absurd cc
  head_replaced (x ∷ bs) h first =
      let test = beq_bytes_iff x.header.parent_hash (block_hash keccak256 b) in
      elim (Bool-cases (beq_bytes x.header.parent_hash (block_hash keccak256 b))) [
        | inl same ↦ (
          λ _. sym (test.0 same) ∙ h.0,
          λ _. rw (same, validate_from) (Linked-validate_from keccak256 x bs h.2),
        )
        | inr other ↦ (
          (λ e. absurd (let bad = rw (other, validate_from) at e in cc)),
          λ e. absurd (let same = test.1 (h.0 ∙ sym e) in cc),
        )
      ]

  later_replaced :
      (i : ℕ) (p : Block) (bs : List Block)
      → Linked keccak256 p bs
      → get_elem? bs i ≡ some old
      → get_elem? bs (suc i) ≡ some next
      → b.header.parent_hash ≡ old.header.parent_hash
      → (validate_from keccak256 p (put_block i b bs) ≡ true)
        ↔ (block_hash keccak256 b ≡ block_hash keccak256 old)
  unfolding Linked validate_from put_block
  later_replaced zero p [] h at_i at_next parent = absurd cc
  later_replaced zero p (x ∷ bs) h at_i at_next parent =
      let is : x ≡ old = cc in
      let linked : b.header.parent_hash ≡ block_hash keccak256 p =
        parent ∙ ap (λ (y : Block). y.header.parent_hash) (sym is) ∙ h.0 in
      let same = (beq_bytes_iff b.header.parent_hash (block_hash keccak256 p)).1 linked in
      rw (same, validate_from)
        (head_replaced bs (subst (λ y. Linked keccak256 y bs) is h.2) at_next)
  later_replaced (suc i) p [] h at_i at_next parent = absurd cc
  later_replaced (suc i) p (x ∷ bs) h at_i at_next parent =
      let same = (beq_bytes_iff x.header.parent_hash (block_hash keccak256 p)).1 h.0 in
      rw (same, validate_from) (later_replaced i x bs h.2 at_i at_next parent)

  -- Let any block but the last of a well linked chain, also the genesis block, be replaced by one
  -- with the same parent hash: validate_chain accepts the chain that results exactly if the new
  -- block has the hash of the old one.
  pub validate_chain-replaced :
      (c : Blockchain) (i : ℕ)
      → IsChain keccak256 c
      → get_elem? (c.genesis ∷ c.later) i ≡ some old
      → get_elem? (c.genesis ∷ c.later) (suc i) ≡ some next
      → b.header.parent_hash ≡ old.header.parent_hash
      → (validate_chain keccak256 (replaced i b c) ≡ true)
        ↔ (block_hash keccak256 b ≡ block_hash keccak256 old)
  unfolding validate_chain replaced
  validate_chain-replaced c zero h at_i at_next parent =
      let is : c.genesis ≡ old = cc in
      head_replaced c.later (subst (λ y. Linked keccak256 y c.later) is h.linked) at_next
  validate_chain-replaced c (suc i) h at_i at_next parent =
      later_replaced i c.genesis c.later h.linked at_i at_next parent
