-- ===== src/Chain/Defs.antt =====
-- chain/block.py and chain/blockchain.py. `_blocks` is never empty, so it is its first element and the
-- list of the others; likewise `_block_hashes`. Equal byte strings are compared by `beq_bytes`.
use ethereum_blockchain.Prelude.{
  ℕ, ◌+◌, Bool, true, false, not, List, [], ◌∷◌, ◌++◌, Option, ◌==◌, if◌then◌else◌, get_elem?,
  replicate,
}
use ethereum_blockchain.Prelude.Dict.{beq_bytes}
use ethereum_blockchain.Bytes.{Bytes}
use ethereum_blockchain.Rlp.{Items, list, string, nil, cons, int_to_rlp_bytes, rlp_encode}
use ethereum_blockchain.Transaction.{Transaction}

pub record Header : Type 0 where
  pub parent_hash : Bytes
  pub number : ℕ
  pub timestamp : ℕ
  pub state_root : Bytes

pub record Block : Type 0 where
  pub header : Header
  pub transactions : List Transaction

pub record Blockchain : Type 0 where
  pub genesis : Block
  pub later : List Block
  pub genesis_hash : Bytes
  pub later_hashes : List Bytes

abbrev pub genesis_parent_hash : Bytes
genesis_parent_hash = replicate 32 0

-- The list that `block_hash` encodes.
abbrev pub header_fields : Header → Items
header_fields h = cons (string h.parent_hash) (
    cons (string (int_to_rlp_bytes h.number))
      (cons (string (int_to_rlp_bytes h.timestamp)) (cons (string h.state_root) nil)))

-- `xs[-1]` of a list with the first element `a`.
unfoldable pub last_of : {A : Type 0} → A → List A → A
last_of a [] = a
last_of a (b ∷ bs) = last_of b bs

-- The two ValueErrors of `append_block`, with what they were given.
pub data AppendError : Type 0 where
  invalid_parent_hash : Bytes → Bytes → AppendError
  invalid_block_number : ℕ → ℕ → AppendError

pub data Appending : Type 0 where
  refused : AppendError → Appending
  appended : Bytes → Blockchain → Appending

module _ (keccak256 : Bytes → Bytes) where
  unfoldable pub block_hash : Block → Bytes
  block_hash block = keccak256 (rlp_encode (list (header_fields block.header)))

  unfoldable pub create_genesis_block : Bytes → ℕ → Block
  create_genesis_block state_root timestamp = record {
    header = record {
      parent_hash = genesis_parent_hash;
      number = 0;
      timestamp = timestamp;
      state_root = state_root;
    };
    transactions = [];
  }

  unfoldable pub create_block : Block → List Transaction → Bytes → ℕ → Block
  create_block parent transactions state_root timestamp = record {
    header = record {
      parent_hash = block_hash parent;
      number = parent.header.number + 1;
      timestamp = timestamp;
      state_root = state_root;
    };
    transactions = transactions;
  }

  -- `Blockchain.__init__`
  unfoldable pub new_blockchain : Block → Blockchain
  new_blockchain genesis = record {
    genesis = genesis;
    later = [];
    genesis_hash = block_hash genesis;
    later_hashes = [];
  }

  unfoldable pub latest : Blockchain → Block
  latest c = last_of c.genesis c.later

  unfoldable pub height : Blockchain → ℕ
  unfolding latest
  height c = (latest c).header.number

  unfoldable pub append_block : Block → Blockchain → Appending
  append_block block c =
      let expected_parent_hash = last_of c.genesis_hash c.later_hashes in
      let expected_number = height c + 1 in
      let new_hash = block_hash block in
      if not (beq_bytes block.header.parent_hash expected_parent_hash)
      then refused (invalid_parent_hash expected_parent_hash block.header.parent_hash)
      else if not (block.header.number == expected_number)
      then refused (invalid_block_number expected_number block.header.number)
      else appended new_hash (record c {
        later = c.later ++ (block ∷ []);
        later_hashes = c.later_hashes ++ (new_hash ∷ []);
      })

  -- `none` is the IndexError.
  unfoldable pub get_block_by_number : ℕ → Blockchain → Option Block
  get_block_by_number number c = get_elem? (c.genesis ∷ c.later) number

  -- The loop of `validate_chain`, from the block before.
  unfoldable pub validate_from : Block → List Block → Bool
  validate_from previous [] = true
  validate_from previous (block ∷ blocks) =
      if not (beq_bytes block.header.parent_hash (block_hash previous))
      then false
      else validate_from block blocks

  unfoldable pub validate_chain : Blockchain → Bool
  unfolding validate_from
  validate_chain c = validate_from c.genesis c.later
