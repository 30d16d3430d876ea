-- ===== src/Rlp/Offsets.antt =====
-- A byte string that stands in a longer one at an offset: how the decoder's reads see it.
use ethereum_blockchain.Prelude.{
  ℕ, ◌+◌, ◌≤◌, ◌≡◌, ap, sym, ◌∙◌, [], ◌∷◌, ◌++◌, append_assoc, some, arith, length, get_elem?,
  length-append, get_elem?-append_length,
}
use ethereum_blockchain.Bytes.{Bytes}
use ethereum_blockchain.Rlp.Decode.{slice}
use ethereum_blockchain.Rlp.Lengths.{slice-middle}

-- `xs` stands in `bs` from `o` on.
pub record StandsAt (bs : Bytes) (o : ℕ) (xs : Bytes) : Type 0 where
  pub before : Bytes
  pub after : Bytes
  pub parts : bs ≡ before ++ (xs ++ after)
  pub offset : o ≡ length before

pub StandsAt-slice :
    {bs : Bytes} {o : ℕ} {xs : Bytes} → StandsAt bs o xs → slice bs o (o + length xs) ≡ xs
StandsAt-slice {bs} {o} {xs} h = rw (h.parts, h.offset) (slice-middle h.before xs h.after)

pub StandsAt-length :
    {bs : Bytes} {o : ℕ} {xs : Bytes} → StandsAt bs o xs → o + length xs ≤ length bs
StandsAt-length {bs} {o} {xs} h = omega (
  arith,
  ap length h.parts,
  h.offset,
  length-append h.before (xs ++ h.after),
  length-append xs h.after,
)

pub StandsAt-head :
    {bs : Bytes} {o : ℕ} {x : ℕ} {xs : Bytes} → StandsAt bs o (x ∷ xs) → get_elem? bs o ≡ some x
StandsAt-head {bs} {o} {x} {xs} h =
    rw (h.parts, h.offset) (get_elem?-append_length h.before (x ∷ (xs ++ h.after)))

pub StandsAt-left :
    {bs : Bytes} {o : ℕ} (xs ys : Bytes) → StandsAt bs o (xs ++ ys) → StandsAt bs o xs
StandsAt-left xs ys h = record {
  before = h.before;
  after = ys ++ h.after;
  parts = h.parts ∙ ap (λ t. h.before ++ t) (append_assoc xs ys h.after);
  offset = h.offset;
}

pub StandsAt-right :
    {bs : Bytes} {o : ℕ} (xs ys : Bytes) → StandsAt bs o (xs ++ ys) → StandsAt bs (o + length xs) ys
StandsAt-right xs ys h = record {
  before = h.before ++ xs;
  after = h.after;
  parts =
      h.parts
      ∙ ap (λ t. h.before ++ t) (append_assoc xs ys h.after)
      ∙ sym (append_assoc h.before xs (ys ++ h.after));
  offset = omega (arith, h.offset, length-append h.before xs);
}

pub StandsAt-tail :
    {bs : Bytes} {o : ℕ} {x : ℕ} {xs : Bytes} → StandsAt bs o (x ∷ xs) → StandsAt bs (o + 1) xs
StandsAt-tail {x = x} {xs = xs} h = StandsAt-right (x ∷ []) xs h
