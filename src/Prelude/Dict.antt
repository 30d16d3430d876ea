-- ===== src/Prelude/Dict.antt =====
-- A Python dict: an association list in insertion order, over keys with a Boolean equality.
use Prim.Native.Nat.{ℕ}
use mathlib.Core.Path.{◌≡◌, refl}
use mathlib.Core.Logic.{◌↔◌}
use mathlib.Core.Bool.{Bool, true, false, ◌&&◌}
use mathlib.Core.List.{List, [], ◌∷◌}
use mathlib.Core.Option.{Option, none, some}
use native.Mathlib.Omega.{arith}
use ethereum_blockchain.Prelude.Tests.{◌==◌, ==_iff, if◌then◌else◌, Bool-cases}
use mathlib.Core.Logic.{inl, inr}

-- Equality of keys.
pub record Eq (K : Type 0) : Type 0 where
  pub beq : K → K → Bool
  pub beq_iff : (a b : K) → (beq a b ≡ true) ↔ (a ≡ b)

abbrev beq_ℕ : ℕ → ℕ → Bool
beq_ℕ a b = a == b

instance abbrev pub nat_eq : Eq ℕ
nat_eq = record { beq = beq_ℕ; beq_iff = ==_iff }

-- Byte strings are compared byte by byte.
abbrev pub beq_bytes : List ℕ → List ℕ → Bool
beq_bytes [] [] = true
beq_bytes [] (y ∷ ys) = false
beq_bytes (x ∷ xs) [] = false
beq_bytes (x ∷ xs) (y ∷ ys) = (x == y) && beq_bytes xs ys

pub beq_bytes_iff : (a b : List ℕ) → (beq_bytes a b ≡ true) ↔ (a ≡ b)
beq_bytes_iff [] [] = (λ _. refl, λ _. refl)
beq_bytes_iff [] (y ∷ ys) = (λ h. cc, λ h. cc)
beq_bytes_iff (x ∷ xs) [] = (λ h. cc, λ h. cc)
beq_bytes_iff (x ∷ xs) (y ∷ ys) =
    (λ h. ground (arith, beq_bytes_iff xs ys), λ h. ground (arith, beq_bytes_iff xs ys))

instance abbrev pub bytes_eq : Eq (List ℕ)
bytes_eq = record { beq = beq_bytes; beq_iff = beq_bytes_iff }

abbrev pub Dict : Type 0 → Type 0 → Type 0
Dict K V = List (K × V)

module _ {K V : Type 0} ⦃e : Eq K⦄ where
  -- `d.get(k)`
  unfoldable pub lookup : K → Dict K V → Option V
  lookup k [] = none
  lookup k ((j, v) ∷ d) = if e.beq j k then some v else lookup k d

  -- `d[k] = v`: a new key goes to the end.
  unfoldable pub insert : K → V → Dict K V → Dict K V
  insert k v [] = (k, v) ∷ []
  insert k v ((j, w) ∷ d) = if e.beq j k then (j, v) ∷ d else (j, w) ∷ insert k v d

  -- `k in d`
  unfoldable pub contains : K → Dict K V → Bool
  contains k d = elim (lookup k d) [ none ↦ false | some _ ↦ true ]

  pub lookup-insert :
      (k j : K) (v : V) (d : Dict K V)
      → lookup j (insert k v d) ≡ (if e.beq k j then some v else lookup j d)
  unfolding lookup insert
  lookup-insert k j v [] = refl
  lookup-insert k j v ((i, w) ∷ d) =
      ground (arith, e.beq_iff k j, e.beq_iff i k, e.beq_iff i j, lookup-insert k j v d)

  pub lookup-insert_self : (k : K) (v : V) (d : Dict K V) → lookup k (insert k v d) ≡ some v
  lookup-insert_self k v d = rw (lookup-insert k k v d, (e.beq_iff k k).1 refl)

  -- Every key stands once, as in a Python dict.
  unfoldable pub Distinct : Dict K V → Type 0
  Distinct [] = Unit
  Distinct ((k, v) ∷ d) = (lookup k d ≡ none) × Distinct d

  pub insert-Distinct : (k : K) (v : V) (d : Dict K V) → Distinct d → Distinct (insert k v d)
  unfolding insert Distinct lookup
  insert-Distinct k v [] h = (refl, tt)
  insert-Distinct k v ((j, w) ∷ d) h = elim (Bool-cases (e.beq j k)) [
    | inl same ↦ rw same h
    | inr other ↦
        let apart : e.beq k j ≡ false = ground (arith, e.beq_iff j k, e.beq_iff k j) in
        rw other (rw (lookup-insert k j v d, apart) (h.0), insert-Distinct k v d h.1)
  ]
