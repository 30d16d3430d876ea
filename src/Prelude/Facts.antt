-- ===== src/Prelude/Facts.antt =====
-- Facts on numbers, lists and powers that the components share.
use Prim.Native.Nat.{ℕ, zero, suc, ◌+◌, ◌*◌, ◌^◌, ◌<◌}
use mathlib.Core.Path.{◌≡◌, refl, ap}
use mathlib.Core.List.{List, [], ◌∷◌, ◌++◌}
use mathlib.Core.Option.{some}
use native.Mathlib.Omega.{arith}
use native.Mathlib.Nat.{pow-suc, pow-zero}
use ethereum_blockchain.Prelude.Lists.{length, get_elem?, take, drop}

-- A predicate on every element of a list.
abbrev pub All {ℓ κ} : {A : Type ℓ} → (A → Type κ) → List A → Type κ
All P [] = Unit
All P (x ∷ xs) = P x × All P xs

module _ {ℓ} {A : Type ℓ} where
  pub drop-append_length : (xs ys : List A) → drop (length xs) (xs ++ ys) ≡ ys
  drop-append_length [] ys = refl
  drop-append_length (x ∷ xs) ys = drop-append_length xs ys

  pub take-append_length : (xs ys : List A) → take (length xs) (xs ++ ys) ≡ xs
  take-append_length [] ys = refl
  take-append_length (x ∷ xs) ys = ap (λ t. x ∷ t) (take-append_length xs ys)

  pub drop-drop : (n m : ℕ) (xs : List A) → drop n (drop m xs) ≡ drop (m + n) xs
  drop-drop n zero xs = let e : 0 + n ≡ n = omega arith in rw e
  drop-drop zero (suc m) [] = let e : suc m + 0 ≡ suc m = omega arith in rw e
  drop-drop (suc n) (suc m) [] = let e : suc m + suc n ≡ suc (m + suc n) = omega arith in rw e
  drop-drop n (suc m) (x ∷ xs) =
      let e : suc m + n ≡ suc (m + n) = omega arith in rw e (drop-drop n m xs)

  pub get_elem?-append_length : (xs ys : List A) → get_elem? (xs ++ ys) (length xs) ≡ get_elem? ys 0
  get_elem?-append_length [] ys = refl
  get_elem?-append_length (x ∷ xs) ys = get_elem?-append_length xs ys

module _ {ℓ} {A : Type ℓ} where
  pub lt_of_get_elem? : (xs : List A) (i : ℕ) {a : A} → get_elem? xs i ≡ some a → i < length xs
  lt_of_get_elem? [] i e = cc
  lt_of_get_elem? (x ∷ xs) zero e = omega arith
  lt_of_get_elem? (x ∷ xs) (suc i) e = omega (arith, lt_of_get_elem? xs i e)

pub pow-add : (b n m : ℕ) → b ^ (n + m) ≡ b ^ n * b ^ m
pow-add b zero m = let e : 0 + m ≡ m = omega arith in rw (e, pow-zero) (omega arith)
pow-add b (suc n) m =
    let e : suc n + m ≡ suc (n + m) = omega arith in
    rw (e, pow-suc b (n + m), pow-suc b n, pow-add b n m) (grind arith)

pub pow_pos : (b n : ℕ) → 0 < b → 0 < b ^ n
pow_pos b zero h = rw pow-zero (omega arith)
pow_pos b (suc n) h = let ih = pow_pos b n h in rw pow-suc (grind arith)
