-- ===== src/World/Order.antt =====
-- Python's order on byte strings, and `sorted` on a list of them.
use ethereum_blockchain.Prelude.{
  ◌≡◌, ◌≢◌, ◌∙◌, sym, refl, Bool, true, false, List, [], ◌∷◌, ltb, ◌==◌, if◌then◌else◌, Bool-cases,
  inl, inr, All, arith,
}
use mathlib.Core.Bool.{◌||◌}
use ethereum_blockchain.Prelude.Dict.{beq_bytes, beq_bytes_iff}
use ethereum_blockchain.Bytes.{Bytes}

-- `xs < ys`
abbrev pub lt_bytes : Bytes → Bytes → Bool
lt_bytes xs [] = false
lt_bytes [] (y ∷ ys) = true
lt_bytes (x ∷ xs) (y ∷ ys) = if ltb x y then true else if x == y then lt_bytes xs ys else false

lt_bytes_irrefl : (xs : Bytes) → lt_bytes xs xs ≡ false
lt_bytes_irrefl [] = refl
lt_bytes_irrefl (x ∷ xs) = ground (arith, lt_bytes_irrefl xs)

lt_bytes_trans :
    (xs ys zs : Bytes) → lt_bytes xs ys ≡ true → lt_bytes ys zs ≡ true → lt_bytes xs zs ≡ true
lt_bytes_trans xs [] zs h k = absurd cc
lt_bytes_trans xs (y ∷ ys) [] h k = absurd cc
lt_bytes_trans [] (y ∷ ys) (z ∷ zs) h k = refl
lt_bytes_trans (x ∷ xs) (y ∷ ys) (z ∷ zs) h k = ground (arith, lt_bytes_trans xs ys zs)

lt_bytes_total : (xs ys : Bytes) → lt_bytes xs ys ≡ false → xs ≢ ys → lt_bytes ys xs ≡ true
lt_bytes_total [] [] h k = absurd (k refl)
lt_bytes_total (x ∷ xs) [] h k = refl
lt_bytes_total [] (y ∷ ys) h k = absurd cc
lt_bytes_total (x ∷ xs) (y ∷ ys) h k = elim (Bool-cases (x == y)) [
  | inl same ↦
      let is : x ≡ y = ground arith in
      let tails : lt_bytes xs ys ≡ false = ground arith in
      let rest = lt_bytes_total xs ys tails (λ e. k (rw (is, e) refl)) in ground (arith, rest)
  | inr other ↦ ground arith
]

abbrev pub insert_sorted : Bytes → List Bytes → List Bytes
insert_sorted x [] = x ∷ []
insert_sorted x (y ∷ ys) = if lt_bytes y x then y ∷ insert_sorted x ys else x ∷ y ∷ ys

-- `sorted(xs)`
abbrev pub sorted : List Bytes → List Bytes
sorted [] = []
sorted (x ∷ xs) = insert_sorted x (sorted xs)

-- `x in xs`
abbrev pub has : Bytes → List Bytes → Bool
has x [] = false
has x (y ∷ ys) = beq_bytes y x || has x ys

-- Each element is below all that follow.
abbrev pub Ascends : List Bytes → Type 0
Ascends [] = Unit
Ascends (x ∷ xs) = All (λ y. lt_bytes x y ≡ true) xs × Ascends xs

has-insert_sorted :
    (a x : Bytes) (xs : List Bytes) → has a (insert_sorted x xs) ≡ (beq_bytes x a || has a xs)
has-insert_sorted a x [] = refl
has-insert_sorted a x (y ∷ ys) = ground (arith, has-insert_sorted a x ys)

pub has-sorted : (a : Bytes) (xs : List Bytes) → has a (sorted xs) ≡ has a xs
has-sorted a [] = refl
has-sorted a (x ∷ xs) = rw (has-insert_sorted a x (sorted xs), has-sorted a xs) refl

All-insert_sorted :
    (P : Bytes → Type 0) (x : Bytes) (xs : List Bytes) → P x → All P xs → All P (insert_sorted x xs)
All-insert_sorted P x [] p h = (p, tt)
All-insert_sorted P x (y ∷ ys) p h = elim (Bool-cases (lt_bytes y x)) [
  | inl later ↦ rw later (h.0, All-insert_sorted P x ys p h.1)
  | inr first ↦ rw first (p, h)
]

All-trans :
    (x y : Bytes) (ys : List Bytes)
    → lt_bytes x y ≡ true
    → All (λ z. lt_bytes y z ≡ true) ys
    → All (λ z. lt_bytes x z ≡ true) ys
All-trans x y [] h k = tt
All-trans x y (z ∷ zs) h k = (lt_bytes_trans x y z h k.0, All-trans x y zs h k.1)

insert_sorted-Ascends :
    (x : Bytes) (xs : List Bytes) → has x xs ≡ false → Ascends xs → Ascends (insert_sorted x xs)
insert_sorted-Ascends x [] fresh h = (tt, tt)
insert_sorted-Ascends x (y ∷ ys) fresh h = elim (Bool-cases (lt_bytes y x)) [
  | inl later ↦
      let fresh' : has x ys ≡ false = ground arith in
      rw later (
        All-insert_sorted (λ z. lt_bytes y z ≡ true) x ys later h.0,
        insert_sorted-Ascends x ys fresh' h.1,
      )
  | inr first ↦
      let before : lt_bytes x y ≡ true =
        lt_bytes_total y x first
          λ e. let same = (beq_bytes_iff y x).1 e in let bad = rw same at fresh in cc in
      rw first ((before, All-trans x y ys before h.0), h)
]

-- A list of no element twice.
abbrev pub Fresh : List Bytes → Type 0
Fresh [] = Unit
Fresh (x ∷ xs) = (has x xs ≡ false) × Fresh xs

pub sorted-Ascends : (xs : List Bytes) → Fresh xs → Ascends (sorted xs)
sorted-Ascends [] h = tt
sorted-Ascends (x ∷ xs) h =
    insert_sorted-Ascends x (sorted xs) (rw (has-sorted x xs) h.0) (sorted-Ascends xs h.1)

lt_of_has :
    (x a : Bytes) (ys : List Bytes)
    → All (λ y. lt_bytes x y ≡ true) ys
    → has a ys ≡ true
    → lt_bytes x a ≡ true
lt_of_has x a [] h k = absurd cc
lt_of_has x a (y ∷ ys) h k = elim (Bool-cases (beq_bytes y a)) [
  | inl same ↦ let is = (beq_bytes_iff y a).0 same in rw is at h.0
  | inr other ↦ lt_of_has x a ys h.1 (rw other at k)
]

not_has : (x : Bytes) (ys : List Bytes) → All (λ y. lt_bytes x y ≡ true) ys → has x ys ≡ false
not_has x ys h = elim (Bool-cases (has x ys)) [
  | inl there ↦ absurd (let below = lt_of_has x x ys h there in let never = lt_bytes_irrefl x in cc)
  | inr absent ↦ absent
]

heads_eq :
    (x y : Bytes) (xs ys : List Bytes)
    → Ascends (x ∷ xs)
    → Ascends (y ∷ ys)
    → ((a : Bytes) → has a (x ∷ xs) ≡ has a (y ∷ ys))
    → x ≡ y
heads_eq x y xs ys h k same = elim (Bool-cases (beq_bytes y x)) [
  | inl e ↦ sym ((beq_bytes_iff y x).0 e)
  | inr apart ↦ absurd (
      let self_x = (beq_bytes_iff x x).1 refl in
      let self_y = (beq_bytes_iff y y).1 refl in
      let apart' : beq_bytes x y ≡ false = ground (arith, beq_bytes_iff x y, beq_bytes_iff y x) in
      let in_ys : has x ys ≡ true = sym (rw (self_x, apart) at (same x)) in
      let in_xs : has y xs ≡ true = rw (self_y, apart') at (same y) in
      let up = lt_of_has y x ys k.0 in_ys in
      let down = lt_of_has x y xs h.0 in_xs in
      let round = lt_bytes_trans x y x down up in let never = lt_bytes_irrefl x in cc)
]

-- Two ascending lists of the same elements are the same list.
pub Ascends-unique :
    (xs ys : List Bytes) → Ascends xs → Ascends ys → ((a : Bytes) → has a xs ≡ has a ys) → xs ≡ ys
Ascends-unique [] [] h k same = refl
Ascends-unique [] (y ∷ ys) h k same =
    absurd (let self = (beq_bytes_iff y y).1 refl in let bad = rw self at (same y) in cc)
Ascends-unique (x ∷ xs) [] h k same =
    absurd (let self = (beq_bytes_iff x x).1 refl in let bad = rw self at (same x) in cc)
Ascends-unique (x ∷ xs) (y ∷ ys) h k same =
    let is = heads_eq x y xs ys h k same in
    let below : All (λ z. lt_bytes x z ≡ true) ys = rw (← is) at k.0 in
    let tails = Ascends-unique xs ys h.1 k.1 λ a. elim (Bool-cases (beq_bytes x a)) [
      | inl e ↦
          let is_a = (beq_bytes_iff x a).0 e in
          rw (← is_a) (not_has x xs h.0 ∙ sym (not_has x ys below))
      | inr apart ↦ rw (← is, apart) at (same a)
    ] in
    rw (is, tails) refl
