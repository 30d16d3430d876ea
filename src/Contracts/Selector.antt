-- ===== src/Contracts/Selector.antt =====
-- contracts/counter.py and contracts/token.py: the code before the two handlers, which both contracts
-- share but for the selectors and the jump targets.
use ethereum_blockchain.Prelude.{
  ℕ, zero, suc, ◌+◌, ◌-◌, ◌*◌, ◌/◌, ◌^◌, ◌<◌, ◌≤◌, ◌≡◌, refl, ap, ◌∙◌, true, false, [], ◌∷◌, ◌++◌,
  Option, arith, ◌==◌, length,
}
use native.Mathlib.Nat.{add-mul-div_right, div-eq_of_lt}
use ethereum_blockchain.Prelude.Dict.{Dict, nat_eq, lookup}
use ethereum_blockchain.Bytes.{
  Bytes, AreBytes, byte_at, from_bytes, from_bytes-lt, from_bytes-concat, window, length-window,
  window-AreBytes,
}
use ethereum_blockchain.Memory
use ethereum_blockchain.World.{World}
use ethereum_blockchain.Evm.{
  Host, ExecutionContext, Frame, Result, ok, ⊤, div, eq, find_jumpdests, is_member, gas_cost,
  dispatch, handlers, call_handler,
}
use ethereum_blockchain.Evm.Trace.{Ends}
use ethereum_blockchain.Evm.Rules.{at, push-Ends, push1-Ends, dup-Ends, binary-Ends}
use ethereum_blockchain.Evm.Effects.{calldataload-Ends, jumpi-Ends, jumpi_not-Ends, pop-Ends}
use ethereum_blockchain.Evm.Halts.{revert-Ends}

-- A selector, byte by byte.
pub record Selector : Type 0 where
  pub b₀ : ℕ
  pub b₁ : ℕ
  pub b₂ : ℕ
  pub b₃ : ℕ

abbrev pub selector_bytes : Selector → Bytes
selector_bytes s = s.b₀ ∷ s.b₁ ∷ s.b₂ ∷ s.b₃ ∷ []

abbrev pub selector_word : Selector → ℕ
selector_word s = from_bytes (selector_bytes s)

-- The code that jumps to `d` or `d'` by the selector and reverts for any other, then `body`.
abbrev pub selecting : Selector → ℕ → Selector → ℕ → Bytes → Bytes
selecting s d s' d' body =
    0x7f ∷ 0 ∷ 0 ∷ 0 ∷ 1 ∷ 0 ∷ 0 ∷ 0 ∷ 0 ∷ 0 ∷ 0 ∷ 0 ∷ 0 ∷ 0 ∷ 0 ∷ 0 ∷ 0 ∷ 0 ∷ 0 ∷ 0 ∷ 0 ∷ 0 ∷ 0 ∷ 0
    ∷ 0 ∷ 0 ∷ 0 ∷ 0 ∷ 0 ∷ 0 ∷ 0 ∷ 0 ∷ 0 ∷ 0x60 ∷ 0x00 ∷ 0x35 ∷ 0x04 ∷ 0x80 ∷ 0x63 ∷ s.b₀ ∷ s.b₁
    ∷ s.b₂ ∷ s.b₃ ∷ 0x14 ∷ 0x60 ∷ d ∷ 0x57 ∷ 0x80 ∷ 0x63 ∷ s'.b₀ ∷ s'.b₁ ∷ s'.b₂ ∷ s'.b₃ ∷ 0x14
    ∷ 0x60 ∷ d' ∷ 0x57 ∷ 0x50 ∷ 0x60 ∷ 0x00 ∷ 0x60 ∷ 0x00 ∷ 0xfd ∷ body

window-append : (m : Bytes) (o n k : ℕ) → window m o (n + k) ≡ window m o n ++ window m (o + n) k
unfolding window
window-append m o zero k =
    let same : o + 0 ≡ o = omega arith in
    let none_more : 0 + k ≡ k = omega arith in rw (same, none_more) refl
window-append m o (suc n) k =
    let move : o + suc n ≡ o + 1 + n = omega arith in
    let grow : suc n + k ≡ suc (n + k) = omega arith in
    rw (move, grow) (ap (λ t. byte_at m o ∷ t) (window-append m (o + 1) n k))

quotient : (a b d : ℕ) → b < d → (a * d + b) / d ≡ a
quotient a b d h =
    let swap : a * d + b ≡ b + a * d = omega arith in
    let below = div-eq_of_lt h in
    let whole = add-mul-div_right b a {z = d} (omega arith) in rw (swap, whole, below) (omega arith)

-- The first four bytes of a word are what is left of it after a division by 2 ^ 224.
word_div :
    (bs : Bytes) → AreBytes bs → from_bytes (window bs 0 32) / 2 ^ 224 ≡ from_bytes (window bs 0 4)
word_div bs h =
    let low = window bs 4 28 in
    let size : length low ≡ 28 = length-window bs 4 28 in
    let small : from_bytes low < 256 ^ 28 =
      rw size at (from_bytes-lt low (window-AreBytes bs 4 28 h)) in
    let split : from_bytes (window bs 0 32)
        ≡ from_bytes (window bs 0 4) * 256 ^ 28 + from_bytes low =
      rw size at
        (ap from_bytes (window-append bs 0 4 28) ∙ from_bytes-concat (window bs 0 4) low) in
    rw split (quotient (from_bytes (window bs 0 4)) (from_bytes low) (2 ^ 224) small)

-- The number that the two comparisons see.
pub selected : ExecutionContext → ℕ
selected context = div (from_bytes (window context.calldata 0 32)) (2 ^ 224)

pub selected-window :
    (context : ExecutionContext)
    → AreBytes context.calldata
    → selected context ≡ from_bytes (window context.calldata 0 4)
unfolding selected
selected-window context bytes = word_div context.calldata bytes

module _ (host : Host) (s : Selector) (d : ℕ) (s' : Selector) (d' : ℕ) (body : Bytes)
    (context : ExecutionContext) (w : Option World) where
  abbrev code : Bytes
  code = selecting s d s' d' body

  -- Up to the first comparison.
  to_first :
      (st : Dict ℕ ℕ) (g : ℕ) (r : Result ⊤ × Frame)
      → 20 ≤ g
      → Ends host
          (at host code context w 38
            (selected context ∷ selected context ∷ [])
            []
            st
            (g - 3 - 3 - 3 - 5 - 3))
          r
      → Ends host (at host code context w 0 [] [] st g) r
  unfolding selected gas_cost dispatch handlers lookup call_handler window from_bytes
  to_first st g r enough rest =
      push-Ends host code context w 0 0x7f [] [] st g r refl refl refl refl (omega arith) (
        push1-Ends host code context w 33 _ _ [] st _ r refl refl refl (omega arith) (
          calldataload-Ends host code context w 35 _ [] st _ r 0 refl refl (omega arith) (
            binary-Ends host code context w 36 0x04 5 _ _ div [] [] st _ r refl refl refl
              (λ run e. refl) refl (omega arith) (omega arith)
              (dup-Ends host code context w 37 0x80 _ _ [] st _ r refl refl refl refl refl refl
                (omega arith) rest))))

  -- After the first comparison has failed, up to the second.
  to_second :
      (st : Dict ℕ ℕ) (g : ℕ) (r : Result ⊤ × Frame)
      → (selector_word s == selected context) ≡ false
      → 39 ≤ g
      → Ends host
          (at host code context w 48 (selected context ∷ selected context ∷ []) [] st (g - 39))
          r
      → Ends host (at host code context w 0 [] [] st g) r
  unfolding gas_cost dispatch handlers lookup call_handler window from_bytes
  to_second st g r other enough rest =
      let left : g - 3 - 3 - 3 - 5 - 3 - 3 - 3 - 3 - 10 - 3 ≡ g - 39 = omega arith in
      to_first st g r (omega arith) (
        push-Ends host code context w 38 0x63 _ [] st _ r refl refl refl refl (omega arith) (
          binary-Ends host code context w 43 0x14 3 _ _ eq _ [] st _ r refl refl refl
            (λ run e. refl) refl (omega arith) (omega arith)
            (push1-Ends host code context w 44 _ _ [] st _ r refl refl refl (omega arith) (
              jumpi_not-Ends host code context w 46 _ [] st _ r d _ refl (rw other refl)
                (omega arith)
                (dup-Ends host code context w 47 0x80 _ _ [] st _ r refl refl refl refl refl refl
                  (omega arith) (rw left rest))))))

  -- The first selector leads to `d`.
  pub first-Ends :
      (st : Dict ℕ ℕ) (g : ℕ) (r : Result ⊤ × Frame)
      → (selector_word s == selected context) ≡ true
      → is_member d (find_jumpdests code) ≡ true
      → 36 ≤ g
      → Ends host (at host code context w d (selected context ∷ []) [] st (g - 36)) r
      → Ends host (at host code context w 0 [] [] st g) r
  unfolding gas_cost dispatch handlers lookup call_handler window from_bytes
  first-Ends st g r same target enough rest =
      let left : g - 3 - 3 - 3 - 5 - 3 - 3 - 3 - 3 - 10 ≡ g - 36 = omega arith in
      to_first st g r (omega arith) (
        push-Ends host code context w 38 0x63 _ [] st _ r refl refl refl refl (omega arith) (
          binary-Ends host code context w 43 0x14 3 _ _ eq _ [] st _ r refl refl refl
            (λ run e. refl) refl (omega arith) (omega arith)
            (push1-Ends host code context w 44 _ _ [] st _ r refl refl refl (omega arith) (
              jumpi-Ends host code context w 46 _ [] st _ r d _ refl (rw same refl) target
                (omega arith) (rw left rest)))))

  -- The second selector leads to `d'`.
  pub second-Ends :
      (st : Dict ℕ ℕ) (g : ℕ) (r : Result ⊤ × Frame)
      → (selector_word s == selected context) ≡ false
      → (selector_word s' == selected context) ≡ true
      → is_member d' (find_jumpdests code) ≡ true
      → 58 ≤ g
      → Ends host (at host code context w d' (selected context ∷ []) [] st (g - 58)) r
      → Ends host (at host code context w 0 [] [] st g) r
  unfolding gas_cost dispatch handlers lookup call_handler window from_bytes
  second-Ends st g r other same target enough rest =
      let left : g - 39 - 3 - 3 - 3 - 10 ≡ g - 58 = omega arith in
      to_second st g r other (omega arith) (
        push-Ends host code context w 48 0x63 _ [] st _ r refl refl refl refl (omega arith) (
          binary-Ends host code context w 53 0x14 3 _ _ eq _ [] st _ r refl refl refl
            (λ run e. refl) refl (omega arith) (omega arith)
            (push1-Ends host code context w 54 _ _ [] st _ r refl refl refl (omega arith) (
              jumpi-Ends host code context w 56 _ [] st _ r d' _ refl (rw same refl) target
                (omega arith) (rw left rest)))))

  -- Any other selector reverts.
  pub neither-Ends :
      (st : Dict ℕ ℕ) (g : ℕ)
      → (selector_word s == selected context) ≡ false
      → (selector_word s' == selected context) ≡ false
      → 66 ≤ g
      → Ends host (at host code context w 0 [] [] st g) (
        ok tt,
        record (at host code context w 63 [] [] st (g - 66)) { stopped = true; reverted = true },
      )
  unfolding gas_cost dispatch handlers lookup call_handler window from_bytes Memory.read_range
  neither-Ends st g other other' enough = to_second st g _ other (omega arith) (
      push-Ends host code context w 48 0x63 _ [] st _ _ refl refl refl refl (omega arith) (
        binary-Ends host code context w 53 0x14 3 _ _ eq _ [] st _ _ refl refl refl (λ run e. refl)
          refl (omega arith) (omega arith)
          (push1-Ends host code context w 54 _ _ [] st _ _ refl refl refl (omega arith) (
            jumpi_not-Ends host code context w 56 _ [] st _ _ d' _ refl (rw other' refl)
              (omega arith)
              (pop-Ends host code context w 57 _ [] st _ _ _ refl (omega arith) (
                push1-Ends host code context w 58 _ _ [] st _ _ refl refl refl (omega arith) (
                  push1-Ends host code context w 60 _ _ [] st _ _ refl refl refl (omega arith) (
                    revert-Ends host code context w 62 [] [] st _ _ (omega arith) 0 0 [] [] refl
                      refl))))))))
