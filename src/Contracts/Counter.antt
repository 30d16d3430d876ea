-- ===== src/Contracts/Counter.antt =====
-- contracts/counter.py: the bytecode against a counter.
use ethereum_blockchain.Prelude.{
  ℕ, ◌-◌, ◌^◌, ◌<◌, ◌≤◌, ◌≡◌, refl, true, false, [], ◌∷◌, Option, arith, ◌==◌,
}
use ethereum_blockchain.Prelude.Dict.{Dict, nat_eq, lookup, insert}
use ethereum_blockchain.Bytes.{Bytes, digits}
use ethereum_blockchain.World.{World, or_zero}
use ethereum_blockchain.Evm.{
  Host, ExecutionContext, ok, add, find_jumpdests, is_member, gas_cost, dispatch, handlers,
  call_handler,
}
use ethereum_blockchain.Evm.Trace.{Ends}
use ethereum_blockchain.Evm.Rules.{at, push1-Ends, binary-Ends}
use ethereum_blockchain.Evm.Effects.{pop-Ends, jumpdest-Ends, sload-Ends, sstore-Ends}
use ethereum_blockchain.Evm.Halts.{stop-Ends}
use ethereum_blockchain.Contracts.ReturnWord.{return_word-Ends}
use ethereum_blockchain.Contracts.Defs.{counter_runtime_bytecode}
use ethereum_blockchain.Contracts.Selector.{
  Selector, selector_word, selected, first-Ends, second-Ends, neither-Ends,
}

abbrev pub increment_selector : Selector
increment_selector = record { b₀ = 0xd0; b₁ = 0x9d; b₂ = 0xe0; b₃ = 0x8a }

abbrev pub get_count_selector : Selector
get_count_selector = record { b₀ = 0xa8; b₁ = 0x7d; b₂ = 0x94; b₃ = 0x2c }

abbrev counter_body : Bytes
counter_body =
    0x5b ∷ 0x50 ∷ 0x60 ∷ 0x00 ∷ 0x54 ∷ 0x60 ∷ 0x01 ∷ 0x01 ∷ 0x60 ∷ 0x00 ∷ 0x55 ∷ 0x00 ∷ 0x5b ∷ 0x50
    ∷ 0x60 ∷ 0x00 ∷ 0x54 ∷ 0x60 ∷ 0x00 ∷ 0x52 ∷ 0x60 ∷ 0x20 ∷ 0x60 ∷ 0x00 ∷ 0xf3 ∷ []

-- The number in slot 0.
abbrev pub count_of : Dict ℕ ℕ → ℕ
count_of st = or_zero (lookup 0 st)

module _ (host : Host) (context : ExecutionContext) (w : Option World) where
  pub increment-Ends :
      (st : Dict ℕ ℕ) (g : ℕ)
      → (selector_word increment_selector == selected context) ≡ true
      → 5151 ≤ g
      → Ends host (at host counter_runtime_bytecode context w 0 [] [] st g) (
        ok tt,
        record (at host counter_runtime_bytecode context w 75 [] []
            (insert 0 (add 1 (count_of st)) st)
            (g - 5151)) { stopped = true },
      )
  unfolding gas_cost dispatch handlers lookup call_handler find_jumpdests is_member
  increment-Ends st g same enough =
      let c = counter_runtime_bytecode in
      first-Ends host increment_selector 63 get_count_selector 75 counter_body context w st g _ same
        refl (omega arith)
        (jumpdest-Ends host c context w 63 _ [] st _ _ refl (omega arith) (
          pop-Ends host c context w 64 _ [] st _ _ _ refl (omega arith) (
            push1-Ends host c context w 65 0 [] [] st _ _ refl refl refl (omega arith) (
              sload-Ends host c context w 67 [] [] st _ _ 0 refl refl (omega arith) (
                push1-Ends host c context w 68 1 _ [] st _ _ refl refl refl (omega arith) (
                  binary-Ends host c context w 70 0x01 3 _ _ add [] [] st _ _ refl refl refl
                    (λ run e. refl) refl (omega arith) (omega arith)
                    (push1-Ends host c context w 71 0 _ [] st _ _ refl refl refl (omega arith) (
                      sstore-Ends host c context w 73 [] [] st _ _ 0 _ refl (omega arith)
                        (stop-Ends host c context w 74 [] [] _ _ _ (omega arith) refl)))))))))

  pub get_count-Ends :
      (st : Dict ℕ ℕ) (g : ℕ)
      → (selector_word increment_selector == selected context) ≡ false
      → (selector_word get_count_selector == selected context) ≡ true
      → 176 ≤ g
      → count_of st < 256 ^ 32
      → 32 ≤ host.memory_limit
      → Ends host (at host counter_runtime_bytecode context w 0 [] [] st g) (
        ok tt,
        record (at host counter_runtime_bytecode context w 88 []
            (digits 32 (count_of st))
            st
            (g - 176)) { return_data = digits 32 (count_of st); stopped = true },
      )
  unfolding gas_cost dispatch handlers lookup call_handler find_jumpdests is_member
  get_count-Ends st g other same enough word fits =
      let c = counter_runtime_bytecode in
      second-Ends host increment_selector 63 get_count_selector 75 counter_body context w st g _
        other same refl (omega arith)
        (jumpdest-Ends host c context w 75 _ [] st _ _ refl (omega arith) (
          pop-Ends host c context w 76 _ [] st _ _ _ refl (omega arith) (
            push1-Ends host c context w 77 0 [] [] st _ _ refl refl refl (omega arith) (
              sload-Ends host c context w 79 [] [] st _ _ 0 refl refl (omega arith) (
                return_word-Ends host c context w 80 _ st _ _ refl refl refl refl refl refl refl
                  refl word fits (omega arith))))))

  pub other-Ends :
      (st : Dict ℕ ℕ) (g : ℕ)
      → (selector_word increment_selector == selected context) ≡ false
      → (selector_word get_count_selector == selected context) ≡ false
      → 66 ≤ g
      → Ends host (at host counter_runtime_bytecode context w 0 [] [] st g) (
        ok tt,
        record (at host counter_runtime_bytecode context w 63 [] [] st (g - 66)) {
          stopped = true;
          reverted = true;
        },
      )
  other-Ends st g other other' enough =
      neither-Ends host increment_selector 63 get_count_selector 75 counter_body context w st g
        other other' enough
