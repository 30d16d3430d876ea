-- ===== src/Contracts/Token.antt =====
-- contracts/token.py: what the two handlers of the bytecode do.
use ethereum_blockchain.Prelude.{
  ℕ, ◌-◌, ◌^◌, ◌<◌, ◌≤◌, ◌≡◌, refl, true, false, [], ◌∷◌, Option, ltb, ◌==◌, arith,
}
use ethereum_blockchain.Prelude.Dict.{Dict, nat_eq, lookup, insert}
use ethereum_blockchain.Bytes.{Bytes, digits, from_bytes, window}
use ethereum_blockchain.World.{World, or_zero}
use ethereum_blockchain.Evm.{
  Host, ExecutionContext, Frame, Result, ok, ⊤, add, sub, lt, find_jumpdests, is_member, gas_cost,
  dispatch, handlers, call_handler,
}
use ethereum_blockchain.Memory
use ethereum_blockchain.Evm.Trace.{Ends}
use ethereum_blockchain.Evm.Rules.{at, push1-Ends, dup-Ends, binary-Ends}
use ethereum_blockchain.Evm.Effects.{
  pop-Ends, jumpdest-Ends, calldataload-Ends, caller-Ends, sload-Ends, sstore-Ends, swap1-Ends,
  jumpi-Ends, jumpi_not-Ends,
}
use ethereum_blockchain.Evm.Halts.{stop-Ends, revert-Ends}
use ethereum_blockchain.Contracts.Defs.{token_runtime_bytecode}
use ethereum_blockchain.Contracts.ReturnWord.{return_word-Ends}
use ethereum_blockchain.Contracts.Selector.{
  Selector, selector_word, selected, first-Ends, second-Ends, neither-Ends,
}

abbrev pub transfer_selector : Selector
transfer_selector = record { b₀ = 0xa9; b₁ = 0x05; b₂ = 0x9c; b₃ = 0xbb }

abbrev pub balance_of_selector : Selector
balance_of_selector = record { b₀ = 0x70; b₁ = 0xa0; b₂ = 0x82; b₃ = 0x31 }

-- The code after the selector.
abbrev token_body : Bytes
token_body =
    0x5b ∷ 0x50 ∷ 0x60 ∷ 0x04 ∷ 0x35 ∷ 0x60 ∷ 0x24 ∷ 0x35 ∷ 0x33 ∷ 0x80 ∷ 0x54 ∷ 0x82 ∷ 0x81 ∷ 0x10
    ∷ 0x60 ∷ 0x5c ∷ 0x57 ∷ 0x82 ∷ 0x90 ∷ 0x03 ∷ 0x90 ∷ 0x55 ∷ 0x81 ∷ 0x54 ∷ 0x01 ∷ 0x81 ∷ 0x55
    ∷ 0x50 ∷ 0x00 ∷ 0x5b ∷ 0x60 ∷ 0x00 ∷ 0x60 ∷ 0x00 ∷ 0xfd ∷ 0x5b ∷ 0x50 ∷ 0x60 ∷ 0x04 ∷ 0x35
    ∷ 0x54 ∷ 0x60 ∷ 0x00 ∷ 0x52 ∷ 0x60 ∷ 0x20 ∷ 0x60 ∷ 0x00 ∷ 0xf3 ∷ []

-- What the storage keeps for an account.
abbrev pub balance : Dict ℕ ℕ → ℕ → ℕ
balance st who = or_zero (lookup who st)

-- The storage after a transfer that is covered.
abbrev pub moved : ℕ → ℕ → ℕ → Dict ℕ ℕ → Dict ℕ ℕ
moved from to amount st =
    let debited = insert from (sub (balance st from) amount) st in
    insert to (add (balance debited to) amount) debited

-- The arguments in the calldata.
abbrev pub argument : ℕ → ExecutionContext → ℕ
argument offset context = from_bytes (window context.calldata offset 32)

module _ (host : Host) (context : ExecutionContext) (w : Option World) where
  abbrev from : ℕ
  from = from_bytes context.caller

  abbrev to : ℕ
  to = argument 4 context

  abbrev amount : ℕ
  amount = argument 36 context

  -- Up to the check of the balance.
  to_check :
      (st : Dict ℕ ℕ) (g : ℕ) (r : Result ⊤ × Frame)
      → (selector_word transfer_selector == selected context) ≡ true
      → 178 ≤ g
      → Ends host
          (at host token_runtime_bytecode context w 79
            (0x5c ∷ lt (balance st from) amount ∷ balance st from ∷ from ∷ amount ∷ to ∷ [])
            []
            st
            (g - 168))
          r
      → Ends host (at host token_runtime_bytecode context w 0 [] [] st g) r
  unfolding gas_cost dispatch handlers lookup call_handler find_jumpdests is_member
  to_check st g r same enough rest =
      let c = token_runtime_bytecode in
      let left : g - 36 - 1 - 2 - 3 - 3 - 3 - 3 - 2 - 3 - 100 - 3 - 3 - 3 - 3 ≡ g - 168 =
        omega arith in
      first-Ends host transfer_selector 63 balance_of_selector 98 token_body context w st g r same
        refl (omega arith)
        (jumpdest-Ends host c context w 63 _ [] st _ _ refl (omega arith) (
          pop-Ends host c context w 64 _ [] st _ _ _ refl (omega arith) (
            push1-Ends host c context w 65 4 [] [] st _ _ refl refl refl (omega arith) (
              calldataload-Ends host c context w 67 [] [] st _ _ 4 refl refl (omega arith) (
                push1-Ends host c context w 68 36 _ [] st _ _ refl refl refl (omega arith) (
                  calldataload-Ends host c context w 70 _ [] st _ _ 36 refl refl (omega arith) (
                    caller-Ends host c context w 71 _ [] st _ _ refl refl (omega arith) (
                      dup-Ends host c context w 72 0x80 _ _ [] st _ _ refl refl refl refl refl refl
                        (omega arith)
                        (sload-Ends host c context w 73 _ [] st _ _ _ refl refl (omega arith) (
                          dup-Ends host c context w 74 0x82 _ _ [] st _ _ refl refl refl refl refl
                            refl (omega arith)
                            (dup-Ends host c context w 75 0x81 _ _ [] st _ _ refl refl refl refl
                              refl refl (omega arith)
                              (binary-Ends host c context w 76 0x10 3 _ _ lt _ [] st _ _ refl refl
                                refl (λ run e. refl) refl (omega arith) (omega arith)
                                (push1-Ends host c context w 77 0x5c _ [] st _ _ refl refl refl
                                  (omega arith) (rw left rest))))))))))))))

  pub transfer-Ends :
      (st : Dict ℕ ℕ) (g : ℕ)
      → (selector_word transfer_selector == selected context) ≡ true
      → ltb (balance st from) amount ≡ false
      → 10301 ≤ g
      → Ends host (at host token_runtime_bytecode context w 0 [] [] st g) (
        ok tt,
        record (at host token_runtime_bytecode context w 92 [] []
            (moved from to amount st)
            (g - 10301)) { stopped = true },
      )
  unfolding gas_cost dispatch handlers lookup call_handler find_jumpdests is_member
  transfer-Ends st g same covered enough =
      let c = token_runtime_bytecode in
      to_check st g _ same (omega arith) (
        jumpi_not-Ends host c context w 79 _ [] st _ _ 0x5c _ refl (rw covered refl) (omega arith) (
          dup-Ends host c context w 80 0x82 _ _ [] st _ _ refl refl refl refl refl refl
            (omega arith)
            (swap1-Ends host c context w 81 _ [] st _ _ _ _ refl (omega arith) (
              binary-Ends host c context w 82 0x03 3 _ _ sub _ [] st _ _ refl refl refl
                (λ run e. refl) refl (omega arith) (omega arith)
                (swap1-Ends host c context w 83 _ [] st _ _ _ _ refl (omega arith) (
                  sstore-Ends host c context w 84 _ [] st _ _ _ _ refl (omega arith) (
                    dup-Ends host c context w 85 0x81 _ _ [] _ _ _ refl refl refl refl refl refl
                      (omega arith)
                      (sload-Ends host c context w 86 _ [] _ _ _ _ refl refl (omega arith) (
                        binary-Ends host c context w 87 0x01 3 _ _ add _ [] _ _ _ refl refl refl
                          (λ run e. refl) refl (omega arith) (omega arith)
                          (dup-Ends host c context w 88 0x81 _ _ [] _ _ _ refl refl refl refl refl
                            refl (omega arith)
                            (sstore-Ends host c context w 89 _ [] _ _ _ _ _ refl (omega arith) (
                              pop-Ends host c context w 90 _ [] _ _ _ _ refl (omega arith) (
                                stop-Ends host c context w 91 [] [] _ _ _ (omega arith)
                                  refl)))))))))))))

  pub uncovered-Ends :
      (st : Dict ℕ ℕ) (g : ℕ)
      → (selector_word transfer_selector == selected context) ≡ true
      → ltb (balance st from) amount ≡ true
      → 185 ≤ g
      → Ends host (at host token_runtime_bytecode context w 0 [] [] st g) (
        ok tt,
        record (at host token_runtime_bytecode context w 98
            (balance st from ∷ from ∷ amount ∷ to ∷ [])
            []
            st
            (g - 185)) { stopped = true; reverted = true },
      )
  unfolding gas_cost dispatch handlers lookup call_handler find_jumpdests is_member
      Memory.read_range
  uncovered-Ends st g same short enough =
      let c = token_runtime_bytecode in
      to_check st g _ same (omega arith) (
        jumpi-Ends host c context w 79 _ [] st _ _ 0x5c _ refl (rw short refl) refl (omega arith) (
          jumpdest-Ends host c context w 92 _ [] st _ _ refl (omega arith) (
            push1-Ends host c context w 93 0 _ [] st _ _ refl refl refl (omega arith) (
              push1-Ends host c context w 95 0 _ [] st _ _ refl refl refl (omega arith)
                (revert-Ends host c context w 97 _ [] st _ _ (omega arith) 0 0 [] [] refl refl)))))

  pub balance_of-Ends :
      (st : Dict ℕ ℕ) (g : ℕ)
      → (selector_word transfer_selector == selected context) ≡ false
      → (selector_word balance_of_selector == selected context) ≡ true
      → 179 ≤ g
      → balance st to < 256 ^ 32
      → 32 ≤ host.memory_limit
      → Ends host (at host token_runtime_bytecode context w 0 [] [] st g) (
        ok tt,
        record (at host token_runtime_bytecode context w 112 []
            (digits 32 (balance st to))
            st
            (g - 179)) { return_data = digits 32 (balance st to); stopped = true },
      )
  unfolding gas_cost dispatch handlers lookup call_handler find_jumpdests is_member
  balance_of-Ends st g other same enough word fits =
      let c = token_runtime_bytecode in
      second-Ends host transfer_selector 63 balance_of_selector 98 token_body context w st g _ other
        same refl (omega arith)
        (jumpdest-Ends host c context w 98 _ [] st _ _ refl (omega arith) (
          pop-Ends host c context w 99 _ [] st _ _ _ refl (omega arith) (
            push1-Ends host c context w 100 4 [] [] st _ _ refl refl refl (omega arith) (
              calldataload-Ends host c context w 102 [] [] st _ _ 4 refl refl (omega arith) (
                sload-Ends host c context w 103 [] [] st _ _ _ refl refl (omega arith) (
                  return_word-Ends host c context w 104 _ st _ _ refl refl refl refl refl refl refl
                    refl word fits (omega arith)))))))

  pub other-Ends :
      (st : Dict ℕ ℕ) (g : ℕ)
      → (selector_word transfer_selector == selected context) ≡ false
      → (selector_word balance_of_selector == selected context) ≡ false
      → 66 ≤ g
      → Ends host (at host token_runtime_bytecode context w 0 [] [] st g) (
        ok tt,
        record (at host token_runtime_bytecode context w 63 [] [] st (g - 66)) {
          stopped = true;
          reverted = true;
        },
      )
  other-Ends st g other other' enough =
      neither-Ends host transfer_selector 63 balance_of_selector 98 token_body context w st g other
        other' enough
