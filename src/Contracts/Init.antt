-- ===== src/Contracts/Init.antt =====
-- `build_init_code` of scenarios/02_counter.py and scenarios/03_token.py, and what the machine makes of it.
use ethereum_blockchain.Prelude.{
  ℕ, ◌+◌, ◌-◌, ◌≤◌, ◌≡◌, ◌∙◌, refl, true, false, [], ◌∷◌, ◌++◌, Option, none, some, ltb, ◌==◌,
  if◌then◌else◌, arith, length,
}
use ethereum_blockchain.Bytes.{Bytes, window, window-append_right, window-eq}
use ethereum_blockchain.Memory
use ethereum_blockchain.Memory.Words.{read_range-write_range_total}
use ethereum_blockchain.World.{World}
use ethereum_blockchain.Evm.{Host, ExecutionContext, ok}
use ethereum_blockchain.Evm.Trace.{Ends}
use ethereum_blockchain.Evm.Rules.{at, push1-Ends}
use ethereum_blockchain.Evm.Effects.{codecopy-Ends}
use ethereum_blockchain.Evm.Halts.{return-Ends}

-- The twelve bytes before the runtime code.
abbrev pub header : ℕ → Bytes
header runtime_len =
    0x60 ∷ runtime_len ∷ 0x60 ∷ 12 ∷ 0x60 ∷ 0x00 ∷ 0x39 ∷ 0x60 ∷ runtime_len ∷ 0x60 ∷ 0x00 ∷ 0xf3
    ∷ []

-- `none` is the ValueError of `bytes` at a number above 255.
unfoldable pub build_init_code : Bytes → Option Bytes
build_init_code runtime_bytecode =
    if ltb 255 (length runtime_bytecode)
    then none
    else some (header (length runtime_bytecode) ++ runtime_bytecode)

copied :
    (runtime : Bytes) → window (header (length runtime) ++ runtime) 12 (length runtime) ≡ runtime
copied runtime =
    window-append_right (header (length runtime)) runtime 0 (length runtime)
    ∙ window-eq runtime 0 (length runtime) runtime refl
        λ i lt. let first : 0 + i ≡ i = omega arith in rw first refl

module _ (host : Host) (context : ExecutionContext) (w : Option World) (runtime : Bytes) where
  -- The init code returns the runtime code.
  init-Ends :
      (g : ℕ)
      → (length runtime == 0) ≡ false
      → Memory.round_up (length runtime) ≤ host.memory_limit
      → 18 ≤ g
      → (m : Bytes) × Ends host
          (at host (header (length runtime) ++ runtime) context w 0 [] [] [] g)
          (
            ok tt,
            record (at host (header (length runtime) ++ runtime) context w 12 [] m [] (g - 18)) {
              return_data = runtime;
              stopped = true;
            },
          )
  init-Ends g nonempty fits enough =
      let c = header (length runtime) ++ runtime in
      let n = length runtime in
      let (m₁, m₂, written, back) =
        read_range-write_range_total host.memory_limit runtime nonempty fits in
      let written' : Memory.write_range host.memory_limit 0 (window c 12 n) [] ≡ some m₁ =
        rw (copied runtime) written in
      (
        m₂,
        push1-Ends host c context w 0 n [] [] [] g _ refl refl refl (omega arith) (
            push1-Ends host c context w 2 12 _ [] [] _ _ refl refl refl (omega arith) (
              push1-Ends host c context w 4 0 _ [] [] _ _ refl refl refl (omega arith) (
                codecopy-Ends host c context w 6 [] [] [] _ _ 0 12 n m₁ refl nonempty
                  (omega (arith, fits)) written' (omega arith)
                  (push1-Ends host c context w 7 n [] m₁ [] _ _ refl refl refl (omega arith) (
                    push1-Ends host c context w 9 0 _ m₁ [] _ _ refl refl refl (omega arith) (
                      return-Ends host c context w 11 [] m₁ [] _ _ (omega arith) 0 n runtime m₂ refl
                        back)))))),
      )

  pub init_code-Ends :
      (code : Bytes) (g : ℕ)
      → code ≡ header (length runtime) ++ runtime
      → (length runtime == 0) ≡ false
      → Memory.round_up (length runtime) ≤ host.memory_limit
      → 18 ≤ g
      → (m : Bytes) × Ends host (at host code context w 0 [] [] [] g) (
        ok tt,
        record (at host code context w 12 [] m [] (g - 18)) {
          return_data = runtime;
          stopped = true;
        },
      )
  init_code-Ends code g is nonempty fits enough = rw is (init-Ends g nonempty fits enough)
