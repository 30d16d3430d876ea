-- ===== src/Evm/Guarded.antt =====
-- evm/vm.py: the rules for actions that are sound from some frames only: those of CREATE and CALL,
-- which rely on the world state and the gas that they fetched.
use ethereum_blockchain.Prelude.{
  ℕ, ◌≤◌, ◌≡◌, refl, sym, ◌∙◌, Bool, true, false, Option, arith, if◌then◌else◌,
}
use ethereum_blockchain.World.{World}
use ethereum_blockchain.Evm.State.{Frame, Result, ok, err, Action, modify, gets, ◌>>=◌, continue}
use ethereum_blockchain.Evm.Calls.{set_world}
use ethereum_blockchain.Evm.Advances.{Advances-trans, Advances-same, value_held, Steps, Sound}

-- Soundness of an action from the frames that satisfy `P`.
pub record SoundIf (P : Frame → Type 0) {A : Type 0} (m : Action A) : Type 0 where
  pub steps : (e : Frame) → P e → Steps e (m e)

pub anyway : (P : Frame → Type 0) {A : Type 0} {m : Action A} → Sound m → SoundIf P m
anyway P h = record { steps = λ e p. h.steps e }

-- A condition that a chain's first call keeps still holds for the rest.
pub bind-if :
    (P Q : Frame → Type 0) {A B : Type 0} {m : Action A} {f : A → Action B}
    → SoundIf P m
    → ((e : Frame) → P e → Q (m e).1)
    → ((a : A) → SoundIf Q (f a))
    → SoundIf P (m >>= f)
unfolding ◌>>=◌
bind-if P Q {A} {B} {m = m} {f = f} h keeps k = record {
  steps = λ e p. go e (m e) (h.steps e p) (keeps e p);
}
  where
    go : (e : Frame) (r : Result A × Frame) → Steps e r → Q r.1 → Steps e (continue r f)
    go e (ok a, e') s q =
        let t = (k a).steps e' q in
        record { advances = Advances-trans s.advances t.advances; clean = t.clean }
    go e (err x, e') s q = record { advances = s.advances; clean = λ p. s.clean (ground arith) }

-- The frames with at most `G` gas.
abbrev pub Within : ℕ → Frame → Type 0
Within G e = e.gas_remaining ≤ G

-- Those whose world state holds `v`, too.
abbrev pub Holds : ℕ → ℕ → Frame → Type 0
Holds G v e = Within G e × (value_held e.world_state ≡ v)

-- Those that have at least `g` gas, too.
abbrev pub Funded : ℕ → ℕ → ℕ → Frame → Type 0
Funded G v g e = Holds G v e × (g ≤ e.gas_remaining)

module _ (G : ℕ) where
  pub bind-Within :
      {A B : Type 0} {m : Action A} {f : A → Action B}
      → Sound m
      → ((a : A) → SoundIf (Within G) (f a))
      → SoundIf (Within G) (m >>= f)
  bind-Within h k =
      bind-if (Within G) (Within G) (anyway (Within G) h)
        (λ e p. omega (arith, (h.steps e).advances.gas)) k

  -- A chain keeps the value that its parts keep.
  pub bind-Holds :
      (v : ℕ) {A B : Type 0} {m : Action A} {f : A → Action B}
      → Sound m
      → ((a : A) → SoundIf (Holds G v) (f a))
      → SoundIf (Holds G v) (m >>= f)
  bind-Holds v h k =
      bind-if (Holds G v) (Holds G v) (anyway (Holds G v) h)
        (λ e p. (omega (arith, (h.steps e).advances.gas, p.0), (h.steps e).advances.value ∙ p.1)) k

  -- To put another world state of the same value in place.
  pub then_set_world :
      (v : ℕ) (w : Option World) {B : Type 0} (k : Action B)
      → value_held w ≡ v
      → SoundIf (Holds G v) k
      → SoundIf (Holds G v) (set_world w >>= λ _. k)
  unfolding ◌>>=◌ set_world modify
  then_set_world v w k same h = record {
    steps = λ e p.
        let e' = record e { world_state = w } in
        let t = h.steps e' (p.0, same) in
        record {
          advances =
              Advances-trans
                (Advances-same e e' refl refl refl (omega arith) refl refl (same ∙ sym p.1))
                t.advances;
          clean = t.clean;
        };
  }

  pub set_world-Funded :
      (v g : ℕ) (w : Option World) {B : Type 0} (k : Action B)
      → value_held w ≡ v
      → SoundIf (Funded G v g) k
      → SoundIf (Funded G v g) (set_world w >>= λ _. k)
  unfolding ◌>>=◌ set_world modify
  set_world-Funded v g w k same h = record {
    steps = λ e p.
        let e' = record e { world_state = w } in
        let t = h.steps e' ((p.0.0, same), p.1) in
        record {
          advances =
              Advances-trans
                (Advances-same e e' refl refl refl (omega arith) refl refl (same ∙ sym p.0.1))
                t.advances;
          clean = t.clean;
        };
  }

  -- What the frame's world state and gas are fetched for.
  pub gets_world-if :
      {B : Type 0} (f : Option World → Action B)
      → ((w : Option World) → SoundIf (Holds G (value_held w)) (f w))
      → SoundIf (Within G) (gets (λ e. e.world_state) >>= f)
  unfolding ◌>>=◌ gets
  gets_world-if f h = record { steps = λ e p. (h e.world_state).steps e (p, refl) }

  pub gets_gas-if :
      (v : ℕ) {B : Type 0} (f : ℕ → Action B)
      → ((g : ℕ) → SoundIf (Funded G v g) (f g))
      → SoundIf (Holds G v) (gets (λ e. e.gas_remaining) >>= f)
  unfolding ◌>>=◌ gets
  gets_gas-if v f h = record { steps = λ e p. (h e.gas_remaining).steps e (p, omega arith) }

  pub gets-Funded :
      (v g : ℕ) {A B : Type 0} (get : Frame → A) (f : A → Action B)
      → ((a : A) → SoundIf (Funded G v g) (f a))
      → SoundIf (Funded G v g) (gets get >>= f)
  unfolding ◌>>=◌ gets
  gets-Funded v g get f h = record { steps = λ e p. (h (get e)).steps e p }

  pub if-Funded :
      (v g : ℕ) (b : Bool) {A : Type 0} (x y : Action A)
      → SoundIf (Funded G v g) x
      → SoundIf (Funded G v g) y
      → SoundIf (Funded G v g) (if b then x else y)
  if-Funded v g true x y hx hy = hx
  if-Funded v g false x y hx hy = hy

  pub with_less :
      (v g g' : ℕ) {A : Type 0} {m : Action A}
      → g ≤ g'
      → SoundIf (Funded G v g) m
      → SoundIf (Funded G v g') m
  with_less v g g' le h = record { steps = λ e p. h.steps e (p.0, omega arith) }

  -- A child with that gas stays within the bound.
  pub with_bound :
      (v g : ℕ) {A : Type 0} {m : Action A}
      → (g ≤ G → SoundIf (Holds G v) m)
      → SoundIf (Funded G v g) m
  with_bound v g h = record { steps = λ e p. (h (omega (arith, p.0.0))).steps e p.0 }
