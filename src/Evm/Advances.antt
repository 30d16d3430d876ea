-- ===== src/Evm/Advances.antt =====
-- evm/vm.py: what no handler breaks. The relation between a frame before and after an action, and the
-- rules that carry it through a chain.
use ethereum_blockchain.Prelude.{
  ℕ, ◌%◌, ◌≤◌, ◌≡◌, ◌≢◌, refl, ◌∙◌, Bool, true, false, List, [], ◌∷◌, Option, none, some,
  Option-cases, inl, inr, Bool-cases, arith, ltb, leb, if◌then◌else◌, length, get_elem?,
}
use ethereum_blockchain.World.{World}
use ethereum_blockchain.World.Total.{total}
use ethereum_blockchain.Evm.State.{
  Error, out_of_fuel, Frame, Result, ok, err, Action, pure, raise, gets, modify, ◌>>=◌, continue,
  consume_gas, stack_pop, pop_from, stack_push, stack_peek,
}

-- The value that the world state holds; none without one.
abbrev pub value_held : Option World → ℕ
value_held none = 0
value_held (some w) = total w

-- Code, context and jump targets stay; gas never grows; the stack stays within 1024 items; memory
-- stays a whole number of words; and the world state neither gains nor loses value.
pub record Advances (e e' : Frame) : Type 0 where
  pub code : e'.code ≡ e.code
  pub context : e'.context ≡ e.context
  pub jumpdests : e'.valid_jumpdests ≡ e.valid_jumpdests
  pub gas : e'.gas_remaining ≤ e.gas_remaining
  pub depth : length e.stack ≤ 1024 → length e'.stack ≤ 1024
  pub aligned : length e.memory % 32 ≡ 0 → length e'.memory % 32 ≡ 0
  pub value : value_held e'.world_state ≡ value_held e.world_state

pub Advances-refl : (e : Frame) → Advances e e
Advances-refl e = record {
  code = refl;
  context = refl;
  jumpdests = refl;
  gas = omega arith;
  depth = λ h. h;
  aligned = λ h. h;
  value = refl;
}

pub Advances-trans : {e₁ e₂ e₃ : Frame} → Advances e₁ e₂ → Advances e₂ e₃ → Advances e₁ e₃
Advances-trans h k = record {
  code = k.code ∙ h.code;
  context = k.context ∙ h.context;
  jumpdests = k.jumpdests ∙ h.jumpdests;
  gas = omega (arith, h.gas, k.gas);
  depth = λ d. k.depth (h.depth d);
  aligned = λ a. k.aligned (h.aligned a);
  value = k.value ∙ h.value;
}

-- A frame that differs only in other fields.
pub Advances-same :
    (e e' : Frame)
    → e'.code ≡ e.code
    → e'.context ≡ e.context
    → e'.valid_jumpdests ≡ e.valid_jumpdests
    → e'.gas_remaining ≤ e.gas_remaining
    → e'.stack ≡ e.stack
    → e'.memory ≡ e.memory
    → value_held e'.world_state ≡ value_held e.world_state
    → Advances e e'
Advances-same e e' c x j g s m w = record {
  code = c;
  context = x;
  jumpdests = j;
  gas = g;
  depth = rw s (λ h. h);
  aligned = rw m (λ h. h);
  value = w;
}

-- The call did not run out of the model's fuel, and advanced the frame, also if it raised.
pub record Steps (e : Frame) {A : Type 0} (r : Result A × Frame) : Type 0 where
  pub advances : Advances e r.1
  pub clean : r.0 ≢ err out_of_fuel

pub returned : {A : Type 0} {e e' : Frame} {a : A} → Advances e e' → Steps e {A = A} (ok a, e')
returned h = record { advances = h; clean = cc }

pub raised : {A : Type 0} (e : Frame) {x : Error} → x ≢ out_of_fuel → Steps e {A = A} (err x, e)
raised e {x} h = record { advances = Advances-refl e; clean = λ p. h (ground arith) }

-- A chain whose first call stepped, and whose rest steps from where that ended.
pub Steps-continue :
    {A B : Type 0} (e : Frame) (r : Result A × Frame) (f : A → Action B)
    → Steps e r
    → ((a : A) → r.0 ≡ ok a → Steps r.1 (f a r.1))
    → Steps e (continue r f)
Steps-continue e (ok a, e') f s k =
    let t = k a refl in record { advances = Advances-trans s.advances t.advances; clean = t.clean }
Steps-continue e (err x, e') f s k = record {
  advances = s.advances;
  clean = λ p. s.clean (ground arith);
}

pub record Sound {A : Type 0} (m : Action A) : Type 0 where
  pub steps : (e : Frame) → Steps e (m e)

-- The rule for a chain: the first call, then the rest at every value.
pub >>=-Sound :
    {A B : Type 0} {m : Action A} {f : A → Action B}
    → Sound m
    → ((a : A) → Sound (f a))
    → Sound (m >>= f)
unfolding ◌>>=◌
>>=-Sound {m = m} {f = f} h k = record {
  steps = λ e. Steps-continue e (m e) f (h.steps e) (λ a p. (k a).steps (m e).1);
}

pub if-Sound :
    {A : Type 0} (b : Bool) (x y : Action A) → Sound x → Sound y → Sound (if b then x else y)
if-Sound true x y hx hy = hx
if-Sound false x y hx hy = hy

pub pure-Sound : {A : Type 0} (a : A) → Sound (pure a)
unfolding pure
pure-Sound a = record { steps = λ e. returned (Advances-refl e) }

pub raise-Sound : {A : Type 0} (x : Error) → x ≢ out_of_fuel → Sound (raise {A = A} x)
unfolding raise
raise-Sound x h = record { steps = λ e. raised e h }

pub gets-Sound : {A : Type 0} (f : Frame → A) → Sound (gets f)
unfolding gets
gets-Sound f = record { steps = λ e. returned (Advances-refl e) }

pub modify-Sound : (f : Frame → Frame) → ((e : Frame) → Advances e (f e)) → Sound (modify f)
unfolding modify
modify-Sound f h = record { steps = λ e. returned (h e) }

pub consume_gas-Sound : (cost : ℕ) → Sound (consume_gas cost)
unfolding consume_gas
consume_gas-Sound cost = record {
  steps = λ e. elim (Bool-cases (ltb e.gas_remaining cost)) [
    | inl short ↦ rw short (raised e cc)
    | inr paid ↦ rw paid (returned (Advances-same e _ refl refl refl (omega arith) refl refl refl))
  ];
}

pop_from-Steps : (s : List ℕ) (e : Frame) → e.stack ≡ s → Steps e (pop_from s e)
unfolding pop_from
pop_from-Steps [] e h = raised e cc
pop_from-Steps (a ∷ s) e h = returned (record {
  code = refl;
  context = refl;
  jumpdests = refl;
  gas = omega arith;
  depth = rw h (λ d. omega arith);
  aligned = λ h. h;
  value = refl;
})

pub stack_pop-Sound : Sound stack_pop
unfolding stack_pop
stack_pop-Sound = record { steps = λ e. pop_from-Steps e.stack e refl }

pub stack_push-Sound : (v : ℕ) → Sound (stack_push v)
unfolding stack_push
stack_push-Sound v = record {
  steps = λ e. elim (Bool-cases (leb 1024 (length e.stack))) [
    | inl full ↦ rw full (raised e cc)
    | inr room ↦ rw room (
        returned (record {
          code = refl;
          context = refl;
          jumpdests = refl;
          gas = omega arith;
          depth = λ h. ground arith;
          aligned = λ h. h;
          value = refl;
        }))
  ];
}

pub stack_peek-Sound : (depth : ℕ) → Sound (stack_peek depth)
unfolding stack_peek
stack_peek-Sound depth = record {
  steps = λ e. elim (Option-cases (get_elem? e.stack depth)) [
    | inl e₁ ↦ rw (e₁, stack_peek) (raised e cc)
    | inr (a, e₁) ↦ rw (e₁, stack_peek) (returned (Advances-refl e))
  ];
}

pub ruleset sound =
    (>>=-Sound, pure-Sound, gets-Sound, stack_pop-Sound, stack_push-Sound, stack_peek-Sound)
