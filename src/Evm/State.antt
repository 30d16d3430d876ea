-- ===== src/Evm/State.antt =====
-- evm/vm.py and evm/exceptions.py: the state of an execution frame, its errors, and the monad of the
-- handlers. A raise keeps the frame as it is at that point, since the world state is shared with the
-- callers: what was written stays written.
use ethereum_blockchain.Prelude.{
  ℕ, ◌+◌, ◌-◌, ◌^◌, Bool, List, [], ◌∷◌, Option, none, some, ltb, leb, if◌then◌else◌, length,
  get_elem?,
}
use ethereum_blockchain.Prelude.Dict.{Dict}
use ethereum_blockchain.Bytes.{Bytes}
use ethereum_blockchain.World.{World}

-- The subclasses of EVMError that the machine raises (`Revert` is never raised). `host_error` is an
-- exception of Python itself, OverflowError or MemoryError; `out_of_fuel` has no counterpart.
pub data Error : Type 0 where
  out_of_gas : ℕ → ℕ → Error
  stack_underflow : ℕ → ℕ → Error
  stack_overflow : ℕ → Error
  invalid_jump_destination : ℕ → Error
  invalid_opcode : ℕ → ℕ → Error
  host_error out_of_fuel : Error

pub record ExecutionContext : Type 0 where
  pub caller : Bytes
  pub address : Bytes
  pub value : ℕ
  pub calldata : Bytes
  pub gas : ℕ

pub record ExecutionResult : Type 0 where
  pub success : Bool
  pub return_data : Bytes
  pub gas_used : ℕ
  pub gas_remaining : ℕ

-- The fields of `class EVM`. The stack's head is its top. Words are natural numbers below 2 ^ 256.
pub record Frame : Type 0 where
  pub code : Bytes
  pub program_counter : ℕ
  pub stack : List ℕ
  pub memory : Bytes
  pub storage : Dict ℕ ℕ
  pub gas_remaining : ℕ
  pub context : ExecutionContext
  pub world_state : Option World
  pub stopped : Bool
  pub return_data : Bytes
  pub reverted : Bool
  pub valid_jumpdests : List ℕ

-- What the machine takes from outside the repository: the hash of `eth_hash`, and the largest byte
-- array that the host can allocate.
pub record Host : Type 0 where
  pub keccak256 : Bytes → Bytes
  pub memory_limit : ℕ

abbrev pub mod_value : ℕ
mod_value = 2 ^ 256

abbrev pub max_uint256 : ℕ
max_uint256 = 2 ^ 256 - 1

abbrev pub max_stack_depth : ℕ
max_stack_depth = 1024

pub data Result (A : Type 0) : Type 0 where
  ok : A → Result A
  err : Error → Result A

abbrev pub Action : Type 0 → Type 0
Action A = Frame → Result A × Frame

abbrev pub ⊤ : Type 0
⊤ = Unit

unfoldable pub pure : {A : Type 0} → A → Action A
pure a e = (ok a, e)

unfoldable pub raise : {A : Type 0} → Error → Action A
raise x e = (err x, e)

unfoldable pub gets : {A : Type 0} → (Frame → A) → Action A
gets f e = (ok (f e), e)

unfoldable pub modify : (Frame → Frame) → Action ⊤
modify f e = (ok tt, f e)

-- The rest of a chain after a call's outcome.
abbrev pub continue : {A B : Type 0} → Result A × Frame → (A → Action B) → Result B × Frame
continue (ok a, e) f = f a e
continue (err x, e) f = (err x, e)

infixl 5 ◌>>=◌ ◌>>◌
unfoldable pub ◌>>=◌ : {A B : Type 0} → Action A → (A → Action B) → Action B
◌>>=◌ m f e = continue (m e) f

abbrev pub ◌>>◌ : {A B : Type 0} → Action A → Action B → Action B
m >> k = m >>= λ _. k

-- `_consume_gas`
unfoldable pub consume_gas : ℕ → Action ⊤
unfolding raise
consume_gas cost e =
    if ltb e.gas_remaining cost
    then raise (out_of_gas cost e.gas_remaining) e
    else (ok tt, record e { gas_remaining = e.gas_remaining - cost })

unfoldable pub pop_from : List ℕ → Action ℕ
unfolding raise
pop_from [] e = raise (stack_underflow 1 0) e
pop_from (a ∷ rest) e = (ok a, record e { stack = rest })

-- `_stack_pop`
unfoldable pub stack_pop : Action ℕ
unfolding pop_from
stack_pop e = pop_from e.stack e

-- `_stack_push`
unfoldable pub stack_push : ℕ → Action ⊤
unfolding raise
stack_push value e =
    if leb max_stack_depth (length e.stack)
    then raise (stack_overflow max_stack_depth) e
    else (ok tt, record e { stack = value ∷ e.stack })

-- `_stack_peek`
unfoldable pub stack_peek : ℕ → Action ℕ
unfolding raise
stack_peek depth e = elim (get_elem? e.stack depth) [
  | none ↦ raise (stack_underflow (depth + 1) (length e.stack)) e
  | some a ↦ (ok a, e)
]
