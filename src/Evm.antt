-- ===== src/Evm.antt =====
-- evm/vm.py, evm/opcodes.py, evm/gas.py, evm/exceptions.py: the stack machine.
mod State
mod Gas
mod Jumpdests
mod Handlers
mod Calls
mod Execute
pub mod Advances
pub mod Sound
pub mod MemorySound
pub mod Guarded
pub mod Children
pub mod CreateSound
pub mod CallSound
pub mod RunSound
pub mod Halting
pub mod Tables
pub mod Trace
pub mod Rules
pub mod Effects
pub mod Halts
pub mod Persist
pub mod Completes
pub mod Fuel
pub mod Targets
pub mod Outcome
pub mod Intrinsic
pub mod Tests
unfoldable pub use State.*
unfoldable pub use Gas.*
unfoldable pub use Jumpdests.*
unfoldable pub use Handlers.*
unfoldable pub use Calls.*
unfoldable pub use Execute.*
