-- ===== src/Memory.antt =====
-- evm/memory.py: the byte-addressable memory of an execution frame.
mod Defs
pub mod Bytewise
pub mod Words
pub mod Tests
unfoldable pub use Defs.*
