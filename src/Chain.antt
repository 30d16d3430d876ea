-- ===== src/Chain.antt =====
-- chain/block.py and chain/blockchain.py: blocks, and the list of them.
mod Defs
pub mod Linked
pub mod Append
pub mod Tamper
pub mod Replaced
pub mod Tests
unfoldable pub use Defs.*
