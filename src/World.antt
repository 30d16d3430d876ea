-- ===== src/World.antt =====
-- state/account.py and state/world_state.py: accounts, and the state that maps addresses to them.
mod Defs
mod Order
pub mod Root
pub mod Lookup
pub mod Total
pub mod Tests
unfoldable pub use Defs.*
unfoldable pub use Root.{code_hash, keys, account_item, account_items, state_root_placeholder}
