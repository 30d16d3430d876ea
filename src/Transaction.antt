-- ===== src/Transaction.antt =====
-- transactions/transaction.py: legacy transactions, their signatures and their senders.
mod Defs
pub mod Recovery
pub mod Tests
unfoldable pub use Defs.*
