-- ===== src/Contracts.antt =====
-- contracts/abi.py, contracts/counter.py, contracts/token.py: the contracts' bytecode and calldata.
mod Abi
mod Defs
pub mod Selector
pub mod ReturnWord
pub mod Replay
pub mod Counter
pub mod CounterRefines
pub mod Token
pub mod Ledger
pub mod TokenCalls
pub mod TokenRefines
pub mod Supply
pub mod Calldata
pub mod Init
pub mod Deployment
pub mod Deployed
pub mod Transactions
pub mod Tests
unfoldable pub use Abi.*
unfoldable pub use Defs.*
