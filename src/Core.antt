-- ===== src/Core.antt =====
-- core/tx_validator.py, core/state_transition.py and core/exceptions.py.
mod Validator
mod Apply
pub mod Conserve
pub mod Valid
pub mod Settle
pub mod Payment
pub mod Start
pub mod Call
pub mod Install
pub mod Create
pub mod Tests
unfoldable pub use Validator.*
unfoldable pub use Apply.*
