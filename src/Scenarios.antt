-- ===== src/Scenarios.antt =====
-- scenarios/: the scripts that run the library from genesis to a block.
pub mod Transfer
pub mod TransferEnds
pub mod Counter
pub mod CounterReady
pub mod CounterEnds
pub mod Tests
