-- ===== src/Execution.antt =====
-- tw_quant/execution: `Positions` has the ledger's data, `Ledger` its operations; `Replay` relates the
-- ledger to the list of its fills, `Settled` and `Closing` have the laws of one position.
pub mod Positions
pub mod Ledger
pub mod Router
pub mod Liquidator
pub mod Once
pub mod Routing
pub mod Replay
pub mod Closing
pub mod Settled
mod Tests
mod OrderTests
