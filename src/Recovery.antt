-- ===== src/Recovery.antt =====
-- tw_quant/broker/recovery.py: the recovery lock that must be READY before an order is admitted.
-- `Locks` has the table and its operations, `Fencing` proves what the generations guard.
mod Locks
pub mod Fencing
pub mod Release
mod Tests
unfoldable pub use Locks.*
