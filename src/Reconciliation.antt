-- ===== src/Reconciliation.antt =====
-- tw_quant/broker/reconciliation.py: the comparison of local orders with the broker's truth that
-- must find no issue before the recovery lock is released. `Snapshot` has the broker's data,
-- `Compare` the comparison; `Positions` and `Agreement` prove what it compares.
mod Snapshot
mod Compare
pub mod Positions
pub mod Listed
pub mod Agreement
mod Tests
unfoldable pub use Snapshot.*
unfoldable pub use Compare.*
