-- ===== src/Outbox.antt =====
-- The durable order and outbox store, tw_quant/broker/repository.py: `Store` has the rows and what
-- reads them, `Dispatch` and `Cancel` the two outboxes, `Repair` what reconciliation and a restart
-- write. The proofs stand in `Invariant` and below.
pub mod Store
mod Dispatch
mod Cancel
mod Repair
mod Trace
pub mod Invariant
pub mod Claims
pub mod Effects
pub mod Stuck
pub mod Listing
pub mod Candidates
mod Tests
unfoldable pub use Store.*
unfoldable pub use Dispatch.*
unfoldable pub use Cancel.*
unfoldable pub use Repair.*
unfoldable pub use Trace.*
