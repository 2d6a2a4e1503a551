-- ===== src/Manager.antt =====
-- tw_quant/broker/manager.py: the coordinator that takes orders from the outbox to the broker.
-- `Ports` has the registry and the admission gates that it asks, `Dispatch` and `Cancel` its
-- calls; `Submissions` and `Ended` prove what the broker is asked to do, and a cancel that fails.
mod Ports
mod Dispatch
mod Cancel
pub mod Submissions
pub mod Ended
mod Tests
unfoldable pub use Ports.*
unfoldable pub use Dispatch.*
unfoldable pub use Cancel.*
