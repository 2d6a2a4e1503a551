-- ===== src/Order.antt =====
-- The broker-neutral order model and its lifecycle: tw_quant/broker/models.py and
-- tw_quant/broker/lifecycle.py. `Order.Models` has the data with the constructors' checks,
-- `Order.Lifecycle` the transition function; the other modules prove what they keep.
mod Models
mod Lifecycle
pub mod Laws
pub mod Reach
mod Tests
unfoldable pub use Models.*
unfoldable pub use Lifecycle.*
