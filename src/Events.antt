-- ===== src/Events.antt =====
-- tw_quant/events: the domain events and the engine that processes them in order of time. `Meta` has
-- the metadata and the event ids, `Orders`, `Fills` and `Market` the events with their constructors'
-- checks, `Models` their union, `Engine` the clock and the engine.
mod Meta
mod Orders
mod Fills
mod Market
mod Models
pub mod Engine
pub mod Consistent
pub mod Running
mod Tests
unfoldable pub use Meta.*
unfoldable pub use Orders.*
unfoldable pub use Fills.*
unfoldable pub use Market.*
unfoldable pub use Models.*
