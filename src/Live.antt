-- ===== src/Live.antt =====
-- tw_quant/live: the limiter of requests.
pub mod RateLimit
pub mod Windows
pub mod Bounds
mod Tests
