-- ===== src/Market.antt =====
-- tw_quant/market: the trading sessions with their dates, and the cache of quotes.
pub mod Sessions
pub mod Dates
pub mod Quotes
pub mod Newest
mod Tests
