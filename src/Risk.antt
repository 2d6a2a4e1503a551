-- ===== src/Risk.antt =====
-- tw_quant/risk/live.py: the admission of a live order candidate by the risk limits. `Live` has the
-- calculation, `Entry` and `Exit` prove what an approved candidate satisfies.
mod Live
pub mod Entry
pub mod Exit
mod Tests
unfoldable pub use Live.*
