-- ===== src/Account.antt =====
-- tw_quant/risk/account.py: the risk gate of simulated and paper accounts. `Access` has the accounts
-- and their rights, `Costs` tw_quant/futures_costs.py, `State` the gate's data, `Controls` the kill
-- switch, sessions and order statuses, `Entries` the decision on an order, `Trades` the results
-- of fills and the decision before a fill, `Limits` and `Tracked` what an approval guarantees.
mod Access
mod Costs
mod State
mod Controls
mod Entries
mod Trades
pub mod Limits
pub mod Frame
pub mod Tracked
pub mod Approvals
pub mod Halt
pub mod Reducing
mod Tests
unfoldable pub use Access.*
unfoldable pub use Costs.*
unfoldable pub use State.*
unfoldable pub use Controls.*
unfoldable pub use Entries.*
unfoldable pub use Trades.*
