-- ===== src/Manager/Cancel.antt =====
-- tw_quant/broker/manager.py, `dispatch_cancel_once`, on the repository's tables.
use codex_tw_quant_trading_s.Base.{String, Option, none, some, Result, ok, raised, ◌>>=◌}
use codex_tw_quant_trading_s.Identity.{AccountRef}
use codex_tw_quant_trading_s.Order.{Order, make_order, unknown, transition_order}
use codex_tw_quant_trading_s.Outbox.{
  RoutedOrder, claim_next_cancel, finish_cancel, block_cancel, stamped,
}
use codex_tw_quant_trading_s.Outbox.Store.{Store}
use codex_tw_quant_trading_s.Manager.Ports.{
  Port, Manager, resolve, assert_admitted, assert_cancel_admitted,
}
use codex_tw_quant_trading_s.Manager.Dispatch.{Moment}

-- The order that the call returns after the gate raised and the row was blocked.
abbrev pub blocked_cancel :
    Moment → Order → String → Result (Unit {0}) × Store → Result (Option Order) × Store
blocked_cancel c o code (raised e, s) = (raised e, s)
blocked_cancel c o code (ok _, s) = (make_order (stamped o code c.ended_at) >>= λ p. ok (some p), s)

-- The result of the broker call: its order, or an unknown outcome if it raised.
abbrev pub cancel_result : Moment → Order → Result Order → Result Order
cancel_result c o (ok result) = ok result
cancel_result c o (raised _) = transition_order o (record {
  status = unknown;
  updated_at = c.ended_at;
  broker_order_id = none;
  filled_quantity = none;
  average_fill_price = none;
  status_reason = some "broker_cancel_failed_reconciliation_required";
})

abbrev pub cancel_finished : Order → Result (Unit {0}) × Store → Result (Option Order) × Store
cancel_finished o (raised e, s) = (raised e, s)
cancel_finished o (ok _, s) = (ok (some o), s)

abbrev pub record_cancel : Store → Result Order → Result (Option Order) × Store
record_cancel s (raised e) = (raised e, s)
record_cancel s (ok o) = cancel_finished o (finish_cancel o s)

abbrev pub cancel_at : Moment → RoutedOrder → Store → Result Port → Result (Option Order) × Store
cancel_at c r s (raised e) = (raised e, s)
cancel_at c r s (ok port) = record_cancel s (cancel_result c r.order (port.cancel_order r.order))

abbrev pub dispatch_cancel :
    Manager
    → AccountRef
    → Moment
    → RoutedOrder
    → Store
    → Result (Unit {0})
    → Result (Option Order) × Store
dispatch_cancel m t c r s (raised e) =
    blocked_cancel c r.order (c.code e) (block_cancel r.order (c.code e) c.blocked_at s)
dispatch_cancel m t c r s (ok _) = cancel_at c r s (resolve t m)

abbrev pub cancel_claimed :
    Manager
    → AccountRef
    → Moment
    → Result (Option RoutedOrder) × Store
    → Result (Option Order) × Store
cancel_claimed m t c (raised e, s) = (raised e, s)
cancel_claimed m t c (ok none, s) = (ok none, s)
cancel_claimed m t c (ok (some r), s) = dispatch_cancel m t c r s (assert_cancel_admitted m r)

abbrev pub cancel_dispatch_admitted :
    Manager → AccountRef → Moment → Store → Result (Unit {0}) → Result (Option Order) × Store
cancel_dispatch_admitted m t c s (raised e) = (raised e, s)
cancel_dispatch_admitted m t c s (ok _) = cancel_claimed m t c (claim_next_cancel t c.claimed_at s)

-- `dispatch_cancel_once`
unfoldable pub dispatch_cancel_once :
    Manager → AccountRef → Moment → Store → Result (Option Order) × Store
dispatch_cancel_once m t c s = cancel_dispatch_admitted m t c s (assert_admitted t m)
