-- ===== src/Manager/Dispatch.antt =====
-- tw_quant/broker/manager.py: `create`, `dispatch_once`, `request_cancel`. The world is the repository's tables and,
-- newest first, the requests that the broker was asked to submit.
use codex_tw_quant_trading_s.Base.{
  String, Bool, not, Option, none, some, List, ◌∷◌, Result, Error, ok, raised, runtime_error,
  key_error, ◌>>=◌, if◌then◌else◌,
}
use codex_tw_quant_trading_s.Identity.{AccountRef, account_eq}
use codex_tw_quant_trading_s.Order.{Datetime, Request, Order, make_order, unknown, transition_order}
use codex_tw_quant_trading_s.Outbox.{
  RoutedRequest, RoutedOrder, reserve, claim_next, finish_dispatch, block_dispatch, stamped,
  get_routed, reserve_cancel,
}
use codex_tw_quant_trading_s.Outbox.Store.{Store}
use codex_tw_quant_trading_s.Manager.Ports.{
  Port, Manager, resolve, assert_admitted, assert_order_admitted, assert_request_admitted,
  assert_cancel_admitted,
}

pub record World : Type 0 where
  pub store : Store
  pub submitted : List Request

-- What the clock gives during a call, and the text of an exception (`str(exc) or ...`).
pub record Moment : Type 0 where
  pub claimed_at : Datetime
  pub blocked_at : Datetime
  pub ended_at : Datetime
  pub code : Error → String

-- `create`
abbrev pub create_admitted :
    RoutedRequest → Datetime → Store → Result (Unit {0}) → Result (Order × Bool) × Store
create_admitted rr now s (raised e) = (raised e, s)
create_admitted rr now s (ok _) = reserve rr now s

unfoldable pub create : Manager → RoutedRequest → Datetime → Store → Result (Order × Bool) × Store
create m rr now s =
    create_admitted rr now s (assert_admitted rr.target m >>= λ _. assert_request_admitted m rr)

-- The order that `dispatch_once` returns after the gate raised and the row was blocked.
abbrev pub blocked_answer :
    Moment → Order → String → World → Result (Unit {0}) × Store → Result (Option Order) × World
blocked_answer c o code w (raised e, s) = (raised e, record w { store = s })
blocked_answer c o code w (ok _, s) =
    (make_order (stamped o code c.ended_at) >>= λ p. ok (some p), record w { store = s })

-- The result of the broker call: its order, or an unknown outcome if it raised.
abbrev pub submission_result : Moment → Order → Result Order → Result Order
submission_result c o (ok result) = ok result
submission_result c o (raised _) = transition_order o (record {
  status = unknown;
  updated_at = c.ended_at;
  broker_order_id = none;
  filled_quantity = none;
  average_fill_price = none;
  status_reason = some "broker_call_failed_reconciliation_required";
})

abbrev pub finished : Order → World → Result (Unit {0}) × Store → Result (Option Order) × World
finished o w (raised e, s) = (raised e, record w { store = s })
finished o w (ok _, s) = (ok (some o), record w { store = s })

abbrev pub record_result : World → Result Order → Result (Option Order) × World
record_result w (raised e) = (raised e, w)
record_result w (ok o) = finished o w (finish_dispatch o w.store)

abbrev pub submit_to : Moment → RoutedOrder → World → Result Port → Result (Option Order) × World
submit_to c r w (raised e) = (raised e, w)
submit_to c r w (ok port) =
    record_result (record w { submitted = r.order.request ∷ w.submitted })
      (submission_result c r.order (port.submit_order r.order.request))

abbrev pub dispatch_order :
    Manager → Moment → RoutedOrder → World → Result (Unit {0}) → Result (Option Order) × World
dispatch_order m c r w (raised e) =
    blocked_answer c r.order (c.code e) w (block_dispatch r.order (c.code e) c.blocked_at w.store)
dispatch_order m c r w (ok _) = submit_to c r w (resolve r.target m)

abbrev pub dispatch_claimed :
    Manager
    → AccountRef
    → Moment
    → World
    → Result (Option RoutedOrder) × Store
    → Result (Option Order) × World
dispatch_claimed m t c w (raised e, s) = (raised e, record w { store = s })
dispatch_claimed m t c w (ok none, s) = (ok none, record w { store = s })
dispatch_claimed m t c w (ok (some r), s) =
    if not (account_eq r.target t)
    then (
      raised (runtime_error "durable outbox returned a different execution target"),
      record w { store = s },
    )
    else dispatch_order m c r (record w { store = s }) (assert_order_admitted m r)

abbrev pub dispatch_admitted :
    Manager → AccountRef → Moment → World → Result (Unit {0}) → Result (Option Order) × World
dispatch_admitted m t c w (raised e) = (raised e, w)
dispatch_admitted m t c w (ok _) = dispatch_claimed m t c w (claim_next t c.claimed_at w.store)

-- `dispatch_once`
unfoldable pub dispatch_once : Manager → AccountRef → Moment → World → Result (Option Order) × World
dispatch_once m t c w = dispatch_admitted m t c w (assert_admitted t m)

-- `request_cancel`
abbrev pub cancel_current : Manager → AccountRef → Option RoutedOrder → Result (Unit {0})
cancel_current m t none = raised (key_error "unknown platform live order")
cancel_current m t (some r) =
    if account_eq r.target t
    then assert_cancel_admitted m r
    else raised (key_error "unknown platform live order")

abbrev pub cancel_admitted :
    AccountRef
    → String
    → String
    → Datetime
    → Store
    → Result (Unit {0})
    → Result (Order × Bool) × Store
cancel_admitted t owner k now s (raised e) = (raised e, s)
cancel_admitted t owner k now s (ok _) = reserve_cancel t owner k now s

unfoldable pub request_cancel :
    Manager → AccountRef → String → String → Datetime → Store → Result (Order × Bool) × Store
request_cancel m t owner k now s =
    cancel_admitted t owner k now s
      (assert_admitted t m >>= λ _. get_routed owner k s >>= λ r. cancel_current m t r)
