-- ===== src/Manager/Ports.antt =====
-- tw_quant/broker/registry.py and the gates of tw_quant/broker/ports.py, as the order manager asks
-- them. A broker adapter is a parameter: what it answers to a call, or the exception that it raises.
use codex_tw_quant_trading_s.Base.{
  Option, none, some, List, [], ◌∷◌, Result, ok, raised, runtime_error, key_error, ◌>>=◌,
  if◌then◌else◌,
}
use codex_tw_quant_trading_s.Identity.{AccountRef, account_eq}
use codex_tw_quant_trading_s.Order.{Request, Order}
use codex_tw_quant_trading_s.Outbox.{RoutedRequest, RoutedOrder}

-- `BrokerPort`
pub record Port : Type 0 where
  pub submit_order : Request → Result Order
  pub cancel_order : Order → Result Order
  pub refresh_order : Order → Result Order

-- `BrokerRuntimeState`
pub data RuntimeState : Type 0 where
  ready locked unavailable : RuntimeState

-- `BrokerRegistration`, as far as `resolve` reads it.
pub record Registration : Type 0 where
  pub account_ref : AccountRef
  pub port : Port
  pub state : RuntimeState

-- An `OrderAdmissionGate`; the two methods that `getattr` looks for may be missing.
pub record Gate : Type 0 where
  pub assert_ordering_allowed : Result (Unit {0})
  pub assert_request_allowed : Option (RoutedRequest → Result (Unit {0}))
  pub assert_order_allowed : Option (RoutedOrder → Result (Unit {0}))
  pub assert_cancel_allowed : Option (RoutedOrder → Result (Unit {0}))

-- What a `LiveOrderManager` holds besides its repository.
pub record Manager : Type 0 where
  pub registry : List Registration
  pub admission_gates : List (AccountRef × Gate)

unfoldable pub registration : AccountRef → List Registration → Result Registration
registration t [] = raised (key_error "unknown broker execution target")
registration t (r ∷ rs) = if account_eq r.account_ref t then ok r else registration t rs

abbrev pub port_in : Registration → RuntimeState → Result Port
port_in r ready = ok r.port
port_in r _ = raised (runtime_error "broker execution target is not ready")

-- `BrokerRegistry.resolve`
abbrev pub resolve : AccountRef → Manager → Result Port
resolve t m = registration t m.registry >>= λ r. port_in r r.state

unfoldable pub gate_of : AccountRef → List (AccountRef × Gate) → Option Gate
gate_of t [] = none
gate_of t ((a, g) ∷ gs) = if account_eq a t then some g else gate_of t gs

-- `_assert_admitted`; without gates nothing is asked.
abbrev pub gate_admits : List (AccountRef × Gate) → Option Gate → Result (Unit {0})
gate_admits [] g = ok tt
gate_admits (_ ∷ _) none =
    raised (runtime_error "no admission gate configured for execution target")
gate_admits (_ ∷ _) (some g) = g.assert_ordering_allowed

abbrev pub assert_admitted : AccountRef → Manager → Result (Unit {0})
assert_admitted t m =
    resolve t m >>= λ _. gate_admits m.admission_gates (gate_of t m.admission_gates)

-- `_assert_order_admitted`
abbrev pub asked {ℓ} : {A : Type ℓ} → Option (A → Result (Unit {0})) → A → Result (Unit {0})
asked none a = ok tt
asked (some method) a = method a

abbrev pub order_gate : Option Gate → RoutedOrder → Result (Unit {0})
order_gate none r = ok tt
order_gate (some g) r = asked g.assert_order_allowed r

abbrev pub assert_order_admitted : Manager → RoutedOrder → Result (Unit {0})
assert_order_admitted m r = order_gate (gate_of r.target m.admission_gates) r

abbrev pub request_gate : Option Gate → RoutedRequest → Result (Unit {0})
request_gate none r = ok tt
request_gate (some g) r = asked g.assert_request_allowed r

abbrev pub assert_request_admitted : Manager → RoutedRequest → Result (Unit {0})
assert_request_admitted m r = request_gate (gate_of r.target m.admission_gates) r

abbrev pub cancel_gate : Option Gate → RoutedOrder → Result (Unit {0})
cancel_gate none r = ok tt
cancel_gate (some g) r = asked g.assert_cancel_allowed r

abbrev pub assert_cancel_admitted : Manager → RoutedOrder → Result (Unit {0})
assert_cancel_admitted m r = cancel_gate (gate_of r.target m.admission_gates) r
