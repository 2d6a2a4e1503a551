-- ===== src/Events/Models.antt =====
-- tw_quant/events/models.py: `DomainEvent`.
use codex_tw_quant_trading_s.Base.{String}
use codex_tw_quant_trading_s.Python.{Python}
use codex_tw_quant_trading_s.Events.Meta.{Metadata}
use codex_tw_quant_trading_s.Events.Orders.{OrderIntent, OrderStatusEvent, RiskDecision}
use codex_tw_quant_trading_s.Events.Fills.{FillEvent, PositionEvent}
use codex_tw_quant_trading_s.Events.Market.{MarketEvent, BarClosedEvent, SignalEvent, SessionEvent}

module _ (N : Python) where
  pub data DomainEvent : Type 0 where
    market : MarketEvent N → DomainEvent
    bar_closed : BarClosedEvent N → DomainEvent
    signal : SignalEvent N → DomainEvent
    order_intent : OrderIntent N → DomainEvent
    order_status : OrderStatusEvent → DomainEvent
    risk_decision : RiskDecision N → DomainEvent
    fill : FillEvent N → DomainEvent
    position : PositionEvent N → DomainEvent
    session : SessionEvent → DomainEvent

  -- `event.meta`
  abbrev pub meta_of : DomainEvent → Metadata
  meta_of (market e) = e.meta
  meta_of (bar_closed e) = e.meta
  meta_of (signal e) = e.meta
  meta_of (order_intent e) = e.meta
  meta_of (order_status e) = e.meta
  meta_of (risk_decision e) = e.meta
  meta_of (fill e) = e.meta
  meta_of (position e) = e.meta
  meta_of (session e) = e.meta

  -- `event.kind`
  abbrev pub kind_of : DomainEvent → String
  kind_of (market e) = "market"
  kind_of (bar_closed e) = "bar_closed"
  kind_of (signal e) = "signal"
  kind_of (order_intent e) = "order_intent"
  kind_of (order_status e) = "order_status"
  kind_of (risk_decision e) = "risk_decision"
  kind_of (fill e) = "fill"
  kind_of (position e) = "position"
  kind_of (session e) = "session"
