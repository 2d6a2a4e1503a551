-- ===== src/Execution/Router.antt =====
-- tw_quant/execution/signal_router.py: `SignalOrderRouter`, and tw_quant/execution/risk_gates.py: the
-- gates of research and of no configuration.
use codex_tw_quant_trading_s.Base.{
  String, Bool, true, false, not, Option, none, some, List, [], ◌∷◌, Result, ok, raised, ◌>>=◌,
  ◌>>◌, raise_if, value_error, type_error, if◌then◌else◌, str_eq,
}
use codex_tw_quant_trading_s.Base.Int.{ℤ, pos, abs, leb_ℤ, ltb_ℤ, eqb_ℤ}
use codex_tw_quant_trading_s.Python.{Python}
use codex_tw_quant_trading_s.Events.{
  Metadata, create_metadata, DomainEvent, signal, order_intent, SignalEvent, OrderIntent,
  check_order_intent, RiskDecision, check_risk_decision,
}
use codex_tw_quant_trading_s.Execution.Positions.{PositionKey, PositionState, Ledger, position_key}
use codex_tw_quant_trading_s.Execution.Ledger.{owner_of, state}

-- What `on_signal` decides on before it builds the intent.
pub record Plan : Type 0 where
  pub side : String
  pub quantity : ℤ
  pub purpose : String
  pub reduce_only : Bool

module _ (N : Python) where
  -- `SignalOrderRouter`, without the ledger, which is an argument.
  pub record Router : Type 0 where
    pub default_quantity : ℤ
    pub execution_timing : String

  -- `SignalOrderRouter.__init__`
  unfoldable pub new_router : ℤ → String → Result Router
  new_router quantity timing =
      raise_if (leb_ℤ quantity (pos 0)) (value_error "default_quantity must be positive")
      >> ok (record { default_quantity = quantity; execution_timing = timing })

  abbrev pub entry_plan : Router → SignalEvent N → Plan
  entry_plan r e = record {
    side = if str_eq e.direction "long" then "buy" else "sell";
    quantity = r.default_quantity;
    purpose = "entry";
    reduce_only = false;
  }

  abbrev pub exit_plan : PositionState N → Plan
  exit_plan s = record {
    side = if ltb_ℤ (pos 0) s.quantity then "sell" else "buy";
    quantity = pos (abs s.quantity);
    purpose = "exit";
    reduce_only = true;
  }

  -- The plan of an exit signal for a position; `none` is `return None`.
  unfoldable pub plan_exit : SignalEvent N → Option (PositionState N) → Result (Option Plan)
  plan_exit e none = ok none
  plan_exit e (some s) =
      if eqb_ℤ s.quantity (pos 0)
      then ok none
      else raise_if
          (not (str_eq (if ltb_ℤ (pos 0) s.quantity then "long" else "short") e.direction))
          (value_error "exit signal direction does not match the open position")
        >> ok (some (exit_plan s))

  abbrev pub signal_key : String → SignalEvent N → PositionKey
  signal_key owner e = record {
    owner_id = owner;
    strategy_id = e.strategy_id;
    strategy_version = e.strategy_version;
    symbol = e.symbol;
    contract = e.contract;
  }

  abbrev pub plan_signal : Router → String → SignalEvent N → Ledger N → Result (Option Plan)
  plan_signal r owner e l =
      if str_eq e.action "enter"
      then ok (some (entry_plan r e))
      else plan_exit e (state N (signal_key owner e) l)

  abbrev pub routed_intent : Router → SignalEvent N → Plan → Metadata → OrderIntent N
  routed_intent r e p m = record {
    meta = m;
    order_id = m.event_id;
    strategy_id = e.strategy_id;
    strategy_version = e.strategy_version;
    symbol = e.symbol;
    contract = e.contract;
    side = p.side;
    quantity = p.quantity;
    order_type = "market";
    purpose = p.purpose;
    execution_timing = r.execution_timing;
    reduce_only = p.reduce_only;
    reason = e.reason;
    reference_price = e.reference_price;
    stop_loss_price = e.stop_loss_price;
    stop_loss_pct = none;
    take_profit_pct = none;
    strategy_snapshot = none;
    trading_date = e.trading_date;
    client_order_id = none;
    order_source = "manual";
    runtime_id = none;
    decision_id = none;
  }

  -- The metadata of what answers an event.
  abbrev pub answer_metadata : String → String → String → Metadata → Option String → Result Metadata
  answer_metadata kind source key cause owner = create_metadata N (record {
    kind = kind;
    occurred_at = cause.occurred_at;
    source = source;
    source_key = key;
    correlation_id = cause.correlation_id;
    causation_id = some cause.event_id;
    owner_id = owner;
  })

  abbrev pub build_routed :
      Router → String → SignalEvent N → Plan → Result (Option (List (OrderIntent N)))
  build_routed r owner e p = do
    m ← answer_metadata "order_intent" "signal_order_router" e.meta.event_id e.meta (some owner)
    check_order_intent N (routed_intent r e p m)
    ok (some (routed_intent r e p m ∷ []))

  abbrev pub build_planned :
      Router → String → SignalEvent N → Option Plan → Result (Option (List (OrderIntent N)))
  build_planned r owner e none = ok none
  build_planned r owner e (some p) = build_routed r owner e p

  -- `on_signal`
  unfoldable pub on_signal :
      DomainEvent N → Router → Ledger N → Result (Option (List (OrderIntent N)))
  on_signal (signal e) r l = do
    owner ← owner_of N (signal e)
    plan ← plan_signal r owner e l
    build_planned r owner e plan
  on_signal e r l = raised (type_error "SignalOrderRouter.on_signal requires SignalEvent")

  abbrev pub simple_decision : OrderIntent N → Bool → String → Metadata → RiskDecision N
  simple_decision o approved reason m = record {
    meta = m;
    order_id = o.order_id;
    approved = approved;
    approved_quantity = if approved then o.quantity else pos 0;
    reason = reason;
    estimated_risk = none;
    reference_price = none;
    phase = "initial";
  }

  abbrev pub decide_simply : String → OrderIntent N → Bool → String → Result (List (RiskDecision N))
  decide_simply source o approved reason = do
    m ← answer_metadata "risk_decision" source o.order_id o.meta o.meta.owner_id
    check_risk_decision N (simple_decision o approved reason m)
    ok (simple_decision o approved reason m ∷ [])

  -- `ResearchRiskGate.on_order`
  unfoldable pub research_on_order : DomainEvent N → Result (List (RiskDecision N))
  research_on_order (order_intent o) =
      decide_simply "research_risk" o true "historical_research_approved"
  research_on_order e = raised (type_error "ResearchRiskGate.on_order requires OrderIntent")

  -- `DisabledRiskGate.on_order`
  unfoldable pub disabled_on_order : DomainEvent N → Result (List (RiskDecision N))
  disabled_on_order (order_intent o) =
      decide_simply "disabled_risk" o o.reduce_only
        (if o.reduce_only then "risk_reducing_approved" else "risk_gate_not_configured")
  disabled_on_order e = raised (type_error "DisabledRiskGate.on_order requires OrderIntent")
