-- ===== src/Execution/OrderTests.antt =====
-- The router and the liquidator at concrete events.
use codex_tw_quant_trading_s.Base.{
  true, false, none, some, List, [], ◌∷◌, ◌≡◌, refl, ok, Sorted, join,
}
use codex_tw_quant_trading_s.Base.Assoc.{get_item}
use codex_tw_quant_trading_s.Base.Int.{pos}
use codex_tw_quant_trading_s.Samples.{whole, at_time}
use codex_tw_quant_trading_s.Events.{
  Metadata, signal, SignalEvent, SessionEvent, OrderIntent, FillEvent, fill, create_metadata,
  deterministic_event_id, check_metadata, check_order_intent,
}
use codex_tw_quant_trading_s.Execution.Positions.{
  PositionKey, PositionState, flat_state, Ledger, same_position,
}
use codex_tw_quant_trading_s.Execution.Ledger.{owner_of, on_fill, is_seen}
use codex_tw_quant_trading_s.Execution.Router.{Router, on_signal, plan_exit, signal_key}
use codex_tw_quant_trading_s.Execution.Routing.{IsFillOf, exit_closes}
use codex_tw_quant_trading_s.Execution.Replay.{quantity_at}
use codex_tw_quant_trading_s.Execution.Once.{Call, liquidated, liquidated-distinct}

abbrev meta_of_owner : Metadata
meta_of_owner = record {
  event_id = "E1";
  occurred_at = at_time 5;
  source = "strategy";
  correlation_id = none;
  causation_id = none;
  owner_id = some "owner";
}

abbrev long_key : PositionKey
long_key = record {
  owner_id = "owner";
  strategy_id = "orb";
  strategy_version = pos 1;
  symbol = "TMF";
  contract = "TMFR1";
}

abbrev long_state : PositionState whole
long_state = record (flat_state whole long_key) { quantity = pos 2; average_price = pos 100 }

abbrev long_ledger : Ledger whole
long_ledger = record {
  multiplier = pos 10;
  positions = (long_key, long_state) ∷ [];
  seen_fills = [];
  trades = [];
}

abbrev exit_signal : SignalEvent whole
exit_signal = record {
  meta = meta_of_owner;
  strategy_id = "orb";
  strategy_version = pos 1;
  symbol = "TMF";
  contract = "TMFR1";
  direction = "long";
  action = "exit";
  reference_price = pos 23000;
  reason = "target";
  stop_loss_price = none;
  trading_date = none;
}

abbrev router_1 : Router whole
router_1 = record { default_quantity = pos 1; execution_timing = "next_bar_open" }

abbrev exit_intent : OrderIntent whole
exit_intent = record {
  meta = record {
    event_id = "order_intent|2026-01-02|signal_order_router|E1";
    occurred_at = at_time 5;
    source = "signal_order_router";
    correlation_id = some "order_intent|2026-01-02|signal_order_router|E1";
    causation_id = some "E1";
    owner_id = some "owner";
  };
  order_id = "order_intent|2026-01-02|signal_order_router|E1";
  strategy_id = "orb";
  strategy_version = pos 1;
  symbol = "TMF";
  contract = "TMFR1";
  side = "sell";
  quantity = pos 2;
  order_type = "market";
  purpose = "exit";
  execution_timing = "next_bar_open";
  reduce_only = true;
  reason = "target";
  reference_price = pos 23000;
  stop_loss_price = none;
  stop_loss_pct = none;
  take_profit_pct = none;
  strategy_snapshot = none;
  trading_date = none;
  client_order_id = none;
  order_source = "manual";
  runtime_id = none;
  decision_id = none;
}

routed_exit :
    on_signal whole (signal exit_signal) router_1 long_ledger ≡ ok (some (exit_intent ∷ []))
unfolding on_signal plan_exit owner_of create_metadata deterministic_event_id check_metadata
    check_order_intent get_item join
routed_exit = refl

owned_exit : owner_of whole (signal exit_signal) ≡ ok "owner"
unfolding owner_of
owned_exit = refl

abbrev exit_fill : FillEvent whole
exit_fill = record {
  meta = record meta_of_owner { event_id = "E9"; source = "broker" };
  fill_id = "F9";
  order_id = exit_intent.order_id;
  strategy_id = "orb";
  strategy_version = pos 1;
  symbol = "TMF";
  contract = "TMFR1";
  side = "sell";
  quantity = pos 2;
  price = pos 23050;
  commission = pos 10;
  tax = pos 0;
  slippage = pos 0;
  purpose = "exit";
  reason = "target";
  trading_date = none;
  order_source = "manual";
  runtime_id = none;
  decision_id = none;
  stop_loss_price = none;
  take_profit_price = none;
  strategy_snapshot = none;
}

exit_fill-IsFillOf : IsFillOf whole exit_intent exit_fill
exit_fill-IsFillOf = record {
  same_owner = refl;
  same_strategy = refl;
  same_version = refl;
  same_symbol = refl;
  same_contract = refl;
  same_side = refl;
  same_quantity = refl;
}

exit_closes_example :
    (exit_intent.reduce_only ≡ true)
    × (quantity_at whole
          (signal_key whole "owner" exit_signal)
          (on_fill whole (fill exit_fill) long_ledger).0
        ≡ pos 0)
unfolding is_seen
exit_closes_example =
    exit_closes whole exit_signal router_1 long_ledger "owner" [] [] exit_intent exit_fill refl
      owned_exit routed_exit exit_fill-IsFillOf refl

abbrev closing_session : SessionEvent
closing_session = record {
  meta = record meta_of_owner { owner_id = none };
  symbol = "TMF";
  contract = "TMFR1";
  session = "day";
  trading_date = pos 3;
  action = "closing";
}

abbrev closing_calls : List (Call whole)
closing_calls =
    Call.at_session closing_session (λ _. false) long_ledger
    ∷ Call.at_session closing_session (λ _. false) long_ledger
    ∷ []

liquidated-distinct_example :
    Sorted (λ j k. same_position k j ≡ false) (liquidated whole closing_calls [])
liquidated-distinct_example = liquidated-distinct whole closing_calls []
