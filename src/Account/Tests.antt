-- ===== src/Account/Tests.antt =====
-- The risk gate of accounts at concrete orders and trades.
use codex_tw_quant_trading_s.Base.{
  String, Bool, true, false, ◌≢◌, Option, none, some, List, [], ◌∷◌, ◌≡◌, refl, ok, All, concat,
  join,
}
use codex_tw_quant_trading_s.Base.Int.{ℤ, pos, negsuc, neg, leb_ℤ, ◌+ℤ◌, ◌*ℤ◌}
use codex_tw_quant_trading_s.Base.Assoc.{get_item, set_item}
use codex_tw_quant_trading_s.Samples.{whole, at_time}
use codex_tw_quant_trading_s.Events.{
  Metadata, OrderIntent, order_intent, RiskDecision, create_metadata, deterministic_event_id,
  check_metadata, check_risk_decision,
}
use codex_tw_quant_trading_s.Execution.Positions.{PositionState, flat_state, Ledger, RealizedTrade}
use codex_tw_quant_trading_s.Account.Access.{TradingAccess, active, paper, resolve}
use codex_tw_quant_trading_s.Account.Costs.{CostConfig, side_cost}
use codex_tw_quant_trading_s.Account.Controls.{reserve_entry, restore_reservation, snapshot}
use codex_tw_quant_trading_s.Execution.Ledger.{open_positions}
use codex_tw_quant_trading_s.Account.State.{
  AccountRiskConfig, Gate, new_gate, new_state, risk_owner, state_of, with_state, enter_day, on_day,
  reset_day, open_contracts, is_date,
}
use codex_tw_quant_trading_s.Account.Entries.{
  on_order, take_order, judge_entry, estimated_risk, decide, judge_exit, reducing_quantity,
}
use codex_tw_quant_trading_s.Account.Trades.{take_trade, scored}
use codex_tw_quant_trading_s.Account.Limits.{IsWithinLimits}
use codex_tw_quant_trading_s.Account.Tracked.{Call, after, after_all}
use codex_tw_quant_trading_s.Account.Approvals.{entry-IsWithinLimits}
use codex_tw_quant_trading_s.Account.Halt.{scored_gate, manual_halt_refuses, loss_ends_manual_halt}
use codex_tw_quant_trading_s.Account.Reducing.{IsSafeReduction, reducing_approval}

abbrev meta_1 : Metadata
meta_1 = record {
  event_id = "E1";
  occurred_at = at_time 5;
  source = "strategy";
  correlation_id = none;
  causation_id = none;
  owner_id = some "owner";
}

abbrev intent_1 : OrderIntent whole
intent_1 = record {
  meta = meta_1;
  order_id = "O1";
  strategy_id = "orb";
  strategy_version = pos 1;
  symbol = "TMF";
  contract = "TMFR1";
  side = "buy";
  quantity = pos 1;
  order_type = "market";
  purpose = "entry";
  execution_timing = "next_bar_open";
  reduce_only = false;
  reason = "signal";
  reference_price = pos 23000;
  stop_loss_price = some (pos 22900);
  stop_loss_pct = none;
  take_profit_pct = none;
  strategy_snapshot = none;
  trading_date = some (pos 3);
  client_order_id = none;
  order_source = "manual";
  runtime_id = none;
  decision_id = none;
}

abbrev access_1 : List (String × TradingAccess)
access_1 =
    (
      "owner",
      record {
        owner_id = "owner";
        status = active;
        trading_mode = paper;
        permissions = "orders.paper" ∷ [];
      },
    )
    ∷ []

abbrev limits_1 : AccountRiskConfig whole
limits_1 = record {
  max_position_contracts = pos 2;
  max_risk_per_trade = pos 5000;
  max_daily_loss = pos 10000;
  max_trades_per_day = pos 10;
  max_consecutive_losses = pos 3;
  cooldown_minutes = pos 30;
}

abbrev costs_1 : CostConfig whole
costs_1 = record {
  multiplier = pos 10;
  commission_per_side = pos 10;
  tax_rate = pos 0;
  slippage_points = pos 1;
}

abbrev no_ledger : Ledger whole
no_ledger = record { multiplier = pos 10; positions = []; seen_fills = []; trades = [] }

abbrev earlier_calls : List (Call whole)
earlier_calls =
    Call.look "owner" no_ledger ∷ Call.restore (record intent_1 { order_id = "O0" }) (pos 1) ∷ []

abbrev decision_1 : Bool → ℤ → String → Option ℤ → RiskDecision whole
decision_1 approved quantity reason risk = record {
  meta = record {
    event_id = concat "risk_decision|2026-01-02|account_risk|E1:" reason;
    occurred_at = at_time 5;
    source = "account_risk";
    correlation_id = some (concat "risk_decision|2026-01-02|account_risk|E1:" reason);
    causation_id = some "E1";
    owner_id = some "owner";
  };
  order_id = "O1";
  approved = approved;
  approved_quantity = quantity;
  reason = reason;
  estimated_risk = risk;
  reference_price = some (pos 23000);
  phase = "initial";
}

abbrev approved_1 : List (RiskDecision whole)
approved_1 = decision_1 true (pos 1) "approved" (some (pos 1040)) ∷ []

answered_1 :
    (on_order whole
      (order_intent intent_1)
      no_ledger
      (after_all whole earlier_calls (new_gate whole access_1 limits_1 costs_1))).1
    ≡ ok approved_1
unfolding on_order take_order judge_entry reserve_entry with_state state_of enter_day on_day
    reset_day open_contracts open_positions estimated_risk side_cost decide create_metadata
    deterministic_event_id check_metadata check_risk_decision risk_owner after_all after
    restore_reservation snapshot get_item set_item ◌+ℤ◌ ◌*ℤ◌ resolve join
answered_1 = refl

owned_1 : risk_owner whole (order_intent intent_1) ≡ ok "owner"
unfolding risk_owner
owned_1 = refl

entry-IsWithinLimits_example :
    All
      (λ d.
        d.approved ≡ true
        → IsWithinLimits whole "owner" no_ledger
            (on_order whole
              (order_intent intent_1)
              no_ledger
              (after_all whole earlier_calls (new_gate whole access_1 limits_1 costs_1))).0)
      approved_1
entry-IsWithinLimits_example =
    entry-IsWithinLimits whole access_1 limits_1 costs_1 earlier_calls "owner" intent_1 no_ledger
      approved_1 refl owned_1 answered_1

-- The owner's kill switch is on by hand.
abbrev halted_gate : Gate whole
halted_gate = record (new_gate whole access_1 limits_1 costs_1) {
  states =
      (
        "owner",
        record (new_state whole) {
          trading_date = some (pos 2);
          kill_switch_active = true;
          kill_switch_reason = some "manual";
          manual_kill_switch = true;
        },
      )
      ∷ [];
}

abbrev refused_1 : List (RiskDecision whole)
refused_1 = decision_1 false (pos 0) "kill_switch_active" none ∷ []

answered_2 : (on_order whole (order_intent intent_1) no_ledger halted_gate).1 ≡ ok refused_1
unfolding on_order take_order judge_entry with_state state_of enter_day on_day reset_day decide
    create_metadata deterministic_event_id check_metadata check_risk_decision risk_owner get_item
    set_item resolve join
answered_2 = refl

halted_state :
    ((state_of whole "owner" halted_gate).kill_switch_active ≡ true)
    × ((state_of whole "owner" halted_gate).manual_kill_switch ≡ true)
unfolding state_of get_item
halted_state = (refl, refl)

manual_halt_refuses_example : All (λ d. d.approved ≢ true) refused_1
manual_halt_refuses_example =
    manual_halt_refuses whole "owner" intent_1 no_ledger halted_gate refused_1 refl owned_1
      halted_state.0 halted_state.1 answered_2

abbrev losing_trade : RealizedTrade whole
losing_trade = record {
  owner_id = "owner";
  strategy_id = "orb";
  strategy_version = pos 1;
  symbol = "TMF";
  contract = "TMFR1";
  direction = "long";
  quantity = pos 1;
  entry_time = at_time 5;
  exit_time = at_time 9;
  entry_price = pos 23000;
  exit_price = pos 21000;
  gross_pnl = negsuc 19999;
  commission = pos 20;
  tax = pos 0;
  total_cost = pos 20;
  net_pnl = negsuc 20019;
  exit_reason = "stop_loss";
  exit_order_id = "O2";
  trading_date = some (pos 2);
}

losing_state :
    (leb_ℤ
        (state_of whole "owner" (scored_gate whole losing_trade halted_gate)).realized_pnl
        (neg (scored_gate whole losing_trade halted_gate).config.max_daily_loss)
      ≡ true)
    × (is_date whole
          (state_of whole "owner" (scored_gate whole losing_trade halted_gate)).trading_date
          (pos 3)
        ≡ false)
unfolding state_of with_state enter_day on_day get_item set_item scored ◌+ℤ◌
losing_state = (refl, refl)

loss_ends_manual_halt_example :
    (state_of whole "owner" (
      enter_day whole "owner"
        (pos 3)
        (take_trade whole losing_trade halted_gate).0)).kill_switch_active
    ≡ false
loss_ends_manual_halt_example =
    loss_ends_manual_halt whole losing_trade halted_gate (pos 3) refl refl losing_state.0
      losing_state.1

abbrev long_position : PositionState whole
long_position =
    record (flat_state whole (record {
      owner_id = "owner";
      strategy_id = "orb";
      strategy_version = pos 1;
      symbol = "TMF";
      contract = "TMFR1";
    })) { quantity = pos 3 }

abbrev exit_1 : OrderIntent whole
exit_1 = record intent_1 { side = "sell"; quantity = pos 5; reduce_only = true }

abbrev long_ledger : Ledger whole
long_ledger = record no_ledger { positions = (long_position.key, long_position) ∷ [] }

abbrev reduced_1 : List (RiskDecision whole)
reduced_1 = decision_1 true (pos 3) "risk_reducing_approved" none ∷ []

answered_3 :
    (on_order whole (order_intent exit_1) long_ledger (new_gate whole access_1 limits_1 costs_1)).1
    ≡ ok reduced_1
unfolding on_order take_order judge_exit reducing_quantity open_positions decide create_metadata
    deterministic_event_id check_metadata check_risk_decision risk_owner join
answered_3 = refl

reducing_approval_example : All (IsSafeReduction whole "owner" exit_1 long_ledger) reduced_1
unfolding risk_owner
reducing_approval_example =
    reducing_approval whole "owner" exit_1 long_ledger (new_gate whole access_1 limits_1 costs_1)
      reduced_1 refl refl answered_3
