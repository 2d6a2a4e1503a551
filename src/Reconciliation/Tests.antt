-- ===== src/Reconciliation/Tests.antt =====
-- The comparison with the broker at concrete orders and positions.
use codex_tw_quant_trading_s.Base.{◌≡◌, refl, some, [], ◌∷◌}
use codex_tw_quant_trading_s.Base.Int.{pos, ◌+ℤ◌}
use codex_tw_quant_trading_s.Order.{Order, finite, filled, status_eq}
use codex_tw_quant_trading_s.Reconciliation.Snapshot.{Snapshot}
use codex_tw_quant_trading_s.Reconciliation.Compare.{
  issues, identity_issues, broker_scan_issues, broker_order_issues, broker_by_id, local_issues,
  local_order_issues, broker_issues, local_by_broker, fill_issues, fill_scan_issues,
  fill_quantities, deal_issues, position_issues, contract_issues, sorted_keys, local_positions,
  insert_sorted, broker_positions,
}
use codex_tw_quant_trading_s.Reconciliation.Agreement.{Agrees, issues-Agrees}
use codex_tw_quant_trading_s.Base.Dict.{put, lookup}
use codex_tw_quant_trading_s.Reconciliation.Positions.{net_filled, net_held, position_issues-nil}
use codex_tw_quant_trading_s.Samples.{account_1, at_time, order_in}

-- A filled order for two contracts, and the broker's view of it.
abbrev bought : Order
bought = record (order_in filled "c1") {
  filled_quantity = pos 2;
  average_fill_price = some (finite (pos 23001));
}

abbrev truth : Snapshot
truth = record {
  broker_name = "shioaji";
  account_id = "F001";
  captured_at = at_time 20;
  orders = record { broker_order_id = some "B1"; status = filled; filled_quantity = pos 2 } ∷ [];
  fills =
      record {
        fill_id = "f1";
        broker_order_id = "B1";
        contract = "TMFR1";
        side = "buy";
        quantity = pos 2;
        price = finite (pos 23001);
        occurred_at = at_time 12;
      }
      ∷ [];
  positions = record { contract = "TMFR1"; quantity = pos 2 } ∷ [];
}

position_issues-nil_example : net_filled "TMFR1" (bought ∷ []) ≡ net_held "TMFR1" truth.positions
unfolding position_issues contract_issues sorted_keys local_positions put insert_sorted
    broker_positions lookup ◌+ℤ◌
position_issues-nil_example = position_issues-nil (bought ∷ []) truth refl "TMFR1"

issues-Agrees_example : Agrees account_1 (bought ∷ []) truth
unfolding issues identity_issues broker_scan_issues broker_order_issues broker_by_id local_issues
    local_order_issues broker_issues local_by_broker fill_issues fill_scan_issues fill_quantities
    deal_issues position_issues contract_issues sorted_keys local_positions put insert_sorted
    broker_positions lookup ◌+ℤ◌ status_eq
issues-Agrees_example = issues-Agrees account_1 (bought ∷ []) truth refl
