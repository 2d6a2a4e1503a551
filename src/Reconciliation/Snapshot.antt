-- ===== src/Reconciliation/Snapshot.antt =====
-- tw_quant/broker/reconciliation.py: the snapshots that a broker adapter returns, with the checks
-- of their constructors. Prices are those of `Order.Models`.
use codex_tw_quant_trading_s.Base.{
  String, not, ◌||◌, Option, List, [], ◌∷◌, Result, checks, value_error, is_empty, str_eq, any,
}
use codex_tw_quant_trading_s.Base.Int.{ℤ, pos, ltb_ℤ}
use codex_tw_quant_trading_s.Order.{Datetime, Status, Price, at_most_zero}

-- `BrokerOrderSnapshot`
pub record OrderSnapshot : Type 0 where
  pub broker_order_id : Option String
  pub status : Status
  pub filled_quantity : ℤ

unfoldable pub check_order_snapshot : OrderSnapshot → Result (Unit {0})
check_order_snapshot o =
    checks (
      (ltb_ℤ o.filled_quantity (pos 0), value_error "order filled_quantity cannot be negative")
      ∷ [])

-- `BrokerFillSnapshot`
pub record FillSnapshot : Type 0 where
  pub fill_id : String
  pub broker_order_id : String
  pub contract : String
  pub side : String
  pub quantity : ℤ
  pub price : Price
  pub occurred_at : Datetime

unfoldable pub check_fill_snapshot : FillSnapshot → Result (Unit {0})
check_fill_snapshot f = checks (
    (
      is_empty f.fill_id || is_empty f.broker_order_id || is_empty f.contract,
      value_error "fill identity and contract are required",
    )
    ∷ (not (any (str_eq f.side) ("buy" ∷ "sell" ∷ [])), value_error "fill side must be buy or sell")
    ∷ (
      ltb_ℤ f.quantity (pos 1) || at_most_zero f.price,
      value_error "fill quantity and price must be positive",
    )
    ∷ (not f.occurred_at.is_aware, value_error "fill occurred_at must be timezone-aware")
    ∷ [])

-- `BrokerPositionSnapshot`
pub record PositionSnapshot : Type 0 where
  pub contract : String
  pub quantity : ℤ

-- `BrokerReconciliationSnapshot`
pub record Snapshot : Type 0 where
  pub broker_name : String
  pub account_id : String
  pub captured_at : Datetime
  pub orders : List OrderSnapshot
  pub fills : List FillSnapshot
  pub positions : List PositionSnapshot

unfoldable pub check_snapshot : Snapshot → Result (Unit {0})
check_snapshot s = checks (
    (
      is_empty s.broker_name || is_empty s.account_id,
      value_error "snapshot broker and account are required",
    )
    ∷ (not s.captured_at.is_aware, value_error "snapshot captured_at must be timezone-aware")
    ∷ [])

unfoldable pub check_position_snapshot : PositionSnapshot → Result (Unit {0})
check_position_snapshot p =
    checks ((is_empty p.contract, value_error "position contract is required") ∷ [])
