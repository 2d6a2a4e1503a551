-- ===== src/Events/Orders.antt =====
-- tw_quant/events/models.py: `OrderIntent`, `OrderStatusEvent` and `RiskDecision`. A date is the
-- number of its day.
use codex_tw_quant_trading_s.Base.{
  String, Bool, false, not, ◌&&◌, ◌||◌, Option, none, some, List, [], ◌∷◌, any, Error, Result,
  checks, value_error, is_empty, is_blank, str_length, has_text, str_eq, ltb,
}
use codex_tw_quant_trading_s.Base.Int.{ℤ, pos, leb_ℤ, ltb_ℤ, eqb_ℤ}
use codex_tw_quant_trading_s.Python.{Python}
use codex_tw_quant_trading_s.Events.Meta.{Metadata}

-- `OrderStatusEvent`
pub record OrderStatusEvent : Type 0 where
  pub meta : Metadata
  pub order_id : String
  pub status : String
  pub reason : String

unfoldable pub check_order_status : OrderStatusEvent → Result (Unit {0})
check_order_status e = checks (
    (is_empty e.order_id || is_empty e.reason, value_error "order_id and reason are required") ∷ [])

module _ (N : Python) where
  abbrev pub zero_float : N.float
  zero_float = N.of_int (pos 0)

  -- `value is not None and value <= 0`
  abbrev pub given_not_positive : Option N.float → Bool
  given_not_positive none = false
  given_not_positive (some x) = N.is_le x zero_float

  -- `value is not None and not 0 < value < 1`
  abbrev pub given_not_share : Option N.float → Bool
  given_not_share none = false
  given_not_share (some x) = not (N.is_lt zero_float x && N.is_lt x (N.of_int (pos 1)))

  abbrev pub given_negative : Option N.float → Bool
  given_negative none = false
  given_negative (some x) = N.is_lt x zero_float

  -- `client_order_id is not None and (...)`
  abbrev pub bad_client_id : Option String → Bool
  bad_client_id none = false
  bad_client_id (some k) = is_blank k || ltb 128 (str_length k)

  -- `OrderIntent`
  pub record OrderIntent : Type 0 where
    pub meta : Metadata
    pub order_id : String
    pub strategy_id : String
    pub strategy_version : ℤ
    pub symbol : String
    pub contract : String
    pub side : String
    pub quantity : ℤ
    pub order_type : String
    pub purpose : String
    pub execution_timing : String
    pub reduce_only : Bool
    pub reason : String
    pub reference_price : N.float
    pub stop_loss_price : Option N.float
    pub stop_loss_pct : Option N.float
    pub take_profit_pct : Option N.float
    pub strategy_snapshot : Option N.object
    pub trading_date : Option ℤ
    pub client_order_id : Option String
    pub order_source : String
    pub runtime_id : Option String
    pub decision_id : Option String

  abbrev pub order_intent_checks : OrderIntent → List (Bool × Error)
  order_intent_checks o =
      (
        any is_empty (o.order_id ∷ o.strategy_id ∷ o.symbol ∷ o.contract ∷ []),
        value_error "order_id, strategy_id, symbol, and contract are required",
      )
      ∷ (
        ltb_ℤ o.strategy_version (pos 1) || leb_ℤ o.quantity (pos 0),
        value_error "strategy_version and quantity must be positive",
      )
      ∷ (is_empty o.reason, value_error "reason is required")
      ∷ (N.is_lt o.reference_price zero_float, value_error "reference_price cannot be negative")
      ∷ (
        given_not_positive o.stop_loss_price,
        value_error "stop_loss_price must be positive when provided",
      )
      ∷ (
        given_not_share o.stop_loss_pct,
        value_error "stop_loss_pct must be between 0 and 1 when provided",
      )
      ∷ (
        given_not_share o.take_profit_pct,
        value_error "take_profit_pct must be between 0 and 1 when provided",
      )
      ∷ (
        str_eq o.execution_timing "bar_trigger"
            && not (o.reduce_only && str_eq o.order_source "strategy_auto"),
        value_error "bar_trigger execution is reserved for strategy_auto reduce-only orders",
      )
      ∷ (
        bad_client_id o.client_order_id,
        value_error "client_order_id must contain 1 to 128 characters",
      )
      ∷ (
        str_eq o.order_source "strategy_auto"
            && not (has_text o.runtime_id && has_text o.decision_id),
        value_error "strategy_auto orders require runtime_id and decision_id",
      )
      ∷ []

  unfoldable pub check_order_intent : OrderIntent → Result (Unit {0})
  check_order_intent o = checks (order_intent_checks o)

  -- `RiskDecision`
  pub record RiskDecision : Type 0 where
    pub meta : Metadata
    pub order_id : String
    pub approved : Bool
    pub approved_quantity : ℤ
    pub reason : String
    pub estimated_risk : Option N.float
    pub reference_price : Option N.float
    pub phase : String

  abbrev pub risk_decision_checks : RiskDecision → List (Bool × Error)
  risk_decision_checks d =
      (is_empty d.order_id || is_empty d.reason, value_error "order_id and reason are required")
      ∷ (ltb_ℤ d.approved_quantity (pos 0), value_error "approved_quantity cannot be negative")
      ∷ (
        d.approved && eqb_ℤ d.approved_quantity (pos 0),
        value_error "approved decisions require a positive quantity",
      )
      ∷ (
        not d.approved && not (eqb_ℤ d.approved_quantity (pos 0)),
        value_error "rejected decisions must have zero quantity",
      )
      ∷ (given_negative d.estimated_risk, value_error "estimated_risk cannot be negative")
      ∷ (
        given_not_positive d.reference_price,
        value_error "reference_price must be positive when provided",
      )
      ∷ []

  unfoldable pub check_risk_decision : RiskDecision → Result (Unit {0})
  check_risk_decision d = checks (risk_decision_checks d)
