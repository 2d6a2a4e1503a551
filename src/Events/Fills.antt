-- ===== src/Events/Fills.antt =====
-- tw_quant/events/models.py: `FillEvent` and `PositionEvent`.
use codex_tw_quant_trading_s.Base.{
  String, Bool, not, ◌&&◌, ◌||◌, Option, List, [], ◌∷◌, any, Error, Result, checks, value_error,
  is_empty,
}
use codex_tw_quant_trading_s.Base.Int.{ℤ, pos, leb_ℤ, ltb_ℤ, eqb_ℤ}
use codex_tw_quant_trading_s.Python.{Python, lesser}
use codex_tw_quant_trading_s.Events.Meta.{Metadata}
use codex_tw_quant_trading_s.Events.Orders.{zero_float, given_not_positive}

module _ (N : Python) where
  -- `FillEvent`
  pub record FillEvent : Type 0 where
    pub meta : Metadata
    pub fill_id : String
    pub order_id : String
    pub strategy_id : String
    pub strategy_version : ℤ
    pub symbol : String
    pub contract : String
    pub side : String
    pub quantity : ℤ
    pub price : N.float
    pub commission : N.float
    pub tax : N.float
    pub slippage : N.float
    pub purpose : String
    pub reason : String
    pub trading_date : Option ℤ
    pub order_source : String
    pub runtime_id : Option String
    pub decision_id : Option String
    pub stop_loss_price : Option N.float
    pub take_profit_price : Option N.float
    pub strategy_snapshot : Option N.object

  abbrev pub fill_checks : FillEvent → List (Bool × Error)
  fill_checks f =
      (
        any is_empty (f.fill_id ∷ f.order_id ∷ f.strategy_id ∷ []),
        value_error "fill_id, order_id, and strategy_id are required",
      )
      ∷ (ltb_ℤ f.strategy_version (pos 1), value_error "strategy_version must be positive")
      ∷ (
        leb_ℤ f.quantity (pos 0) || N.is_le f.price (zero_float N),
        value_error "quantity and price must be positive",
      )
      ∷ (
        N.is_lt (lesser N (lesser N f.commission f.tax) f.slippage) (zero_float N),
        value_error "fill costs cannot be negative",
      )
      ∷ (
        given_not_positive N f.stop_loss_price,
        value_error "stop_loss_price must be positive when provided",
      )
      ∷ (
        given_not_positive N f.take_profit_price,
        value_error "take_profit_price must be positive when provided",
      )
      ∷ []

  unfoldable pub check_fill : FillEvent → Result (Unit {0})
  check_fill f = checks (fill_checks f)

  -- `PositionEvent`
  pub record PositionEvent : Type 0 where
    pub meta : Metadata
    pub strategy_id : String
    pub strategy_version : ℤ
    pub symbol : String
    pub contract : String
    pub quantity : ℤ
    pub average_price : N.float
    pub realized_pnl : N.float
    pub unrealized_pnl : N.float
    pub total_cost : N.float
    pub order_source : String
    pub runtime_id : Option String
    pub decision_id : Option String
    pub entry_fill_price : Option N.float
    pub stop_loss_price : Option N.float
    pub take_profit_price : Option N.float
    pub strategy_snapshot : Option N.object

  -- `x != 0`
  abbrev pub is_nonzero : N.float → Bool
  is_nonzero x = not (N.is_le x (zero_float N) && N.is_le (zero_float N) x)

  abbrev pub position_checks : PositionEvent → List (Bool × Error)
  position_checks p =
      (
        any is_empty (p.strategy_id ∷ p.symbol ∷ p.contract ∷ []),
        value_error "strategy_id, symbol, and contract are required",
      )
      ∷ (ltb_ℤ p.strategy_version (pos 1), value_error "strategy_version must be positive")
      ∷ (
        not (eqb_ℤ p.quantity (pos 0)) && N.is_le p.average_price (zero_float N),
        value_error "open positions require a positive average_price",
      )
      ∷ (
        eqb_ℤ p.quantity (pos 0) && is_nonzero p.average_price,
        value_error "flat positions must have zero average_price",
      )
      ∷ (N.is_lt p.total_cost (zero_float N), value_error "total_cost cannot be negative")
      ∷ (
        given_not_positive N p.entry_fill_price,
        value_error "entry_fill_price must be positive when provided",
      )
      ∷ (
        given_not_positive N p.stop_loss_price,
        value_error "stop_loss_price must be positive when provided",
      )
      ∷ (
        given_not_positive N p.take_profit_price,
        value_error "take_profit_price must be positive when provided",
      )
      ∷ []

  unfoldable pub check_position : PositionEvent → Result (Unit {0})
  check_position p = checks (position_checks p)
