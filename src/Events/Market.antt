-- ===== src/Events/Market.antt =====
-- tw_quant/events/models.py: `MarketEvent`, `BarClosedEvent`, `SignalEvent` and `SessionEvent`.
use codex_tw_quant_trading_s.Base.{
  String, Bool, ◌||◌, Option, List, [], ◌∷◌, any, Error, Result, checks, value_error, is_empty,
}
use codex_tw_quant_trading_s.Base.Int.{ℤ, pos, ltb_ℤ}
use codex_tw_quant_trading_s.Python.{Python, greater, lesser}
use codex_tw_quant_trading_s.Events.Meta.{Metadata}
use codex_tw_quant_trading_s.Events.Orders.{zero_float, given_not_positive}

-- `SessionEvent`
pub record SessionEvent : Type 0 where
  pub meta : Metadata
  pub symbol : String
  pub contract : String
  pub session : String
  pub trading_date : ℤ
  pub action : String

unfoldable pub check_session : SessionEvent → Result (Unit {0})
check_session e = checks (
    (is_empty e.symbol || is_empty e.contract, value_error "symbol and contract are required") ∷ [])

module _ (N : Python) where
  -- `MarketEvent`
  pub record MarketEvent : Type 0 where
    pub meta : Metadata
    pub symbol : String
    pub contract : String
    pub price : N.float
    pub volume : ℤ

  unfoldable pub check_market : MarketEvent → Result (Unit {0})
  check_market e = checks (
      (is_empty e.symbol || is_empty e.contract, value_error "symbol and contract are required")
      ∷ (N.is_le e.price (zero_float N), value_error "price must be positive")
      ∷ (ltb_ℤ e.volume (pos 0), value_error "volume cannot be negative")
      ∷ [])

  -- `BarClosedEvent`
  pub record BarClosedEvent : Type 0 where
    pub meta : Metadata
    pub symbol : String
    pub contract : String
    pub timeframe : String
    pub open_price : N.float
    pub high : N.float
    pub low : N.float
    pub close : N.float
    pub volume : ℤ
    pub session : String
    pub trading_date : ℤ

  abbrev pub bar_checks : BarClosedEvent → List (Bool × Error)
  bar_checks b =
      (
        any is_empty (b.symbol ∷ b.contract ∷ b.timeframe ∷ []),
        value_error "symbol, contract, and timeframe are required",
      )
      ∷ (
        N.is_le (lesser N (lesser N (lesser N b.open_price b.high) b.low) b.close) (zero_float N),
        value_error "OHLC prices must be positive",
      )
      ∷ (
        N.is_lt b.high (greater N b.open_price b.close)
            || N.is_lt (lesser N b.open_price b.close) b.low,
        value_error "invalid OHLC range",
      )
      ∷ (ltb_ℤ b.volume (pos 0), value_error "volume cannot be negative")
      ∷ []

  unfoldable pub check_bar : BarClosedEvent → Result (Unit {0})
  check_bar b = checks (bar_checks b)

  -- `SignalEvent`
  pub record SignalEvent : Type 0 where
    pub meta : Metadata
    pub strategy_id : String
    pub strategy_version : ℤ
    pub symbol : String
    pub contract : String
    pub direction : String
    pub action : String
    pub reference_price : N.float
    pub reason : String
    pub stop_loss_price : Option N.float
    pub trading_date : Option ℤ

  unfoldable pub check_signal : SignalEvent → Result (Unit {0})
  check_signal e = checks (
      (
        any is_empty (e.strategy_id ∷ e.symbol ∷ e.contract ∷ []),
        value_error "strategy_id, symbol, and contract are required",
      )
      ∷ (
        ltb_ℤ e.strategy_version (pos 1),
        value_error "strategy_id and positive strategy_version are required",
      )
      ∷ (N.is_le e.reference_price (zero_float N), value_error "reference_price must be positive")
      ∷ (
        given_not_positive N e.stop_loss_price,
        value_error "stop_loss_price must be positive when provided",
      )
      ∷ [])
