-- ===== src/Account/Costs.antt =====
-- tw_quant/futures_costs.py: `FuturesCostConfig`.
use codex_tw_quant_trading_s.Base.{
  ◌||◌, [], ◌∷◌, Result, ok, checks, raise_if, value_error, ◌>>◌, ◌>>=◌,
}
use codex_tw_quant_trading_s.Base.Int.{ℤ, pos, leb_ℤ}
use codex_tw_quant_trading_s.Python.{Python}
use codex_tw_quant_trading_s.Events.{zero_float}

module _ (N : Python) where
  pub record CostConfig : Type 0 where
    pub multiplier : N.float
    pub commission_per_side : N.float
    pub tax_rate : N.float
    pub slippage_points : N.float

  -- `FuturesCostConfig.__post_init__`
  unfoldable pub check_costs : CostConfig → Result (Unit {0})
  check_costs c = checks (
      (N.is_le c.multiplier (zero_float N), value_error "multiplier must be positive")
      ∷ (
        N.is_lt c.commission_per_side (zero_float N),
        value_error "commission_per_side cannot be negative",
      )
      ∷ (N.is_lt c.tax_rate (zero_float N), value_error "tax_rate cannot be negative")
      ∷ (N.is_lt c.slippage_points (zero_float N), value_error "slippage_points cannot be negative")
      ∷ [])

  -- `side_cost`: the commission, and the tax as an integer.
  unfoldable pub side_cost : CostConfig → N.float → ℤ → Result (N.float × N.float)
  side_cost c price contracts = do
    raise_if (N.is_le price (zero_float N) || leb_ℤ contracts (pos 0))
        (value_error "price and contracts must be positive")
    tax ← N.rounded (N.mul (N.mul (N.mul price c.multiplier) (N.of_int contracts)) c.tax_rate)
    ok (N.mul c.commission_per_side (N.of_int contracts), N.of_int tax)
