-- ===== src/Execution/Positions.antt =====
-- tw_quant/execution/position_ledger.py: the data of the ledger. Python's `set` of fill ids is a list.
use codex_tw_quant_trading_s.Base.{
  String, Bool, true, ◌&&◌, Option, none, List, ◌↔◌, ◌≡◌, str_eq, str_eq_iff, subst, arith,
}
use codex_tw_quant_trading_s.Base.Assoc.{Key}
use codex_tw_quant_trading_s.Base.Int.{ℤ, pos, eqb_ℤ, eqb_ℤ-eq, eqb_ℤ_refl}
use codex_tw_quant_trading_s.Order.{Datetime}
use codex_tw_quant_trading_s.Python.{Python}
use codex_tw_quant_trading_s.Events.{zero_float}

-- `PositionKey`
pub record PositionKey : Type 0 where
  pub owner_id : String
  pub strategy_id : String
  pub strategy_version : ℤ
  pub symbol : String
  pub contract : String

abbrev pub same_position : PositionKey → PositionKey → Bool
same_position a b =
    str_eq a.owner_id b.owner_id
    && (str_eq a.strategy_id b.strategy_id
        && (eqb_ℤ a.strategy_version b.strategy_version
            && (str_eq a.symbol b.symbol && str_eq a.contract b.contract)))

pub same_position_iff : (a b : PositionKey) → (same_position a b ≡ true) ↔ (a ≡ b)
same_position_iff a b = (
  λ h. ground (
    arith,
    str_eq_iff a.owner_id b.owner_id,
    str_eq_iff a.strategy_id b.strategy_id,
    eqb_ℤ-eq a.strategy_version b.strategy_version,
    str_eq_iff a.symbol b.symbol,
    str_eq_iff a.contract b.contract,
  ),
  λ h.
      subst (λ (c : PositionKey). same_position a c ≡ true) h
        (ground (
          arith,
          str_eq_iff a.owner_id a.owner_id,
          str_eq_iff a.strategy_id a.strategy_id,
          eqb_ℤ_refl a.strategy_version,
          str_eq_iff a.symbol a.symbol,
          str_eq_iff a.contract a.contract,
        )),
)

instance abbrev pub position_key : Key PositionKey
position_key = record { same = same_position; same_iff = same_position_iff }

module _ (N : Python) where
  -- `PositionState`
  pub record PositionState : Type 0 where
    pub key : PositionKey
    pub quantity : ℤ
    pub average_price : N.float
    pub opened_at : Option Datetime
    pub entry_commission : N.float
    pub entry_tax : N.float
    pub realized_pnl : N.float
    pub total_cost : N.float
    pub order_source : String
    pub runtime_id : Option String
    pub decision_id : Option String
    pub entry_fill_price : Option N.float
    pub stop_loss_price : Option N.float
    pub take_profit_price : Option N.float
    pub strategy_snapshot : Option N.object

  -- `PositionState(key)`
  abbrev pub flat_state : PositionKey → PositionState
  flat_state k = record {
    key = k;
    quantity = pos 0;
    average_price = zero_float N;
    opened_at = none;
    entry_commission = zero_float N;
    entry_tax = zero_float N;
    realized_pnl = zero_float N;
    total_cost = zero_float N;
    order_source = "manual";
    runtime_id = none;
    decision_id = none;
    entry_fill_price = none;
    stop_loss_price = none;
    take_profit_price = none;
    strategy_snapshot = none;
  }

  -- `RealizedTrade`
  pub record RealizedTrade : Type 0 where
    pub owner_id : String
    pub strategy_id : String
    pub strategy_version : ℤ
    pub symbol : String
    pub contract : String
    pub direction : String
    pub quantity : ℤ
    pub entry_time : Datetime
    pub exit_time : Datetime
    pub entry_price : N.float
    pub exit_price : N.float
    pub gross_pnl : N.float
    pub commission : N.float
    pub tax : N.float
    pub total_cost : N.float
    pub net_pnl : N.float
    pub exit_reason : String
    pub exit_order_id : String
    pub trading_date : Option ℤ

  -- The state of a `PositionLedger`.
  pub record Ledger : Type 0 where
    pub multiplier : N.float
    pub positions : List (PositionKey × PositionState)
    pub seen_fills : List String
    pub trades : List RealizedTrade
