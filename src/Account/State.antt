-- ===== src/Account/State.antt =====
-- tw_quant/risk/account.py: the data of `AccountRiskGate`, and what its handlers share. Sets are lists,
-- of which only the membership is read; `int` counters that start at 0 and only grow are natural.
use codex_tw_quant_trading_s.Base.{
  String, ℕ, ◌+◌, Bool, false, ◌&&◌, Option, none, some, List, [], ◌∷◌, Result, ok, raised, ◌>>◌,
  checks, raise_if, value_error, is_empty, if◌then◌else◌, str_eq, concat, any, ltb,
}
use codex_tw_quant_trading_s.Base.Assoc.{get_item, set_item}
use codex_tw_quant_trading_s.Base.Int.{ℤ, pos, abs, ◌+ℤ◌, leb_ℤ, ltb_ℤ, eqb_ℤ}
use codex_tw_quant_trading_s.Order.{Datetime}
use codex_tw_quant_trading_s.Python.{Python}
use codex_tw_quant_trading_s.Events.{zero_float, DomainEvent, meta_of, kind_of}
use codex_tw_quant_trading_s.Execution.Positions.{PositionState, Ledger}
use codex_tw_quant_trading_s.Execution.Ledger.{open_positions}
use codex_tw_quant_trading_s.Account.Access.{Registry, string_key}
use codex_tw_quant_trading_s.Account.Costs.{CostConfig}

abbrev pub earlier : Datetime → Datetime → Bool
earlier a b = ltb a.instant b.instant

module _ (N : Python) where
  -- `AccountAccountRiskConfig`
  pub record AccountRiskConfig : Type 0 where
    pub max_position_contracts : ℤ
    pub max_risk_per_trade : N.float
    pub max_daily_loss : N.float
    pub max_trades_per_day : ℤ
    pub max_consecutive_losses : ℤ
    pub cooldown_minutes : ℤ

  unfoldable pub check_risk_config : AccountRiskConfig → Result (Unit {0})
  check_risk_config c = checks (
      (
        leb_ℤ c.max_position_contracts (pos 0),
        value_error "max_position_contracts must be positive",
      )
      ∷ (
        N.is_le c.max_risk_per_trade (zero_float N),
        value_error "max_risk_per_trade must be positive",
      )
      ∷ (N.is_le c.max_daily_loss (zero_float N), value_error "max_daily_loss must be positive")
      ∷ (leb_ℤ c.max_trades_per_day (pos 0), value_error "max_trades_per_day must be positive")
      ∷ (
        leb_ℤ c.max_consecutive_losses (pos 0),
        value_error "max_consecutive_losses must be positive",
      )
      ∷ (ltb_ℤ c.cooldown_minutes (pos 0), value_error "cooldown_minutes cannot be negative")
      ∷ [])

  -- `AccountRiskState`
  pub record RiskState : Type 0 where
    pub trading_date : Option ℤ
    pub realized_pnl : N.float
    pub trades : ℕ
    pub consecutive_losses : ℕ
    pub cooldown_until : Option Datetime
    pub kill_switch_active : Bool
    pub kill_switch_reason : Option String
    pub manual_kill_switch : Bool
    pub reserved_entries : List (String × ℤ)

  -- `AccountRiskState()`
  abbrev pub new_state : RiskState
  new_state = record {
    trading_date = none;
    realized_pnl = zero_float N;
    trades = 0;
    consecutive_losses = 0;
    cooldown_until = none;
    kill_switch_active = false;
    kill_switch_reason = none;
    manual_kill_switch = false;
    reserved_entries = [];
  }

  -- `RiskAuditEntry`
  pub record AuditEntry : Type 0 where
    pub event_id : String
    pub occurred_at : Datetime
    pub owner_id : String
    pub order_id : String
    pub approved : Bool
    pub approved_quantity : ℤ
    pub reason : String
    pub estimated_risk : Option N.float

  -- `RiskControlAuditEntry`
  pub record ControlEntry : Type 0 where
    pub occurred_at : Datetime
    pub owner_id : String
    pub action : String
    pub reason : String

  -- `AccountRiskGate`, without the ledger, which is an argument.
  pub record Gate : Type 0 where
    pub access : Registry
    pub config : AccountRiskConfig
    pub costs : CostConfig N
    pub states : List (String × RiskState)
    pub seen_order_ids : List String
    pub seen_trade_order_ids : List String
    pub audit_log : List AuditEntry
    pub control_log : List ControlEntry

  -- `AccountRiskGate.__init__`
  abbrev pub new_gate : Registry → AccountRiskConfig → CostConfig N → Gate
  new_gate access config costs = record {
    access = access;
    config = config;
    costs = costs;
    states = [];
    seen_order_ids = [];
    seen_trade_order_ids = [];
    audit_log = [];
    control_log = [];
  }

  -- `_owner`
  unfoldable pub risk_owner : DomainEvent N → Result String
  risk_owner e = elim ((meta_of N e).owner_id) [
    | none ↦ raised (value_error (concat (kind_of N e) " risk event requires owner_id"))
    | some o ↦
        raise_if (is_empty o) (value_error (concat (kind_of N e) " risk event requires owner_id"))
        >> ok o
  ]

  -- `_trading_date`
  abbrev pub date_or : Option ℤ → Datetime → ℤ
  date_or none t = N.taipei_date t
  date_or (some d) t = d

  -- `setdefault(owner_id, AccountRiskState())`
  abbrev pub state_or_new : Option RiskState → RiskState
  state_or_new none = new_state
  state_or_new (some s) = s

  unfoldable pub state_of : String → Gate → RiskState
  state_of owner g = state_or_new (get_item owner g.states)

  unfoldable pub with_state : String → RiskState → Gate → Gate
  with_state owner s g = record g { states = set_item owner s g.states }

  abbrev pub is_date : Option ℤ → ℤ → Bool
  is_date none d = false
  is_date (some e) d = eqb_ℤ e d

  abbrev pub manual_active : RiskState → Bool
  manual_active s = s.kill_switch_active && s.manual_kill_switch

  -- The reset of a state on another date.
  unfoldable pub reset_day : ℤ → RiskState → RiskState
  reset_day d s = record {
    trading_date = some d;
    realized_pnl = zero_float N;
    trades = 0;
    consecutive_losses = 0;
    cooldown_until = none;
    kill_switch_active = manual_active s;
    kill_switch_reason = if manual_active s then s.kill_switch_reason else none;
    manual_kill_switch = manual_active s;
    reserved_entries = [];
  }

  unfoldable pub on_day : ℤ → RiskState → RiskState
  on_day d s = if is_date s.trading_date d then s else reset_day d s

  -- `_state`: the state, as it then stands in the dictionary.
  unfoldable pub enter_day : String → ℤ → Gate → Gate
  enter_day owner d g = with_state owner (on_day d (state_of owner g)) g

  abbrev pub owned_sum : String → List (PositionState N) → ℕ
  owned_sum owner [] = 0
  owned_sum owner (p ∷ ps) =
      (if str_eq p.key.owner_id owner then abs p.quantity else 0) + owned_sum owner ps

  -- `_open_contracts`
  unfoldable pub open_contracts : String → Ledger N → ℕ
  open_contracts owner l = owned_sum owner (open_positions N l)

  -- `sum(state.reserved_entries.values())`
  abbrev pub reserved_sum : List (String × ℤ) → ℤ
  reserved_sum [] = pos 0
  reserved_sum (e ∷ es) = e.1 +ℤ reserved_sum es

  abbrev pub is_reserved : String → List (String × ℤ) → Bool
  is_reserved k es = any (λ (e : String × ℤ). str_eq e.0 k) es

  abbrev pub was_seen : String → List String → Bool
  was_seen k ks = any (str_eq k) ks
