-- ===== src/Risk/Live.antt =====
-- tw_quant/risk/live.py, `LiveRiskService.evaluate`, with tw_quant/execution/live_models.py and the
-- quote of tw_quant/market/quotes.py, over `Python`. The hash `config.version` is a field.
use codex_tw_quant_trading_s.Base.{
  String, Bool, true, false, not, ◌&&◌, ◌||◌, Option, none, some, List, [], ◌∷◌, ◌++◌, any, str_eq,
  is_empty, if◌then◌else◌, is_some, Result, ok, raised, assertion_error,
}
use codex_tw_quant_trading_s.Base.Int.{ℤ, pos, neg, abs, ◌+ℤ◌, sub_ℕ, leb_ℤ, ltb_ℤ}
use codex_tw_quant_trading_s.Order.{Datetime}
use codex_tw_quant_trading_s.Python.{Python}

pub data KillSwitchAction : Type 0 where
  halt_entry cancel_working flatten : KillSwitchAction

-- The fields of `InstrumentSpec`, `LiveExecutionCandidate` and `ExecutionQuote` that are read here. A
-- date is the number of its day.
pub record Instrument (N : Python) : Type 0 where
  pub symbol : String
  pub contract : String
  pub tick_size : N.float
  pub multiplier : N.float
  pub expiry_date : Option ℤ
  pub commission_per_side : N.float
  pub tax_rate : N.float

pub record Candidate (N : Python) : Type 0 where
  pub symbol : String
  pub contract : String
  pub action : String
  pub direction : String
  pub quantity : ℤ
  pub planned_stop_price : Option N.float
  pub session : String

pub record Quote (N : Python) : Type 0 where
  pub best_bid : Option N.float
  pub best_ask : Option N.float
  pub received_at : Datetime

pub record Config (N : Python) : Type 0 where
  pub allowed_symbols : List String
  pub allowed_contracts : List String
  pub max_order_quantity : ℤ
  pub max_account_position_contracts : ℤ
  pub max_owner_portfolio_position_contracts : ℤ
  pub max_risk_per_trade : N.float
  pub max_daily_loss : N.float
  pub max_daily_trades : ℤ
  pub max_pending_orders : ℤ
  pub max_quote_age_seconds : N.float
  pub max_slippage_ticks : ℤ
  pub allowed_sessions : List String
  pub expiry_guard_days : ℤ
  pub max_active_live_runtimes : ℤ
  pub version : String

-- `today` is `now.date()`; a kill switch is read for its action alone.
pub record Context (N : Python) : Type 0 where
  pub now : Datetime
  pub today : ℤ
  pub recovery_status : String
  pub broker_connected : Bool
  pub broker_truth_captured_at : Option Datetime
  pub market_status : String
  pub account_position : Option ℤ
  pub owner_portfolio_position : Option ℤ
  pub working_order_quantity : Option ℤ
  pub owner_working_order_quantity : Option ℤ
  pub pending_order_count : Option ℤ
  pub daily_realized_pnl : Option N.float
  pub daily_trade_count : Option ℤ
  pub active_live_runtimes : ℤ
  pub account_reservation_quantity : ℤ
  pub portfolio_reservation_quantity : ℤ
  pub kill_switches : List KillSwitchAction

pub record Approval (N : Python) : Type 0 where
  pub approved : Bool
  pub reason : String
  pub policy_version : String
  pub estimated_risk : Option N.float
  pub warnings : List String

-- `value in collection`
abbrev pub is_in : String → List String → Bool
is_in s xs = any (str_eq s) xs

-- A comparison with a value that may be missing, after the test that it is not.
abbrev pub given {ℓ} : {A : Type ℓ} → (A → Bool) → Option A → Bool
given p none = false
given p (some a) = p a

abbrev pub is_none {ℓ} : {A : Type ℓ} → Option A → Bool
is_none o = not (is_some o)

abbrev pub count : Option ℤ → ℤ
count none = pos 0
count (some n) = n

-- The first `if test: return reject(reason)` whose test holds.
abbrev pub first_reject : List (Bool × String) → Option String
first_reject [] = none
first_reject ((b, reason) ∷ cs) = if b then some reason else first_reject cs

abbrev pub kill_reason : List KillSwitchAction → String
kill_reason [] = ""
kill_reason (halt_entry ∷ _) = "kill_switch_halt_entry"
kill_reason (cancel_working ∷ _) = "kill_switch_cancel_working"
kill_reason (flatten ∷ _) = "kill_switch_flatten"

abbrev pub is_active : List KillSwitchAction → Bool
is_active [] = false
is_active (_ ∷ _) = true

-- `projected <= limit` on absolute values.
abbrev pub exceeds : ℤ → ℤ → Bool
exceeds q limit = ltb_ℤ limit (pos (abs q))

module _ (N : Python) where
  -- `reduce_only`, `side`, `signed_quantity`
  abbrev pub reduce_only : Candidate N → Bool
  reduce_only c = str_eq c.action "exit"

  abbrev pub is_long : Candidate N → Bool
  is_long c = str_eq c.direction "long"

  -- `side == "buy"`
  abbrev pub buys : Candidate N → Bool
  buys c = if reduce_only c then not (is_long c) else is_long c

  abbrev pub signed_quantity : Candidate N → ℤ
  signed_quantity c = if buys c then c.quantity else neg c.quantity

  abbrev pub is_complete : Option (Quote N) → Bool
  is_complete none = false
  is_complete (some q) = is_some q.best_bid && is_some q.best_ask

  -- `(now - then).total_seconds()`
  abbrev pub age : Context N → Datetime → N.float
  age x t = N.seconds (sub_ℕ x.now.instant t.instant)

  -- The tests before the two kinds of candidate part.
  abbrev pub gate_checks :
      Config N → Candidate N → Context N → Option (Quote N) → Instrument N → List (Bool × String)
  gate_checks g c x q i =
      (not (str_eq x.recovery_status "ready"), "recovery_not_ready")
      ∷ (is_none x.broker_truth_captured_at, "broker_truth_unavailable")
      ∷ (
        given (λ t. N.is_lt (N.mul g.max_quote_age_seconds (N.of_int (pos 2))) (age x t))
            x.broker_truth_captured_at,
        "broker_truth_stale",
      )
      ∷ (
        not (str_eq c.symbol i.symbol) || not (str_eq c.contract i.contract),
        "instrument_spec_mismatch",
      )
      ∷ (not (is_complete q), "execution_quote_incomplete")
      ∷ (
        given
            (λ (z : Quote N).
              N.is_lt (age x z.received_at) (N.of_int (pos 0))
              || N.is_lt g.max_quote_age_seconds (age x z.received_at))
            q,
        "stale_execution_quote",
      )
      ∷ []

  -- `closes`
  abbrev pub closes : Candidate N → ℤ → Bool
  closes c p = (ltb_ℤ (pos 0) p && not (buys c)) || (ltb_ℤ p (pos 0) && buys c)

  abbrev pub exit_checks : Candidate N → Context N → List (Bool × String)
  exit_checks c x =
      (is_none x.account_position, "position_unavailable")
      ∷ (
        given (λ p. not (closes c p) || ltb_ℤ (pos (abs p)) c.quantity) x.account_position,
        "reduce_only_position_unavailable",
      )
      ∷ []

  abbrev pub account_projected : Candidate N → Context N → ℤ
  account_projected c x =
      count x.account_position
      +ℤ count x.working_order_quantity
      +ℤ x.account_reservation_quantity
      +ℤ signed_quantity c

  abbrev pub portfolio_projected : Candidate N → Context N → ℤ
  portfolio_projected c x =
      count x.owner_portfolio_position
      +ℤ count x.owner_working_order_quantity
      +ℤ x.portfolio_reservation_quantity
      +ℤ signed_quantity c

  abbrev pub entry_checks : Config N → Candidate N → Context N → Instrument N → List (Bool × String)
  entry_checks g c x i =
      (not x.broker_connected, "target_unavailable")
      ∷ (
        is_in x.market_status ("market_stale" ∷ "provider_disconnected" ∷ "trading_halted" ∷ []),
        x.market_status,
      )
      ∷ (not (is_in c.symbol g.allowed_symbols), "symbol_not_allowed")
      ∷ (not (is_in c.contract g.allowed_contracts), "contract_not_allowed")
      ∷ (ltb_ℤ g.max_order_quantity c.quantity, "max_order_quantity_exceeded")
      ∷ (not (is_in c.session g.allowed_sessions), "session_not_allowed")
      ∷ (is_none i.expiry_date, "expiry_metadata_unavailable")
      ∷ (given (λ d. leb_ℤ (d +ℤ neg x.today) g.expiry_guard_days) i.expiry_date, "expiry_guard")
      ∷ (is_none c.planned_stop_price, "stop_required")
      ∷ (is_active x.kill_switches, kill_reason x.kill_switches)
      ∷ (
        ltb_ℤ g.max_active_live_runtimes x.active_live_runtimes,
        "max_active_live_runtimes_exceeded",
      )
      ∷ (
        is_none x.pending_order_count
            || is_none x.working_order_quantity
            || is_none x.owner_working_order_quantity,
        "working_orders_unavailable",
      )
      ∷ (
        given (λ n. leb_ℤ g.max_pending_orders n) x.pending_order_count,
        "max_pending_orders_exceeded",
      )
      ∷ (is_none x.daily_realized_pnl, "daily_loss_unavailable")
      ∷ (
        given (λ p. N.is_le p (N.negate g.max_daily_loss)) x.daily_realized_pnl,
        "daily_loss_exceeded",
      )
      ∷ (is_none x.daily_trade_count, "daily_trade_count_unavailable")
      ∷ (given (λ n. leb_ℤ g.max_daily_trades n) x.daily_trade_count, "daily_trades_exceeded")
      ∷ (is_none x.account_position || is_none x.owner_portfolio_position, "position_unavailable")
      ∷ (exceeds (account_projected c x) g.max_account_position_contracts, "account_position_limit")
      ∷ (
        exceeds (portfolio_projected c x) g.max_owner_portfolio_position_contracts,
        "portfolio_position_limit",
      )
      ∷ []

  -- `estimated`
  abbrev pub estimated : Config N → Candidate N → Instrument N → N.float → N.float → N.float
  estimated g c i reference stop =
      let quantity = N.of_int c.quantity in
      let price_risk = N.mul (N.mul (N.magnitude (N.sub reference stop)) i.multiplier) quantity in
      let fees = N.mul (N.mul i.commission_per_side (N.of_int (pos 2))) quantity in
      let taxes = N.mul (N.mul (N.mul (N.add reference stop) i.multiplier) i.tax_rate) quantity in
      let slippage =
        N.mul (N.mul (N.mul (N.of_int g.max_slippage_ticks) i.tick_size) i.multiplier) quantity in
      N.add (N.add (N.add price_risk fees) taxes) slippage

  -- `best_ask` for a buyer, else `best_bid`.
  abbrev pub reference_of : Candidate N → Option (Quote N) → Option N.float
  reference_of c none = none
  reference_of c (some q) = if buys c then q.best_ask else q.best_bid

  abbrev pub wrong_side : Candidate N → N.float → N.float → Bool
  wrong_side c reference stop = if buys c then N.is_le reference stop else N.is_le stop reference

  abbrev pub decided : Config N → Bool → String → Option N.float → List String → Approval N
  decided g b reason r ws = record {
    approved = b;
    reason = reason;
    policy_version = g.version;
    estimated_risk = r;
    warnings = ws;
  }

  -- The limit on the risk of one trade. The assertion that there is a reference, and the use of the
  -- stop, raise if one is missing.
  unfoldable pub risk_verdict :
      Config N → Candidate N → Instrument N → Option N.float → Option N.float → Result (Approval N)
  risk_verdict g c i none stop = raised assertion_error
  risk_verdict g c i (some reference) none = raised assertion_error
  risk_verdict g c i (some reference) (some stop) = ok (
      if wrong_side c reference stop
      then decided g false "invalid_stop_direction" none []
      else if N.is_lt g.max_risk_per_trade (estimated g c i reference stop)
      then decided g false "max_risk_per_trade" (some (estimated g c i reference stop)) []
      else decided g true "approved" (some (estimated g c i reference stop)) [])

  -- `warnings` of an approved exit.
  abbrev pub exit_warnings : Context N → List String
  exit_warnings x =
      (if x.broker_connected then [] else "broker_unavailable" ∷ [])
      ++ (if str_eq x.market_status "healthy"
          then []
          else (if is_empty x.market_status then "market_unhealthy" else x.market_status) ∷ [])

  -- `reject`, or what follows the tests.
  abbrev pub unless_rejected : Config N → Option String → Result (Approval N) → Result (Approval N)
  unless_rejected g (some reason) rest = ok (decided g false reason none [])
  unless_rejected g none rest = rest

  -- `evaluate`
  unfoldable pub evaluate :
      Config N → Candidate N → Context N → Option (Quote N) → Instrument N → Result (Approval N)
  evaluate g c x q i = unless_rejected g (first_reject (gate_checks g c x q i)) (
      if reduce_only c
      then unless_rejected g (first_reject (exit_checks c x))
          (ok (decided g true "risk_reducing_approved" none (exit_warnings x)))
      else unless_rejected g (first_reject (entry_checks g c x i))
          (risk_verdict g c i (reference_of c q) c.planned_stop_price))
