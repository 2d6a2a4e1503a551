-- ===== src/Account/Entries.antt =====
-- tw_quant/risk/account.py: `AccountRiskGate.on_order`.
use codex_tw_quant_trading_s.Base.{
  String, ◌+◌, Bool, true, false, not, ◌&&◌, ◌||◌, Option, none, some, List, [], ◌∷◌, ◌++◌, Result,
  ok, raised, ◌>>=◌, ◌>>◌, type_error, if◌then◌else◌, str_eq, length, any, concat, is_some,
}
use codex_tw_quant_trading_s.Base.Int.{ℤ, pos, abs, ◌+ℤ◌, leb_ℤ, ltb_ℤ, eqb_ℤ}
use codex_tw_quant_trading_s.Order.{Datetime}
use codex_tw_quant_trading_s.Python.{Python}
use codex_tw_quant_trading_s.Events.{
  zero_float, is_nonzero, Metadata, create_metadata, DomainEvent, order_intent, OrderIntent,
  RiskDecision, check_risk_decision,
}
use codex_tw_quant_trading_s.Execution.Positions.{PositionState, Ledger}
use codex_tw_quant_trading_s.Execution.Ledger.{open_positions}
use codex_tw_quant_trading_s.Account.Access.{TradingAccess, is_active, is_paper, resolve}
use codex_tw_quant_trading_s.Account.Costs.{CostConfig, side_cost}
use codex_tw_quant_trading_s.Account.State.{
  Gate, RiskState, earlier, state_of, with_state, enter_day, date_or, risk_owner, open_contracts,
  reserved_sum, was_seen,
}
use codex_tw_quant_trading_s.Account.Controls.{
  Outcome, activate_kill_switch, reserve_entry, see_order,
}

-- The reason of the first test that is true.
abbrev pub first_reason : List (Bool × String) → Option String
first_reason [] = none
first_reason ((test, reason) ∷ rest) = if test then some reason else first_reason rest

module _ (N : Python) where
  -- The position that an order is for, and whether the order closes it.
  abbrev pub is_position_of : String → OrderIntent N → PositionState N → Bool
  is_position_of owner o p =
      str_eq p.key.owner_id owner
      && (str_eq p.key.strategy_id o.strategy_id
          && (eqb_ℤ p.key.strategy_version o.strategy_version
              && (str_eq p.key.symbol o.symbol && str_eq p.key.contract o.contract)))

  abbrev pub closes_position : OrderIntent N → PositionState N → Bool
  closes_position o p =
      (ltb_ℤ (pos 0) p.quantity && str_eq o.side "sell")
      || (ltb_ℤ p.quantity (pos 0) && str_eq o.side "buy")

  -- `_risk_reducing_quantity`, on the open positions.
  unfoldable pub reducing_quantity : String → OrderIntent N → List (PositionState N) → ℤ
  reducing_quantity owner o [] = pos 0
  reducing_quantity owner o (p ∷ ps) =
      if is_position_of owner o p && closes_position o p
      then (if leb_ℤ (pos (abs p.quantity)) o.quantity then pos (abs p.quantity) else o.quantity)
      else reducing_quantity owner o ps

  abbrev pub price_risk : CostConfig N → N.float → N.float → ℤ → N.float
  price_risk c price stop quantity =
      N.mul (N.mul (N.magnitude (N.sub price stop)) c.multiplier) (N.of_int quantity)

  abbrev pub slippage_risk : CostConfig N → ℤ → N.float
  slippage_risk c quantity =
      N.mul (N.mul (N.mul c.slippage_points (N.of_int (pos 2))) c.multiplier) (N.of_int quantity)

  -- `_estimated_risk`, at a reference price.
  abbrev pub risk_to_stop : CostConfig N → N.float → ℤ → Option N.float → Result (Option N.float)
  risk_to_stop c price quantity none = ok none
  risk_to_stop c price quantity (some stop) = do
    entry ← side_cost N c price quantity
    exit ← side_cost N c stop quantity
    ok (
        some (
          N.add
            (N.add (N.add (N.add (N.add (price_risk c price stop quantity) entry.0) entry.1) exit.0)
              exit.1)
            (slippage_risk c quantity)))

  unfoldable pub estimated_risk : CostConfig N → N.float → OrderIntent N → Result (Option N.float)
  estimated_risk c price o =
      if N.is_le price (zero_float N)
      then ok none
      else risk_to_stop c price o.quantity o.stop_loss_price

  -- The arguments of `_decision`.
  pub record Verdict : Type 0 where
    pub approved : Bool
    pub quantity : ℤ
    pub reason : String
    pub risk : Option N.float

  abbrev pub refused : String → Option N.float → Verdict
  refused reason risk = record { approved = false; quantity = pos 0; reason = reason; risk = risk }

  abbrev pub approval : ℤ → String → Option N.float → Verdict
  approval quantity reason risk = record {
    approved = true;
    quantity = quantity;
    reason = reason;
    risk = risk;
  }

  -- `order.reference_price or None`
  abbrev pub price_or_none : N.float → Option N.float
  price_or_none x = if is_nonzero N x then some x else none

  abbrev pub decision_of : OrderIntent N → Verdict → Metadata → RiskDecision N
  decision_of o v m = record {
    meta = m;
    order_id = o.order_id;
    approved = v.approved;
    approved_quantity = if v.approved then v.quantity else pos 0;
    reason = v.reason;
    estimated_risk = v.risk;
    reference_price = price_or_none o.reference_price;
    phase = "initial";
  }

  abbrev pub audited : String → RiskDecision N → Gate N → Gate N
  audited owner d g = record g {
    audit_log =
        g.audit_log
        ++ record {
          event_id = d.meta.event_id;
          occurred_at = d.meta.occurred_at;
          owner_id = owner;
          order_id = d.order_id;
          approved = d.approved;
          approved_quantity = d.approved_quantity;
          reason = d.reason;
          estimated_risk = d.estimated_risk;
        }
          ∷ [];
  }

  abbrev pub decision_metadata : OrderIntent N → String → Result Metadata
  decision_metadata o reason = create_metadata N (record {
    kind = "risk_decision";
    occurred_at = o.meta.occurred_at;
    source = "account_risk";
    source_key = concat (concat o.meta.event_id ":") reason;
    correlation_id = o.meta.correlation_id;
    causation_id = some o.meta.event_id;
    owner_id = o.meta.owner_id;
  })

  -- The decision, with its owner for the audit.
  abbrev pub checked_decision : OrderIntent N → Verdict → Result (String × RiskDecision N)
  checked_decision o v = do
    m ← decision_metadata o v.reason
    check_risk_decision N (decision_of o v m)
    owner ← risk_owner N (order_intent o)
    ok (owner, decision_of o v m)

  abbrev pub Decisions : Type 0
  Decisions = List (RiskDecision N)

  abbrev pub record_decision : Gate N → Result (String × RiskDecision N) → Outcome N Decisions
  record_decision g (raised e) = (g, raised e)
  record_decision g (ok (owner, d)) = (audited owner d g, ok (d ∷ []))

  -- `_decision`
  unfoldable pub decide : OrderIntent N → Verdict → Gate N → Outcome N Decisions
  decide o v g = record_decision g (checked_decision o v)

  -- The tests of the account, in order.
  abbrev pub access_reasons : Option TradingAccess → List (Bool × String)
  access_reasons none = (true, "account_unknown") ∷ []
  access_reasons (some a) =
      (not (is_active a.status), "account_not_active")
      ∷ (not (is_paper a.trading_mode), "paper_mode_required")
      ∷ (not (any (str_eq "orders.paper") a.permissions), "paper_permission_required")
      ∷ []

  abbrev pub gate_reasons : Option TradingAccess → RiskState N → List (Bool × String)
  gate_reasons a s = access_reasons a ++ (s.kill_switch_active, "kill_switch_active") ∷ []

  abbrev pub in_cooldown : Option Datetime → Datetime → Bool
  in_cooldown none now = false
  in_cooldown (some until) now = earlier now until

  -- The reset of a cooldown that is over.
  abbrev pub cooled : RiskState N → RiskState N
  cooled s = record s {
    cooldown_until = none;
    consecutive_losses = if is_some s.cooldown_until then 0 else s.consecutive_losses;
  }

  -- The stop stands on the losing side of a price.
  abbrev pub is_stop_of : OrderIntent N → N.float → N.float → Bool
  is_stop_of o price stop =
      (str_eq o.side "buy" && N.is_lt stop price) || (str_eq o.side "sell" && N.is_lt price stop)

  abbrev pub has_stop_of : OrderIntent N → N.float → Bool
  has_stop_of o price = elim o.stop_loss_price [
    | none ↦ false
    | some stop ↦ is_stop_of o price stop
  ]

  abbrev pub Judged : Type 0
  Judged = Gate N × Result Verdict

  abbrev pub judge_risk : String → OrderIntent N → Gate N → Result (Option N.float) → Judged
  judge_risk owner o g (raised e) = (g, raised e)
  judge_risk owner o g (ok none) = (g, ok (refused "stop_loss_required" none))
  judge_risk owner o g (ok (some risk)) =
      if not (has_stop_of o o.reference_price)
      then (g, ok (refused "invalid_stop_direction" (some risk)))
      else if N.is_lt g.config.max_risk_per_trade risk
      then (g, ok (refused "max_trade_risk_exceeded" (some risk)))
      else (
        reserve_entry N owner o.order_id o.quantity g,
        ok (approval o.quantity "approved" (some risk)),
      )

  abbrev pub limit_reasons : String → OrderIntent N → Ledger N → Gate N → List (Bool × String)
  limit_reasons owner o l g =
      let s = state_of N owner g in
      (
        leb_ℤ g.config.max_trades_per_day (pos (s.trades + length s.reserved_entries)),
        "daily_trade_limit",
      )
      ∷ (
        ltb_ℤ g.config.max_position_contracts
            ((pos (open_contracts N owner l) +ℤ reserved_sum N s.reserved_entries) +ℤ o.quantity),
        "max_position_exceeded",
      )
      ∷ []

  -- `return self._decision(...)` with the reason of the first test that is true.
  abbrev pub unless_refused : Option String → Gate N → Judged → Judged
  unless_refused (some reason) g rest = (g, ok (refused reason none))
  unless_refused none g rest = rest

  abbrev pub judge_limits : String → OrderIntent N → Ledger N → Gate N → Judged
  judge_limits owner o l g =
      unless_refused (first_reason (limit_reasons owner o l g)) g
        (judge_risk owner o g (estimated_risk g.costs o.reference_price o))

  abbrev pub refused_if_ok : Verdict → Outcome N (Unit {0}) → Judged
  refused_if_ok v (g, raised e) = (g, raised e)
  refused_if_ok v (g, ok _) = (g, ok v)

  -- After the tests of the cooldown.
  abbrev pub judge_loss : String → OrderIntent N → Ledger N → Gate N → Judged
  judge_loss owner o l g =
      if N.is_le (state_of N owner g).realized_pnl (N.negate g.config.max_daily_loss)
      then refused_if_ok (refused "daily_loss_limit" none)
          (activate_kill_switch N owner "daily_loss_limit" o.meta.occurred_at false g)
      else judge_limits owner o l g

  abbrev pub judge_cooldown : String → OrderIntent N → Ledger N → Gate N → Judged
  judge_cooldown owner o l g =
      let s = state_of N owner g in
      if in_cooldown s.cooldown_until o.meta.occurred_at
      then (g, ok (refused "loss_streak_cooldown" none))
      else judge_loss owner o l (with_state N owner (cooled s) g)

  -- The decision on an entry, on the state of the order's date.
  unfoldable pub judge_entry : String → OrderIntent N → Ledger N → Gate N → Judged
  judge_entry owner o l g =
      unless_refused (first_reason (gate_reasons (resolve owner g.access) (state_of N owner g))) g
        (judge_cooldown owner o l g)

  -- The decision on an order that only reduces.
  unfoldable pub judge_exit : String → OrderIntent N → Ledger N → Verdict
  judge_exit owner o l =
      let q = reducing_quantity owner o (open_positions N l) in
      if eqb_ℤ q (pos 0)
      then refused "reduce_only_position_unavailable" none
      else approval q "risk_reducing_approved" none

  abbrev pub after_verdict : OrderIntent N → Judged → Outcome N Decisions
  after_verdict o (g, raised e) = (g, raised e)
  after_verdict o (g, ok v) = decide o v g

  abbrev pub day_of : OrderIntent N → ℤ
  day_of o = date_or N o.trading_date o.meta.occurred_at

  abbrev pub new_order : String → OrderIntent N → Ledger N → Gate N → Outcome N Decisions
  new_order owner o l g =
      if o.reduce_only
      then decide o (judge_exit owner o l) g
      else after_verdict o (judge_entry owner o l (enter_day N owner (day_of o) g))

  abbrev pub owned_order : OrderIntent N → Ledger N → Gate N → Result String → Outcome N Decisions
  owned_order o l g (raised e) = (g, raised e)
  owned_order o l g (ok owner) =
      if was_seen N o.order_id g.seen_order_ids
      then decide o (refused "duplicate_order" none) g
      else new_order owner o l (see_order N o.order_id g)

  unfoldable pub take_order : OrderIntent N → Ledger N → Gate N → Outcome N Decisions
  take_order o l g = owned_order o l g (risk_owner N (order_intent o))

  -- `on_order`
  unfoldable pub on_order : DomainEvent N → Ledger N → Gate N → Outcome N Decisions
  on_order (order_intent o) l g = take_order o l g
  on_order e l g = (g, raised (type_error "AccountRiskGate.on_order requires OrderIntent"))
