-- ===== src/Account/Trades.antt =====
-- tw_quant/risk/account.py: `AccountRiskGate.on_fill`, and `recheck_before_fill`.
use codex_tw_quant_trading_s.Base.{
  String, ◌+◌, ◌*◌, Bool, true, false, not, Option, none, some, List, [], ◌∷◌, ◌++◌, Result, ok,
  raised, ◌>>=◌, ◌>>◌, type_error, if◌then◌else◌, str_eq, length, concat, is_empty, is_some,
}
use codex_tw_quant_trading_s.Base.Assoc.{get_item}
use codex_tw_quant_trading_s.Base.Int.{ℤ, pos, pos_part, ◌+ℤ◌, leb_ℤ, ltb_ℤ}
use codex_tw_quant_trading_s.Order.{Datetime}
use codex_tw_quant_trading_s.Python.{Python}
use codex_tw_quant_trading_s.Events.{
  zero_float, Metadata, create_metadata, DomainEvent, fill, order_intent, FillEvent, OrderIntent,
  RiskDecision, check_risk_decision, check_order_intent,
}
use codex_tw_quant_trading_s.Execution.Positions.{RealizedTrade, Ledger}
use codex_tw_quant_trading_s.Account.Access.{resolve, string_key}
use codex_tw_quant_trading_s.Account.State.{
  Gate, RiskState, state_of, with_state, enter_day, date_or, risk_owner, open_contracts,
  reserved_sum, was_seen,
}
use codex_tw_quant_trading_s.Account.Controls.{Outcome, unreserved, activate_kill_switch}
use codex_tw_quant_trading_s.Account.Entries.{
  first_reason, gate_reasons, in_cooldown, estimated_risk, has_stop_of, day_of, audited,
}

module _ (N : Python) where
  -- `exit_time + timedelta(minutes=...)`; the minutes are not negative, by the check of the config.
  abbrev pub minutes_later : Datetime → ℤ → Datetime
  minutes_later t m = record t { instant = t.instant + 60000000 * pos_part m }

  abbrev pub lost : ℤ → ℤ → RealizedTrade N → RiskState N → RiskState N
  lost most minutes t s = record s {
    consecutive_losses = s.consecutive_losses + 1;
    cooldown_until =
        if leb_ℤ most (pos (s.consecutive_losses + 1))
        then some (minutes_later t.exit_time minutes)
        else s.cooldown_until;
  }

  abbrev pub won : RiskState N → RiskState N
  won s = record s { consecutive_losses = 0; cooldown_until = none }

  abbrev pub realized : RealizedTrade N → RiskState N → RiskState N
  realized t s = record s { realized_pnl = N.add s.realized_pnl t.net_pnl }

  -- What a trade does to the state of its owner.
  unfoldable pub scored : ℤ → ℤ → RealizedTrade N → RiskState N → RiskState N
  scored most minutes t s =
      if N.is_lt t.net_pnl (zero_float N)
      then lost most minutes t (realized t s)
      else won (realized t s)

  abbrev pub score_trade : RealizedTrade N → Gate N → Gate N
  score_trade t g =
      with_state N t.owner_id
        (scored g.config.max_consecutive_losses g.config.cooldown_minutes t
          (state_of N t.owner_id g))
        g

  -- The kill switch of a trade's owner, after the trade.
  abbrev pub halt_on_loss : RealizedTrade N → Gate N → Outcome N (Unit {0})
  halt_on_loss t g =
      if N.is_le (state_of N t.owner_id g).realized_pnl (N.negate g.config.max_daily_loss)
      then activate_kill_switch N t.owner_id "daily_loss_limit" t.exit_time false g
      else (g, ok tt)

  abbrev pub see_trade : RealizedTrade N → Gate N → Gate N
  see_trade t g = record g { seen_trade_order_ids = t.exit_order_id ∷ g.seen_trade_order_ids }

  -- The body of the loop over the trades.
  unfoldable pub take_trade : RealizedTrade N → Gate N → Outcome N (Unit {0})
  take_trade t g =
      if was_seen N t.exit_order_id g.seen_trade_order_ids
      then (g, ok tt)
      else halt_on_loss t (
          score_trade t
            (enter_day N t.owner_id (date_or N t.trading_date t.exit_time) (see_trade t g)))

  abbrev pub then_trades :
      (Gate N → Outcome N (Unit {0})) → Outcome N (Unit {0}) → Outcome N (Unit {0})
  then_trades rest (g, raised e) = (g, raised e)
  then_trades rest (g, ok _) = rest g

  unfoldable pub take_trades : List (RealizedTrade N) → Gate N → Outcome N (Unit {0})
  take_trades [] g = (g, ok tt)
  take_trades (t ∷ ts) g = then_trades (take_trades ts) (take_trade t g)

  abbrev pub entered_trade : FillEvent N → RiskState N → RiskState N
  entered_trade f s =
      let t = unreserved N f.order_id s in
      record t { trades = if str_eq f.purpose "entry" then t.trades + 1 else t.trades }

  -- The part of `on_fill` before the loop.
  abbrev pub count_fill : String → FillEvent N → Gate N → Gate N
  count_fill owner f g =
      let h = enter_day N owner (date_or N f.trading_date f.meta.occurred_at) g in
      with_state N owner (entered_trade f (state_of N owner h)) h

  abbrev pub owned_fill : FillEvent N → Ledger N → Gate N → Result String → Outcome N (Unit {0})
  owned_fill f l g (raised e) = (g, raised e)
  owned_fill f l g (ok owner) = take_trades l.trades (count_fill owner f g)

  -- `on_fill`
  unfoldable pub on_fill : DomainEvent N → Ledger N → Gate N → Outcome N (Unit {0})
  on_fill (fill f) l g = owned_fill f l g (risk_owner N (fill f))
  on_fill e l g = (g, raised (type_error "AccountRiskGate.on_fill requires FillEvent"))

  abbrev pub or_else : Option String → Option String → Option String
  or_else (some r) other = some r
  or_else none other = other

  abbrev pub risk_above : Option N.float → N.float → Bool
  risk_above none most = true
  risk_above (some r) most = N.is_lt most r

  -- The tests of `recheck_before_fill`, in order.
  unfoldable pub refill_reasons :
      String
      → OrderIntent N
      → N.float
      → Datetime
      → Option N.float
      → Ledger N
      → Gate N
      → List (Bool × String)
  refill_reasons owner o price at risk l g =
      let s = state_of N owner g in
      gate_reasons N (resolve owner g.access) s
      ++ (N.is_le s.realized_pnl (N.negate g.config.max_daily_loss), "daily_loss_limit")
        ∷ (in_cooldown N s.cooldown_until at, "loss_streak_cooldown")
        ∷ (not (is_some (get_item o.order_id s.reserved_entries)), "risk_reservation_missing")
        ∷ (
          ltb_ℤ g.config.max_trades_per_day (pos (s.trades + length s.reserved_entries)),
          "daily_trade_limit",
        )
        ∷ (
          ltb_ℤ g.config.max_position_contracts
              (pos (open_contracts N owner l) +ℤ reserved_sum N s.reserved_entries),
          "max_position_exceeded",
        )
        ∷ (not (is_some o.stop_loss_price), "stop_loss_required")
        ∷ (not (has_stop_of N o price), "gap_risk_exceeded")
        ∷ (risk_above risk g.config.max_risk_per_trade, "gap_risk_exceeded")
        ∷ []

  -- `reason or "gap_risk_approved"`
  abbrev pub reason_text : Option String → String
  reason_text none = "gap_risk_approved"
  reason_text (some r) = if is_empty r then "gap_risk_approved" else r

  abbrev pub refill_metadata :
      String → OrderIntent N → N.float → Datetime → String → Result Metadata
  refill_metadata owner o price at reason = create_metadata N (record {
    kind = "risk_decision";
    occurred_at = at;
    source = "account_risk_prefill";
    source_key = concat (concat (concat (concat o.order_id ":") (N.str_float price)) ":") reason;
    correlation_id = o.meta.correlation_id;
    causation_id = some o.meta.event_id;
    owner_id = some owner;
  })

  abbrev pub refill_decision :
      OrderIntent N → N.float → Option String → Option N.float → Metadata → RiskDecision N
  refill_decision o price reason risk m = record {
    meta = m;
    order_id = o.order_id;
    approved = not (is_some reason);
    approved_quantity = if is_some reason then pos 0 else o.quantity;
    reason = reason_text reason;
    estimated_risk = risk;
    reference_price = some price;
    phase = "prefill";
  }

  abbrev pub checked_refill :
      String
      → OrderIntent N
      → N.float
      → Datetime
      → Option String
      → Option N.float
      → Result (RiskDecision N)
  checked_refill owner o price at reason risk = do
    m ← refill_metadata owner o price at (reason_text reason)
    check_risk_decision N (refill_decision o price reason risk m)
    ok (refill_decision o price reason risk m)

  abbrev pub record_refill : String → Gate N → Result (RiskDecision N) → Outcome N (RiskDecision N)
  record_refill owner g (raised e) = (g, raised e)
  record_refill owner g (ok d) = (audited N owner d g, ok d)

  abbrev pub judge_refill :
      String
      → OrderIntent N
      → N.float
      → Datetime
      → Option String
      → Ledger N
      → Gate N
      → Result (Option N.float)
      → Outcome N (RiskDecision N)
  judge_refill owner o price at blocked l g (raised e) = (g, raised e)
  judge_refill owner o price at blocked l g (ok risk) = record_refill owner g (
      checked_refill owner o price at
        (or_else blocked (first_reason (refill_reasons owner o price at risk l g))) risk)

  abbrev pub owned_refill :
      OrderIntent N
      → N.float
      → Datetime
      → Option String
      → Ledger N
      → Gate N
      → Result String
      → Outcome N (RiskDecision N)
  owned_refill o price at blocked l g (raised e) = (g, raised e)
  owned_refill o price at blocked l g (ok owner) =
      judge_refill owner o price at blocked l (enter_day N owner (day_of N o) g) (
        check_order_intent N (record o { reference_price = price })
        >> estimated_risk N g.costs price o)

  -- `recheck_before_fill`
  unfoldable pub recheck_before_fill :
      OrderIntent N
      → N.float
      → Datetime
      → Option String
      → Ledger N
      → Gate N
      → Outcome N (RiskDecision N)
  recheck_before_fill o price at blocked l g =
      owned_refill o price at blocked l g (risk_owner N (order_intent o))
