-- ===== src/Account/Controls.antt =====
-- tw_quant/risk/account.py: the kill switch, sessions, order statuses, reservations and the reads of
-- `AccountRiskGate`.
use codex_tw_quant_trading_s.Base.{
  String, ℕ, Bool, true, false, not, ◌||◌, Option, none, some, List, [], ◌∷◌, ◌++◌, Result, ok,
  raised, value_error, type_error, is_empty, if◌then◌else◌, str_eq, length, filter,
}
use codex_tw_quant_trading_s.Base.Assoc.{get_item, set_item, del_item}
use codex_tw_quant_trading_s.Base.Int.{ℤ, pos, leb_ℤ}
use codex_tw_quant_trading_s.Order.{Datetime}
use codex_tw_quant_trading_s.Python.{Python}
use codex_tw_quant_trading_s.Events.{
  DomainEvent, order_intent, order_status, session, OrderIntent, OrderStatusEvent,
}
use codex_tw_quant_trading_s.Execution.Positions.{Ledger}
use codex_tw_quant_trading_s.Account.Access.{string_key}
use codex_tw_quant_trading_s.Account.State.{
  Gate, RiskState, ControlEntry, state_of, with_state, enter_day, date_or, risk_owner,
  open_contracts, reserved_sum,
}

module _ (N : Python) where
  -- A handler's gate with its result, also where it raises.
  abbrev pub Outcome : Type 0 → Type 0
  Outcome A = Gate N × Result A

  abbrev pub switched_on : String → Bool → RiskState N → RiskState N
  switched_on reason manual s = record s {
    kill_switch_active = true;
    kill_switch_reason = some reason;
    manual_kill_switch = manual;
  }

  abbrev pub logged : ControlEntry N → Gate N → Gate N
  logged e g = record g { control_log = g.control_log ++ e ∷ [] }

  -- `activate_kill_switch`
  unfoldable pub activate_kill_switch :
      String → String → Datetime → Bool → Gate N → Outcome (Unit {0})
  activate_kill_switch owner reason at manual g =
      if is_empty reason
      then (g, raised (value_error "kill switch reason is required"))
      else if not at.is_aware
      then (g, raised (value_error "kill switch time must be timezone-aware"))
      else (
        logged
            (record {
              occurred_at = at;
              owner_id = owner;
              action = "kill_switch.activated";
              reason = reason;
            })
            (with_state N owner (switched_on reason manual (state_of N owner g)) g),
        ok tt,
      )

  abbrev pub switched_off : RiskState N → RiskState N
  switched_off s = record s {
    kill_switch_active = false;
    kill_switch_reason = none;
    manual_kill_switch = false;
  }

  -- `reset_kill_switch`
  unfoldable pub reset_kill_switch : String → Datetime → String → Gate N → Outcome (Unit {0})
  reset_kill_switch owner at reason g =
      if not at.is_aware
      then (g, raised (value_error "kill switch time must be timezone-aware"))
      else if is_empty reason
      then (g, raised (value_error "kill switch reset reason is required"))
      else (
        logged
            (record {
              occurred_at = at;
              owner_id = owner;
              action = "kill_switch.reset";
              reason = reason;
            })
            (with_state N owner (switched_off (state_of N owner g)) g),
        ok tt,
      )

  abbrev pub unreserved : String → RiskState N → RiskState N
  unreserved k s = record s { reserved_entries = del_item k s.reserved_entries }

  abbrev pub status_known : OrderStatusEvent → Gate N → String → Option (RiskState N) → Gate N
  status_known e g owner none = g
  status_known e g owner (some s) = with_state N owner (unreserved e.order_id s) g

  abbrev pub status_owned : OrderStatusEvent → Gate N → Result String → Outcome (Unit {0})
  status_owned e g (raised x) = (g, raised x)
  status_owned e g (ok owner) = (status_known e g owner (get_item owner g.states), ok tt)

  -- `on_order_status`
  unfoldable pub on_order_status : DomainEvent N → Gate N → Outcome (Unit {0})
  on_order_status (order_status e) g = status_owned e g (risk_owner N (order_status e))
  on_order_status e g =
      (g, raised (type_error "AccountRiskGate.on_order_status requires OrderStatusEvent"))

  abbrev pub names_owner : Option String → String → Bool
  names_owner none owner = true
  names_owner (some o) owner = str_eq o owner

  abbrev pub cleared : Option String → List (String × RiskState N) → List (String × RiskState N)
  cleared o [] = []
  cleared o ((k, s) ∷ ss) =
      (k, (if names_owner o k then record s { reserved_entries = [] } else s)) ∷ cleared o ss

  -- `on_session`
  unfoldable pub on_session : DomainEvent N → Gate N → Outcome (Unit {0})
  on_session (session e) g =
      if str_eq e.action "closing" || str_eq e.action "closed"
      then (record g { states = cleared e.meta.owner_id g.states }, ok tt)
      else (g, ok tt)
  on_session e g = (g, raised (type_error "AccountRiskGate.on_session requires SessionEvent"))

  unfoldable pub reserve_entry : String → String → ℤ → Gate N → Gate N
  reserve_entry owner k quantity g =
      let s = state_of N owner g in
      with_state N owner (record s { reserved_entries = set_item k quantity s.reserved_entries }) g

  abbrev pub see_order : String → Gate N → Gate N
  see_order k g = record g { seen_order_ids = k ∷ g.seen_order_ids }

  abbrev pub restore_owned : OrderIntent N → ℤ → Gate N → Result String → Outcome (Unit {0})
  restore_owned o quantity g (raised x) = (g, raised x)
  restore_owned o quantity g (ok owner) = (
    see_order o.order_id (
        reserve_entry owner o.order_id quantity
          (enter_day N owner (date_or N o.trading_date o.meta.occurred_at) g)),
    ok tt,
  )

  -- `restore_reservation`
  unfoldable pub restore_reservation : OrderIntent N → ℤ → Gate N → Outcome (Unit {0})
  restore_reservation o quantity g =
      if o.reduce_only || leb_ℤ quantity (pos 0)
      then (g, ok tt)
      else restore_owned o quantity g (risk_owner N (order_intent o))

  -- `AccountRiskSnapshot`
  pub record RiskSnapshot : Type 0 where
    pub owner_id : String
    pub trading_date : Option ℤ
    pub realized_pnl : N.float
    pub trades : ℕ
    pub consecutive_losses : ℕ
    pub cooldown_until : Option Datetime
    pub kill_switch_active : Bool
    pub kill_switch_reason : Option String
    pub open_contracts : ℕ
    pub reserved_contracts : ℤ

  -- `snapshot`, which adds a state for an owner that has none.
  unfoldable pub snapshot : String → Ledger N → Gate N → Gate N × RiskSnapshot
  snapshot owner l g =
      let s = state_of N owner g in
      (
        with_state N owner s g,
        record {
          owner_id = owner;
          trading_date = s.trading_date;
          realized_pnl = s.realized_pnl;
          trades = s.trades;
          consecutive_losses = s.consecutive_losses;
          cooldown_until = s.cooldown_until;
          kill_switch_active = s.kill_switch_active;
          kill_switch_reason = s.kill_switch_reason;
          open_contracts = open_contracts N owner l;
          reserved_contracts = reserved_sum N s.reserved_entries;
        },
      )

  pub record KillSwitchSummary : Type 0 where
    pub active : ℕ
    pub manual : ℕ
    pub automatic : ℕ
    pub tracked_accounts : ℕ

  -- `kill_switch_summary`
  unfoldable pub kill_switch_summary : Gate N → KillSwitchSummary
  kill_switch_summary g =
      let on = filter (λ (e : String × RiskState N). e.1.kill_switch_active) g.states in
      record {
        active = length on;
        manual = length (filter (λ (e : String × RiskState N). e.1.manual_kill_switch) on);
        automatic = length (filter (λ (e : String × RiskState N). not e.1.manual_kill_switch) on);
        tracked_accounts = length g.states;
      }
