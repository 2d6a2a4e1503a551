-- ===== src/Account/Halt.antt =====
-- tw_quant/risk/account.py: the kill switch of `AccountRiskGate`.
use codex_tw_quant_trading_s.Base.{
  String, Bool, true, false, not, Option, none, some, ◌≡◌, refl, sym, ap, ◌∙◌, subst, inl, inr,
  Result, ok, raised, if◌then◌else◌, if_true, if_false, if_elim, clash, ◌≢◌, All, Option-cases,
  value_error, is_empty, arith,
}
use codex_tw_quant_trading_s.Base.Int.{ℤ}
use codex_tw_quant_trading_s.Order.{Datetime}
use codex_tw_quant_trading_s.Python.{Python}
use codex_tw_quant_trading_s.Events.{OrderIntent, order_intent}
use codex_tw_quant_trading_s.Execution.Positions.{RealizedTrade, Ledger}
use codex_tw_quant_trading_s.Account.Access.{TradingAccess, resolve}
use codex_tw_quant_trading_s.Account.State.{
  Gate, RiskState, state_of, with_state, on_day, reset_day, enter_day, is_date, date_or, was_seen,
  risk_owner,
}
use codex_tw_quant_trading_s.Account.Controls.{
  Outcome, activate_kill_switch, switched_on, logged, see_order,
}
use codex_tw_quant_trading_s.Account.Entries.{
  first_reason, gate_reasons, refused, unless_refused, judge_entry, judge_exit, judge_cooldown,
  decide, new_order, owned_order, take_order, on_order, after_verdict, day_of, Judged, Decisions,
}
use codex_tw_quant_trading_s.Account.Trades.{take_trade, halt_on_loss, score_trade, see_trade}
use codex_tw_quant_trading_s.Account.Limits.{state_of-with_state_self, gate_reasons_kill}
use codex_tw_quant_trading_s.Account.Approvals.{Promises, Promises-ok, decide-Promises}

module _ (N : Python) where
  -- A reason of the account's tests, or of the kill switch.
  halted_reason :
      (a : Option TradingAccess) (s : RiskState N)
      → s.kill_switch_active ≡ true
      → (r : String) × (first_reason (gate_reasons N a s) ≡ some r)
  halted_reason none s h = ("account_unknown", refl)
  halted_reason (some a) s h = elim (Option-cases (first_reason (gate_reasons N (some a) s))) [
    | inl e ↦ clash s.kill_switch_active h (gate_reasons_kill N (some a) s e)
    | inr found ↦ found
  ]

  manual_on_day :
      (d : ℤ) (s : RiskState N)
      → s.kill_switch_active ≡ true
      → s.manual_kill_switch ≡ true
      → (on_day N d s).kill_switch_active ≡ true
  unfolding on_day reset_day
  manual_on_day d s on manual = ground arith

  pub state_of-enter_day :
      (owner : String) (d : ℤ) (g : Gate N)
      → state_of N owner (enter_day N owner d g) ≡ on_day N d (state_of N owner g)
  unfolding enter_day
  state_of-enter_day owner d g =
      state_of-with_state_self N owner (on_day N d (state_of N owner g)) g

  judge_entry-halted :
      (owner : String) (o : OrderIntent N) (l : Ledger N) (g : Gate N)
      → (state_of N owner g).kill_switch_active ≡ true
      → (reason : String) × (judge_entry N owner o l g ≡ (g, ok (refused N reason none)))
  unfolding judge_entry
  judge_entry-halted owner o l g active =
      let (r, e) = halted_reason (resolve owner g.access) (state_of N owner g) active in
      (r, ap (λ (x : Option String). unless_refused N x g (judge_cooldown N owner o l g)) e)

  owned_order-halted :
      (owner : String) (o : OrderIntent N) (l : Ledger N) (g : Gate N)
      → o.reduce_only ≡ false
      → (state_of N owner g).kill_switch_active ≡ true
      → (state_of N owner g).manual_kill_switch ≡ true
      → Promises N (λ _. ⊥) (owned_order N o l g (ok owner))
  unfolding state_of
  owned_order-halted owner o l g entry on manual =
      let P = Promises N (λ _. ⊥) in
      let seen = see_order N o.order_id g in
      let d = day_of N o in
      let day = enter_day N owner d seen in
      let active =
        ap (λ (s : RiskState N). s.kill_switch_active) (state_of-enter_day owner d seen)
        ∙ manual_on_day d (state_of N owner g) on manual in
      let (r, e) = judge_entry-halted owner o l day active in
      if_elim P (was_seen N o.order_id g.seen_order_ids)
        (decide N o (refused N "duplicate_order" none) g) (new_order N owner o l seen)
        (λ _. decide-Promises N (λ _. ⊥) o (refused N "duplicate_order" none) g (λ h. absurd (cc)))
        (λ new.
          subst P
            (sym (
              if_false o.reduce_only (decide N o (judge_exit N owner o l) seen)
                (after_verdict N o (judge_entry N owner o l day)) entry))
            (subst (λ (j : Judged N). P (after_verdict N o j)) (sym e)
              (decide-Promises N (λ _. ⊥) o (refused N r none) day (λ h. absurd (cc)))))

  -- While an owner's kill switch is on by hand, `on_order` approves no entry of the owner, of any date.
  pub manual_halt_refuses :
      (owner : String) (o : OrderIntent N) (l : Ledger N) (g : Gate N) (ds : Decisions N)
      → o.reduce_only ≡ false
      → risk_owner N (order_intent o) ≡ ok owner
      → (state_of N owner g).kill_switch_active ≡ true
      → (state_of N owner g).manual_kill_switch ≡ true
      → (on_order N (order_intent o) l g).1 ≡ ok ds
      → All (λ d. d.approved ≢ true) ds
  unfolding on_order take_order
  manual_halt_refuses owner o l g ds entry owned on manual answer =
      Promises-ok N (λ _. ⊥) (owned_order N o l g (risk_owner N (order_intent o))) ds
        (subst (λ (r : Result String). Promises N (λ _. ⊥) (owned_order N o l g r)) (sym owned)
          (owned_order-halted owner o l g entry on manual))
        answer

  state_of-activate :
      (owner reason : String) (at : Datetime) (manual : Bool) (g : Gate N)
      → is_empty reason ≡ false
      → at.is_aware ≡ true
      → state_of N owner (activate_kill_switch N owner reason at manual g).0
        ≡ switched_on N reason manual (state_of N owner g)
  unfolding activate_kill_switch state_of
  state_of-activate owner reason at manual g given aware =
      let h = with_state N owner (switched_on N reason manual (state_of N owner g)) g in
      let done : Outcome N (Unit {0}) = (
        logged N
            (record {
              occurred_at = at;
              owner_id = owner;
              action = "kill_switch.activated";
              reason = reason;
            })
            h,
        ok tt,
      ) in
      let naive : Outcome N (Unit {0}) =
        (g, raised (value_error "kill switch time must be timezone-aware")) in
      ap (λ (r : Outcome N (Unit {0})). state_of N owner r.0)
        (if_false (is_empty reason) (g, raised (value_error "kill switch reason is required"))
            (if not at.is_aware then naive else done) given
          ∙ if_false (not at.is_aware) naive done (ap (λ (b : Bool). not b) aware))
      ∙ state_of-with_state_self N owner (switched_on N reason manual (state_of N owner g)) g

  -- The gate after a trade is counted, before its kill switch.
  abbrev pub scored_gate : RealizedTrade N → Gate N → Gate N
  scored_gate t g =
      score_trade N t
        (enter_day N t.owner_id (date_or N t.trading_date t.exit_time) (see_trade N t g))

  -- A trade that brings its owner's realized result down to the limit of a day's loss turns a kill switch
  -- that was on by hand into one that the next date ends.
  pub loss_ends_manual_halt :
      (t : RealizedTrade N) (g : Gate N) (d : ℤ)
      → was_seen N t.exit_order_id g.seen_trade_order_ids ≡ false
      → t.exit_time.is_aware ≡ true
      → N.is_le
          (state_of N t.owner_id (scored_gate t g)).realized_pnl
          (N.negate (scored_gate t g).config.max_daily_loss)
        ≡ true
      → is_date N (state_of N t.owner_id (scored_gate t g)).trading_date d ≡ false
      → (state_of N t.owner_id (enter_day N t.owner_id d (take_trade N t g).0)).kill_switch_active
        ≡ false
  unfolding take_trade on_day reset_day
  loss_ends_manual_halt t g d new aware loss other =
      let h = scored_gate t g in
      let s = state_of N t.owner_id h in
      let after : Gate N =
        (activate_kill_switch N t.owner_id "daily_loss_limit" t.exit_time false h).0 in
      let step : (take_trade N t g).0 ≡ after =
        ap (λ (r : Outcome N (Unit {0})). r.0)
          (if_false (was_seen N t.exit_order_id g.seen_trade_order_ids) (g, ok tt)
              (halt_on_loss N t h) new
            ∙ if_true _ (activate_kill_switch N t.owner_id "daily_loss_limit" t.exit_time false h)
                (h, ok tt) loss) in
      let switched =
        state_of-activate t.owner_id "daily_loss_limit" t.exit_time false h refl aware in
      let reset : (on_day N d (switched_on N "daily_loss_limit" false s)).kill_switch_active
          ≡ false =
        ap (λ (x : RiskState N). x.kill_switch_active)
          (if_false (is_date N s.trading_date d) (switched_on N "daily_loss_limit" false s)
            (reset_day N d (switched_on N "daily_loss_limit" false s)) other) in
      ap (λ (x : Gate N). (state_of N t.owner_id (enter_day N t.owner_id d x)).kill_switch_active)
        step
      ∙ ap (λ (x : RiskState N). x.kill_switch_active)
          (state_of-enter_day t.owner_id d after ∙ ap (λ (x : RiskState N). on_day N d x) switched)
      ∙ reset
