-- ===== src/Account/Frame.antt =====
-- tw_quant/risk/account.py: what the operations of `AccountRiskGate` other than a reservation do to the
-- reserved entries.
use codex_tw_quant_trading_s.Base.{
  String, Bool, false, not, Option, none, List, [], ◌∷◌, ◌≡◌, refl, sym, ap, ◌∙◌, inl, inr, ok,
  raised, if◌then◌else◌, if_true, if_false, if_elim, Bool-cases, str_eq, str_eq_iff, subst,
  value_error, arith, is_empty,
}
use codex_tw_quant_trading_s.Base.Assoc.{get_item}
use codex_tw_quant_trading_s.Base.Int.{ℤ}
use codex_tw_quant_trading_s.Order.{Datetime}
use codex_tw_quant_trading_s.Python.{Python}
use codex_tw_quant_trading_s.Execution.Positions.{RealizedTrade}
use codex_tw_quant_trading_s.Account.Access.{string_key}
use codex_tw_quant_trading_s.Account.State.{
  Gate, RiskState, state_of, state_or_new, with_state, on_day, reset_day, enter_day, is_date,
  was_seen, date_or,
}
use codex_tw_quant_trading_s.Account.Controls.{Outcome, switched_on, activate_kill_switch, logged}
use codex_tw_quant_trading_s.Account.Trades.{
  scored, score_trade, halt_on_loss, see_trade, take_trade, take_trades, then_trades,
}
use codex_tw_quant_trading_s.Account.Limits.{state_of-with_state}

module _ (N : Python) where
  abbrev pub reservation : String → RiskState N → Option ℤ
  reservation k s = get_item k s.reserved_entries

  -- The second gate has seen the orders of the first and reserves nothing that the first did not.
  pub record Forgets (g h : Gate N) : Type 0 where
    pub seen : h.seen_order_ids ≡ g.seen_order_ids
    pub reserved :
        (owner k : String)
        → reservation k (state_of N owner g) ≡ none
        → reservation k (state_of N owner h) ≡ none

  pub Forgets-refl : (g : Gate N) → Forgets g g
  Forgets-refl g = record { seen = refl; reserved = λ owner k h. h }

  pub Forgets-trans : (f g h : Gate N) → Forgets f g → Forgets g h → Forgets f h
  Forgets-trans f g h a b = record {
    seen = b.seen ∙ a.seen;
    reserved = λ owner k e. b.reserved owner k (a.reserved owner k e);
  }

  -- Every order with a reservation has been seen.
  pub record IsTracked (g : Gate N) : Type 0 where
    pub unseen :
        (owner k : String)
        → was_seen N k g.seen_order_ids ≡ false
        → reservation k (state_of N owner g) ≡ none

  pub Forgets-IsTracked : (g h : Gate N) → Forgets g h → IsTracked g → IsTracked h
  Forgets-IsTracked g h f t = record {
    unseen = λ owner k e.
        f.reserved owner k
          (t.unseen owner k (ap (λ (ks : List String). was_seen N k ks) (sym f.seen) ∙ e));
  }

  pub same_states-Forgets :
      (g h : Gate N) → h.states ≡ g.states → h.seen_order_ids ≡ g.seen_order_ids → Forgets g h
  unfolding state_of
  same_states-Forgets g h states seen = record {
    seen = seen;
    reserved = λ owner k e.
        ap
          (λ (ss : List (String × RiskState N)). reservation k (state_or_new N (get_item owner ss)))
          states
        ∙ e;
  }

  pub with_state-Forgets :
      (owner : String) (s : RiskState N) (g : Gate N)
      → ((k : String) → reservation k (state_of N owner g) ≡ none → reservation k s ≡ none)
      → Forgets g (with_state N owner s g)
  unfolding with_state
  with_state-Forgets owner s g h = record {
    seen = refl;
    reserved = λ j k e. elim (Bool-cases (str_eq owner j)) [
      | inl here ↦
          ap (λ (t : RiskState N). reservation k t)
            (state_of-with_state N j owner s g ∙ if_true _ _ _ here)
          ∙ h k (
              subst (λ (i : String). reservation k (state_of N i g) ≡ none)
                (sym ((str_eq_iff owner j).0 here)) e)
      | inr away ↦
          ap (λ (t : RiskState N). reservation k t)
            (state_of-with_state N j owner s g ∙ if_false _ _ _ away)
          ∙ e
    ];
  }

  on_day_reserved :
      (d : ℤ) (s : RiskState N) (k : String)
      → reservation k s ≡ none
      → reservation k (on_day N d s) ≡ none
  unfolding on_day reset_day get_item
  on_day_reserved d s k h =
      if_elim (λ (t : RiskState N). reservation k t ≡ none) (is_date N s.trading_date d) s
        (reset_day N d s) (λ _. h) (λ _. refl)

  pub enter_day-Forgets : (owner : String) (d : ℤ) (g : Gate N) → Forgets g (enter_day N owner d g)
  unfolding enter_day
  enter_day-Forgets owner d g =
      with_state-Forgets owner (on_day N d (state_of N owner g)) g
        (on_day_reserved d (state_of N owner g))

  pub activate-Forgets :
      (owner reason : String) (at : Datetime) (manual : Bool) (g : Gate N)
      → Forgets g (activate_kill_switch N owner reason at manual g).0
  unfolding activate_kill_switch
  activate-Forgets owner reason at manual g =
      let s = switched_on N reason manual (state_of N owner g) in
      let h = with_state N owner s g in
      let done : Outcome N (Unit {0}) = (
        logged N
            (record {
              occurred_at = at;
              owner_id = owner;
              action = "kill_switch.activated";
              reason = reason;
            })
            h,
        ok tt,
      ) in
      let naive : Outcome N (Unit {0}) =
        (g, raised (value_error "kill switch time must be timezone-aware")) in
      if_elim (λ (r : Outcome N (Unit {0})). Forgets g r.0) (is_empty reason)
        (g, raised (value_error "kill switch reason is required"))
        (if not at.is_aware then naive else done) (λ _. Forgets-refl g)
        (λ _.
          if_elim (λ (r : Outcome N (Unit {0})). Forgets g r.0) (not at.is_aware) naive done
            (λ _. Forgets-refl g)
            (λ _.
              Forgets-trans g h done.0 (with_state-Forgets owner s g (λ k e. e))
                (same_states-Forgets h done.0 refl refl)))

  scored_reserved :
      (m n : ℤ) (t : RealizedTrade N) (s : RiskState N) (k : String)
      → reservation k s ≡ none
      → reservation k (scored N m n t s) ≡ none
  unfolding scored
  scored_reserved m n t s k h = ground (arith, h)

  halt-Forgets : (t : RealizedTrade N) (g : Gate N) → Forgets g (halt_on_loss N t g).0
  halt-Forgets t g =
      if_elim (λ (r : Outcome N (Unit {0})). Forgets g r.0)
        (N.is_le (state_of N t.owner_id g).realized_pnl (N.negate g.config.max_daily_loss))
        (activate_kill_switch N t.owner_id "daily_loss_limit" t.exit_time false g) (g, ok tt)
        (λ _. activate-Forgets t.owner_id "daily_loss_limit" t.exit_time false g)
        (λ _. Forgets-refl g)

  take_trade-Forgets : (t : RealizedTrade N) (g : Gate N) → Forgets g (take_trade N t g).0
  unfolding take_trade
  take_trade-Forgets t g =
      let seen = see_trade N t g in
      let day = enter_day N t.owner_id (date_or N t.trading_date t.exit_time) seen in
      let scored = score_trade N t day in
      if_elim (λ (r : Outcome N (Unit {0})). Forgets g r.0)
        (was_seen N t.exit_order_id g.seen_trade_order_ids) (g, ok tt) (halt_on_loss N t scored)
        (λ _. Forgets-refl g)
        (λ _. Forgets-trans g seen _ (same_states-Forgets g seen refl refl) (
          Forgets-trans seen day _
            (enter_day-Forgets t.owner_id (date_or N t.trading_date t.exit_time) seen)
            (Forgets-trans day scored _
              (with_state-Forgets t.owner_id _ day (
                scored_reserved day.config.max_consecutive_losses day.config.cooldown_minutes t
                  (state_of N t.owner_id day)))
              (halt-Forgets t scored))))

  then_trades-Forgets :
      (ts : List (RealizedTrade N)) (g : Gate N) (r : Outcome N (Unit {0}))
      → Forgets g r.0
      → ((h : Gate N) → Forgets h (take_trades N ts h).0)
      → Forgets g (then_trades N (take_trades N ts) r).0
  then_trades-Forgets ts g (h, raised e) f rest = f
  then_trades-Forgets ts g (h, ok _) f rest = Forgets-trans g h _ f (rest h)

  pub take_trades-Forgets :
      (ts : List (RealizedTrade N)) (g : Gate N) → Forgets g (take_trades N ts g).0
  unfolding take_trades
  take_trades-Forgets [] g = Forgets-refl g
  take_trades-Forgets (t ∷ ts) g =
      then_trades-Forgets ts g (take_trade N t g) (take_trade-Forgets t g) (take_trades-Forgets ts)
