-- ===== src/Account/Tracked.antt =====
-- tw_quant/risk/account.py: sequences of calls of `AccountRiskGate`, and the orders that have a
-- reservation along them.
use codex_tw_quant_trading_s.Base.{
  String, Bool, true, false, not, Option, none, some, List, [], ◌∷◌, ◌≡◌, refl, sym, ap, ◌∙◌, subst,
  inl, inr, Result, ok, raised, if◌then◌else◌, if_true, if_false, if_elim, clash, or-eq-false,
  Bool-cases, str_eq, str_eq_iff, str_eq_refl, ◌>>◌, is_empty, ◌||◌, value_error,
}
use codex_tw_quant_trading_s.Base.Assoc.{get_item, set_item, get_item-set_item, get_item-del_item}
use codex_tw_quant_trading_s.Base.Int.{ℤ, pos, leb_ℤ}
use codex_tw_quant_trading_s.Order.{Datetime}
use codex_tw_quant_trading_s.Python.{Python}
use codex_tw_quant_trading_s.Events.{
  OrderIntent, order_intent, OrderStatusEvent, order_status, FillEvent, fill, SessionEvent, session,
  RiskDecision, check_order_intent,
}
use codex_tw_quant_trading_s.Execution.Positions.{Ledger}
use codex_tw_quant_trading_s.Account.Access.{string_key, resolve}
use codex_tw_quant_trading_s.Account.State.{
  Gate, RiskState, state_of, state_or_new, with_state, enter_day, date_or, risk_owner, was_seen,
}
use codex_tw_quant_trading_s.Account.Controls.{
  Outcome, switched_off, activate_kill_switch, reset_kill_switch, logged, status_known,
  status_owned, on_order_status, unreserved, cleared, names_owner, on_session, reserve_entry,
  see_order, restore_owned, restore_reservation, snapshot,
}
use codex_tw_quant_trading_s.Account.Entries.{
  first_reason, Verdict, refused, approval, decide, checked_decision, record_decision, gate_reasons,
  limit_reasons, cooled, judge_risk, unless_refused, judge_limits, refused_if_ok, judge_loss,
  judge_cooldown, judge_entry, judge_exit, Judged, Decisions, after_verdict, day_of, new_order,
  owned_order, take_order, on_order, in_cooldown, estimated_risk, has_stop_of,
}
use codex_tw_quant_trading_s.Account.Trades.{
  on_fill, owned_fill, count_fill, recheck_before_fill, owned_refill, judge_refill, record_refill,
}
use codex_tw_quant_trading_s.Account.Limits.{state_of-with_state}
use codex_tw_quant_trading_s.Account.Frame.{
  reservation, Forgets, Forgets-refl, Forgets-trans, IsTracked, Forgets-IsTracked,
  same_states-Forgets, with_state-Forgets, enter_day-Forgets, activate-Forgets, take_trades-Forgets,
}

module _ (N : Python) where
  -- As `Forgets`, but for one order.
  record Reserves (id : String) (g h : Gate N) : Type 0 where
    seen : h.seen_order_ids ≡ g.seen_order_ids
    reserved :
        (owner k : String)
        → str_eq id k ≡ false
        → reservation N k (state_of N owner g) ≡ none
        → reservation N k (state_of N owner h) ≡ none

  Forgets-Reserves : (id : String) (g h : Gate N) → Forgets N g h → Reserves id g h
  Forgets-Reserves id g h f = record {
    seen = f.seen;
    reserved = λ owner k _ e. f.reserved owner k e;
  }

  Reserves-trans :
      (id : String) (f g h : Gate N) → Forgets N f g → Reserves id g h → Reserves id f h
  Reserves-trans id f g h a b = record {
    seen = b.seen ∙ a.seen;
    reserved = λ owner k other e. b.reserved owner k other (a.reserved owner k e);
  }

  -- An order that has been seen may be reserved.
  Reserves-IsTracked :
      (id : String) (g h : Gate N)
      → was_seen N id g.seen_order_ids ≡ true
      → Reserves id g h
      → IsTracked N g
      → IsTracked N h
  Reserves-IsTracked id g h known r t = record {
    unseen = λ owner k e.
        let e' : was_seen N k g.seen_order_ids ≡ false =
          ap (λ (ks : List String). was_seen N k ks) (sym r.seen) ∙ e in
        elim (Bool-cases (str_eq id k)) [
          | inl same ↦
              clash (was_seen N k g.seen_order_ids)
                (ap (λ (j : String). was_seen N j g.seen_order_ids) (sym ((str_eq_iff id k).0 same))
                  ∙ known)
                e'
          | inr other ↦ r.reserved owner k other (t.unseen owner k e')
        ];
  }

  see_order-IsTracked : (id : String) (g : Gate N) → IsTracked N g → IsTracked N (see_order N id g)
  unfolding state_of
  see_order-IsTracked id g t = record {
    unseen = λ owner k e. t.unseen owner k ((or-eq-false (str_eq k id) _ e).1);
  }

  with_state-Reserves :
      (id owner : String) (q : ℤ) (g : Gate N) → Reserves id g (reserve_entry N owner id q g)
  unfolding reserve_entry with_state
  with_state-Reserves id owner q g = record {
    seen = refl;
    reserved = λ j k other e.
        let s = state_of N owner g in
        let new : RiskState N = record s { reserved_entries = set_item id q s.reserved_entries } in
        elim (Bool-cases (str_eq owner j)) [
          | inl here ↦
              ap (λ (t : RiskState N). reservation N k t)
                (state_of-with_state N j owner new g ∙ if_true _ _ _ here)
              ∙ get_item-set_item k id q s.reserved_entries
              ∙ if_false _ _ _ other
              ∙ subst (λ (i : String). reservation N k (state_of N i g) ≡ none)
                  (sym ((str_eq_iff owner j).0 here)) e
          | inr away ↦
              ap (λ (t : RiskState N). reservation N k t)
                (state_of-with_state N j owner new g ∙ if_false _ _ _ away)
              ∙ e
        ];
  }

  decide-Forgets : (o : OrderIntent N) (v : Verdict N) (g : Gate N) → Forgets N g (decide N o v g).0
  unfolding decide
  decide-Forgets o v g = recorded (checked_decision N o v)
    where
      recorded : (r : Result (String × RiskDecision N)) → Forgets N g (record_decision N g r).0
      recorded (raised e) = Forgets-refl N g
      recorded (ok (owner, d)) = same_states-Forgets N g _ refl refl

  module _ (owner : String) (o : OrderIntent N) (l : Ledger N) where
    abbrev Kept : Gate N → Judged N → Type 0
    Kept g r = Reserves o.order_id g r.0

    Kept-same : (g : Gate N) (r : Result (Verdict N)) → Kept g (g, r)
    Kept-same g r = Forgets-Reserves o.order_id g g (Forgets-refl N g)

    judge_risk-Kept : (g : Gate N) (r : Result (Option N.float)) → Kept g (judge_risk N owner o g r)
    judge_risk-Kept g (raised e) = Kept-same g (raised e)
    judge_risk-Kept g (ok none) = Kept-same g (ok (refused N "stop_loss_required" none))
    judge_risk-Kept g (ok (some risk)) =
        let accepted : Judged N = (
          reserve_entry N owner o.order_id o.quantity g,
          ok (approval N o.quantity "approved" (some risk)),
        ) in
        let direction : Judged N = (g, ok (refused N "invalid_stop_direction" (some risk))) in
        let large : Judged N = (g, ok (refused N "max_trade_risk_exceeded" (some risk))) in
        if_elim (Kept g) (not (has_stop_of N o o.reference_price)) direction
          (if N.is_lt g.config.max_risk_per_trade risk then large else accepted)
          (λ _. Kept-same g direction.1)
          (λ _.
            if_elim (Kept g) (N.is_lt g.config.max_risk_per_trade risk) large accepted
              (λ _. Kept-same g large.1) (λ _. with_state-Reserves o.order_id owner o.quantity g))

    unless_refused-Kept :
        (reason : Option String) (g : Gate N) (rest : Judged N)
        → Kept g rest
        → Kept g (unless_refused N reason g rest)
    unless_refused-Kept none g rest h = h
    unless_refused-Kept (some reason) g rest h = Kept-same g (ok (refused N reason none))

    refused_if_ok-Kept :
        (v : Verdict N) (g : Gate N) (r : Outcome N (Unit {0}))
        → Forgets N g r.0
        → Kept g (refused_if_ok N v r)
    refused_if_ok-Kept v g (h, raised e) f = Forgets-Reserves o.order_id g h f
    refused_if_ok-Kept v g (h, ok _) f = Forgets-Reserves o.order_id g h f

    judge_loss-Kept : (g : Gate N) → Kept g (judge_loss N owner o l g)
    judge_loss-Kept g =
        if_elim (Kept g)
          (N.is_le (state_of N owner g).realized_pnl (N.negate g.config.max_daily_loss))
          (refused_if_ok N (refused N "daily_loss_limit" none)
            (activate_kill_switch N owner "daily_loss_limit" o.meta.occurred_at false g))
          (judge_limits N owner o l g)
          (λ _.
            refused_if_ok-Kept (refused N "daily_loss_limit" none) g _
              (activate-Forgets N owner "daily_loss_limit" o.meta.occurred_at false g))
          (λ _.
            unless_refused-Kept (first_reason (limit_reasons N owner o l g)) g _
              (judge_risk-Kept g (estimated_risk N g.costs o.reference_price o)))

    judge_entry-Kept : (g : Gate N) → Kept g (judge_entry N owner o l g)
    unfolding judge_entry
    judge_entry-Kept g =
        let s = state_of N owner g in
        let h = with_state N owner (cooled N s) g in
        let waiting : Judged N = (g, ok (refused N "loss_streak_cooldown" none)) in
        unless_refused-Kept (first_reason (gate_reasons N (resolve owner g.access) s)) g
          (judge_cooldown N owner o l g)
          (if_elim (Kept g) (in_cooldown N s.cooldown_until o.meta.occurred_at) waiting
            (judge_loss N owner o l h) (λ _. Kept-same g waiting.1)
            (λ _.
              Reserves-trans o.order_id g h _ (with_state-Forgets N owner (cooled N s) g (λ k e. e))
                (judge_loss-Kept h)))

    after_verdict-IsTracked :
        (g : Gate N) (r : Judged N)
        → was_seen N o.order_id g.seen_order_ids ≡ true
        → Kept g r
        → IsTracked N g
        → IsTracked N (after_verdict N o r).0
    after_verdict-IsTracked g (h, raised e) known k t = Reserves-IsTracked o.order_id g h known k t
    after_verdict-IsTracked g (h, ok v) known k t =
        Forgets-IsTracked N h _ (decide-Forgets o v h) (Reserves-IsTracked o.order_id g h known k t)

    new_order-IsTracked :
        (g : Gate N)
        → was_seen N o.order_id g.seen_order_ids ≡ true
        → IsTracked N g
        → IsTracked N (new_order N owner o l g).0
    new_order-IsTracked g known t =
        let day = enter_day N owner (day_of N o) g in
        let f = enter_day-Forgets N owner (day_of N o) g in
        if_elim (λ (r : Outcome N (Decisions N)). IsTracked N r.0) o.reduce_only
          (decide N o (judge_exit N owner o l) g) (after_verdict N o (judge_entry N owner o l day))
          (λ _. Forgets-IsTracked N g _ (decide-Forgets o (judge_exit N owner o l) g) t)
          (λ _.
            after_verdict-IsTracked day (judge_entry N owner o l day)
              (ap (λ (ks : List String). was_seen N o.order_id ks) f.seen ∙ known)
              (judge_entry-Kept day) (Forgets-IsTracked N g day f t))

  -- A call of the gate, with the ledger that it reads.
  pub data Call : Type 0 where
    order : OrderIntent N → Ledger N → Call
    refill : OrderIntent N → N.float → Datetime → Option String → Ledger N → Call
    status : OrderStatusEvent → Call
    filled : FillEvent N → Ledger N → Call
    session_change : SessionEvent → Call
    restore : OrderIntent N → ℤ → Call
    activate : String → String → Datetime → Bool → Call
    reset : String → Datetime → String → Call
    look : String → Ledger N → Call

  unfoldable pub after : Call → Gate N → Gate N
  after (order o l) g = (on_order N (order_intent o) l g).0
  after (refill o price at blocked l) g = (recheck_before_fill N o price at blocked l g).0
  after (status e) g = (on_order_status N (order_status e) g).0
  after (filled f l) g = (on_fill N (fill f) l g).0
  after (session_change e) g = (on_session N (session e) g).0
  after (restore o quantity) g = (restore_reservation N o quantity g).0
  after (activate owner reason at manual) g = (activate_kill_switch N owner reason at manual g).0
  after (reset owner at reason) g = (reset_kill_switch N owner at reason g).0
  after (look owner l) g = (snapshot N owner l g).0

  unfoldable pub after_all : List Call → Gate N → Gate N
  after_all [] g = g
  after_all (c ∷ cs) g = after_all cs (after c g)

  take_order-IsTracked :
      (o : OrderIntent N) (l : Ledger N) (g : Gate N) (r : Result String)
      → IsTracked N g
      → IsTracked N (owned_order N o l g r).0
  take_order-IsTracked o l g (raised e) t = t
  take_order-IsTracked o l g (ok owner) t =
      if_elim (λ (r : Outcome N (Decisions N)). IsTracked N r.0)
        (was_seen N o.order_id g.seen_order_ids) (decide N o (refused N "duplicate_order" none) g)
        (new_order N owner o l (see_order N o.order_id g))
        (λ _. Forgets-IsTracked N g _ (decide-Forgets o (refused N "duplicate_order" none) g) t)
        (λ _.
          new_order-IsTracked owner o l (see_order N o.order_id g)
            (ap (λ (b : Bool). b || was_seen N o.order_id g.seen_order_ids)
              (str_eq_refl o.order_id))
            (see_order-IsTracked o.order_id g t))

  count_fill-Forgets :
      (owner : String) (f : FillEvent N) (g : Gate N) → Forgets N g (count_fill N owner f g)
  count_fill-Forgets owner f g =
      let d = date_or N f.trading_date f.meta.occurred_at in
      Forgets-trans N g (enter_day N owner d g) _ (enter_day-Forgets N owner d g) (
        with_state-Forgets N owner _ (enter_day N owner d g) (λ k e.
          get_item-del_item k f.order_id (state_of N owner (enter_day N owner d g)).reserved_entries
            e))

  on_fill-Forgets :
      (f : FillEvent N) (l : Ledger N) (g : Gate N) (r : Result String)
      → Forgets N g (owned_fill N f l g r).0
  on_fill-Forgets f l g (raised e) = Forgets-refl N g
  on_fill-Forgets f l g (ok owner) =
      Forgets-trans N g (count_fill N owner f g) _ (count_fill-Forgets owner f g)
        (take_trades-Forgets N l.trades (count_fill N owner f g))

  status_known-Forgets :
      (e : OrderStatusEvent) (g : Gate N) (owner : String) (o : Option (RiskState N))
      → get_item owner g.states ≡ o
      → Forgets N g (status_known N e g owner o)
  unfolding state_of
  status_known-Forgets e g owner none h = Forgets-refl N g
  status_known-Forgets e g owner (some s) h =
      with_state-Forgets N owner (unreserved N e.order_id s) g (λ k absent.
        get_item-del_item k e.order_id s.reserved_entries
          (ap (λ (x : Option (RiskState N)). reservation N k (state_or_new N x)) (sym h) ∙ absent))

  status-Forgets :
      (e : OrderStatusEvent) (g : Gate N) (r : Result String) → Forgets N g (status_owned N e g r).0
  status-Forgets e g (raised x) = Forgets-refl N g
  status-Forgets e g (ok owner) = status_known-Forgets e g owner (get_item owner g.states) refl

  refill-Forgets :
      (o : OrderIntent N) (price : N.float) (at : Datetime) (blocked : Option String) (l : Ledger N)
      (g : Gate N) (r : Result String)
      → Forgets N g (owned_refill N o price at blocked l g r).0
  refill-Forgets o price at blocked l g (raised x) = Forgets-refl N g
  refill-Forgets o price at blocked l g (ok owner) =
      let day = enter_day N owner (day_of N o) g in
      Forgets-trans N g day _ (enter_day-Forgets N owner (day_of N o) g) (
        judged
          (check_order_intent N (record o { reference_price = price })
            >> estimated_risk N g.costs price o)
          owner day)
    where
      recorded :
          (owner : String) (h : Gate N) (r : Result (RiskDecision N))
          → Forgets N h (record_refill N owner h r).0
      recorded owner h (raised e) = Forgets-refl N h
      recorded owner h (ok d) = same_states-Forgets N h _ refl refl

      judged :
          (r : Result (Option N.float)) (owner : String) (h : Gate N)
          → Forgets N h (judge_refill N owner o price at blocked l h r).0
      judged (raised e) owner h = Forgets-refl N h
      judged (ok risk) owner h = recorded owner h _

  -- The reservation and the note of the order may come in either order.
  reserve_entry-Reserves :
      (id owner : String) (q : ℤ) (g : Gate N)
      → Reserves id (see_order N id g) (see_order N id (reserve_entry N owner id q g))
  unfolding reserve_entry with_state state_of
  reserve_entry-Reserves id owner q g = with_state-Reserves id owner q (see_order N id g)

  restore-IsTracked :
      (o : OrderIntent N) (q : ℤ) (g : Gate N) (r : Result String)
      → IsTracked N g
      → IsTracked N (restore_owned N o q g r).0
  restore-IsTracked o q g (raised x) t = t
  restore-IsTracked o q g (ok owner) t =
      let d = date_or N o.trading_date o.meta.occurred_at in
      let day = enter_day N owner d g in
      let seen = see_order N o.order_id day in
      Reserves-IsTracked o.order_id seen
        (see_order N o.order_id (reserve_entry N owner o.order_id q day))
        (ap (λ (b : Bool). b || was_seen N o.order_id day.seen_order_ids) (str_eq_refl o.order_id))
        (reserve_entry-Reserves o.order_id owner q day)
        (see_order-IsTracked o.order_id day
          (Forgets-IsTracked N g day (enter_day-Forgets N owner d g) t))

  reset-Forgets :
      (owner : String) (at : Datetime) (reason : String) (g : Gate N)
      → Forgets N g (reset_kill_switch N owner at reason g).0
  unfolding reset_kill_switch
  reset-Forgets owner at reason g =
      let h = with_state N owner (switched_off N (state_of N owner g)) g in
      let done : Outcome N (Unit {0}) = (
        logged N
            (record {
              occurred_at = at;
              owner_id = owner;
              action = "kill_switch.reset";
              reason = reason;
            })
            h,
        ok tt,
      ) in
      let blank : Outcome N (Unit {0}) =
        (g, raised (value_error "kill switch reset reason is required")) in
      if_elim (λ (r : Outcome N (Unit {0})). Forgets N g r.0) (not at.is_aware)
        (g, raised (value_error "kill switch time must be timezone-aware"))
        (if is_empty reason then blank else done) (λ _. Forgets-refl N g)
        (λ _.
          if_elim (λ (r : Outcome N (Unit {0})). Forgets N g r.0) (is_empty reason) blank done
            (λ _. Forgets-refl N g)
            (λ _.
              Forgets-trans N g h done.0
                (with_state-Forgets N owner (switched_off N (state_of N owner g)) g (λ k e. e))
                (same_states-Forgets N h done.0 refl refl)))

  cleared_reserved :
      (o : Option String) (owner k : String) (ss : List (String × RiskState N))
      → reservation N k (state_or_new N (get_item owner ss)) ≡ none
      → reservation N k (state_or_new N (get_item owner (cleared N o ss))) ≡ none
  unfolding get_item
  cleared_reserved o owner k [] h = h
  cleared_reserved o owner k ((j, s) ∷ ss) h =
      let r = λ (x : Option (RiskState N)). reservation N k (state_or_new N x) in
      if_elim (λ (x : Option (RiskState N)). r x ≡ none) (str_eq j owner)
        (some (if names_owner N o j then record s { reserved_entries = [] } else s))
        (get_item owner (cleared N o ss))
        (λ here.
          if_elim (λ (t : RiskState N). reservation N k t ≡ none) (names_owner N o j)
            (record s { reserved_entries = [] }) s (λ _. refl)
            (λ _. ap r (sym (if_true _ _ _ here)) ∙ h))
        (λ away. cleared_reserved o owner k ss (ap r (sym (if_false _ _ _ away)) ∙ h))

  session-Forgets : (e : SessionEvent) (g : Gate N) → Forgets N g (on_session N (session e) g).0
  unfolding on_session state_of
  session-Forgets e g =
      if_elim (λ (r : Outcome N (Unit {0})). Forgets N g r.0)
        (str_eq e.action "closing" || str_eq e.action "closed")
        (record g { states = cleared N e.meta.owner_id g.states }, ok tt) (g, ok tt)
        (λ _. record {
          seen = refl;
          reserved = λ owner k h. cleared_reserved e.meta.owner_id owner k g.states h;
        })
        (λ _. Forgets-refl N g)

  after-IsTracked : (c : Call) (g : Gate N) → IsTracked N g → IsTracked N (after c g)
  unfolding after on_order take_order on_fill on_order_status recheck_before_fill
      restore_reservation snapshot
  after-IsTracked (order o l) g t = take_order-IsTracked o l g (risk_owner N (order_intent o)) t
  after-IsTracked (refill o price at blocked l) g t =
      Forgets-IsTracked N g _
        (refill-Forgets o price at blocked l g (risk_owner N (order_intent o))) t
  after-IsTracked (status e) g t =
      Forgets-IsTracked N g _ (status-Forgets e g (risk_owner N (order_status e))) t
  after-IsTracked (filled f l) g t =
      Forgets-IsTracked N g _ (on_fill-Forgets f l g (risk_owner N (fill f))) t
  after-IsTracked (session_change e) g t = Forgets-IsTracked N g _ (session-Forgets e g) t
  after-IsTracked (restore o q) g t =
      if_elim (λ (r : Outcome N (Unit {0})). IsTracked N r.0) (o.reduce_only || leb_ℤ q (pos 0))
        (g, ok tt) (restore_owned N o q g (risk_owner N (order_intent o))) (λ _. t)
        (λ _. restore-IsTracked o q g (risk_owner N (order_intent o)) t)
  after-IsTracked (activate owner reason at manual) g t =
      Forgets-IsTracked N g _ (activate-Forgets N owner reason at manual g) t
  after-IsTracked (reset owner at reason) g t =
      Forgets-IsTracked N g _ (reset-Forgets owner at reason g) t
  after-IsTracked (look owner l) g t =
      Forgets-IsTracked N g _ (with_state-Forgets N owner (state_of N owner g) g (λ k e. e)) t

  -- Along any calls from a gate of which the same holds, every order with a reservation has been seen.
  pub after_all-IsTracked :
      (cs : List Call) (g : Gate N) → IsTracked N g → IsTracked N (after_all cs g)
  unfolding after_all
  after_all-IsTracked [] g t = t
  after_all-IsTracked (c ∷ cs) g t = after_all-IsTracked cs (after c g) (after-IsTracked c g t)
