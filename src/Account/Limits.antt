-- ===== src/Account/Limits.antt =====
-- tw_quant/risk/account.py: the limits that hold when `AccountRiskGate.on_order` approves an entry.
use codex_tw_quant_trading_s.Base.{
  String, ℕ, ◌+◌, Bool, true, false, not, Option, none, some, List, [], ◌∷◌, ◌++◌, ◌≡◌, refl, sym,
  ap, ◌∙◌, inl, inr, Result, ok, raised, if◌then◌else◌, if_true, if_false, if_elim, Bool-cases,
  str_eq, str_eq_refl, length, All, arith,
}
use codex_tw_quant_trading_s.Base.Assoc.{get_item, get_item-set_item, set_item-new}
use codex_tw_quant_trading_s.Base.Int.{ℤ, pos, ◌+ℤ◌, leb_ℤ, ltb_ℤ, +ℤ_assoc, +ℤ_comm}
use codex_tw_quant_trading_s.Python.{Python}
use codex_tw_quant_trading_s.Events.{OrderIntent}
use codex_tw_quant_trading_s.Execution.Positions.{Ledger}
use codex_tw_quant_trading_s.Account.Access.{string_key, TradingAccess, resolve}
use codex_tw_quant_trading_s.Account.State.{
  Gate, RiskState, state_of, state_or_new, with_state, open_contracts, reserved_sum,
}
use codex_tw_quant_trading_s.Account.Controls.{Outcome, activate_kill_switch, reserve_entry}
use codex_tw_quant_trading_s.Account.Entries.{
  first_reason, refused, approval, gate_reasons, cooled, judge_risk, limit_reasons, unless_refused,
  judge_limits, refused_if_ok, judge_loss, judge_cooldown, judge_entry, Judged, in_cooldown,
  estimated_risk, has_stop_of,
}

module _ (N : Python) where
  pub state_of-with_state :
      (j k : String) (s : RiskState N) (g : Gate N)
      → state_of N j (with_state N k s g) ≡ (if str_eq k j then s else state_of N j g)
  unfolding state_of with_state
  state_of-with_state j k s g = elim (Bool-cases (str_eq k j)) [
    | inl here ↦
        ap (state_or_new N) (get_item-set_item j k s g.states ∙ if_true _ _ _ here)
        ∙ sym (if_true _ _ _ here)
    | inr away ↦
        ap (state_or_new N) (get_item-set_item j k s g.states ∙ if_false _ _ _ away)
        ∙ sym (if_false _ _ _ away)
  ]

  pub state_of-with_state_self :
      (k : String) (s : RiskState N) (g : Gate N) → state_of N k (with_state N k s g) ≡ s
  state_of-with_state_self k s g = state_of-with_state k k s g ∙ if_true _ _ _ (str_eq_refl k)

  pub reserved_sum-append :
      (es : List (String × ℤ)) (k : String) (q : ℤ)
      → reserved_sum N (es ++ (k, q) ∷ []) ≡ reserved_sum N es +ℤ q
  reserved_sum-append [] k q = +ℤ_comm q (pos 0)
  reserved_sum-append (e ∷ es) k q =
      ap (λ (t : ℤ). e.1 +ℤ t) (reserved_sum-append es k q)
      ∙ sym (+ℤ_assoc e.1 (reserved_sum N es) q)

  pub length-append_one :
      (es : List (String × ℤ)) (e : String × ℤ) → length (es ++ e ∷ []) ≡ length es + 1
  length-append_one [] e = omega arith
  length-append_one (x ∷ es) e = omega (arith, length-append_one es e)

  -- The account of an owner is within its limits, and its kill switch is off.
  pub record IsWithinLimits (owner : String) (l : Ledger N) (g : Gate N) : Type 0 where
    pub unhalted : (state_of N owner g).kill_switch_active ≡ false
    pub position :
        ltb_ℤ g.config.max_position_contracts
          (pos (open_contracts N owner l) +ℤ reserved_sum N (state_of N owner g).reserved_entries)
        ≡ false
    pub traded :
        ltb_ℤ g.config.max_trades_per_day
          (pos ((state_of N owner g).trades + length (state_of N owner g).reserved_entries))
        ≡ false

  -- An approval leaves the account within its limits.
  abbrev pub Approves : String → Ledger N → Judged N → Type 0
  Approves owner l (g, raised e) = Unit
  Approves owner l (g, ok v) = v.approved ≡ true → IsWithinLimits owner l g

  -- Without a reason each test was false.
  pub first_reason-none :
      (tests : List (Bool × String)) → first_reason tests ≡ none → All (λ c. c.0 ≡ false) tests
  first_reason-none [] h = tt
  first_reason-none ((true, r) ∷ rest) h = absurd (cc)
  first_reason-none ((false, r) ∷ rest) h = (refl, first_reason-none rest h)

  unless_refused-Approves :
      (owner : String) (l : Ledger N) (reason : Option String) (g : Gate N) (rest : Judged N)
      → (reason ≡ none → Approves owner l rest)
      → Approves owner l (unless_refused N reason g rest)
  unless_refused-Approves owner l none g rest h = h refl
  unless_refused-Approves owner l (some r) g rest h = λ e. absurd (cc)

  refused_if_ok-Approves :
      (owner : String) (l : Ledger N) (reason : String) (risk : Option N.float)
      (r : Outcome N (Unit {0}))
      → Approves owner l (refused_if_ok N (refused N reason risk) r)
  refused_if_ok-Approves owner l reason risk (g, raised e) = tt
  refused_if_ok-Approves owner l reason risk (g, ok _) = λ e. absurd (cc)

  one_more :
      (m : ℤ) (n : ℕ) (es : List (String × ℤ)) (e : String × ℤ)
      → leb_ℤ m (pos (n + length es)) ≡ false
      → ltb_ℤ m (pos (n + length (es ++ e ∷ []))) ≡ false
  one_more m n es e h = ground (arith, length-append_one es e)

  pub gate_reasons_kill :
      (a : Option TradingAccess) (s : RiskState N)
      → first_reason (gate_reasons N a s) ≡ none
      → s.kill_switch_active ≡ false
  gate_reasons_kill none s h = absurd (cc)
  gate_reasons_kill (some a) s h = (first_reason-none (gate_reasons N (some a) s) h).1.1.1.0

  module _ (owner : String) (o : OrderIntent N) (l : Ledger N) where
    -- What the reservation of an order that is not reserved makes of the state.
    reserved_after :
        (g : Gate N)
        → get_item o.order_id (state_of N owner g).reserved_entries ≡ none
        → state_of N owner (reserve_entry N owner o.order_id o.quantity g)
          ≡ record (state_of N owner g) {
            reserved_entries =
                (state_of N owner g).reserved_entries ++ (o.order_id, o.quantity) ∷ [];
          }
    unfolding reserve_entry
    reserved_after g h =
        state_of-with_state_self owner _ g
        ∙ ap (λ (es : List (String × ℤ)). record (state_of N owner g) { reserved_entries = es })
            (set_item-new o.order_id o.quantity (state_of N owner g).reserved_entries h)

    reserve_entry-IsWithinLimits :
        (g : Gate N)
        → get_item o.order_id (state_of N owner g).reserved_entries ≡ none
        → (state_of N owner g).kill_switch_active ≡ false
        → first_reason (limit_reasons N owner o l g) ≡ none
        → IsWithinLimits owner l (reserve_entry N owner o.order_id o.quantity g)
    unfolding reserve_entry with_state
    reserve_entry-IsWithinLimits g fresh unhalted limits =
        let s = state_of N owner g in
        let e = reserved_after g fresh in
        let tests = first_reason-none (limit_reasons N owner o l g) limits in
        record {
          unhalted = ap (λ (t : RiskState N). t.kill_switch_active) e ∙ unhalted;
          position =
              ap
                (λ (t : RiskState N).
                  ltb_ℤ g.config.max_position_contracts
                    (pos (open_contracts N owner l) +ℤ reserved_sum N t.reserved_entries))
                e
              ∙ ap (λ (q : ℤ). ltb_ℤ g.config.max_position_contracts q)
                  (ap (λ (q : ℤ). pos (open_contracts N owner l) +ℤ q)
                      (reserved_sum-append s.reserved_entries o.order_id o.quantity)
                    ∙ sym (+ℤ_assoc _ _ _))
              ∙ tests.1.0;
          traded =
              ap
                (λ (t : RiskState N).
                  ltb_ℤ g.config.max_trades_per_day (pos (t.trades + length t.reserved_entries)))
                e
              ∙ one_more g.config.max_trades_per_day s.trades s.reserved_entries
                  (o.order_id, o.quantity) tests.0;
        }

    abbrev accepted : Gate N → N.float → Judged N
    accepted g risk = (
      reserve_entry N owner o.order_id o.quantity g,
      ok (approval N o.quantity "approved" (some risk)),
    )

    judge_risk-Approves :
        (g : Gate N) (r : Result (Option N.float))
        → get_item o.order_id (state_of N owner g).reserved_entries ≡ none
        → (state_of N owner g).kill_switch_active ≡ false
        → first_reason (limit_reasons N owner o l g) ≡ none
        → Approves owner l (judge_risk N owner o g r)
    judge_risk-Approves g (raised e) fresh unhalted limits = tt
    judge_risk-Approves g (ok none) fresh unhalted limits = λ h. absurd (cc)
    judge_risk-Approves g (ok (some risk)) fresh unhalted limits =
        if_elim (Approves owner l) (not (has_stop_of N o o.reference_price))
          (g, ok (refused N "invalid_stop_direction" (some risk)))
          (if N.is_lt g.config.max_risk_per_trade risk
            then (g, ok (refused N "max_trade_risk_exceeded" (some risk)))
            else accepted g risk)
          (λ _ h. absurd (cc))
          (λ _.
            if_elim (Approves owner l) (N.is_lt g.config.max_risk_per_trade risk)
              (g, ok (refused N "max_trade_risk_exceeded" (some risk))) (accepted g risk)
              (λ _ h. absurd (cc)) (λ _ _. reserve_entry-IsWithinLimits g fresh unhalted limits))

    judge_loss-Approves :
        (g : Gate N)
        → get_item o.order_id (state_of N owner g).reserved_entries ≡ none
        → (state_of N owner g).kill_switch_active ≡ false
        → Approves owner l (judge_loss N owner o l g)
    judge_loss-Approves g fresh unhalted =
        if_elim (Approves owner l)
          (N.is_le (state_of N owner g).realized_pnl (N.negate g.config.max_daily_loss))
          (refused_if_ok N (refused N "daily_loss_limit" none)
            (activate_kill_switch N owner "daily_loss_limit" o.meta.occurred_at false g))
          (judge_limits N owner o l g)
          (λ _.
            refused_if_ok-Approves owner l "daily_loss_limit" none
              (activate_kill_switch N owner "daily_loss_limit" o.meta.occurred_at false g))
          (λ _.
            unless_refused-Approves owner l (first_reason (limit_reasons N owner o l g)) g
              (judge_risk N owner o g (estimated_risk N g.costs o.reference_price o))
              (λ limits.
                judge_risk-Approves g (estimated_risk N g.costs o.reference_price o) fresh unhalted
                  limits))

    judge_cooldown-Approves :
        (g : Gate N)
        → get_item o.order_id (state_of N owner g).reserved_entries ≡ none
        → (state_of N owner g).kill_switch_active ≡ false
        → Approves owner l (judge_cooldown N owner o l g)
    judge_cooldown-Approves g fresh unhalted =
        let s = state_of N owner g in
        let h = with_state N owner (cooled N s) g in
        let e = state_of-with_state_self owner (cooled N s) g in
        if_elim (Approves owner l) (in_cooldown N s.cooldown_until o.meta.occurred_at)
          (g, ok (refused N "loss_streak_cooldown" none)) (judge_loss N owner o l h)
          (λ _ k. absurd (cc))
          (λ _.
            judge_loss-Approves h
              (ap (λ (t : RiskState N). get_item o.order_id t.reserved_entries) e ∙ fresh)
              (ap (λ (t : RiskState N). t.kill_switch_active) e ∙ unhalted))

    pub judge_entry-Approves :
        (g : Gate N)
        → get_item o.order_id (state_of N owner g).reserved_entries ≡ none
        → Approves owner l (judge_entry N owner o l g)
    unfolding judge_entry
    judge_entry-Approves g fresh =
        let a = resolve owner g.access in
        unless_refused-Approves owner l (first_reason (gate_reasons N a (state_of N owner g))) g
          (judge_cooldown N owner o l g)
          (λ passed.
            judge_cooldown-Approves g fresh (gate_reasons_kill a (state_of N owner g) passed))
