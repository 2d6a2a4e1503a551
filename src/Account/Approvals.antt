-- ===== src/Account/Approvals.antt =====
-- tw_quant/risk/account.py: what the approvals of `AccountRiskGate.on_order` guarantee.
use codex_tw_quant_trading_s.Base.{
  String, true, false, none, List, ◌≡◌, refl, sym, ap, ◌∙◌, subst, Result, ok, raised, ok-injective,
  >>=-eq-ok, ◌>>=◌, ◌>>◌, if_false, if_elim, All,
}
use codex_tw_quant_trading_s.Base.Assoc.{get_item}
use codex_tw_quant_trading_s.Python.{Python}
use codex_tw_quant_trading_s.Events.{
  OrderIntent, order_intent, RiskDecision, Metadata, check_risk_decision,
}
use codex_tw_quant_trading_s.Execution.Positions.{Ledger}
use codex_tw_quant_trading_s.Account.Access.{Registry, string_key}
use codex_tw_quant_trading_s.Account.Costs.{CostConfig}
use codex_tw_quant_trading_s.Account.State.{
  Gate, AccountRiskConfig, new_gate, state_of, enter_day, risk_owner, was_seen,
}
use codex_tw_quant_trading_s.Account.Controls.{Outcome, see_order}
use codex_tw_quant_trading_s.Account.Entries.{
  Verdict, refused, decide, checked_decision, record_decision, decision_metadata, judge_entry,
  judge_exit, Judged, Decisions, after_verdict, day_of, new_order, owned_order, take_order,
  on_order, decision_of, audited,
}
use codex_tw_quant_trading_s.Account.Limits.{IsWithinLimits, Approves, judge_entry-Approves}
use codex_tw_quant_trading_s.Account.Frame.{enter_day-Forgets, IsTracked}
use codex_tw_quant_trading_s.Account.Tracked.{Call, after_all, after_all-IsTracked}

module _ (N : Python) where
  -- A property of the gate after each approved decision.
  abbrev pub Promises {ℓ} : (Gate N → Type ℓ) → Outcome N (Decisions N) → Type ℓ
  Promises P (g, raised e) = Unit
  Promises P (g, ok ds) = All (λ (d : RiskDecision N). d.approved ≡ true → P g) ds

  pub Promises-ok {ℓ} :
      (P : Gate N → Type ℓ) (r : Outcome N (Decisions N)) (ds : Decisions N)
      → Promises P r
      → r.1 ≡ ok ds
      → All (λ (d : RiskDecision N). d.approved ≡ true → P r.0) ds
  Promises-ok P (g, raised e) ds p h = absurd (cc)
  Promises-ok P (g, ok es) ds p h =
      subst (λ (xs : Decisions N). All (λ (d : RiskDecision N). d.approved ≡ true → P g) xs)
        (ok-injective h) p

  pub checked_decision-is :
      (o : OrderIntent N) (v : Verdict N) (p : String × RiskDecision N)
      → checked_decision N o v ≡ ok p
      → (m : Metadata) × (decision_of N o v m ≡ p.1)
  checked_decision-is o v p h =
      let decided = λ (m : Metadata) (owner : String).
        let r : Result (String × RiskDecision N) = ok (owner, decision_of N o v m) in r in
      let owned = λ (m : Metadata). risk_owner N (order_intent o) >>= decided m in
      let (m, _, h1) =
        >>=-eq-ok (decision_metadata N o v.reason)
          (λ (m : Metadata). check_risk_decision N (decision_of N o v m) >> owned m) h in
      let (_, _, h2) = >>=-eq-ok (check_risk_decision N (decision_of N o v m)) (λ _. owned m) h1 in
      let (owner, _, h3) = >>=-eq-ok (risk_owner N (order_intent o)) (decided m) h2 in
      (m, ap (λ (q : String × RiskDecision N). q.1) (ok-injective h3))

  checked_decision-approved :
      (o : OrderIntent N) (v : Verdict N) (p : String × RiskDecision N)
      → checked_decision N o v ≡ ok p
      → p.1.approved ≡ v.approved
  checked_decision-approved o v p h =
      let (m, same) = checked_decision-is o v p h in
      ap (λ (d : RiskDecision N). d.approved) (sym same)

  -- A decision is approved as its verdict is.
  pub decide-Promises {ℓ} :
      (P : Gate N → Type ℓ) (o : OrderIntent N) (v : Verdict N) (g : Gate N)
      → (v.approved ≡ true → (owner : String) (d : RiskDecision N) → P (audited N owner d g))
      → Promises P (decide N o v g)
  unfolding decide
  decide-Promises P o v g h = recorded (checked_decision N o v) refl
    where
      recorded :
          (r : Result (String × RiskDecision N))
          → checked_decision N o v ≡ r
          → Promises {ℓ} P (record_decision N g r)
      recorded (raised e) k = tt
      recorded (ok (owner, d)) k =
          (λ approved. h (sym (checked_decision-approved o v (owner, d) k) ∙ approved) owner d, tt)

  audited-IsWithinLimits :
      (owner : String) (l : Ledger N) (g : Gate N) (who : String) (d : RiskDecision N)
      → IsWithinLimits N owner l g
      → IsWithinLimits N owner l (audited N who d g)
  unfolding state_of
  audited-IsWithinLimits owner l g who d w = record {
    unhalted = w.unhalted;
    position = w.position;
    traded = w.traded;
  }

  after_verdict-Promises :
      (owner : String) (o : OrderIntent N) (l : Ledger N) (r : Judged N)
      → Approves N owner l r
      → Promises (IsWithinLimits N owner l) (after_verdict N o r)
  after_verdict-Promises owner o l (g, raised e) a = tt
  after_verdict-Promises owner o l (g, ok v) a =
      decide-Promises (IsWithinLimits N owner l) o v g
        (λ h who d. audited-IsWithinLimits owner l g who d (a h))

  owned_order-Promises :
      (owner : String) (o : OrderIntent N) (l : Ledger N) (g : Gate N)
      → IsTracked N g
      → o.reduce_only ≡ false
      → Promises (IsWithinLimits N owner l) (owned_order N o l g (ok owner))
  unfolding state_of
  owned_order-Promises owner o l g t entry =
      let P = Promises (IsWithinLimits N owner l) in
      let seen = see_order N o.order_id g in
      let day = enter_day N owner (day_of N o) seen in
      if_elim P (was_seen N o.order_id g.seen_order_ids)
        (decide N o (refused N "duplicate_order" none) g) (new_order N owner o l seen)
        (λ _.
          decide-Promises (IsWithinLimits N owner l) o (refused N "duplicate_order" none) g
            (λ h. absurd (cc)))
        (λ new.
          subst P
            (sym (
              if_false o.reduce_only (decide N o (judge_exit N owner o l) seen)
                (after_verdict N o (judge_entry N owner o l day)) entry))
            (after_verdict-Promises owner o l (judge_entry N owner o l day) (
              judge_entry-Approves N owner o l day (
                (enter_day-Forgets N owner (day_of N o) seen).reserved owner o.order_id
                  (t.unseen owner o.order_id new)))))

  new_gate-IsTracked :
      (a : Registry) (c : AccountRiskConfig N) (k : CostConfig N) → IsTracked N (new_gate N a c k)
  unfolding state_of get_item
  new_gate-IsTracked a c k = record { unseen = λ owner j h. refl }

  -- From a new gate, after any calls: if `on_order` answers an entry, then wherever it approves it the
  -- owner's kill switch is off, and the open contracts with all reservations, the order's included, and
  -- the trades with the number of reservations are within their limits.
  pub entry-IsWithinLimits :
      (a : Registry) (c : AccountRiskConfig N) (k : CostConfig N) (calls : List (Call N))
      (owner : String) (o : OrderIntent N) (l : Ledger N) (ds : Decisions N)
      → o.reduce_only ≡ false
      → risk_owner N (order_intent o) ≡ ok owner
      → (on_order N (order_intent o) l (after_all N calls (new_gate N a c k))).1 ≡ ok ds
      → All
          (λ d.
            d.approved ≡ true
            → IsWithinLimits N owner l
                (on_order N (order_intent o) l (after_all N calls (new_gate N a c k))).0)
          ds
  unfolding on_order take_order
  entry-IsWithinLimits a c k calls owner o l ds entry owned answer =
      let g = after_all N calls (new_gate N a c k) in
      let t = after_all-IsTracked N calls (new_gate N a c k) (new_gate-IsTracked a c k) in
      Promises-ok (IsWithinLimits N owner l) (owned_order N o l g (risk_owner N (order_intent o)))
        ds
        (subst (λ (r : Result String). Promises (IsWithinLimits N owner l) (owned_order N o l g r))
          (sym owned) (owned_order-Promises owner o l g t entry))
        answer
