-- ===== src/Account/Reducing.antt =====
-- tw_quant/risk/account.py: the quantity for which `AccountRiskGate.on_order` approves an order that
-- only reduces.
use codex_tw_quant_trading_s.Base.{
  String, true, false, ◌&&◌, ◌||◌, none, List, [], ◌∷◌, ◌++◌, ◌≡◌, refl, sym, ap, ◌∙◌, subst, inl,
  inr, Result, ok, raised, ok-injective, if◌then◌else◌, if_true, if_false, if_elim, ◌⊎◌, All,
  Bool-cases, clash, str_eq, str_eq_iff, arith,
}
use codex_tw_quant_trading_s.Base.Int.{ℤ, pos, neg, abs, leb_ℤ, ltb_ℤ, eqb_ℤ, eqb_ℤ-eq, ◌≤ℤ◌}
use codex_tw_quant_trading_s.Python.{Python}
use codex_tw_quant_trading_s.Events.{Metadata, OrderIntent, order_intent, RiskDecision}
use codex_tw_quant_trading_s.Execution.Positions.{PositionState, Ledger}
use codex_tw_quant_trading_s.Execution.Ledger.{open_positions}
use codex_tw_quant_trading_s.Account.State.{Gate, was_seen, risk_owner}
use codex_tw_quant_trading_s.Account.Controls.{Outcome, see_order}
use codex_tw_quant_trading_s.Account.Entries.{
  Verdict, refused, approval, judge_entry, judge_exit, checked_decision, record_decision,
  decision_of, decide, new_order, owned_order, take_order, on_order, Decisions, is_position_of,
  closes_position, reducing_quantity, after_verdict, day_of,
}
use codex_tw_quant_trading_s.Account.State.{enter_day}
use codex_tw_quant_trading_s.Account.Approvals.{checked_decision-is}

module _ (N : Python) where
  -- The order, for this quantity, takes from the position and not beyond 0.
  pub record IsReduction (owner : String) (o : OrderIntent N) (q : ℤ) (p : PositionState N)
      : Type 0 where
    pub same_owner : p.key.owner_id ≡ owner
    pub same_strategy : p.key.strategy_id ≡ o.strategy_id
    pub same_version : p.key.strategy_version ≡ o.strategy_version
    pub same_symbol : p.key.symbol ≡ o.symbol
    pub same_contract : p.key.contract ≡ o.contract
    pub opposite :
        ((o.side ≡ "sell") × (pos 1 ≤ℤ p.quantity))
        ⊎ ((o.side ≡ "buy") × (p.quantity ≤ℤ neg (pos 1)))
    pub asked : q ≤ℤ o.quantity
    pub held : q ≤ℤ pos (abs p.quantity)

  -- One of the positions is reduced.
  abbrev pub Reduces : String → OrderIntent N → List (PositionState N) → ℤ → Type 0
  Reduces owner o ps q =
      (p : PositionState N) × (before : List (PositionState N)) × (after : List (PositionState N))
      × (ps ≡ before ++ p ∷ after)
      × IsReduction owner o q p

  opposite_side :
      (side : String) (q : ℤ)
      → (ltb_ℤ (pos 0) q && str_eq side "sell") || (ltb_ℤ q (pos 0) && str_eq side "buy") ≡ true
      → ((side ≡ "sell") × (pos 1 ≤ℤ q)) ⊎ ((side ≡ "buy") × (q ≤ℤ neg (pos 1)))
  opposite_side side q h = elim (Bool-cases (str_eq side "sell")) [
    | inl sell ↦ elim (Bool-cases (ltb_ℤ (pos 0) q)) [
      | inl long ↦ inl ((str_eq_iff side "sell").0 sell, ground (arith, long))
      | inr short ↦
          inr ((str_eq_iff side "buy").0 (ground (arith, h, short)), ground (arith, h, short))
    ]
    | inr other ↦
        inr ((str_eq_iff side "buy").0 (ground (arith, h, other)), ground (arith, h, other))
  ]

  found-IsReduction :
      (owner : String) (o : OrderIntent N) (p : PositionState N)
      → is_position_of N owner o p && closes_position N o p ≡ true
      → IsReduction owner o
          (if leb_ℤ (pos (abs p.quantity)) o.quantity then pos (abs p.quantity) else o.quantity)
          p
  found-IsReduction owner o p h = record {
    same_owner = (str_eq_iff p.key.owner_id owner).0 (ground (arith, h));
    same_strategy = (str_eq_iff p.key.strategy_id o.strategy_id).0 (ground (arith, h));
    same_version = eqb_ℤ-eq p.key.strategy_version o.strategy_version (ground (arith, h));
    same_symbol = (str_eq_iff p.key.symbol o.symbol).0 (ground (arith, h));
    same_contract = (str_eq_iff p.key.contract o.contract).0 (ground (arith, h));
    opposite = opposite_side o.side p.quantity (ground (arith, h));
    asked = ground arith;
    held = ground arith;
  }

  reducing_quantity-Reduces :
      (owner : String) (o : OrderIntent N) (ps : List (PositionState N))
      → (reducing_quantity N owner o ps ≡ pos 0)
        ⊎ Reduces owner o ps (reducing_quantity N owner o ps)
  unfolding reducing_quantity
  reducing_quantity-Reduces owner o [] = inl refl
  reducing_quantity-Reduces owner o (p ∷ ps) =
      elim (Bool-cases (is_position_of N owner o p && closes_position N o p)) [
        | inl here ↦ inr (
          p,
          [],
          ps,
          refl,
          subst (λ (q : ℤ). IsReduction owner o q p) (sym (if_true _ _ _ here))
              (found-IsReduction owner o p here),
        )
        | inr away ↦ elim (reducing_quantity-Reduces owner o ps) [
          | inl nothing ↦ inl (if_false _ _ _ away ∙ nothing)
          | inr (r, before, after, split, reduces) ↦ inr (
            r,
            p ∷ before,
            after,
            ap (λ (l : List (PositionState N)). p ∷ l) split,
            subst (λ (q : ℤ). IsReduction owner o q r) (sym (if_false _ _ _ away)) reduces,
          )
        ]
      ]

  decide-All :
      (P : RiskDecision N → Type 0) (o : OrderIntent N) (v : Verdict N) (g : Gate N)
      (ds : Decisions N)
      → ((m : Metadata) → P (decision_of N o v m))
      → (decide N o v g).1 ≡ ok ds
      → All P ds
  unfolding decide
  decide-All P o v g ds each = recorded (checked_decision N o v) refl
    where
      recorded :
          (r : Result (String × RiskDecision N))
          → checked_decision N o v ≡ r
          → (record_decision N g r).1 ≡ ok ds
          → All P ds
      recorded (raised e) k h = absurd (cc h)
      recorded (ok (owner, d)) k h =
          let (m, same) = checked_decision-is N o v (owner, d) k in
          subst (All P) (ok-injective h) (subst P same (each m), tt)

  -- A decision that refuses, or one for a quantity that reduces.
  abbrev pub IsSafeReduction : String → OrderIntent N → Ledger N → RiskDecision N → Type 0
  IsSafeReduction owner o l d =
      (d.approved ≡ false) ⊎ Reduces owner o (open_positions N l) d.approved_quantity

  judge_exit-safe :
      (owner : String) (o : OrderIntent N) (l : Ledger N) (m : Metadata)
      → IsSafeReduction owner o l (decision_of N o (judge_exit N owner o l) m)
  unfolding judge_exit
  judge_exit-safe owner o l m =
      let q = reducing_quantity N owner o (open_positions N l) in
      if_elim (λ (v : Verdict N). IsSafeReduction owner o l (decision_of N o v m)) (eqb_ℤ q (pos 0))
        (refused N "reduce_only_position_unavailable" none)
        (approval N q "risk_reducing_approved" none) (λ _. inl refl)
        (λ some_left. elim (reducing_quantity-Reduces owner o (open_positions N l)) [
          | inl nothing ↦
              clash (eqb_ℤ q (pos 0)) (subst (λ (z : ℤ). eqb_ℤ z (pos 0) ≡ true) (sym nothing) refl)
                some_left
          | inr reduces ↦ inr reduces
        ])

  -- If `on_order` answers an order that only reduces, then each decision refuses it, or approves it for a
  -- quantity that is no more than the order asks for, and no more than what an open position of the same
  -- owner, strategy, version, symbol and contract, on the other side, holds.
  pub reducing_approval :
      (owner : String) (o : OrderIntent N) (l : Ledger N) (g : Gate N) (ds : Decisions N)
      → o.reduce_only ≡ true
      → risk_owner N (order_intent o) ≡ ok owner
      → (on_order N (order_intent o) l g).1 ≡ ok ds
      → All (IsSafeReduction owner o l) ds
  unfolding on_order take_order
  reducing_approval owner o l g ds reduces owned answer =
      let P = λ (r : Outcome N (Decisions N)). r.1 ≡ ok ds → All (IsSafeReduction owner o l) ds in
      let seen = see_order N o.order_id g in
      if_elim P (was_seen N o.order_id g.seen_order_ids)
        (decide N o (refused N "duplicate_order" none) g) (new_order N owner o l seen)
        (λ _.
          decide-All (IsSafeReduction owner o l) o (refused N "duplicate_order" none) g ds
            (λ m. inl refl))
        (λ _.
          subst P
            (sym (
              if_true o.reduce_only (decide N o (judge_exit N owner o l) seen)
                (after_verdict N o (judge_entry N owner o l (enter_day N owner (day_of N o) seen)))
                reduces))
            (decide-All (IsSafeReduction owner o l) o (judge_exit N owner o l) seen ds
              (judge_exit-safe owner o l)))
        (sym (ap (λ (r : Result String). (owned_order N o l g r).1) owned) ∙ answer)
