-- ===== src/Execution/Routing.antt =====
-- tw_quant/execution/signal_router.py: what the intent of an exit signal does to its position.
use codex_tw_quant_trading_s.Base.{
  String, zero, suc, Bool, true, false, not, Option, none, some, List, [], ◌∷◌, ◌≡◌, refl, sym, ap,
  ◌∙◌, subst, Result, ok, ok-injective, some-injective, >>=-eq-ok, ◌>>=◌, ◌>>◌, raise_if,
  value_error, if◌then◌else◌, if_false, if_true, if_elim, str_eq, All, All-middle, is_empty, raised,
  raise_if-ok, Error, ◌++◌, arith,
}
use codex_tw_quant_trading_s.Base.Int.{ℤ, pos, negsuc, neg, abs, ◌+ℤ◌, ltb_ℤ, eqb_ℤ}
use codex_tw_quant_trading_s.Python.{Python}
use codex_tw_quant_trading_s.Events.{
  Metadata, signal, SignalEvent, OrderIntent, check_order_intent, FillEvent, fill, create_metadata,
  check_metadata, deterministic_event_id,
}
use codex_tw_quant_trading_s.Execution.Positions.{PositionState, Ledger, same_position_iff}
use codex_tw_quant_trading_s.Execution.Ledger.{
  owner_of, state, key_of, signed_fill, is_seen, on_fill,
}
use codex_tw_quant_trading_s.Execution.Replay.{
  share_of_key, quantity_in, quantity_at, amount, take_fill_quantity,
}
use codex_tw_quant_trading_s.Execution.Router.{
  Plan, Router, exit_plan, plan_exit, signal_key, plan_signal, routed_intent, answer_metadata,
  build_planned, on_signal,
}

module _ (N : Python) where
  -- The signed quantity of a side.
  abbrev pub signed_order : OrderIntent N → ℤ
  signed_order o = if str_eq o.side "buy" then o.quantity else neg o.quantity

  -- A plan closes a position exactly.
  abbrev Closes : PositionState N → Plan → Type 0
  Closes s p =
      (s.quantity +ℤ (if str_eq p.side "buy" then p.quantity else neg p.quantity) ≡ pos 0)
      × (p.reduce_only ≡ true)

  closing_side :
      (b : Bool) (x y : ℤ)
      → (if str_eq (if b then "sell" else "buy") "buy" then x else y) ≡ (if b then y else x)
  closing_side true x y = refl
  closing_side false x y = refl

  closing_sum : (q : ℤ) → q +ℤ (if ltb_ℤ (pos 0) q then neg (pos (abs q)) else pos (abs q)) ≡ pos 0
  unfolding ◌+ℤ◌
  closing_sum (pos zero) = refl
  closing_sum (pos (suc n)) = ground arith
  closing_sum (negsuc n) = ground arith

  exit_plan-Closes : (s : PositionState N) → Closes s (exit_plan N s)
  exit_plan-Closes s = (
    ap (λ (t : ℤ). s.quantity +ℤ t)
          (closing_side (ltb_ℤ (pos 0) s.quantity) (pos (abs s.quantity))
            (neg (pos (abs s.quantity))))
        ∙ closing_sum s.quantity,
    refl,
  )

  plan_exit-Closes :
      (e : SignalEvent N) (found : Option (PositionState N)) (p : Plan)
      → plan_exit N e found ≡ ok (some p)
      → (s : PositionState N) × (found ≡ some s) × Closes s p
  unfolding plan_exit
  plan_exit-Closes e none p h = absurd (cc)
  plan_exit-Closes e (some s) p h =
      let wrong = not (str_eq (if ltb_ℤ (pos 0) s.quantity then "long" else "short") e.direction) in
      let refusal = value_error "exit signal direction does not match the open position" in
      let planned : Result (Option Plan) = ok (some (exit_plan N s)) in
      if_elim
        (λ (r : Result (Option Plan)).
          r ≡ ok (some p) → (t : PositionState N) × (some s ≡ some t) × Closes t p)
        (eqb_ℤ s.quantity (pos 0)) (ok none) (raise_if wrong refusal >> planned)
        (λ _ k. absurd (cc))
        (λ _ k.
          let (_, _, k') = >>=-eq-ok (raise_if wrong refusal) (λ _. planned) k in
          (s, refl, subst (Closes s) (some-injective (ok-injective k')) (exit_plan-Closes s)))
        h

  -- An intent of the owner for the position of the signal, which filled as it stands would take the
  -- quantity that the ledger holds there to 0.
  record IsExitOf (e : SignalEvent N) (owner : String) (l : Ledger N) (o : OrderIntent N)
      : Type 0 where
    same_owner : o.meta.owner_id ≡ some owner
    same_strategy : o.strategy_id ≡ e.strategy_id
    same_version : o.strategy_version ≡ e.strategy_version
    same_symbol : o.symbol ≡ e.symbol
    same_contract : o.contract ≡ e.contract
    closing : quantity_at N (signal_key N owner e) l +ℤ signed_order o ≡ pos 0
    reducing : o.reduce_only ≡ true

  answer_metadata-owner :
      (kind source key owner : String) (cause m : Metadata)
      → answer_metadata N kind source key cause (some owner) ≡ ok m
      → m.owner_id ≡ some owner
  unfolding create_metadata
  answer_metadata-owner kind source key owner cause m h =
      let (id, _, h1) =
        >>=-eq-ok (deterministic_event_id N kind cause.occurred_at source key) _ h in
      let (_, _, h2) = >>=-eq-ok (check_metadata _) _ h1 in
      ap (λ (x : Metadata). x.owner_id) (sym (ok-injective h2))

  exits :
      (e : SignalEvent N) (r : Router N) (l : Ledger N) (owner : String) (os : List (OrderIntent N))
      → str_eq e.action "enter" ≡ false
      → owner_of N (signal e) ≡ ok owner
      → on_signal N (signal e) r l ≡ ok (some os)
      → All (IsExitOf e owner l) os
  unfolding on_signal quantity_at
  exits e r l owner os exit owned h =
      let built = λ (who : String) (p : Option Plan). build_planned N r who e p in
      let planned = λ (who : String). plan_signal N r who e l >>= built who in
      let h1 = sym (ap (λ (x : Result String). x >>= planned) owned) ∙ h in
      let (plan, h2, h3) = >>=-eq-ok (plan_signal N r owner e l) (built owner) h1 in
      routed plan (sym (if_false _ _ _ exit) ∙ h2) h3
    where
      routed :
          (plan : Option Plan)
          → plan_exit N e (state N (signal_key N owner e) l) ≡ ok plan
          → build_planned N r owner e plan ≡ ok (some os)
          → All (IsExitOf e owner l) os
      routed none k b = absurd (cc)
      routed (some p) k b =
          let (s, found, closes) = plan_exit-Closes e (state N (signal_key N owner e) l) p k in
          let intent = λ (m : Metadata).
            let x : Result (Option (List (OrderIntent N))) =
              ok (some (routed_intent N r e p m ∷ [])) in
            x in
          let (m, made, b1) =
            >>=-eq-ok
              (answer_metadata N "order_intent" "signal_order_router" e.meta.event_id e.meta
                (some owner))
              (λ (m : Metadata). check_order_intent N (routed_intent N r e p m) >> intent m) b in
          let (_, _, b2) =
            >>=-eq-ok (check_order_intent N (routed_intent N r e p m)) (λ _. intent m) b1 in
          let exit_of : IsExitOf e owner l (routed_intent N r e p m) = record {
            same_owner =
                answer_metadata-owner "order_intent" "signal_order_router" e.meta.event_id owner
                  e.meta m made;
            same_strategy = refl;
            same_version = refl;
            same_symbol = refl;
            same_contract = refl;
            closing =
                ap
                  (λ (x : Option (PositionState N)).
                    quantity_in N x +ℤ signed_order (routed_intent N r e p m))
                  found
                ∙ closes.0;
            reducing = closes.1;
          } in
          subst (All (IsExitOf e owner l)) (some-injective (ok-injective b2)) (exit_of, tt)

  -- A fill of an order as it stands.
  pub record IsFillOf (o : OrderIntent N) (f : FillEvent N) : Type 0 where
    pub same_owner : f.meta.owner_id ≡ o.meta.owner_id
    pub same_strategy : f.strategy_id ≡ o.strategy_id
    pub same_version : f.strategy_version ≡ o.strategy_version
    pub same_symbol : f.symbol ≡ o.symbol
    pub same_contract : f.contract ≡ o.contract
    pub same_side : f.side ≡ o.side
    pub same_quantity : f.quantity ≡ o.quantity

  not_empty :
      (err : Error) (m : Option String) (owner : String)
      → (elim m as (λ _. Result String) [
        | none ↦ raised err
        | some o ↦ raise_if (is_empty o) err >> ok o
      ])
        ≡ ok owner
      → is_empty owner ≡ false
  not_empty err none owner h = absurd (cc h)
  not_empty err (some o) owner h =
      let (_, passed, same) = >>=-eq-ok (raise_if (is_empty o) err) (λ _. ok o) h in
      subst (λ (x : String). is_empty x ≡ false) (ok-injective same)
        (raise_if-ok (is_empty o) err passed)

  owner_of_fill :
      (e : SignalEvent N) (f : FillEvent N) (owner : String)
      → owner_of N (signal e) ≡ ok owner
      → f.meta.owner_id ≡ some owner
      → owner_of N (fill f) ≡ ok owner
  unfolding owner_of
  owner_of_fill e f owner h named =
      let given = not_empty _ e.meta.owner_id owner h in rw (named, given)

  filled_exit :
      (e : SignalEvent N) (l : Ledger N) (owner : String) (o : OrderIntent N) (f : FillEvent N)
      → owner_of N (signal e) ≡ ok owner
      → IsExitOf e owner l o
      → IsFillOf o f
      → amount N (signal_key N owner e) f ≡ signed_order o
  unfolding amount signed_fill
  filled_exit e l owner o f owned x y =
      let who = owner_of_fill e f owner owned (y.same_owner ∙ x.same_owner) in
      let signed : (if str_eq f.side "buy" then f.quantity else neg f.quantity) ≡ signed_order o =
        ap (λ (q : ℤ). if str_eq f.side "buy" then q else neg q) y.same_quantity
        ∙ ap (λ (t : String). if str_eq t "buy" then o.quantity else neg o.quantity) y.same_side in
      let a = y.same_strategy ∙ x.same_strategy in
      let b = y.same_version ∙ x.same_version in
      let c = y.same_symbol ∙ x.same_symbol in
      let d = y.same_contract ∙ x.same_contract in
      let key : key_of N owner f ≡ signal_key N owner e = cc in
      ap (λ (r : Result String). share_of_key N (signal_key N owner e) f r) who
      ∙ if_true _ _ _ ((same_position_iff (key_of N owner f) (signal_key N owner e)).1 key)
      ∙ signed

  -- The intents that answer an exit signal only reduce, and the fill of any of them as it stands, if the
  -- ledger has not seen its id, takes the quantity that the ledger holds for the signal's owner, strategy,
  -- version and contract to exactly 0.
  pub exit_closes :
      (e : SignalEvent N) (r : Router N) (l : Ledger N) (owner : String)
      (before after : List (OrderIntent N)) (o : OrderIntent N) (f : FillEvent N)
      → str_eq e.action "enter" ≡ false
      → owner_of N (signal e) ≡ ok owner
      → on_signal N (signal e) r l ≡ ok (some (before ++ o ∷ after))
      → IsFillOf o f
      → is_seen N f l.seen_fills ≡ false
      → (o.reduce_only ≡ true)
        × (quantity_at N (signal_key N owner e) (on_fill N (fill f) l).0 ≡ pos 0)
  unfolding on_fill
  exit_closes e r l owner before after o f exit owned answer filled new =
      let all = exits e r l owner (before ++ o ∷ after) exit owned answer in
      let x = All-middle (IsExitOf e owner l) before after o all in
      let k = signal_key N owner e in
      (
        x.reducing,
        take_fill_quantity N k f l
            ∙ ap (λ (q : ℤ). quantity_at N k l +ℤ q)
                (if_false _ _ _ new ∙ filled_exit e l owner o f owned x filled)
            ∙ x.closing,
      )
