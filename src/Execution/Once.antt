-- ===== src/Execution/Once.antt =====
-- tw_quant/execution/liquidator.py: no position is liquidated twice before a fill.
use codex_tw_quant_trading_s.Base.{
  String, Bool, true, false, not, ◌||◌, List, [], ◌∷◌, ◌++◌, ◌≡◌, ap, ◌∙◌, Result, ok, raised,
  if_elim, clash, Bool-cases, inl, inr, or-eq-false, str_eq, map, All, Sorted, All-map, All-append,
  arith,
}
use codex_tw_quant_trading_s.Base.Assoc.{same_self}
use codex_tw_quant_trading_s.Python.{Python}
use codex_tw_quant_trading_s.Events.{
  DomainEvent, session, bar_closed, SessionEvent, BarClosedEvent, OrderIntent,
}
use codex_tw_quant_trading_s.Execution.Positions.{
  PositionKey, position_key, same_position, same_position_iff, PositionState, Ledger,
}
use codex_tw_quant_trading_s.Execution.Liquidator.{
  Pending, is_pending, build_intent, Intents, first_intent, intents, on_session, on_bar,
}

module _ (N : Python) where
  -- The keys of the intents that a call returns; one that raises returns none.
  abbrev pub keys_of : Intents N → List PositionKey
  keys_of (raised e) = []
  keys_of (ok os) = map (λ (o : PositionKey × OrderIntent N). o.0) os

  -- A call that began with some keys pending: it keeps them, returns intents for others, each once, and
  -- leaves these pending.
  record IsOnce (ks : Pending) (r : Pending × Intents N) : Type 0 where
    kept : (k : PositionKey) → is_pending k ks ≡ true → is_pending k r.0 ≡ true
    fresh : All (λ k. is_pending k ks ≡ false) (keys_of r.1)
    noted : All (λ k. is_pending k r.0 ≡ true) (keys_of r.1)
    distinct : Sorted (λ j k. same_position k j ≡ false) (keys_of r.1)

  first_intent-IsOnce :
      (k : PositionKey) (ks : Pending) (o : Result (OrderIntent N)) (r : Pending × Intents N)
      → is_pending k ks ≡ false
      → IsOnce (k ∷ ks) r
      → IsOnce ks (first_intent N k (k ∷ ks) o r)
  first_intent-IsOnce k ks (raised e) r new h = record {
    kept = λ j e. ground (arith, e);
    fresh = tt;
    noted = tt;
    distinct = tt;
  }
  first_intent-IsOnce k ks (ok o) (p, raised e) new h = record {
    kept = λ j e. h.kept j (ground (arith, e));
    fresh = tt;
    noted = tt;
    distinct = tt;
  }
  first_intent-IsOnce k ks (ok o) (p, ok os) new h =
      let keys = map (λ (o : PositionKey × OrderIntent N). o.0) os in
      record {
        kept = λ j e. h.kept j (ground (arith, e));
        fresh = (
          new,
          All-map _ (λ (j : PositionKey). is_pending j ks ≡ false) keys
              (λ j e. (or-eq-false (same_position j k) (is_pending j ks) e).1) h.fresh,
        );
        noted = (h.kept k (ap (λ (b : Bool). b || is_pending k ks) (same_self k)), h.noted);
        distinct = (
          All-map _ (λ (j : PositionKey). same_position j k ≡ false) keys
              (λ j e. (or-eq-false (same_position j k) (is_pending j ks) e).0) h.fresh,
          h.distinct,
        );
      }

  nothing-IsOnce : (ks : Pending) → IsOnce ks (ks, ok [])
  nothing-IsOnce ks = record { kept = λ k e. e; fresh = tt; noted = tt; distinct = tt }

  intents-IsOnce :
      (busy : PositionKey → Bool) (cause : DomainEvent N) (reason : String)
      (ss : List (PositionState N)) (ks : Pending)
      → IsOnce ks (intents N busy cause reason ss ks)
  unfolding intents
  intents-IsOnce busy cause reason [] ks = nothing-IsOnce ks
  intents-IsOnce busy cause reason (s ∷ ss) ks =
      let skipped = intents N busy cause reason ss ks in
      let rest = intents N busy cause reason ss (s.key ∷ ks) in
      if_elim (IsOnce ks) (is_pending s.key ks || busy s.key) skipped
        (first_intent N s.key (s.key ∷ ks) (build_intent N s cause reason) rest)
        (λ _. intents-IsOnce busy cause reason ss ks)
        (λ new.
          first_intent-IsOnce s.key ks (build_intent N s cause reason) rest
            ((or-eq-false (is_pending s.key ks) (busy s.key) new).0)
            (intents-IsOnce busy cause reason ss (s.key ∷ ks)))

  -- A session event or a bar, with the ledger and the pending exits at that time.
  pub data Call : Type 0 where
    at_session : SessionEvent → (PositionKey → Bool) → Ledger N → Call
    at_bar : BarClosedEvent N → (PositionKey → Bool) → Ledger N → Call

  unfoldable pub answer : Call → Pending → Pending × Intents N
  answer (at_session e busy l) ks = on_session N (session e) busy l ks
  answer (at_bar b busy l) ks = on_bar N (bar_closed b) busy l ks

  -- The keys of all the intents that a sequence of calls returns.
  unfoldable pub liquidated : List Call → Pending → List PositionKey
  liquidated [] ks = []
  liquidated (c ∷ cs) ks = let r = answer c ks in keys_of r.1 ++ liquidated cs r.0

  answer-IsOnce : (c : Call) (ks : Pending) → IsOnce ks (answer c ks)
  unfolding answer on_session on_bar
  answer-IsOnce (at_session e busy l) ks =
      if_elim (IsOnce ks) (not (str_eq e.action "closing")) (ks, ok []) _ (λ _. nothing-IsOnce ks)
        (λ _. intents-IsOnce busy (session e) "session_end" _ ks)
  answer-IsOnce (at_bar b busy l) ks = intents-IsOnce busy (bar_closed b) "contract_roll" _ ks

  Sorted-append :
      (xs ys : List PositionKey)
      → Sorted (λ j k. same_position k j ≡ false) xs
      → Sorted (λ j k. same_position k j ≡ false) ys
      → All (λ x. All (λ y. same_position y x ≡ false) ys) xs
      → Sorted (λ j k. same_position k j ≡ false) (xs ++ ys)
  Sorted-append [] ys h k l = k
  Sorted-append (x ∷ xs) ys h k l =
      (All-append (λ y. same_position y x ≡ false) xs ys h.0 l.0, Sorted-append xs ys h.1 k l.1)

  other_key :
      (y x : PositionKey) (ks : Pending)
      → is_pending y ks ≡ false
      → is_pending x ks ≡ true
      → same_position y x ≡ false
  other_key y x ks f e = elim (Bool-cases (same_position y x)) [
    | inl same ↦
        clash (is_pending y ks)
          (ap (λ (k : PositionKey). is_pending k ks) ((same_position_iff y x).0 same) ∙ e) f
    | inr other ↦ other
  ]

  -- Later intents are for keys that were not pending.
  liquidated_fresh :
      (cs : List Call) (ks : Pending) → All (λ k. is_pending k ks ≡ false) (liquidated cs ks)
  unfolding liquidated
  liquidated_fresh [] ks = tt
  liquidated_fresh (c ∷ cs) ks =
      let o = answer-IsOnce c ks in
      All-append (λ k. is_pending k ks ≡ false) (keys_of (answer c ks).1)
        (liquidated cs (answer c ks).0) o.fresh
        (All-map _ (λ k. is_pending k ks ≡ false) (liquidated cs (answer c ks).0)
          (λ k e. elim (Bool-cases (is_pending k ks)) [
            | inl pending ↦ clash (is_pending k (answer c ks).0) (o.kept k pending) e
            | inr new ↦ new
          ])
          (liquidated_fresh cs (answer c ks).0))

  -- Whatever sessions and bars come, without a fill between them: no two intents that the liquidator
  -- returns are for the same position.
  pub liquidated-distinct :
      (cs : List Call) (ks : Pending) → Sorted (λ j k. same_position k j ≡ false) (liquidated cs ks)
  unfolding liquidated
  liquidated-distinct [] ks = tt
  liquidated-distinct (c ∷ cs) ks =
      let o = answer-IsOnce c ks in
      Sorted-append (keys_of (answer c ks).1) (liquidated cs (answer c ks).0) o.distinct
        (liquidated-distinct cs (answer c ks).0)
        (All-map _ (λ x. All (λ y. same_position y x ≡ false) (liquidated cs (answer c ks).0))
          (keys_of (answer c ks).1)
          (λ x e.
            All-map _ (λ y. same_position y x ≡ false) (liquidated cs (answer c ks).0)
              (λ y f. other_key y x (answer c ks).0 f e) (liquidated_fresh cs (answer c ks).0))
          o.noted)
