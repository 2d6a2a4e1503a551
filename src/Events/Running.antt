-- ===== src/Events/Running.antt =====
-- tw_quant/events/engine.py: `run` keeps the invariant of the engine, and ends.
use codex_tw_quant_trading_s.Base.{
  ℕ, zero, suc, ◌+◌, ◌≤◌, ◌<◌, String, Bool, true, false, ◌||◌, Option, none, some, List, [], ◌∷◌,
  ◌++◌, ◌≡◌, refl, sym, ap, ◌∙◌, subst, Result, ok, raised, runtime_error, if◌then◌else◌, if_elim,
  clash, leb, str_eq, str_eq_iff, str_eq_refl, All, Sorted, All-map, All-zip, All-append,
  Sorted-append_one, length, arith,
}
use codex_tw_quant_trading_s.Order.{Datetime}
use codex_tw_quant_trading_s.Python.{Python}
use codex_tw_quant_trading_s.Events.Models.{DomainEvent, kind_of}
use codex_tw_quant_trading_s.Events.Engine.{
  before_clock, advance_to, is_in, without, id_of, time_of, Handler, Processed, Queued, Engine, Run,
  emitted_list, emit, then_handlers, handle, handlers_of, recorded, process_at, popped, process,
  duplicated, Ended, EngineRun, then_loop, round, loop, run,
}
use codex_tw_quant_trading_s.Events.Consistent.{
  Reached, str_eq-sym, is_in-other, is_in-cons, EarlierEvent, OtherId, Numbered, IsConsistent,
  publish_all-IsConsistent,
}

is_in-without :
    (k j : String) (ks : List String)
    → str_eq j k ≡ false
    → is_in k ks ≡ true
    → is_in k (without j ks) ≡ true
is_in-without k j [] e h = absurd (cc)
is_in-without k j (i ∷ ks) e h =
    ground (arith, str_eq_iff j i, str_eq_iff j k, str_eq_iff k i, is_in-without k j ks e)

is_in-cons_other :
    (a b : String) (ks : List String)
    → str_eq b a ≡ false
    → is_in a ks ≡ false
    → is_in a (b ∷ ks) ≡ false
is_in-cons_other a b ks e h = ap (λ (t : Bool). t || is_in a ks) (str_eq-sym b a e) ∙ h

-- What the clock says after it advances.
advance_to-ok :
    (t : Datetime) (c n : Option Datetime)
    → advance_to t c ≡ ok n
    → (before_clock t c ≡ false) × (n ≡ some t)
unfolding advance_to
advance_to-ok t c n h = (ground (arith, h), ground (arith, h))

Reached-later :
    (u t : Datetime) (c : Option Datetime)
    → before_clock t c ≡ false
    → Reached u c
    → u.instant ≤ t.instant
Reached-later u t none h k = absurd k
Reached-later u t (some c) h k = ground (arith, h)

module _ (N : Python) (S : Type 0) where
  Numbered-next :
      (n : ℕ) (rs : List (Processed N S)) (r : Processed N S)
      → Numbered N S n rs
      → r.sequence ≡ n + length rs
      → Numbered N S n (rs ++ r ∷ [])
  Numbered-next n [] r h e = (omega (arith, e), tt)
  Numbered-next n (x ∷ xs) r h e = (h.0, Numbered-next (suc n) xs r h.1 (omega (arith, e)))

  -- Without its first entry.
  popped-IsConsistent :
      (m : ℕ) (q : Queued N S) (rest : List (Queued N S)) (g : Engine N S)
      → g.queue ≡ q ∷ rest
      → IsConsistent N S m g
      → IsConsistent N S m (popped N S q rest g)
  popped-IsConsistent m q rest g e c =
      let sorted = subst (Sorted (EarlierEvent N S)) e c.queue_sorted in
      let distinct =
        subst (Sorted (λ (a b : Queued N S). OtherId N S a.event b.event)) e c.queue_distinct in
      let known =
        subst (All (λ (p : Queued N S). is_in (id_of N S p.event) g.queued_ids ≡ true)) e
          c.queue_known in
      record {
        bounded = c.bounded;
        numbered = c.numbered;
        history_sorted = c.history_sorted;
        history_distinct = c.history_distinct;
        history_known = c.history_known;
        history_past = c.history_past;
        queue_sorted = sorted.1;
        queue_distinct = distinct.1;
        queue_future =
            (subst (All (λ (p : Queued N S). before_clock (time_of N S p.event) g.current ≡ false))
              e c.queue_future).1;
        queue_known =
            All-zip (λ (p : Queued N S). OtherId N S q.event p.event) _
              (λ (p : Queued N S).
                is_in (id_of N S p.event) (without (id_of N S q.event) g.queued_ids) ≡ true)
              rest
              (λ p apart k.
                is_in-without (id_of N S p.event) (id_of N S q.event) g.queued_ids apart k)
              distinct.0 known.1;
        queue_fresh =
            (subst (All (λ (p : Queued N S). is_in (id_of N S p.event) g.processed_ids ≡ false)) e
              c.queue_fresh).1;
      }

  -- The head of the queue, when it is taken, enters the history.
  recorded-IsConsistent :
      (m : ℕ) (q : Queued N S) (rest : List (Queued N S)) (g : Engine N S)
      → g.queue ≡ q ∷ rest
      → IsConsistent N S m g
      → IsConsistent N S m (recorded N S q.event (some (time_of N S q.event)) (popped N S q rest g))
  recorded-IsConsistent m q rest g e c =
      let t = time_of N S q.event in
      let id = id_of N S q.event in
      let p = popped-IsConsistent m q rest g e c in
      let future =
        (subst (All (λ (x : Queued N S). before_clock (time_of N S x.event) g.current ≡ false)) e
          c.queue_future).0 in
      let fresh =
        (subst (All (λ (x : Queued N S). is_in (id_of N S x.event) g.processed_ids ≡ false)) e
          c.queue_fresh).0 in
      let sorted = (subst (Sorted (EarlierEvent N S)) e c.queue_sorted).0 in
      let distinct =
        (subst (Sorted (λ (a b : Queued N S). OtherId N S a.event b.event)) e c.queue_distinct).0 in
      let new : Processed N S = record { sequence = length g.history + 1; event = q.event } in
      let past : All (λ (r : Processed N S). (time_of N S r.event).instant ≤ t.instant) g.history =
        All-map _ (λ (r : Processed N S). (time_of N S r.event).instant ≤ t.instant) g.history
          (λ r k. Reached-later (time_of N S r.event) t g.current future k) c.history_past in
      record {
        bounded = c.bounded;
        numbered = Numbered-next 1 g.history new c.numbered (omega arith);
        history_sorted =
            Sorted-append_one
              (λ (a b : Processed N S).
                (time_of N S a.event).instant ≤ (time_of N S b.event).instant)
              g.history new c.history_sorted past;
        history_distinct =
            Sorted-append_one (λ (a b : Processed N S). OtherId N S a.event b.event) g.history new
              c.history_distinct
              (All-map _ (λ (r : Processed N S). OtherId N S r.event q.event) g.history
                (λ r k. is_in-other (id_of N S r.event) id g.processed_ids k fresh)
                c.history_known);
        history_known =
            All-append
              (λ (r : Processed N S). is_in (id_of N S r.event) (id ∷ g.processed_ids) ≡ true)
              g.history (new ∷ [])
              (All-map _
                (λ (r : Processed N S). is_in (id_of N S r.event) (id ∷ g.processed_ids) ≡ true)
                g.history (λ r k. is_in-cons (id_of N S r.event) id g.processed_ids k)
                c.history_known)
              (ap (λ (b : Bool). b || is_in id g.processed_ids) (str_eq_refl id), tt);
        history_past =
            All-append (λ (r : Processed N S). Reached (time_of N S r.event) (some t)) g.history
              (new ∷ []) past (omega arith, tt);
        queue_sorted = p.queue_sorted;
        queue_distinct = p.queue_distinct;
        queue_future =
            All-map _ (λ (x : Queued N S). before_clock (time_of N S x.event) (some t) ≡ false) rest
              (λ x k. ground (arith, k)) sorted;
        queue_known = p.queue_known;
        queue_fresh =
            All-zip (λ (x : Queued N S). OtherId N S q.event x.event) _
              (λ (x : Queued N S). is_in (id_of N S x.event) (id ∷ g.processed_ids) ≡ false) rest
              (λ x apart k. is_in-cons_other (id_of N S x.event) id g.processed_ids apart k)
              distinct p.queue_fresh;
      }

  emit-IsConsistent :
      (m : ℕ) (e : DomainEvent N) (g : Engine N S) (r : S × Result (Option (List (DomainEvent N))))
      → IsConsistent N S m g
      → IsConsistent N S m (emit N S e g r).0.0
  emit-IsConsistent m e g (s, raised x) c = c
  emit-IsConsistent m e g (s, ok es) c = publish_all-IsConsistent N S m e (emitted_list N S es) g c

  handle-IsConsistent :
      (m : ℕ) (e : DomainEvent N) (hs : List (Handler N S)) (g : Engine N S) (s : S)
      → IsConsistent N S m g
      → IsConsistent N S m (handle N S e hs (g, s)).0.0
  unfolding handle
  handle-IsConsistent m e [] g s c = c
  handle-IsConsistent m e (h ∷ hs) g s c =
      continued (emit N S e g (h e s)) (emit-IsConsistent m e g (h e s) c)
        (handle-IsConsistent m e hs)
    where
      continued :
          (r : Run N S (Unit {0}))
          → IsConsistent N S m r.0.0
          → ((h' : Engine N S) (s' : S)
              → IsConsistent N S m h'
              → IsConsistent N S m (handle N S e hs (h', s')).0.0)
          → IsConsistent N S m (then_handlers N S (handle N S e hs) r).0.0
      continued (w, raised x) k rest = k
      continued ((h', s'), ok _) k rest = rest h' s' k

  -- The round of an event, from the popped queue on.
  process-IsConsistent :
      (m : ℕ) (q : Queued N S) (rest : List (Queued N S)) (g : Engine N S) (s : S)
      → g.queue ≡ q ∷ rest
      → IsConsistent N S m g
      → IsConsistent N S m (process N S q.event s (popped N S q rest g)).0.0
  unfolding process
  process-IsConsistent m q rest g s e c = advanced (advance_to (time_of N S q.event) g.current) refl
    where
      advanced :
          (r : Result (Option Datetime))
          → advance_to (time_of N S q.event) g.current ≡ r
          → IsConsistent N S m (process_at N S q.event s (popped N S q rest g) r).0.0
      advanced (raised x) k = popped-IsConsistent m q rest g e c
      advanced (ok now) k =
          handle-IsConsistent m q.event (handlers_of N S (kind_of N q.event) (popped N S q rest g))
            (recorded N S q.event now (popped N S q rest g)) s
            (subst
              (λ (n : Option Datetime).
                IsConsistent N S m (recorded N S q.event n (popped N S q rest g)))
              (sym ((advance_to-ok (time_of N S q.event) g.current now k).1))
              (recorded-IsConsistent m q rest g e c))

  -- The engine that a whole run leaves, and whether the fuel was enough.
  record Good (m : ℕ) (r : Ended N S) : Type 0 where
    state : IsConsistent N S m r.0.0
    answer : (x : Result (EngineRun N S)) × (r.1 ≡ some x)

  then_loop-Good :
      (m fuel done : ℕ) (r : Run N S (Unit {0}))
      → IsConsistent N S m r.0.0
      → ((h : Engine N S) (s : S) → IsConsistent N S m h → Good m (loop N S fuel done (h, s)))
      → Good m (then_loop N S (loop N S fuel done) r)
  then_loop-Good m fuel done (w, raised x) c rest = record { state = c; answer = (raised x, refl) }
  then_loop-Good m fuel done ((h, s), ok _) c rest = rest h s c

  round-Good :
      (m fuel done : ℕ) (g : Engine N S) (s : S) (qs : List (Queued N S))
      → g.queue ≡ qs
      → done ≤ m
      → IsConsistent N S m g
      → (done < m
          → (h : Engine N S) (s : S) → IsConsistent N S m h
          → Good m (loop N S fuel (suc done) (h, s)))
      → Good m (round N S (loop N S fuel) done (g, s) qs)
  round-Good m fuel done g s [] e le c rest = record {
    state = c;
    answer = (ok (record { processed = done; duplicate_event_ids = g.duplicates }), refl);
  }
  round-Good m fuel done g s (q ∷ qs) e le c rest =
      let known = is_in (id_of N S q.event) g.processed_ids in
      let again : Ended N S = loop N S fuel done (duplicated N S q.event (popped N S q qs g), s) in
      let taken : Ended N S =
        then_loop N S (loop N S fuel (suc done)) (process N S q.event s (popped N S q qs g)) in
      let limit : Ended N S = ((g, s), some (raised (runtime_error "event limit exceeded"))) in
      let fresh =
        (subst (All (λ (x : Queued N S). is_in (id_of N S x.event) g.processed_ids ≡ false)) e
          c.queue_fresh).0 in
      if_elim (Good m) (leb g.max_events done) limit (if known then again else taken)
        (λ _. record { state = c; answer = (raised (runtime_error "event limit exceeded"), refl) })
        (λ more.
          if_elim (Good m) known again taken (λ old. clash known old fresh)
            (λ _.
              then_loop-Good m fuel (suc done) (process N S q.event s (popped N S q qs g))
                (process-IsConsistent m q qs g s e c) (rest (ground (arith, c.bounded)))))

  loop-Good :
      (m fuel done : ℕ) (g : Engine N S) (s : S)
      → done ≤ m
      → m < fuel + done
      → IsConsistent N S m g
      → Good m (loop N S fuel done (g, s))
  unfolding loop
  loop-Good m zero done g s le enough c = absurd (omega arith)
  loop-Good m (suc fuel) done g s le enough c =
      round-Good m fuel done g s g.queue refl le c
        (λ less h t k. loop-Good m fuel (suc done) h t less (omega arith) k)

  run-Good :
      (g : Engine N S) (s : S)
      → IsConsistent N S g.max_events g
      → Good g.max_events (run N S (g, s))
  unfolding run
  run-Good g s c = loop-Good g.max_events (suc g.max_events) 0 g s (omega arith) (omega arith) c

  -- Whatever the handlers emit, raise or do to their state, `run` leaves an engine that satisfies the
  -- invariant, if it started from one.
  pub run-IsConsistent :
      (g : Engine N S) (s : S)
      → IsConsistent N S g.max_events g
      → IsConsistent N S g.max_events (run N S (g, s)).0.0
  run-IsConsistent g s c = (run-Good g s c).state

  -- From an engine that satisfies the invariant, `run` returns or raises: its limit of events and one
  -- more round are fuel enough.
  pub run-ends :
      (g : Engine N S) (s : S)
      → IsConsistent N S g.max_events g
      → (x : Result (EngineRun N S)) × ((run N S (g, s)).1 ≡ some x)
  run-ends g s c = (run-Good g s c).answer

  -- An engine without events satisfies the invariant.
  pub new-IsConsistent :
      (g : Engine N S) → g.queue ≡ [] → g.history ≡ [] → IsConsistent N S g.max_events g
  new-IsConsistent g queue history = record {
    bounded = refl;
    numbered = subst (Numbered N S 1) (sym history) tt;
    history_sorted = subst (Sorted _) (sym history) tt;
    history_distinct = subst (Sorted _) (sym history) tt;
    history_known = subst (All _) (sym history) tt;
    history_past = subst (All _) (sym history) tt;
    queue_sorted = subst (Sorted _) (sym queue) tt;
    queue_distinct = subst (Sorted _) (sym queue) tt;
    queue_future = subst (All _) (sym queue) tt;
    queue_known = subst (All _) (sym queue) tt;
    queue_fresh = subst (All _) (sym queue) tt;
  }
