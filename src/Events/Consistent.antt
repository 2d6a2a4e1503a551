-- ===== src/Events/Consistent.antt =====
-- tw_quant/events/engine.py: the invariant of the event engine, and that `publish` keeps it.
use codex_tw_quant_trading_s.Base.{
  ℕ, suc, ◌≤◌, String, Bool, true, false, ◌||◌, Option, none, some, List, [], ◌∷◌, ◌≡◌, sym, ap,
  ◌∙◌, inl, inr, Result, ok, raised, if◌then◌else◌, if_elim, clash, or-eq-false, Bool-cases, str_eq,
  str_eq_iff, str_eq_refl, concat, value_error, All, Sorted, All-map, arith,
}
use codex_tw_quant_trading_s.Order.{Datetime}
use codex_tw_quant_trading_s.Python.{Python}
use codex_tw_quant_trading_s.Events.Models.{DomainEvent}
use codex_tw_quant_trading_s.Events.Engine.{
  is_before, before_clock, is_in, id_of, time_of, Processed, Queued, Engine, comes_before, push,
  enqueued, duplicated, publish, publish_all, then_rest,
}

-- A datetime that the clock has reached.
abbrev pub Reached : Datetime → Option Datetime → Type 0
Reached t none = ⊥
Reached t (some c) = t.instant ≤ c.instant

pub str_eq-sym : (a b : String) → str_eq a b ≡ false → str_eq b a ≡ false
str_eq-sym a b h = elim (Bool-cases (str_eq b a)) [
  | inl e ↦ clash (str_eq a b) ((str_eq_iff a b).1 (sym ((str_eq_iff b a).0 e))) h
  | inr e ↦ e
]

-- Two texts of which one is in a list and the other is not.
pub is_in-other :
    (a b : String) (ks : List String) → is_in a ks ≡ true → is_in b ks ≡ false → str_eq a b ≡ false
is_in-other a b ks h k = elim (Bool-cases (str_eq a b)) [
  | inl e ↦ clash (is_in b ks) (ap (λ (j : String). is_in j ks) (sym ((str_eq_iff a b).0 e)) ∙ h) k
  | inr e ↦ e
]

pub is_in-cons : (a b : String) (ks : List String) → is_in a ks ≡ true → is_in a (b ∷ ks) ≡ true
is_in-cons a b ks h = ground (arith, h)

module _ (N : Python) (S : Type 0) where
  abbrev pub EarlierEvent : Queued N S → Queued N S → Type 0
  EarlierEvent a b = (time_of N S a.event).instant ≤ (time_of N S b.event).instant

  abbrev pub OtherId : DomainEvent N → DomainEvent N → Type 0
  OtherId a b = str_eq (id_of N S a) (id_of N S b) ≡ false

  abbrev pub Numbered : ℕ → List (Processed N S) → Type 0
  Numbered n [] = Unit
  Numbered n (r ∷ rs) = (r.sequence ≡ n) × Numbered (suc n) rs

  -- The history is numbered from 1, in order of time, of events with different ids, and up to the clock;
  -- the queue is in order of time, from the clock on, and its events have different ids that are queued
  -- and not processed.
  pub record IsConsistent (limit : ℕ) (g : Engine N S) : Type 0 where
    pub bounded : g.max_events ≡ limit
    pub numbered : Numbered 1 g.history
    pub history_sorted :
        Sorted
          (λ (a b : Processed N S). (time_of N S a.event).instant ≤ (time_of N S b.event).instant)
          g.history
    pub history_distinct : Sorted (λ (a b : Processed N S). OtherId a.event b.event) g.history
    pub history_known :
        All (λ (r : Processed N S). is_in (id_of N S r.event) g.processed_ids ≡ true) g.history
    pub history_past :
        All (λ (r : Processed N S). Reached (time_of N S r.event) g.current) g.history
    pub queue_sorted : Sorted EarlierEvent g.queue
    pub queue_distinct : Sorted (λ (a b : Queued N S). OtherId a.event b.event) g.queue
    pub queue_future :
        All (λ (q : Queued N S). before_clock (time_of N S q.event) g.current ≡ false) g.queue
    pub queue_known :
        All (λ (q : Queued N S). is_in (id_of N S q.event) g.queued_ids ≡ true) g.queue
    pub queue_fresh :
        All (λ (q : Queued N S). is_in (id_of N S q.event) g.processed_ids ≡ false) g.queue

  push-All {κ} :
      (P : Queued N S → Type κ) (q : Queued N S) (ps : List (Queued N S))
      → P q
      → All P ps
      → All P (push N S q ps)
  unfolding push
  push-All P q [] h k = (h, tt)
  push-All P q (p ∷ ps) h k =
      if_elim (All P) (comes_before N S q p) (q ∷ p ∷ ps) (p ∷ push N S q ps) (λ _. (h, k))
        (λ _. (k.0, push-All P q ps h k.1))

  -- Insertion in order of time.
  push-Sorted :
      (q : Queued N S) (ps : List (Queued N S))
      → Sorted EarlierEvent ps
      → Sorted EarlierEvent (push N S q ps)
  unfolding push
  push-Sorted q [] h = (tt, tt)
  push-Sorted q (p ∷ ps) h =
      if_elim (Sorted EarlierEvent) (comes_before N S q p) (q ∷ p ∷ ps) (p ∷ push N S q ps)
        (λ first. (
          (
            before p first,
            All-map (EarlierEvent p) (EarlierEvent q) ps (λ x e. omega (arith, before p first)) h.0,
          ),
          h,
        ))
        (λ later. (push-All (EarlierEvent p) q ps (after p later) h.0, push-Sorted q ps h.1))
    where
      before : (p : Queued N S) → comes_before N S q p ≡ true → EarlierEvent q p
      before p e = ground (arith, e)

      after : (p : Queued N S) → comes_before N S q p ≡ false → EarlierEvent p q
      after p e = ground (arith, e)

  -- Insertion of an entry that is related to all others in both directions.
  push-Sorted_both {κ} :
      (R : Queued N S → Queued N S → Type κ) (q : Queued N S) (ps : List (Queued N S))
      → All (R q) ps
      → All (λ p. R p q) ps
      → Sorted R ps
      → Sorted R (push N S q ps)
  unfolding push
  push-Sorted_both R q [] to from h = (tt, tt)
  push-Sorted_both R q (p ∷ ps) to from h =
      if_elim (Sorted R) (comes_before N S q p) (q ∷ p ∷ ps) (p ∷ push N S q ps) (λ _. (to, h))
        (λ _. (push-All (R p) q ps from.0 h.0, push-Sorted_both R q ps to.1 from.1 h.1))

  enqueued-IsConsistent :
      (m : ℕ) (e : DomainEvent N) (g : Engine N S)
      → is_in (id_of N S e) g.processed_ids ≡ false
      → is_in (id_of N S e) g.queued_ids ≡ false
      → before_clock (time_of N S e) g.current ≡ false
      → IsConsistent m g
      → IsConsistent m (enqueued N S e g)
  enqueued-IsConsistent m e g fresh unqueued future c =
      let q : Queued N S = record { sequence = g.next_sequence; event = e } in
      let id = id_of N S e in
      let apart : All (λ (p : Queued N S). OtherId p.event e) g.queue =
        All-map _ (λ (p : Queued N S). OtherId p.event e) g.queue
          (λ p k. is_in-other (id_of N S p.event) id g.queued_ids k unqueued) c.queue_known in
      record {
        bounded = c.bounded;
        numbered = c.numbered;
        history_sorted = c.history_sorted;
        history_distinct = c.history_distinct;
        history_known = c.history_known;
        history_past = c.history_past;
        queue_sorted = push-Sorted q g.queue c.queue_sorted;
        queue_distinct =
            push-Sorted_both (λ (a b : Queued N S). OtherId a.event b.event) q g.queue
              (All-map _ (λ (p : Queued N S). OtherId e p.event) g.queue
                (λ p k. str_eq-sym (id_of N S p.event) id k) apart)
              apart c.queue_distinct;
        queue_future =
            push-All (λ (p : Queued N S). before_clock (time_of N S p.event) g.current ≡ false) q
              g.queue future c.queue_future;
        queue_known =
            push-All (λ (p : Queued N S). is_in (id_of N S p.event) (id ∷ g.queued_ids) ≡ true) q
              g.queue (ap (λ (b : Bool). b || is_in id g.queued_ids) (str_eq_refl id))
              (All-map _ (λ (p : Queued N S). is_in (id_of N S p.event) (id ∷ g.queued_ids) ≡ true)
                g.queue (λ p k. is_in-cons (id_of N S p.event) id g.queued_ids k) c.queue_known);
        queue_fresh =
            push-All (λ (p : Queued N S). is_in (id_of N S p.event) g.processed_ids ≡ false) q
              g.queue fresh c.queue_fresh;
      }

  pub duplicated-IsConsistent :
      (m : ℕ) (e : DomainEvent N) (g : Engine N S)
      → IsConsistent m g
      → IsConsistent m (duplicated N S e g)
  duplicated-IsConsistent m e g c = record {
    bounded = c.bounded;
    numbered = c.numbered;
    history_sorted = c.history_sorted;
    history_distinct = c.history_distinct;
    history_known = c.history_known;
    history_past = c.history_past;
    queue_sorted = c.queue_sorted;
    queue_distinct = c.queue_distinct;
    queue_future = c.queue_future;
    queue_known = c.queue_known;
    queue_fresh = c.queue_fresh;
  }

  -- `publish` keeps the invariant, whatever it answers or raises.
  pub publish-IsConsistent :
      (m : ℕ) (e : DomainEvent N) (g : Engine N S)
      → IsConsistent m g
      → IsConsistent m (publish N S e g).0
  unfolding publish
  publish-IsConsistent m e g c =
      let P = λ (r : Engine N S × Result Bool). IsConsistent m r.0 in
      let known = is_in (id_of N S e) g.processed_ids || is_in (id_of N S e) g.queued_ids in
      let past = before_clock (time_of N S e) g.current in
      let late : Engine N S × Result Bool =
        (g, raised (value_error "cannot publish an event before the virtual clock")) in
      if_elim P known (duplicated N S e g, ok false)
        (if past then late else (enqueued N S e g, ok true)) (λ _. duplicated-IsConsistent m e g c)
        (λ new.
          if_elim P past late (enqueued N S e g, ok true) (λ _. c)
            (λ future.
              enqueued-IsConsistent m e g ((or-eq-false _ _ new).0) ((or-eq-false _ _ new).1) future
                c))

  pub publish_all-IsConsistent :
      (m : ℕ) (cause : DomainEvent N) (es : List (DomainEvent N)) (g : Engine N S)
      → IsConsistent m g
      → IsConsistent m (publish_all N S cause es g).0
  unfolding publish_all
  publish_all-IsConsistent m cause [] g c = c
  publish_all-IsConsistent m cause (e ∷ es) g c =
      if_elim (λ (r : Engine N S × Result (Unit {0})). IsConsistent m r.0)
        (is_before (time_of N S e) (time_of N S cause))
        (
          g,
          raised (value_error (concat "handler emitted an event before its cause: " (id_of N S e))),
        )
        (then_rest N S (publish_all N S cause es) (publish N S e g)) (λ _. c)
        (λ _.
          continued (publish N S e g) (publish-IsConsistent m e g c)
            (publish_all-IsConsistent m cause es))
    where
      continued :
          (r : Engine N S × Result Bool)
          → IsConsistent m r.0
          → ((h : Engine N S) → IsConsistent m h → IsConsistent m (publish_all N S cause es h).0)
          → IsConsistent m (then_rest N S (publish_all N S cause es) r).0
      continued (h, raised x) k rest = k
      continued (h, ok _) k rest = rest h k
