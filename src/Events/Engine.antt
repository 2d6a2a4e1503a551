-- ===== src/Events/Engine.antt =====
-- tw_quant/events/clock.py and tw_quant/events/engine.py: the virtual clock and the event engine. The
-- state that the handlers share is a parameter, `S`. A heap is the list of its entries in the order in
-- which `heappop` gives them; a set is a list, of which only the membership is read.
use codex_tw_quant_trading_s.Base.{
  ℕ, zero, suc, ◌+◌, String, Bool, true, false, not, ◌&&◌, ◌||◌, Option, none, some, List, [], ◌∷◌,
  ◌++◌, Result, ok, raised, value_error, runtime_error, if◌then◌else◌, str_eq, any, filter, map,
  length, leb, ltb, concat,
}
use codex_tw_quant_trading_s.Order.{Datetime}
use codex_tw_quant_trading_s.Python.{Python}
use codex_tw_quant_trading_s.Events.Models.{DomainEvent, meta_of, kind_of}

-- `value < other` on datetimes.
abbrev pub is_before : Datetime → Datetime → Bool
is_before a b = ltb a.instant b.instant

abbrev pub before_clock : Datetime → Option Datetime → Bool
before_clock t none = false
before_clock t (some c) = is_before t c

-- `VirtualClock.advance_to`
unfoldable pub advance_to : Datetime → Option Datetime → Result (Option Datetime)
advance_to t current =
    if not t.is_aware
    then raised (value_error "clock time must be timezone-aware")
    else if before_clock t current
    then raised (value_error "virtual clock cannot move backwards")
    else ok (some t)

abbrev pub is_in : String → List String → Bool
is_in k ks = any (str_eq k) ks

-- `set.remove` of an element that is there.
abbrev pub without : String → List String → List String
without k ks = filter (λ j. not (str_eq k j)) ks

module _ (N : Python) (S : Type 0) where
  abbrev pub id_of : DomainEvent N → String
  id_of e = (meta_of N e).event_id

  abbrev pub time_of : DomainEvent N → Datetime
  time_of e = (meta_of N e).occurred_at

  -- `EventHandler`, with the state that it may change.
  abbrev pub Handler : Type 0
  Handler = DomainEvent N → S → S × Result (Option (List (DomainEvent N)))

  -- `ProcessedEvent`
  pub record Processed : Type 0 where
    pub sequence : ℕ
    pub event : DomainEvent N

  -- An entry of the queue, without the timestamp, which is the event's time.
  pub record Queued : Type 0 where
    pub sequence : ℕ
    pub event : DomainEvent N

  -- The state of a `DeterministicEventEngine`.
  pub record Engine : Type 0 where
    pub current : Option Datetime
    pub max_events : ℕ
    pub handlers : List (String × Handler)
    pub queue : List Queued
    pub next_sequence : ℕ
    pub processed_ids : List String
    pub queued_ids : List String
    pub duplicates : List String
    pub history : List Processed

  -- `DeterministicEventEngine.__init__`
  unfoldable pub new_engine : Option Datetime → ℕ → Result Engine
  new_engine current max_events =
      if ltb max_events 1
      then raised (value_error "max_events must be positive")
      else ok (record {
        current = current;
        max_events = max_events;
        handlers = [];
        queue = [];
        next_sequence = 0;
        processed_ids = [];
        queued_ids = [];
        duplicates = [];
        history = [];
      })

  -- `subscribe`
  unfoldable pub subscribe : String → Handler → Engine → Engine
  subscribe kind h g = record g { handlers = g.handlers ++ (kind, h) ∷ [] }

  -- The order of the entries of the heap.
  abbrev pub comes_before : Queued → Queued → Bool
  comes_before a b =
      is_before (time_of a.event) (time_of b.event)
      || (not (is_before (time_of b.event) (time_of a.event)) && ltb a.sequence b.sequence)

  -- `heappush`
  unfoldable pub push : Queued → List Queued → List Queued
  push q [] = q ∷ []
  push q (p ∷ ps) = if comes_before q p then q ∷ p ∷ ps else p ∷ push q ps

  abbrev pub enqueued : DomainEvent N → Engine → Engine
  enqueued e g = record g {
    queue = push (record { sequence = g.next_sequence; event = e }) g.queue;
    next_sequence = g.next_sequence + 1;
    queued_ids = id_of e ∷ g.queued_ids;
  }

  abbrev pub duplicated : DomainEvent N → Engine → Engine
  duplicated e g = record g { duplicates = g.duplicates ++ id_of e ∷ [] }

  -- `publish`
  unfoldable pub publish : DomainEvent N → Engine → Engine × Result Bool
  publish e g =
      if is_in (id_of e) g.processed_ids || is_in (id_of e) g.queued_ids
      then (duplicated e g, ok false)
      else if before_clock (time_of e) g.current
      then (g, raised (value_error "cannot publish an event before the virtual clock"))
      else (enqueued e g, ok true)

  abbrev pub then_rest :
      (Engine → Engine × Result (Unit {0})) → Engine × Result Bool → Engine × Result (Unit {0})
  then_rest rest (g, raised x) = (g, raised x)
  then_rest rest (g, ok _) = rest g

  -- The loop over what a handler emitted.
  unfoldable pub publish_all :
      DomainEvent N → List (DomainEvent N) → Engine → Engine × Result (Unit {0})
  publish_all cause [] g = (g, ok tt)
  publish_all cause (e ∷ es) g =
      if is_before (time_of e) (time_of cause)
      then (
        g,
        raised (value_error (concat "handler emitted an event before its cause: " (id_of e))),
      )
      else then_rest (publish_all cause es) (publish e g)

  abbrev pub emitted_list : Option (List (DomainEvent N)) → List (DomainEvent N)
  emitted_list none = []
  emitted_list (some es) = es

  -- An engine with the handlers' state, and a result.
  abbrev pub Run : Type 0 → Type 0
  Run A = (Engine × S) × Result A

  abbrev pub with_world : S → Engine × Result (Unit {0}) → Run (Unit {0})
  with_world s (g, r) = ((g, s), r)

  abbrev pub emit :
      DomainEvent N → Engine → S × Result (Option (List (DomainEvent N))) → Run (Unit {0})
  emit e g (s, raised x) = ((g, s), raised x)
  emit e g (s, ok es) = with_world s (publish_all e (emitted_list es) g)

  abbrev pub then_handlers : (Engine × S → Run (Unit {0})) → Run (Unit {0}) → Run (Unit {0})
  then_handlers rest (w, raised x) = (w, raised x)
  then_handlers rest (w, ok _) = rest w

  -- The loop over the handlers of an event.
  unfoldable pub handle : DomainEvent N → List Handler → Engine × S → Run (Unit {0})
  handle e [] w = (w, ok tt)
  handle e (h ∷ hs) (g, s) = then_handlers (handle e hs) (emit e g (h e s))

  abbrev pub handlers_of : String → Engine → List Handler
  handlers_of kind g =
      map (λ (e : String × Handler). e.1)
        (filter (λ (e : String × Handler). str_eq e.0 kind) g.handlers)

  -- The engine once an event is in its history.
  abbrev pub recorded : DomainEvent N → Option Datetime → Engine → Engine
  recorded e now g = record g {
    current = now;
    processed_ids = id_of e ∷ g.processed_ids;
    history = g.history ++ record { sequence = length g.history + 1; event = e } ∷ [];
  }

  abbrev pub process_at : DomainEvent N → S → Engine → Result (Option Datetime) → Run (Unit {0})
  process_at e s g (raised x) = ((g, s), raised x)
  process_at e s g (ok now) = handle e (handlers_of (kind_of N e) g) (recorded e now g, s)

  -- The engine without the entry that `heappop` gave.
  abbrev pub popped : Queued → List Queued → Engine → Engine
  popped q rest g = record g { queue = rest; queued_ids = without (id_of q.event) g.queued_ids }

  unfoldable pub process : DomainEvent N → S → Engine → Run (Unit {0})
  process e s g = process_at e s g (advance_to (time_of e) g.current)

  -- `EngineRun`: how many events of the history the run processed, and the duplicates.
  pub record EngineRun : Type 0 where
    pub processed : ℕ
    pub duplicate_event_ids : List String

  abbrev pub Ended : Type 0
  Ended = (Engine × S) × Option (Result EngineRun)

  abbrev pub then_loop : (Engine × S → Ended) → Run (Unit {0}) → Ended
  then_loop rest (w, raised x) = (w, some (raised x))
  then_loop rest (w, ok _) = rest w

  -- A round of the loop of `run`, `done` events after its start, and what follows it.
  abbrev pub round : (ℕ → Engine × S → Ended) → ℕ → Engine × S → List Queued → Ended
  round rest done (g, s) [] =
      ((g, s), some (ok (record { processed = done; duplicate_event_ids = g.duplicates })))
  round rest done (g, s) (q ∷ queue) =
      if leb g.max_events done
      then ((g, s), some (raised (runtime_error "event limit exceeded")))
      else if is_in (id_of q.event) g.processed_ids
      then rest done (duplicated q.event (popped q queue g), s)
      else then_loop (rest (suc done)) (process q.event s (popped q queue g))

  -- The loop of `run`; `none` means that the fuel ran out.
  unfoldable pub loop : ℕ → ℕ → Engine × S → Ended
  loop zero done w = (w, none)
  loop (suc fuel) done w = round (loop fuel) done w w.0.queue

  -- `run`
  unfoldable pub run : Engine × S → Ended
  run w = loop (suc w.0.max_events) 0 w

  -- `history` and `events`
  abbrev pub history_of : Option String → Engine → List Processed
  history_of none g = g.history
  history_of (some kind) g = filter (λ (r : Processed). str_eq (kind_of N r.event) kind) g.history

  abbrev pub events_of : Option String → Engine → List (DomainEvent N)
  events_of kind g = map (λ (r : Processed). r.event) (history_of kind g)
