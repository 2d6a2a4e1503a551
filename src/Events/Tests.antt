-- ===== src/Events/Tests.antt =====
-- The event engine with a handler that answers each market event by another, at concrete events.
use codex_tw_quant_trading_s.Base.{
  ℕ, suc, String, Option, none, some, List, [], ◌∷◌, ◌≡◌, refl, Result, ok,
}
use codex_tw_quant_trading_s.Base.Int.{pos}
use codex_tw_quant_trading_s.Samples.{whole, at_time}
use codex_tw_quant_trading_s.Events.Models.{DomainEvent, market}
use codex_tw_quant_trading_s.Events.Engine.{Engine, EngineRun, publish, run}
use codex_tw_quant_trading_s.Events.Consistent.{IsConsistent, publish-IsConsistent}
use codex_tw_quant_trading_s.Events.Running.{run-IsConsistent, run-ends, new-IsConsistent}

abbrev tick : String → ℕ → DomainEvent whole
tick id at = market (record {
  meta = record {
    event_id = id;
    occurred_at = at_time at;
    source = "feed";
    correlation_id = none;
    causation_id = none;
    owner_id = none;
  };
  symbol = "TMF";
  contract = "TMFR1";
  price = pos 23000;
  volume = pos 1;
})

-- It counts its calls.
abbrev echo : DomainEvent whole → ℕ → ℕ × Result (Option (List (DomainEvent whole)))
echo e n = (suc n, ok (some (tick "E9" 9 ∷ [])))

abbrev engine_0 : Engine whole ℕ
engine_0 = record {
  current = none;
  max_events = 5;
  handlers = ("market", echo) ∷ [];
  queue = [];
  next_sequence = 0;
  processed_ids = [];
  queued_ids = [];
  duplicates = [];
  history = [];
}

engine_0-IsConsistent : IsConsistent whole ℕ 5 engine_0
engine_0-IsConsistent = new-IsConsistent whole ℕ engine_0 refl refl

engine_2 : Engine whole ℕ
engine_2 = (publish whole ℕ (tick "E1" 3) (publish whole ℕ (tick "E2" 7) engine_0).0).0

engine_2-IsConsistent : IsConsistent whole ℕ engine_2.max_events engine_2
unfolding engine_2 publish
engine_2-IsConsistent =
    publish-IsConsistent whole ℕ 5 (tick "E1" 3) (publish whole ℕ (tick "E2" 7) engine_0).0
      (publish-IsConsistent whole ℕ 5 (tick "E2" 7) engine_0 engine_0-IsConsistent)

run-IsConsistent_example : IsConsistent whole ℕ engine_2.max_events (run whole ℕ (engine_2, 0)).0.0
run-IsConsistent_example = run-IsConsistent whole ℕ engine_2 0 engine_2-IsConsistent

run-ends_example : (x : Result (EngineRun whole ℕ)) × ((run whole ℕ (engine_2, 0)).1 ≡ some x)
run-ends_example = run-ends whole ℕ engine_2 0 engine_2-IsConsistent
