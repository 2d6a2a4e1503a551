-- ===== src/Live/RateLimit.antt =====
-- tw_quant/live/rate_limit.py: `SlidingWindowRateLimiter`. An
-- `OrderedDict` is the list of its items, a `deque` the list of its times.
use codex_tw_quant_trading_s.Base.{
  ℕ, ◌+◌, String, Bool, true, false, Option, none, some, List, [], ◌∷◌, ◌++◌, Result, ok, checks,
  raised, value_error, key_error, ◌>>◌, raise_if, if◌then◌else◌, str_eq, str_eq_iff, length, leb,
}
use codex_tw_quant_trading_s.Base.Assoc.{Key, get_item, set_item, del_item}
use codex_tw_quant_trading_s.Python.{Python}
use codex_tw_quant_trading_s.Base.Pairs.{TextPair, text_pair_key}
use codex_tw_quant_trading_s.Base.Int.{ℤ, pos, neg, ◌+ℤ◌, leb_ℤ}

-- `RateLimitRule`
pub record Rule : Type 0 where
  pub limit : ℤ
  pub window_seconds : ℤ

unfoldable pub check_rule : Rule → Result (Unit {0})
check_rule r = checks (
    (leb_ℤ r.limit (pos 0), value_error "rate limit must be positive")
    ∷ (leb_ℤ r.window_seconds (pos 0), value_error "rate limit window must be positive")
    ∷ [])

-- `RateLimitDecision`
pub record Decision : Type 0 where
  pub allowed : Bool
  pub limit : ℤ
  pub remaining : ℤ
  pub retry_after : ℤ
  pub reset_after : ℤ

abbrev pub Actor : Type 0
Actor = TextPair

instance abbrev pub scope_key : Key String
scope_key = record { same = str_eq; same_iff = str_eq_iff }

-- The counts of the scopes, all 0.
abbrev pub zero_counts : List (String × Rule) → List (String × ℕ)
zero_counts [] = []
zero_counts ((scope, r) ∷ rs) = (scope, 0) ∷ zero_counts rs

-- `counts[scope] += 1`
abbrev pub count_one : String → List (String × ℕ) → List (String × ℕ)
count_one scope cs = elim (get_item scope cs) [ none ↦ cs | some n ↦ set_item scope (n + 1) cs ]

abbrev pub rejection : Rule → ℤ → Decision
rejection r wait = record {
  allowed = false;
  limit = r.limit;
  remaining = pos 0;
  retry_after = wait;
  reset_after = wait;
}

module _ (N : Python) where
  abbrev pub Windows : Type 0
  Windows = List (Actor × List N.float)

  -- The state of a `SlidingWindowRateLimiter`.
  pub record Limiter : Type 0 where
    pub rules : List (String × Rule)
    pub max_keys : ℕ
    pub windows : Windows
    pub accepted : List (String × ℕ)
    pub rejected : List (String × ℕ)

  -- `SlidingWindowRateLimiter.__init__`
  unfoldable pub new_limiter : List (String × Rule) → ℕ → Result Limiter
  new_limiter rules max_keys =
      raise_if (leb max_keys 0) (value_error "max_keys must be positive")
      >> ok (record {
        rules = rules;
        max_keys = max_keys;
        windows = [];
        accepted = zero_counts rules;
        rejected = zero_counts rules;
      })

  -- `_evict_if_full`
  unfoldable pub evict_if_full : ℕ → Windows → Windows
  evict_if_full most [] = []
  evict_if_full most (w ∷ ws) =
      let rest = evict_if_full most ws in if leb most (length (w ∷ ws)) then rest else w ∷ ws

  -- `while events and events[0] <= cutoff: events.popleft()`
  unfoldable pub expire : N.float → List N.float → List N.float
  expire cutoff [] = []
  expire cutoff (e ∷ es) = let rest = expire cutoff es in if N.is_le e cutoff then rest else e ∷ es

  -- `max(1, math.ceil(events[0] + window_seconds - now))`
  abbrev pub wait_of : ℤ → N.float → List N.float → ℤ
  wait_of window now [] = pos 1
  wait_of window now (e ∷ es) =
      let seconds = N.ceil (N.sub (N.add e (N.of_int window)) now) in
      if leb_ℤ seconds (pos 1) then pos 1 else seconds

  abbrev pub acceptance : Rule → List N.float → ℤ → Decision
  acceptance r events reset = record {
    allowed = true;
    limit = r.limit;
    remaining = r.limit +ℤ neg (pos (length events));
    retry_after = pos 0;
    reset_after = reset;
  }

  abbrev pub cutoff_of : Rule → N.float → N.float
  cutoff_of r now = N.sub now (N.of_int r.window_seconds)

  -- The rest of `check`, from the other actors' windows and the actor's times.
  unfoldable pub decide :
      Rule → Actor → N.float → Windows → List N.float → Limiter → Limiter × Decision
  decide r key now others found g =
      let events = expire (cutoff_of r now) found in
      if leb_ℤ r.limit (pos (length events))
      then (
        record g { windows = others ++ (key, events) ∷ []; rejected = count_one key.0 g.rejected },
        rejection r (wait_of r.window_seconds now events),
      )
      else (
        record g {
          windows = others ++ (key, events ++ now ∷ []) ∷ [];
          accepted = count_one key.0 g.accepted;
        },
        acceptance r (events ++ now ∷ []) (wait_of r.window_seconds now (events ++ now ∷ [])),
      )

  -- A new key is put at the end of the windows, and one that is there is moved to the end.
  abbrev pub check_found :
      Rule → Actor → N.float → Option (List N.float) → Limiter → Limiter × Decision
  check_found r key now none g = decide r key now (evict_if_full g.max_keys g.windows) [] g
  check_found r key now (some events) g = decide r key now (del_item key g.windows) events g

  abbrev pub check_rule_of : Option Rule → Actor → N.float → Limiter → Limiter × Result Decision
  check_rule_of none key now g = (g, raised (key_error key.0))
  check_rule_of (some r) key now g =
      let (h, d) = check_found r key now (get_item key g.windows) g in (h, ok d)

  -- `check`
  unfoldable pub check : String → String → N.float → Limiter → Limiter × Result Decision
  check scope actor now g = check_rule_of (get_item scope g.rules) (scope, actor) now g
