-- ===== src/Recovery/Locks.antt =====
-- The operations of `SQLiteRecoveryLockRepository`. The table has one row for each account, its
-- primary key, so a row is found and replaced by its account.
use codex_tw_quant_trading_s.Base.{
  ℕ, ◌+◌, String, ◌≡◌, refl, Bool, true, false, not, ◌||◌, Option, none, some, List, [], ◌∷◌, arith,
  Result, Error, ok, raised, ◌>>=◌, raise_if, checks, value_error, runtime_error, is_blank, str_eq,
  if◌then◌else◌, ◌==◌, ltb,
}
use codex_tw_quant_trading_s.Identity.{AccountRef, account_eq, account_eq_iff}
use codex_tw_quant_trading_s.Order.{Datetime}

pub data RecoveryStatus : Type 0 where
  locked reconciling ready : RecoveryStatus

pub record RecoveryState : Type 0 where
  pub account : AccountRef
  pub status : RecoveryStatus
  pub updated_at : Datetime
  pub generation : ℕ
  pub issue_codes : List String

abbrev pub Locks : Type 0
Locks = List RecoveryState

-- `SELECT * ... WHERE broker_name=? AND account_id=?`
unfoldable pub lookup : AccountRef → Locks → Option RecoveryState
lookup a [] = none
lookup a (r ∷ s) = if account_eq r.account a then some r else lookup a s

-- The row of an account is inserted, or written over.
unfoldable pub put : RecoveryState → Locks → Locks
put v [] = v ∷ []
put v (r ∷ s) = if account_eq r.account v.account then v ∷ s else r ∷ put v s

pub lookup-put :
    (a : AccountRef) (v : RecoveryState) (s : Locks)
    → lookup a (put v s) ≡ (if account_eq v.account a then some v else lookup a s)
unfolding lookup put
lookup-put a v [] = refl
lookup-put a v (r ∷ s) = ground (
  arith,
  account_eq_iff r.account v.account,
  account_eq_iff r.account a,
  account_eq_iff v.account a,
  lookup-put a v s,
)

-- `_validate_identity`, `_validate_time`
abbrev pub identity_check : AccountRef → Bool × Error
identity_check a = (
  is_blank a.broker_name || is_blank a.account_id,
  value_error "broker_name and account_id are required",
)

abbrev pub time_check : Datetime → Bool × Error
time_check t = (not t.is_aware, value_error "recovery lock updated_at must be timezone-aware")

-- `tuple(dict.fromkeys(codes))`: each code once, at its first place.
pub remove_code : String → List String → List String
remove_code c [] = []
remove_code c (d ∷ ds) = if str_eq d c then remove_code c ds else d ∷ remove_code c ds

unfoldable pub unique_codes : List String → List String
unfolding remove_code
unique_codes [] = []
unique_codes (c ∷ cs) = c ∷ remove_code c (unique_codes cs)

abbrev pub required_code : List String
required_code = "reconciliation_required" ∷ []

-- `a or b` on tuples.
abbrev pub or_codes : List String → List String → List String
or_codes [] ds = ds
or_codes (c ∷ cs) ds = c ∷ cs

-- The row that `state` inserts for an account without one.
abbrev pub first_lock : AccountRef → Datetime → RecoveryState
first_lock a now = record {
  account = a;
  status = locked;
  updated_at = now;
  generation = 0;
  issue_codes = required_code;
}

abbrev pub state_found :
    AccountRef → Datetime → Locks → Option RecoveryState → RecoveryState × Locks
state_found a now s none = (first_lock a now, put (first_lock a now) s)
state_found a now s (some r) = (r, s)

unfoldable pub answer {ℓ} :
    {A : Type ℓ} → Locks → Result (Unit {0}) → Result (A × Locks) → Result A × Locks
answer s (raised e) r = (raised e, s)
answer s (ok _) (raised e) = (raised e, s)
answer s (ok _) (ok (a, t)) = (ok a, t)

-- `state`; `now` is the clock that a first read takes.
unfoldable pub state : AccountRef → Datetime → Locks → Result RecoveryState × Locks
state a now s = answer s (checks (identity_check a ∷ [])) (ok (state_found a now s (lookup a s)))

abbrev pub next_generation : Option RecoveryState → ℕ
next_generation none = 1
next_generation (some r) = r.generation + 1

-- The upsert of `begin` and `force_lock`.
abbrev pub bumped : AccountRef → RecoveryStatus → List String → Datetime → Locks → RecoveryState
bumped a st codes now s = record {
  account = a;
  status = st;
  updated_at = now;
  generation = next_generation (lookup a s);
  issue_codes = codes;
}

abbrev pub bump :
    AccountRef → RecoveryStatus → List String → Datetime → Locks → Result RecoveryState × Locks
bump a st codes now s =
    answer s (checks (identity_check a ∷ time_check now ∷ []))
      (ok (bumped a st codes now s, put (bumped a st codes now s) s))

unfoldable pub begin : AccountRef → Datetime → Locks → Result RecoveryState × Locks
begin a now s = bump a reconciling ("reconciliation_in_progress" ∷ []) now s

unfoldable pub force_lock :
    AccountRef → List String → Datetime → Locks → Result RecoveryState × Locks
force_lock a codes now s = bump a locked (or_codes (unique_codes codes) required_code) now s

abbrev pub completed_status : List String → RecoveryStatus
completed_status [] = ready
completed_status (_ ∷ _) = locked

abbrev pub stale : Error
stale = runtime_error "stale recovery reconciliation cannot change lock"

abbrev pub completed : List String → Datetime → RecoveryState → RecoveryState
completed codes now r = record r {
  status = completed_status codes;
  updated_at = now;
  issue_codes = unique_codes codes;
}

-- `UPDATE ... WHERE broker_name=? AND account_id=? AND generation=?`, and its row count.
abbrev pub complete_found :
    List String → ℕ → Datetime → Locks → Option RecoveryState → Result (RecoveryState × Locks)
complete_found codes g now s none = raised stale
complete_found codes g now s (some r) =
    if r.generation == g
    then ok (completed codes now r, put (completed codes now r) s)
    else raised stale

abbrev pub completion_checks : AccountRef → ℕ → Datetime → List (Bool × Error)
completion_checks a g now =
    identity_check a
    ∷ time_check now
    ∷ (ltb g 1, value_error "expected_generation must be positive")
    ∷ []

unfoldable pub complete :
    AccountRef → List String → ℕ → Datetime → Locks → Result RecoveryState × Locks
complete a codes g now s =
    answer s (checks (completion_checks a g now)) (complete_found codes g now s (lookup a s))

abbrev pub is_ready : RecoveryStatus → Bool
is_ready ready = true
is_ready _ = false

abbrev pub if_ready : Result RecoveryState → Result (Unit {0})
if_ready r =
    r >>= λ x. raise_if (not (is_ready x.status)) (runtime_error "live recovery lock is active")

-- `assert_ready`, which `RecoveryOrderGate.assert_ordering_allowed` calls.
unfoldable pub assert_ready : AccountRef → Datetime → Locks → Result (Unit {0}) × Locks
assert_ready a now s = (if_ready (state a now s).0, (state a now s).1)

-- A call, with its arguments.
pub data Op : Type 0 where
  state_op begin_op assert_op : AccountRef → Datetime → Op
  force_op : AccountRef → List String → Datetime → Op
  complete_op : AccountRef → List String → ℕ → Datetime → Op

unfoldable pub after : Op → Locks → Locks
after (state_op a now) s = (state a now s).1
after (begin_op a now) s = (begin a now s).1
after (assert_op a now) s = (assert_ready a now s).1
after (force_op a codes now) s = (force_lock a codes now s).1
after (complete_op a codes g now) s = (complete a codes g now s).1

unfoldable pub after_all : List Op → Locks → Locks
after_all [] s = s
after_all (op ∷ ops) s = after_all ops (after op s)
