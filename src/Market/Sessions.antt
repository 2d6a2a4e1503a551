-- ===== src/Market/Sessions.antt =====
-- tw_quant/market/sessions.py: the sessions of TMF and their trading dates. A date is its ordinal, from 1 to
-- `date_max`, a local time the date and the microsecond of the day in Taipei, into which the source
-- converts first.
-- `frozenset` is a list, of which only the membership is read.
use codex_tw_quant_trading_s.Base.{
  ℕ, zero, suc, ◌+◌, ◌-◌, ◌*◌, ◌%◌, Bool, ◌&&◌, ◌||◌, List, Result, ok, raised, value_error,
  overflow_error, ◌>>=◌, if◌then◌else◌, any, leb, ◌==◌,
}

-- `TradingCalendar`, by its holidays.
abbrev pub Calendar : Type 0
Calendar = List ℕ

-- `date.weekday()` of an ordinal, with Monday as 0.
abbrev pub weekday : ℕ → ℕ
weekday d = (d + 6) % 7

-- The test of the loop of `next_trading_day`.
unfoldable pub is_closed : Calendar → ℕ → Bool
is_closed c d = leb 5 (weekday d) || any (λ h. h == d) c

-- `date.max`
abbrev pub date_max : ℕ
date_max = 3652059

-- `candidate += timedelta(days=1)`
abbrev pub overflow {ℓ} : {A : Type ℓ} → Result A
overflow = raised (overflow_error "date value out of range")

-- The loop of `next_trading_day`, from a candidate; `left` is the number of days from it to `date.max`.
unfoldable pub next_open : ℕ → Calendar → ℕ → Result ℕ
next_open zero c d = if is_closed c d then overflow else ok d
next_open (suc left) c d =
    let rest = next_open left c (d + 1) in if is_closed c d then rest else ok d

-- `next_trading_day`
unfoldable pub next_trading_day : Calendar → ℕ → Result ℕ
next_trading_day c d = if leb date_max d then overflow else next_open (date_max - (d + 1)) c (d + 1)

-- A local time.
pub record LocalTime : Type 0 where
  pub date : ℕ
  pub clock : ℕ

-- `time(hour, minute)`
abbrev pub at_clock : ℕ → ℕ → ℕ
at_clock hour minute = (hour * 60 + minute) * 60000000

pub data Session : Type 0 where
  day night : Session

abbrev pub session_on : Session → Result ℕ → Result (Session × ℕ)
session_on s r = r >>= λ d. ok (s, d)

-- `classify_tmf_session`
unfoldable pub classify_tmf_session : Calendar → LocalTime → Result (Session × ℕ)
classify_tmf_session c t =
    if leb (at_clock 8 45) t.clock && leb t.clock (at_clock 13 45)
    then ok (day, t.date)
    else if leb (at_clock 15 0) t.clock
    then session_on night (next_trading_day c t.date)
    else if leb t.clock (at_clock 5 0)
    then ok (night, t.date)
    else raised (value_error "outside the configured TMF sessions")
