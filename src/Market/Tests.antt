-- ===== src/Market/Tests.antt =====
-- Trading dates at a Friday, 6 November 2026, and at the day before.
use codex_tw_quant_trading_s.Base.{
  ok, ◌⊎◌, ℕ, ◌+◌, ◌≤◌, false, ◌↔◌, ◌≡◌, none, some, All, [], ◌∷◌, ◌++◌, refl, arith,
}
use codex_tw_quant_trading_s.Samples.{at_time, whole}
use codex_tw_quant_trading_s.Market.Quotes.{ExecutionQuote, instrument_of, get_quote}
use codex_tw_quant_trading_s.Market.Newest.{update_all, received, IsOneOf, latest_quote}
use codex_tw_quant_trading_s.Market.Sessions.{
  is_closed, next_open, date_max, overflow, next_trading_day, at_clock, classify_tmf_session,
}
use codex_tw_quant_trading_s.Market.Dates.{
  IsFirstOpen, AllClosed, next_trading_day-first, night_has_one_date,
}

abbrev friday : ℕ
friday = 739926

monday_follows : next_trading_day [] friday ≡ ok (friday + 3)
unfolding next_trading_day next_open is_closed
monday_follows = refl

-- 31 December 9999 is the last date, a Friday; no later day can be reached.
last_date_raises : next_trading_day [] date_max ≡ overflow
unfolding next_trading_day
last_date_raises = refl

next_trading_day-first_example :
    ((t : ℕ) × (next_trading_day [] friday ≡ ok t) × IsFirstOpen [] (friday + 1) date_max t)
    ⊎ ((next_trading_day [] friday ≡ overflow) × AllClosed [] (friday + 1) date_max)
next_trading_day-first_example = next_trading_day-first [] friday (omega arith)

night_has_one_date_example :
    (classify_tmf_session [] (record { date = friday; clock = at_clock 22 0 })
      ≡ classify_tmf_session [] (record { date = friday + 1; clock = at_clock 1 0 }))
    ↔ (is_closed [] (friday + 1) ≡ false)
night_has_one_date_example =
    night_has_one_date [] friday (at_clock 22 0) (at_clock 1 0) (omega arith) (omega arith)
      (omega arith)

abbrev quote_at : ℕ → ExecutionQuote whole
quote_at n = record {
  symbol = "TMF";
  contract = "TMFR1";
  best_bid = none;
  best_ask = none;
  last_price = none;
  exchange_time = at_time n;
  received_at = at_time n;
  source = "feed";
}

latest_quote_example :
    (q : ExecutionQuote whole) × (get_quote whole "TMF" "TMFR1"
        (update_all whole ((quote_at 5 ∷ []) ++ quote_at 9 ∷ quote_at 7 ∷ []) [])
      ≡ some q)
    × IsOneOf whole
        (instrument_of whole (quote_at 9))
        q
        ((quote_at 5 ∷ []) ++ quote_at 9 ∷ quote_at 7 ∷ [])
    × All
        (λ p.
          instrument_of whole p ≡ instrument_of whole (quote_at 9)
          → received whole p ≤ received whole q)
        ((quote_at 5 ∷ []) ++ quote_at 9 ∷ quote_at 7 ∷ [])
latest_quote_example = latest_quote whole (quote_at 5 ∷ []) (quote_at 7 ∷ []) (quote_at 9)
