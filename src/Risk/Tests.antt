-- ===== src/Risk/Tests.antt =====
-- The admission of one entry and one exit, with integers in the place of floating-point numbers.
use codex_tw_quant_trading_s.Base.{◌≡◌, refl, true, some, [], ◌∷◌, Option, none, ok, String, arith}
use codex_tw_quant_trading_s.Base.Int.{ℤ, pos, negsuc, abs, ◌+ℤ◌, ◌*ℤ◌}
use codex_tw_quant_trading_s.Risk.Live.{
  Config, Candidate, Context, Quote, Instrument, Approval, flatten, evaluate, risk_verdict, decided,
  signed_quantity,
}
use codex_tw_quant_trading_s.Risk.Entry.{IsSafeEntry, evaluate-IsSafeEntry, evaluate-returns}
use codex_tw_quant_trading_s.Risk.Exit.{evaluate-reduces, exit_ignores_limits}
use codex_tw_quant_trading_s.Samples.{whole, at_time}

abbrev limits : Config whole
limits = record {
  allowed_symbols = "TMF" ∷ [];
  allowed_contracts = "TMFR1" ∷ [];
  max_order_quantity = pos 2;
  max_account_position_contracts = pos 2;
  max_owner_portfolio_position_contracts = pos 2;
  max_risk_per_trade = pos 5000;
  max_daily_loss = pos 10000;
  max_daily_trades = pos 10;
  max_pending_orders = pos 1;
  max_quote_age_seconds = pos 2;
  max_slippage_ticks = pos 2;
  allowed_sessions = "day" ∷ [];
  expiry_guard_days = pos 2;
  max_active_live_runtimes = pos 1;
  version = "live-risk:0";
}

abbrev candidate : String → Candidate whole
candidate action = record {
  symbol = "TMF";
  contract = "TMFR1";
  action = action;
  direction = "long";
  quantity = pos 1;
  planned_stop_price = some (pos 22900);
  session = "day";
}

abbrev situation : ℤ → Context whole
situation position = record {
  now = at_time 100;
  today = pos 1;
  recovery_status = "ready";
  broker_connected = true;
  broker_truth_captured_at = some (at_time 98);
  market_status = "healthy";
  account_position = some position;
  owner_portfolio_position = some position;
  working_order_quantity = some (pos 0);
  owner_working_order_quantity = some (pos 0);
  pending_order_count = some (pos 0);
  daily_realized_pnl = some (negsuc 99);
  daily_trade_count = some (pos 3);
  active_live_runtimes = pos 1;
  account_reservation_quantity = pos 0;
  portfolio_reservation_quantity = pos 0;
  kill_switches = [];
}

abbrev market : Option (Quote whole)
market =
    some (record {
      best_bid = some (pos 22999);
      best_ask = some (pos 23000);
      received_at = at_time 99;
    })

abbrev future : Instrument whole
future = record {
  symbol = "TMF";
  contract = "TMFR1";
  tick_size = pos 1;
  multiplier = pos 10;
  expiry_date = some (pos 20);
  commission_per_side = pos 10;
  tax_rate = pos 0;
}

evaluate-IsSafeEntry_example :
    IsSafeEntry whole limits
      (candidate "entry")
      (situation (pos 1))
      market
      future
      (decided whole limits true "approved" (some (pos 1040)) [])
unfolding evaluate risk_verdict ◌+ℤ◌ ◌*ℤ◌
evaluate-IsSafeEntry_example =
    evaluate-IsSafeEntry whole limits (candidate "entry") (situation (pos 1)) market future
      (decided whole limits true "approved" (some (pos 1040)) []) refl refl refl

evaluate-returns_example :
    (a : Approval whole) × (evaluate whole limits
        (candidate "entry")
        (situation (pos 2))
        market
        future
      ≡ ok a)
evaluate-returns_example =
    evaluate-returns whole limits (candidate "entry") (situation (pos 2)) market future

evaluate-reduces_example :
    (p : ℤ) × (some (pos 2) ≡ some p)
    × (pos (abs (p +ℤ signed_quantity whole (candidate "exit"))) +ℤ pos 1 ≡ pos (abs p))
unfolding evaluate ◌+ℤ◌ ◌*ℤ◌
evaluate-reduces_example =
    evaluate-reduces whole limits (candidate "exit") (situation (pos 2)) market future
      (decided whole limits true "risk_reducing_approved" none []) refl (omega arith) refl refl

exit_ignores_limits_example :
    evaluate whole limits
      (candidate "exit")
      (record (situation (pos 2)) {
        kill_switches = flatten ∷ [];
        pending_order_count = none;
        daily_trade_count = some (pos 50);
        daily_realized_pnl = none;
        active_live_runtimes = pos 9;
      })
      market
      future
    ≡ evaluate whole limits (candidate "exit") (situation (pos 2)) market future
exit_ignores_limits_example =
    exit_ignores_limits whole limits (candidate "exit") (situation (pos 2)) market future
      (flatten ∷ []) none (some (pos 50)) none (pos 9) refl
