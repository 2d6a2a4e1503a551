-- ===== src/Samples.antt =====
-- Concrete data that the tests of several modules share.
use codex_tw_quant_trading_s.Base.{◌/◌, String, ℕ, true, false, none, some, ok}
use codex_tw_quant_trading_s.Base.Int.{ℤ, pos, neg, abs, ◌+ℤ◌, ◌*ℤ◌, leb_ℤ, ltb_ℤ}
use codex_tw_quant_trading_s.Identity.{AccountRef}
use codex_tw_quant_trading_s.Python.{Python}
use codex_tw_quant_trading_s.Order.{Datetime, finite, Request, Order, Status, live}

abbrev pub at_time : ℕ → Datetime
at_time n = record { instant = n; is_aware = true }

abbrev pub account_1 : AccountRef
account_1 = record { broker_name = "shioaji"; account_id = "F001" }

-- A live market order for two contracts.
abbrev pub request_for : String → Request
request_for k = record {
  client_order_id = k;
  owner_id = "owner";
  strategy_id = "orb";
  strategy_version = pos 1;
  symbol = "TMF";
  contract = "TMFR1";
  side = "buy";
  quantity = pos 2;
  mode = live;
  order_type = "market";
  time_in_force = "ioc";
  limit_price = none;
  stop_price = none;
  reference_price = some (finite (pos 23000));
  risk_stop_price = some (finite (pos 22900));
  reduce_only = false;
  purpose = "entry";
  reason = "signal";
  correlation_id = none;
  causation_id = none;
  source = "strategy";
  arm_id = none;
}

abbrev pub order_in : Status → String → Order
order_in st k = record {
  request = request_for k;
  status = st;
  updated_at = at_time 10;
  broker_order_id = some "B1";
  filled_quantity = pos 0;
  average_fill_price = none;
  status_reason = none;
}

-- Integers in the place of floating-point numbers; its division is that of absolute values.
abbrev pub whole : Python
whole = record {
  float = ℤ;
  add = λ a b. a +ℤ b;
  sub = λ a b. a +ℤ neg b;
  mul = λ a b. a *ℤ b;
  div = λ a b. pos (abs a / abs b);
  negate = neg;
  magnitude = λ a. pos (abs a);
  of_int = λ a. a;
  rounded = λ a. ok a;
  ceil = λ a. a;
  seconds = λ a. a;
  is_le = leb_ℤ;
  is_lt = ltb_ℤ;
  object = Unit;
  str_int = λ _. "1";
  isoformat = λ _. "2026-01-02";
  sha256 = λ s. s;
  str_float = λ _. "1";
  taipei_date = λ t. pos (t.instant / 86400000000);
}
