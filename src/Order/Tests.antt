-- ===== src/Order/Tests.antt =====
-- The order theorems at concrete orders.
use codex_tw_quant_trading_s.Base.{
  ◌≡◌, ◌⊎◌, refl, true, none, some, Error, ok, raised, is_blank, str_length,
}
use codex_tw_quant_trading_s.Base.Int.{pos}
use codex_tw_quant_trading_s.Order.Models.{
  finite, Order, make_order, status_eq, accepted, partially_filled, cancelled, is_terminal,
  check_request,
}
use codex_tw_quant_trading_s.Order.Lifecycle.{Update, is_allowed, updated_order, transition_order}
use codex_tw_quant_trading_s.Order.Laws.{
  IsValid, Advances, make_order-ok, transition_order-IsValid, terminal_absorbs,
}
use codex_tw_quant_trading_s.Order.Reach.{here, next, Follows, Reach-Follows, nonterminal_can_end}
use codex_tw_quant_trading_s.Samples.{at_time, request_for, order_in}

abbrev resting : Order
resting = order_in accepted "c1"

resting-IsValid : IsValid resting
unfolding make_order status_eq
resting-IsValid = (make_order-ok resting resting refl).1

abbrev half_fill : Update
half_fill = record {
  status = partially_filled;
  updated_at = at_time 11;
  broker_order_id = none;
  filled_quantity = some (pos 1);
  average_fill_price = some (finite (pos 23001));
  status_reason = none;
}

half_filled : transition_order resting half_fill ≡ ok (updated_order resting half_fill)
unfolding transition_order updated_order make_order status_eq is_allowed
half_filled = refl

transition_order-IsValid_example :
    IsValid (updated_order resting half_fill) × Advances resting (updated_order resting half_fill)
transition_order-IsValid_example =
    transition_order-IsValid resting half_fill (updated_order resting half_fill) resting-IsValid
      half_filled

terminal_absorbs_example :
    (transition_order (order_in cancelled "c1") half_fill ≡ ok (order_in cancelled "c1"))
    ⊎ ((e : Error) × (transition_order (order_in cancelled "c1") half_fill ≡ raised e))
terminal_absorbs_example = terminal_absorbs (order_in cancelled "c1") half_fill refl

Reach-Follows_example : Follows resting (updated_order resting half_fill)
Reach-Follows_example =
    Reach-Follows resting (updated_order resting half_fill) resting-IsValid
      (next (updated_order resting half_fill) half_fill here half_filled)

nonterminal_can_end_example :
    (u : Update) × (p : Order) × (transition_order resting u ≡ ok p) × (is_terminal p.status ≡ true)
nonterminal_can_end_example = nonterminal_can_end resting resting-IsValid refl

request-checks : check_request (request_for "c1") ≡ ok tt
unfolding check_request is_blank str_length
request-checks = refl
