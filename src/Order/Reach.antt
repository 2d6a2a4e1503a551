-- ===== src/Order/Reach.antt =====
-- Lives of an order: every sequence of accepted calls of `transition_order`
-- (tw_quant/broker/lifecycle.py).
use codex_tw_quant_trading_s.Base.{◌≡◌, Bool, true, false, none, arith, ok}
use codex_tw_quant_trading_s.Base.Int.{◌≤ℤ◌}
use codex_tw_quant_trading_s.Order.Models.{
  Status, created, risk_approved, partially_filled, cancel_pending, cancelled, rejected, status_eq,
  Order, is_terminal,
}
use codex_tw_quant_trading_s.Order.Lifecycle.{Update, is_allowed, updated_order, transition_order}
use codex_tw_quant_trading_s.Order.Laws.{
  IsValid, Advances, transition_order-IsValid, make_order_of_IsValid,
}

-- `p` comes from `o` by accepted calls.
pub data Reach (o : Order) : Order → Type 0 where
  here : Reach o o
  next : {p : Order} (q : Order) (u : Update) → Reach o p → transition_order p u ≡ ok q → Reach o q

-- The states from which the order may have been sent.
abbrev pub may_be_sent : Status → Bool
may_be_sent created = false
may_be_sent risk_approved = false
may_be_sent _ = true

may_be_sent-step :
    (s t : Status) → is_allowed s t ≡ true → may_be_sent s ≡ true → may_be_sent t ≡ true
unfolding is_allowed
may_be_sent-step s t a m = ground arith

-- What holds of an order reached from a valid one.
pub record Follows (o p : Order) : Type 0 where
  pub valid : IsValid p
  pub same_request : p.request ≡ o.request
  pub grows : o.filled_quantity ≤ℤ p.filled_quantity
  pub stays_sent : may_be_sent o.status ≡ true → may_be_sent p.status ≡ true

advance-Follows : (o p q : Order) → Follows o p → IsValid q → Advances p q → Follows o q
advance-Follows o p q f v a = ground (arith, may_be_sent-step p.status q.status)

-- Along any life of a valid order the request stays the same, the order stays valid, the filled
-- quantity never falls, and once the order may have been sent to the broker it never goes back to
-- a state in which it has not.
pub Reach-Follows : (o p : Order) → IsValid o → Reach o p → Follows o p
Reach-Follows o p v here = ground arith
Reach-Follows o p v (next {p = m} q u r h) =
    let f = Reach-Follows o m v r in
    let (w, a) = transition_order-IsValid m u q f.valid h in advance-Follows o m q f w a

-- The terminal state that the table allows from each other state.
abbrev pub way_out : Status → Status
way_out partially_filled = cancelled
way_out cancel_pending = cancelled
way_out _ = rejected

abbrev ending : Order → Update
ending o = record {
  status = way_out o.status;
  updated_at = o.updated_at;
  broker_order_id = none;
  filled_quantity = none;
  average_fill_price = none;
  status_reason = none;
}

ending-IsValid : (o : Order) → IsValid o → IsValid (updated_order o (ending o))
unfolding updated_order
ending-IsValid o v = record {
  aware = v.aware;
  nonneg = v.nonneg;
  bounded = v.bounded;
  priced = v.priced;
  price_positive = v.price_positive;
  filled_exact = ground arith;
}

way_out-is_allowed :
    (s : Status)
    → is_terminal s ≡ false
    → (is_allowed s (way_out s) ≡ true) × (status_eq (way_out s) s ≡ false)
unfolding is_allowed status_eq
way_out-is_allowed s h = ground arith

-- No valid order is stuck: from every state that is not terminal one call, at the order's own time, leads
-- to a terminal state.
pub nonterminal_can_end :
    (o : Order)
    → IsValid o
    → is_terminal o.status ≡ false
    → (u : Update) × (p : Order) × (transition_order o u ≡ ok p) × (is_terminal p.status ≡ true)
unfolding transition_order updated_order
nonterminal_can_end o v t = (
  ending o,
  updated_order o (ending o),
  ground (
    arith,
    way_out-is_allowed o.status t,
    make_order_of_IsValid (updated_order o (ending o)) (ending-IsValid o v),
  ),
  ground arith,
)
