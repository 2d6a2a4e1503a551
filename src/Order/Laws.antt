-- ===== src/Order/Laws.antt =====
-- What `BrokerOrder.__post_init__` and `transition_order` of tw_quant/broker promise.
use codex_tw_quant_trading_s.Base.{
  ◌≤◌, ◌≡◌, refl, ap, ◌≢◌, ◌⊎◌, inl, inr, true, false, arith, Result, ok, raised, Error, is_some,
}
use codex_tw_quant_trading_s.Base.Int.{pos, ◌≤ℤ◌}
use codex_tw_quant_trading_s.Order.Models.{
  Status, filled, Order, make_order, is_terminal, not_positive, status_eq,
}
use codex_tw_quant_trading_s.Order.Lifecycle.{
  Update, is_allowed, updated_order, transition_order, decreases,
}

-- What the checks of `BrokerOrder` say of an order.
pub record IsValid (o : Order) : Type 0 where
  pub aware : o.updated_at.is_aware ≡ true
  pub nonneg : pos 0 ≤ℤ o.filled_quantity
  pub bounded : o.filled_quantity ≤ℤ o.request.quantity
  pub priced : o.filled_quantity ≢ pos 0 → is_some o.average_fill_price ≡ true
  pub price_positive : not_positive o.average_fill_price ≡ false
  pub filled_exact : o.status ≡ filled → o.filled_quantity ≡ o.request.quantity

pub make_order-ok : (o o' : Order) → make_order o ≡ ok o' → (o' ≡ o) × IsValid o
unfolding make_order status_eq
make_order-ok o o' h = ground arith

pub make_order_of_IsValid : (o : Order) → IsValid o → make_order o ≡ ok o
unfolding make_order status_eq
make_order_of_IsValid o v = ground arith

-- How one call may change an order.
pub record Advances (o o' : Order) : Type 0 where
  pub same_request : o'.request ≡ o.request
  pub grows : o.filled_quantity ≤ℤ o'.filled_quantity
  pub later : o.updated_at.instant ≤ o'.updated_at.instant
  pub step : (o' ≡ o) ⊎ (is_allowed o.status o'.status ≡ true)

-- The two ways in which a call returns.
transition_order-ok :
    (o : Order) (u : Update) (o' : Order)
    → transition_order o u ≡ ok o'
    → (o' ≡ o)
      ⊎ (is_allowed o.status u.status ≡ true)
        × (make_order (updated_order o u) ≡ ok o')
        × (o.updated_at.instant ≤ u.updated_at.instant)
        × (decreases u.filled_quantity o.filled_quantity ≡ false)
unfolding transition_order
transition_order-ok o u o' h = ground arith

updated_order-Advances :
    (o : Order) (u : Update)
    → is_allowed o.status u.status ≡ true
    → o.updated_at.instant ≤ u.updated_at.instant
    → decreases u.filled_quantity o.filled_quantity ≡ false
    → Advances o (updated_order o u)
unfolding updated_order
updated_order-Advances o u a t d = ground arith

Advances-refl : (o : Order) → Advances o o
Advances-refl o = ground arith

-- A transition that a valid order accepts returns an order that passes the constructor's checks, for the
-- same request, with no smaller filled quantity and no earlier time. The order is the one given,
-- or its status follows from the old one by the table of allowed transitions.
pub transition_order-IsValid :
    (o : Order) (u : Update) (o' : Order)
    → IsValid o
    → transition_order o u ≡ ok o'
    → IsValid o' × Advances o o'
transition_order-IsValid o u o' v h = elim (transition_order-ok o u o' h) [
  | inl e ↦ rw e (v, Advances-refl o)
  | inr (a, m, t, d) ↦
      let (e, w) = make_order-ok (updated_order o u) o' m in
      rw e (w, updated_order-Advances o u a t d)
]

is_allowed_of_is_terminal : (s t : Status) → is_terminal s ≡ true → is_allowed s t ≡ false
unfolding is_allowed
is_allowed_of_is_terminal s t h = ground arith

-- No call changes an order in a terminal state: it raises, or it returns the order as it was.
pub terminal_absorbs :
    (o : Order) (u : Update)
    → is_terminal o.status ≡ true
    → (transition_order o u ≡ ok o) ⊎ ((e : Error) × (transition_order o u ≡ raised e))
terminal_absorbs o u t = go (transition_order o u) refl
  where
    go : (r : Result Order) → transition_order o u ≡ r → (r ≡ ok o) ⊎ ((e : Error) × (r ≡ raised e))
    go (ok o') h = elim (transition_order-ok o u o' h) [
      | inl e ↦ inl (ap ok e)
      | inr (a, m, t', d) ↦ absurd (cc (is_allowed_of_is_terminal o.status u.status t))
    ]
    go (raised e) h = inr (e, refl)
