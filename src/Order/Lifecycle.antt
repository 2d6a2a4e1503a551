-- ===== src/Order/Lifecycle.antt =====
-- tw_quant/broker/lifecycle.py.
use codex_tw_quant_trading_s.Base.{
  String, Bool, true, false, not, ◌&&◌, Option, none, some, Result, raise_if, type_error,
  invalid_transition, ◌>>◌, ok, raised, has_text, ltb, if◌then◌else◌,
}
use codex_tw_quant_trading_s.Base.Int.{ℤ, ltb_ℤ}
use codex_tw_quant_trading_s.Order.Models.{
  Price, Datetime, Status, created, risk_approved, submitting, accepted, partially_filled, filled,
  cancel_pending, cancelled, rejected, expired, unknown, status_eq, Order, make_order,
}

-- `_ALLOWED_TRANSITIONS`: terminal states have no entry.
unfoldable pub is_allowed : Status → Status → Bool
is_allowed created risk_approved = true
is_allowed created rejected = true
is_allowed risk_approved submitting = true
is_allowed risk_approved rejected = true
is_allowed risk_approved unknown = true
is_allowed submitting accepted = true
is_allowed submitting partially_filled = true
is_allowed submitting filled = true
is_allowed submitting rejected = true
is_allowed submitting unknown = true
is_allowed accepted partially_filled = true
is_allowed accepted filled = true
is_allowed accepted cancel_pending = true
is_allowed accepted cancelled = true
is_allowed accepted rejected = true
is_allowed accepted expired = true
is_allowed accepted unknown = true
is_allowed partially_filled partially_filled = true
is_allowed partially_filled filled = true
is_allowed partially_filled cancel_pending = true
is_allowed partially_filled cancelled = true
is_allowed partially_filled expired = true
is_allowed partially_filled unknown = true
is_allowed cancel_pending cancelled = true
is_allowed cancel_pending partially_filled = true
is_allowed cancel_pending filled = true
is_allowed cancel_pending unknown = true
is_allowed unknown accepted = true
is_allowed unknown partially_filled = true
is_allowed unknown filled = true
is_allowed unknown cancelled = true
is_allowed unknown rejected = true
is_allowed unknown expired = true
is_allowed _ _ = false

-- `a or b` on texts that may be missing.
abbrev or_text : Option String → Option String → Option String
or_text a b = if has_text a then a else b

-- `b if a is None else a`
abbrev given_or {ℓ} : {A : Type ℓ} → Option A → A → A
given_or none b = b
given_or (some a) b = a

abbrev given_or_opt {ℓ} : {A : Type ℓ} → Option A → Option A → Option A
given_or_opt none b = b
given_or_opt (some a) b = some a

-- `filled_quantity is not None and filled_quantity < order.filled_quantity`
abbrev pub decreases : Option ℤ → ℤ → Bool
decreases none old = false
decreases (some q) old = ltb_ℤ q old

-- The keyword arguments of `transition_order`.
pub record Update : Type 0 where
  pub status : Status
  pub updated_at : Datetime
  pub broker_order_id : Option String
  pub filled_quantity : Option ℤ
  pub average_fill_price : Option Price
  pub status_reason : Option String

-- `<` on datetimes raises if only one of them carries a time zone.
abbrev pub same_awareness : Bool → Bool → Bool
same_awareness true b = b
same_awareness false b = not b

-- The order after `replace`, before its checks.
unfoldable pub updated_order : Order → Update → Order
updated_order o u = record o {
  status = u.status;
  updated_at = u.updated_at;
  broker_order_id = or_text u.broker_order_id o.broker_order_id;
  filled_quantity = given_or u.filled_quantity o.filled_quantity;
  average_fill_price = given_or_opt u.average_fill_price o.average_fill_price;
  status_reason = u.status_reason;
}

-- `transition_order`; `replace` runs the checks of `BrokerOrder` again.
unfoldable pub transition_order : Order → Update → Result Order
transition_order o u = do
  raise_if (not (same_awareness u.updated_at.is_aware o.updated_at.is_aware))
      (type_error "can't compare offset-naive and offset-aware datetimes")
  raise_if (ltb u.updated_at.instant o.updated_at.instant)
      (invalid_transition "order lifecycle time cannot move backwards")
  raise_if (decreases u.filled_quantity o.filled_quantity)
      (invalid_transition "filled quantity cannot decrease")
  if status_eq u.status o.status && not (status_eq u.status partially_filled)
      then ok o
      else if not (is_allowed o.status u.status)
      then raised (invalid_transition "order status")
      else make_order (updated_order o u)
