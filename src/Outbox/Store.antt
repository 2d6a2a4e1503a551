-- ===== src/Outbox/Store.antt =====
-- tw_quant/broker/repository.py: the tables as the one connection sees them, and the reads. A call
-- returns its result, or the exception, with the tables that it leaves. `in_transaction` says that
-- an exception left a transaction open: no code rolls it back, so its writes stay visible, and the
-- next `BEGIN IMMEDIATE` raises. The JSON text of a request is read as the request that was written.
use codex_tw_quant_trading_s.Base.{
  ℕ, String, Bool, true, false, not, ◌&&◌, Option, none, some, List, any, find, update_where,
  Result, ok, raised, integrity_error, operational_error, Error, value_error, ◌>>=◌, ◌>>◌, raise_if,
  str_eq, opt_str_eq, has_text, is_blank, if◌then◌else◌, is_some,
}
use codex_tw_quant_trading_s.Base.Int.{ℤ}
pub use codex_tw_quant_trading_s.Identity.{AccountRef}
use codex_tw_quant_trading_s.Order.{
  Price, Datetime, Status, Request, Order, make_order, ExecutionMode, live, paper,
}

pub record RoutedRequest : Type 0 where
  pub target : AccountRef
  pub request : Request

pub record RoutedOrder : Type 0 where
  pub target : AccountRef
  pub order : Order

-- A row of `live_orders`.
pub record OrderRow : Type 0 where
  pub client_order_id : String
  pub owner_user_id : String
  pub broker_name : Option String
  pub account_id : Option String
  pub request : Request
  pub status : Status
  pub broker_order_id : Option String
  pub filled_quantity : ℤ
  pub average_fill_price : Option Price
  pub status_reason : Option String
  pub updated_at : Datetime

pub data OutboxState : Type 0 where
  pending processing completed blocked resolved : OutboxState

abbrev pub is_pending : OutboxState → Bool
is_pending pending = true
is_pending _ = false

abbrev pub is_processing : OutboxState → Bool
is_processing processing = true
is_processing _ = false

abbrev pub is_blocked : OutboxState → Bool
is_blocked blocked = true
is_blocked _ = false

-- A row of `live_order_outbox` or `live_cancel_outbox`.
pub record OutboxRow : Type 0 where
  pub client_order_id : String
  pub broker_name : Option String
  pub account_id : Option String
  pub state : OutboxState
  pub attempt_count : ℕ
  pub created_at : Datetime
  pub updated_at : Datetime

pub record Store : Type 0 where
  pub orders : List OrderRow
  pub outbox : List OutboxRow
  pub cancels : List OutboxRow
  pub in_transaction : Bool

-- `WHERE client_order_id=?` on the tables.
abbrev pub has_id : String → OutboxRow → Bool
has_id k x = str_eq x.client_order_id k

abbrev pub order_has_id : String → OrderRow → Bool
order_has_id k r = str_eq r.client_order_id k

-- `WHERE broker_name=? AND account_id=?`; a missing name equals nothing.
abbrev pub at_target : AccountRef → Option String → Option String → Bool
at_target t b a = opt_str_eq b (some t.broker_name) && opt_str_eq a (some t.account_id)

-- `_target`
unfoldable pub account_of : Option String → Option String → Option AccountRef
account_of (some b) (some a) = some (record { broker_name = b; account_id = a })
account_of _ _ = none

abbrev pub row_target : OrderRow → Option AccountRef
row_target r = account_of r.broker_name r.account_id

-- A text of a column: the empty one reads as missing.
abbrev pub text_or_none : Option String → Option String
text_or_none t = if has_text t then t else none

-- `_order`
unfoldable pub row_order : OrderRow → Result Order
row_order r = make_order (record {
  request = r.request;
  status = r.status;
  updated_at = r.updated_at;
  broker_order_id = text_or_none r.broker_order_id;
  filled_quantity = r.filled_quantity;
  average_fill_price = r.average_fill_price;
  status_reason = text_or_none r.status_reason;
})

abbrev pub is_live : ExecutionMode → Bool
is_live live = true
is_live paper = false

-- `RoutedBrokerOrder(...)`, with its check.
abbrev pub make_routed : AccountRef → Order → Result RoutedOrder
make_routed t o =
    raise_if (not (is_live o.request.mode))
      (value_error "routed broker orders must use live execution mode")
    >> ok (record { target = t; order = o })

-- The row that `_update_order` writes.
abbrev pub written : Order → OrderRow → OrderRow
written o r = record r {
  status = o.status;
  broker_order_id = o.broker_order_id;
  filled_quantity = o.filled_quantity;
  average_fill_price = o.average_fill_price;
  status_reason = o.status_reason;
  updated_at = o.updated_at;
}

abbrev pub is_row_of : Order → OrderRow → Bool
is_row_of o r =
    str_eq r.client_order_id o.request.client_order_id && str_eq r.owner_user_id o.request.owner_id

-- Both are given and equal.
abbrev pub both_eq : Option String → Option String → Bool
both_eq a b = is_some a && opt_str_eq a b

-- The unique index on target and broker order id, against the write of `o`.
unfoldable pub breaks_index : Order → List OrderRow → Bool
breaks_index o rows =
    any
      (λ r.
        is_row_of o r
        && any
            (λ q.
              not (str_eq q.client_order_id r.client_order_id)
              && both_eq q.broker_name r.broker_name
              && both_eq q.account_id r.account_id
              && both_eq q.broker_order_id o.broker_order_id)
            rows)
      rows

-- `_update_order`
unfoldable pub update_order : Order → Store → Result Store
update_order o s =
    if breaks_index o s.orders
    then raised (integrity_error "idx_live_orders_target_broker_order")
    else ok (record s { orders = update_where (is_row_of o) (written o) s.orders })

-- The end of a transaction that writes nothing before it raises: `commit()`, or the exception,
-- which leaves it open.
abbrev pub closed : Store → Store
closed s = record s { in_transaction = false }

abbrev pub opened : Store → Store
opened s = record s { in_transaction = true }

abbrev pub begin_error : Error
begin_error = operational_error "cannot start a transaction within a transaction"

unfoldable pub commit {ℓ} : {A : Type ℓ} → Store → Result (A × Store) → Result A × Store
commit s (ok (a, s')) = (ok a, closed s')
commit s (raised e) = (raised e, opened s)

-- `BEGIN IMMEDIATE`, then `m`, where `open` says that a transaction is open already.
unfoldable pub begun {ℓ} : {A : Type ℓ} → Bool → Store → Result A × Store → Result A × Store
begun true s m = (raised begin_error, s)
begun false s m = m

abbrev pub transaction {ℓ} : {A : Type ℓ} → Store → Result (A × Store) → Result A × Store
transaction s r = begun s.in_transaction s (commit s r)

-- The next statements, if the ones before returned.
unfoldable pub and_then {ℓ κ} :
    {A : Type ℓ} {B : Type κ} → Result A × Store → (A → Store → Result B × Store) → Result B × Store
and_then (raised e, s) k = (raised e, s)
and_then (ok a, s) k = k a s

-- `get`, `get_routed`, `get_by_broker_order_id`
abbrev pub find_order : String → String → Store → Option OrderRow
find_order owner k s = find (λ r. str_eq r.owner_user_id owner && order_has_id k r) s.orders

abbrev pub opt_order : Option OrderRow → Result (Option Order)
opt_order none = ok none
opt_order (some r) = row_order r >>= λ o. ok (some o)

unfoldable pub get : String → String → Store → Result (Option Order)
get owner k s = opt_order (find_order owner k s)

abbrev routed_row : Option OrderRow → Result (Option RoutedOrder)
routed_row none = ok none
routed_row (some r) = elim (row_target r) [
  | none ↦ ok none
  | some t ↦ row_order r >>= λ o. make_routed t o >>= λ x. ok (some x)
]

unfoldable pub get_routed : String → String → Store → Result (Option RoutedOrder)
get_routed owner k s = routed_row (find_order owner k s)

unfoldable pub get_by_broker_order_id : AccountRef → String → Store → Result (Option Order)
get_by_broker_order_id t b s =
    if is_blank b
    then raised (value_error "broker_order_id is required")
    else opt_order (
        find (λ r. at_target t r.broker_name r.account_id && opt_str_eq r.broker_order_id (some b))
          s.orders)

-- `outbox_state`, `cancel_outbox_state`
abbrev state_in : String → List OutboxRow → Option OutboxState
state_in k xs = elim (find (has_id k) xs) [ none ↦ none | some x ↦ some x.state ]

unfoldable pub outbox_state : String → Store → Option OutboxState
outbox_state k s = state_in k s.outbox

unfoldable pub cancel_outbox_state : String → Store → Option OutboxState
cancel_outbox_state k s = state_in k s.cancels
