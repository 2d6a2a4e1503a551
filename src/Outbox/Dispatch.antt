-- ===== src/Outbox/Dispatch.antt =====
-- tw_quant/broker/repository.py: `reserve`, and the life of a row of the order outbox.
use codex_tw_quant_trading_s.Base.{
  ◌+◌, String, Bool, true, false, not, ◌&&◌, Option, none, some, List, [], ◌∷◌, ◌++◌, any, find,
  filter, update_where, Error, Result, ok, raised, integrity_error, value_error, assertion_error,
  ◌>>=◌, ◌>>◌, raise_if, str_eq, opt_str_eq, ltb, if◌then◌else◌,
}
use codex_tw_quant_trading_s.Base.Int.{pos}
use codex_tw_quant_trading_s.Identity.{account_eq}
use codex_tw_quant_trading_s.Order.{
  Datetime, Status, status_eq, Request, Order, make_order, risk_approved, unknown,
}
use codex_tw_quant_trading_s.Outbox.Store.{
  AccountRef, RoutedRequest, RoutedOrder, OrderRow, OutboxState, pending, processing, completed,
  blocked, is_pending, OutboxRow, Store, has_id, order_has_id, at_target, row_target, row_order,
  update_order, transaction, begun, and_then, opened, closed, is_live, make_routed,
}

-- The order that `reserve` stores.
abbrev pub reserved_order : Request → Datetime → Order
reserved_order r now = record {
  request = r;
  status = risk_approved;
  updated_at = now;
  broker_order_id = none;
  filled_quantity = pos 0;
  average_fill_price = none;
  status_reason = some "durably_reserved";
}

abbrev pub new_row : AccountRef → Order → OrderRow
new_row t o = record {
  client_order_id = o.request.client_order_id;
  owner_user_id = o.request.owner_id;
  broker_name = some t.broker_name;
  account_id = some t.account_id;
  request = o.request;
  status = o.status;
  broker_order_id = none;
  filled_quantity = pos 0;
  average_fill_price = none;
  status_reason = o.status_reason;
  updated_at = o.updated_at;
}

abbrev pub new_outbox_row : AccountRef → String → Datetime → OutboxRow
new_outbox_row t k now = record {
  client_order_id = k;
  broker_name = some t.broker_name;
  account_id = some t.account_id;
  state = pending;
  attempt_count = 0;
  created_at = now;
  updated_at = now;
}

-- `INSERT OR IGNORE INTO live_orders`, the outbox row if the order is new, and the commit. If the
-- outbox has the id already, its insert raises after the order has been written.
unfoldable pub insert_new : AccountRef → Order → Datetime → Store → Result Bool × Store
insert_new t o now s =
    let k = o.request.client_order_id in
    let u = record s { orders = s.orders ++ new_row t o ∷ [] } in
    if any (order_has_id k) s.orders
    then (ok false, closed s)
    else if any (has_id k) s.outbox
    then (raised (integrity_error "live_order_outbox.client_order_id"), opened u)
    else (ok true, closed (record u { outbox = s.outbox ++ new_outbox_row t k now ∷ [] }))

-- What `reserve` answers from the row that it finds after the commit.
abbrev pub same_target : Option AccountRef → AccountRef → Bool
same_target none t = false
same_target (some u) t = account_eq u t

abbrev pub answer_with : RoutedRequest → Bool → OrderRow → Result Order → Result (Order × Bool)
answer_with rr created r read = do
  existing ← read
  raise_if (not (str_eq existing.request.owner_id rr.request.owner_id))
      (value_error "client_order_id already belongs to another owner")
  raise_if (not (same_target (row_target r) rr.target))
      (value_error "client_order_id already belongs to another target")
  ok (existing, created)

unfoldable pub reserve_answer : RoutedRequest → Bool → Option OrderRow → Result (Order × Bool)
reserve_answer rr created none = raised assertion_error
reserve_answer rr created (some r) = answer_with rr created r (row_order r)

abbrev pub not_live_error : Error
not_live_error = value_error "live order repository only accepts live orders"

-- What `reserve` checks before its transaction: the order that it will store.
abbrev pub reservable : RoutedRequest → Datetime → Result Order
reservable rr now = do
  raise_if (not (is_live rr.request.mode)) not_live_error
  make_order (reserved_order rr.request now)

-- The transaction of `reserve`, and its answer from the row that it finds then.
abbrev pub reserve_order :
    RoutedRequest → Datetime → Store → Result Order → Result (Order × Bool) × Store
reserve_order rr now s (raised e) = (raised e, s)
reserve_order rr now s (ok o) =
    and_then (begun s.in_transaction s (insert_new rr.target o now s)) λ created t.
      (reserve_answer rr created (find (order_has_id rr.request.client_order_id) t.orders), t)

-- `reserve`
unfoldable pub reserve : RoutedRequest → Datetime → Store → Result (Order × Bool) × Store
reserve rr now s = reserve_order rr now s (reservable rr now)

-- `ORDER BY created_at LIMIT 1`; of equal times the row that was inserted first.
abbrev pub earlier : OutboxRow → Option OutboxRow → OutboxRow
earlier x none = x
earlier x (some y) = if ltb y.created_at.instant x.created_at.instant then y else x

unfoldable pub earliest : List OutboxRow → Option OutboxRow
earliest [] = none
earliest (x ∷ xs) = some (earlier x (earliest xs))

-- The `WHERE` of `claim_next`, the join with the order included.
abbrev pub joined_row : OutboxRow → OrderRow → Bool
joined_row x r =
    order_has_id x.client_order_id r
    && opt_str_eq r.broker_name x.broker_name
    && opt_str_eq r.account_id x.account_id

abbrev pub is_claimable : AccountRef → Store → OutboxRow → Bool
is_claimable t s x =
    is_pending x.state && at_target t x.broker_name x.account_id && any (joined_row x) s.orders

abbrev pub start_attempt : Datetime → OutboxRow → OutboxRow
start_attempt now x = record x {
  state = processing;
  attempt_count = x.attempt_count + 1;
  updated_at = now;
}

-- The order row behind a claimed outbox row.
abbrev pub routed_at : OrderRow → Option AccountRef → Result (Option RoutedOrder)
routed_at r none = raised assertion_error
routed_at r (some t) = row_order r >>= λ o. make_routed t o >>= λ x. ok (some x)

abbrev pub routed_of : OrderRow → Result (Option RoutedOrder)
routed_of r = routed_at r (row_target r)

abbrev pub claim_found : Datetime → Store → Option OrderRow → Result (Option RoutedOrder) × Store
claim_found now s none = (ok none, s)
claim_found now s (some r) = (
  routed_of r,
  record s { outbox = update_where (has_id r.client_order_id) (start_attempt now) s.outbox },
)

abbrev pub joined_order : Store → Option OutboxRow → Option OrderRow
joined_order s none = none
joined_order s (some x) = find (joined_row x) s.orders

-- The order row of a claim.
abbrev pub claimed_row : AccountRef → Store → Option OrderRow
claimed_row t s = joined_order s (earliest (filter (is_claimable t s) s.outbox))

-- `claim_next`
unfoldable pub claim_next : AccountRef → Datetime → Store → Result (Option RoutedOrder) × Store
claim_next t now s = begun s.in_transaction s (claim_found now s (claimed_row t s))

abbrev pub enter : OutboxState → Datetime → OutboxRow → OutboxRow
enter st now x = record x { state = st; updated_at = now }

-- The state of an outbox row after its broker call.
abbrev pub outcome : Status → OutboxState
outcome st = if status_eq st unknown then blocked else completed

-- `finish_dispatch`
unfoldable pub finish_dispatch : Order → Store → Result (Unit {0}) × Store
finish_dispatch o s = transaction s (do
  t ← update_order o s
  ok (
    tt,
    record t {
      outbox =
          update_where (has_id o.request.client_order_id) (enter (outcome o.status) o.updated_at)
            t.outbox;
    },
  ))

abbrev pub stamped : Order → String → Datetime → Order
stamped o reason now = record o { status_reason = some reason; updated_at = now }

-- `block_dispatch`: `replace` runs the checks of the order before the transaction.
unfoldable pub block_dispatch : Order → String → Datetime → Store → Result (Unit {0}) × Store
block_dispatch o reason now s =
    and_then (make_order (stamped o reason now), s)
      λ b s. transaction s (do
        t ← update_order b s
        ok (
          tt,
          record t {
            outbox = update_where (has_id b.request.client_order_id) (enter blocked now) t.outbox;
          },
        ))
