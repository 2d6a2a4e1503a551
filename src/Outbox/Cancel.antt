-- ===== src/Outbox/Cancel.antt =====
-- tw_quant/broker/repository.py: the life of a row of the cancel outbox.
use codex_tw_quant_trading_s.Base.{
  String, Bool, true, false, not, ◌&&◌, Option, none, some, [], ◌∷◌, ◌++◌, any, find, filter,
  update_where, Result, ok, raised, runtime_error, key_error, ◌>>=◌, ltb, has_text, str_eq,
  if◌then◌else◌,
}
use codex_tw_quant_trading_s.Order.{
  Datetime, Order, make_order, is_terminal, cancel_pending, Update, transition_order,
}
use codex_tw_quant_trading_s.Outbox.Store.{
  AccountRef, RoutedOrder, OrderRow, blocked, is_pending, OutboxRow, Store, has_id, order_has_id,
  at_target, row_order, update_order, commit, transaction, begun, and_then, opened, closed,
}
use codex_tw_quant_trading_s.Outbox.Dispatch.{
  new_outbox_row, earliest, start_attempt, routed_of, enter, outcome, stamped,
}

-- `max(now, order.updated_at)`
abbrev later_time : Datetime → Datetime → Datetime
later_time a b = if ltb a.instant b.instant then b else a

abbrev pub cancel_update : Order → Datetime → Update
cancel_update o now = record {
  status = cancel_pending;
  updated_at = later_time now o.updated_at;
  broker_order_id = none;
  filled_quantity = none;
  average_fill_price = none;
  status_reason = some "cancel_durably_reserved";
}

-- What `reserve_cancel` writes for an open order that has no cancel row.
abbrev pub insert_cancel :
    AccountRef → String → Datetime → Order → Store → Result ((Order × Bool) × Store)
insert_cancel t k now o s = do
  p ← transition_order o (cancel_update o now)
  u ← update_order p s
  ok ((p, true), record u { cancels = u.cancels ++ new_outbox_row t k now ∷ [] })

abbrev pub cancel_order_found :
    AccountRef → String → Datetime → Store → Order → Result (Order × Bool) × Store
cancel_order_found t k now s o =
    if is_terminal o.status
    then (ok (o, false), closed s)
    else if not (has_text o.broker_order_id)
    then (raised (runtime_error "live_order_requires_reconciliation_before_cancel"), closed s)
    else if any (has_id k) s.cancels
    then (ok (o, false), closed s)
    else commit s (insert_cancel t k now o s)

-- The order of the row, which raises within the transaction.
abbrev pub cancel_order_read :
    AccountRef → String → Datetime → Store → Result Order → Result (Order × Bool) × Store
cancel_order_read t k now s (raised e) = (raised e, opened s)
cancel_order_read t k now s (ok o) = cancel_order_found t k now s o

abbrev pub cancel_row_found :
    AccountRef → String → Datetime → Store → Option OrderRow → Result (Order × Bool) × Store
cancel_row_found t k now s none = (raised (key_error "unknown platform live order"), closed s)
cancel_row_found t k now s (some r) = cancel_order_read t k now s (row_order r)

abbrev pub is_cancel_target : AccountRef → String → String → OrderRow → Bool
is_cancel_target t owner k r =
    str_eq r.owner_user_id owner && order_has_id k r && at_target t r.broker_name r.account_id

-- `reserve_cancel`
unfoldable pub reserve_cancel :
    AccountRef → String → String → Datetime → Store → Result (Order × Bool) × Store
reserve_cancel t owner k now s =
    begun s.in_transaction s
      (cancel_row_found t k now s (find (is_cancel_target t owner k) s.orders))

abbrev pub is_cancel_claimable : AccountRef → Store → OutboxRow → Bool
is_cancel_claimable t s x =
    is_pending x.state
    && at_target t x.broker_name x.account_id
    && any (order_has_id x.client_order_id) s.orders

abbrev pub joined_cancel : Store → Option OutboxRow → Option OrderRow
joined_cancel s none = none
joined_cancel s (some x) = find (order_has_id x.client_order_id) s.orders

abbrev pub claimed_cancel_row : AccountRef → Store → Option OrderRow
claimed_cancel_row t s = joined_cancel s (earliest (filter (is_cancel_claimable t s) s.cancels))

abbrev pub claim_cancel_found :
    Datetime → Store → Option OrderRow → Result (Option RoutedOrder) × Store
claim_cancel_found now s none = (ok none, s)
claim_cancel_found now s (some r) = (
  routed_of r,
  record s { cancels = update_where (has_id r.client_order_id) (start_attempt now) s.cancels },
)

-- `claim_next_cancel`
unfoldable pub claim_next_cancel :
    AccountRef → Datetime → Store → Result (Option RoutedOrder) × Store
claim_next_cancel t now s =
    begun s.in_transaction s (claim_cancel_found now s (claimed_cancel_row t s))

-- `finish_cancel`
unfoldable pub finish_cancel : Order → Store → Result (Unit {0}) × Store
finish_cancel o s = transaction s (do
  t ← update_order o s
  ok (
    tt,
    record t {
      cancels =
          update_where (has_id o.request.client_order_id) (enter (outcome o.status) o.updated_at)
            t.cancels;
    },
  ))

-- `block_cancel`
unfoldable pub block_cancel : Order → String → Datetime → Store → Result (Unit {0}) × Store
block_cancel o reason now s =
    and_then (make_order (stamped o reason now), s)
      λ b s. transaction s (do
        t ← update_order b s
        ok (
          tt,
          record t {
            cancels = update_where (has_id b.request.client_order_id) (enter blocked now) t.cancels;
          },
        ))
