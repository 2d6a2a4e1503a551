-- ===== src/Outbox/Repair.antt =====
-- tw_quant/broker/repository.py: what reconciliation and a restart write.
use codex_tw_quant_trading_s.Base.{
  ℕ, ◌+◌, String, Bool, ◌&&◌, none, some, List, [], ◌∷◌, ◌++◌, find, length, update_where, Result,
  ok, raised, ◌>>=◌, if◌then◌else◌,
}
use codex_tw_quant_trading_s.Order.{Datetime, status_eq, Order, make_order, unknown}
use codex_tw_quant_trading_s.Outbox.Store.{
  AccountRef, OrderRow, blocked, resolved, is_pending, is_processing, is_blocked, OutboxRow, Store,
  has_id, order_has_id, at_target, row_order, update_order, transaction, and_then, opened, closed,
}
use codex_tw_quant_trading_s.Outbox.Dispatch.{enter, stamped}

-- The orders of a join with an outbox table, for the outbox rows that pass a test.
unfoldable pub joined : (OutboxRow → Bool) → List OutboxRow → List OrderRow → List OrderRow
joined p [] rs = []
joined p (x ∷ xs) rs =
    let rest = joined p xs rs in
    if p x
    then elim (find (order_has_id x.client_order_id) rs) [ none ↦ rest | some r ↦ r ∷ rest ]
    else rest

-- `_update_order` for one row of a list that was read before, changed by `f`, and what `g` writes
-- after it. A first write opens a transaction.
abbrev pub row_written :
    (Order → Store → Store) → Order → Store → Result Store → Result (Unit {0}) × Store
row_written g o s (raised e) = (raised e, s)
row_written g o s (ok t) = (ok tt, g o t)

abbrev pub row_read : (Order → Store → Store) → Store → Result Order → Result (Unit {0}) × Store
row_read g s (raised e) = (raised e, s)
row_read g s (ok o) = row_written g o (opened s) (update_order o (opened s))

-- The loop over the rows.
unfoldable pub update_rows :
    (OrderRow → Result Order)
    → (Order → Store → Store)
    → List OrderRow
    → Store
    → Result (Unit {0}) × Store
update_rows f g [] s = (ok tt, s)
update_rows f g (r ∷ rs) s = and_then (row_read g s (f r)) λ _ t. update_rows f g rs t

abbrev pub stamped_row : String → Datetime → OrderRow → Result Order
stamped_row reason now r = row_order r >>= λ o. make_order (stamped o reason now)

abbrev pub is_pending_at : AccountRef → OutboxRow → Bool
is_pending_at t x = is_pending x.state && at_target t x.broker_name x.account_id

abbrev pub block_pending : AccountRef → Datetime → List OutboxRow → List OutboxRow
block_pending t now xs = update_where (is_pending_at t) (enter blocked now) xs

-- What `block_pending_dispatches` writes after the orders, with its count.
abbrev pub blocked_store : AccountRef → Datetime → Store → Store → Result ℕ × Store
blocked_store t now s u = (
  ok (
      length (joined (is_pending_at t) s.outbox s.orders)
      + length (joined (is_pending_at t) s.cancels s.orders)),
  closed
      (record u { outbox = block_pending t now u.outbox; cancels = block_pending t now u.cancels }),
)

-- `block_pending_dispatches`
unfoldable pub block_pending_dispatches : AccountRef → String → Datetime → Store → Result ℕ × Store
block_pending_dispatches t reason now s =
    let rows = joined (is_pending_at t) s.outbox s.orders in
    let cancel_rows = joined (is_pending_at t) s.cancels s.orders in
    and_then (update_rows (stamped_row reason now) (λ _ v. v) (rows ++ cancel_rows) s)
      λ _ u. blocked_store t now s u

abbrev pub is_blocked_id : String → OutboxRow → Bool
is_blocked_id k x = has_id k x && is_blocked x.state

-- `save_reconciliation`
unfoldable pub save_reconciliation : Order → Store → Result (Unit {0}) × Store
save_reconciliation o s = transaction s (do
  t ← update_order o s
  ok (
    tt,
    if status_eq o.status unknown then t else record t {
      outbox =
          update_where (is_blocked_id o.request.client_order_id) (enter resolved o.updated_at)
            t.outbox;
    },
  ))

abbrev pub is_interrupted : OutboxRow → Bool
is_interrupted x = is_processing x.state

-- The order that a restart writes over an interrupted one.
abbrev pub interrupted_order : Datetime → OrderRow → Result Order
interrupted_order now r = row_order r >>= λ o. make_order (record o {
  status = unknown;
  updated_at = now;
  status_reason = some "dispatch_interrupted_reconciliation_required";
})

abbrev pub block_outbox_of : Datetime → Order → Store → Store
block_outbox_of now o s = record s {
  outbox = update_where (has_id o.request.client_order_id) (enter blocked now) s.outbox;
}

abbrev pub block_cancels_of : Datetime → Order → Store → Store
block_cancels_of now o s = record s {
  cancels = update_where (has_id o.request.client_order_id) (enter blocked now) s.cancels;
}

-- `recover_interrupted_dispatches`
unfoldable pub recover_interrupted_dispatches : Datetime → Store → Result ℕ × Store
recover_interrupted_dispatches now s =
    let rows = joined is_interrupted s.outbox s.orders in
    let cancel_rows = joined is_interrupted s.cancels s.orders in
    and_then (update_rows (interrupted_order now) (block_outbox_of now) rows s) λ _ t.
      and_then (update_rows (interrupted_order now) (block_cancels_of now) cancel_rows t)
        λ _ u. (ok (length rows + length cancel_rows), closed u)
