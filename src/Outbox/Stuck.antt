-- ===== src/Outbox/Stuck.antt =====
-- Transactions that an exception leaves open in tw_quant/broker/repository.py.
use codex_tw_quant_trading_s.Base.{
  String, ◌≡◌, refl, ap, ◌∙◌, Bool, true, false, some, List, [], ◌∷◌, any, find, arith, Result,
  Error, ok, raised, All, has_text,
}
use codex_tw_quant_trading_s.Order.{
  Datetime, Order, make_order, unknown, status_eq, is_allowed, updated_order, transition_order,
}
use codex_tw_quant_trading_s.Outbox.Store.{
  AccountRef, OrderRow, Store, begin_error, begun, and_then, commit, opened, transaction, has_id,
  row_order,
}
use codex_tw_quant_trading_s.Outbox.Dispatch.{
  reservable, reserve_order, reserve, claim_next, finish_dispatch, block_dispatch, insert_new,
  stamped,
}
use codex_tw_quant_trading_s.Outbox.Cancel.{
  cancel_update, insert_cancel, cancel_row_found, cancel_order_read, cancel_order_found,
  is_cancel_target, reserve_cancel, claim_next_cancel, finish_cancel, block_cancel,
}
use codex_tw_quant_trading_s.Outbox.Repair.{save_reconciliation}
use codex_tw_quant_trading_s.Outbox.Trace.{
  Op, reserve_op, claim_op, claim_cancel_op, finish_op, finish_cancel_op, save_op, block_op,
  block_cancel_op, block_pending_op, reserve_cancel_op, recover_op, after, after_all,
}

-- The calls that write without `BEGIN IMMEDIATE`, which a worker makes when it starts.
abbrev pub is_restart : Op → Bool
is_restart (block_pending_op _ _ _) = true
is_restart (recover_op _) = true
is_restart _ = false

begun_open :
    {A : Type 0} (b : Bool) (s : Store) (m : Result A × Store)
    → b ≡ true
    → begun b s m ≡ (raised begin_error, s)
unfolding begun
begun_open true s m h = refl
begun_open false s m h = absurd (cc)

begun_closed :
    {A : Type 0} (b : Bool) (s : Store) (m : Result A × Store) → b ≡ false → begun b s m ≡ m
unfolding begun
begun_closed true s m h = absurd (cc)
begun_closed false s m h = refl

reserve_order_open :
    (s : Store) (m : Result Order) (f : Order → Result Bool × Store)
    (g : Bool → Store → Result (Order × Bool) × Store)
    → s.in_transaction ≡ true
    → (o : Order) → (and_then (begun s.in_transaction s (f o)) g).1 ≡ s
unfolding and_then
reserve_order_open s m f g h o = ap (λ z. (and_then z g).1) (begun_open s.in_transaction s (f o) h)

stamped_open :
    {A : Type 0} (m : Result Order) (s : Store) (f : Order → Store → Result (A × Store))
    → s.in_transaction ≡ true
    → (and_then (m, s) λ b s. transaction s (f b s)).1 ≡ s
unfolding and_then
stamped_open (raised e) s f h = refl
stamped_open (ok o) s f h = ap (λ z. z.1) (begun_open s.in_transaction s (commit s (f o s)) h)

-- Within an open transaction every other call raises at its `BEGIN IMMEDIATE`, or before.
after_open :
    (op : Op) (s : Store) → is_restart op ≡ false → s.in_transaction ≡ true → after op s ≡ s
unfolding after reserve claim_next claim_next_cancel finish_dispatch finish_cancel
    save_reconciliation block_dispatch block_cancel reserve_cancel
after_open (reserve_op rr now) s n h = go (reservable rr now)
  where
    go : (m : Result Order) → (reserve_order rr now s m).1 ≡ s
    go (raised e) = refl
    go (ok o) = reserve_order_open s (ok o) (λ p. insert_new rr.target p now s) _ h o
after_open (claim_op t now) s n h = ap (λ z. z.1) (begun_open s.in_transaction s _ h)
after_open (claim_cancel_op t now) s n h = ap (λ z. z.1) (begun_open s.in_transaction s _ h)
after_open (finish_op o) s n h = ap (λ z. z.1) (begun_open s.in_transaction s _ h)
after_open (finish_cancel_op o) s n h = ap (λ z. z.1) (begun_open s.in_transaction s _ h)
after_open (save_op o) s n h = ap (λ z. z.1) (begun_open s.in_transaction s _ h)
after_open (block_op o reason now) s n h = stamped_open (make_order (stamped o reason now)) s _ h
after_open (block_cancel_op o reason now) s n h =
    stamped_open (make_order (stamped o reason now)) s _ h
after_open (block_pending_op t reason now) s n h = absurd (cc)
after_open (reserve_cancel_op t owner k now) s n h =
    ap (λ z. z.1) (begun_open s.in_transaction s _ h)
after_open (recover_op now) s n h = absurd (cc)

after_all_open :
    (ops : List Op) (s : Store)
    → All (λ op. is_restart op ≡ false) ops
    → s.in_transaction ≡ true
    → after_all ops s ≡ s
unfolding after_all
after_all_open [] s n h = refl
after_all_open (op ∷ ops) s n h =
    ap (after_all ops) (after_open op s n.0 h) ∙ after_all_open ops s n.1 h

no_cancel_transition :
    (o p : Order) (now : Datetime)
    → o.status ≡ unknown
    → transition_order o (cancel_update o now) ≡ ok p
    → ⊥
unfolding transition_order is_allowed status_eq updated_order
no_cancel_transition o p now u h = ground arith

unknown_cancel :
    (t : AccountRef) (k : String) (now : Datetime) (s : Store) (o : Order)
    → o.status ≡ unknown
    → (e : Error) × (commit s (insert_cancel t k now o s) ≡ (raised e, opened s))
unfolding commit
unknown_cancel t k now s o u = go (transition_order o (cancel_update o now)) refl
  where
    go :
        (m : Result Order)
        → transition_order o (cancel_update o now) ≡ m
        → (e : Error) × (commit s (insert_cancel t k now o s) ≡ (raised e, opened s))
    go (raised e) q = (e, rw q)
    go (ok p) q = absurd (no_cancel_transition o p now u q)

cancel_found :
    (t : AccountRef) (k : String) (now : Datetime) (s : Store) (o : Order)
    → o.status ≡ unknown
    → has_text o.broker_order_id ≡ true
    → any (has_id k) s.cancels ≡ false
    → cancel_order_found t k now s o ≡ commit s (insert_cancel t k now o s)
cancel_found t k now s o u b n = rw (u, b, n)

-- If no transaction is open, the cancel of a stored order whose status is UNKNOWN, but which has a
-- broker id and no cancel row, raises within its transaction and leaves it open. From then on, whatever calls other than the two
-- restart calls are made, no table changes and a claim of the order outbox raises.
pub reserve_cancel-blocks :
    (t t' : AccountRef) (owner k : String) (now now' : Datetime) (s : Store) (r : OrderRow)
    (o : Order) (ops : List Op)
    → s.in_transaction ≡ false
    → find (is_cancel_target t owner k) s.orders ≡ some r
    → row_order r ≡ ok o
    → o.status ≡ unknown
    → has_text o.broker_order_id ≡ true
    → any (has_id k) s.cancels ≡ false
    → All (λ op. is_restart op ≡ false) ops
    → (e : Error) × (reserve_cancel t owner k now s ≡ (raised e, opened s))
      × (after_all ops (opened s) ≡ opened s)
      × (claim_next t' now' (after_all ops (opened s)) ≡ (raised begin_error, opened s))
unfolding reserve_cancel claim_next
reserve_cancel-blocks t t' owner k now now' s r o ops c f read u b n a =
    let (e, raises) = unknown_cancel t k now s o u in
    let same : after_all ops (opened s) ≡ opened s = after_all_open ops (opened s) a refl in
    (
      e,
      begun_closed s.in_transaction s _ c
          ∙ ap (cancel_row_found t k now s) f
          ∙ ap (cancel_order_read t k now s) read
          ∙ cancel_found t k now s o u b n
          ∙ raises,
      same,
      ap (claim_next t' now') same ∙ begun_open true (opened s) _ refl,
    )
