-- ===== src/Outbox/Invariant.antt =====
-- A predicate on the tables of tw_quant/broker/repository.py that each kind of write keeps is kept
-- by every call: the rule by which the modules beside it prove their invariants.
use codex_tw_quant_trading_s.Base.{
  String, ◌≡◌, refl, sym, subst, ok-injective, inl, inr, Bool, true, false, Option, none, some,
  List, [], ◌∷◌, update_where, arith, Result, ok, raised, any, has_text, ◌>>=◌, >>=-eq-ok,
  Option-cases, Bool-cases,
}
use codex_tw_quant_trading_s.Order.{
  Datetime, Order, Status, is_terminal, status_eq, unknown, make_order, transition_order,
}
use codex_tw_quant_trading_s.Outbox.Store.{
  AccountRef, RoutedRequest, OrderRow, OutboxState, blocked, resolved, is_pending, OutboxRow, Store,
  has_id, is_row_of, written, breaks_index, update_order, commit, begun, and_then, transaction,
  opened, row_order,
}
use codex_tw_quant_trading_s.Outbox.Dispatch.{
  insert_new, reservable, reserve_order, reserve, claim_next, claimed_row, finish_dispatch,
  block_dispatch, start_attempt, enter, outcome, stamped,
}
use codex_tw_quant_trading_s.Outbox.Cancel.{
  reserve_cancel, claim_next_cancel, claimed_cancel_row, finish_cancel, block_cancel,
  cancel_row_found, cancel_order_found, cancel_order_read, insert_cancel, cancel_update,
}
use codex_tw_quant_trading_s.Outbox.Repair.{
  update_rows, row_read, row_written, block_pending_dispatches, save_reconciliation,
  recover_interrupted_dispatches,
}
use codex_tw_quant_trading_s.Outbox.Trace.{
  Op, reserve_op, claim_op, claim_cancel_op, finish_op, finish_cancel_op, save_op, block_op,
  block_cancel_op, block_pending_op, reserve_cancel_op, recover_op, after, after_all,
}

-- What each kind of write must keep.
pub record Stable (P : Store → Type 0) : Type 0 where
  pub order_write :
      (o : Order) (s : Store)
      → P s
      → P (record s { orders = update_where (is_row_of o) (written o) s.orders })
  pub outbox_enter :
      (p : OutboxRow → Bool) (st : OutboxState) (now : Datetime) (s : Store)
      → is_pending st ≡ false
      → P s
      → P (record s { outbox = update_where p (enter st now) s.outbox })
  pub outbox_start :
      (k : String) (now : Datetime) (s : Store)
      → P s
      → P (record s { outbox = update_where (has_id k) (start_attempt now) s.outbox })
  pub cancels_write : (cs : List OutboxRow) (s : Store) → P s → P (record s { cancels = cs })
  pub flag : (b : Bool) (s : Store) → P s → P (record s { in_transaction = b })
  pub insert :
      (t : AccountRef) (o : Order) (now : Datetime) (s : Store) → P s → P (insert_new t o now s).1

outcome-not_pending : (st : Status) → is_pending (outcome st) ≡ false
outcome-not_pending st = ground arith

update_order-ok :
    (o : Order) (s t : Store)
    → update_order o s ≡ ok t
    → t ≡ record s { orders = update_where (is_row_of o) (written o) s.orders }
unfolding update_order
update_order-ok o s t e = elim (Bool-cases (breaks_index o s.orders)) [
  | inl b ↦ absurd (cc)
  | inr b ↦ sym (ok-injective (rw b at e))
]

same_store :
    {A : Type 0} (a b : A) (s t : Store)
    → ◌≡◌ {A = Result (A × Store)} (ok (a, s)) (ok (b, t))
    → s ≡ t
same_store a b s t h = cc

module _ (P : Store → Type 0) (stable : Stable P) where
  begun-keeps :
      {A : Type 0} (b : Bool) (s : Store) (m : Result A × Store) → P s → P m.1 → P (begun b s m).1
  unfolding begun
  begun-keeps true s m h k = h
  begun-keeps false s m h k = k

  and_then-keeps :
      {A B : Type 0} (m : Result A × Store) (f : A → Store → Result B × Store)
      → P m.1
      → ((a : A) (t : Store) → P t → P (f a t).1)
      → P (and_then m f).1
  unfolding and_then
  and_then-keeps (raised e, s) f h k = h
  and_then-keeps (ok a, s) f h k = k a s h

  commit-keeps :
      {A : Type 0} (s : Store) (r : Result (A × Store))
      → P s
      → ((a : A) (s' : Store) → r ≡ ok (a, s') → P s')
      → P (commit s r).1
  unfolding commit
  commit-keeps s (ok (a, s')) h k = stable.flag false s' (k a s' refl)
  commit-keeps s (raised e) h k = stable.flag true s h

  update_order-keeps : (o : Order) (s t : Store) → P s → update_order o s ≡ ok t → P t
  update_order-keeps o s t h e = rw (update_order-ok o s t e) (stable.order_write o s h)

  row_read-keeps :
      (g : Order → Store → Store)
      → ((o : Order) (s : Store) → P s → P (g o s))
      → (r : Result Order) (s : Store) → P s
      → P (row_read g s r).1
  row_read-keeps g k (raised e) s h = h
  row_read-keeps g k (ok o) s h = go (update_order o (opened s)) refl
    where
      go : (m : Result Store) → update_order o (opened s) ≡ m → P (row_written g o (opened s) m).1
      go (raised e) q = stable.flag true s h
      go (ok t) q = k o t (update_order-keeps o (opened s) t (stable.flag true s h) q)

  update_rows-keeps :
      (f : OrderRow → Result Order) (g : Order → Store → Store)
      → ((o : Order) (s : Store) → P s → P (g o s))
      → (rs : List OrderRow) (s : Store) → P s
      → P (update_rows f g rs s).1
  unfolding update_rows
  update_rows-keeps f g k [] s h = h
  update_rows-keeps f g k (r ∷ rs) s h =
      and_then-keeps (row_read g s (f r)) _ (row_read-keeps g k (f r) s h)
        λ _ t w. update_rows-keeps f g k rs t w

  -- A transaction that writes one order, and then what `g` writes.
  write_then-keeps :
      (o : Order) (s : Store) (g : Store → Store)
      → ((t : Store) → P t → P (g t))
      → P s
      → P (transaction {0} s (update_order o s >>= λ t. ok (tt, g t))).1
  write_then-keeps o s g k h = begun-keeps s.in_transaction s _ h (
      commit-keeps s _ h λ a s' e.
        let (t, w, e) = >>=-eq-ok (update_order o s) _ e in
        subst P (same_store _ _ _ _ e) (k t (update_order-keeps o s t h w)))

  reserve-keeps : (rr : RoutedRequest) (now : Datetime) (s : Store) → P s → P (reserve rr now s).1
  unfolding reserve
  reserve-keeps rr now s h = go (reservable rr now)
    where
      go : (r : Result Order) → P (reserve_order rr now s r).1
      go (raised e) = h
      go (ok o) =
          and_then-keeps (begun s.in_transaction s (insert_new rr.target o now s)) _
            (begun-keeps s.in_transaction s _ h (stable.insert rr.target o now s h)) (λ _ t k. k)

  claim_next-keeps : (t : AccountRef) (now : Datetime) (s : Store) → P s → P (claim_next t now s).1
  unfolding claim_next
  claim_next-keeps t now s h =
      begun-keeps s.in_transaction s _ h (elim (Option-cases (claimed_row t s)) [
        | inl e ↦ rw e h
        | inr (r, e) ↦ rw e (stable.outbox_start r.client_order_id now s h)
      ])

  claim_next_cancel-keeps :
      (t : AccountRef) (now : Datetime) (s : Store) → P s → P (claim_next_cancel t now s).1
  unfolding claim_next_cancel
  claim_next_cancel-keeps t now s h =
      begun-keeps s.in_transaction s _ h (elim (Option-cases (claimed_cancel_row t s)) [
        | inl e ↦ rw e h
        | inr (r, e) ↦ rw e (stable.cancels_write _ s h)
      ])

  save_reconciliation-keeps : (o : Order) (s : Store) → P s → P (save_reconciliation o s).1
  unfolding save_reconciliation
  save_reconciliation-keeps o s h =
      write_then-keeps o s _
        (λ t k. elim (Bool-cases (status_eq o.status unknown)) [
          | inl u ↦ rw u k
          | inr u ↦ rw u (stable.outbox_enter _ resolved o.updated_at t refl k)
        ])
        h

  block_pending_dispatches-keeps :
      (t : AccountRef) (reason : String) (now : Datetime) (s : Store)
      → P s
      → P (block_pending_dispatches t reason now s).1
  unfolding block_pending_dispatches
  block_pending_dispatches-keeps t reason now s h =
      and_then-keeps (update_rows _ _ _ s) _ (update_rows-keeps _ _ (λ o v k. k) _ s h) λ _ u k.
        stable.flag false _ (stable.cancels_write _ _ (stable.outbox_enter _ blocked now u refl k))

  recover-keeps : (now : Datetime) (s : Store) → P s → P (recover_interrupted_dispatches now s).1
  unfolding recover_interrupted_dispatches
  recover-keeps now s h =
      and_then-keeps (update_rows _ _ _ s) _
        (update_rows-keeps _ _ (λ o q k. stable.outbox_enter _ blocked now q refl k) _ s h)
        λ _ t k.
          and_then-keeps (update_rows _ _ _ t) _
            (update_rows-keeps _ _ (λ o q k. stable.cancels_write _ q k) _ t k)
            λ _ u k. stable.flag false u k

  insert_cancel-keeps :
      (t : AccountRef) (k : String) (now : Datetime) (o : Order) (s : Store) (a : Order × Bool)
      (s' : Store)
      → P s
      → insert_cancel t k now o s ≡ ok (a, s')
      → P s'
  insert_cancel-keeps t k now o s a s' h e =
      let (p, _, e) = >>=-eq-ok (transition_order o (cancel_update o now)) _ e in
      let (u, w, e) = >>=-eq-ok (update_order p s) _ e in
      subst P (same_store _ _ _ _ e) (stable.cancels_write _ u (update_order-keeps p s u h w))

  cancel_order_found-keeps :
      (t : AccountRef) (k : String) (now : Datetime) (s : Store) (o : Order)
      → P s
      → P (cancel_order_found t k now s o).1
  cancel_order_found-keeps t k now s o h = elim (Bool-cases (is_terminal o.status)) [
    | inl c ↦ rw c (stable.flag false s h)
    | inr c ↦ elim (Bool-cases (has_text o.broker_order_id)) [
      | inr d ↦ rw (c, d) (stable.flag false s h)
      | inl d ↦ elim (Bool-cases (any (has_id k) s.cancels)) [
        | inl f ↦ rw (c, d, f) (stable.flag false s h)
        | inr f ↦
            rw (c, d, f) (commit-keeps s _ h λ a s' e. insert_cancel-keeps t k now o s a s' h e)
      ]
    ]
  ]

  cancel_row_found-keeps :
      (t : AccountRef) (k : String) (now : Datetime) (s : Store) (r : Option OrderRow)
      → P s
      → P (cancel_row_found t k now s r).1
  cancel_row_found-keeps t k now s none h = stable.flag false s h
  cancel_row_found-keeps t k now s (some r) h = go (row_order r)
    where
      go : (m : Result Order) → P (cancel_order_read t k now s m).1
      go (raised e) = stable.flag true s h
      go (ok o) = cancel_order_found-keeps t k now s o h

  reserve_cancel-keeps :
      (t : AccountRef) (owner k : String) (now : Datetime) (s : Store)
      → P s
      → P (reserve_cancel t owner k now s).1
  unfolding reserve_cancel
  reserve_cancel-keeps t owner k now s h =
      begun-keeps s.in_transaction s _ h (cancel_row_found-keeps t k now s _ h)

  stamped_then-keeps :
      (m : Result Order) (s : Store) (g : Order → Store → Store)
      → ((b : Order) (t : Store) → P t → P (g b t))
      → P s
      → P (and_then (m, s) λ b s. transaction {0} s (update_order b s >>= λ t. ok (tt, g b t))).1
  stamped_then-keeps m s g k h =
      and_then-keeps (m, s) _ h λ b t w. write_then-keeps b t (g b) (λ u. k b u) w

  -- Every call keeps a stable predicate.
  pub after-keeps : (op : Op) (s : Store) → P s → P (after op s)
  unfolding after finish_dispatch block_dispatch finish_cancel block_cancel
  after-keeps (reserve_op rr now) s h = reserve-keeps rr now s h
  after-keeps (claim_op t now) s h = claim_next-keeps t now s h
  after-keeps (claim_cancel_op t now) s h = claim_next_cancel-keeps t now s h
  after-keeps (finish_op o) s h =
      write_then-keeps o s _
        (λ t k. stable.outbox_enter _ _ o.updated_at t (outcome-not_pending o.status) k) h
  after-keeps (finish_cancel_op o) s h =
      write_then-keeps o s _ (λ t k. stable.cancels_write _ t k) h
  after-keeps (save_op o) s h = save_reconciliation-keeps o s h
  after-keeps (block_op o reason now) s h =
      stamped_then-keeps (make_order (stamped o reason now)) s _
        (λ b t k. stable.outbox_enter _ blocked now t refl k) h
  after-keeps (block_cancel_op o reason now) s h =
      stamped_then-keeps (make_order (stamped o reason now)) s _
        (λ b t k. stable.cancels_write _ t k) h
  after-keeps (block_pending_op t reason now) s h = block_pending_dispatches-keeps t reason now s h
  after-keeps (reserve_cancel_op t owner k now) s h = reserve_cancel-keeps t owner k now s h
  after-keeps (recover_op now) s h = recover-keeps now s h

  pub after_all-keeps : (ops : List Op) (s : Store) → P s → P (after_all ops s)
  unfolding after_all
  after_all-keeps [] s h = h
  after_all-keeps (op ∷ ops) s h = after_all-keeps ops (after op s) (after-keeps op s h)
