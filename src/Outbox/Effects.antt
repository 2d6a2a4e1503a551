-- ===== src/Outbox/Effects.antt =====
-- What single calls of tw_quant/broker/repository.py leave behind.
use codex_tw_quant_trading_s.Base.{
  ℕ, String, ◌≡◌, refl, sym, ap, ◌∙◌, subst, inl, inr, Bool, true, false, Option, none, some, List,
  [], ◌∷◌, ◌++◌, any, find, filter, arith, Result, ok, raised, raise_if, not, >>=-eq-ok, Bool-cases,
  All, All-update_where_new,
}
use codex_tw_quant_trading_s.Order.{Datetime, Request, Order, make_order}
use codex_tw_quant_trading_s.Order.Laws.{make_order-ok, make_order_of_IsValid}
use codex_tw_quant_trading_s.Outbox.Store.{
  AccountRef, RoutedRequest, OrderRow, blocked, OutboxRow, Store, has_id, order_has_id, begun,
  and_then, is_live, row_order,
}
use codex_tw_quant_trading_s.Outbox.Dispatch.{
  insert_new, is_claimable, claim_next, earliest, reserve, reservable, reserve_order,
  reserve_answer, reserved_order, answer_with, not_live_error, enter,
}
use codex_tw_quant_trading_s.Outbox.Cancel.{is_cancel_claimable, claim_next_cancel}
use codex_tw_quant_trading_s.Outbox.Repair.{
  joined, update_rows, block_pending, stamped_row, blocked_store, block_pending_dispatches,
  is_pending_at,
}

reserved_again :
    (r : Request) (now now' : Datetime) (o : Order)
    → make_order (reserved_order r now) ≡ ok o
    → now'.is_aware ≡ true
    → make_order (reserved_order r now') ≡ ok (reserved_order r now')
reserved_again r now now' o h a =
    let v = (make_order-ok (reserved_order r now) o h).1 in
    make_order_of_IsValid (reserved_order r now') (record {
      aware = a;
      nonneg = v.nonneg;
      bounded = v.bounded;
      priced = v.priced;
      price_positive = v.price_positive;
      filled_exact = λ e. absurd (cc);
    })

-- The answer depends on whether the order is new only in its flag.
reserve_answer-flag :
    (rr : RoutedRequest) (c c' : Bool) (row : Option OrderRow) (o : Order) (b : Bool)
    → reserve_answer rr c row ≡ ok (o, b)
    → reserve_answer rr c' row ≡ ok (o, c')
unfolding reserve_answer
reserve_answer-flag rr c c' none o b h = absurd (cc)
reserve_answer-flag rr c c' (some r) o b h = go (row_order r) h
  where
    go : (m : Result Order) → answer_with rr c r m ≡ ok (o, b) → answer_with rr c' r m ≡ ok (o, c')
    go (raised e) h = absurd (cc)
    go (ok x) h = ground arith

reserve_answer-found :
    (rr : RoutedRequest) (c : Bool) (k : String) (rows : List OrderRow) (a : Order × Bool)
    → reserve_answer rr c (find (order_has_id k) rows) ≡ ok a
    → any (order_has_id k) rows ≡ true
unfolding reserve_answer
reserve_answer-found rr c k [] a h = absurd (cc)
reserve_answer-found rr c k (x ∷ xs) a h = elim (Bool-cases (order_has_id k x)) [
  | inl e ↦ rw e
  | inr e ↦ rw e (reserve_answer-found rr c k xs a (rw e at h))
]

-- An insertion that returns has closed its transaction.
insert_new-closed :
    (t : AccountRef) (o : Order) (now : Datetime) (s u : Store) (c : Bool)
    → insert_new t o now s ≡ (ok c, u)
    → u.in_transaction ≡ false
unfolding insert_new
insert_new-closed t o now s u c h =
    elim (Bool-cases (any (order_has_id o.request.client_order_id) s.orders)) [
      | inl e ↦ closed_of _ _ (rw e at h) refl
      | inr e ↦ elim (Bool-cases (any (has_id o.request.client_order_id) s.outbox)) [
        | inl f ↦ absurd (cc (ap (λ (z : Result Bool × Store). z.0) (rw (e, f) at h)))
        | inr f ↦ closed_of _ _ (rw (e, f) at h) refl
      ]
    ]
  where
    closed_of :
        (b : Bool) (v : Store)
        → ◌≡◌ {A = Result Bool × Store} (ok b, v) (ok c, u)
        → v.in_transaction ≡ false
        → u.in_transaction ≡ false
    closed_of b v h k = sym (ap (λ (z : Result Bool × Store). z.1.in_transaction) h) ∙ k

begun-closed :
    (t : AccountRef) (o : Order) (now : Datetime) (s u : Store) (b c : Bool)
    → begun b s (insert_new t o now s) ≡ (ok c, u)
    → u.in_transaction ≡ false
unfolding begun
begun-closed t o now s u true c h = absurd (cc (ap (λ (z : Result Bool × Store). z.0) h))
begun-closed t o now s u false c h = insert_new-closed t o now s u c h

insert_again :
    (t : AccountRef) (o : Order) (now : Datetime) (s : Store)
    → any (order_has_id o.request.client_order_id) s.orders ≡ true
    → s.in_transaction ≡ false
    → begun s.in_transaction s (insert_new t o now s) ≡ (ok false, s)
unfolding begun insert_new
insert_again t o now s e f = rw (f, e)

-- The second call, from what the first one found.
answered_again :
    (rr : RoutedRequest) (now' : Datetime) (c : Bool) (u : Store) (o : Order) (b : Bool)
    → reserve_answer rr c (find (order_has_id rr.request.client_order_id) u.orders) ≡ ok (o, b)
    → u.in_transaction ≡ false
    → reserve_order rr now' u (ok (reserved_order rr.request now')) ≡ (ok (o, false), u)
unfolding and_then
answered_again rr now' c u o b h k =
    let rows = find (order_has_id rr.request.client_order_id) u.orders in
    let found = reserve_answer-found rr c rr.request.client_order_id u.orders (o, b) h in
    rw (insert_again rr.target (reserved_order rr.request now') now' u found k)
      (ap (λ (z : Result (Order × Bool)). (z, u)) (reserve_answer-flag rr c false rows o b h))

reservable_again :
    (rr : RoutedRequest) (now now' : Datetime) (o : Order)
    → reservable rr now ≡ ok o
    → now'.is_aware ≡ true
    → reservable rr now' ≡ ok (reserved_order rr.request now')
reservable_again rr now now' o h a =
    let (_, mode, h) = >>=-eq-ok (raise_if (not (is_live rr.request.mode)) not_live_error) _ h in
    rw mode (reserved_again rr.request now now' o h a)

-- A second `reserve` of the same request, after one that answered with an order, answers with the
-- same order and `False`, and changes no table, at any later time that carries a time zone.
pub reserve-again :
    (rr : RoutedRequest) (now now' : Datetime) (s s' : Store) (o : Order) (b : Bool)
    → reserve rr now s ≡ (ok (o, b), s')
    → now'.is_aware ≡ true
    → reserve rr now' s' ≡ (ok (o, false), s')
unfolding reserve and_then
reserve-again rr now now' s s' o b h a = go (reservable rr now) refl h
  where
    inserted :
        (p : Order) (n : Result Bool × Store)
        → begun s.in_transaction s (insert_new rr.target p now s) ≡ n
        → and_then n (λ c t.
          (reserve_answer rr c (find (order_has_id rr.request.client_order_id) t.orders), t))
          ≡ (ok (o, b), s')
        → reserve_order rr now' s' (ok (reserved_order rr.request now')) ≡ (ok (o, false), s')
    inserted p (raised e, u) q h = absurd (cc (ap (λ (z : Result (Order × Bool) × Store). z.0) h))
    inserted p (ok c, u) q h =
        subst
          (λ (z : Store).
            reserve_order rr now' z (ok (reserved_order rr.request now')) ≡ (ok (o, false), z))
          (ap (λ (z : Result (Order × Bool) × Store). z.1) h)
          (answered_again rr now' c u o b (ap (λ (z : Result (Order × Bool) × Store). z.0) h)
            (begun-closed rr.target p now s u s.in_transaction c q))

    go :
        (m : Result Order)
        → reservable rr now ≡ m
        → reserve_order rr now s m ≡ (ok (o, b), s')
        → reserve_order rr now' s' (reservable rr now') ≡ (ok (o, false), s')
    go (raised e) q h = absurd (cc (ap (λ (z : Result (Order × Bool) × Store). z.0) h))
    go (ok p) q h =
        rw (reservable_again rr now now' p q a)
          (inserted p (begun s.in_transaction s (insert_new rr.target p now s)) refl h)

not_claimable :
    (t : AccountRef) (s : Store) (x : OutboxRow)
    → is_pending_at t x ≡ false
    → is_claimable t s x ≡ false
not_claimable t s x h = ground arith

not_cancel_claimable :
    (t : AccountRef) (s : Store) (x : OutboxRow)
    → is_pending_at t x ≡ false
    → is_cancel_claimable t s x ≡ false
not_cancel_claimable t s x h = ground arith

no_claim :
    (t : AccountRef) (s : Store) (xs : List OutboxRow)
    → All (λ x. is_pending_at t x ≡ false) xs
    → filter (is_claimable t s) xs ≡ []
no_claim t s [] h = refl
no_claim t s (x ∷ xs) h = rw (not_claimable t s x h.0) (no_claim t s xs h.1)

no_cancel_claim :
    (t : AccountRef) (s : Store) (xs : List OutboxRow)
    → All (λ x. is_pending_at t x ≡ false) xs
    → filter (is_cancel_claimable t s) xs ≡ []
no_cancel_claim t s [] h = refl
no_cancel_claim t s (x ∷ xs) h = rw (not_cancel_claimable t s x h.0) (no_cancel_claim t s xs h.1)

block_pending-All :
    (t : AccountRef) (now : Datetime) (xs : List OutboxRow)
    → All (λ x. is_pending_at t x ≡ false) (block_pending t now xs)
block_pending-All t now xs =
    All-update_where_new (λ x. is_pending_at t x ≡ false) (is_pending_at t) (enter blocked now) xs
      (λ x _. refl) (λ x n. n)

idle_claim :
    (t : AccountRef) (now : Datetime) (s : Store)
    → s.in_transaction ≡ false
    → All (λ x. is_pending_at t x ≡ false) s.outbox
    → claim_next t now s ≡ (ok none, s)
unfolding claim_next earliest begun
idle_claim t now s k h = rw (k, no_claim t s s.outbox h)

idle_cancel_claim :
    (t : AccountRef) (now : Datetime) (s : Store)
    → s.in_transaction ≡ false
    → All (λ x. is_pending_at t x ≡ false) s.cancels
    → claim_next_cancel t now s ≡ (ok none, s)
unfolding claim_next_cancel earliest begun
idle_cancel_claim t now s k h = rw (k, no_cancel_claim t s s.cancels h)

-- No transaction is open, and no row of either outbox waits for the account.
abbrev NothingPending : AccountRef → Store → Type 0
NothingPending t s =
    (s.in_transaction ≡ false)
    × All (λ x. is_pending_at t x ≡ false) s.outbox
    × All (λ x. is_pending_at t x ≡ false) s.cancels

block_pending_dispatches-ok :
    (t : AccountRef) (reason : String) (now : Datetime) (s s' : Store) (n : ℕ)
    → block_pending_dispatches t reason now s ≡ (ok n, s')
    → NothingPending t s'
unfolding block_pending_dispatches and_then
block_pending_dispatches-ok t reason now s s' n h =
    go
      (update_rows (stamped_row reason now) (λ _ v. v)
        (joined (is_pending_at t) s.outbox s.orders ++ joined (is_pending_at t) s.cancels s.orders)
        s)
      h
  where
    go :
        (m : Result (Unit {0}) × Store)
        → and_then m (λ _ u. blocked_store t now s u) ≡ (ok n, s')
        → NothingPending t s'
    go (raised e, u) h = absurd (cc (ap (λ (z : Result ℕ × Store). z.0) h))
    go (ok _, u) h =
        subst (NothingPending t) (ap (λ (z : Result ℕ × Store). z.1) h)
          (refl, block_pending-All t now u.outbox, block_pending-All t now u.cancels)

-- After `block_pending_dispatches` of an account has returned, no claim on that account, of a
-- dispatch or of a cancel, returns work or changes a table.
pub block_pending_dispatches-claim :
    (t : AccountRef) (reason : String) (now now' : Datetime) (s s' : Store) (n : ℕ)
    → block_pending_dispatches t reason now s ≡ (ok n, s')
    → (claim_next t now' s' ≡ (ok none, s')) × (claim_next_cancel t now' s' ≡ (ok none, s'))
block_pending_dispatches-claim t reason now now' s s' n h =
    let (ended, dispatches, cancels) = block_pending_dispatches-ok t reason now s s' n h in
    (idle_claim t now' s' ended dispatches, idle_cancel_claim t now' s' ended cancels)
