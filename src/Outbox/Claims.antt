-- ===== src/Outbox/Claims.antt =====
-- The order outbox of tw_quant/broker/repository.py hands out each order at most once.
use codex_tw_quant_trading_s.Base.{
  String, ◌≡◌, ◌≢◌, refl, sym, ap, ◌∙◌, subst, ◌⊎◌, inl, inr, ltb, Bool, true, false, Option, none,
  some, List, [], ◌∷◌, ◌++◌, any, find, filter, update_where, arith, Result, ok, >>=-eq-ok,
  raise_if, not, ok-injective, Bool-cases, All, All-append, All-update_where, All-update_where_new,
  any-update_where, find-test, some-injective, All-find, All-filter, All-filter_test, str_eq_refl,
  str_eq, str_eq_iff,
}
use codex_tw_quant_trading_s.Order.{Datetime, Order, Request}
use codex_tw_quant_trading_s.Order.Laws.{make_order-ok}
use codex_tw_quant_trading_s.Outbox.Store.{
  AccountRef, RoutedOrder, OrderRow, is_pending, OutboxRow, Store, has_id, order_has_id, is_row_of,
  written, row_order, row_target, begun, opened, closed, make_routed, is_live,
}
use codex_tw_quant_trading_s.Outbox.Dispatch.{
  insert_new, new_row, new_outbox_row, claim_next, claim_found, claimed_row, start_attempt, enter,
  earlier, earliest, is_claimable, joined_row, joined_order, routed_of, routed_at,
}
use codex_tw_quant_trading_s.Outbox.Trace.{Op, after_all, empty_store}
use codex_tw_quant_trading_s.Outbox.Invariant.{Stable, after_all-keeps}

-- Each order row carries its own id, as the request wrote it.
abbrev pub IsConsistent : Store → Type 0
IsConsistent s = All (λ r. r.request.client_order_id ≡ r.client_order_id) s.orders

-- No row of the outbox with this id waits.
abbrev pub NotWaiting : String → OutboxRow → Type 0
NotWaiting k x = has_id k x ≡ true → is_pending x.state ≡ false

-- The order exists and its dispatch has begun, or was given up: no claim may return it.
abbrev pub IsSpent : String → Store → Type 0
IsSpent k s = (any (order_has_id k) s.orders ≡ true) × All (NotWaiting k) s.outbox

any-append_left :
    {A : Type 0} (p : A → Bool) (xs ys : List A) → any p xs ≡ true → any p (xs ++ ys) ≡ true
any-append_left p [] ys h = absurd (cc)
any-append_left p (x ∷ xs) ys h = elim (Bool-cases (p x)) [
  | inl e ↦ rw e
  | inr e ↦ rw e (any-append_left p xs ys (rw e at h))
]

-- The order that `reserve` adds.
abbrev with_order : AccountRef → Order → Store → Store
with_order t o s = record s { orders = s.orders ++ new_row t o ∷ [] }

-- What the insertion leaves: the tables as they were, or a new order with or without outbox row.
insert_new-cases :
    (t : AccountRef) (o : Order) (now : Datetime) (s : Store)
    → ((insert_new t o now s).1 ≡ closed s)
      ⊎ (any (order_has_id o.request.client_order_id) s.orders ≡ false)
        × (((insert_new t o now s).1 ≡ opened (with_order t o s))
            ⊎ ((insert_new t o now s).1 ≡ record (with_order t o s) {
              outbox = s.outbox ++ new_outbox_row t o.request.client_order_id now ∷ [];
              in_transaction = false;
            }))
unfolding insert_new
insert_new-cases t o now s =
    elim (Bool-cases (any (order_has_id o.request.client_order_id) s.orders)) [
      | inl e ↦ inl (rw e)
      | inr e ↦ inr (
        e,
        elim (Bool-cases (any (has_id o.request.client_order_id) s.outbox)) [
          | inl f ↦ inl (rw (e, f))
          | inr f ↦ inr (rw (e, f))
        ],
      )
    ]

insert_new-IsConsistent :
    (t : AccountRef) (o : Order) (now : Datetime) (s : Store)
    → IsConsistent s
    → IsConsistent (insert_new t o now s).1
insert_new-IsConsistent t o now s h =
    let added : IsConsistent (with_order t o s) =
      All-append (λ r. r.request.client_order_id ≡ r.client_order_id) s.orders (new_row t o ∷ []) h
        (refl, tt) in
    elim (insert_new-cases t o now s) [
      | inl q ↦ subst IsConsistent (sym q) h
      | inr (_, inl q) ↦ subst IsConsistent (sym q) added
      | inr (_, inr q) ↦ subst IsConsistent (sym q) added
    ]

pub IsConsistent-Stable : Stable IsConsistent
IsConsistent-Stable = record {
  order_write = λ o s h.
      All-update_where (λ r. r.request.client_order_id ≡ r.client_order_id) (is_row_of o)
        (written o) s.orders (λ r _ k. k) h;
  outbox_enter = λ p st now s n h. h;
  outbox_start = λ k now s h. h;
  cancels_write = λ cs s h. h;
  flag = λ b s h. h;
  insert = insert_new-IsConsistent;
}

-- A text that some row has differs from one that no row has.
other_id :
    (k j : String) (rows : List OrderRow)
    → any (order_has_id k) rows ≡ true
    → any (order_has_id j) rows ≡ false
    → str_eq j k ≡ true
    → ⊥
other_id k j rows h n e = absurd (cc (ap (λ i. any (order_has_id i) rows) ((str_eq_iff j k).0 e)))

insert_new-IsSpent :
    (k : String) (t : AccountRef) (o : Order) (now : Datetime) (s : Store)
    → IsSpent k s
    → IsSpent k (insert_new t o now s).1
insert_new-IsSpent k t o now s h =
    let added : any (order_has_id k) (s.orders ++ new_row t o ∷ []) ≡ true =
      any-append_left (order_has_id k) s.orders (new_row t o ∷ []) h.0 in
    elim (insert_new-cases t o now s) [
      | inl q ↦ subst (IsSpent k) (sym q) h
      | inr (_, inl q) ↦ subst (IsSpent k) (sym q) (added, h.1)
      | inr (n, inr q) ↦ subst (IsSpent k) (sym q) (
        added,
        All-append (NotWaiting k) s.outbox (new_outbox_row t o.request.client_order_id now ∷ []) h.1
            ((λ w. absurd (other_id k o.request.client_order_id s.orders h.0 n w)), tt),
      )
    ]

pub IsSpent-Stable : (k : String) → Stable (IsSpent k)
IsSpent-Stable k = record {
  order_write = λ o s h.
      (any-update_where (order_has_id k) (is_row_of o) (written o) s.orders (λ r. refl) ∙ h.0, h.1);
  outbox_enter = λ p st now s n h.
      (h.0, All-update_where (NotWaiting k) p (enter st now) s.outbox (λ x _ _ _. n) h.1);
  outbox_start = λ j now s h. (
    h.0,
    All-update_where (NotWaiting k) (has_id j) (start_attempt now) s.outbox (λ x _ _ _. refl) h.1,
  );
  cancels_write = λ cs s h. h;
  flag = λ b s h. h;
  insert = insert_new-IsSpent k;
}

earliest-All :
    (P : OutboxRow → Type 0) (xs : List OutboxRow) (x : OutboxRow)
    → All P xs
    → earliest xs ≡ some x
    → P x
unfolding earliest
earliest-All P [] x h e = absurd (cc)
earliest-All P (y ∷ ys) x h e =
    go (earliest ys) (λ z q. earliest-All P ys z h.1 q) (some-injective e)
  where
    go : (o : Option OutboxRow) → ((z : OutboxRow) → o ≡ some z → P z) → earlier y o ≡ x → P x
    go none k e = subst P e h.0
    go (some z) k e = elim (Bool-cases (ltb z.created_at.instant y.created_at.instant)) [
      | inl l ↦ subst P (rw l at e) (k z refl)
      | inr l ↦ subst P (rw l at e) h.0
    ]

-- The rows that a claim rests on.
claimed_row-rows :
    (t : AccountRef) (s : Store) (r : OrderRow)
    → claimed_row t s ≡ some r
    → (x : OutboxRow) × (earliest (filter (is_claimable t s) s.outbox) ≡ some x)
      × (find (joined_row x) s.orders ≡ some r)
claimed_row-rows t s r h = go (earliest (filter (is_claimable t s) s.outbox)) refl h
  where
    go :
        (o : Option OutboxRow)
        → earliest (filter (is_claimable t s) s.outbox) ≡ o
        → joined_order s o ≡ some r
        → (x : OutboxRow) × (earliest (filter (is_claimable t s) s.outbox) ≡ some x)
          × (find (joined_row x) s.orders ≡ some r)
    go none q h = absurd (cc)
    go (some x) q h = (x, q, h)

-- A claim that returns an order found no transaction open, and a row.
claim_next-ok :
    (t : AccountRef) (now : Datetime) (s s' : Store) (r : RoutedOrder)
    → claim_next t now s ≡ (ok (some r), s')
    → (row : OrderRow) × (claimed_row t s ≡ some row)
      × (routed_of row ≡ ok (some r))
      × (s' ≡ record s {
        outbox = update_where (has_id row.client_order_id) (start_attempt now) s.outbox;
      })
unfolding claim_next begun
claim_next-ok t now s s' r h = go s.in_transaction (claimed_row t s) refl h
  where
    go :
        (b : Bool) (o : Option OrderRow)
        → claimed_row t s ≡ o
        → begun b s (claim_found now s o) ≡ (ok (some r), s')
        → (row : OrderRow) × (claimed_row t s ≡ some row)
          × (routed_of row ≡ ok (some r))
          × (s' ≡ record s {
            outbox = update_where (has_id row.client_order_id) (start_attempt now) s.outbox;
          })
    go true o e h = absurd (cc (ap (λ (z : Result (Option RoutedOrder) × Store). z.0) h))
    go false none e h = absurd (cc (ap (λ (z : Result (Option RoutedOrder) × Store). z.0) h))
    go false (some row) e h = (
      row,
      e,
      ap (λ (z : Result (Option RoutedOrder) × Store). z.0) h,
      sym (ap (λ (z : Result (Option RoutedOrder) × Store). z.1) h),
    )

row_order-request : (row : OrderRow) (o : Order) → row_order row ≡ ok o → o.request ≡ row.request
unfolding row_order
row_order-request row o h = ap (λ (z : Order). z.request) (make_order-ok _ o h).0

routed_of-request :
    (row : OrderRow) (r : RoutedOrder) → routed_of row ≡ ok (some r) → r.order.request ≡ row.request
routed_of-request row r h = go (row_target row) h
  where
    go : (t : Option AccountRef) → routed_at row t ≡ ok (some r) → r.order.request ≡ row.request
    go none h = absurd (cc)
    go (some t) h =
        let (o, q, w) = >>=-eq-ok (row_order row) _ h in
        let (x, v, w) = >>=-eq-ok (make_routed t o) _ w in
        let (_, _, v) = >>=-eq-ok (raise_if (not (is_live o.request.mode)) _) _ v in
        ap (λ (z : RoutedOrder). z.order.request)
          (sym (some-injective (ok-injective w)) ∙ sym (ok-injective v))
        ∙ row_order-request row o q

any_of_find :
    {A : Type 0} (p q : A → Bool) (xs : List A) (a : A)
    → find p xs ≡ some a
    → q a ≡ true
    → any q xs ≡ true
any_of_find p q [] a h k = absurd (cc)
any_of_find p q (x ∷ xs) a h k = elim (Bool-cases (p x)) [
  | inl e ↦ let same : some x ≡ some a = rw e at h in rw (ap q (some-injective same) ∙ k)
  | inr e ↦ elim (Bool-cases (q x)) [
    | inl f ↦ rw f
    | inr f ↦ rw f (any_of_find p q xs a (rw e at h) k)
  ]
]

-- The row, its id, and the id of the returned order are those of one order.
claimed_id :
    (t : AccountRef) (now : Datetime) (s s' : Store) (r : RoutedOrder) (row : OrderRow)
    → IsConsistent s
    → claimed_row t s ≡ some row
    → routed_of row ≡ ok (some r)
    → r.order.request.client_order_id ≡ row.client_order_id
claimed_id t now s s' r row c e h =
    let (x, _, f) = claimed_row-rows t s row e in
    ap (λ (z : Request). z.client_order_id) (routed_of-request row r h)
    ∙ All-find (λ r. r.request.client_order_id ≡ r.client_order_id) (joined_row x) s.orders c f

pub claim_next-IsSpent :
    (t : AccountRef) (now : Datetime) (s s' : Store) (r : RoutedOrder)
    → IsConsistent s
    → claim_next t now s ≡ (ok (some r), s')
    → IsSpent r.order.request.client_order_id s'
claim_next-IsSpent t now s s' r c h =
    let (row, e, f, g) = claim_next-ok t now s s' r h in
    let (x, _, found) = claimed_row-rows t s row e in
    subst (IsSpent r.order.request.client_order_id) (sym g) (
      subst
        (λ k. IsSpent k (record s {
          outbox = update_where (has_id row.client_order_id) (start_attempt now) s.outbox;
        }))
        (sym (claimed_id t now s s' r row c e f))
        (
          any_of_find (joined_row x) (order_has_id row.client_order_id) s.orders row found
              (str_eq_refl row.client_order_id),
          All-update_where_new (NotWaiting row.client_order_id) (has_id row.client_order_id)
              (start_attempt now) s.outbox (λ y _ _. refl) (λ y n w. absurd (cc)),
        ))

claimable_waits :
    (t : AccountRef) (s : Store) (x : OutboxRow)
    → is_claimable t s x ≡ true
    → is_pending x.state ≡ true
claimable_waits t s x h = ground arith

joined_id :
    (x : OutboxRow) (r : OrderRow) → joined_row x r ≡ true → r.client_order_id ≡ x.client_order_id
joined_id x r h = ground (arith, str_eq_iff r.client_order_id x.client_order_id)

pub claim_next-not_IsSpent :
    (k : String) (t : AccountRef) (now : Datetime) (s s' : Store) (r : RoutedOrder)
    → IsConsistent s
    → IsSpent k s
    → claim_next t now s ≡ (ok (some r), s')
    → r.order.request.client_order_id ≢ k
claim_next-not_IsSpent k t now s s' r c sp h q =
    let (row, e, f, _) = claim_next-ok t now s s' r h in
    let (x, first, found) = claimed_row-rows t s row e in
    let waits : is_claimable t s x ≡ true =
      earliest-All (λ y. is_claimable t s y ≡ true) (filter (is_claimable t s) s.outbox) x
        (All-filter_test (is_claimable t s) s.outbox) first in
    let spent : NotWaiting k x =
      earliest-All (NotWaiting k) (filter (is_claimable t s) s.outbox) x
        (All-filter (NotWaiting k) (is_claimable t s) s.outbox sp.1) first in
    let same : row.client_order_id ≡ k = sym (claimed_id t now s s' r row c e f) ∙ q in
    let id : x.client_order_id ≡ k =
      sym (joined_id x row (find-test (joined_row x) s.orders found)) ∙ same in
    cc (spent ((str_eq_iff x.client_order_id k).1 id), claimable_waits t s x waits)

pub empty_store-IsConsistent : IsConsistent empty_store
unfolding empty_store
empty_store-IsConsistent = tt

-- From the empty tables, whatever calls are made before, between and after, with any arguments: two
-- claims of the order outbox that return an order return orders of different client ids. No order
-- is ever handed to a dispatcher twice.
pub claim_next-distinct :
    (before between : List Op) (t t' : AccountRef) (now now' : Datetime) (r r' : RoutedOrder)
    (s s' : Store)
    → claim_next t now (after_all before empty_store) ≡ (ok (some r), s)
    → claim_next t' now' (after_all between s) ≡ (ok (some r'), s')
    → r'.order.request.client_order_id ≢ r.order.request.client_order_id
claim_next-distinct before between t t' now now' r r' s s' h h' =
    let c : IsConsistent (after_all before empty_store) =
      after_all-keeps IsConsistent IsConsistent-Stable before empty_store
        empty_store-IsConsistent in
    let k = r.order.request.client_order_id in
    claim_next-not_IsSpent k t' now' (after_all between s) s' r'
      (after_all-keeps IsConsistent IsConsistent-Stable between s
        (subst IsConsistent (sym (claim_next-ok t now (after_all before empty_store) s r h).3) c))
      (after_all-keeps (IsSpent k) (IsSpent-Stable k) between s
        (claim_next-IsSpent t now (after_all before empty_store) s r c h))
      h'
