-- ===== src/Outbox/Candidates.antt =====
-- tw_quant/broker/repository.py: which orders `reconciliation_candidates` returns.
use codex_tw_quant_trading_s.Base.{
  String, ◌≡◌, ◌↔◌, ◌⊎◌, refl, sym, ap, subst, ◌∙◌, Bool, true, false, ◌&&◌, Option, none, some,
  List, [], ◌∷◌, filter, arith, ok, >>=-eq-ok, ok-injective, some-injective, str_eq_iff, opt_str_eq,
  if_true, if_false, Bool-cases, inl, inr,
}
use codex_tw_quant_trading_s.Order.{
  Status, created, risk_approved, submitting, accepted, partially_filled, filled, cancel_pending,
  cancelled, rejected, expired, unknown, Order,
}
use codex_tw_quant_trading_s.Outbox.Store.{AccountRef, OrderRow, Store, row_order}
use codex_tw_quant_trading_s.Outbox.Listing.{
  row_leb, insert_row, sort_rows, read_rows, is_owned, may_be_open, is_candidate,
  reconciliation_candidates,
}

swapped : (P Q R : Type 0) → P ⊎ (Q ⊎ R) → Q ⊎ (P ⊎ R)
swapped P Q R (inl p) = inr (inl p)
swapped P Q R (inr (inl q)) = inl q
swapped P Q R (inr (inr r)) = inr (inr r)

later : (P Q R : Type 0) → (Q → R) → P ⊎ Q → P ⊎ R
later P Q R f (inl p) = inl p
later P Q R f (inr q) = inr (f q)

module _ {A : Type 0} where
  -- The element occurs in the list.
  abbrev pub IsIn : A → List A → Type 0
  IsIn x [] = ⊥
  IsIn x (y ∷ ys) = (x ≡ y) ⊎ IsIn x ys

  filter-IsIn :
      (p : A → Bool) (x : A) (xs : List A) → IsIn x (filter p xs) → (p x ≡ true) × IsIn x xs
  filter-IsIn p x [] h = absurd h
  filter-IsIn p x (y ∷ ys) h = elim (Bool-cases (p y)) [
    | inl kept ↦ elim (subst (IsIn x) (if_true _ _ _ kept) h) [
      | inl e ↦ (subst (λ (z : A). p z ≡ true) (sym e) kept, inl e)
      | inr rest ↦ let (a, b) = filter-IsIn p x ys rest in (a, inr b)
    ]
    | inr left ↦
        let (a, b) = filter-IsIn p x ys (subst (IsIn x) (if_false _ _ _ left) h) in (a, inr b)
  ]

  IsIn-filter : (p : A → Bool) (x : A) (xs : List A) → p x ≡ true → IsIn x xs → IsIn x (filter p xs)
  IsIn-filter p x [] h i = absurd i
  IsIn-filter p x (y ∷ ys) h (inl e) =
      subst (IsIn x) (sym (if_true _ _ _ (subst (λ (z : A). p z ≡ true) e h))) (inl e)
  IsIn-filter p x (y ∷ ys) h (inr i) = elim (Bool-cases (p y)) [
    | inl kept ↦ subst (IsIn x) (sym (if_true _ _ _ kept)) (inr (IsIn-filter p x ys h i))
    | inr left ↦ subst (IsIn x) (sym (if_false _ _ _ left)) (IsIn-filter p x ys h i)
  ]

insert_row-IsIn :
    (x r : OrderRow) (rs : List OrderRow) → IsIn x (insert_row r rs) ↔ ((x ≡ r) ⊎ IsIn x rs)
unfolding insert_row
insert_row-IsIn x r [] = (λ h. h, λ h. h)
insert_row-IsIn x r (q ∷ qs) = elim (Bool-cases (row_leb r q)) [
  | inl first ↦
      let e = if_true (row_leb r q) (r ∷ q ∷ qs) (q ∷ insert_row r qs) first in
      (λ h. subst (IsIn x) e h, λ h. subst (IsIn x) (sym e) h)
  | inr past ↦
      let e = if_false (row_leb r q) (r ∷ q ∷ qs) (q ∷ insert_row r qs) past in
      let (out, back) = insert_row-IsIn x r qs in
      (
        λ h. swapped _ _ _ (later _ _ _ out (subst (IsIn x) e h)),
        λ h. subst (IsIn x) (sym e) (later _ _ _ back (swapped _ _ _ h)),
      )
]

sort_rows-IsIn : (x : OrderRow) (rs : List OrderRow) → IsIn x (sort_rows rs) ↔ IsIn x rs
unfolding sort_rows
sort_rows-IsIn x [] = (λ h. h, λ h. h)
sort_rows-IsIn x (r ∷ rs) =
    let (out, back) = sort_rows-IsIn x rs in
    let (from, into) = insert_row-IsIn x r (sort_rows rs) in
    (λ h. later _ _ _ out (from h), λ h. into (later _ _ _ back h))

-- The row of the list that the order is read from.
abbrev IsRead : List OrderRow → Order → Type 0
IsRead rs o = (r : OrderRow) × IsIn r rs × (row_order r ≡ ok o)

read_rows-IsIn :
    (o : Order) (rs : List OrderRow) (os : List Order)
    → read_rows rs ≡ ok os
    → IsIn o os ↔ IsRead rs o
unfolding read_rows
read_rows-IsIn o [] os h =
    (λ i. absurd (subst (IsIn o) (sym (ok-injective h)) i), λ (r, i, e). absurd i)
read_rows-IsIn o (r ∷ rs) os h =
    let (p, e, h) = >>=-eq-ok (row_order r) _ h in
    let (ps, f, h) = >>=-eq-ok (read_rows rs) _ h in
    let (out, back) = read_rows-IsIn o rs ps f in
    let same : p ∷ ps ≡ os = ok-injective h in
    (
      λ i. elim (subst (IsIn o) (sym same) i) [
        | inl now ↦ (r, inl refl, e ∙ ap (λ (z : Order). ok z) (sym now))
        | inr rest ↦ let (q, j, g) = out rest in (q, inr j, g)
      ],
      λ (q, j, g). subst (IsIn o) same (elim j [
        | inl now ↦ inl (ok-injective (sym g ∙ ap row_order now ∙ e))
        | inr rest ↦ inr (back (q, rest, g))
      ]),
    )

abbrev IsOfOwner : Option String → OrderRow → Type 0
IsOfOwner none r = Unit
IsOfOwner (some owner) r = r.owner_user_id ≡ owner

-- A row of the account, and of the owner if one is given, in a status in which the order may be open at the
-- broker.
pub record IsSelected (t : AccountRef) (owner : Option String) (r : OrderRow) : Type 0 where
  pub at_broker : r.broker_name ≡ some t.broker_name
  pub at_account : r.account_id ≡ some t.account_id
  pub of_owner : IsOfOwner owner r
  pub open_status :
      IsIn r.status (submitting ∷ accepted ∷ partially_filled ∷ cancel_pending ∷ unknown ∷ [])

may_be_open_iff :
    (st : Status)
    → (may_be_open st ≡ true)
      ↔ IsIn st (submitting ∷ accepted ∷ partially_filled ∷ cancel_pending ∷ unknown ∷ [])
may_be_open_iff st = (to st, from)
  where
    to :
        (x : Status)
        → may_be_open x ≡ true
        → IsIn x (submitting ∷ accepted ∷ partially_filled ∷ cancel_pending ∷ unknown ∷ [])
    to created h = absurd (cc h)
    to risk_approved h = absurd (cc h)
    to submitting h = inl refl
    to accepted h = inr (inl refl)
    to partially_filled h = inr (inr (inl refl))
    to filled h = absurd (cc h)
    to cancel_pending h = inr (inr (inr (inl refl)))
    to cancelled h = absurd (cc h)
    to rejected h = absurd (cc h)
    to expired h = absurd (cc h)
    to unknown h = inr (inr (inr (inr (inl refl))))

    back : (x : Status) → may_be_open x ≡ true → st ≡ x → may_be_open st ≡ true
    back x h e = subst (λ (y : Status). may_be_open y ≡ true) (sym e) h

    from :
        IsIn st (submitting ∷ accepted ∷ partially_filled ∷ cancel_pending ∷ unknown ∷ [])
        → may_be_open st ≡ true
    from (inl e) = back submitting refl e
    from (inr (inl e)) = back accepted refl e
    from (inr (inr (inl e))) = back partially_filled refl e
    from (inr (inr (inr (inl e)))) = back cancel_pending refl e
    from (inr (inr (inr (inr (inl e))))) = back unknown refl e
    from (inr (inr (inr (inr (inr h))))) = absurd h

opt_str_eq_iff : (o : Option String) (a : String) → (opt_str_eq o (some a) ≡ true) ↔ (o ≡ some a)
opt_str_eq_iff none a = (λ h. absurd (cc h), λ h. absurd (cc h))
opt_str_eq_iff (some b) a =
    let (to, from) = str_eq_iff b a in
    (λ h. ap (λ (x : String). some x) (to h), λ h. from (some-injective h))

is_owned_iff :
    (owner : Option String) (r : OrderRow) → (is_owned owner r ≡ true) ↔ IsOfOwner owner r
is_owned_iff none r = (λ _. tt, λ _. refl)
is_owned_iff (some o) r = str_eq_iff r.owner_user_id o

all_four :
    (a b c d : Bool) → a && (b && c) && d ≡ true → (a ≡ true) × (b ≡ true) × (c ≡ true) × (d ≡ true)
all_four true true true true h = (refl, refl, refl, refl)
all_four false b c d h = absurd (cc h)
all_four true false c d h = absurd (cc h)
all_four true true false d h = absurd (cc h)
all_four true true true false h = absurd (cc h)

four : (a b c d : Bool) → a ≡ true → b ≡ true → c ≡ true → d ≡ true → a && (b && c) && d ≡ true
four a b c d h i j k = ground arith

is_candidate_iff :
    (t : AccountRef) (owner : Option String) (r : OrderRow)
    → (is_candidate t owner r ≡ true) ↔ IsSelected t owner r
is_candidate_iff t owner r =
    let (open_to, open_from) = may_be_open_iff r.status in
    let (broker_to, broker_from) = opt_str_eq_iff r.broker_name t.broker_name in
    let (account_to, account_from) = opt_str_eq_iff r.account_id t.account_id in
    let (owner_to, owner_from) = is_owned_iff owner r in
    (
      λ h.
          let (a, b, c, d) = all_four _ _ _ _ h in
          record {
            at_broker = broker_to b;
            at_account = account_to c;
            of_owner = owner_to d;
            open_status = open_to a;
          },
      λ i.
          four _ _ _ _ (open_from i.open_status) (broker_from i.at_broker)
            (account_from i.at_account) (owner_from i.of_owner),
    )

-- If `reconciliation_candidates` returns, then what it returns are the orders read from those rows that are of
-- the broker and the account, and of the owner if one is given, and whose status is submitting, accepted,
-- partially filled, cancel pending or unknown: all of these, and no others.
pub reconciliation_candidates-IsSelected :
    (t : AccountRef) (owner : Option String) (s : Store) (os : List Order) (o : Order)
    → reconciliation_candidates t owner s ≡ ok os
    → IsIn o os ↔ ((r : OrderRow) × IsIn r s.orders × IsSelected t owner r × (row_order r ≡ ok o))
unfolding reconciliation_candidates
reconciliation_candidates-IsSelected t owner s os o h =
    let p = is_candidate t owner in
    let (out, back) = read_rows-IsIn o (sort_rows (filter p s.orders)) os h in
    (
      λ i.
          let (r, j, e) = out i in
          let (kept, among) =
            filter-IsIn p r s.orders ((sort_rows-IsIn r (filter p s.orders)).0 j) in
          (r, among, (is_candidate_iff t owner r).0 kept, e),
      λ (r, among, selected, e). back (
        r,
        (sort_rows-IsIn r (filter p s.orders)).1
            (IsIn-filter p r s.orders ((is_candidate_iff t owner r).1 selected) among),
        e,
      ),
    )
