-- ===== src/Reconciliation/Listed.antt =====
-- The dictionaries of `_issues` (tw_quant/broker/reconciliation.py) beside the lists that they are
-- built from.
use codex_tw_quant_trading_s.Base.{
  String, ◌≡◌, refl, sym, ap, ◌∙◌, subst, true, false, Option, none, some, some-injective, List, [],
  ◌∷◌, ◌++◌, All, str_eq, str_eq_iff, str_eq_refl, is_some, has_text, if◌then◌else◌, if_true,
  if_false, append-eq-nil, Bool-cases, inl, inr, ◌⊎◌,
}
use codex_tw_quant_trading_s.Base.Dict.{Dict, lookup, put, lookup-put}
use codex_tw_quant_trading_s.Order.{Order}
use codex_tw_quant_trading_s.Reconciliation.Snapshot.{OrderSnapshot}
use codex_tw_quant_trading_s.Reconciliation.Compare.{
  put_some, broker_order_issues, broker_scan_issues, broker_by_id, local_by_broker,
}

-- A broker order without an issue has an id that is new.
record IsNew (o : OrderSnapshot) (d : Dict OrderSnapshot) : Type 0 where
  id : String
  named : o.broker_order_id ≡ some id
  given : has_text (some id) ≡ true
  free : lookup id d ≡ none

no_option : {A : Type 0} (o : Option A) → is_some o ≡ false → o ≡ none
no_option none h = refl
no_option (some a) h = absurd (cc h)

broker_order_issues-IsNew :
    (o : OrderSnapshot) (d : Dict OrderSnapshot) (i : Option String)
    → o.broker_order_id ≡ i
    → broker_order_issues i d ≡ []
    → IsNew o d
unfolding broker_order_issues
broker_order_issues-IsNew o d none e h = absurd (cc h)
broker_order_issues-IsNew o d (some k) e h = elim (Bool-cases (has_text (some k))) [
  | inl given ↦ elim (Bool-cases (is_some (lookup k d))) [
    | inl double ↦ absurd (cc (rw (given, double) at h))
    | inr new ↦ record { id = k; named = e; given = given; free = no_option (lookup k d) new }
  ]
  | inr blank ↦ absurd (cc (rw blank at h))
]

put_new :
    (o : OrderSnapshot) (d : Dict OrderSnapshot) (n : IsNew o d)
    → put_some o.broker_order_id o d ≡ put n.id o d
put_new o d n = ap (λ (i : Option String). put_some i o d) n.named ∙ if_true _ _ _ n.given

-- Without issues no key is set twice.
broker_by_id-keeps :
    (os : List OrderSnapshot) (d : Dict OrderSnapshot) (k : String) (b : OrderSnapshot)
    → broker_scan_issues os d ≡ []
    → lookup k d ≡ some b
    → lookup k (broker_by_id os d) ≡ some b
unfolding broker_by_id broker_scan_issues
broker_by_id-keeps [] d k b h e = e
broker_by_id-keeps (o ∷ os) d k b h e =
    let (first, rest) = append-eq-nil (broker_order_issues o.broker_order_id d) _ h in
    let n = broker_order_issues-IsNew o d o.broker_order_id refl first in
    broker_by_id-keeps os (put_some o.broker_order_id o d) k b rest (
      ap (λ (x : Dict OrderSnapshot). lookup k x) (put_new o d n) ∙ lookup-put k n.id o d ∙ other n)
  where
    other : (n : IsNew o d) → (if str_eq n.id k then some o else lookup k d) ≡ some b
    other n = elim (Bool-cases (str_eq n.id k)) [
      | inl same ↦
          let taken : none ≡ some b =
            sym n.free ∙ ap (λ (j : String). lookup j d) ((str_eq_iff n.id k).0 same) ∙ e in
          absurd (cc taken)
      | inr away ↦ if_false _ _ _ away ∙ e
    ]

-- Without issues each order of the list stands in the dictionary, under its id.
pub broker_by_id-All :
    (os : List OrderSnapshot) (d : Dict OrderSnapshot)
    → broker_scan_issues os d ≡ []
    → All
        (λ b. (k : String) × (b.broker_order_id ≡ some k) × (lookup k (broker_by_id os d) ≡ some b))
        os
unfolding broker_by_id broker_scan_issues
broker_by_id-All [] d h = tt
broker_by_id-All (o ∷ os) d h =
    let (first, rest) = append-eq-nil (broker_order_issues o.broker_order_id d) _ h in
    let n = broker_order_issues-IsNew o d o.broker_order_id refl first in
    let set : lookup n.id (put_some o.broker_order_id o d) ≡ some o =
      ap (λ (x : Dict OrderSnapshot). lookup n.id x) (put_new o d n)
      ∙ lookup-put n.id n.id o d
      ∙ if_true _ _ _ (str_eq_refl n.id) in
    (
      (n.id, n.named, broker_by_id-keeps os (put_some o.broker_order_id o d) n.id o rest set),
      broker_by_id-All os (put_some o.broker_order_id o d) rest,
    )

-- The order is one of the list, with the id.
abbrev pub IsLocal : List Order → String → Order → Type 0
IsLocal os k o =
    (before : List Order) × (after : List Order) × (os ≡ before ++ o ∷ after)
    × (o.broker_order_id ≡ some k)

put_some-lookup :
    (k : String) (i : Option String) (x o : Order) (d : Dict Order)
    → lookup k (put_some i x d) ≡ some o
    → (lookup k d ≡ some o) ⊎ ((i ≡ some k) × (x ≡ o))
put_some-lookup k none x o d h = inl h
put_some-lookup k (some j) x o d h = elim (Bool-cases (has_text (some j))) [
  | inl given ↦
      let h : (if str_eq j k then some x else lookup k d) ≡ some o =
        sym (ap (λ (y : Dict Order). lookup k y) (if_true _ _ _ given) ∙ lookup-put k j x d) ∙ h in
      elim (Bool-cases (str_eq j k)) [
        | inl same ↦ inr (
          ap (λ (s : String). some s) ((str_eq_iff j k).0 same),
          some-injective (sym (if_true _ _ _ same) ∙ h),
        )
        | inr away ↦ inl (sym (if_false _ _ _ away) ∙ h)
      ]
  | inr blank ↦ inl (sym (ap (λ (y : Dict Order). lookup k y) (if_false _ _ _ blank)) ∙ h)
]

pub local_by_broker-IsLocal :
    (os : List Order) (d : Dict Order) (k : String) (o : Order)
    → lookup k (local_by_broker os d) ≡ some o
    → (lookup k d ≡ some o) ⊎ IsLocal os k o
unfolding local_by_broker
local_by_broker-IsLocal [] d k o h = inl h
local_by_broker-IsLocal (x ∷ os) d k o h =
    elim (local_by_broker-IsLocal os (put_some x.broker_order_id x d) k o h) [
      | inl e ↦ elim (put_some-lookup k x.broker_order_id x o d e) [
        | inl before ↦ inl before
        | inr (named, same) ↦ inr (
          [],
          os,
          ap (λ (y : Order). y ∷ os) same,
          subst (λ (y : Order). y.broker_order_id ≡ some k) same named,
        )
      ]
      | inr (before, after, split, named) ↦
          inr (x ∷ before, after, ap (λ (l : List Order). x ∷ l) split, named)
    ]
