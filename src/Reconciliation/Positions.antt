-- ===== src/Reconciliation/Positions.antt =====
-- The comparison of positions (tw_quant/broker/reconciliation.py, `_position_issues`) against the
-- plain sums of the fills and positions of each contract.
use codex_tw_quant_trading_s.Base.{
  String, ◌≡◌, refl, sym, ap, ◌∙◌, subst, inl, inr, Bool, true, false, not, ◌||◌, Option, none,
  some, List, [], ◌∷◌, any, arith, str_eq, str_eq_iff, if◌then◌else◌, is_some, Bool-cases,
  false_of_not, append-eq-nil,
}
use codex_tw_quant_trading_s.Base.Int.{
  ℤ, pos, ◌+ℤ◌, eqb_ℤ, eqb_ℤ-eq, +ℤ_assoc, +ℤ_zero, zero_+ℤ, int_laws,
}
use codex_tw_quant_trading_s.Base.Dict.{Dict, lookup, lookup-put}
use codex_tw_quant_trading_s.Order.{Order}
use codex_tw_quant_trading_s.Reconciliation.Snapshot.{PositionSnapshot, Snapshot}
use codex_tw_quant_trading_s.Reconciliation.Compare.{
  Issue, issue_if, of_contract, get_zero, or_zero, add_at, signed_fill, local_positions,
  broker_positions, insert_sorted, sorted_keys, contract_issues, position_issues,
}

-- The sum of what one contract's orders filled, buys less sells.
pub net_filled : String → List Order → ℤ
net_filled c [] = pos 0
net_filled c (o ∷ os) =
    (if str_eq o.request.contract c then signed_fill o else pos 0) +ℤ net_filled c os

pub net_held : String → List PositionSnapshot → ℤ
net_held c [] = pos 0
net_held c (p ∷ ps) = (if str_eq p.contract c then p.quantity else pos 0) +ℤ net_held c ps

pub issue_if-nil : (b : Bool) (i : Issue) → issue_if b i ≡ [] → b ≡ false
issue_if-nil true i h = absurd (cc)
issue_if-nil false i h = refl

pub get_zero-add_at :
    (c k : String) (n : ℤ) (d : Dict ℤ)
    → get_zero c (add_at k n d) ≡ get_zero c d +ℤ (if str_eq k c then n else pos 0)
get_zero-add_at c k n d =
    ap or_zero (lookup-put c k (get_zero k d +ℤ n) d) ∙ elim (Bool-cases (str_eq k c)) [
      | inl e ↦ rw e (ap (λ x. get_zero x d +ℤ n) ((str_eq_iff k c).0 e))
      | inr e ↦ rw e (sym (+ℤ_zero _))
    ]

local_positions-net :
    (c : String) (os : List Order) (d : Dict ℤ)
    → get_zero c (local_positions os d) ≡ get_zero c d +ℤ net_filled c os
unfolding local_positions net_filled
local_positions-net c [] d = omega int_laws
local_positions-net c (o ∷ os) d =
    local_positions-net c os (add_at o.request.contract (signed_fill o) d)
    ∙ ap (λ x. x +ℤ net_filled c os) (get_zero-add_at c o.request.contract (signed_fill o) d)
    ∙ +ℤ_assoc _ _ _

broker_positions-net :
    (c : String) (ps : List PositionSnapshot) (d : Dict ℤ)
    → get_zero c (broker_positions ps d) ≡ get_zero c d +ℤ net_held c ps
unfolding broker_positions net_held
broker_positions-net c [] d = omega int_laws
broker_positions-net c (p ∷ ps) d =
    broker_positions-net c ps (add_at p.contract p.quantity d)
    ∙ ap (λ x. x +ℤ net_held c ps) (get_zero-add_at c p.contract p.quantity d)
    ∙ +ℤ_assoc _ _ _

any-insert_sorted :
    (c k : String) (ks : List String)
    → any (str_eq c) (insert_sorted k ks) ≡ (str_eq c k || any (str_eq c) ks)
unfolding insert_sorted
any-insert_sorted c k [] = refl
any-insert_sorted c k (j ∷ js) = ground (arith, str_eq_iff k j, any-insert_sorted c k js)

sorted_keys-lookup :
    (c : String) (d : Dict ℤ) (ks : List String)
    → any (str_eq c) (sorted_keys d ks) ≡ (is_some (lookup c d) || any (str_eq c) ks)
unfolding sorted_keys lookup
sorted_keys-lookup c [] ks = refl
sorted_keys-lookup c ((k, q) ∷ d) ks =
    any-insert_sorted c k (sorted_keys d ks)
    ∙ ground (arith, str_eq_iff c k, str_eq_iff k c, sorted_keys-lookup c d ks)

contract_issues-nil :
    (c : String) (ks : List String) (l b : Dict ℤ)
    → contract_issues ks l b ≡ []
    → any (str_eq c) ks ≡ true
    → get_zero c l ≡ get_zero c b
unfolding contract_issues
contract_issues-nil c [] l b h m = absurd (cc)
contract_issues-nil c (k ∷ ks) l b h m =
    let i = of_contract "position_mismatch" k in
    let (first, rest) =
      append-eq-nil (issue_if (not (eqb_ℤ (get_zero k l) (get_zero k b))) i)
        (contract_issues ks l b) h in
    elim (Bool-cases (str_eq c k)) [
      | inl e ↦
          subst (λ x. get_zero x l ≡ get_zero x b) (sym ((str_eq_iff c k).0 e))
            (eqb_ℤ-eq _ _ (false_of_not _ (issue_if-nil _ i first)))
      | inr e ↦ contract_issues-nil c ks l b rest (rw e at m)
    ]

-- A contract that no position names is at zero.
zero_of_none : (o : Option ℤ) → is_some o ≡ false → or_zero o ≡ pos 0
zero_of_none none h = refl
zero_of_none (some q) h = absurd (cc)

compared :
    (c : String) (l b : Dict ℤ)
    → contract_issues (sorted_keys l (sorted_keys b [])) l b ≡ []
    → get_zero c l ≡ get_zero c b
compared c l b h = elim (Bool-cases (any (str_eq c) (sorted_keys l (sorted_keys b [])))) [
  | inl e ↦ contract_issues-nil c (sorted_keys l (sorted_keys b [])) l b h e
  | inr e ↦
      let named : is_some (lookup c l) || (is_some (lookup c b) || false) ≡ false =
        sym (
          sorted_keys-lookup c l (sorted_keys b [])
          ∙ ap (λ x. is_some (lookup c l) || x) (sorted_keys-lookup c b []))
        ∙ e in
      let (n, m) = neither (is_some (lookup c l)) (is_some (lookup c b)) named in
      zero_of_none (lookup c l) n ∙ sym (zero_of_none (lookup c b) m)
]
  where
    neither : (x y : Bool) → x || (y || false) ≡ false → (x ≡ false) × (y ≡ false)
    neither true y h = absurd (cc)
    neither false true h = absurd (cc)
    neither false false h = (refl, refl)

-- If the comparison of positions raises no issue, then for every contract, also one that only one
-- side names, what the local orders filled, buys less sells, is the sum of what the broker holds.
pub position_issues-nil :
    (os : List Order) (s : Snapshot)
    → position_issues os s ≡ []
    → (c : String) → net_filled c os ≡ net_held c s.positions
unfolding position_issues lookup
position_issues-nil os s h c =
    sym (local_positions-net c os [] ∙ zero_+ℤ _)
    ∙ compared c (local_positions os []) (broker_positions s.positions []) h
    ∙ (broker_positions-net c s.positions [] ∙ zero_+ℤ _)
