-- ===== src/Reconciliation/Agreement.antt =====
-- What it means that the comparison `_issues` (tw_quant/broker/reconciliation.py) finds no issue.
use codex_tw_quant_trading_s.Base.{
  String, ◌≡◌, refl, ap, ◌∙◌, true, not, Option, none, some, List, [], ◌∷◌, All, str_eq, inl, inr,
  if◌then◌else◌, append-eq-nil, false_of_not, sym,
}
use codex_tw_quant_trading_s.Base.Int.{ℤ, pos, ◌+ℤ◌, eqb_ℤ, eqb_ℤ-eq, +ℤ_assoc, +ℤ_zero, zero_+ℤ}
use codex_tw_quant_trading_s.Base.Dict.{Dict, lookup, lookup-All}
use codex_tw_quant_trading_s.Identity.{AccountRef}
use codex_tw_quant_trading_s.Order.{Order, status_eq}
use codex_tw_quant_trading_s.Reconciliation.Snapshot.{OrderSnapshot, FillSnapshot, Snapshot}
use codex_tw_quant_trading_s.Reconciliation.Compare.{
  issue_if, of_order, get_zero, add_at, fill_quantities, deal_issues, fill_scan_issues, fill_issues,
  match_issues, broker_issues, broker_by_id, local_by_broker, identity_issues, broker_scan_issues,
  local_issues, position_issues, issues, plain,
}
use codex_tw_quant_trading_s.Reconciliation.Listed.{
  IsLocal, local_by_broker-IsLocal, broker_by_id-All,
}
use codex_tw_quant_trading_s.Reconciliation.Positions.{
  issue_if-nil, get_zero-add_at, net_filled, net_held, position_issues-nil,
}

-- The sum of the fills of one order.
pub filled_by : String → List FillSnapshot → ℤ
filled_by k [] = pos 0
filled_by k (f ∷ fs) = (if str_eq f.broker_order_id k then f.quantity else pos 0) +ℤ filled_by k fs

fill_quantities-filled_by :
    (k : String) (fs : List FillSnapshot) (d : Dict ℤ)
    → get_zero k (fill_quantities fs d) ≡ get_zero k d +ℤ filled_by k fs
unfolding fill_quantities filled_by
fill_quantities-filled_by k [] d = sym (+ℤ_zero _)
fill_quantities-filled_by k (f ∷ fs) d =
    fill_quantities-filled_by k fs (add_at f.broker_order_id f.quantity d)
    ∙ ap (λ x. x +ℤ filled_by k fs) (get_zero-add_at k f.broker_order_id f.quantity d)
    ∙ +ℤ_assoc _ _ _

-- The local order of this broker id, with the status and the filled quantity that the broker reports.
pub record IsMatched (locals : Dict Order) (k : String) (b : OrderSnapshot) : Type 0 where
  pub order : Order
  pub found : lookup k locals ≡ some order
  pub same_status : status_eq order.status b.status ≡ true
  pub same_filled : order.filled_quantity ≡ b.filled_quantity

match_issues-IsMatched :
    (locals : Dict Order) (k : String) (b : OrderSnapshot) (o : Option Order)
    → lookup k locals ≡ o
    → match_issues k o b ≡ []
    → IsMatched locals k b
match_issues-IsMatched locals k b none q h = absurd (cc)
match_issues-IsMatched locals k b (some l) q h =
    let i = of_order "order_status_mismatch" k in
    let j = of_order "order_fill_quantity_mismatch" k in
    let (status, filled) =
      append-eq-nil (issue_if (not (status_eq l.status b.status)) i)
        (issue_if (not (eqb_ℤ l.filled_quantity b.filled_quantity)) j) h in
    record {
      order = l;
      found = q;
      same_status = false_of_not _ (issue_if-nil _ i status);
      same_filled = eqb_ℤ-eq _ _ (false_of_not _ (issue_if-nil _ j filled));
    }

broker_issues-All :
    (d : Dict OrderSnapshot) (locals : Dict Order)
    → broker_issues d locals ≡ []
    → All (λ e. IsMatched locals e.0 e.1) d
unfolding broker_issues
broker_issues-All [] locals h = tt
broker_issues-All ((k, b) ∷ d) locals h =
    let (first, rest) =
      append-eq-nil (match_issues k (lookup k locals) b) (broker_issues d locals) h in
    (
      match_issues-IsMatched locals k b (lookup k locals) refl first,
      broker_issues-All d locals rest,
    )

deal_issues-All :
    (d : Dict OrderSnapshot) (q : Dict ℤ)
    → deal_issues d q ≡ []
    → All (λ e. get_zero e.0 q ≡ e.1.filled_quantity) d
unfolding deal_issues
deal_issues-All [] q h = tt
deal_issues-All ((k, b) ∷ d) q h =
    let i = of_order "broker_deal_quantity_mismatch" k in
    let (first, rest) =
      append-eq-nil (issue_if (not (eqb_ℤ (get_zero k q) b.filled_quantity)) i) (deal_issues d q)
        h in
    (eqb_ℤ-eq _ _ (false_of_not _ (issue_if-nil _ i first)), deal_issues-All d q rest)

-- What the broker lists as an order is a local order of its id, with the status and the filled quantity
-- that the broker reports, and the broker's fills of this id sum to this quantity.
pub record IsKnown (os : List Order) (fs : List FillSnapshot) (b : OrderSnapshot) : Type 0 where
  pub id : String
  pub named : b.broker_order_id ≡ some id
  pub order : Order
  pub is_local : IsLocal os id order
  pub same_status : status_eq order.status b.status ≡ true
  pub same_filled : order.filled_quantity ≡ b.filled_quantity
  pub filled : filled_by id fs ≡ b.filled_quantity

-- What the comparison checks.
pub record Agrees (a : AccountRef) (os : List Order) (s : Snapshot) : Type 0 where
  pub same_broker : str_eq s.broker_name a.broker_name ≡ true
  pub same_account : str_eq s.account_id a.account_id ≡ true
  pub orders : All (IsKnown os s.fills) s.orders
  pub positions : (c : String) → net_filled c os ≡ net_held c s.positions

known :
    (os : List Order) (s : Snapshot) (b : OrderSnapshot) (k : String)
    → b.broker_order_id ≡ some k
    → IsMatched (local_by_broker os []) k b
    → get_zero k (fill_quantities s.fills []) ≡ b.filled_quantity
    → IsKnown os s.fills b
unfolding lookup
known os s b k named m deals = record {
  id = k;
  named = named;
  order = m.order;
  is_local = elim (local_by_broker-IsLocal os [] k m.order m.found) [
    | inl empty ↦ absurd (cc empty)
    | inr one ↦ one
  ];
  same_status = m.same_status;
  same_filled = m.same_filled;
  filled = sym (fill_quantities-filled_by k s.fills [] ∙ zero_+ℤ _) ∙ deals;
}

all-IsKnown :
    (os : List Order) (s : Snapshot) (d : Dict OrderSnapshot)
    → broker_issues d (local_by_broker os []) ≡ []
    → deal_issues d (fill_quantities s.fills []) ≡ []
    → (bs : List OrderSnapshot)
    → All (λ b. (k : String) × (b.broker_order_id ≡ some k) × (lookup k d ≡ some b)) bs
    → All (IsKnown os s.fills) bs
all-IsKnown os s d matches deals [] found = tt
all-IsKnown os s d matches deals (b ∷ bs) ((k, named, e), rest) =
    let locals = local_by_broker os [] in
    let q = fill_quantities s.fills [] in
    (
      known os s b k named
          (lookup-All (IsMatched locals) k b d (broker_issues-All d locals matches) e)
          (lookup-All (λ k b. get_zero k q ≡ b.filled_quantity) k b d (deal_issues-All d q deals)
            e),
      all-IsKnown os s d matches deals bs rest,
    )

-- If the comparison finds no issue, then the snapshot is of this broker and account; each order that
-- the broker lists has an id, and is a local order of this id with the same status and filled quantity,
-- and the broker's fills of this id sum to that quantity; and for every contract what the local orders
-- filled, buys less sells, is the sum of what the broker holds.
pub issues-Agrees :
    (a : AccountRef) (os : List Order) (s : Snapshot) → issues a os s ≡ [] → Agrees a os s
unfolding issues identity_issues fill_issues
issues-Agrees a os s h =
    let d = broker_by_id s.orders [] in
    let q = fill_quantities s.fills [] in
    let i = plain "broker_mismatch" in
    let j = plain "account_mismatch" in
    let (names, h) = append-eq-nil (identity_issues a s) _ h in
    let (scan, h) = append-eq-nil (broker_scan_issues s.orders []) _ h in
    let (_, h) = append-eq-nil (local_issues os d) _ h in
    let (matches, h) = append-eq-nil (broker_issues d (local_by_broker os [])) _ h in
    let (fills, positions) = append-eq-nil (fill_issues s d) (position_issues os s) h in
    let (broker, account) =
      append-eq-nil (issue_if (not (str_eq s.broker_name a.broker_name)) i)
        (issue_if (not (str_eq s.account_id a.account_id)) j) names in
    let (_, deals) = append-eq-nil (fill_scan_issues s.fills [] d) (deal_issues d q) fills in
    record {
      same_broker = false_of_not _ (issue_if-nil _ i broker);
      same_account = false_of_not _ (issue_if-nil _ j account);
      orders = all-IsKnown os s d matches deals s.orders (broker_by_id-All s.orders [] scan);
      positions = position_issues-nil os s positions;
    }
