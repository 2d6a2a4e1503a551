-- ===== src/Reconciliation/Compare.antt =====
-- `LiveReconciliationService._issues`, `_fill_issues` and `_position_issues` of
-- tw_quant/broker/reconciliation.py. The text for the reader in an issue's `detail` is left out.
use codex_tw_quant_trading_s.Base.{
  str_leb, String, Bool, not, ◌&&◌, Option, none, some, List, [], ◌∷◌, ◌++◌, any, str_eq, has_text,
  if◌then◌else◌, is_some,
}
use codex_tw_quant_trading_s.Base.Int.{ℤ, pos, neg, ◌+ℤ◌, eqb_ℤ}
use codex_tw_quant_trading_s.Base.Dict.{Dict, lookup, put}
use codex_tw_quant_trading_s.Identity.{AccountRef}
use codex_tw_quant_trading_s.Order.{Order, status_eq, is_terminal, unknown}
use codex_tw_quant_trading_s.Reconciliation.Snapshot.{
  OrderSnapshot, FillSnapshot, PositionSnapshot, Snapshot,
}

-- `ReconciliationIssue`
pub record Issue : Type 0 where
  pub code : String
  pub broker_order_id : Option String
  pub contract : Option String

abbrev pub plain : String → Issue
plain c = record { code = c; broker_order_id = none; contract = none }

abbrev pub of_order : String → String → Issue
of_order c b = record { code = c; broker_order_id = some b; contract = none }

abbrev pub of_contract : String → String → Issue
of_contract c k = record { code = c; broker_order_id = none; contract = some k }

-- `if test: issues.append(issue)`
abbrev pub issue_if : Bool → Issue → List Issue
issue_if b i = if b then i ∷ [] else []

unfoldable pub identity_issues : AccountRef → Snapshot → List Issue
identity_issues a s =
    issue_if (not (str_eq s.broker_name a.broker_name)) (plain "broker_mismatch")
    ++ issue_if (not (str_eq s.account_id a.account_id)) (plain "account_mismatch")

-- `d[key] = order` for an order that may have no broker id.
abbrev pub put_some {ℓ} : {V : Type ℓ} → Option String → V → Dict V → Dict V
put_some none v d = d
put_some (some k) v d = if has_text (some k) then put k v d else d

-- `local_by_broker`
unfoldable pub local_by_broker : List Order → Dict Order → Dict Order
local_by_broker [] d = d
local_by_broker (o ∷ os) d = local_by_broker os (put_some o.broker_order_id o d)

-- One round of the loop over the broker's orders: what it appends and what it sets.
unfoldable pub broker_order_issues : Option String → Dict OrderSnapshot → List Issue
broker_order_issues none d = plain "broker_order_without_id" ∷ []
broker_order_issues (some k) d =
    if has_text (some k)
    then issue_if (is_some (lookup k d)) (of_order "duplicate_broker_order" k)
    else plain "broker_order_without_id" ∷ []

-- The loop that builds `broker_by_id`, and its issues.
unfoldable pub broker_by_id : List OrderSnapshot → Dict OrderSnapshot → Dict OrderSnapshot
broker_by_id [] d = d
broker_by_id (o ∷ os) d = broker_by_id os (put_some o.broker_order_id o d)

unfoldable pub broker_scan_issues : List OrderSnapshot → Dict OrderSnapshot → List Issue
broker_scan_issues [] d = []
broker_scan_issues (o ∷ os) d =
    broker_order_issues o.broker_order_id d
    ++ broker_scan_issues os (put_some o.broker_order_id o d)

-- The loop over the local orders.
abbrev pub missing_issue : Bool → Option String → Dict OrderSnapshot → List Issue
missing_issue done none d = []
missing_issue done (some k) d =
    issue_if (has_text (some k) && not done && not (is_some (lookup k d)))
      (of_order "local_order_missing_at_broker" k)

unfoldable pub local_order_issues : Order → Dict OrderSnapshot → List Issue
local_order_issues o d =
    if status_eq o.status unknown && not (has_text o.broker_order_id)
    then plain "ambiguous_local_order" ∷ []
    else missing_issue (is_terminal o.status) o.broker_order_id d

unfoldable pub local_issues : List Order → Dict OrderSnapshot → List Issue
local_issues [] d = []
local_issues (o ∷ os) d = local_order_issues o d ++ local_issues os d

-- The loop over `broker_by_id`.
abbrev pub match_issues : String → Option Order → OrderSnapshot → List Issue
match_issues k none b = of_order "unknown_broker_order" k ∷ []
match_issues k (some l) b =
    issue_if (not (status_eq l.status b.status)) (of_order "order_status_mismatch" k)
    ++ issue_if (not (eqb_ℤ l.filled_quantity b.filled_quantity))
        (of_order "order_fill_quantity_mismatch" k)

unfoldable pub broker_issues : Dict OrderSnapshot → Dict Order → List Issue
broker_issues [] locals = []
broker_issues ((k, b) ∷ d) locals = match_issues k (lookup k locals) b ++ broker_issues d locals

abbrev pub or_zero : Option ℤ → ℤ
or_zero none = pos 0
or_zero (some q) = q

-- `d.get(key, 0)`
abbrev pub get_zero : String → Dict ℤ → ℤ
get_zero k d = or_zero (lookup k d)

-- `d[key] = d.get(key, 0) + n`
abbrev pub add_at : String → ℤ → Dict ℤ → Dict ℤ
add_at k n d = put k (get_zero k d +ℤ n) d

-- `_fill_issues`: the loop over the fills, its `quantities`, and the loop over the orders.
unfoldable pub fill_scan_issues : List FillSnapshot → List String → Dict OrderSnapshot → List Issue
fill_scan_issues [] seen d = []
fill_scan_issues (f ∷ fs) seen d =
    (issue_if (any (str_eq f.fill_id) seen) (of_order "duplicate_broker_fill" f.broker_order_id)
      ++ issue_if (not (is_some (lookup f.broker_order_id d)))
          (of_order "orphan_broker_fill" f.broker_order_id))
    ++ fill_scan_issues fs (f.fill_id ∷ seen) d

unfoldable pub fill_quantities : List FillSnapshot → Dict ℤ → Dict ℤ
fill_quantities [] d = d
fill_quantities (f ∷ fs) d = fill_quantities fs (add_at f.broker_order_id f.quantity d)

unfoldable pub deal_issues : Dict OrderSnapshot → Dict ℤ → List Issue
deal_issues [] q = []
deal_issues ((k, b) ∷ d) q =
    issue_if (not (eqb_ℤ (get_zero k q) b.filled_quantity))
      (of_order "broker_deal_quantity_mismatch" k)
    ++ deal_issues d q

unfoldable pub fill_issues : Snapshot → Dict OrderSnapshot → List Issue
fill_issues s d = fill_scan_issues s.fills [] d ++ deal_issues d (fill_quantities s.fills [])

-- `_position_issues`
abbrev pub signed_fill : Order → ℤ
signed_fill o = if str_eq o.request.side "buy" then o.filled_quantity else neg o.filled_quantity

unfoldable pub local_positions : List Order → Dict ℤ → Dict ℤ
local_positions [] d = d
local_positions (o ∷ os) d = local_positions os (add_at o.request.contract (signed_fill o) d)

unfoldable pub broker_positions : List PositionSnapshot → Dict ℤ → Dict ℤ
broker_positions [] d = d
broker_positions (p ∷ ps) d = broker_positions ps (add_at p.contract p.quantity d)

-- `sorted(set(...))`: insertion into a sorted list without repetition.
unfoldable pub insert_sorted : String → List String → List String
insert_sorted k [] = k ∷ []
insert_sorted k (j ∷ js) =
    let rest = insert_sorted k js in
    if str_eq k j then j ∷ js else if str_leb k j then k ∷ j ∷ js else j ∷ rest

unfoldable pub sorted_keys : Dict ℤ → List String → List String
sorted_keys [] ks = ks
sorted_keys ((k, _) ∷ d) ks = insert_sorted k (sorted_keys d ks)

unfoldable pub contract_issues : List String → Dict ℤ → Dict ℤ → List Issue
contract_issues [] l b = []
contract_issues (k ∷ ks) l b =
    issue_if (not (eqb_ℤ (get_zero k l) (get_zero k b))) (of_contract "position_mismatch" k)
    ++ contract_issues ks l b

unfoldable pub position_issues : List Order → Snapshot → List Issue
position_issues os s =
    let l = local_positions os [] in
    let b = broker_positions s.positions [] in
    contract_issues (sorted_keys l (sorted_keys b [])) l b

-- `_issues`
unfoldable pub issues : AccountRef → List Order → Snapshot → List Issue
issues a os s =
    let d = broker_by_id s.orders [] in
    identity_issues a s
    ++ (broker_scan_issues s.orders []
        ++ (local_issues os d
            ++ (broker_issues d (local_by_broker os [])
                ++ (fill_issues s d ++ position_issues os s))))
