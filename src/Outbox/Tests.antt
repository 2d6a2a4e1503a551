-- ===== src/Outbox/Tests.antt =====
-- The order outbox at one and two reserved orders.
use codex_tw_quant_trading_s.Base.{
  ◌↔◌, String, ◌≡◌, ◌≢◌, refl, true, false, none, List, [], ◌∷◌, ok, raised, Error,
}
use codex_tw_quant_trading_s.Order.{Order, make_order, status_eq, unknown}
use codex_tw_quant_trading_s.Outbox.Store.{
  RoutedRequest, RoutedOrder, OrderRow, written, Store, opened, begin_error, begun, and_then,
  update_order, breaks_index, account_of, row_order,
}
use codex_tw_quant_trading_s.Outbox.Dispatch.{
  insert_new, new_row, reserve, reserve_answer, reserved_order, earliest, claim_next,
}
use codex_tw_quant_trading_s.Outbox.Cancel.{reserve_cancel, claim_next_cancel}
use codex_tw_quant_trading_s.Outbox.Repair.{block_pending_dispatches, update_rows, joined}
use codex_tw_quant_trading_s.Outbox.Trace.{Op, reserve_op, claim_op, after, after_all, empty_store}
use codex_tw_quant_trading_s.Outbox.Claims.{claim_next-distinct}
use codex_tw_quant_trading_s.Outbox.Effects.{reserve-again, block_pending_dispatches-claim}
use codex_tw_quant_trading_s.Identity.{account_eq}
use codex_tw_quant_trading_s.Outbox.Listing.{
  reconciliation_candidates, read_rows, sort_rows, insert_row,
}
use codex_tw_quant_trading_s.Outbox.Candidates.{
  IsIn, IsSelected, reconciliation_candidates-IsSelected,
}
use codex_tw_quant_trading_s.Outbox.Stuck.{reserve_cancel-blocks}
use codex_tw_quant_trading_s.Samples.{at_time, account_1, request_for, order_in}

abbrev routed : String → RoutedRequest
routed k = record { target = account_1; request = request_for k }

abbrev two_reserved : List Op
two_reserved = reserve_op (routed "c1") (at_time 1) ∷ reserve_op (routed "c2") (at_time 2) ∷ []

abbrev first_claim : RoutedOrder
first_claim = record { target = account_1; order = reserved_order (request_for "c1") (at_time 1) }

abbrev second_claim : RoutedOrder
second_claim = record { target = account_1; order = reserved_order (request_for "c2") (at_time 2) }

abbrev claimed_once : Store
claimed_once = (claim_next account_1 (at_time 3) (after_all two_reserved empty_store)).1

abbrev claimed_twice : Store
claimed_twice = (claim_next account_1 (at_time 4) (after_all [] claimed_once)).1

claim_next-distinct_example :
    second_claim.order.request.client_order_id ≢ first_claim.order.request.client_order_id
unfolding after_all after begun and_then empty_store reserve insert_new make_order status_eq
    reserve_answer row_order account_of claim_next earliest
claim_next-distinct_example =
    claim_next-distinct two_reserved [] account_1 account_1 (at_time 3) (at_time 4) first_claim
      second_claim claimed_once claimed_twice refl refl

abbrev one_reserved : Store
one_reserved = (reserve (routed "c1") (at_time 1) empty_store).1

reserve-again_example :
    reserve (routed "c1") (at_time 2) one_reserved
    ≡ (ok (reserved_order (request_for "c1") (at_time 1), false), one_reserved)
unfolding reserve begun and_then empty_store insert_new make_order status_eq reserve_answer
    row_order account_of account_eq
reserve-again_example =
    reserve-again (routed "c1") (at_time 1) (at_time 2) empty_store one_reserved
      (reserved_order (request_for "c1") (at_time 1)) true refl refl

abbrev stopped_store : Store
stopped_store = (block_pending_dispatches account_1 "restart" (at_time 2) one_reserved).1

block_pending_dispatches-claim_example :
    (claim_next account_1 (at_time 3) stopped_store ≡ (ok none, stopped_store))
    × (claim_next_cancel account_1 (at_time 3) stopped_store ≡ (ok none, stopped_store))
unfolding reserve begun and_then empty_store insert_new make_order status_eq reserve_answer
    row_order account_of account_eq block_pending_dispatches update_rows joined update_order
    breaks_index
block_pending_dispatches-claim_example =
    block_pending_dispatches-claim account_1 "restart" (at_time 2) (at_time 3) one_reserved
      stopped_store 1 refl

-- An order that a poll of the broker left without a known outcome.
abbrev unknown_order : Order
unknown_order = order_in unknown "c1"

abbrev unknown_row : OrderRow
unknown_row =
    written unknown_order (new_row account_1 (reserved_order (request_for "c1") (at_time 1)))

abbrev one_unknown : Store
one_unknown = record {
  orders = unknown_row ∷ [];
  outbox = [];
  cancels = [];
  in_transaction = false;
}

abbrev next_day : List Op
next_day = reserve_op (routed "c2") (at_time 30) ∷ claim_op account_1 (at_time 31) ∷ []

reserve_cancel-blocks_example :
    (e : Error) × (reserve_cancel account_1 "owner" "c1" (at_time 20) one_unknown
      ≡ (raised e, opened one_unknown))
    × (after_all next_day (opened one_unknown) ≡ opened one_unknown)
    × (claim_next account_1 (at_time 32) (after_all next_day (opened one_unknown))
        ≡ (raised begin_error, opened one_unknown))
unfolding row_order make_order status_eq
reserve_cancel-blocks_example =
    reserve_cancel-blocks account_1 account_1 "owner" "c1" (at_time 20) (at_time 32) one_unknown
      unknown_row unknown_order next_day refl refl refl refl refl refl (refl, (refl, tt))

-- The unknown order is the one candidate of its account.
reconciliation_candidates-IsSelected_example : IsIn unknown_order (unknown_order ∷ []) ↔ (
    (r : OrderRow) × IsIn r one_unknown.orders
    × IsSelected account_1 none r
    × (row_order r ≡ ok unknown_order))
unfolding reconciliation_candidates read_rows sort_rows insert_row row_order make_order status_eq
reconciliation_candidates-IsSelected_example =
    reconciliation_candidates-IsSelected account_1 none one_unknown (unknown_order ∷ [])
      unknown_order refl
