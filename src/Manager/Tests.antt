-- ===== src/Manager/Tests.antt =====
-- The order manager with a broker that answers one order and raises on the next.
use codex_tw_quant_trading_s.Base.{
  some, false, Error, ◌≡◌, refl, List, [], ◌∷◌, ok, raised, runtime_error, map,
}
use codex_tw_quant_trading_s.Identity.{account_eq}
use codex_tw_quant_trading_s.Order.{
  finite, Request, accepted, filled, make_order, status_eq, transition_order, is_allowed,
  updated_order,
}
use codex_tw_quant_trading_s.Outbox.{
  reserve_op, reserve, insert_new, reserve_answer, row_order, account_of, begun, and_then,
  claim_next, earliest, finish_dispatch, update_order, breaks_index, commit, after, empty_store,
}
use codex_tw_quant_trading_s.Base.Int.{pos}
use codex_tw_quant_trading_s.Outbox.Store.{Store, OrderRow, written}
use codex_tw_quant_trading_s.Outbox.{new_row, new_outbox_row, reserved_order, claim_next_cancel}
use codex_tw_quant_trading_s.Manager.Cancel.{dispatch_cancel_once}
use codex_tw_quant_trading_s.Manager.Ended.{dispatch_cancel_once-ended}
use codex_tw_quant_trading_s.Manager.Ports.{Port, Manager, registration, gate_of, ready}
use codex_tw_quant_trading_s.Manager.Dispatch.{Moment, dispatch_once}
use codex_tw_quant_trading_s.Manager.Submissions.{
  Step, dispatch_step, store_step, after_step, after_steps, empty_world, HasDistinctIds,
  dispatch_once-distinct,
}
use codex_tw_quant_trading_s.Samples.{at_time, account_1, request_for, order_in}

abbrev answering : Port
answering = record {
  submit_order = λ r. ok (order_in accepted r.client_order_id);
  cancel_order = λ o. ok o;
  refresh_order = λ o. ok o;
}

abbrev failing : Port
failing = record answering { submit_order = λ _. raised (runtime_error "timeout") }

abbrev manager_with : Port → Manager
manager_with p = record {
  registry = record { account_ref = account_1; port = p; state = ready } ∷ [];
  admission_gates = [];
}

abbrev moment : Moment
moment = record {
  claimed_at = at_time 20;
  blocked_at = at_time 21;
  ended_at = at_time 22;
  code = λ _. "rejected";
}

-- Two orders, and three rounds of the worker.
abbrev day : List Step
day =
    store_step (reserve_op (record { target = account_1; request = request_for "c1" }) (at_time 1))
    ∷ store_step
        (reserve_op (record { target = account_1; request = request_for "c2" }) (at_time 2))
    ∷ dispatch_step (manager_with failing) account_1 moment
    ∷ dispatch_step (manager_with answering) account_1 moment
    ∷ dispatch_step (manager_with answering) account_1 moment
    ∷ []

day-submitted :
    map (λ (r : Request). r.client_order_id) (after_steps day empty_world).submitted
    ≡ "c2" ∷ "c1" ∷ []
unfolding after_steps after_step after empty_world empty_store reserve insert_new begun and_then
    make_order status_eq reserve_answer row_order account_of account_eq claim_next earliest
    dispatch_once registration gate_of finish_dispatch update_order breaks_index commit
    transition_order is_allowed updated_order
day-submitted = refl

dispatch_once-distinct_example : HasDistinctIds (after_steps day empty_world).submitted
dispatch_once-distinct_example = dispatch_once-distinct day

-- A cancel that was reserved before a reconciliation found its order filled.
abbrev filled_row : OrderRow
filled_row =
    written
      (record (order_in filled "c1") {
        filled_quantity = pos 2;
        average_fill_price = some (finite (pos 23001));
      })
      (new_row account_1 (reserved_order (request_for "c1") (at_time 1)))

abbrev late_cancel : Store
late_cancel = record {
  orders = filled_row ∷ [];
  outbox = [];
  cancels = new_outbox_row account_1 "c1" (at_time 15) ∷ [];
  in_transaction = false;
}

abbrev refusing : Port
refusing = record answering { cancel_order = λ _. raised (runtime_error "not cancellable") }

abbrev claimed_cancel : Store
claimed_cancel = (claim_next_cancel account_1 (at_time 20) late_cancel).1

dispatch_cancel_once-ended_example :
    (d : Error) × (dispatch_cancel_once (manager_with refusing) account_1 moment late_cancel
      ≡ (raised d, claimed_cancel))
unfolding claim_next_cancel begun earliest row_order make_order status_eq account_of registration
    gate_of account_eq
dispatch_cancel_once-ended_example =
    dispatch_cancel_once-ended (manager_with refusing) account_1 moment late_cancel claimed_cancel
      (record {
        target = account_1;
        order = record (order_in filled "c1") {
          filled_quantity = pos 2;
          average_fill_price = some (finite (pos 23001));
        };
      })
      refusing (runtime_error "not cancellable") refl refl refl refl refl refl
