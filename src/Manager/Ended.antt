-- ===== src/Manager/Ended.antt =====
-- Cancels of orders that have ended, in `dispatch_cancel_once` of tw_quant/broker/manager.py.
use codex_tw_quant_trading_s.Base.{◌≡◌, refl, ap, ◌∙◌, true, some, Result, Error, ok, raised, arith}
use codex_tw_quant_trading_s.Identity.{AccountRef}
use codex_tw_quant_trading_s.Order.{
  Order, is_terminal, status_eq, is_allowed, updated_order, transition_order,
}
use codex_tw_quant_trading_s.Outbox.{RoutedOrder, claim_next_cancel}
use codex_tw_quant_trading_s.Outbox.Store.{Store}
use codex_tw_quant_trading_s.Manager.Ports.{
  Port, Manager, resolve, assert_admitted, assert_cancel_admitted,
}
use codex_tw_quant_trading_s.Manager.Dispatch.{Moment}
use codex_tw_quant_trading_s.Manager.Cancel.{
  cancel_result, record_cancel, cancel_at, dispatch_cancel, cancel_claimed,
  cancel_dispatch_admitted, dispatch_cancel_once,
}

no_unknown :
    (c : Moment) (o p : Order) (e : Error)
    → is_terminal o.status ≡ true
    → cancel_result c o (raised e) ≡ ok p
    → ⊥
unfolding transition_order is_allowed status_eq updated_order
no_unknown c o p e t h = ground arith

ended_result :
    (c : Moment) (o : Order) (e : Error) (s : Store)
    → is_terminal o.status ≡ true
    → (d : Error) × (record_cancel s (cancel_result c o (raised e)) ≡ (raised d, s))
ended_result c o e s t = go (cancel_result c o (raised e)) refl
  where
    go :
        (m : Result Order)
        → cancel_result c o (raised e) ≡ m
        → (d : Error) × (record_cancel s m ≡ (raised d, s))
    go (raised d) q = (d, refl)
    go (ok p) q = absurd (no_unknown c o p e t q)

-- If the manager admits the cancel of a claimed order whose status is terminal, and the broker call
-- raises, then `dispatch_cancel_once` raises, and the tables stay as the claim left them: the cancel is neither
-- finished nor blocked.
pub dispatch_cancel_once-ended :
    (m : Manager) (t : AccountRef) (c : Moment) (s s' : Store) (r : RoutedOrder) (port : Port)
    (e : Error)
    → assert_admitted t m ≡ ok tt
    → claim_next_cancel t c.claimed_at s ≡ (ok (some r), s')
    → assert_cancel_admitted m r ≡ ok tt
    → resolve t m ≡ ok port
    → port.cancel_order r.order ≡ raised e
    → is_terminal r.order.status ≡ true
    → (d : Error) × (dispatch_cancel_once m t c s ≡ (raised d, s'))
unfolding dispatch_cancel_once
dispatch_cancel_once-ended m t c s s' r port e a claim g p b n =
    let (d, h) = ended_result c r.order e s' n in
    (
      d,
      ap (cancel_dispatch_admitted m t c s) a
          ∙ ap (cancel_claimed m t c) claim
          ∙ ap (dispatch_cancel m t c r s') g
          ∙ ap (cancel_at c r s') p
          ∙ ap (λ x. record_cancel s' (cancel_result c r.order x)) b
          ∙ h,
    )
