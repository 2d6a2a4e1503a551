-- ===== src/Manager/Submissions.antt =====
-- What `dispatch_once` (tw_quant/broker/manager.py) asks the broker to submit.
use codex_tw_quant_trading_s.Base.{
  String, ◌≡◌, ◌≢◌, refl, sym, subst, Bool, true, false, not, Option, none, some, List, [], ◌∷◌,
  Result, ok, raised, All, if◌then◌else◌,
}
use codex_tw_quant_trading_s.Identity.{AccountRef, account_eq}
use codex_tw_quant_trading_s.Order.{Request, Order}
use codex_tw_quant_trading_s.Outbox.{
  RoutedOrder, claim_next, finish_dispatch, block_dispatch, Op, claim_op, finish_op, block_op,
  after, empty_store,
}
use codex_tw_quant_trading_s.Outbox.Store.{Store}
use codex_tw_quant_trading_s.Outbox.Invariant.{after-keeps}
use codex_tw_quant_trading_s.Outbox.Claims.{
  IsConsistent, IsSpent, IsConsistent-Stable, IsSpent-Stable, claim_next-IsSpent,
  claim_next-not_IsSpent, empty_store-IsConsistent,
}
use codex_tw_quant_trading_s.Manager.Ports.{
  Port, Manager, resolve, assert_admitted, assert_order_admitted,
}
use codex_tw_quant_trading_s.Manager.Dispatch.{
  World, Moment, dispatch_once, dispatch_admitted, dispatch_claimed, dispatch_order, submit_to,
  submission_result, record_result, finished, blocked_answer,
}

-- A call by any caller: of the manager, whatever its gates and broker then are, or of the repository.
pub data Step : Type 0 where
  dispatch_step : Manager → AccountRef → Moment → Step
  store_step : Op → Step

unfoldable pub after_step : Step → World → World
after_step (dispatch_step m t c) w = (dispatch_once m t c w).1
after_step (store_step op) w = record w { store = after op w.store }

unfoldable pub after_steps : List Step → World → World
after_steps [] w = w
after_steps (step ∷ steps) w = after_steps steps (after_step step w)

unfoldable pub empty_world : World
empty_world = record { store = empty_store; submitted = [] }

-- No two requests of the list have the same client id.
unfoldable pub HasDistinctIds : List Request → Type 0
HasDistinctIds [] = Unit {0}
HasDistinctIds (q ∷ qs) = All (λ p. q.client_order_id ≢ p.client_order_id) qs × HasDistinctIds qs

All-map :
    {A : Type 0} (P Q : A → Type 0) → ((a : A) → P a → Q a) → (xs : List A) → All P xs → All Q xs
All-map P Q f [] h = tt
All-map P Q f (x ∷ xs) h = (f x h.0, All-map P Q f xs h.1)

-- Whatever was submitted is spent in the outbox.
record IsSafe (w : World) : Type 0 where
  consistent : IsConsistent w.store
  spent : All (λ q. IsSpent q.client_order_id w.store) w.submitted
  distinct : HasDistinctIds w.submitted

op-IsSafe : (op : Op) (w : World) → IsSafe w → IsSafe (record w { store = after op w.store })
op-IsSafe op w h = record {
  consistent = after-keeps IsConsistent IsConsistent-Stable op w.store h.consistent;
  spent =
      All-map (λ q. IsSpent q.client_order_id w.store)
        (λ q. IsSpent q.client_order_id (after op w.store))
        (λ q k.
          after-keeps (IsSpent q.client_order_id) (IsSpent-Stable q.client_order_id) op w.store k)
        w.submitted h.spent;
  distinct = h.distinct;
}

submitted-IsSafe :
    (r : RoutedOrder) (w : World)
    → IsSafe w
    → IsSpent r.order.request.client_order_id w.store
    → All (λ q. r.order.request.client_order_id ≢ q.client_order_id) w.submitted
    → IsSafe (record w { submitted = r.order.request ∷ w.submitted })
unfolding HasDistinctIds
submitted-IsSafe r w h s n = record {
  consistent = h.consistent;
  spent = (s, h.spent);
  distinct = (n, h.distinct);
}

finished-store :
    (o : Order) (w : World) (m : Result (Unit {0}) × Store)
    → (finished o w m).1 ≡ record w { store = m.1 }
finished-store o w (raised e, s) = refl
finished-store o w (ok _, s) = refl

blocked_answer-store :
    (c : Moment) (o : Order) (code : String) (w : World) (m : Result (Unit {0}) × Store)
    → (blocked_answer c o code w m).1 ≡ record w { store = m.1 }
blocked_answer-store c o code w (raised e, s) = refl
blocked_answer-store c o code w (ok _, s) = refl

record_result-IsSafe : (w : World) (m : Result Order) → IsSafe w → IsSafe (record_result w m).1
unfolding after
record_result-IsSafe w (raised e) h = h
record_result-IsSafe w (ok o) h =
    subst IsSafe (sym (finished-store o w (finish_dispatch o w.store)))
      (op-IsSafe (finish_op o) w h)

submit_to-IsSafe :
    (c : Moment) (r : RoutedOrder) (w : World) (p : Result Port)
    → IsSafe w
    → IsSpent r.order.request.client_order_id w.store
    → All (λ q. r.order.request.client_order_id ≢ q.client_order_id) w.submitted
    → IsSafe (submit_to c r w p).1
submit_to-IsSafe c r w (raised e) h s n = h
submit_to-IsSafe c r w (ok port) h s n =
    record_result-IsSafe (record w { submitted = r.order.request ∷ w.submitted })
      (submission_result c r.order (port.submit_order r.order.request)) (submitted-IsSafe r w h s n)

dispatch_order-IsSafe :
    (m : Manager) (c : Moment) (r : RoutedOrder) (w : World) (a : Result (Unit {0}))
    → IsSafe w
    → IsSpent r.order.request.client_order_id w.store
    → All (λ q. r.order.request.client_order_id ≢ q.client_order_id) w.submitted
    → IsSafe (dispatch_order m c r w a).1
unfolding after
dispatch_order-IsSafe m c r w (raised e) h s n =
    subst IsSafe
      (sym (
        blocked_answer-store c r.order (c.code e) w
          (block_dispatch r.order (c.code e) c.blocked_at w.store)))
      (op-IsSafe (block_op r.order (c.code e) c.blocked_at) w h)
dispatch_order-IsSafe m c r w (ok _) h s n = submit_to-IsSafe c r w (resolve r.target m) h s n

if-IsSafe :
    {A : Type 0} (b : Bool) (x y : A × World)
    → IsSafe x.1
    → IsSafe y.1
    → IsSafe (if b then x else y).1
if-IsSafe true x y h k = h
if-IsSafe false x y h k = k

dispatch_claimed-IsSafe :
    (m : Manager) (t : AccountRef) (c : Moment) (w : World)
    (z : Result (Option RoutedOrder) × Store)
    → IsSafe w
    → claim_next t c.claimed_at w.store ≡ z
    → IsSafe (record w { store = z.1 })
    → IsSafe (dispatch_claimed m t c w z).1
dispatch_claimed-IsSafe m t c w (raised e, s) h q k = k
dispatch_claimed-IsSafe m t c w (ok none, s) h q k = k
dispatch_claimed-IsSafe m t c w (ok (some r), s) h q k =
    if-IsSafe (not (account_eq r.target t)) _ _ k (
      dispatch_order-IsSafe m c r (record w { store = s }) (assert_order_admitted m r) k
        (claim_next-IsSpent t c.claimed_at w.store s r h.consistent q)
        (All-map (λ p. IsSpent p.client_order_id w.store)
          (λ p. r.order.request.client_order_id ≢ p.client_order_id)
          (λ p u.
            claim_next-not_IsSpent p.client_order_id t c.claimed_at w.store s r h.consistent u q)
          w.submitted h.spent))

after_step-IsSafe : (step : Step) (w : World) → IsSafe w → IsSafe (after_step step w)
unfolding after_step dispatch_once after
after_step-IsSafe (store_step op) w h = op-IsSafe op w h
after_step-IsSafe (dispatch_step m t c) w h = go (assert_admitted t m)
  where
    claimed : IsSafe (record w { store = (claim_next t c.claimed_at w.store).1 })
    claimed = op-IsSafe (claim_op t c.claimed_at) w h

    go : (a : Result (Unit {0})) → IsSafe (dispatch_admitted m t c w a).1
    go (raised e) = h
    go (ok _) = dispatch_claimed-IsSafe m t c w (claim_next t c.claimed_at w.store) h refl claimed

after_steps-IsSafe : (steps : List Step) (w : World) → IsSafe w → IsSafe (after_steps steps w)
unfolding after_steps
after_steps-IsSafe [] w h = h
after_steps-IsSafe (step ∷ steps) w h =
    after_steps-IsSafe steps (after_step step w) (after_step-IsSafe step w h)

-- From the empty tables, after any sequence of calls of `dispatch_once` and of the repository,
-- whatever the broker, the gates and the clock answer each time, the requests that the broker was
-- asked to submit have different client ids: no order is submitted twice, also not one whose broker
-- call raised.
pub dispatch_once-distinct :
    (steps : List Step) → HasDistinctIds (after_steps steps empty_world).submitted
unfolding empty_world HasDistinctIds
dispatch_once-distinct steps =
    let safe =
      after_steps-IsSafe steps empty_world
        (record { consistent = empty_store-IsConsistent; spent = tt; distinct = tt }) in
    safe.distinct
