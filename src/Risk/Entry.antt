-- ===== src/Risk/Entry.antt =====
-- What an entry that `LiveRiskService.evaluate` (tw_quant/risk/live.py) approves satisfies, and that
-- the calculation always answers.
use codex_tw_quant_trading_s.Base.{
  ◌≡◌, refl, Bool, true, false, ◌&&◌, ◌||◌, Option, none, some, List, [], ◌∷◌, All, arith, String,
  Result, ok, ok-injective, Bool-cases, inl, inr, false_of_not, is_some, str_eq, str_eq_iff, any,
  subst, ap, sym, ◌∙◌, if_false, if◌then◌else◌,
}
use codex_tw_quant_trading_s.Base.Int.{ℤ, pos, abs, neg, ◌+ℤ◌, ◌≤ℤ◌, ltb_ℤ, leb_ℤ}
use codex_tw_quant_trading_s.Python.{Python}
use codex_tw_quant_trading_s.Risk.Live.{
  Config, Candidate, Context, Quote, Instrument, Approval, KillSwitchAction, first_reject,
  unless_rejected, gate_checks, entry_checks, exit_checks, evaluate, risk_verdict, reference_of,
  wrong_side, signed_quantity, count, is_in, exceeds, is_active, reduce_only, given, is_none,
  is_complete, buys, decided,
}

pub first_reject-none :
    (cs : List (Bool × String)) → first_reject cs ≡ none → All (λ c. c.0 ≡ false) cs
first_reject-none [] h = tt
first_reject-none ((true, r) ∷ cs) h = absurd (cc)
first_reject-none ((false, r) ∷ cs) h = (refl, first_reject-none cs h)

within : (q l : ℤ) → exceeds q l ≡ false → pos (abs q) ≤ℤ l
within q l h = ground arith

at_most : (q l : ℤ) → ltb_ℤ l q ≡ false → q ≤ℤ l
at_most q l h = ground arith

inactive : (ks : List KillSwitchAction) → is_active ks ≡ false → ks ≡ []
inactive [] h = refl
inactive (k ∷ ks) h = absurd (cc)

below_lem : (n l : ℤ) → leb_ℤ l n ≡ false → n +ℤ pos 1 ≤ℤ l
unfolding ◌+ℤ◌
below_lem n l h = ground arith

below :
    (o : Option ℤ) (l : ℤ)
    → is_none o ≡ false
    → given (λ n. leb_ℤ l n) o ≡ false
    → (n : ℤ) × (o ≡ some n) × (n +ℤ pos 1 ≤ℤ l)
below none l h k = absurd (cc)
below (some n) l h k = (n, refl, below_lem n l k)

none_of_two : (a b : Bool) → (a || b) ≡ false → (a ≡ false) × (b ≡ false)
none_of_two false false h = (refl, refl)
none_of_two false true h = absurd (cc h)
none_of_two true b h = absurd (cc h)

none_of_three : (a b c : Bool) → (a || b || c) ≡ false → (a ≡ false) × (b ≡ false) × (c ≡ false)
none_of_three a b c h = (ground arith, ground arith, ground arith)

listed : (s : String) (xs : List String) → is_in s xs ≡ true → any (λ x. str_eq x s) xs ≡ true
listed s [] h = h
listed s (x ∷ xs) h = ground (arith, str_eq_iff x s, str_eq_iff s x, listed s xs)

module _ (N : Python) where
  some_loss :
      (o : Option N.float) (l : N.float)
      → is_none o ≡ false
      → given (λ p. N.is_le p l) o ≡ false
      → (r : N.float) × (o ≡ some r) × (N.is_le r l ≡ false)
  some_loss none l h k = absurd (cc h)
  some_loss (some r) l h k = (r, refl, k)

  pub not_rejected :
      (g : Config N) (o : Option String) (rest : Result (Approval N)) (a : Approval N)
      → unless_rejected N g o rest ≡ ok a
      → a.approved ≡ true
      → (o ≡ none) × (rest ≡ ok a)
  not_rejected g none rest a h k = (refl, h)
  not_rejected g (some r) rest a h k =
      absurd (cc (ap (λ (z : Approval N). z.approved) (ok-injective h)))

  quoted_reference :
      (c : Candidate N) (q : Option (Quote N))
      → is_complete N q ≡ true
      → (r : N.float) × (reference_of N c q ≡ some r)
  quoted_reference c none h = absurd (cc)
  quoted_reference c (some q) h = both (buys N c) q.best_ask q.best_bid h
    where
      both :
          (b : Bool) (ask bid : Option N.float)
          → (is_some bid && is_some ask) ≡ true
          → (r : N.float) × ((if b then ask else bid) ≡ some r)
      both b none none h = absurd (cc)
      both b none (some y) h = absurd (cc)
      both b (some x) none h = absurd (cc)
      both true (some x) (some y) h = (x, refl)
      both false (some x) (some y) h = (y, refl)

  given_stop : (s : Option N.float) → is_none s ≡ false → (r : N.float) × (s ≡ some r)
  given_stop none h = absurd (cc)
  given_stop (some r) h = (r, refl)

  risk_verdict-returns :
      (g : Config N) (c : Candidate N) (i : Instrument N) (r s : Option N.float) (x y : N.float)
      → r ≡ some x
      → s ≡ some y
      → (a : Approval N) × (risk_verdict N g c i r s ≡ ok a)
  unfolding risk_verdict
  risk_verdict-returns g c i none s x y e f = absurd (cc)
  risk_verdict-returns g c i (some r) none x y e f = absurd (cc)
  risk_verdict-returns g c i (some r) (some s) x y e f = (_, refl)

  -- A rejection is an answer, so the calculation answers if what follows its tests does.
  unless_rejected-returns :
      (g : Config N) (o : Option String) (rest : Result (Approval N))
      → (o ≡ none → (a : Approval N) × (rest ≡ ok a))
      → (a : Approval N) × (unless_rejected N g o rest ≡ ok a)
  unless_rejected-returns g none rest h = h refl
  unless_rejected-returns g (some r) rest h = (decided N g false r none [], refl)

  entry_returns :
      (g : Config N) (c : Candidate N) (x : Context N) (q : Option (Quote N)) (i : Instrument N)
      → is_complete N q ≡ true
      → first_reject (entry_checks N g c x i) ≡ none
      → (a : Approval N) × (risk_verdict N g c i (reference_of N c q) c.planned_stop_price ≡ ok a)
  entry_returns g c x q i h e =
      let (_, (_, (_, (_, (_, (_, (_, (_, (stop, _))))))))) =
        first_reject-none (entry_checks N g c x i) e in
      let (r, f) = quoted_reference c q h in
      let (s, k) = given_stop c.planned_stop_price stop in
      risk_verdict-returns g c i (reference_of N c q) c.planned_stop_price r s f k

  if_returns :
      (b : Bool) (m n : Result (Approval N))
      → (a : Approval N) × (m ≡ ok a)
      → (a : Approval N) × (n ≡ ok a)
      → (a : Approval N) × ((if b then m else n) ≡ ok a)
  if_returns true m n h k = h
  if_returns false m n h k = k

  -- A quantity held, one working, reservations and an order, within a limit in absolute value.
  pub record IsExposure (held working : Option ℤ) (reserved order limit : ℤ) : Type 0 where
    pub position : ℤ
    pub in_work : ℤ
    pub held_is : held ≡ some position
    pub working_is : working ≡ some in_work
    pub within_limit : pos (abs (position +ℤ in_work +ℤ reserved +ℤ order)) ≤ℤ limit

  exposure :
      (held working : Option ℤ) (reserved order limit : ℤ)
      → is_none held ≡ false
      → is_none working ≡ false
      → exceeds (count held +ℤ count working +ℤ reserved +ℤ order) limit ≡ false
      → IsExposure held working reserved order limit
  exposure none working reserved order limit h k e = absurd (cc h)
  exposure (some p) none reserved order limit h k e = absurd (cc k)
  exposure (some p) (some w) reserved order limit h k e = record {
    position = p;
    in_work = w;
    held_is = refl;
    working_is = refl;
    within_limit = within (p +ℤ w +ℤ reserved +ℤ order) limit e;
  }

  -- The loss from a price to a stop: the distance, the fees of both sides, the tax of both sides and the
  -- slippage, each for all contracts.
  abbrev pub loss_to_stop : Config N → Candidate N → Instrument N → N.float → N.float → N.float
  loss_to_stop g c i price stop =
      let n = N.of_int c.quantity in
      N.add
        (N.add
          (N.add (N.mul (N.mul (N.magnitude (N.sub price stop)) i.multiplier) n)
            (N.mul (N.mul i.commission_per_side (N.of_int (pos 2))) n))
          (N.mul (N.mul (N.mul (N.add price stop) i.multiplier) i.tax_rate) n))
        (N.mul (N.mul (N.mul (N.of_int g.max_slippage_ticks) i.tick_size) i.multiplier) n)

  -- The order would trade at the ask of the quote if it buys, at the bid if it sells. No comparison finds
  -- the stop at this price or on its winning side, and the answer has the loss to the stop, which no
  -- comparison finds beyond the limit of a trade.
  pub record IsBounded (g : Config N) (c : Candidate N) (q : Option (Quote N)) (i : Instrument N)
      (a : Approval N) : Type 0 where
    pub quote : Quote N
    pub price : N.float
    pub stop : N.float
    pub quote_is : q ≡ some quote
    pub price_is :
        (if str_eq c.direction "long" then quote.best_ask else quote.best_bid) ≡ some price
    pub stop_is : c.planned_stop_price ≡ some stop
    pub losing_side :
        (if str_eq c.direction "long" then N.is_le price stop else N.is_le stop price) ≡ false
    pub estimate : a.estimated_risk ≡ some (loss_to_stop g c i price stop)
    pub within_risk : N.is_lt g.max_risk_per_trade (loss_to_stop g c i price stop) ≡ false

  -- What an approved entry satisfies.
  pub record IsSafeEntry (g : Config N) (c : Candidate N) (x : Context N) (q : Option (Quote N))
      (i : Instrument N) (a : Approval N) : Type 0 where
    pub recovered : x.recovery_status ≡ "ready"
    pub connected : x.broker_connected ≡ true
    pub quiet : x.kill_switches ≡ []
    pub known_symbol : any (λ s. str_eq s c.symbol) g.allowed_symbols ≡ true
    pub known_contract : any (λ s. str_eq s c.contract) g.allowed_contracts ≡ true
    pub sized : c.quantity ≤ℤ g.max_order_quantity
    pub runtimes_within : x.active_live_runtimes ≤ℤ g.max_active_live_runtimes
    pub account_within :
        IsExposure x.account_position x.working_order_quantity x.account_reservation_quantity
          (if str_eq c.direction "long" then c.quantity else neg c.quantity)
          g.max_account_position_contracts
    pub portfolio_within :
        IsExposure x.owner_portfolio_position x.owner_working_order_quantity
          x.portfolio_reservation_quantity
          (if str_eq c.direction "long" then c.quantity else neg c.quantity)
          g.max_owner_portfolio_position_contracts
    pub has_slot : (n : ℤ) × (x.pending_order_count ≡ some n) × (n +ℤ pos 1 ≤ℤ g.max_pending_orders)
    pub may_trade : (n : ℤ) × (x.daily_trade_count ≡ some n) × (n +ℤ pos 1 ≤ℤ g.max_daily_trades)
    pub may_lose :
        (r : N.float) × (x.daily_realized_pnl ≡ some r)
        × (N.is_le r (N.negate g.max_daily_loss) ≡ false)
    pub bounded : IsBounded g c q i a

  entry_buys : (c : Candidate N) → reduce_only N c ≡ false → buys N c ≡ str_eq c.direction "long"
  entry_buys c e = if_false _ _ _ e

  quoted-IsBounded :
      (g : Config N) (c : Candidate N) (i : Instrument N) (z : Quote N) (r s : Option N.float)
      (a : Approval N)
      → reduce_only N c ≡ false
      → reference_of N c (some z) ≡ r
      → c.planned_stop_price ≡ s
      → risk_verdict N g c i r s ≡ ok a
      → a.approved ≡ true
      → IsBounded g c (some z) i a
  unfolding risk_verdict
  quoted-IsBounded g c i z none s a entry e f h k = absurd (cc h)
  quoted-IsBounded g c i z (some r) none a entry e f h k = absurd (cc h)
  quoted-IsBounded g c i z (some r) (some s) a entry e f h k =
      elim (Bool-cases (wrong_side N c r s)) [
        | inl w ↦ absurd (cc (ap (λ (y : Approval N). y.approved) (ok-injective (rw w at h))))
        | inr w ↦ elim (Bool-cases (N.is_lt g.max_risk_per_trade (loss_to_stop g c i r s))) [
          | inl m ↦
              absurd (cc (ap (λ (y : Approval N). y.approved) (ok-injective (rw (w, m) at h))))
          | inr m ↦ record {
            quote = z;
            price = r;
            stop = s;
            quote_is = refl;
            price_is =
                sym (ap (λ (b : Bool). if b then z.best_ask else z.best_bid) (entry_buys c entry))
                ∙ e;
            stop_is = f;
            losing_side =
                sym (ap (λ (b : Bool). if b then N.is_le r s else N.is_le s r) (entry_buys c entry))
                ∙ w;
            estimate =
                ap (λ (y : Approval N). y.estimated_risk) (sym (ok-injective (rw (w, m) at h)));
            within_risk = m;
          }
        ]
      ]

  risk_verdict-IsBounded :
      (g : Config N) (c : Candidate N) (i : Instrument N) (q : Option (Quote N)) (a : Approval N)
      → reduce_only N c ≡ false
      → is_complete N q ≡ true
      → risk_verdict N g c i (reference_of N c q) c.planned_stop_price ≡ ok a
      → a.approved ≡ true
      → IsBounded g c q i a
  risk_verdict-IsBounded g c i none a entry full h k = absurd (cc full)
  risk_verdict-IsBounded g c i (some z) a entry full h k =
      quoted-IsBounded g c i z (reference_of N c (some z)) c.planned_stop_price a entry refl refl h
        k

  -- An entry that the calculation approves: the recovery lock is ready and the broker connected, no kill
  -- switch is on, symbol and contract are allowed, the quantity is within the limit of an order; the
  -- account's position with working orders, reservations and this order, added for a long entry and
  -- subtracted for a short one, is within its limit in absolute value, and so is the owner's portfolio; no
  -- more runtimes are active than allowed, and fewer orders are pending and fewer trades made; the day's
  -- result is not compared as at most minus the limit of a day's loss; and the comparisons of
  -- floating-point numbers do not find the stop at or beyond the quoted price that the order would trade
  -- at, nor the loss to the stop, with fees, tax and slippage, beyond the limit of a trade.
  pub evaluate-IsSafeEntry :
      (g : Config N) (c : Candidate N) (x : Context N) (q : Option (Quote N)) (i : Instrument N)
      (a : Approval N)
      → reduce_only N c ≡ false
      → evaluate N g c x q i ≡ ok a
      → a.approved ≡ true
      → IsSafeEntry g c x q i a
  unfolding evaluate
  evaluate-IsSafeEntry g c x q i a e h k =
      let (gates, h) = not_rejected g (first_reject (gate_checks N g c x q i)) _ a h k in
      let h : unless_rejected N g (first_reject (entry_checks N g c x i))
            (risk_verdict N g c i (reference_of N c q) c.planned_stop_price)
          ≡ ok a =
        sym (if_false (reduce_only N c) _ _ e) ∙ h in
      let (entries, h) = not_rejected g (first_reject (entry_checks N g c x i)) _ a h k in
      let (ready, (_, (_, (_, (full, _))))) = first_reject-none (gate_checks N g c x q i) gates in
      let (
        linked,
        (_, (symbol, (contract, (size, (_, (_, (_, (_, (kills, (runtimes, later)))))))))),
      ) =
        first_reject-none (entry_checks N g c x i) entries in
      let (
        working,
        (slot, (known, (loss, (counted, (trades, (held, (account, (portfolio, _)))))))),
      ) =
        later in
      let (pending, at_work, owner_work) = none_of_three _ _ _ working in
      let (account_held, portfolio_held) = none_of_two _ _ held in
      let order : signed_quantity N c
          ≡ (if str_eq c.direction "long" then c.quantity else neg c.quantity) =
        ap (λ (b : Bool). if b then c.quantity else neg c.quantity) (entry_buys c e) in
      record {
        recovered = (str_eq_iff x.recovery_status "ready").0 (false_of_not _ ready);
        connected = false_of_not _ linked;
        quiet = inactive x.kill_switches kills;
        known_symbol = listed c.symbol g.allowed_symbols (false_of_not _ symbol);
        known_contract = listed c.contract g.allowed_contracts (false_of_not _ contract);
        sized = at_most c.quantity g.max_order_quantity size;
        runtimes_within = at_most x.active_live_runtimes g.max_active_live_runtimes runtimes;
        account_within =
            subst
              (λ (n : ℤ).
                IsExposure x.account_position x.working_order_quantity
                  x.account_reservation_quantity n g.max_account_position_contracts)
              order
              (exposure x.account_position x.working_order_quantity x.account_reservation_quantity
                (signed_quantity N c) g.max_account_position_contracts account_held at_work
                account);
        portfolio_within =
            subst
              (λ (n : ℤ).
                IsExposure x.owner_portfolio_position x.owner_working_order_quantity
                  x.portfolio_reservation_quantity n g.max_owner_portfolio_position_contracts)
              order
              (exposure x.owner_portfolio_position x.owner_working_order_quantity
                x.portfolio_reservation_quantity (signed_quantity N c)
                g.max_owner_portfolio_position_contracts portfolio_held owner_work portfolio);
        has_slot = below x.pending_order_count g.max_pending_orders pending slot;
        may_trade = below x.daily_trade_count g.max_daily_trades counted trades;
        may_lose = some_loss x.daily_realized_pnl (N.negate g.max_daily_loss) known loss;
        bounded = risk_verdict-IsBounded g c i q a e (false_of_not _ full) h k;
      }

  -- The calculation never raises: it has a reference price and a stop wherever it uses them.
  pub evaluate-returns :
      (g : Config N) (c : Candidate N) (x : Context N) (q : Option (Quote N)) (i : Instrument N)
      → (a : Approval N) × (evaluate N g c x q i ≡ ok a)
  unfolding evaluate
  evaluate-returns g c x q i =
      unless_rejected-returns g (first_reject (gate_checks N g c x q i)) _ λ e.
        let (_, (_, (_, (_, (complete, _))))) = first_reject-none (gate_checks N g c x q i) e in
        if_returns (reduce_only N c) _ _
          (unless_rejected-returns g (first_reject (exit_checks N c x)) _ λ _. (_, refl))
          (unless_rejected-returns g (first_reject (entry_checks N g c x i)) _
            (entry_returns g c x q i (false_of_not _ complete)))
