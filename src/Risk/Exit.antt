-- ===== src/Risk/Exit.antt =====
-- Exits under `LiveRiskService.evaluate` (tw_quant/risk/live.py).
use codex_tw_quant_trading_s.Base.{
  ◌≡◌, refl, Bool, true, false, not, ◌&&◌, ◌||◌, Option, none, some, List, arith, ok, if◌then◌else◌,
  sym, ◌∙◌, if_true,
}
use codex_tw_quant_trading_s.Base.Int.{ℤ, pos, neg, abs, ◌+ℤ◌, ◌≤ℤ◌, ltb_ℤ}
use codex_tw_quant_trading_s.Python.{Python}
use codex_tw_quant_trading_s.Risk.Live.{
  Config, Candidate, Context, Quote, Instrument, Approval, KillSwitchAction, first_reject,
  unless_rejected, gate_checks, exit_checks, evaluate, signed_quantity, closes, reduce_only, given,
  is_none, buys, exit_warnings, decided,
}
use codex_tw_quant_trading_s.Risk.Entry.{first_reject-none, not_rejected}

reduces :
    (p q : ℤ) (b : Bool)
    → pos 0 ≤ℤ q
    → (not ((ltb_ℤ (pos 0) p && not b) || (ltb_ℤ p (pos 0) && b)) || ltb_ℤ (pos (abs p)) q) ≡ false
    → pos (abs (p +ℤ (if b then q else neg q))) +ℤ q ≡ pos (abs p)
unfolding ◌+ℤ◌
reduces p q b n h = ground arith

module _ (N : Python) where
  closing_position :
      (c : Candidate N) (o : Option ℤ)
      → pos 0 ≤ℤ c.quantity
      → is_none o ≡ false
      → given (λ p. not (closes N c p) || ltb_ℤ (pos (abs p)) c.quantity) o ≡ false
      → (p : ℤ) × (o ≡ some p) × (pos (abs (p +ℤ signed_quantity N c)) +ℤ c.quantity ≡ pos (abs p))
  closing_position c none n h k = absurd (cc)
  closing_position c (some p) n h k = (p, refl, reduces p c.quantity (buys N c) n k)

  -- An exit that the calculation approves, of a quantity that is not negative, is for an account
  -- position that is known, and lowers its absolute value by exactly its quantity: it never
  -- overshoots to the other side.
  pub evaluate-reduces :
      (g : Config N) (c : Candidate N) (x : Context N) (q : Option (Quote N)) (i : Instrument N)
      (a : Approval N)
      → reduce_only N c ≡ true
      → pos 0 ≤ℤ c.quantity
      → evaluate N g c x q i ≡ ok a
      → a.approved ≡ true
      → (p : ℤ) × (x.account_position ≡ some p)
        × (pos (abs (p +ℤ signed_quantity N c)) +ℤ c.quantity ≡ pos (abs p))
  unfolding evaluate
  evaluate-reduces g c x q i a e n h k =
      let (_, h) = not_rejected N g (first_reject (gate_checks N g c x q i)) _ a h k in
      let h : unless_rejected N g (first_reject (exit_checks N c x))
            (ok (decided N g true "risk_reducing_approved" none (exit_warnings N x)))
          ≡ ok a =
        sym (if_true (reduce_only N c) _ _ e) ∙ h in
      let (exits, _) = not_rejected N g (first_reject (exit_checks N c x)) _ a h k in
      let (known, (closing, _)) = first_reject-none (exit_checks N c x) exits in
      closing_position c x.account_position n known closing

  -- The limits on entries never hold an exit back: its verdict does not depend on the kill
  -- switches, on pending orders, on the day's loss and trades, or on the number of runtimes.
  pub exit_ignores_limits :
      (g : Config N) (c : Candidate N) (x : Context N) (q : Option (Quote N)) (i : Instrument N)
      (ks : List KillSwitchAction) (pending trades : Option ℤ) (loss : Option N.float)
      (runtimes : ℤ)
      → reduce_only N c ≡ true
      → evaluate N g c
          (record x {
            kill_switches = ks;
            pending_order_count = pending;
            daily_trade_count = trades;
            daily_realized_pnl = loss;
            active_live_runtimes = runtimes;
          })
          q
          i
        ≡ evaluate N g c x q i
  unfolding evaluate
  exit_ignores_limits g c x q i ks pending trades loss runtimes e = rw e
