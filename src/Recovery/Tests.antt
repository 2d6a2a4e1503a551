-- ===== src/Recovery/Tests.antt =====
-- The recovery lock at one account: a reconciliation overtaken by a forced lock, and a release.
use codex_tw_quant_trading_s.Base.{◌≡◌, refl, inl, [], ◌∷◌, Error, raised, is_blank}
use codex_tw_quant_trading_s.Recovery.Locks.{
  Locks, lookup, put, answer, state, bumped, begin, force_lock, complete, reconciling, locked,
  unique_codes, state_op, assert_op, complete_op, after, after_all,
}
use codex_tw_quant_trading_s.Recovery.Fencing.{stale_reconciliation}
use codex_tw_quant_trading_s.Recovery.Release.{Released, ready_needs_completion}
use codex_tw_quant_trading_s.Identity.{account_eq}
use codex_tw_quant_trading_s.Samples.{at_time, account_1}

-- The table after the first `begin`, and after a forced lock.
abbrev begun : Locks
begun = (begin account_1 (at_time 1) []).1

abbrev forced : Locks
forced =
    (force_lock account_1 ("operator" ∷ []) (at_time 3)
      (after_all (state_op account_1 (at_time 2) ∷ []) begun)).1

stale_reconciliation_example :
    (e : Error) × (complete account_1 [] 1
        (at_time 5)
        (after_all (assert_op account_1 (at_time 4) ∷ []) forced)
      ≡ (raised e, after_all (assert_op account_1 (at_time 4) ∷ []) forced))
unfolding begin force_lock after after_all state answer lookup put is_blank unique_codes account_eq
stale_reconciliation_example =
    stale_reconciliation account_1 [] begun forced
      (bumped account_1 reconciling ("reconciliation_in_progress" ∷ []) (at_time 1) [])
      (bumped account_1 locked ("operator" ∷ []) (at_time 3) begun) (at_time 1) (at_time 3)
      (at_time 5) (state_op account_1 (at_time 2) ∷ []) (assert_op account_1 (at_time 4) ∷ [])
      ("operator" ∷ []) [] refl (inl refl)

ready_needs_completion_example : Released account_1 begun (complete_op account_1 [] 1 (at_time 5))
unfolding begin complete after answer lookup put is_blank unique_codes account_eq
ready_needs_completion_example =
    ready_needs_completion account_1 begun (complete_op account_1 [] 1 (at_time 5)) refl refl
