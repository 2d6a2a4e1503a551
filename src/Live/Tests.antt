-- ===== src/Live/Tests.antt =====
-- Requests at a limiter of two calls within ten seconds.
use codex_tw_quant_trading_s.Base.Pairs.{text_pair_key}
use codex_tw_quant_trading_s.Base.{◌≤◌, String, false, some, List, [], ◌∷◌, ◌≡◌, refl, ok, length}
use codex_tw_quant_trading_s.Base.Assoc.{get_item, set_item, del_item}
use codex_tw_quant_trading_s.Base.Int.{ℤ, pos, pos_part, ◌+ℤ◌}
use codex_tw_quant_trading_s.Live.RateLimit.{
  Rule, Decision, Actor, scope_key, Limiter, new_limiter, evict_if_full, expire, decide, check,
}
use codex_tw_quant_trading_s.Live.Bounds.{check_all, check_all-windows}
use codex_tw_quant_trading_s.Samples.{whole}

abbrev twice_in_ten : Rule
twice_in_ten = record { limit = pos 2; window_seconds = pos 10 }

abbrev rules : List (String × Rule)
rules = ("orders", twice_in_ten) ∷ []

abbrev fresh : Limiter whole
fresh = record {
  rules = rules;
  max_keys = 3;
  windows = [];
  accepted = ("orders", 0) ∷ [];
  rejected = ("orders", 0) ∷ [];
}

abbrev calls : List (String × String × ℤ)
calls = ("orders", "ann", pos 1) ∷ ("orders", "bob", pos 1) ∷ ("orders", "ann", pos 2) ∷ []

fresh_made : new_limiter whole rules 3 ≡ ok fresh
unfolding new_limiter
fresh_made = refl

-- The third call of the same actor is refused for eight seconds.
abbrev refusal : Decision
refusal = record {
  allowed = false;
  limit = pos 2;
  remaining = pos 0;
  retry_after = pos 8;
  reset_after = pos 8;
}

third_refused : (check whole "orders" "ann" (pos 3) (check_all whole calls fresh)).1 ≡ ok refusal
unfolding check decide expire evict_if_full get_item set_item del_item ◌+ℤ◌
third_refused = refl

check_all-windows_example :
    (length (check_all whole calls fresh).windows ≤ 3)
    × ((key : Actor) (events : List ℤ) (r : Rule)
        → get_item key (check_all whole calls fresh).windows ≡ some events
        → get_item key.0 rules ≡ some r
        → length events ≤ pos_part r.limit)
check_all-windows_example = check_all-windows whole rules 3 fresh calls fresh_made
