-- ===== src/Live/Bounds.antt =====
-- tw_quant/live/rate_limit.py: the bounds of `SlidingWindowRateLimiter`.
use codex_tw_quant_trading_s.Python.{Python}
use codex_tw_quant_trading_s.Base.Pairs.{text_pair_key}
use codex_tw_quant_trading_s.Base.{
  ℕ, zero, suc, ◌≤◌, ◌<◌, String, Bool, true, false, Option, none, some, List, [], ◌∷◌, ◌++◌, ◌≡◌,
  refl, sym, ap, subst, ◌∙◌, inl, inr, ok, ok-injective, raise_if, value_error, ◌>>◌, if_true,
  if_false, Bool-cases, length, length-append_one, leb, arith,
}
use codex_tw_quant_trading_s.Base.Assoc.{get_item, del_item}
use codex_tw_quant_trading_s.Base.Int.{pos, pos_part, leb_ℤ}
use codex_tw_quant_trading_s.Live.RateLimit.{
  Rule, Decision, Actor, scope_key, Windows, Limiter, zero_counts, new_limiter, evict_if_full,
  expire, cutoff_of, wait_of, count_one, rejection, acceptance, decide, check_found, check_rule_of,
  check,
}
use codex_tw_quant_trading_s.Live.Windows.{
  IsWithin, IsKept, evict-length, evict-get_item, evict-IsKept, del_item-length, del_item-gone,
  del_item-IsKept, get_item-IsWithin, last-IsKept, expire-length,
}

module _ (N : Python) where
  -- The invariant: the windows are at most `max_keys`, of different keys, and each is within its rule.
  abbrev pub IsBounded : Limiter N → Type 0
  IsBounded g = (0 < g.max_keys) × (length g.windows ≤ g.max_keys) × IsKept N g.rules g.windows

  -- The limiter after calls of `check`, each with a scope, an actor and the clock.
  abbrev pub check_all : List (String × String × N.float) → Limiter N → Limiter N
  check_all [] g = g
  check_all ((scope, actor, now) ∷ cs) g = check_all cs (check N scope actor now g).0

  -- Another window for the key fits, beside windows without it.
  extended :
      (g : Limiter N) (key : Actor) (others : Windows N) (events : List N.float)
      → 0 < g.max_keys
      → length others < g.max_keys
      → IsKept N g.rules others
      → get_item key others ≡ none
      → IsWithin N (get_item key.0 g.rules) events
      → (0 < g.max_keys)
        × (length (others ++ (key, events) ∷ []) ≤ g.max_keys)
        × IsKept N g.rules (others ++ (key, events) ∷ [])
  extended g key others events p l k n fit = (
    p,
    subst (λ (n : ℕ). n ≤ g.max_keys) (sym (length-append_one others (key, events))) (omega arith),
    last-IsKept N g.rules key events others k n fit,
  )

  pub decide_full :
      (r : Rule) (key : Actor) (now : N.float) (others : Windows N) (found : List N.float)
      (g : Limiter N)
      → leb_ℤ r.limit (pos (length (expire N (cutoff_of N r now) found))) ≡ true
      → decide N r key now others found g ≡ (
          let events = expire N (cutoff_of N r now) found in
          (
            record g {
              windows = others ++ (key, events) ∷ [];
              rejected = count_one key.0 g.rejected;
            },
            rejection r (wait_of N r.window_seconds now events),
          ))
  unfolding decide
  decide_full r key now others found g h = if_true _ _ _ h

  pub decide_free :
      (r : Rule) (key : Actor) (now : N.float) (others : Windows N) (found : List N.float)
      (g : Limiter N)
      → leb_ℤ r.limit (pos (length (expire N (cutoff_of N r now) found))) ≡ false
      → decide N r key now others found g ≡ (
          let events = expire N (cutoff_of N r now) found ++ now ∷ [] in
          (
            record g {
              windows = others ++ (key, events) ∷ [];
              accepted = count_one key.0 g.accepted;
            },
            acceptance N r events (wait_of N r.window_seconds now events),
          ))
  unfolding decide
  decide_free r key now others found g h = if_false _ _ _ h

  one_more :
      (r : Rule) (events : List N.float) (now : N.float)
      → leb_ℤ r.limit (pos (length events)) ≡ false
      → length (events ++ now ∷ []) ≤ pos_part r.limit
  one_more r events now h =
      subst (λ (n : ℕ). n ≤ pos_part r.limit) (sym (length-append_one events now))
        (ground (arith, h))

  decide-IsBounded :
      (r : Rule) (key : Actor) (now : N.float) (others : Windows N) (found : List N.float)
      (g : Limiter N)
      → 0 < g.max_keys
      → length others < g.max_keys
      → IsKept N g.rules others
      → get_item key others ≡ none
      → get_item key.0 g.rules ≡ some r
      → length found ≤ pos_part r.limit
      → IsBounded (decide N r key now others found g).0
  decide-IsBounded r key now others found g p l k n rule fit =
      let events = expire N (cutoff_of N r now) found in
      let within : (es : List N.float)
          → length es ≤ pos_part r.limit
          → IsWithin N (get_item key.0 g.rules) es =
        λ es e. subst (λ (o : Option Rule). IsWithin N o es) (sym rule) e in
      elim (Bool-cases (leb_ℤ r.limit (pos (length events)))) [
        | inl full ↦
            let shorter = expire-length N (cutoff_of N r now) found in
            subst (λ (x : Limiter N × Decision). IsBounded x.0)
              (sym (decide_full r key now others found g full))
              (extended g key others events p l k n (within events (omega arith)))
        | inr free ↦
            subst (λ (x : Limiter N × Decision). IsBounded x.0)
              (sym (decide_free r key now others found g free))
              (extended g key others (events ++ now ∷ []) p l k n
                (within _ (one_more r events now free)))
      ]

  check_found-IsBounded :
      (r : Rule) (key : Actor) (now : N.float) (g : Limiter N)
      → IsBounded g
      → get_item key.0 g.rules ≡ some r
      → (o : Option (List N.float)) → get_item key g.windows ≡ o
      → IsBounded (check_found N r key now o g).0
  check_found-IsBounded r key now g (p, l, k) rule none e =
      decide-IsBounded r key now (evict_if_full N g.max_keys g.windows) [] g p
        (evict-length N g.max_keys g.windows p) (evict-IsKept N g.rules g.max_keys g.windows k)
        (evict-get_item N g.max_keys g.windows key e) rule (omega arith)
  check_found-IsBounded r key now g (p, l, k) rule (some events) e =
      let shorter = del_item-length N key events g.windows e in
      let fit = get_item-IsWithin N g.rules key events g.windows k e in
      decide-IsBounded r key now (del_item key g.windows) events g p (omega arith)
        (del_item-IsKept N g.rules key g.windows k) (del_item-gone N g.rules key g.windows k) rule
        (subst (λ (o : Option Rule). IsWithin N o events) rule fit)

  check_rule_of-IsBounded :
      (key : Actor) (now : N.float) (g : Limiter N)
      → IsBounded g
      → (o : Option Rule) → get_item key.0 g.rules ≡ o
      → IsBounded (check_rule_of N o key now g).0
  check_rule_of-IsBounded key now g b none e = b
  check_rule_of-IsBounded key now g b (some r) e =
      check_found-IsBounded r key now g b e (get_item key g.windows) refl

  pub check-IsBounded :
      (scope actor : String) (now : N.float) (g : Limiter N)
      → IsBounded g
      → IsBounded (check N scope actor now g).0
  unfolding check
  check-IsBounded scope actor now g b =
      check_rule_of-IsBounded (scope, actor) now g b (get_item scope g.rules) refl

  pub check_all-IsBounded :
      (cs : List (String × String × N.float)) (g : Limiter N)
      → IsBounded g
      → IsBounded (check_all cs g)
  check_all-IsBounded [] g b = b
  check_all-IsBounded ((scope, actor, now) ∷ cs) g b =
      check_all-IsBounded cs (check N scope actor now g).0 (check-IsBounded scope actor now g b)

  -- The calls leave the settings of the limiter.
  decide_settings :
      (r : Rule) (key : Actor) (now : N.float) (others : Windows N) (found : List N.float)
      (g : Limiter N)
      → ((decide N r key now others found g).0.rules ≡ g.rules)
        × ((decide N r key now others found g).0.max_keys ≡ g.max_keys)
  decide_settings r key now others found g =
      elim (Bool-cases (leb_ℤ r.limit (pos (length (expire N (cutoff_of N r now) found))))) [
        | inl full ↦ rw (decide_full r key now others found g full) (refl, refl)
        | inr free ↦ rw (decide_free r key now others found g free) (refl, refl)
      ]

  check_found_settings :
      (r : Rule) (key : Actor) (now : N.float) (o : Option (List N.float)) (g : Limiter N)
      → ((check_found N r key now o g).0.rules ≡ g.rules)
        × ((check_found N r key now o g).0.max_keys ≡ g.max_keys)
  check_found_settings r key now none g = decide_settings r key now _ [] g
  check_found_settings r key now (some events) g = decide_settings r key now _ events g

  check_rule_of_settings :
      (o : Option Rule) (key : Actor) (now : N.float) (g : Limiter N)
      → ((check_rule_of N o key now g).0.rules ≡ g.rules)
        × ((check_rule_of N o key now g).0.max_keys ≡ g.max_keys)
  check_rule_of_settings none key now g = (refl, refl)
  check_rule_of_settings (some r) key now g =
      check_found_settings r key now (get_item key g.windows) g

  pub check_settings :
      (scope actor : String) (now : N.float) (g : Limiter N)
      → ((check N scope actor now g).0.rules ≡ g.rules)
        × ((check N scope actor now g).0.max_keys ≡ g.max_keys)
  unfolding check
  check_settings scope actor now g =
      check_rule_of_settings (get_item scope g.rules) (scope, actor) now g

  pub check_all_settings :
      (cs : List (String × String × N.float)) (g : Limiter N)
      → ((check_all cs g).rules ≡ g.rules) × ((check_all cs g).max_keys ≡ g.max_keys)
  check_all_settings [] g = (refl, refl)
  check_all_settings ((scope, actor, now) ∷ cs) g =
      let (a, b) = check_all_settings cs (check N scope actor now g).0 in
      let (c, d) = check_settings scope actor now g in (a ∙ c, b ∙ d)

  pub new_limiter-ok :
      (rules : List (String × Rule)) (most : ℕ) (g : Limiter N)
      → new_limiter N rules most ≡ ok g
      → IsBounded g × (g.rules ≡ rules) × (g.max_keys ≡ most)
  unfolding new_limiter IsKept
  new_limiter-ok rules zero g h = absurd (cc h)
  new_limiter-ok rules (suc n) g h =
      let positive : leb (suc n) 0 ≡ false = ground arith in
      let made : Limiter N = record {
        rules = rules;
        max_keys = suc n;
        windows = [];
        accepted = zero_counts rules;
        rejected = zero_counts rules;
      } in
      let passed =
        subst (λ (b : Bool). raise_if b (value_error "max_keys must be positive") >> ok made ≡ ok g)
          positive h in
      subst (λ (x : Limiter N). IsBounded x × (x.rules ≡ rules) × (x.max_keys ≡ suc n))
        (ok-injective passed) ((omega arith, omega arith, tt), refl, refl)

  -- After any calls of check, whatever their scopes, actors and times, a limiter of positive `max_keys` keeps
  -- at most `max_keys` windows, and no window has more times than the rule of its scope allows.
  pub check_all-windows :
      (rules : List (String × Rule)) (most : ℕ) (g : Limiter N)
      (cs : List (String × String × N.float))
      → new_limiter N rules most ≡ ok g
      → (length (check_all cs g).windows ≤ most)
        × ((key : Actor) (events : List N.float) (r : Rule)
            → get_item key (check_all cs g).windows ≡ some events
            → get_item key.0 rules ≡ some r
            → length events ≤ pos_part r.limit)
  check_all-windows rules most g cs new =
      let (b, same_rules, same_most) = new_limiter-ok rules most g new in
      let (p, l, k) = check_all-IsBounded cs g b in
      let (kept_rules, kept_most) = check_all_settings cs g in
      (
        subst (λ (n : ℕ). length (check_all cs g).windows ≤ n) (kept_most ∙ same_most) l,
        λ key events r found rule.
            subst (λ (o : Option Rule). IsWithin N o events)
              (ap (λ (x : List (String × Rule)). get_item key.0 x) (kept_rules ∙ same_rules) ∙ rule)
              (get_item-IsWithin N (check_all cs g).rules key events (check_all cs g).windows k
                found),
      )
