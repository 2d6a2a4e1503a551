-- ===== src/Live/Windows.antt =====
-- tw_quant/live/rate_limit.py: the windows of `SlidingWindowRateLimiter`, through evictions and moves.
use codex_tw_quant_trading_s.Python.{Python}
use codex_tw_quant_trading_s.Base.Pairs.{text_pair_key, same_pair, same_pair_iff}
use codex_tw_quant_trading_s.Base.{
  ℕ, ◌+◌, ◌≤◌, ◌<◌, String, false, Option, none, some, some-injective, List, [], ◌∷◌, ◌++◌, ◌≡◌,
  refl, sym, subst, ◌∙◌, inl, inr, if_true, if_false, Bool-cases, clash, length, leb, arith,
}
use codex_tw_quant_trading_s.Base.Assoc.{get_item, del_item, get_item-del_item, same_self}
use codex_tw_quant_trading_s.Base.Int.{pos_part}
use codex_tw_quant_trading_s.Live.RateLimit.{Rule, Actor, scope_key, Windows, evict_if_full, expire}

module _ (N : Python) where
  -- No more times than the limit of the rule.
  abbrev pub IsWithin : Option Rule → List N.float → Type 0
  IsWithin none events = Unit
  IsWithin (some r) events = length events ≤ pos_part r.limit

  -- The keys are different, and each window is within the rule of its scope.
  unfoldable pub IsKept : List (String × Rule) → Windows N → Type 0
  IsKept rules [] = Unit
  IsKept rules ((key, events) ∷ ws) =
      (get_item key ws ≡ none) × IsWithin (get_item key.0 rules) events × IsKept rules ws

  pub evict-length :
      (most : ℕ) (ws : Windows N) → 0 < most → length (evict_if_full N most ws) < most
  unfolding evict_if_full
  evict-length most [] h = h
  evict-length most (w ∷ ws) h = ground (arith, evict-length most ws h)

  pub evict-get_item :
      (most : ℕ) (ws : Windows N) (key : Actor)
      → get_item key ws ≡ none
      → get_item key (evict_if_full N most ws) ≡ none
  unfolding evict_if_full get_item
  evict-get_item most [] key h = refl
  evict-get_item most ((j, es) ∷ ws) key h = ground (arith, evict-get_item most ws key)

  pub evict-IsKept :
      (rules : List (String × Rule)) (most : ℕ) (ws : Windows N)
      → IsKept rules ws
      → IsKept rules (evict_if_full N most ws)
  unfolding evict_if_full IsKept
  evict-IsKept rules most [] k = k
  evict-IsKept rules most ((j, es) ∷ ws) k = elim (Bool-cases (leb most (length ((j, es) ∷ ws)))) [
    | inl full ↦ rw (if_true _ _ _ full) (evict-IsKept rules most ws k.2)
    | inr free ↦ rw (if_false _ _ _ free) k
  ]

  pub del_item-length :
      (key : Actor) (events : List N.float) (ws : Windows N)
      → get_item key ws ≡ some events
      → length (del_item key ws) + 1 ≡ length ws
  unfolding get_item del_item
  del_item-length key events [] h = absurd cc
  del_item-length key events ((j, es) ∷ ws) h = ground (arith, del_item-length key events ws)

  pub del_item-gone :
      (rules : List (String × Rule)) (key : Actor) (ws : Windows N)
      → IsKept rules ws
      → get_item key (del_item key ws) ≡ none
  unfolding get_item del_item IsKept
  del_item-gone rules key [] k = refl
  del_item-gone rules key ((j, es) ∷ ws) k =
      ground (arith, k.0, same_pair_iff j key, del_item-gone rules key ws k.2)

  pub del_item-IsKept :
      (rules : List (String × Rule)) (key : Actor) (ws : Windows N)
      → IsKept rules ws
      → IsKept rules (del_item key ws)
  unfolding del_item IsKept
  del_item-IsKept rules key [] k = k
  del_item-IsKept rules key ((j, es) ∷ ws) k = elim (Bool-cases (same_pair j key)) [
    | inl here ↦ rw (if_true _ _ _ here) k.2
    | inr away ↦
        rw (if_false _ _ _ away)
          (get_item-del_item j key ws k.0, k.1, del_item-IsKept rules key ws k.2)
  ]

  pub get_item-IsWithin :
      (rules : List (String × Rule)) (key : Actor) (events : List N.float) (ws : Windows N)
      → IsKept rules ws
      → get_item key ws ≡ some events
      → IsWithin (get_item key.0 rules) events
  unfolding get_item IsKept
  get_item-IsWithin rules key events [] k h = absurd cc
  get_item-IsWithin rules key events ((j, es) ∷ ws) k h = elim (Bool-cases (same_pair j key)) [
    | inl here ↦
        let same : j ≡ key = (same_pair_iff j key).0 here in
        let found : es ≡ events = some-injective (sym (if_true _ _ _ here) ∙ h) in
        subst (λ (a : Actor). IsWithin (get_item a.0 rules) events) same
          (subst (λ (x : List N.float). IsWithin (get_item j.0 rules) x) found k.1)
    | inr away ↦ get_item-IsWithin rules key events ws k.2 (sym (if_false _ _ _ away) ∙ h)
  ]

  pub get_item-last :
      (key : Actor) (events : List N.float) (ws : Windows N)
      → get_item key ws ≡ none
      → get_item key (ws ++ (key, events) ∷ []) ≡ some events
  unfolding get_item
  get_item-last key events [] h = if_true _ _ _ (same_self key)
  get_item-last key events ((j, es) ∷ ws) h = ground (arith, get_item-last key events ws)

  last-get_item :
      (j key : Actor) (events : List N.float) (ws : Windows N)
      → get_item j ws ≡ none
      → same_pair key j ≡ false
      → get_item j (ws ++ (key, events) ∷ []) ≡ none
  unfolding get_item
  last-get_item j key events [] h away = if_false _ _ _ away
  last-get_item j key events ((i, es) ∷ ws) h away = ground (arith, last-get_item j key events ws)

  turned_false : (j key : Actor) → same_pair j key ≡ false → same_pair key j ≡ false
  turned_false j key away = elim (Bool-cases (same_pair key j)) [
    | inl here ↦
        clash (same_pair j key) ((same_pair_iff j key).1 (sym ((same_pair_iff key j).0 here))) away
    | inr other ↦ other
  ]

  pub last-IsKept :
      (rules : List (String × Rule)) (key : Actor) (events : List N.float) (ws : Windows N)
      → IsKept rules ws
      → get_item key ws ≡ none
      → IsWithin (get_item key.0 rules) events
      → IsKept rules (ws ++ (key, events) ∷ [])
  unfolding get_item IsKept
  last-IsKept rules key events [] k h fit = (refl, fit, tt)
  last-IsKept rules key events ((j, es) ∷ ws) k h fit = elim (Bool-cases (same_pair j key)) [
    | inl here ↦ let e : some es ≡ none = sym (if_true _ _ _ here) ∙ h in absurd (cc e)
    | inr away ↦
        let new = sym (if_false _ _ _ away) ∙ h in
        (
          last-get_item j key events ws k.0 (turned_false j key away),
          k.1,
          last-IsKept rules key events ws k.2 new fit,
        )
  ]

  pub expire-length :
      (cutoff : N.float) (events : List N.float) → length (expire N cutoff events) ≤ length events
  unfolding expire
  expire-length cutoff [] = omega arith
  expire-length cutoff (e ∷ es) = ground (arith, expire-length cutoff es)
