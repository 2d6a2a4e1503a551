-- ===== src/Market/Newest.antt =====
-- tw_quant/market/quotes.py: which snapshot `ExecutionQuoteCache` has after updates in any order.
use codex_tw_quant_trading_s.Base.{
  ℕ, ◌≤◌, Bool, true, false, ◌&&◌, Option, none, some, some-injective, List, [], ◌∷◌, ◌++◌, ◌⊎◌,
  inl, inr, ◌≡◌, refl, sym, ap, ◌∙◌, subst, if◌then◌else◌, if_true, if_false, Bool-cases, clash,
  All, arith,
}
use codex_tw_quant_trading_s.Base.Assoc.{get_item, get_item-set_item, same_self}
use codex_tw_quant_trading_s.Base.Pairs.{same_pair, same_pair_iff, text_pair_key}
use codex_tw_quant_trading_s.Python.{Python}
use codex_tw_quant_trading_s.Market.Quotes.{
  QuoteKey, ExecutionQuote, QuoteCache, instrument_of, is_current, update_quote, get_quote,
}

both : (a b : Bool) → a ≡ true → b ≡ true → a && b ≡ true
both a b h k = ground arith

first_false : (a b : Bool) → a ≡ false → a && b ≡ false
first_false a b h = ground arith

second_false : (a b : Bool) → b ≡ false → a && b ≡ false
second_false a b h = ground arith

module _ (N : Python) where
  -- The cache after updates, the first of the list first.
  abbrev pub update_all : List (ExecutionQuote N) → QuoteCache N → QuoteCache N
  update_all [] c = c
  update_all (q ∷ qs) c = update_all qs (update_quote N q c)

  update-get_item :
      (k : QuoteKey) (x : ExecutionQuote N) (c : QuoteCache N)
      → get_item k (update_quote N x c) ≡ (
          if same_pair (instrument_of N x) k && is_current N (get_item k c) x
          then some x
          else get_item k c)
  unfolding update_quote
  update-get_item k x c = elim (Bool-cases (same_pair (instrument_of N x) k)) [
    | inl here ↦
        subst
          (λ (j : QuoteKey). get_item j (update_quote N x c) ≡ (
            if same_pair (instrument_of N x) j && is_current N (get_item j c) x
            then some x
            else get_item j c))
          ((same_pair_iff (instrument_of N x) k).0 here)
          (ground (
            arith,
            same_self (instrument_of N x),
            get_item-set_item (instrument_of N x) (instrument_of N x) x c,
          ))
    | inr away ↦ ground (arith, away, get_item-set_item k (instrument_of N x) x c)
  ]

  abbrev pub received : ExecutionQuote N → ℕ
  received q = q.received_at.instant

  current_false :
      (o : Option (ExecutionQuote N)) (x : ExecutionQuote N)
      → is_current N o x ≡ false
      → (y : ExecutionQuote N) × (o ≡ some y) × (received x ≤ received y)
  current_false none x h = absurd (cc h)
  current_false (some y) x h = (y, refl, ground (arith, h))

  current_true :
      (o : Option (ExecutionQuote N)) (x y : ExecutionQuote N)
      → is_current N o x ≡ true
      → o ≡ some y
      → received y ≤ received x
  current_true none x y h e = absurd (cc e)
  current_true (some z) x y h e =
      subst (λ (w : ExecutionQuote N). received w ≤ received x) (some-injective e)
        (ground (arith, h))

  -- The quote is one of the list, for the instrument.
  abbrev pub IsOneOf : QuoteKey → ExecutionQuote N → List (ExecutionQuote N) → Type 0
  IsOneOf k q qs =
      (before : List (ExecutionQuote N)) × (after : List (ExecutionQuote N)) × (qs
        ≡ before ++ q ∷ after)
      × (instrument_of N q ≡ k)

  later_one :
      (k : QuoteKey) (q x : ExecutionQuote N) (qs : List (ExecutionQuote N))
      → IsOneOf k q qs
      → IsOneOf k q (x ∷ qs)
  later_one k q x qs (before, after, split, same) =
      (x ∷ before, after, ap (λ (l : List (ExecutionQuote N)). x ∷ l) split, same)

  update_all-newest :
      (qs : List (ExecutionQuote N)) (c : QuoteCache N) (k : QuoteKey) (q : ExecutionQuote N)
      → get_item k (update_all qs c) ≡ some q
      → All (λ p. instrument_of N p ≡ k → received p ≤ received q) qs
        × ((x : ExecutionQuote N) → get_item k c ≡ some x → received x ≤ received q)
        × ((get_item k c ≡ some q) ⊎ IsOneOf k q qs)
  update_all-newest [] c k q h = (
    tt,
    λ x e.
        subst (λ (w : ExecutionQuote N). received x ≤ received w) (some-injective (sym e ∙ h))
          (omega arith),
    inl h,
  )
  update_all-newest (x ∷ qs) c k q h =
      let (rest, old, from) = update_all-newest qs (update_quote N x c) k q h in
      let step = update-get_item k x c in
      elim (Bool-cases (same_pair (instrument_of N x) k)) [
        | inl here ↦
            let same = (same_pair_iff (instrument_of N x) k).0 here in
            elim (Bool-cases (is_current N (get_item k c) x)) [
              | inl newer ↦
                  let now : get_item k (update_quote N x c) ≡ some x =
                    step ∙ if_true _ _ _ (both _ _ here newer) in
                  (
                    (λ _. old x now, rest),
                    λ y e.
                        let a = current_true (get_item k c) x y newer e in
                        let b = old x now in omega arith,
                    inr (elim from [
                      | inl e ↦
                          let eq : x ≡ q = some-injective (sym now ∙ e) in
                          (
                            [],
                            qs,
                            ap (λ (w : ExecutionQuote N). w ∷ qs) eq,
                            subst (λ (w : ExecutionQuote N). instrument_of N w ≡ k) eq same,
                          )
                      | inr one ↦ later_one k q x qs one
                    ]),
                  )
              | inr older ↦
                  let kept : get_item k (update_quote N x c) ≡ get_item k c =
                    step ∙ if_false _ _ _ (second_false _ _ older) in
                  let (y, e, le) = current_false (get_item k c) x older in
                  let top = old y (kept ∙ e) in
                  (
                    (λ _. omega arith, rest),
                    λ z f. old z (kept ∙ f),
                    elim from [
                      | inl f ↦ inl (sym kept ∙ f)
                      | inr one ↦ inr (later_one k q x qs one)
                    ],
                  )
            ]
        | inr away ↦
            let kept : get_item k (update_quote N x c) ≡ get_item k c =
              step ∙ if_false _ _ _ (first_false _ _ away) in
            (
              (
                λ same.
                    clash (same_pair (instrument_of N x) k)
                      ((same_pair_iff (instrument_of N x) k).1 same) away,
                rest,
              ),
              λ z f. old z (kept ∙ f),
              elim from [ inl f ↦ inl (sym kept ∙ f) | inr one ↦ inr (later_one k q x qs one) ],
            )
      ]

  no_item : (k : QuoteKey) (q : ExecutionQuote N) → get_item k [] ≡ some q → ⊥
  unfolding get_item
  no_item k q h = cc h

  own_quote :
      (x : ExecutionQuote N) (c : QuoteCache N)
      → (y : ExecutionQuote N) × (get_item (instrument_of N x) (update_quote N x c) ≡ some y)
  own_quote x c =
      let k = instrument_of N x in
      elim (Bool-cases (is_current N (get_item k c) x)) [
        | inl newer ↦ (x, update-get_item k x c ∙ if_true _ _ _ (both _ _ (same_self k) newer))
        | inr older ↦
            let (y, e, le) = current_false (get_item k c) x older in
            (y, update-get_item k x c ∙ if_false _ _ _ (second_false _ _ older) ∙ e)
      ]

  quote_stays :
      (k : QuoteKey) (qs : List (ExecutionQuote N)) (c : QuoteCache N) (y : ExecutionQuote N)
      → get_item k c ≡ some y
      → (q : ExecutionQuote N) × (get_item k (update_all qs c) ≡ some q)
  quote_stays k [] c y h = (y, h)
  quote_stays k (x ∷ qs) c y h =
      elim (Bool-cases (same_pair (instrument_of N x) k && is_current N (get_item k c) x)) [
        | inl newer ↦
            quote_stays k qs (update_quote N x c) x (update-get_item k x c ∙ if_true _ _ _ newer)
        | inr older ↦
            quote_stays k qs (update_quote N x c) y
              (update-get_item k x c ∙ if_false _ _ _ older ∙ h)
      ]

  quote_exists :
      (before after : List (ExecutionQuote N)) (x : ExecutionQuote N) (c : QuoteCache N)
      → (q : ExecutionQuote N) × (get_item (instrument_of N x) (update_all (before ++ x ∷ after) c)
          ≡ some q)
  quote_exists [] after x c =
      let (y, e) = own_quote x c in quote_stays (instrument_of N x) after (update_quote N x c) y e
  quote_exists (b ∷ before) after x c = quote_exists before after x (update_quote N b c)

  -- After updates of an empty cache in any order, for the instrument of any of the quotes: get returns one of
  -- the quotes, it is for this instrument, and no quote of the list for this instrument was received later.
  pub latest_quote :
      (before after : List (ExecutionQuote N)) (x : ExecutionQuote N)
      → (q : ExecutionQuote N) × (get_quote N x.symbol x.contract
            (update_all (before ++ x ∷ after) [])
          ≡ some q)
        × IsOneOf (instrument_of N x) q (before ++ x ∷ after)
        × All
            (λ p. instrument_of N p ≡ instrument_of N x → received p ≤ received q)
            (before ++ x ∷ after)
  latest_quote before after x =
      let (q, found) = quote_exists before after x [] in
      let (newest, old, from) =
        update_all-newest (before ++ x ∷ after) [] (instrument_of N x) q found in
      elim from [
        | inl empty ↦ absurd (no_item (instrument_of N x) q empty)
        | inr one ↦ (q, found, one, newest)
      ]
