-- ===== src/Market/Dates.antt =====
-- tw_quant/market/sessions.py: the trading date that follows a date, and the dates of a night session.
use codex_tw_quant_trading_s.Base.{
  ℕ, zero, suc, ◌+◌, ◌-◌, ◌≤◌, ◌<◌, true, false, ◌≡◌, ◌↔◌, ◌⊎◌, sym, ap, ◌∙◌, subst, inl, inr,
  Result, ok, ok-injective, if_true, if_false, clash, Bool-cases, leb, ◌==◌, arith,
}
use codex_tw_quant_trading_s.Market.Sessions.{
  Calendar, is_closed, date_max, overflow, next_open, next_trading_day, at_clock, Session, night,
  session_on, classify_tmf_session,
}

-- The first open day among the days from one to another, or that there is none.
abbrev pub IsFirstOpen : Calendar → ℕ → ℕ → ℕ → Type 0
IsFirstOpen c from last t =
    (from ≤ t)
    × (t ≤ last)
    × (is_closed c t ≡ false)
    × ((y : ℕ) → from ≤ y → y < t → is_closed c y ≡ true)

abbrev pub AllClosed : Calendar → ℕ → ℕ → Type 0
AllClosed c from last = (y : ℕ) → from ≤ y → y ≤ last → is_closed c y ≡ true

closed_first :
    (c : Calendar) (d : ℕ) (P : ℕ → Type 0)
    → is_closed c d ≡ true
    → ((y : ℕ) → d + 1 ≤ y → P y → is_closed c y ≡ true)
    → (y : ℕ) → d ≤ y
    → P y
    → is_closed c y ≡ true
closed_first c d P shut rest y from below = elim (Bool-cases (y == d)) [
  | inl same ↦ subst (λ (x : ℕ). is_closed c x ≡ true) (ground (arith, same)) shut
  | inr other ↦ rest y (ground (arith, other)) below
]

next_open-first :
    (left : ℕ) (c : Calendar) (d : ℕ)
    → ((t : ℕ) × (next_open left c d ≡ ok t) × IsFirstOpen c d (d + left) t)
      ⊎ ((next_open left c d ≡ overflow) × AllClosed c d (d + left))
unfolding next_open
next_open-first zero c d = elim (Bool-cases (is_closed c d)) [
  | inl shut ↦ inr (
    if_true _ _ _ shut,
    λ y from below. subst (λ (x : ℕ). is_closed c x ≡ true) (omega arith) shut,
  )
  | inr opened ↦ inl (
    d,
    if_false _ _ _ opened,
    (omega arith, omega arith, opened, λ y from below. absurd (omega arith)),
  )
]
next_open-first (suc left) c d = elim (Bool-cases (is_closed c d)) [
  | inl shut ↦ elim (next_open-first left c (d + 1)) [
    | inl (t, e, (from, below, opened, between)) ↦ inl (
      t,
      if_true _ _ _ shut ∙ e,
      (omega arith, omega arith, opened, closed_first c d (λ y. y < t) shut between),
    )
    | inr (e, closed) ↦ inr (
      if_true _ _ _ shut ∙ e,
      λ y from below.
          closed_first c d (λ y. y ≤ d + suc left) shut (λ y a b. closed y a (omega arith)) y from
            below,
    )
  ]
  | inr opened ↦ inl (
    d,
    if_false _ _ _ opened,
    (omega arith, omega arith, opened, λ y from below. absurd (omega arith)),
  )
]

-- For every date up to `date.max` and every set of holidays, `next_trading_day` returns the first later day that
-- is neither of a weekend nor a holiday, or, if no later day up to `date.max` is one, raises OverflowError.
pub next_trading_day-first :
    (c : Calendar) (d : ℕ)
    → d ≤ date_max
    → ((t : ℕ) × (next_trading_day c d ≡ ok t) × IsFirstOpen c (d + 1) date_max t)
      ⊎ ((next_trading_day c d ≡ overflow) × AllClosed c (d + 1) date_max)
unfolding next_trading_day
next_trading_day-first c d h = elim (Bool-cases (leb date_max d)) [
  | inl last ↦
      let e : date_max ≤ d = ground (arith, last) in
      inr (if_true _ _ _ last, λ y from below. absurd (omega arith))
  | inr before ↦
      let less : d < date_max = ground (arith, before) in
      let end : (d + 1) + (date_max - (d + 1)) ≡ date_max = omega arith in
      let step =
        if_false (leb date_max d) overflow (next_open (date_max - (d + 1)) c (d + 1)) before in
      elim (next_open-first (date_max - (d + 1)) c (d + 1)) [
        | inl (t, e, first) ↦
            inl (t, step ∙ e, subst (λ (n : ℕ). IsFirstOpen c (d + 1) n t) end first)
        | inr (e, closed) ↦ inr (step ∙ e, subst (AllClosed c (d + 1)) end closed)
      ]
]

evening :
    (c : Calendar) (d now : ℕ)
    → at_clock 15 0 ≤ now
    → classify_tmf_session c (record { date = d; clock = now })
      ≡ session_on night (next_trading_day c d)
unfolding classify_tmf_session
evening c d now h = ground (arith, h)

morning :
    (c : Calendar) (d now : ℕ)
    → now ≤ at_clock 5 0
    → classify_tmf_session c (record { date = d; clock = now }) ≡ ok (night, d)
unfolding classify_tmf_session
morning c d now h = ground (arith, h)

-- The night session that begins on a date before `date.max` and ends on the next has one trading date, before
-- midnight and after it, exactly if the next date is neither of a weekend nor a holiday.
pub night_has_one_date :
    (c : Calendar) (d late early : ℕ)
    → d < date_max
    → at_clock 15 0 ≤ late
    → early ≤ at_clock 5 0
    → (classify_tmf_session c (record { date = d; clock = late })
        ≡ classify_tmf_session c (record { date = d + 1; clock = early }))
      ↔ (is_closed c (d + 1) ≡ false)
night_has_one_date c d late early less h k = elim (next_trading_day-first c d (omega arith)) [
  | inl (t, e, (after, below, opened, between)) ↦
      let before = evening c d late h ∙ ap (λ (x : Result ℕ). session_on night x) e in
      let past = morning c (d + 1) early k in
      (
        λ same.
            let one : t ≡ d + 1 =
              ap (λ (p : Session × ℕ). p.1) (ok-injective (sym before ∙ same ∙ past)) in
            subst (λ (x : ℕ). is_closed c x ≡ false) one opened,
        λ free.
            let one : t ≡ d + 1 = first_date t after between free in
            before ∙ ap (λ (x : ℕ). session_on night (ok x)) one ∙ sym past,
      )
  | inr (e, closed) ↦
      let before = evening c d late h ∙ ap (λ (x : Result ℕ). session_on night x) e in
      let past = morning c (d + 1) early k in
      (
        λ same. absurd (cc (sym before ∙ same ∙ past)),
        λ free. clash (is_closed c (d + 1)) (closed (d + 1) (omega arith) (omega arith)) free,
      )
]
  where
    first_date :
        (t : ℕ)
        → d + 1 ≤ t
        → ((y : ℕ) → d + 1 ≤ y → y < t → is_closed c y ≡ true)
        → is_closed c (d + 1) ≡ false
        → t ≡ d + 1
    first_date t after between free = elim (Bool-cases (leb t (d + 1))) [
      | inl first ↦ ground (arith, first)
      | inr later ↦
          clash (is_closed c (d + 1)) (between (d + 1) (omega arith) (ground (arith, later))) free
    ]
