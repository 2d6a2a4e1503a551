-- ===== src/Recovery/Fencing.antt =====
-- What the generations of the recovery lock (tw_quant/broker/recovery.py) guard.
use codex_tw_quant_trading_s.Base.{
  ℕ, suc, ◌≤◌, ◌<◌, String, ◌≡◌, ◌⊎◌, refl, sym, ap, ◌∙◌, subst, inl, inr, true, Option, none, some,
  List, [], ◌∷◌, arith, Result, Error, ok, raised, checks, ◌==◌, Bool-cases, some-injective,
  ok_second, ok-injective,
}
use codex_tw_quant_trading_s.Identity.{AccountRef, account_eq, account_eq_iff}
use codex_tw_quant_trading_s.Order.{Datetime}
use codex_tw_quant_trading_s.Recovery.Locks.{
  RecoveryStatus, locked, reconciling, RecoveryState, Locks, lookup, put, lookup-put, first_lock,
  state_found, answer, state, bumped, bump, begin, force_lock, complete_found, completion_checks,
  stale, completed, complete, assert_ready, identity_check, time_check, next_generation, Op,
  state_op, begin_op, assert_op, force_op, complete_op, after, after_all,
}

pub lookup-account :
    (a : AccountRef) (s : Locks) (r : RecoveryState) → lookup a s ≡ some r → r.account ≡ a
unfolding lookup
lookup-account a [] r h = absurd (cc)
lookup-account a (x ∷ s) r h = elim (Bool-cases (account_eq x.account a)) [
  | inl e ↦
      ap (λ (z : RecoveryState). z.account) (sym (some-injective (rw e at h)))
      ∙ (account_eq_iff x.account a).0 e
  | inr e ↦ lookup-account a s r (rw e at h)
]

-- The account has a lock, of this generation or a later one.
abbrev pub Reached : ℕ → Option RecoveryState → Type 0
Reached g none = ⊥
Reached g (some r) = g ≤ r.generation

put-Reached :
    (g : ℕ) (a : AccountRef) (v : RecoveryState) (s : Locks)
    → (account_eq v.account a ≡ true → g ≤ v.generation)
    → Reached g (lookup a s)
    → Reached g (lookup a (put v s))
put-Reached g a v s k h = elim (Bool-cases (account_eq v.account a)) [
  | inl e ↦ rw (lookup-put a v s, e) (k e)
  | inr e ↦ rw (lookup-put a v s, e) h
]

pub answer-keeps :
    {A : Type 0} (P : Locks → Type 0) (s : Locks) (m : Result (Unit {0})) (r : Result (A × Locks))
    → P s
    → ((a : A) (t : Locks) → r ≡ ok (a, t) → P t)
    → P (answer s m r).1
unfolding answer
answer-keeps P s (raised e) r h k = h
answer-keeps P s (ok _) (raised e) h k = h
answer-keeps P s (ok _) (ok (a, t)) h k = k a t refl

module _ (g : ℕ) (a : AccountRef) where
  bumped_later :
      (b : AccountRef) (s : Locks)
      → Reached g (lookup a s)
      → account_eq b a ≡ true
      → g ≤ next_generation (lookup b s)
  bumped_later b s h w = rw ((account_eq_iff b a).0 w) (go (lookup a s) h)
    where
      go : (o : Option RecoveryState) → Reached g o → g ≤ next_generation o
      go none k = absurd k
      go (some r) k = omega arith

  bump-Reached :
      (b : AccountRef) (st : RecoveryStatus) (codes : List String) (now : Datetime) (s : Locks)
      → Reached g (lookup a s)
      → Reached g (lookup a (bump b st codes now s).1)
  bump-Reached b st codes now s h =
      answer-keeps (λ t. Reached g (lookup a t)) s _ _ h
        λ x t e.
          subst (λ t. Reached g (lookup a t)) (ok_second _ _ _ _ e)
            (put-Reached g a (bumped b st codes now s) s (bumped_later b s h) h)

  state-Reached :
      (b : AccountRef) (now : Datetime) (s : Locks)
      → Reached g (lookup a s)
      → Reached g (lookup a (state b now s).1)
  unfolding state
  state-Reached b now s h =
      answer-keeps (λ t. Reached g (lookup a t)) s _ _ h λ x t e. go (lookup b s) refl x t e
    where
      go :
          (o : Option RecoveryState)
          → lookup b s ≡ o
          → (x : RecoveryState) (t : Locks)
          → ◌≡◌ {A = Result (RecoveryState × Locks)} (ok (state_found b now s o)) (ok (x, t))
          → Reached g (lookup a t)
      go none q x t e =
          subst (λ t. Reached g (lookup a t)) (ok_second _ _ _ _ e)
            (put-Reached g a (first_lock b now) s
              (λ w.
                absurd
                  (subst (Reached g) (ap (λ c. lookup c s) (sym ((account_eq_iff b a).0 w)) ∙ q) h))
              h)
      go (some r) q x t e = subst (λ t. Reached g (lookup a t)) (ok_second _ _ _ _ e) h

  complete-Reached :
      (b : AccountRef) (codes : List String) (n : ℕ) (now : Datetime) (s : Locks)
      → Reached g (lookup a s)
      → Reached g (lookup a (complete b codes n now s).1)
  unfolding complete
  complete-Reached b codes n now s h =
      answer-keeps (λ t. Reached g (lookup a t)) s _ _ h λ x t e. go (lookup b s) refl x t e
    where
      go :
          (o : Option RecoveryState)
          → lookup b s ≡ o
          → (x : RecoveryState) (t : Locks) → complete_found codes n now s o ≡ ok (x, t)
          → Reached g (lookup a t)
      go none q x t e = absurd (cc)
      go (some r) q x t e = elim (Bool-cases (r.generation == n)) [
        | inr w ↦ absurd (cc)
        | inl w ↦
            subst (λ t. Reached g (lookup a t)) (ok_second _ _ _ _ (rw w at e))
              (put-Reached g a (completed codes now r) s
                (λ u.
                  subst (Reached g)
                    (ap (λ c. lookup c s)
                        (sym ((account_eq_iff r.account a).0 u) ∙ lookup-account b s r q)
                      ∙ q)
                    h)
                h)
      ]

  after-Reached : (op : Op) (s : Locks) → Reached g (lookup a s) → Reached g (lookup a (after op s))
  unfolding after begin force_lock assert_ready
  after-Reached (state_op b now) s h = state-Reached b now s h
  after-Reached (begin_op b now) s h = bump-Reached b reconciling _ now s h
  after-Reached (assert_op b now) s h = state-Reached b now s h
  after-Reached (force_op b codes now) s h = bump-Reached b locked _ now s h
  after-Reached (complete_op b codes n now) s h = complete-Reached b codes n now s h

  after_all-Reached :
      (ops : List Op) (s : Locks) → Reached g (lookup a s) → Reached g (lookup a (after_all ops s))
  unfolding after_all
  after_all-Reached [] s h = h
  after_all-Reached (op ∷ ops) s h = after_all-Reached ops (after op s) (after-Reached op s h)

-- A bump that returns leaves its row in the table.
bump-ok :
    (a : AccountRef) (st : RecoveryStatus) (codes : List String) (now : Datetime) (s s' : Locks)
    (r : RecoveryState)
    → bump a st codes now s ≡ (ok r, s')
    → (r ≡ bumped a st codes now s) × (lookup a s' ≡ some r)
unfolding answer
bump-ok a st codes now s s' r h = go (checks (identity_check a ∷ time_check now ∷ [])) h
  where
    v : RecoveryState
    v = bumped a st codes now s

    go :
        (m : Result (Unit {0}))
        → answer s m (ok (v, put v s)) ≡ (ok r, s')
        → (r ≡ v) × (lookup a s' ≡ some r)
    go (raised e) h = absurd (cc (ap (λ (z : Result RecoveryState × Locks). z.0) h))
    go (ok _) h =
        let same : r ≡ v = sym (ok-injective (ap (λ (z : Result RecoveryState × Locks). z.0) h)) in
        let table : put v s ≡ s' = ap (λ (z : Result RecoveryState × Locks). z.1) h in
        (
          same,
          ap (lookup a) (sym table)
              ∙ lookup-put a v s
              ∙ rw ((account_eq_iff a a).1 refl) (ap some (sym same)),
        )

stale_found :
    (codes : List String) (g : ℕ) (now : Datetime) (s : Locks) (r : RecoveryState)
    → g < r.generation
    → complete_found codes g now s (some r) ≡ raised stale
stale_found codes g now s r k = ground arith

-- A completion for a generation that has passed raises, and changes no lock.
complete_stale :
    (a : AccountRef) (g : ℕ) (codes : List String) (now : Datetime) (s : Locks)
    → Reached (suc g) (lookup a s)
    → (e : Error) × (complete a codes g now s ≡ (raised e, s))
unfolding complete answer
complete_stale a g codes now s h = go (lookup a s) (checks (completion_checks a g now)) h
  where
    go :
        (o : Option RecoveryState) (m : Result (Unit {0}))
        → Reached (suc g) o
        → (e : Error) × (answer s m (complete_found codes g now s o) ≡ (raised e, s))
    go none m k = absurd k
    go (some r) (raised e) k = (e, refl)
    go (some r) (ok u) k = (stale, rw (stale_found codes g now s r k))

-- A bump passes every generation that the lock had reached.
bump-passes :
    (a : AccountRef) (g : ℕ) (st : RecoveryStatus) (codes : List String) (now : Datetime)
    (s s' : Locks) (r : RecoveryState)
    → Reached g (lookup a s)
    → bump a st codes now s ≡ (ok r, s')
    → Reached (suc g) (lookup a s')
bump-passes a g st codes now s s' r k h =
    let (same, found) = bump-ok a st codes now s s' r h in rw (found, same) (go (lookup a s) k)
  where
    go : (o : Option RecoveryState) → Reached g o → suc g ≤ next_generation o
    go none k = absurd k
    go (some r) k = omega arith

-- A reconciliation that began is fenced off by any later `begin` or `force_lock` of its account:
-- whatever calls come before, between and after, its `complete` raises and changes no lock.
pub stale_reconciliation :
    (a : AccountRef) (s s₁ s₂ : Locks) (r r' : RecoveryState) (t t' now : Datetime)
    (earlier later : List Op) (reasons issues : List String)
    → begin a t s ≡ (ok r, s₁)
    → (force_lock a reasons t' (after_all earlier s₁) ≡ (ok r', s₂))
      ⊎ (begin a t' (after_all earlier s₁) ≡ (ok r', s₂))
    → (e : Error) × (complete a issues r.generation now (after_all later s₂)
        ≡ (raised e, after_all later s₂))
unfolding begin force_lock
stale_reconciliation a s s₁ s₂ r r' t t' now earlier later reasons issues h k =
    let (_, found) = bump-ok a _ _ t s s₁ r h in
    let reached : Reached r.generation (lookup a (after_all earlier s₁)) =
      after_all-Reached r.generation a earlier s₁ (rw found (omega arith)) in
    let passed : Reached (suc r.generation) (lookup a s₂) = elim k [
      | inl f ↦ bump-passes a r.generation _ _ t' (after_all earlier s₁) s₂ r' reached f
      | inr b ↦ bump-passes a r.generation _ _ t' (after_all earlier s₁) s₂ r' reached b
    ] in
    complete_stale a r.generation issues now (after_all later s₂)
      (after_all-Reached (suc r.generation) a later s₂ passed)
