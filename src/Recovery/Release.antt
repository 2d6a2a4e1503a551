-- ===== src/Recovery/Release.antt =====
-- What releases the recovery lock (tw_quant/broker/recovery.py).
use codex_tw_quant_trading_s.Base.{
  ℕ, String, ◌≡◌, refl, sym, ap, ◌∙◌, subst, inl, inr, Bool, true, false, Option, none, some, List,
  [], ◌∷◌, arith, Result, ok, raised, checks, ◌==◌, Bool-cases, ok_second,
}
use codex_tw_quant_trading_s.Identity.{AccountRef, account_eq, account_eq_iff}
use codex_tw_quant_trading_s.Order.{Datetime}
use codex_tw_quant_trading_s.Recovery.Locks.{
  RecoveryStatus, locked, reconciling, RecoveryState, Locks, lookup, put, lookup-put, first_lock,
  state_found, answer, state, bumped, bump, begin, force_lock, complete_found, completed, complete,
  is_ready, assert_ready, completion_checks, Op, state_op, begin_op, assert_op, force_op,
  complete_op, after,
}
use codex_tw_quant_trading_s.Recovery.Fencing.{lookup-account, answer-keeps}

-- The account has a lock and it is READY.
abbrev pub row_ready : Option RecoveryState → Bool
row_ready none = false
row_ready (some r) = is_ready r.status

abbrev pub GenerationIs : ℕ → Option RecoveryState → Type 0
GenerationIs g none = ⊥
GenerationIs g (some r) = r.generation ≡ g

abbrev Stays : AccountRef → Locks → Type 0
Stays a t = row_ready (lookup a t) ≡ false

put-Stays :
    (a : AccountRef) (v : RecoveryState) (s : Locks)
    → is_ready v.status ≡ false
    → Stays a s
    → Stays a (put v s)
put-Stays a v s n h = elim (Bool-cases (account_eq v.account a)) [
  | inl e ↦ rw (lookup-put a v s, e) n
  | inr e ↦ rw (lookup-put a v s, e) h
]

bump-Stays :
    (a b : AccountRef) (st : RecoveryStatus) (codes : List String) (now : Datetime) (s : Locks)
    → is_ready st ≡ false
    → Stays a s
    → Stays a (bump b st codes now s).1
bump-Stays a b st codes now s n h =
    answer-keeps (Stays a) s _ _ h
      λ x t e. subst (Stays a) (ok_second _ _ _ _ e) (put-Stays a (bumped b st codes now s) s n h)

state-Stays :
    (a b : AccountRef) (now : Datetime) (s : Locks) → Stays a s → Stays a (state b now s).1
unfolding state
state-Stays a b now s h = answer-keeps (Stays a) s _ _ h λ x t e. go (lookup b s) x t e
  where
    go :
        (o : Option RecoveryState) (x : RecoveryState) (t : Locks)
        → ◌≡◌ {A = Result (RecoveryState × Locks)} (ok (state_found b now s o)) (ok (x, t))
        → Stays a t
    go none x t e = subst (Stays a) (ok_second _ _ _ _ e) (put-Stays a (first_lock b now) s refl h)
    go (some r) x t e = subst (Stays a) (ok_second _ _ _ _ e) h

-- What is known of a completion that makes the lock ready.
abbrev pub Released : AccountRef → Locks → Op → Type 0
Released a s op =
    (g : ℕ) × (now : Datetime) × (op ≡ complete_op a [] g now) × GenerationIs g (lookup a s)

generation_eq : (n m : ℕ) → (n == m) ≡ true → n ≡ m
generation_eq n m h = ground arith

-- The table that a completion leaves.
complete_table :
    (a b : AccountRef) (codes : List String) (n : ℕ) (now : Datetime) (s : Locks)
    → Stays a s
    → row_ready (lookup a (complete b codes n now s).1) ≡ true
    → (r : RecoveryState) × (lookup b s ≡ some r)
      × (r.generation ≡ n)
      × (row_ready (lookup a (put (completed codes now r) s)) ≡ true)
unfolding complete answer
complete_table a b codes n now s h k = go (checks (completion_checks b n now)) (lookup b s) refl k
  where
    go :
        (m : Result (Unit {0})) (o : Option RecoveryState)
        → lookup b s ≡ o
        → row_ready (lookup a (answer s m (complete_found codes n now s o)).1) ≡ true
        → (r : RecoveryState) × (lookup b s ≡ some r)
          × (r.generation ≡ n)
          × (row_ready (lookup a (put (completed codes now r) s)) ≡ true)
    go (raised e) o q k = absurd (cc)
    go (ok _) none q k = absurd (cc)
    go (ok _) (some r) q k = elim (Bool-cases (r.generation == n)) [
      | inl w ↦ (r, q, generation_eq r.generation n w, rw w at k)
      | inr w ↦ absurd (cc (let stays : row_ready (lookup a s) ≡ true = rw w at k in stays))
    ]

complete-Released :
    (a b : AccountRef) (codes : List String) (n : ℕ) (now : Datetime) (s : Locks)
    → Stays a s
    → row_ready (lookup a (complete b codes n now s).1) ≡ true
    → Released a s (complete_op b codes n now)
complete-Released a b (c ∷ cs) n now s h k =
    let (r, _, _, k) = complete_table a b (c ∷ cs) n now s h k in
    absurd (cc (put-Stays a (completed (c ∷ cs) now r) s refl h))
complete-Released a b [] n now s h k =
    let (r, q, g, k) = complete_table a b [] n now s h k in
    elim (Bool-cases (account_eq r.account a)) [
      | inr e ↦ absurd (
          cc (
            let stays : row_ready (lookup a s) ≡ true =
              rw (lookup-put a (completed [] now r) s, e) at k in
            stays))
      | inl e ↦
          let same : b ≡ a = sym (lookup-account b s r q) ∙ (account_eq_iff r.account a).0 e in
          (
            n,
            now,
            ap (λ x. complete_op x [] n now) same,
            subst (GenerationIs n) (sym (ap (λ x. lookup x s) (sym same) ∙ q)) g,
          )
    ]

-- A lock that is not READY becomes READY by one call alone: a `complete` of that account, without
-- issues, for the generation that the lock has then.
pub ready_needs_completion :
    (a : AccountRef) (s : Locks) (op : Op)
    → row_ready (lookup a s) ≡ false
    → row_ready (lookup a (after op s)) ≡ true
    → Released a s op
unfolding after begin force_lock assert_ready
ready_needs_completion a s (state_op b now) h k = absurd (cc (state-Stays a b now s h))
ready_needs_completion a s (begin_op b now) h k =
    absurd (cc (bump-Stays a b reconciling _ now s refl h))
ready_needs_completion a s (assert_op b now) h k = absurd (cc (state-Stays a b now s h))
ready_needs_completion a s (force_op b codes now) h k =
    absurd (cc (bump-Stays a b locked _ now s refl h))
ready_needs_completion a s (complete_op b codes n now) h k = complete-Released a b codes n now s h k
