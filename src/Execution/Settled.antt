-- ===== src/Execution/Settled.antt =====
-- tw_quant/execution/position_ledger.py: what a flat position keeps.
use codex_tw_quant_trading_s.Order.{Datetime}
use codex_tw_quant_trading_s.Base.{
  String, ℕ, Bool, true, false, Option, none, some, is_some, List, [], ◌∷◌, ◌≡◌, refl, sym, ap, ◌∙◌,
  inl, inr, Result, ok, raised, if◌then◌else◌, if_true, if_false, if_elim, Bool-cases,
  some-injective, All, arith, subst,
}
use codex_tw_quant_trading_s.Base.Assoc.{get_item, get_item-set_item}
use codex_tw_quant_trading_s.Base.Int.{ℤ, pos, ◌*ℤ◌, eqb_ℤ, ltb_ℤ}
use codex_tw_quant_trading_s.Python.{Python}
use codex_tw_quant_trading_s.Events.{FillEvent, fill, zero_float}
use codex_tw_quant_trading_s.Execution.Positions.{
  PositionKey, position_key, same_position, PositionState, flat_state, Ledger,
}
use codex_tw_quant_trading_s.Execution.Ledger.{
  entered, opens, closing_quantity, increased, reduced, filled, partly_closed, flattened, turned,
  Handled, state, state_or_flat, key_of, position_of, book_fill, owner_of, owned_fill, remember,
  is_seen, take_fill, on_fill,
}
use codex_tw_quant_trading_s.Execution.Replay.{replay}
use codex_tw_quant_trading_s.Execution.Closing.{not_opens, opened_contracts, fill_nonzero}

module _ (N : Python) where
  -- A flat position has no opening time, price or cost left over; one that is held has its opening time.
  pub record IsSettled (s : PositionState N) : Type 0 where
    pub no_price : eqb_ℤ s.quantity (pos 0) ≡ true → s.average_price ≡ zero_float N
    pub no_time : eqb_ℤ s.quantity (pos 0) ≡ true → s.opened_at ≡ none
    pub no_commission : eqb_ℤ s.quantity (pos 0) ≡ true → s.entry_commission ≡ zero_float N
    pub no_tax : eqb_ℤ s.quantity (pos 0) ≡ true → s.entry_tax ≡ zero_float N
    pub opened : eqb_ℤ s.quantity (pos 0) ≡ false → is_some s.opened_at ≡ true

  flat_state-IsSettled : (k : PositionKey) → IsSettled (flat_state N k)
  flat_state-IsSettled k = record {
    no_price = λ _. refl;
    no_time = λ _. refl;
    no_commission = λ _. refl;
    no_tax = λ _. refl;
    opened = λ h. absurd (cc);
  }

  held-IsSettled :
      (t : PositionState N)
      → eqb_ℤ t.quantity (pos 0) ≡ false
      → is_some t.opened_at ≡ true
      → IsSettled t
  held-IsSettled t held since = record {
    no_price = λ h. absurd (cc);
    no_time = λ h. absurd (cc);
    no_commission = λ h. absurd (cc);
    no_tax = λ h. absurd (cc);
    opened = λ _. since;
  }

  flat-IsSettled :
      (t : PositionState N) → eqb_ℤ t.quantity (pos 0) ≡ true → IsSettled (flattened N t)
  flat-IsSettled t flat = record {
    no_price = λ _. refl;
    no_time = λ _. refl;
    no_commission = λ _. refl;
    no_tax = λ _. refl;
    opened = λ h. absurd (cc);
  }

  -- The other fields do not matter.
  same-IsSettled :
      (s t : PositionState N)
      → s.quantity ≡ t.quantity
      → s.average_price ≡ t.average_price
      → s.opened_at ≡ t.opened_at
      → s.entry_commission ≡ t.entry_commission
      → s.entry_tax ≡ t.entry_tax
      → IsSettled s
      → IsSettled t
  same-IsSettled s t q p o c x h = record {
    no_price = λ flat. sym p ∙ h.no_price (ap (λ (n : ℤ). eqb_ℤ n (pos 0)) q ∙ flat);
    no_time = λ flat. sym o ∙ h.no_time (ap (λ (n : ℤ). eqb_ℤ n (pos 0)) q ∙ flat);
    no_commission = λ flat. sym c ∙ h.no_commission (ap (λ (n : ℤ). eqb_ℤ n (pos 0)) q ∙ flat);
    no_tax = λ flat. sym x ∙ h.no_tax (ap (λ (n : ℤ). eqb_ℤ n (pos 0)) q ∙ flat);
    opened = λ held.
        ap (λ (t : Option Datetime). is_some t) (sym o)
        ∙ h.opened (ap (λ (n : ℤ). eqb_ℤ n (pos 0)) q ∙ held);
  }

  entered-IsSettled :
      (f : FillEvent N) (s : PositionState N) → IsSettled s → IsSettled (entered N f s)
  unfolding entered
  entered-IsSettled f s h = elim (Bool-cases (eqb_ℤ s.quantity (pos 0))) [
    | inl flat ↦
        same-IsSettled s (entered N f s) (ground arith) (ground arith) (ground arith) (ground arith)
          (ground arith) h
    | inr held ↦
        same-IsSettled s (entered N f s) (ground arith) (ground arith) (ground arith) (ground arith)
          (ground arith) h
  ]

  increased-IsSettled :
      (f : FillEvent N) (s : PositionState N)
      → ltb_ℤ (pos 0) f.quantity ≡ true
      → opens N f s ≡ true
      → IsSettled s
      → IsSettled (increased N f s)
  unfolding increased
  increased-IsSettled f s q o h =
      held-IsSettled (increased N f s)
        (ground (arith, opened_contracts N f s o, fill_nonzero N f q))
        (if_elim (λ (t : Option Datetime). is_some t ≡ true) (eqb_ℤ s.quantity (pos 0))
          (some f.meta.occurred_at) s.opened_at (λ flat. refl) (λ held. h.opened held))

  reduced-IsSettled :
      (m : N.float) (f : FillEvent N) (s : PositionState N)
      → opens N f s ≡ false
      → IsSettled s
      → IsSettled (reduced N m f s)
  unfolding reduced
  reduced-IsSettled m f s c h =
      let t : PositionState N = partly_closed N m f s in
      let n : ℕ = closing_quantity N f s in
      let turns : Bool = ltb_ℤ (s.quantity *ℤ t.quantity) (pos 0) in
      let since : is_some s.opened_at ≡ true = h.opened ((not_opens N f s c).0) in
      if_elim IsSettled (eqb_ℤ t.quantity (pos 0)) (flattened N t)
        (if turns then turned N f n t else t) (λ flat. flat-IsSettled t flat)
        (λ held.
          if_elim IsSettled turns (turned N f n t) t
            (λ _. held-IsSettled (turned N f n t) held refl) (λ _. held-IsSettled t held since))

  filled-IsSettled :
      (m : N.float) (f : FillEvent N) (s : PositionState N)
      → ltb_ℤ (pos 0) f.quantity ≡ true
      → IsSettled s
      → IsSettled (filled N m f s)
  unfolding filled
  filled-IsSettled m f s q h =
      let t : PositionState N = entered N f s in
      if_elim IsSettled (opens N f t) (increased N f t) (reduced N m f t)
        (λ o. increased-IsSettled f t q o (entered-IsSettled f s h))
        (λ c. reduced-IsSettled m f t c (entered-IsSettled f s h))

  -- Every position that the ledger holds.
  abbrev pub AllSettled : Ledger N → Type 0
  AllSettled l = (k : PositionKey) (s : PositionState N) → state N k l ≡ some s → IsSettled s

  pub new-AllSettled :
      (m : N.float)
      → AllSettled (record { multiplier = m; positions = []; seen_fills = []; trades = [] })
  unfolding get_item
  new-AllSettled m k s h = absurd (cc)

  position_of-IsSettled :
      (k : PositionKey) (o : Option (PositionState N))
      → ((s : PositionState N) → o ≡ some s → IsSettled s)
      → IsSettled (state_or_flat N k o)
  position_of-IsSettled k none h = flat_state-IsSettled k
  position_of-IsSettled k (some s) h = h s refl

  book_fill-AllSettled :
      (owner : String) (f : FillEvent N) (l : Ledger N)
      → ltb_ℤ (pos 0) f.quantity ≡ true
      → AllSettled l
      → AllSettled (book_fill N owner f l)
  unfolding book_fill
  book_fill-AllSettled owner f l q h k s e =
      let key : PositionKey = key_of N owner f in
      let new : PositionState N = filled N l.multiplier f (position_of N owner f l) in
      let g = sym (get_item-set_item k key new l.positions) ∙ e in
      elim (Bool-cases (same_position key k)) [
        | inl here ↦ subst IsSettled (some-injective (sym (if_true _ _ _ here) ∙ g)) (
            filled-IsSettled l.multiplier f (position_of N owner f l) q
              (position_of-IsSettled key (state N key l) (h key)))
        | inr away ↦ h k s (sym (if_false _ _ _ away) ∙ g)
      ]

  owned_fill-AllSettled :
      (f : FillEvent N) (l : Ledger N) (r : Result String)
      → ltb_ℤ (pos 0) f.quantity ≡ true
      → AllSettled l
      → AllSettled (owned_fill N f l r).0
  owned_fill-AllSettled f l (raised e) q h = h
  owned_fill-AllSettled f l (ok owner) q h = book_fill-AllSettled owner f l q h

  take_fill-AllSettled :
      (f : FillEvent N) (l : Ledger N)
      → ltb_ℤ (pos 0) f.quantity ≡ true
      → AllSettled l
      → AllSettled (take_fill N f l).0
  unfolding take_fill
  take_fill-AllSettled f l q h =
      if_elim (λ (r : Handled N). AllSettled r.0) (is_seen N f l.seen_fills) (l, ok none)
        (owned_fill N f (remember N f l) (owner_of N (fill f))) (λ _. h)
        (λ _. owned_fill-AllSettled f (remember N f l) (owner_of N (fill f)) q h)

  -- After any list of fills of a positive number of contracts: a position that is flat keeps no average
  -- price, opening time or entry cost, and one that is held has its opening time.
  pub replay-AllSettled :
      (fs : List (FillEvent N)) (l : Ledger N)
      → All (λ f. ltb_ℤ (pos 0) f.quantity ≡ true) fs
      → AllSettled l
      → AllSettled (replay N fs l)
  unfolding replay on_fill
  replay-AllSettled [] l q h = h
  replay-AllSettled (f ∷ fs) l q h =
      replay-AllSettled fs (take_fill N f l).0 q.1 (take_fill-AllSettled f l q.0 h)
