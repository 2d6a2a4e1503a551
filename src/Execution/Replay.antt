-- ===== src/Execution/Replay.antt =====
-- tw_quant/execution/position_ledger.py: the ledger after a list of fills, whatever their handlers
-- return or raise, beside an account of the same fills that keeps no state.
use codex_tw_quant_trading_s.Base.{
  String, Option, none, some, List, [], ◌∷◌, ◌≡◌, refl, sym, ap, ◌∙◌, inl, inr, Result, ok, raised,
  if◌then◌else◌, if_true, if_false, if_elim, Bool-cases, arith,
}
use codex_tw_quant_trading_s.Base.Assoc.{get_item-set_item}
use codex_tw_quant_trading_s.Base.Int.{ℤ, pos, ◌+ℤ◌, +ℤ_zero, zero_+ℤ, +ℤ_assoc}
use codex_tw_quant_trading_s.Python.{Python}
use codex_tw_quant_trading_s.Events.{FillEvent, fill}
use codex_tw_quant_trading_s.Execution.Positions.{
  PositionKey, same_position, same_position_iff, PositionState, Ledger, position_key,
}
use codex_tw_quant_trading_s.Execution.Ledger.{
  state, signed_fill, entered, increased, reduced, filled, key_of, opens, position_of,
  state_or_flat, Handled, book_fill, owner_of, owned_fill, is_seen, take_fill, on_fill, remember,
}

module _ (N : Python) where
  -- The fills whose id occurs for the first time.
  unfoldable pub firsts : List String → List (FillEvent N) → List (FillEvent N)
  firsts seen [] = []
  firsts seen (f ∷ fs) =
      let rest = firsts (f.fill_id ∷ seen) fs in
      let again = firsts seen fs in if is_seen N f seen then again else f ∷ rest

  abbrev pub share_of_key : PositionKey → FillEvent N → Result String → ℤ
  share_of_key k f (raised e) = pos 0
  share_of_key k f (ok owner) =
      if same_position (key_of N owner f) k then signed_fill N f else pos 0

  -- What a fill adds to the position of a key: its signed quantity, if it has an owner and the key.
  unfoldable pub amount : PositionKey → FillEvent N → ℤ
  amount k f = share_of_key k f (owner_of N (fill f))

  unfoldable pub net : PositionKey → List (FillEvent N) → ℤ
  net k [] = pos 0
  net k (f ∷ fs) = amount k f +ℤ net k fs

  abbrev pub quantity_in : Option (PositionState N) → ℤ
  quantity_in none = pos 0
  quantity_in (some s) = s.quantity

  -- The quantity that the ledger holds under a key.
  unfoldable pub quantity_at : PositionKey → Ledger N → ℤ
  quantity_at k l = quantity_in (state N k l)

  -- `on_fill` on each fill in turn.
  unfoldable pub replay : List (FillEvent N) → Ledger N → Ledger N
  replay [] l = l
  replay (f ∷ fs) l = replay fs (on_fill N (fill f) l).0

  reduced_quantity :
      (m : N.float) (f : FillEvent N) (s : PositionState N)
      → (reduced N m f s).quantity ≡ s.quantity +ℤ signed_fill N f
  unfolding reduced
  reduced_quantity m f s = ground arith

  pub entered_quantity :
      (f : FillEvent N) (s : PositionState N) → (entered N f s).quantity ≡ s.quantity
  unfolding entered
  entered_quantity f s = ground arith

  pub filled_quantity :
      (m : N.float) (f : FillEvent N) (s : PositionState N)
      → (filled N m f s).quantity ≡ s.quantity +ℤ signed_fill N f
  unfolding filled increased
  filled_quantity m f s =
      if_elim (λ (t : PositionState N). t.quantity ≡ s.quantity +ℤ signed_fill N f)
        (opens N f (entered N f s)) (increased N f (entered N f s)) (reduced N m f (entered N f s))
        (λ _. rw (entered_quantity f s))
        (λ _. reduced_quantity m f (entered N f s) ∙ rw (entered_quantity f s))

  position_quantity :
      (k : PositionKey) (o : Option (PositionState N))
      → (state_or_flat N k o).quantity ≡ quantity_in o
  position_quantity k none = refl
  position_quantity k (some s) = refl

  abbrev after : String → FillEvent N → Ledger N → PositionState N
  after owner f l = filled N l.multiplier f (position_of N owner f l)

  book_fill_quantity :
      (k : PositionKey) (owner : String) (f : FillEvent N) (l : Ledger N)
      → quantity_at k (book_fill N owner f l) ≡ quantity_at k l +ℤ share_of_key k f (ok owner)
  unfolding book_fill quantity_at
  book_fill_quantity k owner f l = elim (Bool-cases (same_position (key_of N owner f) k)) [
    | inl here ↦
        ap quantity_in (
          get_item-set_item k (key_of N owner f) (after owner f l) l.positions ∙ if_true _ _ _ here)
        ∙ filled_quantity l.multiplier f (position_of N owner f l)
        ∙ ap (λ (q : ℤ). q +ℤ signed_fill N f)
            (position_quantity (key_of N owner f) (state N (key_of N owner f) l)
              ∙ ap (λ (j : PositionKey). quantity_in (state N j l))
                  ((same_position_iff _ _).0 here))
        ∙ ap (λ (q : ℤ). quantity_in (state N k l) +ℤ q) (sym (if_true _ _ _ here))
    | inr away ↦
        ap quantity_in (
          get_item-set_item k (key_of N owner f) (after owner f l) l.positions
          ∙ if_false _ _ _ away)
        ∙ sym (+ℤ_zero (quantity_in (state N k l)))
        ∙ ap (λ (q : ℤ). quantity_in (state N k l) +ℤ q) (sym (if_false _ _ _ away))
  ]

  owned_fill_quantity :
      (k : PositionKey) (f : FillEvent N) (l : Ledger N) (r : Result String)
      → quantity_at k (owned_fill N f (remember N f l) r).0 ≡ quantity_at k l +ℤ share_of_key k f r
  unfolding quantity_at
  owned_fill_quantity k f l (raised e) = sym (+ℤ_zero (quantity_at k l))
  owned_fill_quantity k f l (ok owner) = book_fill_quantity k owner f (remember N f l)

  pub take_fill_quantity :
      (k : PositionKey) (f : FillEvent N) (l : Ledger N)
      → quantity_at k (take_fill N f l).0
        ≡ quantity_at k l +ℤ (if is_seen N f l.seen_fills then pos 0 else amount k f)
  unfolding take_fill amount
  take_fill_quantity k f l =
      if_elim
        (λ (r : Handled N).
          quantity_at k r.0
          ≡ quantity_at k l +ℤ (if is_seen N f l.seen_fills then pos 0 else amount k f))
        (is_seen N f l.seen_fills) (l, ok none)
        (owned_fill N f (remember N f l) (owner_of N (fill f)))
        (λ seen.
          sym (+ℤ_zero (quantity_at k l))
          ∙ ap (λ (q : ℤ). quantity_at k l +ℤ q) (sym (if_true _ _ _ seen)))
        (λ new.
          owned_fill_quantity k f l (owner_of N (fill f))
          ∙ ap (λ (q : ℤ). quantity_at k l +ℤ q) (sym (if_false _ _ _ new)))

  owned_fill_seen :
      (f : FillEvent N) (l : Ledger N) (r : Result String)
      → (owned_fill N f l r).0.seen_fills ≡ l.seen_fills
  unfolding book_fill
  owned_fill_seen f l (raised e) = refl
  owned_fill_seen f l (ok owner) = refl

  take_fill_seen :
      (f : FillEvent N) (l : Ledger N)
      → (take_fill N f l).0.seen_fills
        ≡ (if is_seen N f l.seen_fills then l.seen_fills else f.fill_id ∷ l.seen_fills)
  unfolding take_fill
  take_fill_seen f l = elim (Bool-cases (is_seen N f l.seen_fills)) [
    | inl seen ↦
        ap (λ (r : Handled N). r.0.seen_fills) (if_true _ _ _ seen) ∙ sym (if_true _ _ _ seen)
    | inr new ↦
        ap (λ (r : Handled N). r.0.seen_fills) (if_false _ _ _ new)
        ∙ owned_fill_seen f (remember N f l) (owner_of N (fill f))
        ∙ sym (if_false _ _ _ new)
  ]

  -- The account of the first fill and of the others.
  net-firsts :
      (k : PositionKey) (f : FillEvent N) (fs : List (FillEvent N)) (seen : List String)
      → net k (firsts seen (f ∷ fs))
        ≡ (if is_seen N f seen then pos 0 else amount k f)
          +ℤ net k (firsts (if is_seen N f seen then seen else f.fill_id ∷ seen) fs)
  unfolding net firsts
  net-firsts k f fs seen = elim (Bool-cases (is_seen N f seen)) [
    | inl again ↦ rw again (sym (zero_+ℤ _))
    | inr new ↦ rw new
  ]

  -- The quantity under every key is the one before plus the signed quantities of the key's fills, each
  -- fill id counted at its first occurrence only.
  pub replay-net :
      (k : PositionKey) (fs : List (FillEvent N)) (l : Ledger N)
      → quantity_at k (replay fs l) ≡ quantity_at k l +ℤ net k (firsts l.seen_fills fs)
  unfolding replay net firsts on_fill
  replay-net k [] l = sym (+ℤ_zero _)
  replay-net k (f ∷ fs) l =
      replay-net k fs (take_fill N f l).0
      ∙ ap (λ (seen : List String). quantity_at k (take_fill N f l).0 +ℤ net k (firsts seen fs))
          (take_fill_seen f l)
      ∙ ap
          (λ (q : ℤ).
            q
            +ℤ net k (
                firsts (if is_seen N f l.seen_fills then l.seen_fills else f.fill_id ∷ l.seen_fills)
                  fs))
          (take_fill_quantity k f l)
      ∙ +ℤ_assoc _ _ _
      ∙ ap (λ (q : ℤ). quantity_at k l +ℤ q) (sym (net-firsts k f fs l.seen_fills))
