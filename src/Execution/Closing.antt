-- ===== src/Execution/Closing.antt =====
-- tw_quant/execution/position_ledger.py: how many contracts a fill opens and closes.
use codex_tw_quant_trading_s.Base.{
  String, ℕ, true, false, ◌+◌, List, [], ◌∷◌, ◌≡◌, ap, inl, inr, if◌then◌else◌, leb, leb→le,
  leb-eq-false, Bool-cases, or-eq-true, or-eq-false, ◌⊎◌, arith,
}
use codex_tw_quant_trading_s.Base.Int.{
  ℤ, pos, abs, ◌+ℤ◌, ◌*ℤ◌, eqb_ℤ, ltb_ℤ, eqb_ℤ-eq, zero_+ℤ, same_sign_add, other_sign_add,
}
use codex_tw_quant_trading_s.Python.{Python}
use codex_tw_quant_trading_s.Events.{FillEvent}
use codex_tw_quant_trading_s.Execution.Positions.{PositionState, RealizedTrade}
use codex_tw_quant_trading_s.Execution.Ledger.{
  signed_fill, entered, opens, closing_quantity, filled, traded,
}
use codex_tw_quant_trading_s.Execution.Replay.{filled_quantity, entered_quantity}

module _ (N : Python) where
  -- The contracts of a list of trades.
  abbrev pub contracts : List (RealizedTrade N) → ℕ
  contracts [] = 0
  contracts (t ∷ ts) = abs t.quantity + contracts ts

  pub abs-signed_fill : (f : FillEvent N) → abs (signed_fill N f) ≡ abs f.quantity
  unfolding signed_fill
  abs-signed_fill f = ground arith

  -- The tests of `opens`, apart.
  pub opens_cases :
      (f : FillEvent N) (s : PositionState N)
      → opens N f s ≡ true
      → (eqb_ℤ s.quantity (pos 0) ≡ true) ⊎ (ltb_ℤ (pos 0) (s.quantity *ℤ signed_fill N f) ≡ true)
  unfolding opens
  opens_cases f s h = or-eq-true _ _ h

  pub not_opens :
      (f : FillEvent N) (s : PositionState N)
      → opens N f s ≡ false
      → (eqb_ℤ s.quantity (pos 0) ≡ false) × (ltb_ℤ (pos 0) (s.quantity *ℤ signed_fill N f) ≡ false)
  unfolding opens
  not_opens f s h = or-eq-false _ _ h

  pub opened_contracts :
      (f : FillEvent N) (s : PositionState N)
      → opens N f s ≡ true
      → abs (s.quantity +ℤ signed_fill N f) ≡ abs s.quantity + abs (signed_fill N f)
  opened_contracts f s h = elim (opens_cases f s h) [
    | inl flat ↦ omega (
      arith,
      ap (λ (q : ℤ). abs (q +ℤ signed_fill N f)) (eqb_ℤ-eq s.quantity (pos 0) flat),
      ap (λ (q : ℤ). abs q) (zero_+ℤ (signed_fill N f)),
      ap (λ (q : ℤ). abs q) (eqb_ℤ-eq s.quantity (pos 0) flat),
    )
    | inr same ↦ same_sign_add s.quantity (signed_fill N f) same
  ]

  closed_contracts :
      (f : FillEvent N) (s : PositionState N)
      → opens N f s ≡ false
      → eqb_ℤ (signed_fill N f) (pos 0) ≡ false
      → abs (s.quantity +ℤ signed_fill N f) + (closing_quantity N f s + closing_quantity N f s)
        ≡ abs s.quantity + abs (signed_fill N f)
  unfolding closing_quantity
  closed_contracts f s h nz =
      let other =
        other_sign_add s.quantity (signed_fill N f) ((not_opens f s h).0) nz
          ((not_opens f s h).1) in
      elim (Bool-cases (leb (abs s.quantity) (abs (signed_fill N f)))) [
        | inl le ↦ rw le (omega (arith, other.0 (leb→le _ _ le)))
        | inr gt ↦ rw gt (omega (arith, other.1 (leb-eq-false _ _ gt)))
      ]

  contracts-traded :
      (m : N.float) (owner : String) (f : FillEvent N) (s : PositionState N)
      → contracts (traded N m owner f s)
        ≡ (if opens N f (entered N f s) then 0 else closing_quantity N f (entered N f s))
  unfolding traded
  contracts-traded m owner f s = elim (Bool-cases (opens N f (entered N f s))) [
    | inl o ↦ rw o
    | inr c ↦ rw c (omega arith)
  ]

  pub fill_nonzero :
      (f : FillEvent N) → ltb_ℤ (pos 0) f.quantity ≡ true → eqb_ℤ (signed_fill N f) (pos 0) ≡ false
  unfolding signed_fill
  fill_nonzero f h = ground arith

  -- The same account after `entered`, which leaves the quantity alone.
  entered_contracts :
      (f : FillEvent N) (t : PositionState N)
      → ltb_ℤ (pos 0) f.quantity ≡ true
      → (let c : ℕ = (if opens N f t then 0 else closing_quantity N f t) in
          abs (t.quantity +ℤ signed_fill N f) + (c + c) ≡ abs t.quantity + abs (signed_fill N f))
  entered_contracts f t h = elim (Bool-cases (opens N f t)) [
    | inl o ↦ rw o (omega (arith, opened_contracts f t o))
    | inr c ↦ rw c (closed_contracts f t c (fill_nonzero f h))
  ]

  -- Each contract of a fill of a positive number of contracts opens or closes one: the contracts held
  -- afterwards, and twice those of the trade, are those held before and those of the fill.
  pub fill_contracts :
      (m : N.float) (owner : String) (f : FillEvent N) (s : PositionState N)
      → ltb_ℤ (pos 0) f.quantity ≡ true
      → abs (filled N m f s).quantity
          + (contracts (traded N m owner f s) + contracts (traded N m owner f s))
        ≡ abs s.quantity + abs f.quantity
  fill_contracts m owner f s h = omega (
    arith,
    ap (λ (q : ℤ). abs q) (filled_quantity N m f s),
    ap (λ (q : ℤ). abs (q +ℤ signed_fill N f)) (entered_quantity N f s),
    ap (λ (q : ℤ). abs q) (entered_quantity N f s),
    contracts-traded m owner f s,
    entered_contracts f (entered N f s) h,
    abs-signed_fill f,
  )
