-- ===== src/Base/Tables.antt =====
-- Tables as lists of rows: what `update_where` and `find` keep.
use codex_tw_quant_trading_s.Base.Tests.{Bool-cases}
use codex_tw_quant_trading_s.Base.Lists.{any, filter, find, update_where, All}
use mathlib.Core.Path.{◌≡◌, refl}
use mathlib.Core.Logic.{inl, inr}
use mathlib.Core.Bool.{Bool, true, false}
use mathlib.Core.Option.{some}
use mathlib.Core.List.{List, [], ◌∷◌}
use native.Mathlib.Omega.{arith}

module _ {ℓ κ} {A : Type ℓ} (P : A → Type κ) where
  pub All-update_where :
      (p : A → Bool) (f : A → A) (xs : List A)
      → ((x : A) → p x ≡ true → P x → P (f x))
      → All P xs
      → All P (update_where p f xs)
  All-update_where p f [] k h = tt
  All-update_where p f (x ∷ xs) k h = elim (Bool-cases (p x)) [
    | inl t ↦ rw t (k x t h.0, All-update_where p f xs k h.1)
    | inr n ↦ rw n (h.0, All-update_where p f xs k h.1)
  ]

  -- Where each change leads into the predicate whatever held before.
  pub All-update_where_new :
      (p : A → Bool) (f : A → A) (xs : List A)
      → ((x : A) → p x ≡ true → P (f x))
      → ((x : A) → p x ≡ false → P x)
      → All P (update_where p f xs)
  All-update_where_new p f [] k n = tt
  All-update_where_new p f (x ∷ xs) k n = elim (Bool-cases (p x)) [
    | inl t ↦ rw t (k x t, All-update_where_new p f xs k n)
    | inr e ↦ rw e (n x e, All-update_where_new p f xs k n)
  ]

  pub All-filter : (p : A → Bool) (xs : List A) → All P xs → All P (filter p xs)
  All-filter p [] h = tt
  All-filter p (x ∷ xs) h = elim (Bool-cases (p x)) [
    | inl t ↦ rw t (h.0, All-filter p xs h.1)
    | inr e ↦ rw e (All-filter p xs h.1)
  ]

module _ {ℓ} {A : Type ℓ} where
  -- A test that the change does not touch finds the same rows.
  pub any-update_where :
      (q p : A → Bool) (f : A → A) (xs : List A)
      → ((x : A) → q (f x) ≡ q x)
      → any q (update_where p f xs) ≡ any q xs
  any-update_where q p f [] k = refl
  any-update_where q p f (x ∷ xs) k = elim (Bool-cases (p x)) [
    | inl t ↦ rw (t, k x, any-update_where q p f xs k)
    | inr e ↦ rw (e, any-update_where q p f xs k)
  ]

  pub find-test : (p : A → Bool) (xs : List A) {a : A} → find p xs ≡ some a → p a ≡ true
  find-test p [] h = cc
  find-test p (x ∷ xs) h = elim (Bool-cases (p x)) [
    | inl t ↦ ground arith
    | inr e ↦ find-test p xs (ground arith)
  ]

  pub All-filter_test : (p : A → Bool) (xs : List A) → All (λ x. p x ≡ true) (filter p xs)
  All-filter_test p [] = tt
  All-filter_test p (x ∷ xs) = elim (Bool-cases (p x)) [
    | inl t ↦ rw t (t, All-filter_test p xs)
    | inr e ↦ rw e (All-filter_test p xs)
  ]
