-- ===== src/Base/Assoc.antt =====
-- Python's `dict` with keys of any type that has an equality: items in the order of first insertion.
use mathlib.Core.Path.{◌≡◌, refl, ap}
use mathlib.Core.Logic.{◌↔◌, inl, inr}
use mathlib.Core.Bool.{Bool, true}
use mathlib.Core.Option.{Option, none, some}
use mathlib.Core.List.{List, [], ◌∷◌, ◌++◌}
use native.Mathlib.Omega.{arith}
use codex_tw_quant_trading_s.Base.Tests.{if◌then◌else◌, if_false, Bool-cases}

-- An equality test that is right.
pub record Key {ℓ} (K : Type ℓ) : Type ℓ where
  pub same : K → K → Bool
  pub same_iff : (a b : K) → (same a b ≡ true) ↔ (a ≡ b)

module _ {ℓ κ} {K : Type ℓ} {V : Type κ} ⦃e : Key K⦄ where
  -- `d.get(k)`
  unfoldable pub get_item : K → List (K × V) → Option V
  get_item k [] = none
  get_item k ((j, v) ∷ d) = if e.same j k then some v else get_item k d

  -- `d[k] = v`
  unfoldable pub set_item : K → V → List (K × V) → List (K × V)
  set_item k v [] = (k, v) ∷ []
  set_item k v ((j, w) ∷ d) = if e.same j k then (j, v) ∷ d else (j, w) ∷ set_item k v d

  -- `d.pop(k, None)`, without its result
  unfoldable pub del_item : K → List (K × V) → List (K × V)
  del_item k [] = []
  del_item k ((j, w) ∷ d) = if e.same j k then d else (j, w) ∷ del_item k d

  pub get_item-set_item :
      (j k : K) (v : V) (d : List (K × V))
      → get_item j (set_item k v d) ≡ (if e.same k j then some v else get_item j d)
  unfolding get_item set_item
  get_item-set_item j k v [] = refl
  get_item-set_item j k v ((i, w) ∷ d) =
      ground (arith, e.same_iff k j, e.same_iff i k, e.same_iff i j, get_item-set_item j k v d)

  pub get_item-del_item :
      (j k : K) (d : List (K × V)) → get_item j d ≡ none → get_item j (del_item k d) ≡ none
  unfolding get_item del_item
  get_item-del_item j k [] h = refl
  get_item-del_item j k ((i, w) ∷ d) h = ground (arith, get_item-del_item j k d)

  -- A key that is not there goes to the end.
  pub set_item-new :
      (k : K) (v : V) (d : List (K × V)) → get_item k d ≡ none → set_item k v d ≡ d ++ (k, v) ∷ []
  unfolding get_item set_item
  set_item-new k v [] h = refl
  set_item-new k v ((j, w) ∷ d) h = elim (Bool-cases (e.same j k)) [
    | inl here ↦ absurd (ground arith)
    | inr away ↦
        rw (if_false _ _ _ away)
          (ap (λ (t : List (K × V)). (j, w) ∷ t) (set_item-new k v d (ground arith)))
  ]

pub same_self {ℓ} : {K : Type ℓ} ⦃e : Key K⦄ (k : K) → e.same k k ≡ true
same_self ⦃e⦄ k = (e.same_iff k k).1 refl
