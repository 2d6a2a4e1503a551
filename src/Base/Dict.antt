-- ===== src/Base/Dict.antt =====
-- Python's `dict` keyed by text: its items, in the order in which the keys were first set.
use Prim.Native.String.{String}
use mathlib.Core.Path.{◌≡◌, refl, subst}
use mathlib.Core.Logic.{inl, inr}
use mathlib.Core.Option.{Option, none, some}
use mathlib.Core.List.{List, [], ◌∷◌}
use native.Mathlib.Omega.{arith}
use codex_tw_quant_trading_s.Base.Tests.{if◌then◌else◌, Bool-cases, some-injective}
use codex_tw_quant_trading_s.Base.Lists.{All}
use codex_tw_quant_trading_s.Base.Text.{str_eq, str_eq_iff}

abbrev pub Dict {ℓ} : Type ℓ → Type ℓ
Dict V = List (String × V)

module _ {ℓ} {V : Type ℓ} where
  -- `d.get(k)`
  unfoldable pub lookup : String → Dict V → Option V
  lookup k [] = none
  lookup k ((j, v) ∷ d) = if str_eq j k then some v else lookup k d

  -- `d[k] = v`
  unfoldable pub put : String → V → Dict V → Dict V
  put k v [] = (k, v) ∷ []
  put k v ((j, w) ∷ d) = if str_eq j k then (j, v) ∷ d else (j, w) ∷ put k v d

  pub lookup-put :
      (j k : String) (v : V) (d : Dict V)
      → lookup j (put k v d) ≡ (if str_eq k j then some v else lookup j d)
  unfolding lookup put
  lookup-put j k v [] = refl
  lookup-put j k v ((i, w) ∷ d) =
      ground (arith, str_eq_iff k j, str_eq_iff i k, str_eq_iff i j, lookup-put j k v d)

  pub lookup-All {κ} :
      (P : String → V → Type κ) (k : String) (v : V) (d : Dict V)
      → All (λ e. P e.0 e.1) d
      → lookup k d ≡ some v
      → P k v
  unfolding lookup
  lookup-All P k v [] h e = absurd (cc)
  lookup-All P k v ((j, w) ∷ d) h e = elim (Bool-cases (str_eq j k)) [
    | inl q ↦
        subst (λ x. P x v) ((str_eq_iff j k).0 q) (subst (P j) (some-injective (rw q at e)) h.0)
    | inr q ↦ lookup-All P k v d h.1 (rw q at e)
  ]
