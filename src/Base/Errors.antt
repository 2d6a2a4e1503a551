-- ===== src/Base/Errors.antt =====
-- Python's exceptions as values.
use Prim.Native.String.{String}
use mathlib.Core.Path.{◌≡◌, refl}
use mathlib.Core.Bool.{Bool, true, false}
use mathlib.Core.List.{List, [], ◌∷◌}
use codex_tw_quant_trading_s.Base.Lists.{All}

pub data Error : Type 0 where
  value_error type_error runtime_error key_error overflow_error invalid_transition integrity_error
        operational_error :
      String → Error
  assertion_error : Error

pub data Result {ℓ} (A : Type ℓ) : Type ℓ where
  ok : A → Result A
  raised : Error → Result A

module _ {i j} {X : Type i} {Y : Type j} where
  infixl 5 ◌>>=◌
  -- Statements after one that may raise.
  abbrev pub ◌>>=◌ : Result X → (X → Result Y) → Result Y
  raised error >>= next = raised error
  ok x >>= next = next x

  -- If the whole returns, so does the first part, and the rest returns on its result.
  pub >>=-eq-ok :
      (first : Result X) (next : X → Result Y) {y : Y}
      → (first >>= next) ≡ ok y
      → (x : X) × (first ≡ ok x) × (next x ≡ ok y)
  >>=-eq-ok (raised error) next returns = absurd (cc)
  >>=-eq-ok (ok x) next returns = (x, refl, returns)

infixl 5 ◌>>◌
abbrev pub ◌>>◌ {i} : {Y : Type i} → Result (Unit {0}) → Result Y → Result Y
test >> rest = test >>= λ _. rest

-- `if test: raise error`
abbrev pub raise_if : Bool → Error → Result (Unit {0})
raise_if true e = raised e
raise_if false e = ok tt

pub raise_if-ok : (b : Bool) (e : Error) → raise_if b e ≡ ok tt → b ≡ false
raise_if-ok true e h = cc
raise_if-ok false e h = refl

-- A sequence of tests `if test: raise error`, in order.
abbrev pub checks : List (Bool × Error) → Result (Unit {0})
checks [] = ok tt
checks ((b, e) ∷ cs) = raise_if b e >> checks cs

-- A sequence of tests that returns found each of them false.
pub checks-ok : (cs : List (Bool × Error)) → checks cs ≡ ok tt → All (λ c. c.0 ≡ false) cs
checks-ok [] h = tt
checks-ok ((true, e) ∷ cs) h = absurd (cc)
checks-ok ((false, e) ∷ cs) h = (refl, checks-ok cs h)

pub ok-injective {ℓ} : {A : Type ℓ} {a b : A} → ok a ≡ ok b → a ≡ b
ok-injective h = cc

pub ok_second :
    {A B : Type 0} (a b : A) (s t : B) → ◌≡◌ {A = Result (A × B)} (ok (a, s)) (ok (b, t)) → s ≡ t
ok_second a b s t h = cc

pub ok_first :
    {A B : Type 0} (a b : A) (s t : B) → ◌≡◌ {A = Result (A × B)} (ok (a, s)) (ok (b, t)) → a ≡ b
ok_first a b s t h = cc
