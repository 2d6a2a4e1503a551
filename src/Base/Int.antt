-- ===== src/Base/Int.antt =====
-- Python's integers over the native numbers.
use Prim.Native.Nat.{ℕ, zero, suc, ◌+◌, ◌-◌, ◌*◌, ◌≤◌}
use mathlib.Core.Path.{◌≡◌}
use mathlib.Core.Bool.{Bool, true, false}
use native.Mathlib.Omega.{arith}
use codex_tw_quant_trading_s.Base.Tests.{ltb, leb, ◌==◌, if◌then◌else◌}

-- `negsuc n` is -(n + 1).
pub data ℤ : Type 0 where
  pos : ℕ → ℤ
  negsuc : ℕ → ℤ

abbrev pub pos_part : ℤ → ℕ
pos_part (pos n) = n
pos_part (negsuc n) = 0

abbrev pub neg_part : ℤ → ℕ
neg_part (pos n) = 0
neg_part (negsuc n) = suc n

-- a - b, as an integer.
abbrev pub sub_ℕ : ℕ → ℕ → ℤ
sub_ℕ a b = if leb b a then pos (a - b) else negsuc (b - a - 1)

-- `-a`
abbrev pub neg : ℤ → ℤ
neg a = sub_ℕ (neg_part a) (pos_part a)

-- `abs(a)`
abbrev pub abs : ℤ → ℕ
abs a = pos_part a + neg_part a

infixl 65 ◌+ℤ◌
unfoldable pub ◌+ℤ◌ : ℤ → ℤ → ℤ
a +ℤ b = sub_ℕ (pos_part a + pos_part b) (neg_part a + neg_part b)

infixl 70 ◌*ℤ◌
unfoldable pub ◌*ℤ◌ : ℤ → ℤ → ℤ
pos a *ℤ pos b = pos (a * b)
pos a *ℤ negsuc b = neg (pos (a * suc b))
negsuc a *ℤ pos b = neg (pos (suc a * b))
negsuc a *ℤ negsuc b = pos (suc a * suc b)

infix 50 ◌≤ℤ◌
abbrev pub ◌≤ℤ◌ : ℤ → ℤ → Type 0
a ≤ℤ b = pos_part a + neg_part b ≤ pos_part b + neg_part a

abbrev pub leb_ℤ : ℤ → ℤ → Bool
leb_ℤ a b = leb (pos_part a + neg_part b) (pos_part b + neg_part a)

abbrev pub ltb_ℤ : ℤ → ℤ → Bool
ltb_ℤ a b = ltb (pos_part a + neg_part b) (pos_part b + neg_part a)

abbrev pub eqb_ℤ : ℤ → ℤ → Bool
eqb_ℤ a b = pos_part a + neg_part b == pos_part b + neg_part a

-- One lemma for each operation lets the arithmetic work with the operations shut.
pub +ℤ_parts :
    (a b : ℤ)
    → pos_part (a +ℤ b) + neg_part a + neg_part b ≡ neg_part (a +ℤ b) + pos_part a + pos_part b
unfolding ◌+ℤ◌
+ℤ_parts a b = ground arith

pub eq_of_parts : (a b : ℤ) → pos_part a + neg_part b ≡ pos_part b + neg_part a → a ≡ b
eq_of_parts a b h = ground arith

pub ruleset int_laws = (arith, +ℤ_parts, eq_of_parts)

pub eqb_ℤ-eq : (a b : ℤ) → eqb_ℤ a b ≡ true → a ≡ b
eqb_ℤ-eq a b h = ground arith

pub eqb_ℤ_refl : (a : ℤ) → eqb_ℤ a a ≡ true
eqb_ℤ_refl a = ground arith

-- A positive product is one of equal signs, which add up to a number other than zero.
pub same_sign_add : (a b : ℤ) → ltb_ℤ (pos 0) (a *ℤ b) ≡ true → abs (a +ℤ b) ≡ abs a + abs b
unfolding ◌*ℤ◌ ◌+ℤ◌
same_sign_add (pos zero) (pos b) h = absurd (ground arith)
same_sign_add (pos (suc a)) (pos b) h = ground arith
same_sign_add (pos a) (negsuc b) h = absurd (grind arith)
same_sign_add (negsuc a) (pos b) h = absurd (grind arith)
same_sign_add (negsuc a) (negsuc b) h = ground arith

-- Numbers other than zero with a product that is not positive have opposite signs.
pub other_sign_add :
    (a b : ℤ)
    → eqb_ℤ a (pos 0) ≡ false
    → eqb_ℤ b (pos 0) ≡ false
    → ltb_ℤ (pos 0) (a *ℤ b) ≡ false
    → (abs a ≤ abs b → abs (a +ℤ b) + abs a ≡ abs b)
      × (abs b ≤ abs a → abs (a +ℤ b) + abs b ≡ abs a)
unfolding ◌*ℤ◌ ◌+ℤ◌
other_sign_add (pos zero) (pos b) ha hb h = absurd (ground arith)
other_sign_add (pos (suc a)) (pos zero) ha hb h = absurd (ground arith)
other_sign_add (pos (suc a)) (pos (suc b)) ha hb h = absurd (grind arith)
other_sign_add (pos a) (negsuc b) ha hb h = (λ k. ground arith, λ k. ground arith)
other_sign_add (negsuc a) (pos b) ha hb h = (λ k. ground arith, λ k. ground arith)
other_sign_add (negsuc a) (negsuc b) ha hb h = absurd (grind arith)

pub +ℤ_assoc : (a b c : ℤ) → (a +ℤ b) +ℤ c ≡ a +ℤ (b +ℤ c)
+ℤ_assoc a b c = omega int_laws

pub +ℤ_comm : (a b : ℤ) → a +ℤ b ≡ b +ℤ a
+ℤ_comm a b = omega int_laws

pub +ℤ_zero : (a : ℤ) → a +ℤ pos 0 ≡ a
+ℤ_zero a = omega int_laws

pub zero_+ℤ : (a : ℤ) → pos 0 +ℤ a ≡ a
zero_+ℤ a = omega int_laws
