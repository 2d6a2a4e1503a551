-- ===== src/Base/Pairs.antt =====
-- Pairs of texts as keys of dictionaries.
use Prim.Native.String.{String}
use mathlib.Core.Path.{◌≡◌, subst}
use mathlib.Core.Logic.{◌↔◌}
use mathlib.Core.Bool.{Bool, true, ◌&&◌}
use native.Mathlib.Omega.{arith}
use codex_tw_quant_trading_s.Base.Text.{str_eq, str_eq_iff}
use codex_tw_quant_trading_s.Base.Assoc.{Key}

abbrev pub TextPair : Type 0
TextPair = String × String

abbrev pub same_pair : TextPair → TextPair → Bool
same_pair a b = str_eq a.0 b.0 && str_eq a.1 b.1

pub same_pair_iff : (a b : TextPair) → (same_pair a b ≡ true) ↔ (a ≡ b)
same_pair_iff a b = (
  λ h. ground (arith, str_eq_iff a.0 b.0, str_eq_iff a.1 b.1),
  λ h.
      subst (λ (c : TextPair). same_pair a c ≡ true) h
        (ground (arith, str_eq_iff a.0 a.0, str_eq_iff a.1 a.1)),
)

instance abbrev pub text_pair_key : Key TextPair
text_pair_key = record { same = same_pair; same_iff = same_pair_iff }
