-- ===== src/Base/Text.antt =====
-- Python texts as native strings: equality, `strip()` against the empty text, `len`.
use Prim.Native.Nat.{ℕ, suc}
use Prim.Native.Char.{code}
use Prim.Native.String.{String}
use mathlib.Core.Bool.{Bool, true, false, not, ◌&&◌, ◌||◌}
use mathlib.Core.Option.{Option, none, some}
use codex_tw_quant_trading_s.Base.Tests.{ltb, ◌==◌, leb}
use mathlib.Core.List.{List, [], ◌∷◌}
pub use Prim.Native.String.{◌++◌ as concat}
pub use text.Mathlib.Text.{◌==◌ as str_eq}
pub use text.Mathlib.TextEquality.{eq_iff as str_eq_iff}
pub use text.Mathlib.TextPositions.{eq_refl as str_eq_refl}

-- `str.isspace` of one character, by code point.
is_space : ℕ → Bool
is_space c =
    (leb 9 c && leb c 13)
    || (leb 28 c && leb c 32)
    || c == 0x85
    || c == 0xa0
    || c == 0x1680
    || (leb 0x2000 c && leb c 0x200a)
    || c == 0x2028
    || c == 0x2029
    || c == 0x202f
    || c == 0x205f
    || c == 0x3000

-- `not value.strip()`
unfoldable pub is_blank : String → Bool
unfolding is_space
is_blank String.[] = true
is_blank (String.◌∷◌ c s) = is_space (code c) && is_blank s

-- `len(value)`
unfoldable pub str_length : String → ℕ
str_length String.[] = 0
str_length (String.◌∷◌ _ s) = suc (str_length s)

-- `bool(value)` of a text, and of one that may be missing.
abbrev pub is_empty : String → Bool
is_empty s = str_eq s ""

abbrev pub has_text : Option String → Bool
has_text none = false
has_text (some s) = not (is_empty s)

-- Equality of two values that may be missing.
abbrev pub opt_str_eq : Option String → Option String → Bool
opt_str_eq none none = true
opt_str_eq (some a) (some b) = str_eq a b
opt_str_eq _ _ = false

-- `str` order, by code points.
unfoldable pub str_leb : String → String → Bool
str_leb String.[] t = true
str_leb (String.◌∷◌ c s) String.[] = false
str_leb (String.◌∷◌ c s) (String.◌∷◌ d t) =
    ltb (code c) (code d) || (code c == code d && str_leb s t)

-- `sep.join(parts)`
unfoldable pub join : String → List String → String
join sep [] = ""
join sep (s ∷ []) = s
join sep (s ∷ t ∷ ts) = concat (concat s sep) (join sep (t ∷ ts))
