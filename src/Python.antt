-- ===== src/Python.antt =====
-- What the modelled code uses of Python and its library beyond integers and texts: floating-point
-- numbers, and functions into texts. The models take them as a parameter.
use codex_tw_quant_trading_s.Base.{String, Bool, Result, if◌then◌else◌}
use codex_tw_quant_trading_s.Base.Int.{ℤ}
use codex_tw_quant_trading_s.Order.{Datetime}

-- `taipei_date` is the date, as the number of its day, that a datetime has in Taipei.
-- `seconds` is `total_seconds()` of a difference in microseconds, `rounded` is `round`, which
-- may raise, `ceil` is `math.ceil` of a finite number, `object` the type of the values that the code
-- only passes on.
pub record Python : Type 1 where
  pub float : Type 0
  pub add : float → float → float
  pub sub : float → float → float
  pub mul : float → float → float
  pub div : float → float → float
  pub negate : float → float
  pub magnitude : float → float
  pub of_int : ℤ → float
  pub rounded : float → Result ℤ
  pub ceil : float → ℤ
  pub seconds : ℤ → float
  pub is_le : float → float → Bool
  pub is_lt : float → float → Bool
  pub object : Type 0
  pub str_int : ℤ → String
  pub isoformat : Datetime → String
  pub sha256 : String → String
  pub str_float : float → String
  pub taipei_date : Datetime → ℤ

module _ (N : Python) where
  -- `max(a, b)` and `min(a, b)`: the first, unless the second is strictly beyond it.
  abbrev pub greater : N.float → N.float → N.float
  greater a b = if N.is_lt a b then b else a

  abbrev pub lesser : N.float → N.float → N.float
  lesser a b = if N.is_lt b a then b else a
