-- ===== src/Order/Models.antt =====
-- tw_quant/broker/models.py: order requests and orders, with the checks of `__post_init__`.
-- Texts, also the sides and types, are texts as in the source. A price is a `float`, of which
-- the source only reads the comparison with 0; a finite one is an integer in a fixed unit.
use codex_tw_quant_trading_s.Base.{
  ℕ, String, Bool, true, false, not, ◌&&◌, ◌||◌, Option, none, some, List, [], ◌∷◌, any, ltb, ◌==◌,
  is_some, is_blank, has_text, str_length, str_eq, Result, Error, checks, raise_if, value_error,
  ◌>>◌, ok, raised, if◌then◌else◌,
}
use codex_tw_quant_trading_s.Base.Int.{ℤ, pos, leb_ℤ, ltb_ℤ, eqb_ℤ}

-- A `datetime`: its instant in microseconds, and whether it carries a time zone.
pub record Datetime : Type 0 where
  pub instant : ℕ
  pub is_aware : Bool

pub data ExecutionMode : Type 0 where
  paper live : ExecutionMode

pub data Status : Type 0 where
  created risk_approved submitting accepted partially_filled filled : Status
  cancel_pending cancelled rejected expired unknown : Status

-- A number for each member, to compare two members by `is`.
abbrev pub status_code : Status → ℕ
status_code created = 0
status_code risk_approved = 1
status_code submitting = 2
status_code accepted = 3
status_code partially_filled = 4
status_code filled = 5
status_code cancel_pending = 6
status_code cancelled = 7
status_code rejected = 8
status_code expired = 9
status_code unknown = 10

unfoldable pub status_eq : Status → Status → Bool
status_eq s t = status_code s == status_code t

abbrev pub is_terminal : Status → Bool
is_terminal filled = true
is_terminal cancelled = true
is_terminal rejected = true
is_terminal expired = true
is_terminal _ = false

-- `canonical_paper_status`, over `PAPER_STATUS_MAP`.
unfoldable pub canonical_paper_status : String → Result Status
canonical_paper_status s =
    if str_eq s "pending_risk"
    then ok created
    else if str_eq s "approved"
    then ok risk_approved
    else if str_eq s "rejected"
    then ok rejected
    else if str_eq s "filled"
    then ok filled
    else raised (value_error "unknown paper order status")

-- A price; `infinite b` is positive if `b` is true.
pub data Price : Type 0 where
  nan : Price
  infinite : Bool → Price
  finite : ℤ → Price

-- `price <= 0`: no comparison with nan holds.
abbrev pub at_most_zero : Price → Bool
at_most_zero nan = false
at_most_zero (infinite positive) = not positive
at_most_zero (finite p) = leb_ℤ p (pos 0)

-- `price == 0`
abbrev pub is_zero_price : Price → Bool
is_zero_price (finite p) = eqb_ℤ p (pos 0)
is_zero_price _ = false

pub record Request : Type 0 where
  pub client_order_id : String
  pub owner_id : String
  pub strategy_id : String
  pub strategy_version : ℤ
  pub symbol : String
  pub contract : String
  pub side : String
  pub quantity : ℤ
  pub mode : ExecutionMode
  pub order_type : String
  pub time_in_force : String
  pub limit_price : Option Price
  pub stop_price : Option Price
  pub reference_price : Option Price
  pub risk_stop_price : Option Price
  pub reduce_only : Bool
  pub purpose : String
  pub reason : String
  pub correlation_id : Option String
  pub causation_id : Option String
  pub source : String
  pub arm_id : Option String

abbrev pub one_of : String → List String → Bool
one_of s xs = any (str_eq s) xs

-- `bool(price)` of a price that may be missing: 0 is false, nan is true.
abbrev pub has_price : Option Price → Bool
has_price none = false
has_price (some p) = not (is_zero_price p)

-- `price is not None and price <= 0`
abbrev pub not_positive : Option Price → Bool
not_positive none = false
not_positive (some p) = at_most_zero p

-- The tests of `BrokerOrderRequest.__post_init__`, in order. The test that `mode` is an
-- `ExecutionMode` is its type.
abbrev pub request_checks : Request → List (Bool × Error)
request_checks r =
    (
      any is_blank (r.client_order_id ∷ r.owner_id ∷ r.strategy_id ∷ r.symbol ∷ r.contract ∷ []),
      value_error "order identifiers, owner, strategy, and contract are required",
    )
    ∷ (
      ltb 128 (str_length r.client_order_id),
      value_error "client_order_id cannot exceed 128 characters",
    )
    ∷ (
      ltb_ℤ r.strategy_version (pos 1) || ltb_ℤ r.quantity (pos 1),
      value_error "strategy_version and quantity must be positive",
    )
    ∷ (not (one_of r.side ("buy" ∷ "sell" ∷ [])), value_error "side must be buy or sell")
    ∷ (
      not (one_of r.order_type ("market" ∷ "limit" ∷ "stop" ∷ [])),
      value_error "unsupported order_type",
    )
    ∷ (
      not (one_of r.time_in_force ("rod" ∷ "ioc" ∷ "fok" ∷ [])),
      value_error "unsupported time_in_force",
    )
    ∷ (
      not (one_of r.purpose ("entry" ∷ "exit" ∷ "liquidation" ∷ [])),
      value_error "unsupported order purpose",
    )
    ∷ (is_blank r.reason, value_error "order reason is required")
    ∷ (is_blank r.source, value_error "order source is required")
    ∷ (
      str_eq r.source "manual_live_canary" && not (has_text r.arm_id),
      value_error "manual live canary orders require arm_id",
    )
    ∷ (
      r.reduce_only && str_eq r.purpose "entry",
      value_error "reduce_only orders cannot have entry purpose",
    )
    ∷ (
      str_eq r.order_type "limit" && not (has_price r.limit_price),
      value_error "limit orders require limit_price",
    )
    ∷ (
      str_eq r.order_type "stop" && not (has_price r.stop_price),
      value_error "stop orders require stop_price",
    )
    ∷ (
      any not_positive (r.limit_price ∷ r.stop_price ∷ r.reference_price ∷ r.risk_stop_price ∷ []),
      value_error "order prices must be positive",
    )
    ∷ []

-- `BrokerOrderRequest.__post_init__`
unfoldable pub check_request : Request → Result (Unit {0})
check_request r = checks (request_checks r)

-- `BrokerOrder`
pub record Order : Type 0 where
  pub request : Request
  pub status : Status
  pub updated_at : Datetime
  pub broker_order_id : Option String
  pub filled_quantity : ℤ
  pub average_fill_price : Option Price
  pub status_reason : Option String

-- `BrokerOrder(...)`: the order, if `__post_init__` passes it.
unfoldable pub make_order : Order → Result Order
make_order o = do
  raise_if (not o.updated_at.is_aware) (value_error "updated_at must be timezone-aware")
  raise_if (not (leb_ℤ (pos 0) o.filled_quantity && leb_ℤ o.filled_quantity o.request.quantity))
      (value_error "filled_quantity must be within requested quantity")
  raise_if (not_positive o.average_fill_price) (value_error "average_fill_price must be positive")
  raise_if (not (eqb_ℤ o.filled_quantity (pos 0)) && not (is_some o.average_fill_price))
      (value_error "filled orders require average_fill_price")
  raise_if (status_eq o.status filled && not (eqb_ℤ o.filled_quantity o.request.quantity))
      (value_error "filled status requires the full requested quantity")
  ok o
