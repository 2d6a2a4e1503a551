-- ===== src/Outbox/Listing.antt =====
-- tw_quant/broker/repository.py: `orders` and `reconciliation_candidates`. The times that a table
-- holds are in one time zone, so their order as texts is that of the instants.
use codex_tw_quant_trading_s.Base.{
  String, Bool, true, false, ◌&&◌, ◌||◌, Option, none, some, List, [], ◌∷◌, filter, Result, ok,
  ◌>>=◌, str_eq, str_leb, if◌then◌else◌, ltb, ◌==◌,
}
use codex_tw_quant_trading_s.Order.{
  Status, submitting, accepted, partially_filled, cancel_pending, unknown, Order,
}
use codex_tw_quant_trading_s.Outbox.Store.{AccountRef, OrderRow, Store, at_target, row_order}

-- `ORDER BY updated_at, client_order_id`
abbrev pub row_leb : OrderRow → OrderRow → Bool
row_leb r q =
    ltb r.updated_at.instant q.updated_at.instant
    || (r.updated_at.instant == q.updated_at.instant && str_leb r.client_order_id q.client_order_id)

unfoldable pub insert_row : OrderRow → List OrderRow → List OrderRow
insert_row r [] = r ∷ []
insert_row r (q ∷ qs) = let rest = insert_row r qs in if row_leb r q then r ∷ q ∷ qs else q ∷ rest

unfoldable pub sort_rows : List OrderRow → List OrderRow
sort_rows [] = []
sort_rows (r ∷ rs) = insert_row r (sort_rows rs)

-- `[self._order(row) for row in rows]`
unfoldable pub read_rows : List OrderRow → Result (List Order)
read_rows [] = ok []
read_rows (r ∷ rs) = row_order r >>= λ o. read_rows rs >>= λ os. ok (o ∷ os)

-- A clause of a query that is there only if its parameter is given.
abbrev pub is_owned : Option String → OrderRow → Bool
is_owned none r = true
is_owned (some owner) r = str_eq r.owner_user_id owner

abbrev pub is_routed_to : Option AccountRef → OrderRow → Bool
is_routed_to none r = true
is_routed_to (some t) r = at_target t r.broker_name r.account_id

-- `orders`
unfoldable pub orders_of : Option String → Option AccountRef → Store → Result (List Order)
orders_of owner t s =
    read_rows (sort_rows (filter (λ r. is_owned owner r && is_routed_to t r) s.orders))

abbrev pub may_be_open : Status → Bool
may_be_open submitting = true
may_be_open accepted = true
may_be_open partially_filled = true
may_be_open cancel_pending = true
may_be_open unknown = true
may_be_open _ = false

abbrev pub is_candidate : AccountRef → Option String → OrderRow → Bool
is_candidate t owner r =
    may_be_open r.status && at_target t r.broker_name r.account_id && is_owned owner r

-- `reconciliation_candidates`
unfoldable pub reconciliation_candidates : AccountRef → Option String → Store → Result (List Order)
reconciliation_candidates t owner s = read_rows (sort_rows (filter (is_candidate t owner) s.orders))
