-- ===== src/Execution/Ledger.antt =====
-- tw_quant/execution/position_ledger.py: `PositionLedger`. A change to a state object shows in the
-- dictionary at once, so a handler returns the ledger also where it raises. A `FillEvent` is built with
-- its checks: its quantity, by which the code divides, is positive.
use codex_tw_quant_trading_s.Base.{
  String, Bool, not, ◌&&◌, ◌||◌, ◌+◌, ◌-◌, ℕ, Option, none, some, List, [], ◌∷◌, ◌++◌, Result, ok,
  raised, ◌>>=◌, ◌>>◌, any, filter, map, raise_if, value_error, type_error, is_empty, if◌then◌else◌,
  str_eq, join, leb, concat,
}
use codex_tw_quant_trading_s.Base.Assoc.{get_item, set_item}
use codex_tw_quant_trading_s.Base.Int.{ℤ, pos, neg, abs, ◌+ℤ◌, ◌*ℤ◌, ltb_ℤ, eqb_ℤ}
use codex_tw_quant_trading_s.Order.{Datetime}
use codex_tw_quant_trading_s.Python.{Python}
use codex_tw_quant_trading_s.Events.{
  Metadata, create_metadata, zero_float, FillEvent, PositionEvent, check_position, BarClosedEvent,
  DomainEvent, fill, bar_closed, meta_of, kind_of,
}
use codex_tw_quant_trading_s.Execution.Positions.{
  PositionKey, PositionState, flat_state, RealizedTrade, Ledger, position_key,
}

module _ (N : Python) where
  -- `PositionLedger.__init__`
  unfoldable pub new_ledger : N.float → Result (Ledger N)
  new_ledger multiplier =
      raise_if (N.is_le multiplier (zero_float N)) (value_error "multiplier must be positive")
      >> ok (record { multiplier = multiplier; positions = []; seen_fills = []; trades = [] })

  -- `_owner`
  unfoldable pub owner_of : DomainEvent N → Result String
  owner_of e = elim ((meta_of N e).owner_id) [
    | none ↦ raised (value_error (concat (kind_of N e) " execution event requires owner_id"))
    | some o ↦
        raise_if (is_empty o)
          (value_error (concat (kind_of N e) " execution event requires owner_id"))
        >> ok o
  ]

  -- `state`
  abbrev pub state : PositionKey → Ledger N → Option (PositionState N)
  state k l = get_item k l.positions

  -- `open_positions`
  unfoldable pub open_positions : Ledger N → List (PositionState N)
  open_positions l =
      filter (λ (s : PositionState N). not (eqb_ℤ s.quantity (pos 0)))
        (map (λ (e : PositionKey × PositionState N). e.1) l.positions)

  abbrev pub whole_number : ℕ → N.float
  whole_number n = N.of_int (pos n)

  abbrev pub direction_of : ℤ → N.float
  direction_of q = N.of_int (if ltb_ℤ (pos 0) q then pos 1 else neg (pos 1))

  -- `_unrealized`
  unfoldable pub unrealized : N.float → PositionState N → N.float → N.float
  unrealized multiplier s mark =
      let gross =
        N.mul
          (N.mul (N.mul (N.sub mark s.average_price) (direction_of s.quantity))
            (whole_number (abs s.quantity)))
          multiplier in
      if eqb_ℤ s.quantity (pos 0)
      then zero_float N
      else N.sub (N.sub gross s.entry_commission) s.entry_tax

  -- The `PositionEvent` that `_event` builds around its metadata.
  abbrev pub position_event : N.float → PositionState N → N.float → Metadata → PositionEvent N
  position_event multiplier s mark m = record {
    meta = m;
    strategy_id = s.key.strategy_id;
    strategy_version = s.key.strategy_version;
    symbol = s.key.symbol;
    contract = s.key.contract;
    quantity = s.quantity;
    average_price = s.average_price;
    realized_pnl = s.realized_pnl;
    unrealized_pnl = unrealized multiplier s mark;
    total_cost = s.total_cost;
    order_source = s.order_source;
    runtime_id = s.runtime_id;
    decision_id = s.decision_id;
    entry_fill_price = s.entry_fill_price;
    stop_loss_price = s.stop_loss_price;
    take_profit_price = s.take_profit_price;
    strategy_snapshot = s.strategy_snapshot;
  }

  -- `_event`
  unfoldable pub report :
      N.float → DomainEvent N → N.float → PositionState N → Result (PositionEvent N)
  report multiplier cause mark s = do
    m ← create_metadata N (record {
      kind = "position";
      occurred_at = (meta_of N cause).occurred_at;
      source = "position_ledger";
      source_key = join ":" (
          (meta_of N cause).event_id
          ∷ s.key.owner_id
          ∷ s.key.strategy_id
          ∷ N.str_int s.key.strategy_version
          ∷ s.key.contract
          ∷ []);
      correlation_id = (meta_of N cause).correlation_id;
      causation_id = some ((meta_of N cause).event_id);
      owner_id = some s.key.owner_id;
    })
    check_position N (position_event multiplier s mark m)
    ok (position_event multiplier s mark m)

  unfoldable pub signed_fill : FillEvent N → ℤ
  signed_fill f = if str_eq f.side "buy" then f.quantity else neg f.quantity

  -- `setdefault`
  abbrev pub state_or_flat : PositionKey → Option (PositionState N) → PositionState N
  state_or_flat k none = flat_state N k
  state_or_flat k (some s) = s

  -- What a fill on a flat position writes down, and the fill's cost.
  unfoldable pub entered : FillEvent N → PositionState N → PositionState N
  entered f s =
      let t : PositionState N =
        (if eqb_ℤ s.quantity (pos 0)
          then record s {
            order_source = f.order_source;
            runtime_id = f.runtime_id;
            decision_id = f.decision_id;
            entry_fill_price = some f.price;
            stop_loss_price = f.stop_loss_price;
            take_profit_price = f.take_profit_price;
            strategy_snapshot = f.strategy_snapshot;
          }
          else s) in
      record t { total_cost = N.add t.total_cost (N.add f.commission f.tax) }

  -- `old_quantity == 0 or old_quantity * signed_fill > 0`
  unfoldable pub opens : FillEvent N → PositionState N → Bool
  opens f s = eqb_ℤ s.quantity (pos 0) || ltb_ℤ (pos 0) (s.quantity *ℤ signed_fill f)

  -- The branch of a fill that opens or adds.
  unfoldable pub increased : FillEvent N → PositionState N → PositionState N
  increased f s = record s {
    average_price =
        N.div
          (N.add (N.mul s.average_price (whole_number (abs s.quantity)))
            (N.mul f.price (whole_number (abs (signed_fill f)))))
          (whole_number (abs s.quantity + abs (signed_fill f)));
    quantity = s.quantity +ℤ signed_fill f;
    entry_commission = N.add s.entry_commission f.commission;
    entry_tax = N.add s.entry_tax f.tax;
    opened_at = if eqb_ℤ s.quantity (pos 0) then some f.meta.occurred_at else s.opened_at;
  }

  -- `closing_quantity`
  unfoldable pub closing_quantity : FillEvent N → PositionState N → ℕ
  closing_quantity f s =
      if leb (abs s.quantity) (abs (signed_fill f)) then abs s.quantity else abs (signed_fill f)

  -- A part of a cost, in the ratio of two numbers of contracts.
  abbrev pub share : N.float → ℕ → ℕ → N.float
  share cost part of_all = N.mul cost (N.div (whole_number part) (whole_number of_all))

  abbrev pub entry_share : FillEvent N → PositionState N → N.float → N.float
  entry_share f s cost = share cost (closing_quantity f s) (abs s.quantity)

  abbrev pub closing_share : FillEvent N → PositionState N → N.float → N.float
  closing_share f s cost = share cost (closing_quantity f s) (abs (signed_fill f))

  abbrev pub trade_commission : FillEvent N → PositionState N → N.float
  trade_commission f s = N.add (entry_share f s s.entry_commission) (closing_share f s f.commission)

  abbrev pub trade_tax : FillEvent N → PositionState N → N.float
  trade_tax f s = N.add (entry_share f s s.entry_tax) (closing_share f s f.tax)

  abbrev pub gross_pnl : N.float → FillEvent N → PositionState N → N.float
  gross_pnl multiplier f s =
      N.mul
        (N.mul (N.mul (N.sub f.price s.average_price) (direction_of s.quantity))
          (whole_number (closing_quantity f s)))
        multiplier

  abbrev pub net_pnl : N.float → FillEvent N → PositionState N → N.float
  net_pnl multiplier f s =
      N.sub (N.sub (gross_pnl multiplier f s) (trade_commission f s)) (trade_tax f s)

  -- `state.opened_at or event.meta.occurred_at`
  abbrev pub time_or : Option Datetime → Datetime → Datetime
  time_or none t = t
  time_or (some u) t = u

  -- The trade that the branch of a closing fill appends.
  abbrev pub trade_of : N.float → String → FillEvent N → PositionState N → RealizedTrade N
  trade_of multiplier owner f s = record {
    owner_id = owner;
    strategy_id = f.strategy_id;
    strategy_version = f.strategy_version;
    symbol = f.symbol;
    contract = f.contract;
    direction = if ltb_ℤ (pos 0) s.quantity then "long" else "short";
    quantity = pos (closing_quantity f s);
    entry_time = time_or s.opened_at f.meta.occurred_at;
    exit_time = f.meta.occurred_at;
    entry_price = s.average_price;
    exit_price = f.price;
    gross_pnl = gross_pnl multiplier f s;
    commission = trade_commission f s;
    tax = trade_tax f s;
    total_cost = N.add (trade_commission f s) (trade_tax f s);
    net_pnl = net_pnl multiplier f s;
    exit_reason = f.reason;
    exit_order_id = f.order_id;
    trading_date = f.trading_date;
  }

  -- The branch of a fill that closes: the realized part, then what a flat and a turned position reset.
  abbrev pub partly_closed : N.float → FillEvent N → PositionState N → PositionState N
  partly_closed multiplier f s = record s {
    realized_pnl = N.add s.realized_pnl (net_pnl multiplier f s);
    entry_commission = N.sub s.entry_commission (entry_share f s s.entry_commission);
    entry_tax = N.sub s.entry_tax (entry_share f s s.entry_tax);
    quantity = s.quantity +ℤ signed_fill f;
  }

  abbrev pub flattened : PositionState N → PositionState N
  flattened s = record s {
    average_price = zero_float N;
    opened_at = none;
    entry_commission = zero_float N;
    entry_tax = zero_float N;
    entry_fill_price = none;
    stop_loss_price = none;
    take_profit_price = none;
    strategy_snapshot = none;
  }

  abbrev pub turned : FillEvent N → ℕ → PositionState N → PositionState N
  turned f closing s = record s {
    average_price = f.price;
    opened_at = some f.meta.occurred_at;
    entry_commission = share f.commission (abs (signed_fill f) - closing) (abs (signed_fill f));
    entry_tax = share f.tax (abs (signed_fill f) - closing) (abs (signed_fill f));
  }

  unfoldable pub reduced : N.float → FillEvent N → PositionState N → PositionState N
  reduced multiplier f s =
      let t = partly_closed multiplier f s in
      if eqb_ℤ t.quantity (pos 0)
      then flattened t
      else if ltb_ℤ (s.quantity *ℤ t.quantity) (pos 0)
      then turned f (closing_quantity f s) t
      else t

  -- The state that a fill leaves, and the trades that it appends.
  unfoldable pub filled : N.float → FillEvent N → PositionState N → PositionState N
  filled multiplier f s =
      let t = entered f s in if opens f t then increased f t else reduced multiplier f t

  unfoldable pub traded : N.float → String → FillEvent N → PositionState N → List (RealizedTrade N)
  traded multiplier owner f s =
      let t = entered f s in if opens f t then [] else trade_of multiplier owner f t ∷ []

  abbrev pub key_of : String → FillEvent N → PositionKey
  key_of owner f = record {
    owner_id = owner;
    strategy_id = f.strategy_id;
    strategy_version = f.strategy_version;
    symbol = f.symbol;
    contract = f.contract;
  }

  -- The ledger's position of a fill, before it.
  abbrev pub position_of : String → FillEvent N → Ledger N → PositionState N
  position_of owner f l = state_or_flat (key_of owner f) (state (key_of owner f) l)

  -- The part of `on_fill` after the owner is known, without its event.
  unfoldable pub book_fill : String → FillEvent N → Ledger N → Ledger N
  book_fill owner f l = record l {
    positions =
        set_item (key_of owner f) (filled l.multiplier f (position_of owner f l)) l.positions;
    trades = l.trades ++ traded l.multiplier owner f (position_of owner f l);
  }

  abbrev pub Handled : Type 0
  Handled = Ledger N × Result (Option (List (PositionEvent N)))

  abbrev pub owned_fill : FillEvent N → Ledger N → Result String → Handled
  owned_fill f l (raised e) = (l, raised e)
  owned_fill f l (ok owner) = (
    book_fill owner f l,
    report l.multiplier (fill f) f.price (filled l.multiplier f (position_of owner f l)) >>= λ p.
        ok (some (p ∷ [])),
  )

  abbrev pub remember : FillEvent N → Ledger N → Ledger N
  remember f l = record l { seen_fills = f.fill_id ∷ l.seen_fills }

  unfoldable pub is_seen : FillEvent N → List String → Bool
  is_seen f seen = any (str_eq f.fill_id) seen

  unfoldable pub take_fill : FillEvent N → Ledger N → Handled
  take_fill f l =
      if is_seen f l.seen_fills
      then (l, ok none)
      else owned_fill f (remember f l) (owner_of (fill f))

  -- `on_fill`
  unfoldable pub on_fill : DomainEvent N → Ledger N → Handled
  on_fill (fill f) l = take_fill f l
  on_fill e l = (l, raised (type_error "PositionLedger.on_fill requires FillEvent"))

  -- The list of events that a comprehension builds, in order; the first that raises ends it.
  abbrev pub reports :
      N.float → BarClosedEvent N → List (PositionState N) → Result (List (PositionEvent N))
  reports multiplier b [] = ok []
  reports multiplier b (s ∷ ss) = do
    p ← report multiplier (bar_closed b) b.close s
    ps ← reports multiplier b ss
    ok (p ∷ ps)

  -- `events or None`
  abbrev pub none_if_empty : List (PositionEvent N) → Option (List (PositionEvent N))
  none_if_empty [] = none
  none_if_empty (p ∷ ps) = some (p ∷ ps)

  -- `mark_to_market`
  unfoldable pub mark_to_market :
      DomainEvent N → Ledger N → Result (Option (List (PositionEvent N)))
  mark_to_market (bar_closed b) l = do
    ps ← reports l.multiplier b (
        filter
          (λ (s : PositionState N).
            str_eq s.key.symbol b.symbol && str_eq s.key.contract b.contract)
          (open_positions l))
    ok (none_if_empty ps)
  mark_to_market e l = raised (type_error "PositionLedger.mark_to_market requires BarClosedEvent")
