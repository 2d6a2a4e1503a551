-- ===== src/Execution/Liquidator.antt =====
-- tw_quant/execution/liquidator.py: `PositionLiquidator`. Its set of pending keys is a list;
-- `has_pending_exit` is an argument, `busy`.
use codex_tw_quant_trading_s.Base.{
  String, Bool, true, not, ◌&&◌, ◌||◌, Option, none, some, List, [], ◌∷◌, Result, ok, raised, ◌>>=◌,
  ◌>>◌, type_error, if◌then◌else◌, str_eq, is_empty, filter, any, concat,
}
use codex_tw_quant_trading_s.Base.Int.{ℤ, pos, abs, ltb_ℤ}
use codex_tw_quant_trading_s.Python.{Python}
use codex_tw_quant_trading_s.Events.{
  Metadata, zero_float, DomainEvent, session, bar_closed, fill, FillEvent, OrderIntent,
  check_order_intent, meta_of,
}
use codex_tw_quant_trading_s.Execution.Positions.{PositionKey, same_position, PositionState, Ledger}
use codex_tw_quant_trading_s.Execution.Ledger.{open_positions, key_of}
use codex_tw_quant_trading_s.Execution.Router.{answer_metadata}

abbrev pub Pending : Type 0
Pending = List PositionKey

abbrev pub is_pending : PositionKey → Pending → Bool
is_pending k ks = any (same_position k) ks

module _ (N : Python) where
  abbrev pub day_of_cause : DomainEvent N → Option ℤ
  day_of_cause (bar_closed b) = some b.trading_date
  day_of_cause (session s) = some s.trading_date
  day_of_cause e = none

  abbrev pub liquidation_intent :
      PositionState N → DomainEvent N → String → Metadata → OrderIntent N
  liquidation_intent s cause reason m = record {
    meta = m;
    order_id = m.event_id;
    strategy_id = s.key.strategy_id;
    strategy_version = s.key.strategy_version;
    symbol = s.key.symbol;
    contract = s.key.contract;
    side = if ltb_ℤ (pos 0) s.quantity then "sell" else "buy";
    quantity = pos (abs s.quantity);
    order_type = "market";
    purpose = "liquidation";
    execution_timing = "current_close";
    reduce_only = true;
    reason = reason;
    reference_price = zero_float N;
    stop_loss_price = none;
    stop_loss_pct = none;
    take_profit_pct = none;
    strategy_snapshot = none;
    trading_date = day_of_cause cause;
    client_order_id = none;
    order_source = "manual";
    runtime_id = none;
    decision_id = none;
  }

  abbrev pub liquidation_key : PositionState N → DomainEvent N → String
  liquidation_key s cause =
      concat
        (concat
          (concat (concat (concat (concat (meta_of N cause).event_id ":") s.key.owner_id) ":")
            s.key.strategy_id)
          ":")
        s.key.contract

  -- `_build_intent`
  unfoldable pub build_intent : PositionState N → DomainEvent N → String → Result (OrderIntent N)
  build_intent s cause reason = do
    m ←
        answer_metadata N "order_intent" "position_liquidator" (liquidation_key s cause)
          (meta_of N cause) (some s.key.owner_id)
    check_order_intent N (liquidation_intent s cause reason m)
    ok (liquidation_intent s cause reason m)

  abbrev pub Intents : Type 0
  Intents = Result (List (PositionKey × OrderIntent N))

  -- An intent, with the key of its position, before those of the other positions.
  abbrev pub first_intent :
      PositionKey → Pending → Result (OrderIntent N) → Pending × Intents → Pending × Intents
  first_intent k ks (raised e) rest = (ks, raised e)
  first_intent k ks (ok o) (p, raised e) = (p, raised e)
  first_intent k ks (ok o) (p, ok os) = (p, ok ((k, o) ∷ os))

  -- `_intents`
  unfoldable pub intents :
      (PositionKey → Bool)
      → DomainEvent N
      → String
      → List (PositionState N)
      → Pending
      → Pending × Intents
  intents busy cause reason [] ks = (ks, ok [])
  intents busy cause reason (s ∷ ss) ks =
      let skipped = intents busy cause reason ss ks in
      let taken =
        first_intent s.key (s.key ∷ ks) (build_intent s cause reason)
          (intents busy cause reason ss (s.key ∷ ks)) in
      if is_pending s.key ks || busy s.key then skipped else taken

  abbrev pub owner_allows : Option String → String → Bool
  owner_allows none owner = true
  owner_allows (some o) owner = str_eq owner o

  -- `on_session`
  unfoldable pub on_session :
      DomainEvent N → (PositionKey → Bool) → Ledger N → Pending → Pending × Intents
  on_session (session e) busy l ks =
      if not (str_eq e.action "closing")
      then (ks, ok [])
      else intents busy (session e) "session_end"
          (filter
            (λ (s : PositionState N).
              str_eq s.key.symbol e.symbol
              && (str_eq s.key.contract e.contract && owner_allows e.meta.owner_id s.key.owner_id))
            (open_positions N l))
          ks
  on_session e busy l ks =
      (ks, raised (type_error "PositionLiquidator.on_session requires SessionEvent"))

  -- `on_bar`
  unfoldable pub on_bar :
      DomainEvent N → (PositionKey → Bool) → Ledger N → Pending → Pending × Intents
  on_bar (bar_closed e) busy l ks =
      intents busy (bar_closed e) "contract_roll"
        (filter
          (λ (s : PositionState N).
            str_eq s.key.symbol e.symbol && not (str_eq s.key.contract e.contract))
          (open_positions N l))
        ks
  on_bar e busy l ks = (ks, raised (type_error "PositionLiquidator.on_bar requires BarClosedEvent"))

  abbrev pub discard : PositionKey → Pending → Pending
  discard k ks = filter (λ (j : PositionKey). not (same_position k j)) ks

  abbrev pub discard_owned : FillEvent N → Pending → Option String → Pending
  discard_owned f ks none = ks
  discard_owned f ks (some owner) = if is_empty owner then ks else discard (key_of N owner f) ks

  -- `on_fill`
  unfoldable pub on_fill : DomainEvent N → Pending → Pending × Result (Unit {0})
  on_fill (fill f) ks =
      if not (str_eq f.purpose "liquidation")
      then (ks, ok tt)
      else (discard_owned f ks f.meta.owner_id, ok tt)
  on_fill e ks = (ks, raised (type_error "PositionLiquidator.on_fill requires FillEvent"))
