-- ===== src/Execution/Tests.antt =====
-- The position ledger at concrete fills.
use codex_tw_quant_trading_s.Base.Assoc.{get_item, set_item}
use codex_tw_quant_trading_s.Base.{String, ℕ, ◌+◌, none, some, List, [], ◌∷◌, ◌≡◌, refl}
use codex_tw_quant_trading_s.Base.Int.{pos, neg, abs, ◌+ℤ◌, ◌*ℤ◌}
use codex_tw_quant_trading_s.Samples.{whole, at_time}
use codex_tw_quant_trading_s.Events.{Metadata, FillEvent}
use codex_tw_quant_trading_s.Execution.Positions.{PositionKey, PositionState, flat_state, Ledger}
use codex_tw_quant_trading_s.Execution.Ledger.{
  filled, traded, on_fill, take_fill, entered, reduced, opens, signed_fill, book_fill, owner_of,
  is_seen, closing_quantity, increased,
}
use codex_tw_quant_trading_s.Execution.Replay.{replay, firsts, net, quantity_at, replay-net}
use codex_tw_quant_trading_s.Execution.Closing.{contracts, fill_contracts}
use codex_tw_quant_trading_s.Execution.Settled.{AllSettled, new-AllSettled, replay-AllSettled}

abbrev meta_1 : Metadata
meta_1 = record {
  event_id = "E1";
  occurred_at = at_time 5;
  source = "sim";
  correlation_id = none;
  causation_id = none;
  owner_id = some "owner";
}

abbrev fill_of : String → String → ℕ → FillEvent whole
fill_of id side quantity = record {
  meta = meta_1;
  fill_id = id;
  order_id = "O1";
  strategy_id = "orb";
  strategy_version = pos 1;
  symbol = "TMF";
  contract = "TMFR1";
  side = side;
  quantity = pos quantity;
  price = pos 100;
  commission = pos 1;
  tax = pos 1;
  slippage = pos 0;
  purpose = "entry";
  reason = "signal";
  trading_date = none;
  order_source = "manual";
  runtime_id = none;
  decision_id = none;
  stop_loss_price = none;
  take_profit_price = none;
  strategy_snapshot = none;
}

abbrev key_1 : PositionKey
key_1 = record {
  owner_id = "owner";
  strategy_id = "orb";
  strategy_version = pos 1;
  symbol = "TMF";
  contract = "TMFR1";
}

abbrev empty_ledger : Ledger whole
empty_ledger = record { multiplier = pos 10; positions = []; seen_fills = []; trades = [] }

-- A fill that comes twice, and a larger one on the other side.
abbrev three_fills : List (FillEvent whole)
three_fills = fill_of "F1" "buy" 2 ∷ fill_of "F1" "buy" 2 ∷ fill_of "F2" "sell" 3 ∷ []

three_fills_quantity : quantity_at whole key_1 (replay whole three_fills empty_ledger) ≡ neg (pos 1)
unfolding replay quantity_at on_fill take_fill filled entered reduced opens signed_fill book_fill
    owner_of is_seen closing_quantity increased get_item set_item ◌+ℤ◌ ◌*ℤ◌
three_fills_quantity = refl

replay-net_example :
    quantity_at whole key_1 (replay whole three_fills empty_ledger)
    ≡ quantity_at whole key_1 empty_ledger +ℤ net whole key_1 (firsts whole [] three_fills)
replay-net_example = replay-net whole key_1 three_fills empty_ledger

abbrev short_state : PositionState whole
short_state = record (flat_state whole key_1) {
  quantity = neg (pos 2);
  opened_at = some (at_time 4);
}

fill_contracts_example :
    abs (filled whole (pos 10) (fill_of "F3" "buy" 5) short_state).quantity
      + (contracts whole (traded whole (pos 10) "owner" (fill_of "F3" "buy" 5) short_state)
          + contracts whole (traded whole (pos 10) "owner" (fill_of "F3" "buy" 5) short_state))
    ≡ 2 + 5
fill_contracts_example =
    fill_contracts whole (pos 10) "owner" (fill_of "F3" "buy" 5) short_state refl

replay-AllSettled_example : AllSettled whole (replay whole three_fills empty_ledger)
replay-AllSettled_example =
    replay-AllSettled whole three_fills empty_ledger (refl, (refl, (refl, tt)))
      (new-AllSettled whole (pos 10))
