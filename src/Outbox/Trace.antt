-- ===== src/Outbox/Trace.antt =====
-- Sequences of calls of the repository, by any callers, with the times that their clocks gave.
use codex_tw_quant_trading_s.Base.{String, false, List, [], ◌∷◌}
use codex_tw_quant_trading_s.Order.{Datetime, Order}
use codex_tw_quant_trading_s.Outbox.Store.{AccountRef, RoutedRequest, Store}
use codex_tw_quant_trading_s.Outbox.Dispatch.{reserve, claim_next, finish_dispatch, block_dispatch}
use codex_tw_quant_trading_s.Outbox.Cancel.{
  reserve_cancel, claim_next_cancel, finish_cancel, block_cancel,
}
use codex_tw_quant_trading_s.Outbox.Repair.{
  block_pending_dispatches, save_reconciliation, recover_interrupted_dispatches,
}

-- A call that may write, with its arguments.
pub data Op : Type 0 where
  reserve_op : RoutedRequest → Datetime → Op
  claim_op claim_cancel_op : AccountRef → Datetime → Op
  finish_op finish_cancel_op save_op : Order → Op
  block_op block_cancel_op : Order → String → Datetime → Op
  block_pending_op : AccountRef → String → Datetime → Op
  reserve_cancel_op : AccountRef → String → String → Datetime → Op
  recover_op : Datetime → Op

-- The tables after a call, also after one that raises.
unfoldable pub after : Op → Store → Store
after (reserve_op rr now) s = (reserve rr now s).1
after (claim_op t now) s = (claim_next t now s).1
after (claim_cancel_op t now) s = (claim_next_cancel t now s).1
after (finish_op o) s = (finish_dispatch o s).1
after (finish_cancel_op o) s = (finish_cancel o s).1
after (save_op o) s = (save_reconciliation o s).1
after (block_op o reason now) s = (block_dispatch o reason now s).1
after (block_cancel_op o reason now) s = (block_cancel o reason now s).1
after (block_pending_op t reason now) s = (block_pending_dispatches t reason now s).1
after (reserve_cancel_op t owner k now) s = (reserve_cancel t owner k now s).1
after (recover_op now) s = (recover_interrupted_dispatches now s).1

unfoldable pub after_all : List Op → Store → Store
after_all [] s = s
after_all (op ∷ ops) s = after_all ops (after op s)

unfoldable pub empty_store : Store
empty_store = record { orders = []; outbox = []; cancels = []; in_transaction = false }
