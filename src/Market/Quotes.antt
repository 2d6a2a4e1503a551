-- ===== src/Market/Quotes.antt =====
-- tw_quant/market/quotes.py: the snapshots of bids and asks, and their cache.
use codex_tw_quant_trading_s.Base.{
  String, Bool, true, false, not, ◌||◌, Option, none, some, List, [], ◌∷◌, Result, checks,
  value_error, is_blank, any, if◌then◌else◌, leb,
}
use codex_tw_quant_trading_s.Base.Assoc.{get_item, set_item}
use codex_tw_quant_trading_s.Base.Pairs.{TextPair, text_pair_key}
use codex_tw_quant_trading_s.Order.{Datetime}
use codex_tw_quant_trading_s.Python.{Python}
use codex_tw_quant_trading_s.Events.{zero_float}

abbrev pub QuoteKey : Type 0
QuoteKey = TextPair

module _ (N : Python) where
  -- `ExecutionQuote`
  pub record ExecutionQuote : Type 0 where
    pub symbol : String
    pub contract : String
    pub best_bid : Option N.float
    pub best_ask : Option N.float
    pub last_price : Option N.float
    pub exchange_time : Datetime
    pub received_at : Datetime
    pub source : String

  -- `price is not None and price <= 0`
  abbrev pub is_bad_price : Option N.float → Bool
  is_bad_price none = false
  is_bad_price (some p) = N.is_le p (zero_float N)

  abbrev pub is_crossed : Option N.float → Option N.float → Bool
  is_crossed (some bid) (some ask) = N.is_lt ask bid
  is_crossed (some bid) none = false
  is_crossed none ask = false

  -- `ExecutionQuote.__post_init__`
  unfoldable pub check_quote : ExecutionQuote → Result (Unit {0})
  check_quote q = checks (
      (
        is_blank q.symbol || is_blank q.contract || is_blank q.source,
        value_error "quote symbol, contract, and source are required",
      )
      ∷ (
        not q.exchange_time.is_aware || not q.received_at.is_aware,
        value_error "quote timestamps must be timezone-aware",
      )
      ∷ (
        any is_bad_price (q.best_bid ∷ q.best_ask ∷ q.last_price ∷ []),
        value_error "quote prices must be positive",
      )
      ∷ (is_crossed q.best_bid q.best_ask, value_error "best bid cannot exceed best ask")
      ∷ [])

  -- The `_quotes` of an `ExecutionQuoteCache`. The constructor of a quote has found its times aware, so the
  -- comparison of two never raises.
  abbrev pub QuoteCache : Type 0
  QuoteCache = List (QuoteKey × ExecutionQuote)

  abbrev pub instrument_of : ExecutionQuote → QuoteKey
  instrument_of q = (q.symbol, q.contract)

  -- `current is None or quote.received_at >= current.received_at`
  abbrev pub is_current : Option ExecutionQuote → ExecutionQuote → Bool
  is_current none q = true
  is_current (some c) q = leb c.received_at.instant q.received_at.instant

  -- `ExecutionQuoteCache.update`
  unfoldable pub update_quote : ExecutionQuote → QuoteCache → QuoteCache
  update_quote q c =
      if is_current (get_item (instrument_of q) c) q then set_item (instrument_of q) q c else c

  -- `ExecutionQuoteCache.get`
  abbrev pub get_quote : String → String → QuoteCache → Option ExecutionQuote
  get_quote symbol contract c = get_item (symbol, contract) c
