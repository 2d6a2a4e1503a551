-- ===== src/Identity.antt =====
-- tw_quant/broker/identity.py: the identity of an account at a broker. The names are as the
-- constructor of `BrokerAccountRef` leaves them, trimmed and in lower case.
use codex_tw_quant_trading_s.Base.{String, ◌≡◌, ◌↔◌, Bool, true, ◌&&◌, arith, str_eq, str_eq_iff}

-- `BrokerAccountRef`
pub record AccountRef : Type 0 where
  pub broker_name : String
  pub account_id : String

unfoldable pub account_eq : AccountRef → AccountRef → Bool
account_eq a b = str_eq a.broker_name b.broker_name && str_eq a.account_id b.account_id

pub account_eq_iff : (a b : AccountRef) → (account_eq a b ≡ true) ↔ (a ≡ b)
unfolding account_eq
account_eq_iff a b =
    ground (arith, str_eq_iff a.broker_name b.broker_name, str_eq_iff a.account_id b.account_id)
