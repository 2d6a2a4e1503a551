-- ===== src/Account/Access.antt =====
-- tw_quant/risk/account.py: `TradingAccess` and `TradingAccessRegistry`, with the users of
-- tw_quant/auth/models.py. A set of permissions is a list.
use codex_tw_quant_trading_s.Base.{
  String, Bool, true, false, Option, List, [], ◌∷◌, str_eq, str_eq_iff,
}
use codex_tw_quant_trading_s.Base.Assoc.{Key, get_item, set_item}

pub data Role : Type 0 where
  researcher trader admin : Role

pub data AccountStatus : Type 0 where
  active suspended revoked : AccountStatus

pub data TradingMode : Type 0 where
  disabled paper live : TradingMode

-- `AuthUser`
pub record AuthUser : Type 0 where
  pub user_id : String
  pub email : String
  pub role : Role
  pub status : AccountStatus
  pub trading_mode : TradingMode
  pub permissions : List String
  pub access_subject : Option String
  pub registered : Bool

-- `TradingAccess`
pub record TradingAccess : Type 0 where
  pub owner_id : String
  pub status : AccountStatus
  pub trading_mode : TradingMode
  pub permissions : List String

-- `TradingAccess.from_user`
abbrev pub from_user : AuthUser → TradingAccess
from_user u = record {
  owner_id = u.user_id;
  status = u.status;
  trading_mode = u.trading_mode;
  permissions = u.permissions;
}

abbrev pub is_active : AccountStatus → Bool
is_active active = true
is_active _ = false

abbrev pub is_paper : TradingMode → Bool
is_paper paper = true
is_paper _ = false

instance abbrev pub string_key : Key String
string_key = record { same = str_eq; same_iff = str_eq_iff }

-- `TradingAccessRegistry`, by its dictionary.
abbrev pub Registry : Type 0
Registry = List (String × TradingAccess)

-- `set_user`
unfoldable pub set_user : AuthUser → Registry → Registry
set_user u r = set_item u.user_id (from_user u) r

-- `set_access`
unfoldable pub set_access : TradingAccess → Registry → Registry
set_access a r = set_item a.owner_id a r

-- `TradingAccessRegistry.__init__`
unfoldable pub registry_of : List AuthUser → Registry → Registry
registry_of [] r = r
registry_of (u ∷ us) r = registry_of us (set_user u r)

-- `resolve`
unfoldable pub resolve : String → Registry → Option TradingAccess
resolve owner r = get_item owner r
