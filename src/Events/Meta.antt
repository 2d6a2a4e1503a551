-- ===== src/Events/Meta.antt =====
-- tw_quant/events/models.py: `EventMetadata` and `deterministic_event_id`.
use codex_tw_quant_trading_s.Base.{
  String, Bool, not, ◌||◌, Option, some, List, [], ◌∷◌, Error, Result, ok, ◌>>=◌, ◌>>◌, checks,
  value_error, is_empty, has_text, join, if◌then◌else◌,
}
use codex_tw_quant_trading_s.Order.{Datetime}
use codex_tw_quant_trading_s.Python.{Python}

-- `EventMetadata`
pub record Metadata : Type 0 where
  pub event_id : String
  pub occurred_at : Datetime
  pub source : String
  pub correlation_id : Option String
  pub causation_id : Option String
  pub owner_id : Option String

-- `_require_aware`
abbrev pub aware_check : Datetime → Bool × Error
aware_check t = (not t.is_aware, value_error "occurred_at must be timezone-aware")

abbrev pub metadata_checks : Metadata → List (Bool × Error)
metadata_checks m =
    (is_empty m.event_id || is_empty m.source, value_error "event_id and source are required")
    ∷ aware_check m.occurred_at
    ∷ []

unfoldable pub check_metadata : Metadata → Result (Unit {0})
check_metadata m = checks (metadata_checks m)

-- `a or b` on texts.
abbrev pub text_or : Option String → Option String → Option String
text_or a b = if has_text a then a else b

module _ (N : Python) where
  unfoldable pub deterministic_event_id : String → Datetime → String → String → Result String
  deterministic_event_id kind t source key =
      checks (
        aware_check t
        ∷ (is_empty source || is_empty key, value_error "source and source_key are required")
        ∷ [])
      >> ok (N.sha256 (join "|" (kind ∷ N.isoformat t ∷ source ∷ key ∷ [])))

  -- The keyword arguments of `EventMetadata.create`.
  pub record Origin : Type 0 where
    pub kind : String
    pub occurred_at : Datetime
    pub source : String
    pub source_key : String
    pub correlation_id : Option String
    pub causation_id : Option String
    pub owner_id : Option String

  abbrev pub metadata_of : Origin → String → Metadata
  metadata_of o id = record {
    event_id = id;
    occurred_at = o.occurred_at;
    source = o.source;
    correlation_id = text_or o.correlation_id (some id);
    causation_id = o.causation_id;
    owner_id = o.owner_id;
  }

  -- `EventMetadata.create`
  unfoldable pub create_metadata : Origin → Result Metadata
  create_metadata o = do
    id ← deterministic_event_id o.kind o.occurred_at o.source o.source_key
    check_metadata (metadata_of o id)
    ok (metadata_of o id)
