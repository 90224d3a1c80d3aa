-- ===== src/Routers/Risk.antt =====
-- `receive_risk_event`: what an event answers and leaves in the audit log.
use nexobank_backend.Base.{
  ℕ, ◌+◌, ◌≡◌, String, true, false, ◌||◌, Option, none, some, [], ◌∷◌, ◌++◌, if◌then◌else◌,
}
use nexobank_backend.Models.{AuditLog, Json}
use nexobank_backend.Base.Dict.{Dict}
use nexobank_backend.Session.{Env, Session, Result, ok, err, data_error}
use nexobank_backend.Repositories.AuditLogs.{are_storable}
use nexobank_backend.Repositories.AuditLogs
use nexobank_backend.Routers.Internal.{
  RiskEventRequest, RiskEventResponse, at_least, high, medium, entity_of, merge, score_entries,
  receive_risk_event,
}

-- the metadata of the entry about an event
abbrev pub audited_metadata : RiskEventRequest → Dict Json
audited_metadata body =
    if at_least body.risk_score high
    then merge (score_entries body) body.metadata
    else score_entries body

-- What a risk event answers and leaves: one entry in the audit log, committed with nothing else; or
-- nothing, where the score is low, and where the database refuses the entry, so that the request
-- fails.
pub data Audited (env : Env) (body : RiskEventRequest) (s t : Session)
    : Result RiskEventResponse → Type 0 where
  entered :
      (action : String) (entry : AuditLog)
      → (at_least body.risk_score high || at_least body.risk_score medium) ≡ true
      → are_storable env (audited_metadata body) ≡ true
      → action ≡ (if at_least body.risk_score high then "blocked" else "flagged")
      → entry.action
        ≡ (if at_least body.risk_score high then "HIGH_RISK_EVENT" else "MEDIUM_RISK_EVENT")
      → entry.user_id ≡ some body.user_id
      → entry.metadata ≡ audited_metadata body
      → t.committed ≡ record s.db { audit_logs = s.db.audit_logs ++ entry ∷ [] }
      → Audited env body s t (ok (record { received = true; action_taken = action }))
  failed :
      (at_least body.risk_score high || at_least body.risk_score medium) ≡ true
      → are_storable env (audited_metadata body) ≡ false
      → t.db ≡ s.db
      → t.committed ≡ s.committed
      → Audited env body s t (err data_error)
  watched :
      at_least body.risk_score high ≡ false
      → at_least body.risk_score medium ≡ false
      → t ≡ s
      → Audited env body s t (ok (record { received = true; action_taken = "monitoring" }))

module _ (env : Env) (body : RiskEventRequest) (s : Session) where
  -- an entry and the session that it leaves
  abbrev risk_entry : String → Option String → Option ℕ → Dict Json → AuditLog
  risk_entry action entity_type entity_id metadata = record {
    id = env.uuid4 s.calls;
    created_at = env.now (s.calls + 1);
    user_id = some body.user_id;
    action = action;
    entity_type = entity_type;
    entity_id = entity_id;
    ip_address = none;
    metadata = metadata;
  }

  abbrev with_entry : AuditLog → Session
  with_entry entry = record s {
    db = record s.db { audit_logs = s.db.audit_logs ++ entry ∷ [] };
    committed = record s.db { audit_logs = s.db.audit_logs ++ entry ∷ [] };
    calls = s.calls + 1 + 1;
  }

  abbrev high_metadata : Dict Json
  high_metadata = merge (score_entries body) body.metadata

  abbrev high_entry : AuditLog
  high_entry =
      risk_entry "HIGH_RISK_EVENT" (some (entity_of body.transaction_id)) body.transaction_id
        high_metadata

  abbrev medium_entry : AuditLog
  medium_entry = risk_entry "MEDIUM_RISK_EVENT" none none (score_entries body)

  abbrev pub Answered : Result RiskEventResponse → Session → Type 0
  Answered r t = receive_risk_event env env.settings.internal_api_key body s ≡ (r, t)

  -- the session after a refusal: only the generators have been called
  abbrev drawn : Session
  drawn = record s { calls = s.calls + 1 + 1 }

  abbrev pub Handled : Type 0
  Handled = (r : Result RiskEventResponse) × (t : Session) × Answered r t × Audited env body s t r
