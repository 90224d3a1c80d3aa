-- ===== src/Repositories/AuditLogs.antt =====
-- app/repositories/audit_log_repository.py
use nexobank_backend.Models.{Host}
use nexobank_backend.Base.{ℕ, String, Bool, true, false, not, ◌&&◌, Option, List, [], ◌∷◌, ◌++◌}
use nexobank_backend.Models.{
  AuditLog, Float, finite, infinity, minus_infinity, nan, Json, text, texts, uuid, cents, decimal,
  ratio, float, client,
}
use nexobank_backend.Session.{Env, data_error, Action, draw, modify, raise_if, pure, ◌>>=◌, ◌>>◌}

-- JSON has neither infinities nor NaN: `json.dumps` prints them, PostgreSQL refuses them.
abbrev pub is_finite : Float → Bool
is_finite (finite coefficient exponent) = true
is_finite infinity = false
is_finite minus_infinity = false
is_finite nan = false

-- whether a JSONB column takes the value
abbrev pub is_storable : Env → Json → Bool
is_storable env (text t) = true
is_storable env (texts ts) = true
is_storable env (uuid k) = true
is_storable env (cents a) = true
is_storable env (decimal coefficient exponent) = true
is_storable env (ratio n) = true
is_storable env (float f) = is_finite f
is_storable env (client t) = env.jsonb_accepts t

abbrev pub are_storable : Env → List (String × Json) → Bool
are_storable env [] = true
are_storable env ((key, value) ∷ rest) = is_storable env value && are_storable env rest

module _ (env : Env) where
  -- `AuditLogRepository.log`; no metadata is the empty list, since no caller passes an empty dict
  unfoldable pub log :
      String
      → Option ℕ
      → Option String
      → Option ℕ
      → Option Host
      → List (String × Json)
      → Action AuditLog
  log action user_id entity_type entity_id ip_address metadata = do
    id ← draw env.uuid4
    created_at ← draw env.now
    let entry : AuditLog = record {
      id = id;
      created_at = created_at;
      user_id = user_id;
      action = action;
      entity_type = entity_type;
      entity_id = entity_id;
      ip_address = ip_address;
      metadata = metadata;
    }
    raise_if (not (are_storable env metadata)) data_error
    modify (λ db. record db { audit_logs = db.audit_logs ++ entry ∷ [] })
    pure entry
