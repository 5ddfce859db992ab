-- ===== src/Logging.antt =====
-- crates/mizan-api/src/logging.rs: the rows of request_logs and admin_audit_logs. The fresh ids and
-- the readings of the clock are arguments.
pub mod Laws
use mizan.Prelude.{ℕ, Option, List, [], ◌∷◌, ◌++◌, Text, codes}
use mizan.Core.Id.{Uuid}
use mizan.Core.Error.{AppError, infrastructure}
use mizan.Core.Exec.{Exec, Faults, meet, ◌>>=◌, ◌>>◌, lift, modify}
use mizan.Billing.Usage.{to_i64}

pub record RequestLogInput : Type 0 where
  pub request_id : Uuid
  pub user_id : Option Uuid
  pub api_key_id : Option Uuid
  pub provider_id : Option Uuid
  pub route_id : Option Uuid
  pub daemon_node_id : Option Uuid
  pub method : Text
  pub path : Text
  pub route : Option Text
  pub provider : Option Text
  pub status_code : ℕ
  pub latency_ms : ℕ
  pub error_code : Option Text

pub record AdminAuditInput : Type 0 where
  pub actor_user_id : Option Uuid
  pub action : Text
  pub entity_type : Text
  pub entity_id : Option Text
  pub payload_json : Option Text

pub record RequestLog : Type 0 where
  pub id : Uuid
  pub entry : RequestLogInput
  pub created_at : Text

pub record AdminAuditLog : Type 0 where
  pub id : Uuid
  pub entry : AdminAuditInput
  pub created_at : Text

pub record Logs : Type 0 where
  pub request_logs : List RequestLog
  pub admin_audit_logs : List AdminAuditLog
  pub faults : Faults

abbrev pub M : Type 0 → Type 0
M = Exec Logs

abbrev attempt : (Text → AppError) → M (Unit {0})
attempt wrap s = meet (λ s fs. record s { faults = fs }) wrap s.faults s

-- The columns are the fields of the input, in their order. The text of the conversion's own error is
-- left out.
unfoldable pub record_request_log : Uuid → Text → RequestLogInput → M (Unit {0})
record_request_log id now input = do
  latency_ms ← lift (
      to_i64 (infrastructure (codes "request_log.latency_ms exceeds i64 range: ")) input.latency_ms)
  attempt (λ message. infrastructure (codes "cannot insert request log: " ++ message))
  modify (λ s. record s {
    request_logs =
        s.request_logs
        ++ record { id = id; entry = record input { latency_ms = latency_ms }; created_at = now }
          ∷ [];
  })

unfoldable pub record_admin_audit : Uuid → Text → AdminAuditInput → M (Unit {0})
record_admin_audit id now input = do
  attempt (λ message. infrastructure (codes "cannot insert admin audit log: " ++ message))
  modify (λ s. record s {
    admin_audit_logs =
        s.admin_audit_logs ++ record { id = id; entry = input; created_at = now } ∷ [];
  })
