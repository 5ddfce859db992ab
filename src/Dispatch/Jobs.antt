-- ===== src/Dispatch/Jobs.antt =====
-- The row of dispatch_jobs, its statuses, and the payloads.
use mizan.Prelude.{ℕ, Bool, Option, List, Text, codes}
use mizan.Core.Id.{Uuid, IdText}
use mizan.Billing.Usage.{ChatMessage, TokenUsage}

unfoldable pub status_accepted : Text
status_accepted = codes "accepted"

unfoldable pub status_leased : Text
status_leased = codes "leased"

unfoldable pub status_succeeded : Text
status_succeeded = codes "succeeded"

unfoldable pub status_failed : Text
status_failed = codes "failed"

unfoldable pub status_timed_out : Text
status_timed_out = codes "timed_out"

pub record DispatchJob : Type 0 where
  pub id : IdText
  pub request_id : IdText
  pub node_id : IdText
  pub user_id : Option Uuid
  pub api_key_id : Option Uuid
  pub model : Text
  pub status : Text
  pub request_json : Text
  pub response_json : Option Text
  pub error_code : Option Text
  pub error_message : Option Text
  pub leased_at : Option Text
  pub completed_at : Option Text
  pub deadline_at : Text
  pub created_at : Text
  pub updated_at : Text

-- crates/mizan-providers/src/lib.rs
pub record ChatRequest : Type 0 where
  pub model : Text
  pub messages : List ChatMessage
  pub stream : Bool
  pub max_tokens : Option ℕ

pub record ChatResponse : Type 0 where
  pub provider : Text
  pub model : Text
  pub content : Text
  pub usage : Option TokenUsage

pub record DispatchJobInput : Type 0 where
  pub request_id : Uuid
  pub node_id : Uuid
  pub user_id : Option Uuid
  pub api_key_id : Option Uuid
  pub model : Text
  pub request : ChatRequest
  pub timeout_seconds : ℕ

pub record DispatchJobLeaseResponse : Type 0 where
  pub id : Uuid
  pub request_id : Uuid
  pub model : Text
  pub request : ChatRequest
  pub deadline_at : Text

pub record DispatchJobCompleteRequest : Type 0 where
  pub status : Text
  pub response : Option ChatResponse
  pub error_code : Option Text
  pub error_message : Option Text

pub data DispatchJobResult : Type 0 where
  succeeded : ChatResponse → DispatchJobResult
  failed : (error_code : Option Text) (error_message : Text) → DispatchJobResult
  timed_out : DispatchJobResult
