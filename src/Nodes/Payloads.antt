-- ===== src/Nodes/Payloads.antt =====
-- The bodies of the requests to the nodes' handlers, and of their responses.
use mizan.Prelude.{Bool, Option, Text}
use mizan.Core.Id.{Uuid}
use mizan.Nodes.Capabilities.{DaemonCapabilityPayload, DaemonCapabilityResponse}

pub record DaemonNodeCreateRequest : Type 0 where
  pub host_user_id : Option Uuid
  pub label : Option Text
  pub hostname : Option Text
  pub public_key : Option Text

pub record DaemonNodeCreateResponse : Type 0 where
  pub id : Uuid
  pub token : Text
  pub token_type : Text
  pub status : Text
  pub host_user_id : Option Uuid
  pub label : Option Text
  pub hostname : Option Text
  pub public_key : Option Text
  pub created_at : Text

pub record DaemonNodeResponse : Type 0 where
  pub id : Uuid
  pub host_user_id : Option Uuid
  pub label : Option Text
  pub hostname : Option Text
  pub public_key : Option Text
  pub status : Text
  pub revoked : Bool
  pub disabled : Bool
  pub last_seen_at : Option Text
  pub capabilities : DaemonCapabilityResponse
  pub created_at : Text
  pub updated_at : Text

pub record DaemonNodeRevokeResponse : Type 0 where
  pub id : Uuid
  pub revoked : Bool

pub record DaemonRegistrationRequest : Type 0 where
  pub hostname : Option Text
  pub public_key : Option Text
  pub capabilities : Option DaemonCapabilityPayload

pub record DaemonHeartbeatRequest : Type 0 where
  pub hostname : Option Text
  pub public_key : Option Text
  pub capabilities : DaemonCapabilityPayload

-- Also the response of a heartbeat.
pub record DaemonRegistrationResponse : Type 0 where
  pub node_id : Uuid
  pub status : Text
  pub last_seen_at : Text
  pub capabilities : DaemonCapabilityResponse

pub record DaemonPingResponse : Type 0 where
  pub node_id : Uuid
  pub status : Text
  pub last_seen_at : Text
