-- ===== src/Core/Records.antt =====
-- Requests, and the records of the log, of crates/latlng-core/src/lib.rs.
use latlng.Prelude.{ℕ, String, Option, Bool, List}
use latlng.Geo.Object.{GeoType}
use latlng.Geofence.{GeofenceEvent}
use latlng.Core.Fields.{FieldEntry}

pub record WebhookEnqueueRecord : Type 0 where
  pub job_id : String
  pub event : GeofenceEvent
  pub endpoint : String
  pub attempts_used : ℕ
  pub max_attempts : ℕ
  pub next_attempt_at_ms : ℕ

pub record WebhookAckRecord : Type 0 where
  pub job_id : String

pub record WebhookRetryScheduledRecord : Type 0 where
  pub job_id : String
  pub attempts_used : ℕ
  pub next_attempt_at_ms : ℕ
  pub last_error : String

pub record WebhookDeadLetterRecord : Type 0 where
  pub job_id : String
  pub attempts_used : ℕ
  pub last_error : String

pub data LogRecord (Command : Type 0) : Type 0 where
  command : Command → LogRecord Command
  webhook_enqueue : WebhookEnqueueRecord → LogRecord Command
  webhook_ack : WebhookAckRecord → LogRecord Command
  webhook_retry_scheduled : WebhookRetryScheduledRecord → LogRecord Command
  webhook_dead_letter : WebhookDeadLetterRecord → LogRecord Command

pub data SetCondition : Type 0 where
  always nx xx : SetCondition

pub record SetRequest : Type 0 where
  pub collection : String
  pub id : String
  pub object : GeoType
  pub fields : List FieldEntry
  pub expire_seconds : Option ℕ
  pub condition : SetCondition

pub record PersistedSetRecord : Type 0 where
  pub collection : String
  pub id : String
  pub object : GeoType
  pub fields : List FieldEntry
  pub expires_at_ms : Option ℕ

-- `Def` is the type of geofence definitions.
pub data Command (Def : Type 0) : Type 0 where
  set : SetRequest → Command Def
  del : String → String → Command Def
  drop_collection : String → Command Def
  rename : String → String → Command Def
  fset : String → String → List FieldEntry → Bool → Command Def
  expire : String → String → ℕ → Command Def
  persist : String → String → Command Def
  jset : String → String → String → String → Bool → Command Def
  jdel : String → String → String → Command Def
  set_hook : String → String → Def → Command Def
  del_hook : String → Command Def
  pdel_hook : String → Command Def
  set_channel : String → Def → Command Def
  del_channel : String → Command Def
  pdel_channel : String → Command Def
  flush_db : Command Def
  set_persisted : PersistedSetRecord → Command Def
  expire_at : String → String → ℕ → Command Def
  create_collection : String → Command Def
