-- ===== src/Core/World.antt =====
-- What the engine calls and this library does not define: crates, the codec, and the registry of
-- geofences behind an interface.
use latlng.Prelude.{ℕ, String, Bool, List, Option, Result}
use latlng.Storage.{Bytes}
use latlng.Geo.Float.{F64}
use latlng.Geo.Json.{Value, Number}
use latlng.Geo.JsonPath.{GeoError}
use latlng.Geo.Object.{Object}
use latlng.Geofence.{GeofenceEvent, MutationEvent}
use latlng.Index.{Crates}
use latlng.Core.Records.{Command, LogRecord}
use latlng.Core.Action.{CoreError}

-- `GeofenceRegistry` of crates/latlng-geofence/src/lib.rs and the checks of a definition.
pub record Fences : Type 1 where
  pub Registry : Type 0
  pub Def : Type 0
  pub Prepared : Type 0
  pub empty : Registry
  pub requires_exclusive_roam_path : String → Registry → Bool
  pub has_relevant_side_effects : String → Registry → Bool
  -- `None` where the source returns an error. The function gives a collection's live objects.
  pub prepare_mutation : MutationEvent → (String → List Object) → Registry → Option Prepared
  pub events : Prepared → List GeofenceEvent
  pub apply_prepared_mutation : Prepared → Registry → Registry
  pub hook_endpoint : String → Registry → Option String
  pub set_hook : String → String → Def → Registry → Registry
  pub del_hook : String → Registry → Registry × Bool
  pub pdel_hook : String → Registry → Registry × ℕ
  pub set_channel : String → Def → Registry → Registry
  pub del_channel : String → Registry → Registry × Bool
  pub pdel_channel : String → Registry → Registry × ℕ
  pub clear_all : Registry → Registry
  pub ensure_geofence_evaluable : Def → Result CoreError (Unit {0})
  pub validate_geofence_def : Def → Result CoreError (Unit {0})

pub record World : Type 1 where
  pub crates : Crates
  pub fences : Fences
  -- `Number::as_f64` and `from_str` of serde_json
  pub as_f64 : Number → Option F64
  pub from_str : String → Option Value
  -- whether `to_geometry` of a GeoJSON value succeeds, by the crate geojson
  pub to_geometry : Value → Result GeoError (Unit {0})
  pub glob_match : String → String → Bool
  -- serde_json and bincode, for records and for commands alone
  pub to_vec : LogRecord (Command fences.Def) → Option Bytes
  pub json_record : Bytes → Option (LogRecord (Command fences.Def))
  pub bincode_record : Bytes → Option (LogRecord (Command fences.Def))
  pub json_command : Bytes → Option (Command fences.Def)
  pub bincode_command : Bytes → Option (Command fences.Def)
  -- `opaque_webhook_job_id` and `opaque_webhook_event_id`, which hash by the crate md5
  pub job_id : ℕ → String
  pub event_id : ℕ → ℕ → GeofenceEvent → String
