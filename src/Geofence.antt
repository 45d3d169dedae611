-- ===== src/Geofence.antt =====
-- The events of geofences, of crates/latlng-geofence/src/lib.rs.
pub mod Fence
pub mod Roaming
pub mod Names
pub mod Registry
pub mod Mutations
pub mod Listing
pub mod Examples
use latlng.Prelude.{ℕ, String, Option}
use latlng.Geo.Float.{F64}
use latlng.Geo.Fields.{FieldMap}
use latlng.Geo.Object.{GeoType, Object}

pub data MutationCommand : Type 0 where
  set del drop fset : MutationCommand

pub data DetectType : Type 0 where
  inside outside enter exit cross roam : DetectType

pub record RoamingInfo : Type 0 where
  pub collection : String
  pub id : String
  pub meters : F64

pub record GeofenceEvent : Type 0 where
  pub command : MutationCommand
  pub detect : DetectType
  pub collection : String
  pub id : String
  pub object : GeoType
  pub fields : FieldMap
  pub timestamp_ns : ℕ
  pub event_id : Option String
  pub job_id : Option String
  pub hook : Option String
  pub group : Option String
  pub nearby : Option RoamingInfo
  pub generation : ℕ

pub record MutationEvent : Type 0 where
  pub command : MutationCommand
  pub collection : String
  pub id : String
  pub before : Option Object
  pub after : Option Object
  pub timestamp_ns : ℕ
