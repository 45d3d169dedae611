-- ===== src/Core/Engine/Objects.antt =====
-- The commands on one object of crates/latlng-core/src/commands.rs. The method that runs under the
-- shared gate and the one under the exclusive gate share their steps from the reading of the object
-- on, which stand here once.
use latlng.Prelude.{
  ℕ, String, Option, none, some, Bool, true, false, not, ◌&&◌, Result, ok, err, map_err,
  if◌then◌else◌, omap, is_some, string_key,
}
use latlng.Prelude.Map
use latlng.Storage.Memory.{stores_command_log}
use latlng.Geo.JsonPath.{GeoError}
use latlng.Geo.Object.{GeoType, Object, point, validate_geo}
use latlng.Geofence.{MutationEvent, MutationCommand}
use latlng.Core.Fields.{merged_set_fields, field_map_to_entries}
use latlng.Core.Records.{Command, SetCondition, SetRequest, PersistedSetRecord}
use latlng.Core.Action.{CoreError, Action, pure, lift, gets, ◌>>=◌, ◌>>◌}
use latlng.Core.World.{World}
use latlng.Core.Collection
use latlng.Core.Engine.{
  Clock, deadline_of, Db, VersionedCollection, bump, ensure_cell, collection_handle, object_in,
  write_collections, ensure_writable, reserve_sequences, plan_mutation,
  webhook_records_for_prepared, with_plan, then_apply,
}
use latlng.Core.Engine.Log.{persist_command_batch}

-- The condition of a SET does not hold.
abbrev pub refuses : SetCondition → Bool → Bool
refuses SetCondition.always exists = false
refuses SetCondition.nx exists = exists
refuses SetCondition.xx exists = not exists

abbrev pub is_point : GeoType → Bool
is_point (point lat lon z) = true
is_point _ = false

abbrev pub is_always : SetCondition → Bool
is_always SetCondition.always = true
is_always _ = false

abbrev pub set_object : ℕ → Option Object → SetRequest → Object
set_object now before req = record {
  id = req.id;
  geo = req.object;
  fields = merged_set_fields before req.fields;
  expires_at = omap (deadline_of now) req.expire_seconds;
}

abbrev pub persisted : Object → SetRequest → PersistedSetRecord
persisted o req = record {
  collection = req.collection;
  id = req.id;
  object = req.object;
  fields = field_map_to_entries o.fields;
  expires_at_ms = o.expires_at;
}

abbrev pub event_of :
    MutationCommand → Clock → String → String → Option Object → Option Object → MutationEvent
event_of c k collection id before after = record {
  command = c;
  collection = collection;
  id = id;
  before = before;
  after = after;
  timestamp_ns = k.nanos;
}

module _ (w : World) where
  -- `upsert(object)?`, and the next version.
  abbrev pub upserted :
      VersionedCollection w
      → Result GeoError (Unit {0}) × Collection.Collection w.crates
      → Result CoreError (Unit {0}) × VersionedCollection w
  upserted v (ok _, c) = (ok tt, bump w v c)
  upserted v (err e, c) = (err (CoreError.geo e), record v { collection = c })

  unfoldable pub upsert_in : String → Object → Action (Db w) (Unit {0})
  unfolding Collection.upsert
  upsert_in name o s = elim (Map.get name s.collections) [
    | none ↦ (ok tt, s)
    | some v ↦
        let r = upserted v (Collection.upsert w.crates o v.collection) in
        (r.0, record s { collections = Map.insert name r.1 s.collections })
  ]

  abbrev pub finish_set : SetRequest → Object → w.fences.Prepared → Action (Db w) Bool
  finish_set req object planned = do
    write_collections w (ensure_cell w req.collection)
    upsert_in req.collection object
    then_apply w planned true

  abbrev pub write_set : Clock → SetRequest → Option Object → Action (Db w) Bool
  write_set k req before =
      let object = set_object k.millis before req in
      with_plan w k (event_of MutationCommand.set k req.collection req.id before (some object))
        (λ planned records.
          persist_command_batch w k (Command.set_persisted (persisted object req)) records
          >> finish_set req object planned)

  -- `try_set_local` from its loop on, and `set_exclusive`.
  unfoldable pub set_checked : Clock → SetRequest → Action (Db w) Bool
  unfolding plan_mutation webhook_records_for_prepared persist_command_batch ensure_cell upsert_in
  set_checked k req = do
    handle ← collection_handle w req.collection
    let before = object_in w req.id handle
    if refuses req.condition (is_some before) then pure false else write_set k req before

  unfoldable pub set_exclusive : Clock → SetRequest → Action (Db w) Bool
  unfolding set_checked
  set_exclusive k req = ensure_writable w >> set_checked k req

  -- The path that skips the log and the geofences.
  abbrev pub is_fast : SetRequest → Db w → Bool
  is_fast req s =
      not (stores_command_log s.storage)
      && is_always req.condition
      && not (is_some req.expire_seconds)
      && is_point req.object
      && not (w.fences.has_relevant_side_effects req.collection s.geofences)

  abbrev pub fast_object : Option Object → SetRequest → Object
  fast_object before req = record {
    id = req.id;
    geo = req.object;
    fields = merged_set_fields before req.fields;
    expires_at = none;
  }

  unfoldable pub try_set_local : Clock → SetRequest → Action (Db w) (Option Bool)
  unfolding set_checked reserve_sequences upsert_in
  try_set_local k req = do
    ensure_writable w
    exclusive ← gets (λ s. w.fences.requires_exclusive_roam_path req.collection s.geofences)
    handle ← collection_handle w req.collection
    fast ← gets (is_fast req)
    if exclusive
        then pure none
        else if not (is_some handle)
        then pure none
        else if fast
        then (do
          reserve_sequences w 1
          upsert_in req.collection (fast_object (object_in w req.id handle) req)
          pure (some true))
        else (do done ← set_checked k req; pure (some done))

  -- Where the first attempt gives no answer, the second one does.
  abbrev pub or_else : Action (Db w) Bool → Option Bool → Action (Db w) Bool
  or_else second none = second
  or_else second (some b) = pure b

  unfoldable pub set : Clock → SetRequest → Action (Db w) Bool
  unfolding validate_geo try_set_local set_exclusive
  set k req = do
    lift (map_err CoreError.geo (validate_geo w.as_f64 req.object))
    first ← try_set_local k req
    or_else (set_exclusive k req) first

  -- `remove(id)`, and the next version where there was an object.
  abbrev pub removed :
      VersionedCollection w
      → Option Object × Collection.Collection w.crates
      → Bool × VersionedCollection w
  removed v (none, c) = (false, record v { collection = c })
  removed v (some o, c) = (true, bump w v c)

  unfoldable pub remove_in : String → String → Action (Db w) Bool
  unfolding Collection.remove
  remove_in name id s = elim (Map.get name s.collections) [
    | none ↦ (ok false, s)
    | some v ↦
        let r = removed v (Collection.remove w.crates id v.collection) in
        (ok r.0, record s { collections = Map.insert name r.1 s.collections })
  ]

  abbrev pub finish_del : String → String → w.fences.Prepared → Action (Db w) Bool
  finish_del collection id planned = remove_in collection id >>= then_apply w planned

  abbrev pub write_del : Clock → String → String → Option Object → Action (Db w) Bool
  write_del k collection id before =
      with_plan w k (event_of MutationCommand.del k collection id before none) (λ planned records.
        persist_command_batch w k (Command.del collection id) records
        >> finish_del collection id planned)

  -- `try_del_local` from its loop on, and `del_exclusive`.
  unfoldable pub del_checked : Clock → String → String → Action (Db w) Bool
  unfolding plan_mutation webhook_records_for_prepared persist_command_batch remove_in
  del_checked k collection id = do
    handle ← collection_handle w collection
    let before = object_in w id handle
    if is_some before then write_del k collection id before else pure false

  unfoldable pub del_exclusive : Clock → String → String → Action (Db w) Bool
  unfolding del_checked
  del_exclusive k collection id = ensure_writable w >> del_checked k collection id

  unfoldable pub try_del_local : Clock → String → String → Action (Db w) (Option Bool)
  unfolding del_checked
  try_del_local k collection id = do
    ensure_writable w
    exclusive ← gets (λ s. w.fences.requires_exclusive_roam_path collection s.geofences)
    if exclusive then pure none else (do done ← del_checked k collection id; pure (some done))

  unfoldable pub del : Clock → String → String → Action (Db w) Bool
  unfolding try_del_local del_exclusive
  del k collection id = do
    first ← try_del_local k collection id
    or_else (del_exclusive k collection id) first
