-- ===== src/Core/Engine/Edits.antt =====
-- The commands that change an object in place, of crates/latlng-core/src/commands.rs: fields, deadlines
-- and edits of GeoJSON.
use latlng.Prelude.{◌>>=◌ as ◌>>=ᵣ◌}
use latlng.Prelude.{
  String, Option, none, some, Bool, true, false, List, [], ◌∷◌, Result, ok, err, map_err, map_ok,
  if◌then◌else◌, is_some, get_or, string_key, ℕ,
}
use latlng.Prelude.Map
use latlng.Geo.Json.{Value}
use latlng.Geo.JsonPath.{GeoError, set_json_path, delete_json_path}
use latlng.Geo.Object.{GeoType, Object, validate_geo}
use latlng.Geofence.{MutationCommand}
use latlng.Core.Fields.{FieldEntry, apply_field_updates}
use latlng.Core.Records.{Command, LogRecord}
use latlng.Core.Action.{CoreError, Action, pure, fail, lift, gets, ◌>>=◌, ◌>>◌}
use latlng.Core.World.{World}
use latlng.Core.Collection
use latlng.Core.Engine.{
  Clock, deadline_of, Db, Record, VersionedCollection, bump, existing_collection_handle,
  ensure_writable, plan_mutation, webhook_records_for_prepared, with_plan, then_apply,
}
use latlng.Core.Engine.Log.{persist_command_batch, append_log_records, append_command}
use latlng.Core.Engine.Objects.{event_of, or_else}

abbrev pub object_or : CoreError → Option Object → Result CoreError Object
object_or e none = err e
object_or e (some o) = ok o

module _ (w : World) where
  -- A write through a handle that tells whether it found the object, and the next version if so.
  abbrev pub changed :
      VersionedCollection w → Bool × Collection.Collection w.crates → Bool × VersionedCollection w
  changed v (true, c) = (true, bump w v c)
  changed v (false, c) = (false, record v { collection = c })

  abbrev pub change_in :
      String
      → (Collection.Collection w.crates → Bool × Collection.Collection w.crates)
      → Action (Db w) Bool
  change_in name f s = elim (Map.get name s.collections) [
    | none ↦ (ok false, s)
    | some v ↦
        let r = changed v (f v.collection) in
        (ok r.0, record s { collections = Map.insert name r.1 s.collections })
  ]

  -- `return if xx { Ok(false) } else { Err(..) }`
  abbrev pub missing : String → String → Bool → Action (Db w) Bool
  missing collection id xx =
      if xx then pure false else fail (CoreError.object_not_found collection id)

  abbrev pub finish_fset :
      String → String → List FieldEntry → Bool → w.fences.Prepared → Action (Db w) Bool
  finish_fset collection id fields xx planned = do
    done ← change_in collection (Collection.insert_fields w.crates id fields)
    if done then then_apply w planned true else missing collection id xx

  abbrev pub write_fset :
      Clock → String → String → List FieldEntry → Bool → Option Object → Action (Db w) Bool
  write_fset k collection id fields xx none = missing collection id xx
  write_fset k collection id fields xx (some object) =
      let after = record object { fields = apply_field_updates object.fields fields } in
      with_plan w k (event_of MutationCommand.fset k collection id (some object) (some after))
        (λ planned records.
          persist_command_batch w k (Command.fset collection id fields xx) records
          >> finish_fset collection id fields xx planned)

  -- `try_fset_local` from its handle on, and `fset_exclusive`.
  unfoldable pub fset_checked :
      Clock → String → String → List FieldEntry → Bool → Action (Db w) Bool
  unfolding plan_mutation webhook_records_for_prepared persist_command_batch
      Collection.insert_fields apply_field_updates
  fset_checked k collection id fields xx = do
    handle ← existing_collection_handle w collection
    write_fset k collection id fields xx (Map.get id handle.collection.objects)

  unfoldable pub try_fset_local :
      Clock → String → String → List FieldEntry → Bool → Action (Db w) (Option Bool)
  unfolding fset_checked
  try_fset_local k collection id fields xx = do
    ensure_writable w
    exclusive ← gets (λ s. w.fences.requires_exclusive_roam_path collection s.geofences)
    if exclusive
        then pure none
        else (do done ← fset_checked k collection id fields xx; pure (some done))

  unfoldable pub fset : Clock → String → String → List FieldEntry → Bool → Action (Db w) Bool
  unfolding try_fset_local fset_checked
  fset k collection id fields xx = do
    first ← try_fset_local k collection id fields xx
    or_else w (ensure_writable w >> fset_checked k collection id fields xx) first

  abbrev pub finish_deadline : String → String → Option ℕ → Action (Db w) (Unit {0})
  finish_deadline collection id t = do
    done ← change_in collection (Collection.set_expiry w.crates id t)
    if done then pure tt else fail (CoreError.object_not_found collection id)

  -- `try_expire_local` and `try_persist_local`, which always answer. A round that finds the object
  -- gone starts over, and then reports it.
  abbrev pub deadline_set :
      Clock → String → String → Option ℕ → Command w.fences.Def → Action (Db w) (Unit {0})
  deadline_set k collection id t c = do
    ensure_writable w
    handle ← existing_collection_handle w collection
    lift (
        object_or (CoreError.object_not_found collection id) (Map.get id handle.collection.objects))
    append_command w k c
    finish_deadline collection id t

  unfoldable pub expire : Clock → String → String → ℕ → Action (Db w) (Unit {0})
  unfolding append_log_records Collection.set_expiry
  expire k collection id seconds =
      let t = deadline_of k.millis seconds in
      deadline_set k collection id (some t) (Command.expire_at collection id t)

  unfoldable pub persist : Clock → String → String → Action (Db w) (Unit {0})
  unfolding append_log_records Collection.set_expiry
  persist k collection id = deadline_set k collection id none (Command.persist collection id)

  -- `let GeoType::GeoJson(json) = &object.geo else ..`
  abbrev pub geo_json_of : GeoType → Result CoreError Value
  geo_json_of (GeoType.geo_json v) = ok v
  geo_json_of _ = err CoreError.invalid

  -- The records of an edit: the command, and a `Persist` where the object had a deadline.
  abbrev pub edit_records : String → String → Command w.fences.Def → Object → List (Record w)
  edit_records collection id c o =
      LogRecord.command c
      ∷ (if is_some o.expires_at
          then LogRecord.command (Command.persist collection id) ∷ []
          else [])

  -- `replace_geo(..)?`, then `set_expiry(id, None)` where the object had a deadline, then the next
  -- version.
  abbrev pub replaced :
      String
      → Bool
      → VersionedCollection w
      → Result GeoError Bool × Collection.Collection w.crates
      → Result CoreError (Unit {0}) × VersionedCollection w
  replaced id had_ttl v (ok _, c) =
      (ok tt, bump w v (if had_ttl then (Collection.set_expiry w.crates id none c).1 else c))
  replaced id had_ttl v (err e, c) = (err (CoreError.geo e), record v { collection = c })

  unfoldable pub replace_in : String → String → GeoType → Bool → Action (Db w) (Unit {0})
  unfolding Collection.replace_geo Collection.set_expiry
  replace_in name id geo had_ttl s = elim (Map.get name s.collections) [
    | none ↦ (ok tt, s)
    | some v ↦
        let r = replaced id had_ttl v (Collection.replace_geo w.crates id geo v.collection) in
        (r.0, record s { collections = Map.insert name r.1 s.collections })
  ]

  -- The checks of an edit: what it answers, and the edited value.
  abbrev pub checked_edit :
      (Value → Result GeoError Bool × Value) → Value → Result CoreError (Bool × Value)
  checked_edit edit json =
      let (r, v) = edit json in
      map_err CoreError.geo (
        r >>=ᵣ λ done.
        validate_geo w.as_f64 (GeoType.geo_json v) >>=ᵣ λ _. w.to_geometry v >>=ᵣ λ _. ok (done, v))

  abbrev pub finish_edit : String → String → Bool → Bool × Value → Action (Db w) Bool
  finish_edit collection id had_ttl (done, v) =
      replace_in collection id (GeoType.geo_json v) had_ttl >> pure done

  abbrev pub write_edit :
      Clock → String → String → Command w.fences.Def → Object → Bool × Value → Action (Db w) Bool
  write_edit k collection id c object e =
      append_log_records w k (edit_records collection id c object)
      >> finish_edit collection id (is_some object.expires_at) e

  unfoldable pub edit_geojson_local :
      Clock
      → String
      → String
      → (Value → Result GeoError Bool × Value)
      → Command w.fences.Def
      → Action (Db w) Bool
  unfolding validate_geo append_log_records replace_in
  edit_geojson_local k collection id edit c = do
    ensure_writable w
    handle ← existing_collection_handle w collection
    object ← lift (
        object_or (CoreError.object_not_found collection id) (Map.get id handle.collection.objects))
    json ← lift (geo_json_of object.geo)
    edited ← lift (checked_edit edit json)
    write_edit k collection id c object edited

  abbrev pub jset_payload : String → Bool → Value
  jset_payload value raw =
      if raw then get_or (w.from_str value) (Value.text value) else Value.text value

  abbrev pub set_edit : String → Value → Value → Result GeoError Bool × Value
  set_edit path payload v = let r = set_json_path v path payload in (map_ok (λ _. true) r.0, r.1)

  unfoldable pub jset : Clock → String → String → String → String → Bool → Action (Db w) (Unit {0})
  unfolding edit_geojson_local set_json_path
  jset k collection id path value raw = do
    edit_geojson_local k collection id (set_edit path (jset_payload value raw))
        (Command.jset collection id path value raw)
    pure tt

  unfoldable pub jdel : Clock → String → String → String → Action (Db w) Bool
  unfolding edit_geojson_local delete_json_path
  jdel k collection id path =
      edit_geojson_local k collection id (λ v. delete_json_path v path)
        (Command.jdel collection id path)
