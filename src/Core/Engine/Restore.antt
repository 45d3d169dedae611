-- ===== src/Core/Engine/Restore.antt =====
-- The replay of the log: crates/latlng-core/src/restore.rs, src/log_codec.rs, `build` of src/lib.rs and
-- `gc_collections_locked` of src/util.rs.
use latlng.Prelude.{
  ℕ, String, Option, none, some, Bool, List, [], ◌∷◌, Result, ok, err, map_ok, omap, length,
  string_key, ◌>>=◌,
}
use latlng.Prelude.Map
use latlng.Storage.{Bytes, StorageEntry, StorageError}
use latlng.Storage.Memory.{MemoryBackend}
use latlng.Storage.Memory
use latlng.Geo.Json.{Value}
use latlng.Geo.JsonPath.{set_json_path, delete_json_path}
use latlng.Geo.Object.{GeoType, Object}
use latlng.Core.Fields.{field_entries_to_map}
use latlng.Core.Records.{Command, LogRecord, SetRequest, PersistedSetRecord}
use latlng.Core.Action.{CoreError}
use latlng.Core.World.{World}
use latlng.Core.Collection
use latlng.Core.Engine.{
  deadline_of, Config, Db, Catalog, Record, VersionedCollection, bump, ensure_cell, update_cell,
}
use latlng.Core.Engine.Objects.{upserted}
use latlng.Core.Engine.Edits.{changed, jset_payload}
use latlng.Core.Engine.Collections.{renamed}

module _ (w : World) where
  -- Four decoders, one after the other.
  unfoldable pub decode_log_record : Bytes → Result CoreError (Record w)
  decode_log_record b = elim (w.json_record b) [
    | some r ↦ ok r
    | none ↦ elim (w.bincode_record b) [
      | some r ↦ ok r
      | none ↦ elim (w.json_command b) [
        | some c ↦ ok (LogRecord.command c)
        | none ↦ elim (w.bincode_command b) [
          | some c ↦ ok (LogRecord.command c)
          | none ↦ err CoreError.codec
        ]
      ]
    ]
  ]

  -- The collections and the registry, which a replay writes.
  abbrev pub Target : Type 0
  Target = Catalog w × w.fences.Registry

  -- `upsert(object)?` in a collection that is made where it is missing.
  abbrev pub put_cell :
      Result CoreError (Unit {0}) × VersionedCollection w
      → String
      → Catalog w
      → Result CoreError (Catalog w)
  put_cell (ok _, v) name m = ok (Map.insert name v m)
  put_cell (err e, v) name m = err e

  abbrev pub load_in : String → Object → Catalog w → Result CoreError (Catalog w)
  load_in name o m = elim (Map.get name m) [
    | none ↦ ok m
    | some v ↦ put_cell (upserted w v (Collection.upsert w.crates o v.collection)) name m
  ]

  unfoldable pub load_object : String → Object → Catalog w → Result CoreError (Catalog w)
  unfolding ensure_cell Collection.upsert
  load_object name o m = load_in name o (ensure_cell w name m)

  -- A write that counts as a new version where it finds the object.
  abbrev pub load_change :
      String
      → (Collection.Collection w.crates → Bool × Collection.Collection w.crates)
      → Catalog w
      → Catalog w
  load_change name f = update_cell w name (λ v. (changed w v (f v.collection)).1)

  -- An edit of GeoJSON in place, whose own error is dropped, and the new spatial entry.
  abbrev pub json_in : (Value → Value) → Object → GeoType → Option Object
  json_in edit o (GeoType.geo_json v) = some (record o { geo = GeoType.geo_json (edit v) })
  json_in edit o _ = none

  abbrev pub with_json : (Value → Value) → Object → Option Object
  with_json edit o = json_in edit o o.geo

  abbrev pub edited : String → Object → VersionedCollection w → VersionedCollection w
  edited id o v = bump w v (
      Collection.reindex_spatial w.crates id
        (record v.collection { objects = Map.insert id o v.collection.objects }))

  abbrev pub edit_if : String → Option Object → VersionedCollection w → VersionedCollection w
  edit_if id none v = v
  edit_if id (some o) v = edited id o v

  abbrev pub edit_object :
      String → (Value → Value) → Option Object → VersionedCollection w → VersionedCollection w
  edit_object id edit none v = v
  edit_object id edit (some o) v = edit_if id (with_json edit o) v

  unfoldable pub load_edit : String → String → (Value → Value) → Catalog w → Catalog w
  unfolding update_cell Collection.reindex_spatial
  load_edit name id edit =
      update_cell w name (λ v. edit_object id edit (Map.get id v.collection.objects) v)

  abbrev pub load_rename : String → String → Catalog w → Catalog w
  load_rename name new_name m = elim (Map.get name m) [
    | none ↦ m
    | some v ↦ Map.insert new_name (renamed w new_name v) (Map.remove name m)
  ]

  abbrev pub with_registry :
      w.fences.Registry → Result CoreError (Catalog w) → Result CoreError Target
  with_registry g r = map_ok (λ m. (m, g)) r

  abbrev pub requested : ℕ → SetRequest → Object
  requested now r = record {
    id = r.id;
    geo = r.object;
    fields = field_entries_to_map r.fields;
    expires_at = omap (deadline_of now) r.expire_seconds;
  }

  abbrev pub restored : PersistedSetRecord → Object
  restored r = record {
    id = r.id;
    geo = r.object;
    fields = field_entries_to_map r.fields;
    expires_at = r.expires_at_ms;
  }

  -- A definition that cannot be evaluated is skipped.
  abbrev pub if_evaluable :
      w.fences.Def → (w.fences.Registry → w.fences.Registry) → w.fences.Registry → w.fences.Registry
  if_evaluable def f g = elim (w.fences.ensure_geofence_evaluable def) [ ok _ ↦ f g | err e ↦ g ]

  unfoldable pub apply_persisted_command :
      ℕ → Command w.fences.Def → Target → Result CoreError Target
  unfolding load_object update_cell load_edit ensure_cell Collection.remove Collection.insert_fields
      Collection.set_expiry set_json_path delete_json_path
  apply_persisted_command now (Command.set r) (m, g) =
      with_registry g (load_object r.collection (requested now r) m)
  apply_persisted_command now (Command.del name id) (m, g) =
      ok (update_cell w name (λ v. bump w v (Collection.remove w.crates id v.collection).1) m, g)
  apply_persisted_command now (Command.drop_collection name) (m, g) = ok (Map.remove name m, g)
  apply_persisted_command now (Command.rename name new_name) (m, g) =
      ok (load_rename name new_name m, g)
  apply_persisted_command now (Command.fset name id fields xx) (m, g) =
      ok (load_change name (Collection.insert_fields w.crates id fields) m, g)
  apply_persisted_command now (Command.expire name id seconds) (m, g) =
      ok
        (load_change name (Collection.set_expiry w.crates id (some (deadline_of now seconds))) m, g)
  apply_persisted_command now (Command.persist name id) (m, g) =
      ok (load_change name (Collection.set_expiry w.crates id none) m, g)
  apply_persisted_command now (Command.jset name id path value raw) (m, g) =
      ok (load_edit name id (λ v. (set_json_path v path (jset_payload w value raw)).1) m, g)
  apply_persisted_command now (Command.jdel name id path) (m, g) =
      ok (load_edit name id (λ v. (delete_json_path v path).1) m, g)
  apply_persisted_command now (Command.set_hook name endpoint def) (m, g) =
      ok (m, if_evaluable def (w.fences.set_hook name endpoint def) g)
  apply_persisted_command now (Command.del_hook name) (m, g) = ok (m, (w.fences.del_hook name g).0)
  apply_persisted_command now (Command.pdel_hook pattern) (m, g) =
      ok (m, (w.fences.pdel_hook pattern g).0)
  apply_persisted_command now (Command.set_channel name def) (m, g) =
      ok (m, if_evaluable def (w.fences.set_channel name def) g)
  apply_persisted_command now (Command.del_channel name) (m, g) =
      ok (m, (w.fences.del_channel name g).0)
  apply_persisted_command now (Command.pdel_channel pattern) (m, g) =
      ok (m, (w.fences.pdel_channel pattern g).0)
  apply_persisted_command now Command.flush_db (m, g) = ok ([], w.fences.clear_all g)
  apply_persisted_command now (Command.set_persisted r) (m, g) =
      with_registry g (load_object r.collection (restored r) m)
  apply_persisted_command now (Command.expire_at name id t) (m, g) =
      ok (load_change name (Collection.set_expiry w.crates id (some t)) m, g)
  apply_persisted_command now (Command.create_collection name) (m, g) = ok (ensure_cell w name m, g)

  -- The match of `apply_persisted_entry_to_state`: webhook records change nothing here.
  unfoldable pub apply_record : ℕ → Record w → Target → Result CoreError Target
  unfolding apply_persisted_command
  apply_record now (LogRecord.command c) t = apply_persisted_command now c t
  apply_record now _ t = ok t

  unfoldable pub apply_persisted_entry : ℕ → StorageEntry → Target → Result CoreError Target
  unfolding decode_log_record apply_record
  apply_persisted_entry now e t = decode_log_record e.command >>= λ r. apply_record now r t

  -- The callback of the replay in `build`, over `last_sequence`, the collections and the registry.
  -- An error leaves a target that is dropped.
  abbrev pub noted :
      ℕ → Target → Result CoreError Target → Result StorageError (Unit {0}) × (ℕ × Target)
  noted sequence t (ok t') = (ok tt, (sequence, t'))
  noted sequence t (err e) = (err (StorageError.message []), (sequence, t))

  unfoldable pub load_entry :
      ℕ → StorageEntry → ℕ × Target → Result StorageError (Unit {0}) × (ℕ × Target)
  unfolding apply_persisted_entry
  load_entry now e (last, t) = noted e.sequence t (apply_persisted_entry now e t)

  -- The ids that are due are removed; a collection that loses some gets a new version.
  unfoldable pub remove_each :
      List String → Collection.Collection w.crates → Collection.Collection w.crates
  unfolding Collection.remove
  remove_each [] c = c
  remove_each (id ∷ ids) c = remove_each ids (Collection.remove w.crates id c).1

  abbrev pub without : List String → VersionedCollection w → VersionedCollection w
  without [] v = v
  without (id ∷ ids) v = bump w v (remove_each (id ∷ ids) v.collection)

  unfoldable pub gc_collections : ℕ → Catalog w → Catalog w
  unfolding remove_each Collection.due_expirations
  gc_collections now [] = []
  gc_collections now ((name, v) ∷ m) =
      (
        name,
        without
            (Collection.due_expirations w.crates now (length v.collection.expirations) v.collection)
            v,
      )
      ∷ gc_collections now m

  abbrev pub opened :
      ℕ → MemoryBackend → Config → Result StorageError ℕ × (ℕ × Target) → Result CoreError (Db w)
  opened now b config (err e, s) = err (CoreError.storage e)
  opened now b config (ok _, (last, (m, g))) = ok (record {
    collections = gc_collections now m;
    geofences = g;
    storage = b;
    config = config;
    next_sequence = last;
    expired_objects_total = 0;
  })

  unfoldable pub build : ℕ → MemoryBackend → Config → Result CoreError (Db w)
  unfolding load_entry gc_collections Memory.replay
  build now b config =
      opened now b config (Memory.replay b 0 (load_entry now) (0, ([], w.fences.empty)))
