-- ===== src/Core/Engine/Collections.antt =====
-- The commands on whole collections, the deletion by pattern and by deadline, and the commands of
-- hooks and channels: crates/latlng-core/src/commands.rs, src/admin.rs and src/geofences.rs. Collections are
-- taken in the order of their names, where the source takes them in that of a HashMap.
use latlng.Prelude.{
  ℕ, ◌+◌, ◌-◌, String, Option, none, some, Bool, true, false, ◌&&◌, List, [], ◌∷◌, ◌++◌, leb, ok,
  map_err, if◌then◌else◌, is_some, retain, string_key,
}
use latlng.Prelude.Map
use latlng.Storage.Memory.{snapshot}
use latlng.Geo.Object.{Object}
use latlng.Geofence.{MutationCommand}
use latlng.Core.Records.{Command, WebhookEnqueueRecord}
use latlng.Core.Action.{CoreError, Action, pure, lift, gets, modify, ◌>>=◌, ◌>>◌}
use latlng.Core.World.{World}
use latlng.Core.Collection
use latlng.Core.Engine.{
  Clock, Db, VersionedCollection, bump, ensure_cell, collection_handle, existing_collection_handle,
  write_collections, ensure_writable, plan_mutation, webhook_records_for_prepared,
  apply_prepared_mutation,
}
use latlng.Core.Engine.Log.{persist_command_batch, append_log_records, append_command}
use latlng.Core.Engine.Objects.{event_of, del_exclusive}

module _ (w : World) where
  abbrev pub finish_create : String → Action (Db w) Bool
  finish_create collection = write_collections w (ensure_cell w collection) >> pure true

  abbrev pub write_create : Clock → String → Action (Db w) Bool
  write_create k collection =
      append_command w k (Command.create_collection collection) >> finish_create collection

  unfoldable pub create_collection : Clock → String → Action (Db w) Bool
  unfolding append_log_records ensure_cell
  create_collection k collection = do
    ensure_writable w
    handle ← collection_handle w collection
    if is_some handle then pure false else write_create k collection

  -- The mutations of the objects of a dropped collection, and what they enqueue.
  unfoldable pub plan_drops :
      Clock
      → String
      → List Object
      → Action (Db w) (List w.fences.Prepared × List WebhookEnqueueRecord)
  unfolding plan_mutation webhook_records_for_prepared
  plan_drops k collection [] = pure ([], [])
  plan_drops k collection (o ∷ os) = do
    planned ← plan_mutation w k (event_of MutationCommand.drop k collection o.id (some o) none)
    records ← webhook_records_for_prepared w k planned
    rest ← plan_drops k collection os
    pure (planned ∷ rest.0, records ++ rest.1)

  abbrev pub apply_all_prepared : List w.fences.Prepared → Action (Db w) (Unit {0})
  apply_all_prepared [] = pure tt
  apply_all_prepared (p ∷ ps) = apply_prepared_mutation w p >> apply_all_prepared ps

  abbrev pub finish_drop : String → List w.fences.Prepared → Action (Db w) Bool
  finish_drop collection planned = do
    write_collections w (Map.remove collection)
    apply_all_prepared planned
    pure true

  abbrev pub write_drop :
      Clock → String → List w.fences.Prepared × List WebhookEnqueueRecord → Action (Db w) Bool
  write_drop k collection planned =
      persist_command_batch w k (Command.drop_collection collection) planned.1
      >> finish_drop collection planned.0

  abbrev pub drop_found : Clock → String → Option (VersionedCollection w) → Action (Db w) Bool
  drop_found k collection none = pure false
  drop_found k collection (some v) = do
    planned ← plan_drops k collection (Map.values v.collection.objects)
    write_drop k collection planned

  unfoldable pub drop_collection : Clock → String → Action (Db w) Bool
  unfolding plan_drops persist_command_batch
  drop_collection k collection = do
    ensure_writable w
    handle ← collection_handle w collection
    drop_found k collection handle

  -- The handle under its new name.
  abbrev pub renamed : String → VersionedCollection w → VersionedCollection w
  renamed new_name v = bump w v (record v.collection { name = new_name })

  abbrev pub finish_rename : String → String → VersionedCollection w → Action (Db w) Bool
  finish_rename collection new_name handle = do
    write_collections w
        (λ m. Map.insert new_name (renamed new_name handle) (Map.remove collection m))
    pure true

  abbrev pub write_rename : Clock → String → String → Action (Db w) Bool
  write_rename k collection new_name = do
    handle ← existing_collection_handle w collection
    append_command w k (Command.rename collection new_name)
    finish_rename collection new_name handle

  unfoldable pub rename_inner : Clock → String → String → Bool → Action (Db w) Bool
  unfolding append_log_records
  rename_inner k collection new_name nx_only = do
    ensure_writable w
    taken ← gets (λ s. Map.contains_key new_name s.collections)
    if nx_only && taken then pure false else write_rename k collection new_name

  -- Deletes of the ids, one after the other, and how many of them found an object.
  unfoldable pub del_each : Clock → String → List String → ℕ → Action (Db w) ℕ
  unfolding del_exclusive
  del_each k collection [] count = pure count
  del_each k collection (id ∷ ids) count = do
    done ← del_exclusive w k collection id
    del_each k collection ids (if done then count + 1 else count)

  abbrev pub ids_in : Option (VersionedCollection w) → List String
  ids_in none = []
  ids_in (some v) = Map.keys v.collection.objects

  unfoldable pub pdel : Clock → String → String → Action (Db w) ℕ
  unfolding del_each
  pdel k collection pattern = do
    ensure_writable w
    handle ← collection_handle w collection
    del_each k collection (retain (w.glob_match pattern) (ids_in handle)) 0

  abbrev pub due_in : ℕ → ℕ → Option (VersionedCollection w) → List String
  due_in now most none = []
  due_in now most (some v) = Collection.due_expirations w.crates now most v.collection

  -- The loop of `expire_due` over the names, with its variable `expired`.
  unfoldable pub expire_each : Clock → ℕ → ℕ → List String → ℕ → Action (Db w) ℕ
  unfolding del_each Collection.due_expirations
  expire_each k now most [] expired = pure expired
  expire_each k now most (name ∷ names) expired = do
    handle ← collection_handle w name
    if leb most expired then pure expired else do
      count ← del_each k name (due_in now (most - expired) handle) expired
      expire_each k now most names count

  unfoldable pub expire_due : Clock → ℕ → ℕ → Action (Db w) ℕ
  unfolding expire_each
  expire_due k now most = do
    read_only ← gets (λ s. s.config.is_read_only)
    names ← gets (λ s. Map.keys s.collections)
    if read_only then pure 0 else do
      expired ← expire_each k now most names 0
      modify (λ s. record s { expired_objects_total = s.expired_objects_total + expired })
      pure expired

  -- `self.storage.snapshot(Vec::new())?`
  abbrev pub clear_log : Action (Db w) (Unit {0})
  clear_log s =
      let r = snapshot s.storage [] in (map_err CoreError.storage r.0, record s { storage = r.1 })

  abbrev pub finish_flush : Action (Db w) (Unit {0})
  finish_flush = do
    modify (λ s. record s { collections = []; geofences = w.fences.clear_all s.geofences })
    clear_log

  unfoldable pub flushdb : Clock → Action (Db w) (Unit {0})
  unfolding append_log_records
  flushdb k = do ensure_writable w; append_command w k Command.flush_db; finish_flush

  -- A command of hooks or channels: logged, then done.
  abbrev pub registered :
      Clock
      → Command w.fences.Def
      → (w.fences.Registry → w.fences.Registry)
      → Action (Db w) (Unit {0})
  registered k c f = do
    ensure_writable w
    append_command w k c
    modify (λ s. record s { geofences = f s.geofences })

  unfoldable pub setchan : Clock → String → w.fences.Def → Action (Db w) (Unit {0})
  unfolding append_log_records
  setchan k name def =
      lift (w.fences.validate_geofence_def def)
      >> registered k (Command.set_channel name def) (w.fences.set_channel name def)

  unfoldable pub sethook : Clock → String → String → w.fences.Def → Action (Db w) (Unit {0})
  unfolding append_log_records
  sethook k name endpoint def =
      lift (w.fences.validate_geofence_def def)
      >> registered k (Command.set_hook name endpoint def) (w.fences.set_hook name endpoint def)

  -- A deletion, and its answer.
  abbrev pub finish_unregistered :
      {A : Type 0} → (w.fences.Registry → w.fences.Registry × A) → Action (Db w) A
  finish_unregistered f s = (ok (f s.geofences).1, record s { geofences = (f s.geofences).0 })

  abbrev pub unregistered :
      {A : Type 0}
      → Clock
      → Command w.fences.Def
      → (w.fences.Registry → w.fences.Registry × A)
      → Action (Db w) A
  unregistered k c f = do ensure_writable w; append_command w k c; finish_unregistered f

  unfoldable pub delchan : Clock → String → Action (Db w) Bool
  unfolding append_log_records
  delchan k name = unregistered k (Command.del_channel name) (w.fences.del_channel name)

  unfoldable pub pdelchan : Clock → String → Action (Db w) ℕ
  unfolding append_log_records
  pdelchan k pattern = unregistered k (Command.pdel_channel pattern) (w.fences.pdel_channel pattern)

  unfoldable pub delhook : Clock → String → Action (Db w) Bool
  unfolding append_log_records
  delhook k name = unregistered k (Command.del_hook name) (w.fences.del_hook name)

  unfoldable pub pdelhook : Clock → String → Action (Db w) ℕ
  unfolding append_log_records
  pdelhook k pattern = unregistered k (Command.pdel_hook pattern) (w.fences.pdel_hook pattern)
