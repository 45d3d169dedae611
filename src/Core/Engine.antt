-- ===== src/Core/Engine.antt =====
-- The engine's state and its internals: `VersionedCollection`, `Config` and `LatLng` of
-- crates/latlng-core/src/lib.rs, with src/engine.rs, src/internals.rs and src/catalog.rs. A method runs alone, as under the exclusive gate, so the version of a
-- collection does not change between its reads and its writes, and the loops that retry go round
-- once. The clock is read once for each method. The storage is the in-memory backend.
pub mod Log
pub mod Objects
pub mod Edits
pub mod Collections
pub mod Restore
pub mod Effect
pub mod Strip
pub mod Refinement
pub mod Recovery
pub mod ReadOnly
pub mod Examples
use latlng.Prelude.{
  ℕ, zero, suc, ◌+◌, ◌*◌, min, String, Option, none, some, Bool, true, false, not, List, [], ◌∷◌,
  map, retain, length, Result, ok, err, map_ok, map_err, leb, saturating_add, if◌then◌else◌, omap,
  string_key,
}
use latlng.Prelude.Map
use latlng.Prelude.Map.{Map}
use latlng.Storage.{Bytes, StorageEntry}
use latlng.Storage.Memory.{MemoryBackend, stores_command_log, append_batch}
use latlng.Geo.Object.{Object}
use latlng.Geofence.{GeofenceEvent, MutationEvent}
use latlng.Core.Records.{Command, LogRecord, LogRecord.command, WebhookEnqueueRecord}
use latlng.Core.Action.{CoreError, Action, pure, lift, gets, modify, ◌>>=◌, ◌>>◌}
use latlng.Core.World.{World}
use latlng.Core.Collection
use latlng.Core.Collection.{Collection}

-- The time in milliseconds and in nanoseconds.
pub record Clock : Type 0 where
  pub millis : ℕ
  pub nanos : ℕ

pub record Config : Type 0 where
  pub is_read_only : Bool
  pub webhook_retry_count : ℕ

-- `now.saturating_add(seconds * 1_000)`
abbrev pub deadline_of : ℕ → ℕ → ℕ
deadline_of now seconds = saturating_add now (seconds * 1000)

abbrev pub is_expired : ℕ → Object → Bool
is_expired now o = elim o.expires_at [ none ↦ false | some t ↦ leb t now ]

-- The `count` numbers above `next`.
unfoldable pub numbers_above : ℕ → ℕ → List ℕ
numbers_above next zero = []
numbers_above next (suc count) = (next + 1) ∷ numbers_above (next + 1) count

module _ (w : World) where
  abbrev pub Record : Type 0
  Record = LogRecord (Command w.fences.Def)

  pub record VersionedCollection : Type 0 where
    pub version : ℕ
    pub collection : Collection w.crates

  abbrev pub new_versioned : String → VersionedCollection
  new_versioned name = record { version = 0; collection = Collection.new w.crates name }

  -- `collection` written, and `version.saturating_add(1)`.
  abbrev pub bump : VersionedCollection → Collection w.crates → VersionedCollection
  bump v c = record { version = saturating_add v.version 1; collection = c }

  abbrev pub Catalog : Type 0
  Catalog = Map String VersionedCollection

  pub record Db : Type 0 where
    pub collections : Catalog
    pub geofences : w.fences.Registry
    pub storage : MemoryBackend
    pub config : Config
    pub next_sequence : ℕ
    pub expired_objects_total : ℕ

  -- `ensure_collection_cell` and `ensure_collection_cell_in_catalog`
  unfoldable pub ensure_cell : String → Catalog → Catalog
  unfolding Collection.new
  ensure_cell name m = elim (Map.get name m) [
    | none ↦ Map.insert name (new_versioned name) m
    | some v ↦ m
  ]

  -- What is written through a collection's handle, if there is one.
  unfoldable pub update_cell :
      String → (VersionedCollection → VersionedCollection) → Catalog → Catalog
  update_cell name f m = elim (Map.get name m) [ none ↦ m | some v ↦ Map.insert name (f v) m ]

  abbrev pub collection_handle : String → Action Db (Option VersionedCollection)
  collection_handle name = gets (λ s. Map.get name s.collections)

  abbrev pub found : String → Option VersionedCollection → Result CoreError VersionedCollection
  found name none = err (CoreError.collection_not_found name)
  found name (some v) = ok v

  abbrev pub existing_collection_handle : String → Action Db VersionedCollection
  existing_collection_handle name s = (found name (Map.get name s.collections), s)

  -- `collection_handle(..).and_then(|handle| .. objects.get(id).cloned())`
  abbrev pub object_in : String → Option VersionedCollection → Option Object
  object_in id none = none
  object_in id (some v) = Map.get id v.collection.objects

  abbrev pub write_collections : (Catalog → Catalog) → Action Db (Unit {0})
  write_collections f = modify (λ s. record s { collections = f s.collections })

  abbrev pub ensure_writable : Action Db (Unit {0})
  ensure_writable s = (if s.config.is_read_only then err CoreError.read_only else ok tt, s)

  unfoldable pub reserve_sequences : ℕ → Action Db (List ℕ)
  unfolding numbers_above
  reserve_sequences count s = (
    ok (numbers_above s.next_sequence count),
    record s { next_sequence = s.next_sequence + count },
  )

  -- The objects of a collection that have not expired.
  unfoldable pub live_objects : ℕ → Catalog → String → List Object
  live_objects now m name = elim (Map.get name m) [
    | none ↦ []
    | some v ↦ retain (λ o. not (is_expired now o)) (Map.values v.collection.objects)
  ]

  abbrev pub prepared_or_message : Option w.fences.Prepared → Result CoreError w.fences.Prepared
  prepared_or_message none = err CoreError.message
  prepared_or_message (some p) = ok p

  unfoldable pub plan_mutation : Clock → MutationEvent → Action Db w.fences.Prepared
  unfolding live_objects
  plan_mutation k event s = (
    prepared_or_message
        (w.fences.prepare_mutation event (live_objects k.millis s.collections) s.geofences),
    s,
  )

  abbrev pub enqueue_record : Clock → ℕ → GeofenceEvent → String → WebhookEnqueueRecord
  enqueue_record k retry_count event endpoint = record {
    job_id = "";
    event = event;
    endpoint = endpoint;
    attempts_used = 0;
    max_attempts = min (retry_count + 1) 4294967295;
    next_attempt_at_ms = k.millis;
  }

  -- An event of no hook enqueues nothing; one of a hook that is gone fails.
  unfoldable pub enqueue_records :
      Clock
      → ℕ
      → w.fences.Registry
      → List GeofenceEvent
      → Result CoreError (List WebhookEnqueueRecord)
  enqueue_records k retry_count g [] = ok []
  enqueue_records k retry_count g (event ∷ events) =
      let rest = enqueue_records k retry_count g events in
      elim event.hook [
        | none ↦ rest
        | some name ↦ elim (w.fences.hook_endpoint name g) [
          | none ↦ err CoreError.message
          | some endpoint ↦ map_ok (λ l. enqueue_record k retry_count event endpoint ∷ l) rest
        ]
      ]

  unfoldable pub webhook_records_for_prepared :
      Clock → w.fences.Prepared → Action Db (List WebhookEnqueueRecord)
  unfolding enqueue_records
  webhook_records_for_prepared k prepared s =
      (enqueue_records k s.config.webhook_retry_count s.geofences (w.fences.events prepared), s)

  abbrev pub apply_prepared_mutation : w.fences.Prepared → Action Db (Unit {0})
  apply_prepared_mutation p =
      modify (λ s. record s { geofences = w.fences.apply_prepared_mutation p s.geofences })

  -- What the commands that can set off a geofence share: the plan, and then the batch of the command
  -- and its webhooks.
  abbrev pub with_plan :
      {A : Type 0}
      → Clock
      → MutationEvent
      → (w.fences.Prepared → List WebhookEnqueueRecord → Action Db A)
      → Action Db A
  with_plan k event f = do
    planned ← plan_mutation k event
    records ← webhook_records_for_prepared k planned
    f planned records

  abbrev pub then_apply : {A : Type 0} → w.fences.Prepared → A → Action Db A
  then_apply planned a = apply_prepared_mutation planned >> pure a
