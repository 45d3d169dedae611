-- ===== src/Core/Engine/Recovery/Restart.antt =====
-- A restart: `build` of crates/latlng-core/src/lib.rs on the log that a database leaves.
use latlng.Prelude.{ℕ, String, List, [], ◌∷◌, ◌≡◌, refl, sym, ap, ◌∙◌, ok, length}
use latlng.Storage.{replay_entries, replay_from}
use latlng.Storage.Memory
use latlng.Storage.Memory.{MemoryBackend}
use latlng.Core.World.{World}
use latlng.Core.Collection
use latlng.Core.Engine.{Clock, Config, Db, Catalog, VersionedCollection}
use latlng.Core.Engine.Restore.{remove_each, without, load_entry, gc_collections, opened, build}
use latlng.Core.Engine.Effect.{Plain, strip}
use latlng.Core.Engine.Recovery.{Recovers}
use latlng.Core.Engine.Recovery.Run.{Call, run, fresh, SparesGeometry, run-Recovers}
use latlng.Core.Engine.Recovery.Replay.{ReadsBack, retain-Encodes, replay_from-effects}

module _ (w : World) where
  -- The removal of what is due, of collections without versions.
  abbrev due : ℕ → Collection.Collection w.crates → List String
  due now c = Collection.due_expirations w.crates now (length c.expirations) c

  abbrev sweep : ℕ → Plain w → Plain w
  sweep now [] = []
  sweep now ((name, c) ∷ p) = (name, remove_each w (due now c) c) ∷ sweep now p

  without-remove_each :
      (ids : List String) (v : VersionedCollection w)
      → (without w ids v).collection ≡ remove_each w ids v.collection
  unfolding remove_each
  without-remove_each [] v = refl
  without-remove_each (id ∷ ids) v = refl

  strip-gc_collections :
      (now : ℕ) (m : Catalog w) → strip w (gc_collections w now m) ≡ sweep now (strip w m)
  unfolding gc_collections
  strip-gc_collections now [] = refl
  strip-gc_collections now ((name, v) ∷ m) =
      λ i. (name, without-remove_each (due now v.collection) v i) ∷ strip-gc_collections now m i

  -- A database that the log can rebuild is rebuilt by a restart, less what is due by then.
  Recovers-build :
      (now : ℕ) (config : Config) (s : Db w)
      → Recovers w s
      → ReadsBack w s.storage.entries
      → (db : Db w) × (build w now s.storage config ≡ ok db)
        × (strip w db.collections ≡ strip w (gc_collections w now s.collections))
  unfolding build Memory.replay replay_entries
  Recovers-build now config s r b =
      let (last, x, q, same) =
        replay_from-effects w now r.records s.storage.entries 0 (0, ([], w.fences.empty)) _
          r.encodes b (r.rebuilds now) in
      (
        _,
        ap
              (λ es.
                opened w now s.storage config
                  (replay_from (load_entry w now) 0 es (0, ([], w.fences.empty))))
              (retain-Encodes w r.records s.storage.entries r.encodes)
            ∙ ap (opened w now s.storage config) q,
        strip-gc_collections now x.1.0
            ∙ ap (sweep now) same
            ∙ sym (strip-gc_collections now s.collections),
      )

  -- Whatever commands a recording database serves from an empty log on, if none of them ends in an
  -- error of a geometry and serde_json reads back the records of the log: opening the database again
  -- on the log it leaves succeeds, at whatever time and under whatever configuration, and then it
  -- has exactly what `gc_collections` leaves at that time of the collections it had, with their
  -- objects and indexes, versions aside.
  pub run-build :
      (now : ℕ) (config config' : Config) (cs : List (Clock × Call w.fences.Def))
      → SparesGeometry w (fresh w config) cs
      → ReadsBack w (run w (fresh w config) cs).storage.entries
      → (db : Db w) × (build w now (run w (fresh w config) cs).storage config' ≡ ok db)
        × (strip w db.collections
            ≡ strip w (gc_collections w now (run w (fresh w config) cs).collections))
  run-build now config config' cs h b =
      Recovers-build now config' (run w (fresh w config) cs) (run-Recovers w config cs h) b
