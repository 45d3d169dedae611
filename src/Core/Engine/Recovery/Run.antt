-- ===== src/Core/Engine/Recovery/Run.antt =====
-- Sequences of the engine's commands, of crates/latlng-core/src/commands.rs, src/admin.rs and
-- src/geofences.rs, and the log after them.
use latlng.Prelude.{refl, ℕ, String, Bool, List, [], ◌∷◌, Result, ok, err, map_ok}
use latlng.Storage.Memory
use latlng.Core.Fields.{FieldEntry}
use latlng.Core.Records.{SetRequest}
use latlng.Core.Action.{CoreError, Action}
use latlng.Core.World.{World}
use latlng.Core.Engine.{Clock, Config, Db}
use latlng.Core.Engine.Objects
use latlng.Core.Engine.Edits
use latlng.Core.Engine.Collections
use latlng.Core.Engine.Effect.{effects}
use latlng.Core.Engine.Recovery.{Recovers}
use latlng.Core.Engine.Recovery.Outcomes.{Good, NoGeo}
use latlng.Core.Engine.Recovery.Deletes.{pdel-Good}
use latlng.Core.Engine.Recovery.Edits.{expire-Good, persist-Good}
use latlng.Core.Engine.Recovery.Catalogs.{
  create_collection-Good, drop_collection-Good, rename_inner-Good, flushdb-Good,
}
use latlng.Core.Engine.Recovery.Hooks.{
  setchan-Good, sethook-Good, delchan-Good, pdelchan-Good, delhook-Good, pdelhook-Good,
}
use latlng.Core.Engine.Recovery.Commands.{
  set-Good, del-Good, fset-Good, jset-Good, jdel-Good, expire_due-Good,
}

-- The commands that write objects, collections, hooks and channels, with their arguments. The methods that
-- write the log as such, those of replication and `gc` are not among them.
pub data Call (D : Type 0) : Type 0 where
  set : SetRequest → Call D
  del : String → String → Call D
  fset : String → String → List FieldEntry → Bool → Call D
  expire : String → String → ℕ → Call D
  persist : String → String → Call D
  jset : String → String → String → String → Bool → Call D
  jdel : String → String → String → Call D
  pdel : String → String → Call D
  create_collection : String → Call D
  drop_collection : String → Call D
  rename : String → String → Bool → Call D
  flushdb : Call D
  expire_due : ℕ → Call D
  setchan : String → D → Call D
  delchan : String → Call D
  pdelchan : String → Call D
  sethook : String → String → D → Call D
  delhook : String → Call D
  pdelhook : String → Call D

module _ (w : World) where
  -- The answer is dropped, the error kept.
  abbrev pub quiet : {A : Type 0} → Action (Db w) A → Action (Db w) (Unit {0})
  quiet m s = (map_ok (λ _. tt) (m s).0, (m s).1)

  unfoldable pub step : Clock → Call w.fences.Def → Action (Db w) (Unit {0})
  step k (Call.set req) = quiet (Objects.set w k req)
  step k (Call.del name id) = quiet (Objects.del w k name id)
  step k (Call.fset name id fields xx) = quiet (Edits.fset w k name id fields xx)
  step k (Call.expire name id seconds) = quiet (Edits.expire w k name id seconds)
  step k (Call.persist name id) = quiet (Edits.persist w k name id)
  step k (Call.jset name id path value raw) = quiet (Edits.jset w k name id path value raw)
  step k (Call.jdel name id path) = quiet (Edits.jdel w k name id path)
  step k (Call.pdel name pattern) = quiet (Collections.pdel w k name pattern)
  step k (Call.create_collection name) = quiet (Collections.create_collection w k name)
  step k (Call.drop_collection name) = quiet (Collections.drop_collection w k name)
  step k (Call.rename name new_name nx_only) =
      quiet (Collections.rename_inner w k name new_name nx_only)
  step k Call.flushdb = quiet (Collections.flushdb w k)
  step k (Call.expire_due most) = quiet (Collections.expire_due w k k.millis most)
  step k (Call.setchan name def) = quiet (Collections.setchan w k name def)
  step k (Call.delchan name) = quiet (Collections.delchan w k name)
  step k (Call.pdelchan pattern) = quiet (Collections.pdelchan w k pattern)
  step k (Call.sethook name endpoint def) = quiet (Collections.sethook w k name endpoint def)
  step k (Call.delhook name) = quiet (Collections.delhook w k name)
  step k (Call.pdelhook pattern) = quiet (Collections.pdelhook w k pattern)

  unfoldable pub run : Db w → List (Clock × Call w.fences.Def) → Db w
  unfolding step
  run s [] = s
  run s ((k, c) ∷ cs) = run (step k c s).1 cs

  -- No call ends in an error of a geometry. Any other error may end it.
  abbrev pub SparesGeometry : Db w → List (Clock × Call w.fences.Def) → Type 0
  SparesGeometry s [] = Unit
  SparesGeometry s ((k, c) ∷ cs) = NoGeo w (step k c s).0 × SparesGeometry (step k c s).1 cs

  -- A database that records its commands, opened on an empty log.
  abbrev pub fresh : Config → Db w
  fresh config = record {
    collections = [];
    geofences = w.fences.empty;
    storage = Memory.recording;
    config = config;
    next_sequence = 0;
    expired_objects_total = 0;
  }

  fresh-Recovers : (config : Config) → Recovers w (fresh config)
  unfolding effects
  fresh-Recovers config = record { logs = refl; records = []; encodes = tt; rebuilds = λ now. refl }

  noisy : {A : Type 0} (r : Result CoreError A) → NoGeo w (map_ok (λ _. tt) r) → NoGeo w r
  noisy (ok a) n = n
  noisy (err e) n = n

  quiet-Good : {A : Type 0} (m : Action (Db w) A) (s : Db w) → Good w (m s) → Good w (quiet m s)
  quiet-Good m s g = record { after = λ n. g.after (noisy (m s).0 n) }

  step-Good : (k : Clock) (c : Call w.fences.Def) (s : Db w) → Recovers w s → Good w (step k c s)
  unfolding step
  step-Good k (Call.set req) s r = quiet-Good (Objects.set w k req) s (set-Good w k req s r)
  step-Good k (Call.del name id) s r =
      quiet-Good (Objects.del w k name id) s (del-Good w k name id s r)
  step-Good k (Call.fset name id fields xx) s r =
      quiet-Good (Edits.fset w k name id fields xx) s (fset-Good w k name id fields xx s r)
  step-Good k (Call.expire name id seconds) s r =
      quiet-Good (Edits.expire w k name id seconds) s (expire-Good w k name id seconds s r)
  step-Good k (Call.persist name id) s r =
      quiet-Good (Edits.persist w k name id) s (persist-Good w k name id s r)
  step-Good k (Call.jset name id path value raw) s r =
      quiet-Good (Edits.jset w k name id path value raw) s
        (jset-Good w k name id path value raw s r)
  step-Good k (Call.jdel name id path) s r =
      quiet-Good (Edits.jdel w k name id path) s (jdel-Good w k name id path s r)
  step-Good k (Call.pdel name pattern) s r =
      quiet-Good (Collections.pdel w k name pattern) s (pdel-Good w k name pattern s r)
  step-Good k (Call.create_collection name) s r =
      quiet-Good (Collections.create_collection w k name) s (create_collection-Good w k name s r)
  step-Good k (Call.drop_collection name) s r =
      quiet-Good (Collections.drop_collection w k name) s (drop_collection-Good w k name s r)
  step-Good k (Call.rename name new_name nx_only) s r =
      quiet-Good (Collections.rename_inner w k name new_name nx_only) s
        (rename_inner-Good w k name new_name nx_only s r)
  step-Good k Call.flushdb s r = quiet-Good (Collections.flushdb w k) s (flushdb-Good w k s r)
  step-Good k (Call.expire_due most) s r =
      quiet-Good (Collections.expire_due w k k.millis most) s
        (expire_due-Good w k k.millis most s r)
  step-Good k (Call.setchan name def) s r =
      quiet-Good (Collections.setchan w k name def) s (setchan-Good w k name def s r)
  step-Good k (Call.delchan name) s r =
      quiet-Good (Collections.delchan w k name) s (delchan-Good w k name s r)
  step-Good k (Call.pdelchan pattern) s r =
      quiet-Good (Collections.pdelchan w k pattern) s (pdelchan-Good w k pattern s r)
  step-Good k (Call.sethook name endpoint def) s r =
      quiet-Good (Collections.sethook w k name endpoint def) s
        (sethook-Good w k name endpoint def s r)
  step-Good k (Call.delhook name) s r =
      quiet-Good (Collections.delhook w k name) s (delhook-Good w k name s r)
  step-Good k (Call.pdelhook pattern) s r =
      quiet-Good (Collections.pdelhook w k pattern) s (pdelhook-Good w k pattern s r)

  run_from-Recovers :
      (cs : List (Clock × Call w.fences.Def)) (s : Db w)
      → Recovers w s
      → SparesGeometry s cs
      → Recovers w (run s cs)
  unfolding run
  run_from-Recovers [] s r h = r
  run_from-Recovers ((k, c) ∷ cs) s r h =
      run_from-Recovers cs (step k c s).1 ((step-Good k c s r).after h.0) h.1

  -- Whatever commands a recording database serves from an empty log on, as long as none of them ends
  -- in an error of a geometry, its log holds records that serde_json has written under positive
  -- numbers, and the effects of these records, at whatever time they are replayed, give exactly its
  -- collections, versions aside.
  pub run-Recovers :
      (config : Config) (cs : List (Clock × Call w.fences.Def))
      → SparesGeometry (fresh config) cs
      → Recovers w (run (fresh config) cs)
  run-Recovers config cs h = run_from-Recovers cs (fresh config) (fresh-Recovers config) h
