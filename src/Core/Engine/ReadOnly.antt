-- ===== src/Core/Engine/ReadOnly.antt =====
-- Commands on a read-only database: `ensure_writable` of crates/latlng-core/src/internals.rs in the commands.
use latlng.Prelude.{true, ◌≡◌, refl, Result, ok, err, map_err, Result-cases, inl, inr}
use latlng.Geo.Object.{validate_geo}
use latlng.Core.Action.{CoreError}
use latlng.Core.World.{World}
use latlng.Core.Engine.{Clock, Db}
use latlng.Core.Engine.Objects
use latlng.Core.Engine.Edits
use latlng.Core.Engine.Collections
use latlng.Core.Engine.Recovery.Run.{Call, step}

module _ (w : World) where
  -- What a call answers: `expire_due` that there is nothing to do, every other one an error.
  abbrev pub Declined : Call w.fences.Def → Result CoreError (Unit {0}) → Type 0
  Declined (Call.expire_due most) r = r ≡ ok tt
  Declined _ r = (e : CoreError) × (r ≡ err e)

  -- A read-only database serves none of the commands that write objects, collections, hooks and channels:
  -- set, del, fset, expire, persist, jset, jdel, pdel, create_collection, drop_collection, rename, renamenx,
  -- flushdb, setchan, delchan, pdelchan, sethook, delhook and pdelhook end in an error, expire_due answers
  -- ok, and none of them changes any part of the database. Nothing is said of the methods that write the log
  -- as such (append_log_record, append_log_records, aofshrink, rewrite_log_snapshot), of those of replication
  -- (apply_replicated_entries, reset_replication_state), and of gc.
  pub step-read_only :
      (k : Clock) (c : Call w.fences.Def) (s : Db w)
      → s.config.is_read_only ≡ true
      → Declined c (step w k c s).0 × ((step w k c s).1 ≡ s)
  unfolding step Objects.set Objects.try_set_local Objects.del Objects.try_del_local Edits.fset
      Edits.try_fset_local Edits.expire Edits.persist Edits.jset Edits.jdel Edits.edit_geojson_local
      Collections.create_collection Collections.drop_collection Collections.rename_inner
      Collections.pdel Collections.flushdb Collections.expire_due Collections.setchan
      Collections.sethook Collections.delchan Collections.pdelchan Collections.delhook
      Collections.pdelhook
  step-read_only k (Call.set req) s h =
      elim (Result-cases (map_err CoreError.geo (validate_geo w.as_f64 req.object))) [
        | inl (u, p) ↦ rw p (rw h ((CoreError.read_only, refl), refl))
        | inr (e, p) ↦ rw p ((e, refl), refl)
      ]
  step-read_only k (Call.del name id) s h = rw h ((CoreError.read_only, refl), refl)
  step-read_only k (Call.fset name id fields xx) s h = rw h ((CoreError.read_only, refl), refl)
  step-read_only k (Call.expire name id seconds) s h = rw h ((CoreError.read_only, refl), refl)
  step-read_only k (Call.persist name id) s h = rw h ((CoreError.read_only, refl), refl)
  step-read_only k (Call.jset name id path value raw) s h = rw h ((CoreError.read_only, refl), refl)
  step-read_only k (Call.jdel name id path) s h = rw h ((CoreError.read_only, refl), refl)
  step-read_only k (Call.pdel name pattern) s h = rw h ((CoreError.read_only, refl), refl)
  step-read_only k (Call.create_collection name) s h = rw h ((CoreError.read_only, refl), refl)
  step-read_only k (Call.drop_collection name) s h = rw h ((CoreError.read_only, refl), refl)
  step-read_only k (Call.rename name new_name nx_only) s h =
      rw h ((CoreError.read_only, refl), refl)
  step-read_only k Call.flushdb s h = rw h ((CoreError.read_only, refl), refl)
  step-read_only k (Call.expire_due most) s h = rw h (refl, refl)
  step-read_only k (Call.setchan name def) s h =
      elim (Result-cases (w.fences.validate_geofence_def def)) [
        | inl (u, p) ↦ rw p (rw h ((CoreError.read_only, refl), refl))
        | inr (e, p) ↦ rw p ((e, refl), refl)
      ]
  step-read_only k (Call.delchan name) s h = rw h ((CoreError.read_only, refl), refl)
  step-read_only k (Call.pdelchan pattern) s h = rw h ((CoreError.read_only, refl), refl)
  step-read_only k (Call.sethook name endpoint def) s h =
      elim (Result-cases (w.fences.validate_geofence_def def)) [
        | inl (u, p) ↦ rw p (rw h ((CoreError.read_only, refl), refl))
        | inr (e, p) ↦ rw p ((e, refl), refl)
      ]
  step-read_only k (Call.delhook name) s h = rw h ((CoreError.read_only, refl), refl)
  step-read_only k (Call.pdelhook pattern) s h = rw h ((CoreError.read_only, refl), refl)
