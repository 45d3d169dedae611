-- ===== src/Core/Engine/Recovery/Catalogs.antt =====
-- The commands on collections keep the log able to rebuild the collections.
use latlng.Prelude.{
  String, Option, none, some, Bool, true, false, ◌&&◌, List, [], ◌∷◌, ◌++◌, ◌≡◌, refl, sym, ap, ◌∙◌,
  Result, ok, err, Result-cases, inl, inr, is_some, if◌then◌else◌, string_key, subst,
}
use latlng.Prelude.Map
use latlng.Storage.{assert_strictly_increasing}
use latlng.Storage.Memory.{snapshot, ensure_open}
use latlng.Geo.Object.{Object}
use latlng.Geofence.{MutationCommand}
use latlng.Core.Records.{Command, LogRecord, WebhookEnqueueRecord}
use latlng.Core.Action.{CoreError, Action, pure, continue, ◌>>◌}
use latlng.Core.World.{World}
use latlng.Core.Engine.{
  Clock, Db, VersionedCollection, ensure_cell, found, ensure_writable, plan_mutation,
  webhook_records_for_prepared,
}
use latlng.Core.Engine.Log.{append_command}
use latlng.Core.Engine.Objects.{event_of}
use latlng.Core.Engine.Collections.{
  finish_create, write_create, create_collection, plan_drops, apply_all_prepared, finish_drop,
  write_drop, drop_found, drop_collection, renamed, finish_rename, write_rename, rename_inner,
  clear_log, finish_flush, flushdb,
}
use latlng.Core.Engine.Effect.{strip, effect, effects, renamed_to}
use latlng.Core.Engine.Strip.{get-strip, strip-insert, strip-remove, strip-ensure_cell}
use latlng.Core.Engine.Recovery.{Recovers, Recovers-Logged}
use latlng.Core.Engine.Recovery.Writes.{command_records}
use latlng.Core.Engine.Recovery.Outcomes.{Good, done-Good, if-Good, read-Good}
use latlng.Core.Engine.Recovery.Rules.{
  alone-Recovers, found-ok, effects-command, total-Good, batch-Good, append-Good,
}

module _ (w : World) where
  pub create_collection-Good :
      (k : Clock) (name : String) (s : Db w) → Recovers w s → Good w (create_collection w k name s)
  unfolding create_collection effect
  create_collection-Good k name s r =
      let exists = is_some (Map.get name s.collections) in
      let c = Command.create_collection name in
      read-Good w (ensure_writable w s).0
        (λ _ s1.
          (if is_some (Map.get name s1.collections) then pure false else write_create w k name) s1)
        s r
        (λ u e.
          if-Good w exists (pure false) (write_create w k name) s (λ t. done-Good w (ok false) s r)
            (λ t. append-Good w k (LogRecord.command c ∷ []) (finish_create w name) s r (λ s' l.
              done-Good w (ok true) _ (
                alone-Recovers w c s s'
                  (record s' { collections = ensure_cell w name s'.collections }) r l refl
                  (λ now. ap ok (sym (strip-ensure_cell w name s'.collections)))))))

  renamed_to-found :
      (name new_name : String) (v : VersionedCollection w) (s : Db w)
      → Map.get name s.collections ≡ some v
      → renamed_to w name new_name (strip w s.collections)
        ≡ strip w (Map.insert new_name (renamed w new_name v) (Map.remove name s.collections))
  renamed_to-found name new_name v s e =
      rw (get-strip w name s.collections, renamed_to)
        (rw (e, renamed_to)
          (ap (Map.insert new_name (renamed w new_name v).collection)
              (sym (strip-remove w name s.collections))
            ∙ sym (strip-insert w new_name (renamed w new_name v) (Map.remove name s.collections))))

  write_rename-Good :
      (k : Clock) (name new_name : String) (s : Db w)
      → Recovers w s
      → Good w (write_rename w k name new_name s)
  unfolding effect
  write_rename-Good k name new_name s r =
      let c = Command.rename name new_name in
      read-Good w (found w name (Map.get name s.collections))
        (λ v. append_command w k c >> finish_rename w name new_name v) s r
        (λ v e.
          append-Good w k (LogRecord.command c ∷ []) (finish_rename w name new_name v) s r (λ s' l.
            done-Good w (ok true) _ (
              alone-Recovers w c s s'
                (record s' {
                  collections =
                      Map.insert new_name (renamed w new_name v) (Map.remove name s'.collections);
                })
                r l refl
                (λ now. ap ok (
                  renamed_to-found name new_name v s' (
                    ap (Map.get name) l.kept
                    ∙ found-ok w name (Map.get name s.collections) v e))))))

  pub rename_inner-Good :
      (k : Clock) (name new_name : String) (nx_only : Bool) (s : Db w)
      → Recovers w s
      → Good w (rename_inner w k name new_name nx_only s)
  unfolding rename_inner
  rename_inner-Good k name new_name nx_only s r =
      let write = write_rename w k name new_name in
      read-Good w (ensure_writable w s).0
        (λ _ s1.
          (if nx_only && Map.contains_key new_name s1.collections then pure false else write) s1)
        s r
        (λ u e.
          if-Good w (nx_only && Map.contains_key new_name s.collections) (pure false) write s
            (λ t. done-Good w (ok false) s r) (λ t. write_rename-Good k name new_name s r))

  continue_state :
      {A B : Type 0} (x : Result CoreError A) (f : A → Action (Db w) B) (s : Db w)
      → ((a : A) → (f a s).1 ≡ s)
      → (continue x f s).1 ≡ s
  continue_state (ok a) f s h = h a
  continue_state (err e) f s h = refl

  rest_state :
      {A B : Type 0} (x : Result CoreError A × Db w) (f : A → B) (s : Db w)
      → x.1 ≡ s
      → (continue x.0 (λ a. pure (f a)) x.1).1 ≡ s
  rest_state (ok a, s') f s h = h
  rest_state (err e, s') f s h = h

  plan_drops-state :
      (k : Clock) (name : String) (os : List Object) (s : Db w) → (plan_drops w k name os s).1 ≡ s
  unfolding plan_drops plan_mutation webhook_records_for_prepared
  plan_drops-state k name [] s = refl
  plan_drops-state k name (o ∷ os) s =
      let event = event_of MutationCommand.drop k name o.id (some o) none in
      let last = λ (planned : w.fences.Prepared) (records : List WebhookEnqueueRecord) (s2 : Db w).
        continue (plan_drops w k name os s2).0 (λ rest. pure (planned ∷ rest.0, records ++ rest.1))
          (plan_drops w k name os s2).1 in
      let webhooks = λ (planned : w.fences.Prepared) (s1 : Db w).
        continue (webhook_records_for_prepared w k planned s1).0 (last planned) s1 in
      continue_state (plan_mutation w k event s).0 webhooks s (λ planned.
        continue_state (webhook_records_for_prepared w k planned s).0 (last planned) s (λ records.
          rest_state (plan_drops w k name os s) (λ rest. (planned ∷ rest.0, records ++ rest.1)) s
            (plan_drops-state k name os s)))

  -- Applying what was planned touches the registry only.
  apply_all_prepared-lem :
      (ps : List w.fences.Prepared) (s : Db w)
      → ((apply_all_prepared w ps s).0 ≡ ok tt)
        × ((apply_all_prepared w ps s).1.storage ≡ s.storage)
        × ((apply_all_prepared w ps s).1.collections ≡ s.collections)
  apply_all_prepared-lem [] s = (refl, refl, refl)
  apply_all_prepared-lem (p ∷ ps) s =
      apply_all_prepared-lem ps
        (record s { geofences = w.fences.apply_prepared_mutation p s.geofences })

  write_drop-Good :
      (k : Clock) (name : String) (planned : List w.fences.Prepared × List WebhookEnqueueRecord)
      (s : Db w)
      → Recovers w s
      → Good w (write_drop w k name planned s)
  unfolding effect
  write_drop-Good k name planned s r =
      let c = Command.drop_collection name in
      batch-Good w k c planned.1 (finish_drop w name planned.0) s r (λ hooks s' l.
        let s2 = record s' { collections = Map.remove name s'.collections } in
        let (total, same, kept) = apply_all_prepared-lem planned.0 s2 in
        total-Good w (apply_all_prepared w planned.0 s2) (λ _. pure true) (tt, total)
          (λ u e. done-Good w (ok true) (apply_all_prepared w planned.0 s2).1 (
            Recovers-Logged w (command_records w c hooks) s s' _ r l same (λ now.
              effects-command w now c hooks (strip w s.collections) _ (
                ap (λ m. ok (Map.remove name (strip w m))) (sym l.kept)
                ∙ ap ok (sym (ap (strip w) kept ∙ strip-remove w name s'.collections)))))))

  drop_found-Good :
      (k : Clock) (name : String) (handle : Option (VersionedCollection w)) (s : Db w)
      → Recovers w s
      → Good w (drop_found w k name handle s)
  drop_found-Good k name none s r = done-Good w (ok false) s r
  drop_found-Good k name (some v) s r =
      let x = plan_drops w k name (Map.values v.collection.objects) s in
      let r' : Recovers w x.1 = subst (Recovers w) (sym (plan_drops-state k name _ s)) r in
      read-Good w x.0 (write_drop w k name) x.1 r'
        (λ planned e. write_drop-Good k name planned x.1 r')

  pub drop_collection-Good :
      (k : Clock) (name : String) (s : Db w) → Recovers w s → Good w (drop_collection w k name s)
  unfolding drop_collection
  drop_collection-Good k name s r =
      read-Good w (ensure_writable w s).0
        (λ _ s1. drop_found w k name (Map.get name s1.collections) s1) s r
        (λ u e. drop_found-Good k name (Map.get name s.collections) s r)

  -- An empty log rebuilds no collections.
  cleared-Good : (s : Db w) → Recovers w s → s.collections ≡ [] → Good w (clear_log w s)
  unfolding snapshot effects assert_strictly_increasing
  cleared-Good s r e = elim (Result-cases (ensure_open s.storage)) [
    | inl (u, p) ↦
        rw (p, clear_log)
          (done-Good w _ _ (record {
            logs = r.logs;
            records = [];
            encodes = tt;
            rebuilds = λ now. ap (λ m. ok (strip w m)) (sym e);
          }))
    | inr (x, p) ↦ rw (p, clear_log) (done-Good w _ _ r)
  ]

  pub flushdb-Good : (k : Clock) (s : Db w) → Recovers w s → Good w (flushdb w k s)
  unfolding flushdb effect
  flushdb-Good k s r =
      read-Good w (ensure_writable w s).0
        (λ _. append_command w k Command.flush_db >> finish_flush w) s r
        (λ u e.
          append-Good w k (LogRecord.command Command.flush_db ∷ []) (finish_flush w) s r (λ s' l.
            let s2 = record s' { collections = []; geofences = w.fences.clear_all s'.geofences } in
            cleared-Good s2 (alone-Recovers w Command.flush_db s s' s2 r l refl (λ now. refl))
              refl))
