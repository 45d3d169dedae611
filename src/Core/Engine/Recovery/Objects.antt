-- ===== src/Core/Engine/Recovery/Objects.antt =====
-- The commands on objects keep the log able to rebuild the collections.
use latlng.Prelude.{
  ℕ, String, Option, none, some, true, false, List, [], ◌≡◌, refl, sym, ap, ◌∙◌, Result, ok, err,
  ok≢err, string_key, omap, map_ok, Option-cases, Result-cases, inl, inr, ◌⊎◌, is_some,
}
use latlng.Prelude.Map
use latlng.Prelude.Map.{IsSorted}
use latlng.Geo.Object.{Object}
use latlng.Geo.JsonPath.{GeoError}
use latlng.Geofence.{MutationCommand}
use latlng.Core.Fields.{FieldEntry, merged_set_fields}
use latlng.Core.Fields.Laws.{apply_field_updates-IsSorted, field_entries_to_map-entries}
use latlng.Core.Records.{Command, WebhookEnqueueRecord, SetRequest}
use latlng.Core.Action.{CoreError, pure}
use latlng.Core.World.{World}
use latlng.Core.Collection
use latlng.Core.Engine.{
  Clock, Db, Catalog, VersionedCollection, deadline_of, then_apply, ensure_cell, object_in,
}
use latlng.Core.Engine.Objects.{
  event_of, finish_set, write_set, set_object, persisted, upserted, upsert_in, set_checked, refuses,
}
use latlng.Core.Engine.Restore.{restored, load_object, load_in, put_cell}
use latlng.Core.Engine.Effect.{strip, effect, put}
use latlng.Core.Engine.Strip.{get-strip}
use latlng.Core.Engine.Refinement.{load_object-put}
use latlng.Core.Engine.Recovery.{Recovers, Logged, Recovers-Logged}
use latlng.Core.Engine.Recovery.Writes.{command_records}
use latlng.Core.Engine.Recovery.Outcomes.{Good, done-Good, if-Good, outcome-Good}
use latlng.Core.Engine.Recovery.Rules.{effects-command, geo-Good, plan-batch-Good}
use latlng.Core.Engine.Recovery.Fields.{Recovers-Tidy}

module _ (w : World) where
  upserted-ok :
      (v : VersionedCollection w) (r : Result GeoError (Unit {0}) × Collection.Collection w.crates)
      (u : Unit {0})
      → r.0 ≡ ok u
      → (upserted w v r).0 ≡ ok tt
  upserted-ok v (ok x, c) u e = refl
  upserted-ok v (err x, c) u e = elim (ok≢err u x (sym e)) [ ]

  upserted-err :
      (v : VersionedCollection w) (r : Result GeoError (Unit {0}) × Collection.Collection w.crates)
      (x : GeoError)
      → r.0 ≡ err x
      → (upserted w v r).0 ≡ err (CoreError.geo x)
  upserted-err v (ok u, c) x e = elim (ok≢err u x e) [ ]
  upserted-err v (err y, c) x e = cc

  put_cell-ok :
      (r : Result CoreError (Unit {0}) × VersionedCollection w) (name : String) (m : Catalog w)
      → r.0 ≡ ok tt
      → put_cell w r name m ≡ ok (Map.insert name r.1 m)
  put_cell-ok (ok u, v) name m e = refl
  put_cell-ok (err x, v) name m e = elim (ok≢err tt x (sym e)) [ ]

  -- Writing an object fails by its geometry only, and leaves the storage alone.
  pub upsert_in-cases :
      (name : String) (o : Object) (s : Db w)
      → ((upsert_in w name o s).0 ≡ ok tt)
        ⊎ ((e : GeoError) × ((upsert_in w name o s).0 ≡ err (CoreError.geo e)))
  unfolding upsert_in
  upsert_in-cases name o s = elim (Option-cases (Map.get name s.collections)) [
    | inl e ↦ inl (rw (e, upsert_in) refl)
    | inr (v, e) ↦ elim (Result-cases (Collection.upsert w.crates o v.collection).0) [
      | inl (u, p) ↦ inl (rw (e, upsert_in) (upserted-ok v _ u p))
      | inr (x, p) ↦ inr (x, rw (e, upsert_in) (upserted-err v _ x p))
    ]
  ]

  pub upsert_in-storage :
      (name : String) (o : Object) (s : Db w) → (upsert_in w name o s).1.storage ≡ s.storage
  unfolding upsert_in
  upsert_in-storage name o s = elim (Option-cases (Map.get name s.collections)) [
    | inl e ↦ rw (e, upsert_in) refl
    | inr (v, e) ↦ rw (e, upsert_in) refl
  ]

  -- It is what a replay does.
  upsert_in-load_in :
      (name : String) (o : Object) (s : Db w)
      → (upsert_in w name o s).0 ≡ ok tt
      → load_in w name o s.collections ≡ ok (upsert_in w name o s).1.collections
  unfolding upsert_in
  upsert_in-load_in name o s h = elim (Option-cases (Map.get name s.collections)) [
    | inl e ↦ rw (e, upsert_in, load_in) refl
    | inr (v, e) ↦
        rw (e, upsert_in, load_in)
          (put_cell-ok (upserted w v (Collection.upsert w.crates o v.collection)) name s.collections
            (sym (rw (e, upsert_in) refl) ∙ h))
  ]

  -- An object of a collection that the log rebuilds has its fields in key order,
  pub stored-IsSorted :
      (s : Db w) (name id : String) (v : VersionedCollection w) (o : Object)
      → Recovers w s
      → Map.get name s.collections ≡ some v
      → Map.get id v.collection.objects ≡ some o
      → IsSorted o.fields
  stored-IsSorted s name id v o r e f =
      Recovers-Tidy w s r name v.collection
        (get-strip w name s.collections ∙ ap (omap (λ u. u.collection)) e) id o f

  merged-IsSorted :
      (s : Db w) (name id : String) (u : Option (VersionedCollection w)) (es : List FieldEntry)
      → Recovers w s
      → Map.get name s.collections ≡ u
      → IsSorted (merged_set_fields (object_in w id u) es)
  unfolding merged_set_fields
  merged-IsSorted s name id none es r e = apply_field_updates-IsSorted es [] tt
  merged-IsSorted s name id (some v) es r e =
      elim (Option-cases (Map.get id v.collection.objects)) [
        | inl n ↦ rw (n, merged_set_fields) (apply_field_updates-IsSorted es [] tt)
        | inr (o, n) ↦
            rw (n, merged_set_fields)
              (apply_field_updates-IsSorted es o.fields (stored-IsSorted s name id v o r e n))
      ]

  -- and a replay rebuilds from a SET's record the object that was set.
  restored-persisted :
      (now : ℕ) (before : Option Object) (req : SetRequest)
      → IsSorted (merged_set_fields before req.fields)
      → restored w (persisted (set_object now before req) req) ≡ set_object now before req
  restored-persisted now before req s = λ j. record {
    id = req.id;
    geo = req.object;
    fields = field_entries_to_map-entries (merged_set_fields before req.fields) s j;
    expires_at = omap (deadline_of now) req.expire_seconds;
  }

  -- What a SET writes after its record, against the effect of the record.
  put_effect :
      (name : String) (o : Object) (s s' : Db w)
      → s'.collections ≡ s.collections
      → (upsert_in w name o (record s' { collections = ensure_cell w name s'.collections })).0
        ≡ ok tt
      → put w name o (strip w s.collections)
        ≡ ok (
            strip w
              (upsert_in w name o
                (record s' { collections = ensure_cell w name s'.collections })).1.collections)
  unfolding load_object
  put_effect name o s s' kept h =
      ap (λ m. put w name o (strip w m)) (sym kept)
      ∙ sym (load_object-put w name o s'.collections)
      ∙ ap (map_ok (strip w)) (
          upsert_in-load_in name o (record s' { collections = ensure_cell w name s'.collections })
            h)

  finish_set-Good :
      (k : Clock) (req : SetRequest) (before : Option Object) (planned : w.fences.Prepared)
      (hooks : List WebhookEnqueueRecord) (s s' : Db w)
      → Recovers w s
      → IsSorted (merged_set_fields before req.fields)
      → Logged w
          (command_records w
            (Command.set_persisted (persisted (set_object k.millis before req) req))
            hooks)
          s
          s'
      → Good w (finish_set w req (set_object k.millis before req) planned s')
  unfolding effect
  finish_set-Good k req before planned hooks s s' r sorted l =
      let o = set_object k.millis before req in
      let s1 = record s' { collections = ensure_cell w req.collection s'.collections } in
      let s2 = (upsert_in w req.collection o s1).1 in
      outcome-Good w (upsert_in w req.collection o s1).0 (λ _. then_apply w planned true) s2
        (λ u e.
          done-Good w (ok true)
            (record s2 { geofences = w.fences.apply_prepared_mutation planned s2.geofences })
            (Recovers-Logged w _ s s' _ r l (upsert_in-storage req.collection o s1) (λ now.
              effects-command w now _ hooks (strip w s.collections) _ (
                ap (λ x. put w req.collection x (strip w s.collections))
                  (restored-persisted k.millis before req sorted)
                ∙ put_effect req.collection o s s' l.kept e))))
        (λ e p. geo-Good w e s2 (upsert_in-cases req.collection o s1) p)

  pub set_checked-Good :
      (k : Clock) (req : SetRequest) (s : Db w) → Recovers w s → Good w (set_checked w k req s)
  unfolding set_checked
  set_checked-Good k req s r =
      let before = object_in w req.id (Map.get req.collection s.collections) in
      let o = set_object k.millis before req in
      let sorted = merged-IsSorted s req.collection req.id _ req.fields r refl in
      if-Good w (refuses req.condition (is_some before)) (pure false) (write_set w k req before) s
        (λ e. done-Good w (ok false) s r)
        (λ e.
          plan-batch-Good w k (event_of MutationCommand.set k req.collection req.id before (some o))
            (Command.set_persisted (persisted o req)) (finish_set w req o) s r
            (λ planned hooks s' l. finish_set-Good k req before planned hooks s s' r sorted l))
