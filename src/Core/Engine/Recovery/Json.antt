-- ===== src/Core/Engine/Recovery/Json.antt =====
-- The edits of GeoJSON keep the log able to rebuild the collections.
use latlng.Prelude.{
  ℕ, String, none, some, Bool, true, false, [], ◌∷◌, ◌≡◌, refl, sym, ap, ◌∙◌, Result, ok, omap,
  is_some, if◌then◌else◌, string_key, ◌>>=◌,
}
use latlng.Prelude.Map
use latlng.Geo.Json.{Value}
use latlng.Geo.JsonPath.{GeoError}
use latlng.Geo.Object.{Object, GeoType}
use latlng.Core.Records.{Command, LogRecord}
use latlng.Core.Action.{CoreError, pure, continue}
use latlng.Core.World.{World}
use latlng.Core.Collection
use latlng.Core.Collection.{drop_spatial, or_before}
use latlng.Core.Engine.{Clock, Db, VersionedCollection, found, ensure_writable}
use latlng.Core.Engine.Edits.{
  object_or, geo_json_of, edit_records, replace_in, checked_edit, finish_edit, write_edit,
  edit_geojson_local,
}
use latlng.Core.Engine.Restore.{json_in}
use latlng.Core.Engine.Effect.{Plain, strip, effect, effects, on, json_edited, reshaped}
use latlng.Core.Engine.Strip.{get-strip}
use latlng.Core.Engine.Recovery.{Recovers, Logged, Recovers-Logged}
use latlng.Core.Engine.Recovery.Outcomes.{Good, done-Good, read-Good, outcome-Good}
use latlng.Core.Engine.Recovery.Rules.{found-ok, geo-Good, append-Good}
use latlng.Core.Engine.Recovery.Edited.{
  object_or-ok, geo_json_of-ok, checked_edit-value, reindex-replace_geo, after_edit,
  replace_in-cases, replace_in-storage, replace_in-on, on-some, on-on,
}

module _ (w : World) where
  -- The edits of a log's record, and the record that clears the deadline.
  abbrev pub json_effect :
      String → (Value → Value) → Collection.Collection w.crates → Collection.Collection w.crates
  json_effect id edit c = json_edited w id edit (Map.get id c.objects) c

  json_effect-replace :
      (id : String) (edit : Value → Value) (o : Object) (v : Value)
      (c : Collection.Collection w.crates)
      → Map.get id c.objects ≡ some o
      → o.geo ≡ GeoType.geo_json v
      → json_effect id edit c ≡ (Collection.replace_geo w.crates id (GeoType.geo_json (edit v)) c).1
  json_effect-replace id edit o v c e g =
      ap (λ p. json_edited w id edit p c) e
      ∙ ap (λ x. reshaped w id (json_in w edit o x) c) g
      ∙ reindex-replace_geo w id (GeoType.geo_json (edit v)) o c e

  abbrev clear : String → Collection.Collection w.crates → Collection.Collection w.crates
  clear id c = (Collection.set_expiry w.crates id none c).1

  tail_effects :
      (now : ℕ) (name id : String) (had_ttl : Bool) (q : Plain w)
      → effects w now (if had_ttl then LogRecord.command (Command.persist name id) ∷ [] else []) q
        ≡ ok (if had_ttl then on w name (clear id) q else q)
  unfolding effects effect
  tail_effects now name id true q = refl
  tail_effects now name id false q = refl

  both_edits :
      (name id : String) (g : GeoType) (had_ttl : Bool) (p : Plain w)
      → (if had_ttl
          then on w name (clear id) (on w name (λ c. (Collection.replace_geo w.crates id g c).1) p)
          else on w name (λ c. (Collection.replace_geo w.crates id g c).1) p)
        ≡ on w name (after_edit w id g had_ttl) p
  both_edits name id g true p =
      on-on w name (λ c. (Collection.replace_geo w.crates id g c).1) (clear id) p
  both_edits name id g false p = refl

  -- The effects of the records of an edit are the edit.
  edit_effects :
      (now : ℕ) (name id : String) (c : Command w.fences.Def) (edit : Value → Value) (o : Object)
      (v : Value) (coll : Collection.Collection w.crates) (p : Plain w)
      → Map.get name p ≡ some coll
      → Map.get id coll.objects ≡ some o
      → o.geo ≡ GeoType.geo_json v
      → effect w now c p ≡ ok (on w name (json_effect id edit) p)
      → effects w now (edit_records w name id c o) p
        ≡ ok (on w name (after_edit w id (GeoType.geo_json (edit v)) (is_some o.expires_at)) p)
  unfolding effects
  edit_effects now name id c edit o v coll p n e g h =
      let tail =
        if is_some o.expires_at then LogRecord.command (Command.persist name id) ∷ [] else [] in
      let replace = λ (x : Collection.Collection w.crates).
        (Collection.replace_geo w.crates id (GeoType.geo_json (edit v)) x).1 in
      let same : on w name (json_effect id edit) p ≡ on w name replace p =
        on-some w name (json_effect id edit) p coll n
        ∙ ap (λ x. Map.insert name x p) (json_effect-replace id edit o v coll e g)
        ∙ sym (on-some w name replace p coll n) in
      ap (λ r. r >>= effects w now tail) (h ∙ ap ok same)
      ∙ tail_effects now name id (is_some o.expires_at) (on w name replace p)
      ∙ ap ok (both_edits name id (GeoType.geo_json (edit v)) (is_some o.expires_at) p)

  finish_edit-Good :
      (name id : String) (c : Command w.fences.Def) (edit : Value → Value) (o : Object) (v : Value)
      (u : VersionedCollection w) (x : Bool × Value) (s s' : Db w)
      → Recovers w s
      → Map.get name s.collections ≡ some u
      → Map.get id u.collection.objects ≡ some o
      → o.geo ≡ GeoType.geo_json v
      → x.1 ≡ edit v
      → ((now : ℕ)
          → effect w now c (strip w s.collections)
            ≡ ok (on w name (json_effect id edit) (strip w s.collections)))
      → Logged w (edit_records w name id c o) s s'
      → Good w (finish_edit w name id (is_some o.expires_at) x s')
  finish_edit-Good name id c edit o v u (done, v') s s' r m e g q h l =
      let ttl = is_some o.expires_at in
      let geo = GeoType.geo_json v' in
      let s2 = (replace_in w name id geo ttl s').1 in
      outcome-Good w (replace_in w name id geo ttl s').0 (λ _. pure done) s2
        (λ t p. done-Good w (ok done) s2 (
          Recovers-Logged w (edit_records w name id c o) s s' s2 r l
            (replace_in-storage w name id geo ttl s')
            (λ now.
              edit_effects now name id c edit o v u.collection (strip w s.collections)
                (get-strip w name s.collections ∙ ap (omap (λ y. y.collection)) m) e g (h now)
              ∙ ap
                  (λ y.
                    ok (
                      on w name (after_edit w id (GeoType.geo_json y) ttl) (strip w s.collections)))
                  (sym q)
              ∙ ap (λ y. ok (on w name (after_edit w id geo ttl) (strip w y))) (sym l.kept)
              ∙ ap ok (replace_in-on w name id geo ttl s' p))))
        (λ y p. geo-Good w y s2 (replace_in-cases w name id geo ttl s') p)

  pub edit_geojson_local-Good :
      (k : Clock) (name id : String) (edit : Value → Result GeoError Bool × Value)
      (c : Command w.fences.Def) (s : Db w)
      → Recovers w s
      → ((now : ℕ)
          → effect w now c (strip w s.collections)
            ≡ ok (on w name (json_effect id (λ v. (edit v).1)) (strip w s.collections)))
      → Good w (edit_geojson_local w k name id edit c s)
  unfolding edit_geojson_local
  edit_geojson_local-Good k name id edit c s r h =
      let object_of = λ (u : VersionedCollection w).
        object_or (CoreError.object_not_found name id) (Map.get id u.collection.objects) in
      let write = λ (o : Object). write_edit w k name id c o in
      let check =
        λ (o : Object) (v : Value) (s4 : Db w). continue (checked_edit w edit v) (write o) s4 in
      let read = λ (o : Object) (s3 : Db w). continue (geo_json_of w o.geo) (check o) s3 in
      let find = λ (u : VersionedCollection w) (s2 : Db w). continue (object_of u) read s2 in
      read-Good w (ensure_writable w s).0
        (λ _ s1. continue (found w name (Map.get name s1.collections)) find s1) s r
        (λ t _. read-Good w (found w name (Map.get name s.collections)) find s r (λ u m.
          read-Good w (object_of u) read s r (λ o e.
            read-Good w (geo_json_of w o.geo) (check o) s r (λ v g.
              read-Good w (checked_edit w edit v) (write o) s r (λ x q.
                append-Good w k (edit_records w name id c o)
                  (finish_edit w name id (is_some o.expires_at) x) s r
                  (λ s' l.
                    finish_edit-Good name id c (λ y. (edit y).1) o v u x s s' r
                      (found-ok w name (Map.get name s.collections) u m)
                      (object_or-ok _ (Map.get id u.collection.objects) o e)
                      (geo_json_of-ok w o.geo v g) (checked_edit-value w edit v x q) h l))))))
