-- ===== src/Core/Collection/Steps.antt =====
-- A collection through any sequence of calls.
use latlng.Prelude.{ℕ, String, Option, List, [], ◌∷◌, ok, ◌≡◌, ap, ◌∙◌, string_key}
use latlng.Prelude.Map
use latlng.Geo.Object.{GeoType, Object}
use latlng.Index.{Crates, IndexedEntry}
use latlng.Index.Tree.{TreeLaws, to_list}
use latlng.Core.Fields.{FieldEntry}
use latlng.Core.Collection.{Collection, new, upsert, remove, replace_geo, set_expiry, insert_fields}
use latlng.Core.Collection.Sync.{
  InSync, entry_for, new-InSync, set_expiry-InSync, insert_fields-InSync, replace_geo-InSync,
  remove-InSync,
}
use latlng.Core.Collection.Upsert.{upsert-InSync}
use latlng.Core.Collection.Tree.{
  IsGeoOnGlobe, IsTreeInSync, new-IsTreeInSync, upsert-IsTreeInSync, remove-IsTreeInSync,
  replace_geo-IsTreeInSync, set_expiry-IsTreeInSync, insert_fields-IsTreeInSync,
}

pub data Call : Type 0 where
  put : Object → Call
  take_out : String → Call
  move : String → GeoType → Call
  expire : String → Option ℕ → Call
  update : String → List FieldEntry → Call

module _ (c : Crates) where
  unfoldable pub step : Collection c → Call → Collection c
  step s (put o) = (upsert c o s).1
  step s (take_out id) = (remove c id s).1
  step s (move id geo) = (replace_geo c id geo s).1
  step s (expire id t) = (set_expiry c id t s).1
  step s (update id es) = (insert_fields c id es s).1

  unfoldable pub run : Collection c → List Call → Collection c
  unfolding step
  run s [] = s
  run s (k ∷ ks) = run (step s k) ks

  -- Only `upsert` has to succeed.
  abbrev pub PutsSucceed : Collection c → List Call → Type 0
  PutsSucceed s [] = Unit
  PutsSucceed s (put o ∷ ks) = ((upsert c o s).0 ≡ ok tt) × PutsSucceed (step s (put o)) ks
  PutsSucceed s (k ∷ ks) = PutsSucceed (step s k) ks

  pub run_from-InSync :
      (ks : List Call) (s : Collection c) → InSync c s → PutsSucceed s ks → InSync c (run s ks)
  unfolding run step
  run_from-InSync [] s h p = h
  run_from-InSync (put o ∷ ks) s h p = run_from-InSync ks _ (upsert-InSync c o s h p.0) p.1
  run_from-InSync (take_out id ∷ ks) s h p = run_from-InSync ks _ (remove-InSync c id s h) p
  run_from-InSync (move id geo ∷ ks) s h p =
      run_from-InSync ks _ (replace_geo-InSync c id geo s h) p
  run_from-InSync (expire id t ∷ ks) s h p = run_from-InSync ks _ (set_expiry-InSync c id t s h) p
  run_from-InSync (update id es ∷ ks) s h p =
      run_from-InSync ks _ (insert_fields-InSync c id es s h) p

  -- What the calls put in place stands on the globe.
  abbrev pub AreOnGlobe : List Call → Type 0
  AreOnGlobe [] = Unit
  AreOnGlobe (put o ∷ ks) = IsGeoOnGlobe c o.id o.geo × AreOnGlobe ks
  AreOnGlobe (move id geo ∷ ks) = IsGeoOnGlobe c id geo × AreOnGlobe ks
  AreOnGlobe (k ∷ ks) = AreOnGlobe ks

  module _ (stored : c.RTree → String → List IndexedEntry) (laws : TreeLaws c stored) where
    run_from-IsTreeInSync :
        (ks : List Call) (s : Collection c)
        → IsTreeInSync c stored laws s
        → AreOnGlobe ks
        → IsTreeInSync c stored laws (run s ks)
    unfolding run step
    run_from-IsTreeInSync [] s h on = h
    run_from-IsTreeInSync (put o ∷ ks) s h on =
        run_from-IsTreeInSync ks _ (upsert-IsTreeInSync c stored laws o s h on.0) on.1
    run_from-IsTreeInSync (take_out id ∷ ks) s h on =
        run_from-IsTreeInSync ks _ (remove-IsTreeInSync c stored laws id s h) on
    run_from-IsTreeInSync (move id geo ∷ ks) s h on =
        run_from-IsTreeInSync ks _ (replace_geo-IsTreeInSync c stored laws id geo s h on.0) on.1
    run_from-IsTreeInSync (expire id t ∷ ks) s h on =
        run_from-IsTreeInSync ks _ (set_expiry-IsTreeInSync c stored laws id t s h) on
    run_from-IsTreeInSync (update id es ∷ ks) s h on =
        run_from-IsTreeInSync ks _ (insert_fields-IsTreeInSync c stored laws id es s h) on

    -- Whatever calls a new collection serves, as long as each `upsert` among them succeeds and the
    -- envelopes that they put in place have coordinates from -180 to 180: every object stands under its
    -- own id; the expiry index holds exactly the objects' deadlines; and both the R-tree and the map by id
    -- of the spatial index have exactly one entry, with its envelope and center, for each object that has
    -- an envelope, and none else. A `replace_geo` may fail. The R-tree keeps rstar's promises on insertion
    -- and removal.
    pub run-InSync :
        (name : String) (ks : List Call)
        → PutsSucceed (new c name) ks
        → AreOnGlobe ks
        → InSync c (run (new c name) ks)
          × ((id : String)
              → stored (run (new c name) ks).spatial_index.tree id
                ≡ to_list (entry_for c id (Map.get id (run (new c name) ks).objects)))
    run-InSync name ks p on =
        let s = run (new c name) ks in
        let h = run_from-InSync ks (new c name) (new-InSync c name) p in
        let t = run_from-IsTreeInSync ks (new c name) (new-IsTreeInSync c stored laws name) on in
        (h, λ id. t.1 id ∙ ap to_list (h.2 id))
