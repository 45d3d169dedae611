-- ===== src/Core/Collection/Tree.antt =====
-- Every operation of a collection keeps its R-tree and its map of entries equal, a failed one too.
use latlng.Prelude.{
  ℕ, String, true, Option, none, some, List, Result, ok, err, ◌≡◌, refl, sym, ap, ◌∙◌, arith,
  string_key, subst, Option-cases, inl, inr, ==_refl,
}
use latlng.Prelude.Map
use latlng.Geo.JsonPath.{GeoError}
use latlng.Geo.Bounds.{BoundingBox}
use latlng.Geo.Object.{GeoType, Object, envelope}
use latlng.Index
use latlng.Index.{Crates, SpatialIndex, IndexedEntry, entry_of, insert_envelope}
use latlng.Index.Tree.{
  TreeLaws, HasTree, is_entry_on_globe, empty_index-HasTree, remove-HasTree, add_entry-HasTree,
}
use latlng.Core.Fields.{FieldEntry}
use latlng.Core.Collection.{
  Collection, new, upsert, remove, replace_geo, set_expiry, insert_fields, or_before, finish_upsert,
}
use latlng.Core.Collection.Sync.{get-remove_entry}
use latlng.Core.Collection.Upsert.{dropped_for, dropped_lem}

module _ (c : Crates) where
  -- The entry that a geometry gives under an id, if it gives one.
  abbrev pub IsGeoOnGlobe : String → GeoType → Type 0
  IsGeoOnGlobe id geo =
      (b : BoundingBox)
      → envelope c.midpoint c.bounding_rect geo ≡ ok (some b)
      → is_entry_on_globe (entry_of c id b) ≡ true

  module _ (stored : c.RTree → String → List IndexedEntry) (laws : TreeLaws c stored) where
    insert_envelope-HasTree :
        (id : String) (r : Result GeoError (Option BoundingBox)) (s : SpatialIndex c)
        → HasTree c stored laws s
        → ((b : BoundingBox) → r ≡ ok (some b) → is_entry_on_globe (entry_of c id b) ≡ true)
        → HasTree c stored laws (or_before c s (insert_envelope c id r s))
    insert_envelope-HasTree id (err e) s h on = h
    insert_envelope-HasTree id (ok none) s h on = h
    insert_envelope-HasTree id (ok (some b)) s h on =
        add_entry-HasTree c stored laws (entry_of c id b) (Index.remove c id s).0
          (remove-HasTree c stored laws id s h) (on b refl)
          (get-remove_entry c id id s ∙ ground (arith, ==_refl id))

    -- A removal and then an insertion, as the operations pair them.
    replaced-HasTree :
        (id : String) (geo : GeoType) (s : SpatialIndex c)
        → HasTree c stored laws s
        → IsGeoOnGlobe id geo
        → (let dropped = (Index.remove c id s).0 in
            HasTree c stored laws (or_before c dropped (Index.insert c id geo dropped)))
    unfolding Index.insert
    replaced-HasTree id geo s h on =
        insert_envelope-HasTree id (envelope c.midpoint c.bounding_rect geo) (Index.remove c id s).0
          (remove-HasTree c stored laws id s h) on

    abbrev pub IsTreeInSync : Collection c → Type 0
    IsTreeInSync s = HasTree c stored laws s.spatial_index

    pub new-IsTreeInSync : (name : String) → IsTreeInSync (new c name)
    unfolding new
    new-IsTreeInSync name = empty_index-HasTree c stored laws

    finished :
        (o : Object) (s : Collection c) (r : Result GeoError (SpatialIndex c))
        → (finish_upsert c o s r).1.spatial_index ≡ or_before c s.spatial_index r
    finished o s (err e) = refl
    finished o s (ok index) = refl

    pub upsert-IsTreeInSync :
        (o : Object) (s : Collection c)
        → IsTreeInSync s
        → IsGeoOnGlobe o.id o.geo
        → IsTreeInSync (upsert c o s).1
    unfolding upsert
    upsert-IsTreeInSync o s h on =
        subst (HasTree c stored laws)
          (sym (
            finished o (dropped_for c o s)
              (Index.insert c o.id o.geo (dropped_for c o s).spatial_index)
            ∙ ap (λ x. or_before c x (Index.insert c o.id o.geo x)) (dropped_lem c o s).1))
          (replaced-HasTree o.id o.geo s.spatial_index h on)

    pub remove-IsTreeInSync :
        (id : String) (s : Collection c) → IsTreeInSync s → IsTreeInSync (remove c id s).1
    unfolding remove
    remove-IsTreeInSync id s h = elim (Option-cases (Map.get id s.objects)) [
      | inl e ↦ rw (e, remove) (remove-HasTree c stored laws id s.spatial_index h)
      | inr (o, e) ↦ rw (e, remove) (remove-HasTree c stored laws id s.spatial_index h)
    ]

    pub replace_geo-IsTreeInSync :
        (id : String) (geo : GeoType) (s : Collection c)
        → IsTreeInSync s
        → IsGeoOnGlobe id geo
        → IsTreeInSync (replace_geo c id geo s).1
    unfolding replace_geo
    replace_geo-IsTreeInSync id geo s h on = elim (Option-cases (Map.get id s.objects)) [
      | inl e ↦ rw (e, replace_geo) h
      | inr (o, e) ↦ rw (e, replace_geo) (replaced-HasTree id geo s.spatial_index h on)
    ]

    pub set_expiry-IsTreeInSync :
        (id : String) (t : Option ℕ) (s : Collection c)
        → IsTreeInSync s
        → IsTreeInSync (set_expiry c id t s).1
    unfolding set_expiry
    set_expiry-IsTreeInSync id t s h = elim (Option-cases (Map.get id s.objects)) [
      | inl e ↦ rw (e, set_expiry) h
      | inr (o, e) ↦ rw (e, set_expiry) h
    ]

    pub insert_fields-IsTreeInSync :
        (id : String) (es : List FieldEntry) (s : Collection c)
        → IsTreeInSync s
        → IsTreeInSync (insert_fields c id es s).1
    unfolding insert_fields
    insert_fields-IsTreeInSync id es s h = elim (Option-cases (Map.get id s.objects)) [
      | inl e ↦ rw (e, insert_fields) h
      | inr (o, e) ↦ rw (e, insert_fields) h
    ]
