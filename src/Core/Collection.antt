-- ===== src/Core/Collection.antt =====
-- `Collection` of crates/latlng-core/src/lib.rs: the objects of a name with their spatial index,
-- their field indexes and their deadlines. A call that fails returns its error beside the collection
-- that it leaves.
pub mod Sync
pub mod Upsert
pub mod Tree
pub mod Expiry
pub mod Steps
use latlng.Prelude.{
  ℕ, String, Option, none, some, Bool, true, false, List, [], ◌∷◌, map, Result, ok, err, map_ok,
  take, take_while, leb, string_key, nat_key, pair_key,
}
use latlng.Prelude.Map
use latlng.Prelude.Map.{Map}
use latlng.Prelude.Set
use latlng.Geo.JsonPath.{GeoError}
use latlng.Geo.Bounds.{BoundingBox, union}
use latlng.Geo.Object.{GeoType, Object, envelope}
use latlng.Index
use latlng.Index.{Crates, SpatialIndex, empty_index}
use latlng.Core.Fields.{FieldEntry, apply_field_updates}
use latlng.Core.Indexes.{FieldIndexes, no_indexes, insert_object, remove_object}

-- The expiry index without, and with, an object's deadline.
abbrev pub without_deadline : Option ℕ → String → List (ℕ × String) → List (ℕ × String)
without_deadline none id s = s
without_deadline (some t) id s = Set.remove (t, id) s

abbrev pub with_deadline : Option ℕ → String → List (ℕ × String) → List (ℕ × String)
with_deadline none id s = s
with_deadline (some t) id s = Set.insert (t, id) s

module _ (c : Crates) where
  pub record Collection : Type 0 where
    pub name : String
    pub objects : Map String Object
    pub spatial_index : SpatialIndex c
    pub field_indexes : FieldIndexes
    pub expirations : List (ℕ × String)

  unfoldable pub new : String → Collection
  new name = record {
    name = name;
    objects = [];
    spatial_index = empty_index c;
    field_indexes = no_indexes;
    expirations = [];
  }

  -- What `upsert` takes out of the indexes for the previous object.
  abbrev pub drop_previous : String → Option Object → Collection → Collection
  drop_previous id none s = s
  drop_previous id (some p) s = record s {
    field_indexes = remove_object p s.field_indexes;
    expirations = without_deadline p.expires_at id s.expirations;
  }

  abbrev pub finish_upsert :
      Object
      → Collection
      → Result GeoError (SpatialIndex c)
      → Result GeoError (Unit {0}) × Collection
  finish_upsert o s (err e) = (err e, s)
  finish_upsert o s (ok index) = (
    ok tt,
    record s {
      objects = Map.insert o.id o s.objects;
      spatial_index = index;
      field_indexes = insert_object o s.field_indexes;
      expirations = with_deadline o.expires_at o.id s.expirations;
    },
  )

  abbrev pub drop_spatial : String → Collection → Collection
  drop_spatial id s = record s { spatial_index = (Index.remove c id s.spatial_index).0 }

  unfoldable pub upsert : Object → Collection → Result GeoError (Unit {0}) × Collection
  unfolding insert_object remove_object Index.insert Index.remove
  upsert o s =
      let dropped = drop_spatial o.id (drop_previous o.id (Map.get o.id s.objects) s) in
      finish_upsert o dropped (Index.insert c o.id o.geo dropped.spatial_index)

  unfoldable pub remove : String → Collection → Option Object × Collection
  unfolding remove_object Index.remove
  remove id s =
      let rest = record (drop_spatial id s) { objects = Map.remove id s.objects } in
      elim (Map.get id s.objects) [
        | none ↦ (none, rest)
        | some o ↦ (
          some o,
          record rest {
            field_indexes = remove_object o s.field_indexes;
            expirations = without_deadline o.expires_at o.id s.expirations;
          },
        )
      ]

  -- The index where the insertion succeeds, and else the one before.
  abbrev pub or_before : SpatialIndex c → Result GeoError (SpatialIndex c) → SpatialIndex c
  or_before before (ok index) = index
  or_before before (err e) = before

  unfoldable pub reindex_spatial : String → Collection → Collection
  unfolding Index.insert Index.remove
  reindex_spatial id s =
      let dropped = drop_spatial id s in
      elim (Map.get id s.objects) [
        | none ↦ dropped
        | some o ↦ record dropped {
          spatial_index =
              or_before dropped.spatial_index (Index.insert c id o.geo dropped.spatial_index);
        }
      ]

  unfoldable pub replace_geo : String → GeoType → Collection → Result GeoError Bool × Collection
  unfolding Index.insert Index.remove
  replace_geo id geo s = elim (Map.get id s.objects) [
    | none ↦ (ok false, s)
    | some o ↦
        let dropped =
          drop_spatial id
            (record s { objects = Map.insert id (record o { geo = geo }) s.objects }) in
        let inserted = Index.insert c id geo dropped.spatial_index in
        (
          map_ok (λ i. true) inserted,
          record dropped { spatial_index = or_before dropped.spatial_index inserted },
        )
  ]

  unfoldable pub set_expiry : String → Option ℕ → Collection → Bool × Collection
  set_expiry id t s = elim (Map.get id s.objects) [
    | none ↦ (false, s)
    | some o ↦ (
      true,
      record s {
        objects = Map.insert id (record o { expires_at = t }) s.objects;
        expirations = with_deadline t id (without_deadline o.expires_at id s.expirations);
      },
    )
  ]

  -- `usize::MAX` as the most ids is more than there are.
  unfoldable pub due_expirations : ℕ → ℕ → Collection → List String
  due_expirations now most s =
      map (λ p. p.1) (take most (take_while (λ p. leb p.0 now) s.expirations))

  unfoldable pub insert_fields : String → List FieldEntry → Collection → Bool × Collection
  unfolding apply_field_updates insert_object remove_object
  insert_fields id es s = elim (Map.get id s.objects) [
    | none ↦ (false, s)
    | some o ↦
        let edited = record o { fields = apply_field_updates o.fields es } in
        (
          true,
          record s {
            objects = Map.insert id edited s.objects;
            field_indexes = insert_object edited (remove_object o s.field_indexes);
          },
        )
  ]

  abbrev pub join : Option BoundingBox → Option BoundingBox → Option BoundingBox
  join bounds none = bounds
  join none (some b) = some b
  join (some a) (some b) = some (union a b)

  abbrev pub bounds_of :
      Option BoundingBox → List (String × Object) → Result GeoError (Option BoundingBox)
  bounds_of b [] = ok b
  bounds_of b ((id, o) ∷ os) = elim (envelope c.midpoint c.bounding_rect o.geo) [
    | err e ↦ err e
    | ok e ↦ bounds_of (join b e) os
  ]

  unfoldable pub bounds : Collection → Result GeoError (Option BoundingBox)
  unfolding envelope union
  bounds s = bounds_of none s.objects
