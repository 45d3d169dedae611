-- ===== src/Index.antt =====
-- The spatial index, `SpatialIndex` of crates/latlng-index/src/lib.rs, over an R-tree of the crate
-- rstar, which is a parameter with its insertion and removal, and f64's midpoint.
pub mod Search
pub mod Tree
pub mod Examples
use latlng.Prelude.{String, [], Option, none, some, Bool, false, Result, ok, err, string_key}
use latlng.Prelude.Map
use latlng.Prelude.Map.{Map}
use latlng.Geo.Float.{F64}
use latlng.Geo.Json.{Value}
use latlng.Geo.JsonPath.{GeoError}
use latlng.Geo.Bounds.{BoundingBox}
use latlng.Geo.Object.{GeoType, envelope}

pub record IndexedEntry : Type 0 where
  pub id : String
  pub bounds : BoundingBox
  pub center : F64 × F64

-- The crates that the index calls.
pub record Crates : Type 1 where
  pub midpoint : F64 → F64 → F64
  pub bounding_rect : Value → Result GeoError (F64 × F64 × F64 × F64)
  pub RTree : Type 0
  pub tree_new : RTree
  pub tree_insert : IndexedEntry → RTree → RTree
  pub tree_remove : IndexedEntry → RTree → RTree × Bool

module _ (c : Crates) where
  pub record SpatialIndex : Type 0 where
    pub tree : c.RTree
    pub entries_by_id : Map String IndexedEntry

  abbrev pub empty_index : SpatialIndex
  empty_index = record { tree = c.tree_new; entries_by_id = [] }

  -- Longitude first, as in the source.
  abbrev pub entry_of : String → BoundingBox → IndexedEntry
  entry_of id b = record {
    id = id;
    bounds = b;
    center = (c.midpoint b.min_lon b.max_lon, c.midpoint b.min_lat b.max_lat);
  }

  unfoldable pub remove : String → SpatialIndex → SpatialIndex × Bool
  remove id s = elim (Map.get id s.entries_by_id) [
    | none ↦ (s, false)
    | some e ↦
        let t = c.tree_remove e s.tree in
        (record { tree = t.0; entries_by_id = Map.remove id s.entries_by_id }, t.1)
  ]

  abbrev pub add_entry : IndexedEntry → SpatialIndex → SpatialIndex
  add_entry e s = record {
    tree = c.tree_insert e s.tree;
    entries_by_id = Map.insert e.id e s.entries_by_id;
  }

  abbrev pub insert_envelope :
      String → Result GeoError (Option BoundingBox) → SpatialIndex → Result GeoError SpatialIndex
  insert_envelope id (err x) s = err x
  insert_envelope id (ok none) s = ok s
  insert_envelope id (ok (some b)) s = ok (add_entry (entry_of id b) (remove id s).0)

  unfoldable pub insert : String → GeoType → SpatialIndex → Result GeoError SpatialIndex
  unfolding remove envelope
  insert id geo s = insert_envelope id (envelope c.midpoint c.bounding_rect geo) s
