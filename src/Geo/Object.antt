-- ===== src/Geo/Object.antt =====
-- `GeoType`, `Object` and `Area` of crates/latlng-geo/src/lib.rs, their validation and the bounds
-- of a GeoType. serde_json's `as_f64`, the geojson and geo crates' bounding rectangle and f64's midpoint are
-- parameters.
use latlng.Prelude.{
  ℕ, String, Option, none, some, Bool, true, false, Result, ok, ◌>>◌, map_ok, get_or, ◌==◌,
  string_key, if◌then◌else◌,
}
use latlng.Geo.Float.{F64, nan}
use latlng.Geo.Json.{Value, Number, number, array, object, Items, nil, cons, Members, member, end}
use latlng.Geo.JsonPath.{GeoError}
use latlng.Geo.Fields.{FieldMap}
use latlng.Geo.Geohash.{decode_geohash_bbox}
use latlng.Geo.Bounds.{
  BoundingBox, validate_lat_lon, validate_meters, validate_bearing, validate, from_point, new,
}

pub data GeoType : Type 0 where
  point : F64 → F64 → Option F64 → GeoType
  bounds : BoundingBox → GeoType
  hash : String → GeoType
  geo_json : Value → GeoType
  string : String → GeoType

pub record Object : Type 0 where
  pub id : String
  pub geo : GeoType
  pub fields : FieldMap
  pub expires_at : Option ℕ

pub data Area : Type 0 where
  circle : F64 → F64 → F64 → Area
  bounds : BoundingBox → Area
  hash : String → Area
  geo_json : Value → Area
  tile : ℕ → ℕ → ℕ → Area
  quadkey : String → Area
  sector : F64 → F64 → F64 → F64 → F64 → Area
  reference : String → String → Area

abbrev pub is_spatial : GeoType → Bool
is_spatial (string s) = false
is_spatial _ = true

abbrev pub point_coordinates : GeoType → Option (F64 × F64)
point_coordinates (point lat lon z) = some (lat, lon)
point_coordinates _ = none

module _ (as_f64 : Number → Option F64) where
  unfoldable mutual
    pub validate_position_tree : Value → Result GeoError (Unit {0})
    validate_position_tree (array (cons (number lon) (cons (number lat) xs))) =
        validate_lat_lon (get_or (as_f64 lat) nan) (get_or (as_f64 lon) nan)
    validate_position_tree (array xs) = validate_trees xs
    validate_position_tree v = ok tt

    pub validate_trees : Items → Result GeoError (Unit {0})
    validate_trees nil = ok tt
    validate_trees (cons x xs) = validate_position_tree x >> validate_trees xs

  -- Each member is found by its key, the first one that has it.
  unfoldable mutual
    pub validate_geojson_positions : Value → Result GeoError (Unit {0})
    validate_geojson_positions (object ms) =
        validate_coordinates ms
        >> validate_geometry ms
        >> validate_array "features" ms
        >> validate_array "geometries" ms
    validate_geojson_positions v = ok tt

    pub validate_coordinates : Members → Result GeoError (Unit {0})
    validate_coordinates end = ok tt
    validate_coordinates (member k v ms) =
        let rest = validate_coordinates ms in
        if k == "coordinates" then validate_position_tree v else rest

    pub validate_geometry : Members → Result GeoError (Unit {0})
    validate_geometry end = ok tt
    validate_geometry (member k v ms) =
        let rest = validate_geometry ms in
        let this = validate_geojson_positions v in if k == "geometry" then this else rest

    pub validate_array : String → Members → Result GeoError (Unit {0})
    validate_array key end = ok tt
    validate_array key (member k v ms) =
        let rest = validate_array key ms in
        let this = validate_elements v in if k == key then this else rest

    pub validate_elements : Value → Result GeoError (Unit {0})
    validate_elements (array xs) = validate_each xs
    validate_elements v = ok tt

    pub validate_each : Items → Result GeoError (Unit {0})
    validate_each nil = ok tt
    validate_each (cons x xs) = validate_geojson_positions x >> validate_each xs

  unfoldable pub validate_geo : GeoType → Result GeoError (Unit {0})
  unfolding validate_geojson_positions
  validate_geo (point lat lon z) = validate_lat_lon lat lon
  validate_geo (GeoType.bounds b) = validate b
  validate_geo (GeoType.geo_json v) = validate_geojson_positions v
  validate_geo _ = ok tt

  unfoldable pub validate_area : Area → Result GeoError (Unit {0})
  unfolding validate_geojson_positions
  validate_area (circle lat lon m) = validate_lat_lon lat lon >> validate_meters m
  validate_area (Area.bounds b) = validate b
  validate_area (Area.geo_json v) = validate_geojson_positions v
  validate_area (sector lat lon m b1 b2) =
      validate_lat_lon lat lon >> validate_meters m >> validate_bearing b1 >> validate_bearing b2
  validate_area _ = ok tt

-- The bounds of a value of GeoJSON, by the geojson and geo crates: least and greatest y and x.
module _ (midpoint : F64 → F64 → F64)
    (bounding_rect : Value → Result GeoError (F64 × F64 × F64 × F64)) where
  unfoldable pub bounding_box_from_geojson : Value → Result GeoError BoundingBox
  unfolding new
  bounding_box_from_geojson v = map_ok (λ r. new r.0 r.1 r.2 r.3) (bounding_rect v)

  unfoldable pub envelope : GeoType → Result GeoError (Option BoundingBox)
  unfolding decode_geohash_bbox bounding_box_from_geojson from_point
  envelope (point lat lon z) = ok (some (from_point lat lon))
  envelope (GeoType.bounds b) = ok (some b)
  envelope (GeoType.hash s) = map_ok some (decode_geohash_bbox midpoint s)
  envelope (GeoType.geo_json v) = map_ok some (bounding_box_from_geojson v)
  envelope (string s) = ok none
