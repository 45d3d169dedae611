-- ===== src/Geo.antt =====
-- crates/latlng-geo/src/lib.rs: coordinates, bounding boxes, field values, the geometry of an object,
-- and JSON values with their paths.
pub mod Float
pub mod Json
pub mod JsonPath
pub mod Fields
pub mod Bounds
pub mod Geohash
pub mod Object
pub mod Examples
