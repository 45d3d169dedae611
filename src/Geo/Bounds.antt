-- ===== src/Geo/Bounds.antt =====
-- Coordinates and boxes: `validate_lat_lon`, `validate_meters`, `validate_bearing` and `BoundingBox`
-- of crates/latlng-geo/src/lib.rs.
pub mod Laws
use latlng.Prelude.{Bool, ◌&&◌, ◌||◌, not, Result, ok, err, ◌>>◌, if◌then◌else◌}
use latlng.Geo.Float.{F64, is_finite, fle, flt, fmin, fmax}
use latlng.Geo.JsonPath.{GeoError, invalid_coordinates}

abbrev pub zero_deg : F64
zero_deg = 0

abbrev pub plus_90 : F64
plus_90 = 0x4056800000000000

abbrev pub minus_90 : F64
minus_90 = 0xc056800000000000

abbrev pub plus_180 : F64
plus_180 = 0x4066800000000000

abbrev pub minus_180 : F64
minus_180 = 0xc066800000000000

abbrev pub plus_360 : F64
plus_360 = 0x4076800000000000

-- `(low..=high).contains(&x)`
abbrev pub in_range : F64 → F64 → F64 → Bool
in_range low high x = fle low x && fle x high

unfoldable pub validate_lat_lon : F64 → F64 → Result GeoError (Unit {0})
validate_lat_lon lat lon =
    if not (is_finite lat) || not (in_range minus_90 plus_90 lat)
    then err invalid_coordinates
    else if not (is_finite lon) || not (in_range minus_180 plus_180 lon)
    then err invalid_coordinates
    else ok tt

unfoldable pub validate_meters : F64 → Result GeoError (Unit {0})
validate_meters m = if is_finite m && flt zero_deg m then ok tt else err invalid_coordinates

unfoldable pub validate_bearing : F64 → Result GeoError (Unit {0})
validate_bearing b =
    if is_finite b && in_range zero_deg plus_360 b then ok tt else err invalid_coordinates

pub record BoundingBox : Type 0 where
  pub min_lat : F64
  pub min_lon : F64
  pub max_lat : F64
  pub max_lon : F64

unfoldable pub validate : BoundingBox → Result GeoError (Unit {0})
unfolding validate_lat_lon
validate b =
    validate_lat_lon b.min_lat b.min_lon
    >> validate_lat_lon b.max_lat b.max_lon
    >> (if flt b.max_lat b.min_lat
        then err invalid_coordinates
        else if flt b.max_lon b.min_lon
        then err invalid_coordinates
        else ok tt)

unfoldable pub new : F64 → F64 → F64 → F64 → BoundingBox
unfolding fmin fmax
new lat1 lon1 lat2 lon2 = record {
  min_lat = fmin lat1 lat2;
  min_lon = fmin lon1 lon2;
  max_lat = fmax lat2 lat1;
  max_lon = fmax lon2 lon1;
}

unfoldable pub from_point : F64 → F64 → BoundingBox
unfolding new
from_point lat lon = new lat lon lat lon

unfoldable pub contains_point : BoundingBox → F64 → F64 → Bool
contains_point b lat lon = in_range b.min_lat b.max_lat lat && in_range b.min_lon b.max_lon lon

unfoldable pub contains : BoundingBox → BoundingBox → Bool
contains b o =
    fle b.min_lat o.min_lat
    && fle b.min_lon o.min_lon
    && fle o.max_lat b.max_lat
    && fle o.max_lon b.max_lon

unfoldable pub intersects : BoundingBox → BoundingBox → Bool
intersects b o =
    fle b.min_lat o.max_lat
    && fle o.min_lat b.max_lat
    && fle b.min_lon o.max_lon
    && fle o.min_lon b.max_lon

unfoldable pub union : BoundingBox → BoundingBox → BoundingBox
unfolding new
union b o =
    new (fmin b.min_lat o.min_lat) (fmin b.min_lon o.min_lon) (fmax b.max_lat o.max_lat)
      (fmax b.max_lon o.max_lon)
