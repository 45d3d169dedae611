-- ===== src/Geo/Examples.antt =====
-- Boxes, geohashes and JSON paths at concrete values.
use Prim.Native.String.{◌++◌}
use latlng.Prelude.{◌≡◌, refl, ◌↔◌, ◌⊎◌, true, ok, err, some, string_key}
use latlng.Geo.Float.{F64, fle}
use latlng.Geo.Json
use latlng.Geo.Json.{Value, object, member, end, text, null}
use latlng.Geo.JsonPath.{invalid_json_path, set_json_path, get_json_path}
use latlng.Geo.JsonPath.Laws.{set_json_path_lem}
use latlng.Geo.Bounds.{
  BoundingBox, plus_90, minus_90, plus_180, minus_180, zero_deg, contains, contains_point,
  intersects,
}
use latlng.Geo.Bounds.Laws.{IsBox, fle_iff, fle_refl, intersects_iff}
use latlng.Geo.Geohash.{decode_geohash_bbox}
use latlng.Geo.Geohash.Laws.{Between, decode_geohash_bbox-append}

abbrev north : BoundingBox
north = record { min_lat = zero_deg; min_lon = minus_180; max_lat = plus_90; max_lon = plus_180 }

abbrev east : BoundingBox
east = record { min_lat = minus_90; min_lon = zero_deg; max_lat = plus_90; max_lon = plus_180 }

north-IsBox : IsBox north
unfolding fle
north-IsBox = (refl, refl)

east-IsBox : IsBox east
unfolding fle
east-IsBox = (refl, refl)

intersects_iff_example : (intersects north east ≡ true) ↔ (
    (lat : F64) × (lon : F64) × (contains_point north lat lon ≡ true)
    × (contains_point east lat lon ≡ true))
intersects_iff_example = intersects_iff north east north-IsBox east-IsBox

-- The lower end stands for the midpoint.
abbrev lower : F64 → F64 → F64
lower a b = a

lower-Between : Between lower
lower-Between a b h = (fle_refl a ((fle_iff a b).0 h.1).0, h.1)

abbrev south_west : BoundingBox
south_west = record {
  min_lat = minus_90;
  min_lon = minus_180;
  max_lat = minus_90;
  max_lon = minus_180;
}

long_decodes : decode_geohash_bbox lower ("u" ++ "4") ≡ ok south_west
unfolding decode_geohash_bbox fle
long_decodes = refl

decode_geohash_bbox-append_example :
    (a : BoundingBox) × (decode_geohash_bbox lower "u" ≡ ok a) × (contains a south_west ≡ true)
decode_geohash_bbox-append_example =
    decode_geohash_bbox-append lower lower-Between "u" "4" south_west long_decodes

abbrev text_target : Value
text_target = object (member "a" (object end) end)

set_json_path_lem_example :
    (((set_json_path text_target "$.a.b" (text "v")).0 ≡ ok tt)
      × (get_json_path (set_json_path text_target "$.a.b" (text "v")).1 "$.a.b" ≡ some (text "v")))
    ⊎ (((set_json_path text_target "$.a.b" (text "v")).0 ≡ err invalid_json_path)
        × ((set_json_path text_target "$.a.b" (text "v")).1 ≡ text_target))
set_json_path_lem_example = set_json_path_lem text_target (text "v") "$.a.b"

path_written :
    (set_json_path text_target "$.a.b" (text "v")).1
    ≡ object (member "a" (object (member "b" (text "v") end)) end)
unfolding set_json_path Json.get Json.insert
path_written = refl
