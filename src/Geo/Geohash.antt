-- ===== src/Geo/Geohash.antt =====
-- `decode_geohash_bbox` and `tile_bounds_from_quadkey`'s digits, of crates/latlng-geo/src/lib.rs. The midpoint of two f64,
-- `(a + b) / 2.0`, is a parameter.
pub mod Laws
use Prim.Native.Char.{Char, code}
use latlng.Prelude.{
  ℕ, zero, suc, ◌/◌, ◌%◌, ◌^◌, String, Option, none, some, Bool, true, false, not, List, [], ◌∷◌,
  Result, ok, err, ◌>>=◌, map_ok, ◌==◌, nat_key, if◌then◌else◌,
}
use latlng.Geo.Float.{F64}
use latlng.Geo.JsonPath.{GeoError, invalid_geohash}
use latlng.Geo.Bounds.{BoundingBox, new, minus_90, plus_90, minus_180, plus_180}

-- The ranges that the bits narrow, and whether the next bit is one of longitude.
pub record Cell : Type 0 where
  pub lat_min : F64
  pub lat_max : F64
  pub lon_min : F64
  pub lon_max : F64
  pub even : Bool

abbrev pub world : Cell
world = record {
  lat_min = minus_90;
  lat_max = plus_90;
  lon_min = minus_180;
  lon_max = plus_180;
  even = true;
}

abbrev pub position : ℕ → ℕ → String → Option ℕ
position i b String.[] = none
position i b (String.◌∷◌ c s) =
    let rest = position (suc i) b s in if code c == b then some i else rest

unfoldable pub alphabet_index : Char → Option ℕ
alphabet_index c = position 0 (code c) "0123456789bcdefghjkmnpqrstuvwxyz"

module _ (midpoint : F64 → F64 → F64) where
  abbrev pub narrow : Cell → Bool → Cell
  narrow c bit =
      if c.even
      then (if bit
          then record c { lon_min = midpoint c.lon_min c.lon_max; even = false }
          else record c { lon_max = midpoint c.lon_min c.lon_max; even = false })
      else (if bit
          then record c { lat_min = midpoint c.lat_min c.lat_max; even = true }
          else record c { lat_max = midpoint c.lat_min c.lat_max; even = true })

  -- The bits of an index, from `shift - 1` down to 0.
  unfoldable pub narrow_bits : ℕ → ℕ → Cell → Cell
  narrow_bits zero index c = c
  narrow_bits (suc shift) index c = narrow_bits shift index (narrow c (index / 2 ^ shift % 2 == 1))

  unfoldable pub decode_cell : String → Cell → Result GeoError Cell
  unfolding alphabet_index narrow_bits
  decode_cell String.[] c = ok c
  decode_cell (String.◌∷◌ b s) c = elim (alphabet_index b) [
    | none ↦ err invalid_geohash
    | some index ↦ decode_cell s (narrow_bits 5 index c)
  ]

  unfoldable pub decode_geohash_bbox : String → Result GeoError BoundingBox
  unfolding decode_cell new
  decode_geohash_bbox s =
      map_ok (λ c. new c.lat_min c.lon_min c.lat_max c.lon_max) (decode_cell s world)
