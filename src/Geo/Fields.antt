-- ===== src/Geo/Fields.antt =====
-- `FieldValue` and `FieldMap` of crates/latlng-geo/src/lib.rs. Parsing a number and serde_json are
-- parameters.
use latlng.Prelude.{String, Option, none, some, Bool, is_some, get_or, string_key}
use latlng.Prelude.Map
use latlng.Prelude.Map.{Map}
use latlng.Geo.Float.{F64}
use latlng.Geo.Json.{Value, Value.text as json_text}
use latlng.Geo.JsonPath.{get_json_path}

pub data FieldValue : Type 0 where
  number : F64 → FieldValue
  text json : String → FieldValue

-- `str::parse::<f64>`, `serde_json::from_str`, `Value::as_f64` and `json!` of a number.
pub record Parsers : Type 0 where
  pub parse_f64 : String → Option F64
  pub from_str : String → Option Value
  pub value-as_f64 : Value → Option F64
  pub json_number : F64 → Value

abbrev pub and_then : {A B : Type 0} → Option A → (A → Option B) → Option B
and_then none f = none
and_then (some a) f = f a

abbrev pub as_text : FieldValue → Option String
as_text (number n) = none
as_text (text s) = some s
as_text (json s) = some s

unfoldable pub matches_regex : (String → Bool) → FieldValue → Bool
matches_regex is_match v = elim (as_text v) [ none ↦ Bool.false | some s ↦ is_match s ]

abbrev pub FieldMap : Type 0
FieldMap = Map String FieldValue

-- The map left, and the value that the key had.
unfoldable pub insert : FieldMap → String → FieldValue → FieldMap × Option FieldValue
insert m k v = (Map.insert k v m, Map.get k m)

unfoldable pub remove : FieldMap → String → FieldMap × Option FieldValue
remove m k = (Map.remove k m, Map.get k m)

abbrev pub get : FieldMap → String → Option FieldValue
get m k = Map.get k m

abbrev pub contains_key : FieldMap → String → Bool
contains_key m k = is_some (Map.get k m)

module _ (p : Parsers) where
  unfoldable pub as_number : FieldValue → Option F64
  as_number (number n) = some n
  as_number (text s) = p.parse_f64 s
  as_number (json s) = and_then (p.from_str s) p.value-as_f64

  unfoldable pub get_number_or_zero : FieldMap → String → F64
  unfolding as_number
  get_number_or_zero m k = get_or (and_then (get m k) as_number) 0

  abbrev pub to_value : FieldValue → Option Value
  to_value (number n) = some (p.json_number n)
  to_value (text s) = some (json_text s)
  to_value (json s) = p.from_str s

  unfoldable pub get_field_json_path : FieldMap → String → String → Option Value
  unfolding get_json_path
  get_field_json_path m k path =
      and_then (get m k) (λ v. and_then (to_value v) (λ j. get_json_path j path))
