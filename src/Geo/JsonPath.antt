-- ===== src/Geo/JsonPath.antt =====
-- `get_json_path`, `set_json_path` and `delete_json_path`. A write returns its result beside the
-- value that it leaves in the place of its target.
pub mod Laws
use latlng.Prelude.{
  ℕ, String, List, [], ◌∷◌, Option, none, some, Bool, true, false, ◌||◌, not, Result, ok, err, ltb,
  ◌==◌, string_key, retain, if◌then◌else◌,
}
use latlng.Prelude.Text.{split, trim_start_matches, is_empty, parse_usize}
use latlng.Geo.Json
use latlng.Geo.Json.{Value, array, object, Items, Members, member, end, get, insert, remove}

-- The texts of the messages are left out.
pub data GeoError : Type 0 where
  unsupported_geo_json invalid_geohash invalid_quadkey invalid_json_path : GeoError
  unresolved_reference invalid_geometry invalid_coordinates : GeoError

-- The segments of a path, as all three functions cut it.
unfoldable pub segments : String → List String
unfolding split trim_start_matches
segments path =
    retain (λ s. not (is_empty s))
      (split b'.' (trim_start_matches b'.' (trim_start_matches b'$' path)))

unfoldable pub get_segments : Value → List String → Option Value
get_segments v [] = some v
get_segments (object ms) (k ∷ ks) = elim (get k ms) [ none ↦ none | some c ↦ get_segments c ks ]
get_segments (array xs) (k ∷ ks) = elim (parse_usize k) [
  | none ↦ none
  | some i ↦ elim (Json.get_elem? xs i) [ none ↦ none | some c ↦ get_segments c ks ]
]
get_segments _ (k ∷ ks) = none

unfoldable pub get_json_path : Value → String → Option Value
unfolding get_segments segments
get_json_path v path =
    if is_empty path || path == "." then some v else get_segments v (segments path)

-- `map.entry(k).or_insert_with(..)`, where the entry then becomes `c`.
unfoldable pub replace : String → Value → Members → Members
replace k c end = end
replace k c (member j w ms) =
    let rest = replace k c ms in if j == k then member k c ms else member j w rest

unfoldable pub set_entry : String → Value → Members → Members
unfolding replace
set_entry k c ms = elim (get k ms) [ none ↦ insert k c ms | some _ ↦ replace k c ms ]

unfoldable pub entry_or_object : String → Members → Value
entry_or_object k ms = elim (get k ms) [ none ↦ object end | some c ↦ c ]

abbrev pub Outcome : Type 0 → Type 0
Outcome A = Result GeoError A × Value

-- The outcome of an edit of a part, put back into its place.
abbrev pub within : {A : Type 0} → (Value → Value) → Outcome A → Outcome A
within f (r, c) = (r, f c)

-- `items.get_mut(index)`, and the edit of that item.
unfoldable pub set_at : {A : Type 0} → Items → Option ℕ → (Value → Outcome A) → Outcome A
set_at xs none edit = (err invalid_json_path, array xs)
set_at xs (some i) edit = elim (Json.get_elem? xs i) [
  | none ↦ (err invalid_json_path, array xs)
  | some c ↦ within (λ c'. array (Json.set xs i c')) (edit c)
]

unfoldable pub set_item : Items → Option ℕ → Value → Outcome (Unit {0})
set_item xs none new = (err invalid_json_path, array xs)
set_item xs (some i) new =
    if ltb i (Json.length xs)
    then (ok tt, array (Json.set xs i new))
    else (err invalid_json_path, array xs)

unfoldable pub set_segments : Value → List String → Value → Outcome (Unit {0})
unfolding set_at set_item set_entry entry_or_object
set_segments v [] new = (ok tt, new)
set_segments (object ms) (k ∷ []) new = (ok tt, object (insert k new ms))
set_segments (array xs) (k ∷ []) new = set_item xs (parse_usize k) new
set_segments (object ms) (k ∷ l ∷ ks) new =
    within (λ c. object (set_entry k c ms)) (set_segments (entry_or_object k ms) (l ∷ ks) new)
set_segments (array xs) (k ∷ l ∷ ks) new =
    set_at xs (parse_usize k) (λ c. set_segments c (l ∷ ks) new)
set_segments v (k ∷ ks) new = (err invalid_json_path, v)

unfoldable pub set_json_path : Value → String → Value → Outcome (Unit {0})
unfolding set_segments segments
set_json_path v path new = set_segments v (segments path) new

unfoldable pub delete_item : Items → Option ℕ → Outcome Bool
delete_item xs none = (err invalid_json_path, array xs)
delete_item xs (some i) =
    if ltb i (Json.length xs) then (ok true, array (Json.remove_at xs i)) else (ok false, array xs)

unfoldable pub delete_segments : Value → List String → Outcome Bool
unfolding set_at delete_item replace
delete_segments v [] = (ok false, v)
delete_segments (object ms) (k ∷ []) = elim (get k ms) [
  | none ↦ (ok false, object (remove k ms))
  | some _ ↦ (ok true, object (remove k ms))
]
delete_segments (array xs) (k ∷ []) = delete_item xs (parse_usize k)
delete_segments (object ms) (k ∷ l ∷ ks) = elim (get k ms) [
  | none ↦ (err invalid_json_path, object ms)
  | some c ↦ within (λ c'. object (replace k c' ms)) (delete_segments c (l ∷ ks))
]
delete_segments (array xs) (k ∷ l ∷ ks) =
    set_at xs (parse_usize k) (λ c. delete_segments c (l ∷ ks))
delete_segments v (k ∷ ks) = (err invalid_json_path, v)

unfoldable pub delete_json_path : Value → String → Outcome Bool
unfolding delete_segments segments
delete_json_path v path = delete_segments v (segments path)
