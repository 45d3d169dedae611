-- ===== src/Core/Fields.antt =====
-- The updates of an object's fields, from crates/latlng-core/src/util.rs.
pub mod Laws
use latlng.Prelude.{String, Option, none, some, Bool, false, List, [], ◌∷◌, map, if◌then◌else◌}
use latlng.Geo.Float.{feq}
use latlng.Geo.Fields.{FieldValue, number, FieldMap, insert, remove}
use latlng.Geo.Object.{Object}

pub record FieldEntry : Type 0 where
  pub name : String
  pub value : FieldValue

abbrev pub insert_entries : FieldMap → List FieldEntry → FieldMap
insert_entries m [] = m
insert_entries m (e ∷ es) = insert_entries (insert m e.name e.value).0 es

unfoldable pub field_entries_to_map : List FieldEntry → FieldMap
field_entries_to_map es = insert_entries [] es

unfoldable pub is_zero_field_value : FieldValue → Bool
unfolding feq
is_zero_field_value (number n) = feq n 0
is_zero_field_value _ = false

unfoldable pub apply_field_updates : FieldMap → List FieldEntry → FieldMap
unfolding is_zero_field_value
apply_field_updates m [] = m
apply_field_updates m (e ∷ es) =
    apply_field_updates
      (if is_zero_field_value e.value then (remove m e.name).0 else (insert m e.name e.value).0) es

unfoldable pub merged_set_fields : Option Object → List FieldEntry → FieldMap
unfolding apply_field_updates
merged_set_fields none es = apply_field_updates [] es
merged_set_fields (some o) es = apply_field_updates o.fields es

unfoldable pub field_map_to_entries : FieldMap → List FieldEntry
field_map_to_entries m = map (λ p. record { name = p.0; value = p.1 }) m
