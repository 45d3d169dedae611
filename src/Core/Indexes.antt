-- ===== src/Core/Indexes.antt =====
-- `FieldIndexes` of crates/latlng-core/src/lib.rs: from a field and a value to the ids of the objects
-- with that value. A number stands in the index at its place in `total_cmp`.
pub mod Laws
use latlng.Prelude.{
  ℕ, String, Option, none, some, Bool, true, false, List, [], ◌∷◌, Ord, get_or, string_key, nat_key,
  if◌then◌else◌,
}
use latlng.Prelude.Map
use latlng.Prelude.Map.{Map}
use latlng.Prelude.Set
use latlng.Geo.Float.{total_key}
use latlng.Geo.Fields.{FieldValue, number, text, json, FieldMap}
use latlng.Geo.Object.{Object}

abbrev pub Index : Type 0 → Type 0
Index K = Map String (Map K (List String))

abbrev pub is_nil : {A : Type 0} → List A → Bool
is_nil [] = true
is_nil (x ∷ xs) = false

-- `get` or the empty collection, `or_default`.
abbrev pub or_nil : {A : Type 0} → Option (List A) → List A
or_nil o = get_or o []

module _ {K : Type 0} ⦃e : Ord K⦄ where
  unfoldable pub insert_indexed_id : String → K → String → Index K → Index K
  insert_indexed_id field value id index =
      let values = or_nil (Map.get field index) in
      Map.insert field (Map.insert value (Set.insert id (or_nil (Map.get value values))) values)
        index

  abbrev pub remove_value : K → String → Map K (List String) → Map K (List String)
  remove_value value id values = elim (Map.get value values) [
    | none ↦ values
    | some ids ↦
        let rest = Set.remove id ids in
        if is_nil rest then Map.remove value values else Map.insert value rest values
  ]

  abbrev pub put_values : String → Map K (List String) → Index K → Index K
  put_values field values index =
      if is_nil values then Map.remove field index else Map.insert field values index

  unfoldable pub remove_indexed_id : String → K → String → Index K → Index K
  remove_indexed_id field value id index = elim (Map.get field index) [
    | none ↦ index
    | some values ↦ put_values field (remove_value value id values) index
  ]

pub record FieldIndexes : Type 0 where
  pub numeric : Index ℕ
  pub text : Index String

abbrev pub no_indexes : FieldIndexes
no_indexes = record { numeric = []; text = [] }

abbrev pub insert_field : String → String → FieldValue → FieldIndexes → FieldIndexes
insert_field id field (number n) i = record i {
  numeric = insert_indexed_id field (total_key n) id i.numeric;
}
insert_field id field (text s) i = record i { text = insert_indexed_id field s id i.text }
insert_field id field (json s) i = record i { text = insert_indexed_id field s id i.text }

abbrev pub remove_field : String → String → FieldValue → FieldIndexes → FieldIndexes
remove_field id field (number n) i = record i {
  numeric = remove_indexed_id field (total_key n) id i.numeric;
}
remove_field id field (text s) i = record i { text = remove_indexed_id field s id i.text }
remove_field id field (json s) i = record i { text = remove_indexed_id field s id i.text }

abbrev pub insert_fields_of : String → FieldMap → FieldIndexes → FieldIndexes
insert_fields_of id [] i = i
insert_fields_of id ((f, v) ∷ fs) i = insert_fields_of id fs (insert_field id f v i)

abbrev pub remove_fields_of : String → FieldMap → FieldIndexes → FieldIndexes
remove_fields_of id [] i = i
remove_fields_of id ((f, v) ∷ fs) i = remove_fields_of id fs (remove_field id f v i)

unfoldable pub insert_object : Object → FieldIndexes → FieldIndexes
unfolding insert_indexed_id total_key
insert_object o i = insert_fields_of o.id o.fields i

unfoldable pub remove_object : Object → FieldIndexes → FieldIndexes
unfolding remove_indexed_id total_key
remove_object o i = remove_fields_of o.id o.fields i
