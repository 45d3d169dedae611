-- ===== src/Core/Fields/Laws.antt =====
-- What the fields of an object read after updates.
use latlng.Prelude.{
  String, Option, none, some, List, [], ◌∷◌, ◌≡◌, refl, ap, ◌∙◌, ◌==◌, string_key, arith,
  Bool-cases, if◌then◌else◌, inl, inr,
}
use latlng.Prelude.Map
use latlng.Prelude.Map.{Map, IsSorted, insert_all}
use latlng.Geo.Fields.{FieldValue, FieldMap, get, insert, remove}
use latlng.Core.Fields.{
  FieldEntry, apply_field_updates, is_zero_field_value, field_entries_to_map, field_map_to_entries,
  insert_entries,
}

-- What a value written to a field reads as: a number equal to 0 deletes the field.
abbrev pub written : FieldValue → Option FieldValue
written v = if is_zero_field_value v then none else some v

-- What the last update of a field leaves, where some update names it, and else what it had.
abbrev pub last_written : List FieldEntry → String → Option FieldValue → Option FieldValue
last_written [] k old = old
last_written (e ∷ es) k old = last_written es k (if e.name == k then written e.value else old)

read_update :
    (e : FieldEntry) (m : FieldMap) (k : String)
    → get
        (if is_zero_field_value e.value then (remove m e.name).0 else (insert m e.name e.value).0)
        k
      ≡ (if e.name == k then written e.value else get m k)
unfolding insert remove
read_update e m k = ground (arith, Map.get-insert e.name k e.value m, Map.get-remove e.name k m)

-- After updates, each field reads as its last update says, a zero as missing, and a field that no
-- update names reads as before.
pub apply_field_updates-get :
    (es : List FieldEntry) (m : FieldMap) (k : String)
    → get (apply_field_updates m es) k ≡ last_written es k (get m k)
unfolding apply_field_updates
apply_field_updates-get [] m k = refl
apply_field_updates-get (e ∷ es) m k =
    apply_field_updates-get es _ k ∙ ap (last_written es k) (read_update e m k)

insert_entries-all : (l m : FieldMap) → insert_entries m (field_map_to_entries l) ≡ insert_all m l
unfolding field_map_to_entries insert insert_all
insert_entries-all [] m = refl
insert_entries-all ((k, v) ∷ l) m = insert_entries-all l (Map.insert k v m)

-- A map in key order is rebuilt from its entries.
pub field_entries_to_map-entries :
    (m : FieldMap) → IsSorted m → field_entries_to_map (field_map_to_entries m) ≡ m
unfolding field_entries_to_map
field_entries_to_map-entries m s = insert_entries-all m [] ∙ Map.insert_all-entries m s

-- Updates keep the fields in key order.
pub apply_field_updates-IsSorted :
    (es : List FieldEntry) (m : FieldMap) → IsSorted m → IsSorted (apply_field_updates m es)
unfolding apply_field_updates insert remove
apply_field_updates-IsSorted [] m s = s
apply_field_updates-IsSorted (e ∷ es) m s = elim (Bool-cases (is_zero_field_value e.value)) [
  | inl z ↦ rw z (apply_field_updates-IsSorted es _ (Map.remove-IsSorted e.name m s))
  | inr z ↦ rw z (apply_field_updates-IsSorted es _ (Map.insert-IsSorted e.name e.value m s))
]
