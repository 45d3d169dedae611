-- ===== src/Core/Examples.antt =====
-- The core at concrete objects, over the plainest crates that fit.
use latlng.Prelude.{
  ℕ, String, not, Result, Option, retain, ==_iff, Bool-cases, inl, inr, if◌then◌else◌, ap, sym, ◌∙◌,
  subst, ◌≡◌, refl, ◌↔◌, true, false, List, [], ◌∷◌, none, some, ok, err, any, ◌==◌, string_key,
  nat_key, pair_key, arith, ◌≤◌, length,
}
use latlng.Prelude.Map
use latlng.Prelude.Set
use latlng.Geo.Bounds.{BoundingBox, from_point}
use latlng.Geo.JsonPath.{GeoError, invalid_geometry, invalid_geohash}
use latlng.Geo.Fields.{number, text, get}
use latlng.Geo.Object.{Object, point, hash, envelope}
use latlng.Index.{Crates, IndexedEntry, entry_of}
use latlng.Core.Fields.{FieldEntry, apply_field_updates}
use latlng.Core.Fields.Laws.{last_written, apply_field_updates-get}
use latlng.Core.Collection.{Collection, new, upsert, due_expirations}
use latlng.Core.Collection.Sync.{InSync, entry_for, new-InSync}
use latlng.Core.Collection.Tree.{IsGeoOnGlobe}
use latlng.Index.Tree.{TreeLaws, to_list, is_entry_on_globe}
use latlng.Geo.Float.{fle}
use latlng.Core.Collection.Upsert.{upsert-err}
use latlng.Core.Collection.Expiry.{due_expirations_iff}
use latlng.Core.Collection.Steps.{
  Call, put, take_out, expire, update, run, run-InSync, run_from-InSync,
}

abbrev pub crates : Crates
crates = record {
  midpoint = λ a b. a;
  bounding_rect = λ v. err invalid_geometry;
  RTree = List IndexedEntry;
  tree_new = [];
  tree_insert = λ e t. e ∷ t;
  tree_remove = λ e t. (retain (λ x. not (x.id == e.id)) t, any (λ x. x.id == e.id) t);
}

abbrev stored : List IndexedEntry → String → List IndexedEntry
stored t id = retain (λ x. x.id == id) t

stored_without :
    (i j : String) (t : List IndexedEntry)
    → stored (retain (λ x. not (x.id == i)) t) j ≡ (if i == j then [] else stored t j)
stored_without i j [] = ground arith
stored_without i j (x ∷ t) =
    ground (arith, stored_without i j t, ==_iff x.id i, ==_iff x.id j, ==_iff i j)

stored_with :
    (e : IndexedEntry) (t : List IndexedEntry) (j : String)
    → stored t e.id ≡ []
    → stored (e ∷ t) j ≡ (if e.id == j then e ∷ [] else stored t j)
stored_with e t j h = elim (Bool-cases (e.id == j)) [
  | inl q ↦ rw q (ap (λ l. e ∷ l) (ap (stored t) (sym ((==_iff e.id j).0 q)) ∙ h))
  | inr q ↦ rw q refl
]

crates-TreeLaws : TreeLaws crates stored
crates-TreeLaws = record {
  created = λ id. refl;
  inserted = λ e t on h id. stored_with e t id h;
  removed = λ e t on h id. stored_without e.id id t;
}

abbrev truck : Object
truck = record {
  id = "truck";
  geo = point 0 0 none;
  fields = ("speed", number 7) ∷ [];
  expires_at = some 50;
}

abbrev updates : List FieldEntry
updates =
    record { name = "speed"; value = number 0 }
    ∷ record { name = "driver"; value = text "ann" }
    ∷ []

apply_field_updates-get_example :
    get (apply_field_updates truck.fields updates) "speed"
    ≡ last_written updates "speed" (get truck.fields "speed")
apply_field_updates-get_example = apply_field_updates-get updates truck.fields "speed"

abbrev calls : List Call
calls = put truck ∷ expire "truck" (some 90) ∷ update "truck" updates ∷ take_out "van" ∷ []

put_succeeds : (upsert crates truck (new crates "fleet")).0 ≡ ok tt
unfolding upsert new Map.get
put_succeeds = refl

same_bounds :
    (a b : BoundingBox)
    → Path (Result GeoError (Option BoundingBox)) (ok (some a)) (ok (some b))
    → a ≡ b
same_bounds a b h = cc

-- The truck's one envelope is the point at 0.
truck-IsGeoOnGlobe : IsGeoOnGlobe crates truck.id truck.geo
unfolding envelope fle
truck-IsGeoOnGlobe b h =
    subst (λ x. is_entry_on_globe (entry_of crates "truck" x) ≡ true)
      (same_bounds (from_point 0 0) b h) refl

run-InSync_example :
    InSync crates (run crates (new crates "fleet") calls)
    × ((id : String)
        → stored (run crates (new crates "fleet") calls).spatial_index.tree id
          ≡ to_list
              (entry_for crates id (Map.get id (run crates (new crates "fleet") calls).objects)))
run-InSync_example =
    run-InSync crates stored crates-TreeLaws "fleet" calls (put_succeeds, tt)
      (truck-IsGeoOnGlobe, tt)

abbrev fleet : Collection crates
fleet = run crates (new crates "fleet") (put truck ∷ [])

fleet-InSync : InSync crates fleet
fleet-InSync =
    run_from-InSync crates (put truck ∷ []) (new crates "fleet") (new-InSync crates "fleet")
      (put_succeeds, tt)

-- A text that is no geohash: the put fails, and the truck has lost its deadline.
abbrev stray : Object
stray = record truck { geo = hash "a" }

stray_fails : (upsert crates stray fleet).0 ≡ err invalid_geohash
unfolding run upsert new Map.get Map.insert Map.remove
stray_fails = refl

upsert-err_example :
    ((upsert crates stray fleet).1.objects ≡ fleet.objects)
    × ((t : ℕ) → Set.contains (t, "truck") (upsert crates stray fleet).1.expirations ≡ false)
    × (Map.get "truck" (upsert crates stray fleet).1.spatial_index.entries_by_id ≡ none)
upsert-err_example = upsert-err crates stray fleet invalid_geohash fleet-InSync stray_fails

fleet-IsSorted : Set.IsSorted fleet.expirations
unfolding run upsert new Map.get Map.insert Set.insert
fleet-IsSorted = (tt, tt)

fleet_is_short : length fleet.expirations ≤ 3
unfolding run upsert new Map.get Map.insert Set.insert
fleet_is_short = omega arith

due_expirations_iff_example :
    (any (λ i. i == "truck") (due_expirations crates 60 3 fleet) ≡ true) ↔ (
      (o : Object) × (t : ℕ) × (Map.get "truck" fleet.objects ≡ some o)
      × (o.expires_at ≡ some t)
      × (t ≤ 60))
due_expirations_iff_example =
    due_expirations_iff crates fleet 60 3 "truck" fleet-InSync fleet-IsSorted fleet_is_short
