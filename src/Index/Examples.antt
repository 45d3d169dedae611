-- ===== src/Index/Examples.antt =====
-- The pages of a search at concrete candidates.
use latlng.Prelude.{
  ◌≡◌, refl, arith, String, Bool, true, false, Option, none, some, List, [], ◌∷◌, Result, ok,
  Ordering,
}
use latlng.Geo.Object.{GeoType, string, Object}
use latlng.Index.Search.{SearchOptions, SearchItem, OutputFormat, Candidate, default, ids, items}
use latlng.Index.Search.Pages.{follow, follow-all}

abbrev named : String → Candidate
named id = record {
  object = record { id = id; geo = string id; fields = []; expires_at = none };
  distance_meters = none;
}

-- The candidates come in their order.
abbrev as_they_are : (Candidate → Candidate → Ordering) → List Candidate → List Candidate
as_they_are compare cs = cs

abbrev every : Object → SearchOptions → Result String Bool
every object o = ok true

abbrev no_object : Object → OutputFormat → Bool → Result String (Option GeoType)
no_object object output clip = ok none

abbrev two_a_page : SearchOptions
two_a_page = record default { limit = 2; nofields = true; output = ids }

abbrev named_item : String → SearchItem
named_item id = record { id = id; object = none; fields = none; distance_meters = none }

follow-all_example :
    follow as_they_are every no_object two_a_page false (named "a" ∷ named "b" ∷ named "c" ∷ []) 4 0
    ≡ ok (some (named_item "a" ∷ named_item "b" ∷ named_item "c" ∷ []))
unfolding items
follow-all_example =
    follow-all as_they_are every no_object two_a_page false (named "a" ∷ named "b" ∷ named "c" ∷ [])
      (named_item "a" ∷ named_item "b" ∷ named_item "c" ∷ []) refl (omega arith) (omega arith) refl
      refl
