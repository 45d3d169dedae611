-- ===== src/Index/Search.antt =====
-- The options, the order and the pages of a search, crates/latlng-index/src/lib.rs. The filters' test of an object, the format
-- of the output and std's sort are arguments; a partial sort is taken to place the first `end` candidates as
-- a full sort does. Candidates are filtered one after the other.
pub mod Pages
use latlng.Prelude.{
  ℕ, zero, suc, ◌+◌, ◌-◌, ◌%◌, ◌^◌, min, max, String, Bool, true, false, not, ◌&&◌, ◌||◌, Option,
  none, some, is_some, List, [], ◌∷◌, ◌++◌, Result, ok, err, ◌>>=◌, map_ok, length, take, drop, leb,
  ltb, ◌==◌, nat_key, if◌then◌else◌, saturating_add, Ordering,
}
use Prim.Native.String.{compare as compare_str}
use latlng.Geo.Float.{F64, flt}
use latlng.Geo.Fields.{FieldMap}
use latlng.Geo.Object.{GeoType, Object}

pub data SortOrder : Type 0 where
  asc desc : SortOrder

pub data OutputFormat : Type 0 where
  objects points bounds ids count : OutputFormat
  hashes : ℕ → OutputFormat

pub data WhereComparison : Type 0 where
  range : F64 → F64 → WhereComparison
  equals_text : String → WhereComparison
  regex : String → WhereComparison

pub record WhereFilter : Type 0 where
  pub field : String
  pub comparison : WhereComparison

pub record WhereInFilter : Type 0 where
  pub field : String
  pub values : List String

pub record WhereExprFilter : Type 0 where
  pub expression : String

pub record SearchOptions : Type 0 where
  pub cursor : ℕ
  pub limit : ℕ
  pub nofields : Bool
  pub include_count : Bool
  pub match_pattern : Option String
  pub sort : SortOrder
  pub where_filters : List WhereFilter
  pub where_in_filters : List WhereInFilter
  pub where_expr_filters : List WhereExprFilter
  pub clip : Bool
  pub output : OutputFormat

abbrev pub default : SearchOptions
default = record {
  cursor = 0;
  limit = 100;
  nofields = false;
  include_count = true;
  match_pattern = none;
  sort = asc;
  where_filters = [];
  where_in_filters = [];
  where_expr_filters = [];
  clip = false;
  output = objects;
}

abbrev pub is_ids : OutputFormat → Bool
is_ids ids = true
is_ids _ = false

abbrev pub is_objects : OutputFormat → Bool
is_objects objects = true
is_objects _ = false

abbrev pub is_count : OutputFormat → Bool
is_count count = true
is_count _ = false

unfoldable pub fast_limited_ids : SearchOptions → Bool
fast_limited_ids o =
    not o.include_count && ((o.cursor == 0) && (o.nofields && (is_ids o.output && not o.clip)))

pub record SearchItem : Type 0 where
  pub id : String
  pub object : Option GeoType
  pub fields : Option FieldMap
  pub distance_meters : Option F64

pub record SearchResults : Type 0 where
  pub results : List SearchItem
  pub cursor : ℕ
  pub count : ℕ

-- `OwnedSearchCandidate`
pub record Candidate : Type 0 where
  pub object : Object
  pub distance_meters : Option F64

-- `partial_cmp`, and `Equal` where it gives nothing.
abbrev pub compare_distances : F64 → F64 → Ordering
compare_distances a b =
    if flt a b then Ordering.lt else if flt b a then Ordering.gt else Ordering.eq

abbrev pub then_ids : Ordering → Candidate → Candidate → Ordering
then_ids Ordering.eq a b = compare_str a.object.id b.object.id
then_ids Ordering.lt a b = Ordering.lt
then_ids Ordering.gt a b = Ordering.gt

abbrev pub reverse : Ordering → Ordering
reverse Ordering.lt = Ordering.gt
reverse Ordering.eq = Ordering.eq
reverse Ordering.gt = Ordering.lt

abbrev pub compare_zipped : Candidate → Candidate → Option F64 → Option F64 → Ordering
compare_zipped a b (some x) (some y) = then_ids (compare_distances x y) a b
compare_zipped a b (some x) none = compare_str a.object.id b.object.id
compare_zipped a b none y = compare_str a.object.id b.object.id

unfoldable pub compare_candidates : Bool → Candidate → Candidate → Ordering
compare_candidates descending a b =
    let ordering = compare_zipped a b a.distance_meters b.distance_meters in
    if descending then reverse ordering else ordering

abbrev pub is_desc : SortOrder → Bool
is_desc desc = true
is_desc asc = false

module _ {E : Type 0}
    (sort_by : (Candidate → Candidate → Ordering) → List Candidate → List Candidate)
    (matches : Object → SearchOptions → Result E Bool)
    (format_object : Object → OutputFormat → Bool → Result E (Option GeoType)) where
  unfoldable pub filter_candidates : List Candidate → SearchOptions → Result E (List Candidate)
  filter_candidates [] o = ok []
  filter_candidates (c ∷ cs) o = do
    keep ← matches c.object o
    rest ← filter_candidates cs o
    ok (if keep then c ∷ rest else rest)

  -- An item of `apply_search_options`.
  abbrev pub item : SearchOptions → Bool → Candidate → Result E SearchItem
  item o allow_clip c = do
    object ← format_object c.object o.output (allow_clip && (o.clip && is_objects o.output))
    ok (record {
      id = c.object.id;
      object = object;
      fields = if o.nofields then none else some c.object.fields;
      distance_meters = c.distance_meters;
    })

  unfoldable pub items : SearchOptions → Bool → List Candidate → Result E (List SearchItem)
  items o allow_clip [] = ok []
  items o allow_clip (c ∷ cs) = do x ← item o allow_clip c; xs ← items o allow_clip cs; ok (x ∷ xs)

  -- The first matching candidates, `room` of them at most.
  unfoldable pub fast_items : ℕ → List Candidate → SearchOptions → Result E (List SearchItem)
  fast_items zero cs o = ok []
  fast_items (suc room) [] o = ok []
  fast_items (suc room) (c ∷ cs) o = do
    keep ← matches c.object o
    if keep
        then map_ok
            (λ xs.
              record {
                id = c.object.id;
                object = none;
                fields = none;
                distance_meters = c.distance_meters;
              }
              ∷ xs)
            (fast_items room cs o)
        else fast_items (suc room) cs o

  unfoldable pub apply_fast_limited_ids : List Candidate → SearchOptions → Result E SearchResults
  unfolding fast_items
  apply_fast_limited_ids cs o =
      map_ok (λ xs. record { results = xs; cursor = 0; count = length xs % 2 ^ 32 })
        (fast_items (max o.limit 1) cs o)

  -- The page of the filtered candidates; the counts are cast to u32.
  unfoldable pub page : SearchOptions → Bool → List Candidate → Result E SearchResults
  unfolding items compare_candidates
  page o allow_clip filtered =
      let end = min (saturating_add o.cursor (max o.limit 1)) (length filtered) in
      let next = if ltb end (length filtered) then end % 2 ^ 32 else 0 in
      let total = length filtered % 2 ^ 32 in
      let sorted = sort_by (compare_candidates (is_desc o.sort)) filtered in
      if is_count o.output
      then ok (record { results = []; cursor = next; count = total })
      else map_ok
          (λ xs. record {
            results = xs;
            cursor = next;
            count = if o.include_count then total else (end - o.cursor) % 2 ^ 32;
          })
          (items o allow_clip (take (max o.limit 1) (drop o.cursor sorted)))

  unfoldable pub apply_search_options :
      List Candidate → SearchOptions → Bool → Result E SearchResults
  unfolding fast_limited_ids apply_fast_limited_ids filter_candidates page
  apply_search_options cs o allow_clip =
      if fast_limited_ids o
      then apply_fast_limited_ids cs o
      else filter_candidates cs o >>= page o allow_clip
