-- ===== src/Geofence/Fence.antt =====
-- Fences of crates/latlng-geofence/src/lib.rs that stand still: what a mutation means to one. The tests of places are
-- those of latlng-geo and the filters those of latlng-index (`Places`).
pub mod Transitions
use latlng.Prelude.{
  ℕ, String, Bool, true, false, not, ◌&&◌, ◌||◌, Option, none, some, List, [], ◌∷◌, Result, ok, err,
  ◌>>=◌, map_ok, get_or, omap, is_some, any, ◌==◌, string_key, if◌then◌else◌,
}
use latlng.Prelude.Map
use latlng.Prelude.Map.{Map}
use latlng.Geo.Float.{F64, fle}
use latlng.Geo.Fields.{FieldMap}
use latlng.Geo.Object.{GeoType, string, Object, Area, circle, point_coordinates}
use latlng.Geofence.{
  MutationCommand, set, del, drop, fset, DetectType, inside, outside, enter, exit, cross, roam,
  GeofenceEvent, MutationEvent,
}

-- What the registry asks of the crates below it. `GeofenceError` wraps their errors.
pub record Places : Type 1 where
  pub GeofenceError : Type 0
  pub SearchOptions : Type 0
  pub matches_candidate : Object → SearchOptions → Result GeofenceError Bool
  pub contains_geo : Area → GeoType → Result GeofenceError Bool
  pub intersects_geo : Area → GeoType → Result GeofenceError Bool
  -- `to_geometry` of the area, and whether it meets the line between two points
  pub crosses : Area → F64 × F64 → F64 × F64 → Result GeofenceError Bool
  pub haversine_distance_meters : F64 → F64 → F64 → F64 → F64
  -- the center of the object's envelope, where it has one
  pub envelope_center : GeoType → Option (F64 × F64)
  pub glob_match : String → String → Bool

abbrev pub same_command : MutationCommand → MutationCommand → Bool
same_command set set = true
same_command del del = true
same_command drop drop = true
same_command fset fset = true
same_command _ _ = false

abbrev pub same_detect : DetectType → DetectType → Bool
same_detect inside inside = true
same_detect outside outside = true
same_detect enter enter = true
same_detect exit exit = true
same_detect cross cross = true
same_detect roam roam = true
same_detect _ _ = false

-- An empty list allows everything.
abbrev pub allows {ℓ} : {A : Type ℓ} → (A → A → Bool) → List A → A → Bool
allows same [] a = true
allows same (b ∷ bs) a = any (same a) (b ∷ bs)

pub record StoredState : Type 0 where
  pub objects : Map String Bool
  pub pairs : Map (String × String) Bool

abbrev pub no_state : StoredState
no_state = record { objects = []; pairs = [] }

pub data StoredStateUpdate : Type 0 where
  unchanged : StoredStateUpdate
  object : String → Option Bool → StoredStateUpdate
  replace : StoredState → StoredStateUpdate

unfoldable pub apply : StoredStateUpdate → StoredState → StoredState
apply unchanged s = s
apply (object id (some now)) s = record s { objects = Map.insert id now s.objects }
apply (object id none) s = record s { objects = Map.remove id s.objects }
apply (replace next) s = next

module _ (p : Places) where
  pub data GeofenceQuery : Type 0 where
    nearby : F64 → F64 → F64 → p.SearchOptions → GeofenceQuery
    within : Area → p.SearchOptions → GeofenceQuery
    intersects : Area → p.SearchOptions → GeofenceQuery
    roaming : String → String → F64 → p.SearchOptions → Bool → GeofenceQuery

  pub record GeofenceDef : Type 0 where
    pub collection : String
    pub query : GeofenceQuery
    pub detect : List DetectType
    pub commands : List MutationCommand

  -- The distance from the point, or from the center of the envelope.
  abbrev pub is_near : F64 → F64 → F64 → Option (F64 × F64) → Bool
  is_near lat lon meters none = false
  is_near lat lon meters (some (y, x)) = fle (p.haversine_distance_meters lat lon y x) meters

  abbrev pub place_of : GeoType → Option (F64 × F64)
  place_of geo = elim (point_coordinates geo) [ some at ↦ some at | none ↦ p.envelope_center geo ]

  abbrev pub and_matches : Object → p.SearchOptions → Bool → Result p.GeofenceError Bool
  and_matches o options false = ok false
  and_matches o options true = p.matches_candidate o options

  unfoldable pub object_matches_query : Object → GeofenceQuery → Result p.GeofenceError Bool
  object_matches_query o (nearby lat lon meters options) =
      and_matches o options (is_near lat lon meters (place_of o.geo))
  object_matches_query o (within area options) = p.contains_geo area o.geo >>= and_matches o options
  object_matches_query o (intersects area options) =
      p.intersects_geo area o.geo >>= and_matches o options
  object_matches_query o (roaming c pattern meters options nodwell) = p.matches_candidate o options

  -- The line from the object's point to its next one meets the area.
  abbrev pub crosses_query : GeofenceQuery → F64 × F64 → F64 × F64 → Result p.GeofenceError Bool
  crosses_query (nearby lat lon meters options) a b = p.crosses (circle lat lon meters) a b
  crosses_query (within area options) a b = p.crosses area a b
  crosses_query (intersects area options) a b = p.crosses area a b
  crosses_query (roaming c pattern meters options nodwell) a b = ok false

  abbrev pub crossed_points :
      GeofenceQuery → Option (F64 × F64) → Option (F64 × F64) → Result p.GeofenceError Bool
  crossed_points q (some a) (some b) = crosses_query q a b
  crossed_points q (some a) none = ok false
  crossed_points q none b = ok false

  unfoldable pub crossed_boundary : MutationEvent → GeofenceDef → Result p.GeofenceError Bool
  crossed_boundary e def = elim e.before [
    | none ↦ ok false
    | some before ↦ elim e.after [
      | none ↦ ok false
      | some after ↦
          crossed_points def.query (point_coordinates before.geo) (point_coordinates after.geo)
    ]
  ]

  abbrev pub inside_now : MutationEvent → GeofenceDef → Result p.GeofenceError Bool
  inside_now e def = elim e.after [ none ↦ ok false | some o ↦ object_matches_query o def.query ]

  -- What the object did, from where it was and where it is.
  abbrev pub detected :
      Bool → Bool → Result p.GeofenceError Bool → Result p.GeofenceError DetectType
  detected false true crossed = ok enter
  detected true true crossed = ok inside
  detected true false crossed = ok exit
  detected false false crossed = map_ok (λ b. if b then cross else outside) crossed

  abbrev pub shown : MutationEvent → Option Object
  shown e = elim e.after [ some o ↦ some o | none ↦ e.before ]

  abbrev pub static_event :
      MutationEvent → DetectType → Option String → Option String → GeofenceEvent
  static_event e detect group hook = record {
    command = e.command;
    detect = detect;
    collection = e.collection;
    id = e.id;
    object = get_or (omap (λ o. o.geo) (shown e)) (string e.id);
    fields = get_or (omap (λ o. o.fields) (shown e)) [];
    timestamp_ns = e.timestamp_ns;
    event_id = none;
    job_id = none;
    hook = hook;
    group = group;
    nearby = none;
    generation = 0;
  }

  -- The event, if the fence wants what was detected and the command.
  abbrev pub sent :
      GeofenceDef → MutationEvent → DetectType → (group hook : Option String) → List GeofenceEvent
  sent def e detect group hook =
      if allows same_detect def.detect detect && allows same_command def.commands e.command
      then static_event e detect group hook ∷ []
      else []

  abbrev pub state_update : MutationEvent → Bool → StoredStateUpdate
  state_update e now = object e.id (if is_some e.after then some now else none)

  unfoldable pub evaluate_static_fence :
      GeofenceDef
      → StoredState
      → MutationEvent
      → (group hook : Option String)
      → Result p.GeofenceError (StoredStateUpdate × List GeofenceEvent)
  unfolding object_matches_query crossed_boundary
  evaluate_static_fence def s e group hook =
      if not (def.collection == e.collection) then ok (unchanged, []) else (do
        now ← inside_now e def
        detect ← detected (get_or (Map.get e.id s.objects) false) now (crossed_boundary e def)
        ok (state_update e now, sent def e detect group hook))
