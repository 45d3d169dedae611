-- ===== src/Geofence/Examples.antt =====
-- The theorems on geofences at concrete fences and mutations.
use latlng.Prelude.{
  ◌+◌, ◌≡◌, refl, String, Bool, true, false, ◌||◌, Option, none, some, List, [], ◌∷◌, Result, ok,
  err, any, map, retain, ◌==◌, string_key, pair_key, if◌then◌else◌,
}
use latlng.Geo.Float.{nan, fle}
use latlng.Geo.Bounds.{zero_deg}
use latlng.Geo.Object.{GeoType, point, string, Object, Area}
use latlng.Geofence.{set, enter, exit, MutationEvent}
use latlng.Geofence.Fence.{Places, GeofenceDef, within, roaming, no_state, StoredState}
use latlng.Geofence.Fence.Transitions.{run, count, bit, has_inside, run-enter_exit}
use latlng.Platform.{new}
use latlng.Prelude.Map
use latlng.Geofence.Roaming.{
  Roam, reconcile_source_pairs, roam_event, current_matches, roam_distance_meters, remember_matches,
}
use latlng.Geofence.Roaming.Pairs.{reconcile_source_pairs_lem}
use latlng.Geofence.Mutations.{PreparedMutation, apply_prepared_mutation}
use latlng.Geofence.Mutations.Delivery.{
  is_wanted, push_all, stamped, apply_prepared_mutation-subscribers,
}
use latlng.Geofence.Registry.{
  no_fences, relevant_names, GeofenceRegistry, Subscriber, with_subscriber_queue_capacity,
}
use latlng.Geofence.Registry.Indexes as Indexes
use latlng.Geofence.Registry.Indexes.{
  changed, stands, collection_of, roams_to, relevant_names-changed,
}

-- A place is a text here: `in` and `out` of every area, and `bad`, for which a test fails.
abbrev is_in : GeoType → Result String Bool
is_in (string s) = if s == "bad" then err "bad" else ok (s == "in")
is_in _ = ok false

abbrev texts : Places
texts = record {
  GeofenceError = String;
  SearchOptions = Unit;
  matches_candidate = λ o options. ok true;
  contains_geo = λ area geo. is_in geo;
  intersects_geo = λ area geo. is_in geo;
  crosses = λ area a b. ok false;
  haversine_distance_meters = λ a b c d. a;
  envelope_center = λ geo. none;
  glob_match = λ pattern name. pattern == name;
}

abbrev zone : Area
zone = Area.hash "u"

abbrev fence : GeofenceDef texts
fence = record { collection = "fleet"; query = within zone tt; detect = []; commands = [] }

abbrev truck : String → Option Object
truck place = some (record { id = "t"; geo = string place; fields = []; expires_at = none })

abbrev moved : Option Object → Option Object → MutationEvent
moved before after = record {
  command = set;
  collection = "fleet";
  id = "t";
  before = before;
  after = after;
  timestamp_ns = 0;
}

-- In, to a place that cannot be tested, out, in, and deleted.
abbrev mutations : List MutationEvent
mutations =
    moved none (truck "in")
    ∷ moved (truck "in") (truck "bad")
    ∷ moved (truck "bad") (truck "out")
    ∷ moved (truck "out") (truck "in")
    ∷ moved (truck "in") none
    ∷ []

run-enter_exit_example :
    (let (t, events) = run texts fence none no_state mutations in
      count enter "t" events ≡ count exit "t" events + bit (has_inside "t" t))
run-enter_exit_example = run-enter_exit texts fence none mutations "t" refl refl

abbrev roamer : GeofenceDef texts
roamer = record {
  collection = "fleet";
  query = roaming "staff" "*" nan tt false;
  detect = [];
  commands = [];
}

relevant_names-changed_example :
    (let t =
        changed texts
          (λ def. def)
          no_fences
          (Indexes.set "a" fence ∷ Indexes.set "b" roamer ∷ Indexes.del "a" ∷ []) in
      any (λ x. x == "b") (relevant_names texts "staff" t) ≡ (
        stands (collection_of texts (λ def. def)) "b" "staff" t.stored
        || stands (roams_to texts (λ def. def)) "b" "staff" t.stored))
relevant_names-changed_example =
    relevant_names-changed texts (λ def. def)
      (Indexes.set "a" fence ∷ Indexes.set "b" roamer ∷ Indexes.del "a" ∷ []) "b" "staff"

-- Every distance is its first coordinate, so a source at 0 is near every target.
abbrev roam_to_staff : Roam texts
roam_to_staff = record {
  source_collection = "fleet";
  target_collection = "staff";
  target_pattern = "b";
  meters = zero_deg;
  options = tt;
  nodwell = true;
  group = some "g";
  hook = none;
  emit = true;
}

abbrev at_zero : String → Object
at_zero id = record { id = id; geo = point zero_deg zero_deg none; fields = []; expires_at = none }

abbrev remembered : StoredState
remembered = record { objects = []; pairs = (("a", "c"), true) ∷ [] }

-- `c` is not near any more, and `b` is.
abbrev reconciled : StoredState
reconciled = record { objects = []; pairs = (("a", "b"), true) ∷ [] }

reconcile_source_pairs_lem_example :
    Map.get {K = String × String} ("a", "c") reconciled.pairs ≡ none
unfolding reconcile_source_pairs current_matches roam_distance_meters remember_matches Map.get
    Map.insert fle
reconcile_source_pairs_lem_example =
    reconcile_source_pairs_lem texts roam_to_staff (moved none (truck "in")) (at_zero "a")
      (at_zero "b" ∷ at_zero "d" ∷ []) remembered reconciled
      (roam_event texts roam_to_staff (moved none (truck "in")) (at_zero "a") "b" zero_deg ∷ [])
      true "a" "c" refl refl

abbrev registry : GeofenceRegistry texts
registry = record (with_subscriber_queue_capacity texts 2) {
  subscribers =
      record { exact = "x" ∷ []; patterns = []; sender = new 2 }
      ∷ record { exact = []; patterns = "g" ∷ "g" ∷ []; sender = new 2 }
      ∷ [];
}

abbrev prepared : PreparedMutation texts
prepared = record {
  channel_states = [];
  hook_states = [];
  events = roam_event texts roam_to_staff (moved none (truck "in")) (at_zero "a") "b" zero_deg ∷ [];
  eval_errors = 0;
}

apply_prepared_mutation-subscribers_example :
    (apply_prepared_mutation texts prepared registry).subscribers
    ≡ map
        (λ (s : Subscriber texts). record s {
          sender = push_all (map (stamped 0) (retain (is_wanted texts s) prepared.events)) s.sender;
        })
        registry.subscribers
apply_prepared_mutation-subscribers_example =
    apply_prepared_mutation-subscribers texts prepared registry
