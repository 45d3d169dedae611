-- ===== src/Geofence/Roaming.antt =====
-- Fences of crates/latlng-geofence/src/lib.rs between the objects of two collections. The matches of an object, a HashMap in the
-- source, are taken in the order of their ids.
pub mod Pairs
use latlng.Prelude.{
  ℕ, String, Bool, true, false, not, ◌&&◌, ◌||◌, Option, none, some, List, [], ◌∷◌, ◌++◌, Result,
  ok, err, ◌>>=◌, get_or, omap, is_some, any, map, retain, ◌==◌, string_key, pair_key,
  if◌then◌else◌,
}
use latlng.Prelude.Map
use latlng.Prelude.Map.{Map}
use latlng.Geo.Float.{F64, fle}
use latlng.Geo.Object.{Object, point_coordinates}
use latlng.Geofence.{roam, GeofenceEvent, MutationEvent}
use latlng.Geofence.Fence.{
  Places, GeofenceDef, nearby, within, intersects, roaming, StoredState, StoredStateUpdate, replace,
  allows, same_command, same_detect, evaluate_static_fence,
}

unfoldable pub clear_source_pairs : String → StoredState → StoredState
clear_source_pairs id s = record s { pairs = retain (λ x. not (x.0.0 == id)) s.pairs }

module _ (p : Places) where
  abbrev pub near_enough : F64 → Option (F64 × F64) → Option (F64 × F64) → Option F64
  near_enough meters (some (y, x)) (some (v, u)) =
      let distance = p.haversine_distance_meters y x v u in
      if fle distance meters then some distance else none
  near_enough meters (some a) none = none
  near_enough meters none b = none

  unfoldable pub roam_distance_meters : Object → Object → F64 → Option F64
  roam_distance_meters source target meters =
      near_enough meters (point_coordinates source.geo) (point_coordinates target.geo)

  -- What a roaming fence is about, and where its events go.
  pub record Roam : Type 0 where
    pub source_collection : String
    pub target_collection : String
    pub target_pattern : String
    pub meters : F64
    pub options : p.SearchOptions
    pub nodwell : Bool
    pub group : Option String
    pub hook : Option String
    pub emit : Bool

  abbrev pub roam_event : Roam → MutationEvent → Object → String → F64 → GeofenceEvent
  roam_event r e source target_id distance = record {
    command = e.command;
    detect = roam;
    collection = r.source_collection;
    id = source.id;
    object = source.geo;
    fields = source.fields;
    timestamp_ns = e.timestamp_ns;
    event_id = none;
    job_id = none;
    hook = r.hook;
    group = r.group;
    nearby = some (record { collection = r.target_collection; id = target_id; meters = distance });
    generation = 0;
  }

  -- The targets near the source, by their ids.
  unfoldable pub current_matches : Roam → Object → List Object → Map String F64 → Map String F64
  unfolding roam_distance_meters
  current_matches r source [] m = m
  current_matches r source (t ∷ ts) m =
      let skip = current_matches r source ts m in
      let found = λ (d : F64). current_matches r source ts (Map.insert t.id d m) in
      if not (p.glob_match r.target_pattern t.id) || (t.id == source.id)
      then skip
      else elim (roam_distance_meters source t r.meters) [ none ↦ skip | some d ↦ found d ]

  -- The pairs of the source that are no longer near are forgotten.
  abbrev pub without_parted : Object → Map String F64 → StoredState → StoredState
  without_parted source m s = record s {
    pairs = retain (λ x. not (x.0.0 == source.id) || is_some (Map.get x.0.1 m)) s.pairs;
  }

  -- The loop over the matches: each is remembered, and told of unless it dwells and the fence is silent.
  unfoldable pub remember_matches :
      Roam
      → MutationEvent
      → Object
      → List (String × F64)
      → StoredState
      → StoredState × List GeofenceEvent
  remember_matches r e source [] s = (s, [])
  remember_matches r e source ((id, d) ∷ ms) s =
      let was_near = get_or (Map.get (source.id, id) s.pairs) false in
      let (t, events) =
        remember_matches r e source ms
          (record s { pairs = Map.insert (source.id, id) true s.pairs }) in
      (
        t,
        if not r.emit || (was_near && r.nodwell)
            then events
            else roam_event r e source id d ∷ events,
      )

  abbrev pub matches_of : Roam → Object → List Object → Bool → Map String F64
  matches_of r source targets true = current_matches r source targets []
  matches_of r source targets false = []

  unfoldable pub reconcile_source_pairs :
      Roam
      → MutationEvent
      → Object
      → List Object
      → StoredState
      → Result p.GeofenceError (StoredState × List GeofenceEvent)
  unfolding current_matches remember_matches
  reconcile_source_pairs r e source targets s = do
    allowed ← p.matches_candidate source r.options
    let m = matches_of r source targets allowed
    ok (remember_matches r e source m (without_parted source m s))

  abbrev pub forget_pair : String → String → StoredState → StoredState
  forget_pair source target s = record s { pairs = Map.remove (source, target) s.pairs }

  -- The first of the targets that is near the source and is not the source.
  unfoldable pub near_target : Roam → Object → List Object → Option (Object × F64)
  unfolding roam_distance_meters
  near_target r source [] = none
  near_target r source (t ∷ ts) =
      let rest = near_target r source ts in
      if t.id == source.id
      then rest
      else elim (roam_distance_meters source t r.meters) [ none ↦ rest | some d ↦ some (t, d) ]

  abbrev pub remember_target :
      Roam
      → MutationEvent
      → Object
      → String
      → StoredState
      → Option (Object × F64)
      → StoredState × List GeofenceEvent
  remember_target r e source id s none = (forget_pair source.id id s, [])
  remember_target r e source id s (some (t, d)) =
      let was_near = get_or (Map.get (source.id, id) s.pairs) false in
      (
        record s { pairs = Map.insert (source.id, id) true s.pairs },
        if r.emit && (not was_near || not r.nodwell) then roam_event r e source t.id d ∷ [] else [],
      )

  unfoldable pub reconcile_target_pair :
      Roam
      → MutationEvent
      → Object
      → List Object
      → Option String
      → StoredState
      → Result p.GeofenceError (StoredState × List GeofenceEvent)
  unfolding near_target
  reconcile_target_pair r e source targets none s = ok (s, [])
  reconcile_target_pair r e source targets (some id) s = do
    allowed ← p.matches_candidate source r.options
    ok (
        if allowed
        then remember_target r e source id s (near_target r source targets)
        else (forget_pair source.id id s, []))

  -- The loop over the sources, where a target has changed.
  unfoldable pub reconcile_sources :
      Roam
      → MutationEvent
      → List Object
      → List Object
      → Option String
      → StoredState
      → Result p.GeofenceError (StoredState × List GeofenceEvent)
  unfolding reconcile_target_pair
  reconcile_sources r e [] targets id s = ok (s, [])
  reconcile_sources r e (source ∷ sources) targets id s = do
    (s', events) ← reconcile_target_pair r e source targets id s
    (t, more) ← reconcile_sources r e sources targets id s'
    ok (t, events ++ more)

  abbrev pub changed_targets : Roam → Option Object → List Object
  changed_targets r none = []
  changed_targets r (some o) = if p.glob_match r.target_pattern o.id then o ∷ [] else []

  abbrev pub changed_id : MutationEvent → Option String
  changed_id e = omap (λ o. o.id) (elim e.before [ some o ↦ some o | none ↦ e.after ])

  abbrev pub source_changed :
      Roam
      → MutationEvent
      → (String → List Object)
      → StoredState
      → Option Object
      → Result p.GeofenceError (StoredState × List GeofenceEvent)
  source_changed r e lookup s none = ok (clear_source_pairs e.id s, [])
  source_changed r e lookup s (some o) = reconcile_source_pairs r e o (lookup r.target_collection) s

  unfoldable pub evaluate_roaming_fence :
      Roam
      → MutationEvent
      → (String → List Object)
      → StoredState
      → Result p.GeofenceError (StoredState × List GeofenceEvent)
  unfolding clear_source_pairs reconcile_source_pairs reconcile_sources
  evaluate_roaming_fence r e lookup s =
      if not (e.collection == r.source_collection) && not (e.collection == r.target_collection)
      then ok (s, [])
      else if e.collection == r.source_collection
      then source_changed r e lookup s e.after
      else reconcile_sources r e (lookup r.source_collection) (changed_targets r e.after)
          (changed_id e) s

  -- What a fence makes of a mutation.
  unfoldable pub evaluate_stored_fence :
      GeofenceDef p
      → StoredState
      → MutationEvent
      → (group hook : Option String) → (String → List Object)
      → Result p.GeofenceError (StoredStateUpdate × List GeofenceEvent)
  unfolding evaluate_roaming_fence evaluate_static_fence
  evaluate_stored_fence def s e group hook lookup = elim def.query [
    | roaming target pattern meters options nodwell ↦ do
      (next, events) ←
          evaluate_roaming_fence
            (record {
              source_collection = def.collection;
              target_collection = target;
              target_pattern = pattern;
              meters = meters;
              options = options;
              nodwell = nodwell;
              group = group;
              hook = hook;
              emit =
                  allows same_command def.commands e.command && allows same_detect def.detect roam;
            })
            e lookup s
      ok (replace next, events)
    | nearby lat lon meters options ↦ evaluate_static_fence p def s e group hook
    | within area options ↦ evaluate_static_fence p def s e group hook
    | intersects area options ↦ evaluate_static_fence p def s e group hook
  ]
