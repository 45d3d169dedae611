-- ===== src/Geofence/Registry.antt =====
-- `GeofenceRegistry` of crates/latlng-geofence/src/lib.rs. Channels and hooks are kept alike, each in a table with the names by
-- collection; what the source does with one name after the other, out of a HashMap, is done in their order.
pub mod Indexes
use latlng.Prelude.{
  ℕ, suc, ◌+◌, max, String, Bool, true, false, not, ◌&&◌, ◌||◌, Option, none, some, List, [], ◌∷◌,
  ◌++◌, Result, ok, err, get_or, any, map, retain, length, ◌==◌, string_key, if◌then◌else◌,
  saturating_add,
}
use latlng.Prelude.Map
use latlng.Prelude.Map.{Map, keys, values}
use latlng.Prelude.Set
use latlng.Platform.{MailboxState, new, push}
use latlng.Geo.Object.{Object}
use latlng.Geofence.{GeofenceEvent, MutationEvent}
use latlng.Geofence.Fence.{
  Places, GeofenceQuery, nearby, within, intersects, roaming, GeofenceDef, StoredState,
  StoredStateUpdate, no_state, apply,
}
use latlng.Geofence.Names.{
  Names, push_index_name, remove_index_name, has_indexed_names, collect_indexed_names,
}
use latlng.Geofence.Roaming.{evaluate_stored_fence}

-- The fences by name, and their names by collection and by the collection that they roam to.
pub record Table (A : Type 0) : Type 0 where
  pub stored : Map String A
  pub by_collection : Names
  pub by_target_collection : Names

abbrev pub no_fences : {A : Type 0} → Table A
no_fences = record { stored = []; by_collection = []; by_target_collection = [] }

abbrev pub push_target : Names → Option String → String → Names
push_target index none name = index
push_target index (some c) name = push_index_name index c name

abbrev pub remove_target : Names → Option String → String → Names
remove_target index none name = index
remove_target index (some c) name = remove_index_name index c name

module _ (p : Places) where
  pub record StoredGeofence : Type 0 where
    pub def : GeofenceDef p
    pub state : StoredState

  pub record StoredHook : Type 0 where
    pub endpoint : String
    pub def : GeofenceDef p
    pub state : StoredState

  abbrev pub target_of : GeofenceQuery p → Option String
  target_of (roaming target pattern meters options nodwell) = some target
  target_of (nearby lat lon meters options) = none
  target_of (within area options) = none
  target_of (intersects area options) = none

  unfoldable pub insert_indexes : {A : Type 0} → String → GeofenceDef p → Table A → Table A
  unfolding push_index_name
  insert_indexes name def t = record t {
    by_collection = push_index_name t.by_collection def.collection name;
    by_target_collection = push_target t.by_target_collection (target_of def.query) name;
  }

  unfoldable pub remove_indexes : {A : Type 0} → String → GeofenceDef p → Table A → Table A
  unfolding remove_index_name
  remove_indexes name def t = record t {
    by_collection = remove_index_name t.by_collection def.collection name;
    by_target_collection = remove_target t.by_target_collection (target_of def.query) name;
  }

  module _ {A : Type 0} (def_of : A → GeofenceDef p) where
    -- The fence that stands under a name, and its names, are taken out.
    unfoldable pub del_stored : String → Table A → Table A × Bool
    unfolding remove_indexes
    del_stored name t = elim (Map.get name t.stored) [
      | none ↦ (t, false)
      | some a ↦
          (remove_indexes name (def_of a) (record t { stored = Map.remove name t.stored }), true)
    ]

    unfoldable pub set_stored : String → A → Table A → Table A
    unfolding insert_indexes del_stored
    set_stored name a t =
        let t' = insert_indexes name (def_of a) (del_stored name t).0 in
        record t' { stored = Map.insert name a t'.stored }

    -- The names that the pattern matches are deleted one by one.
    unfoldable pub del_each : List String → Table A → Table A
    unfolding del_stored
    del_each [] t = t
    del_each (name ∷ names) t = del_each names (del_stored name t).0

    unfoldable pub pdel_stored : String → Table A → Table A × ℕ
    unfolding del_each
    pdel_stored pattern t =
        let names = retain (p.glob_match pattern) (keys t.stored) in
        (del_each names t, length names)

  -- `relevant_channel_names` and `relevant_hook_names`
  unfoldable pub relevant_names : {A : Type 0} → String → Table A → List String
  unfolding collect_indexed_names
  relevant_names collection t =
      collect_indexed_names (get_or (Map.get collection t.by_target_collection) [])
        (collect_indexed_names (get_or (Map.get collection t.by_collection) []) [])

  pub record Subscriber : Type 0 where
    pub exact : List String
    pub patterns : List String
    pub sender : MailboxState GeofenceEvent

  pub record GeofenceRegistry : Type 0 where
    pub subscriber_queue_capacity : ℕ
    pub channels : Table StoredGeofence
    pub hooks : Table StoredHook
    pub cross_collection_roaming_collections : List String
    pub subscribers : List Subscriber
    pub generation : ℕ
    pub eval_errors_total : ℕ

  abbrev pub default_subscriber_queue_capacity : ℕ
  default_subscriber_queue_capacity = 4096

  abbrev pub with_subscriber_queue_capacity : ℕ → GeofenceRegistry
  with_subscriber_queue_capacity capacity = record {
    subscriber_queue_capacity = max capacity 1;
    channels = no_fences;
    hooks = no_fences;
    cross_collection_roaming_collections = [];
    subscribers = [];
    generation = 0;
    eval_errors_total = 0;
  }

  -- The two collections of a fence that roams from one to another.
  abbrev pub insert_crossing : GeofenceDef p → Option String → List String → List String
  insert_crossing def none cs = cs
  insert_crossing def (some target) cs =
      if target == def.collection then cs else Set.insert target (Set.insert def.collection cs)

  unfoldable pub crossings : List (GeofenceDef p) → List String → List String
  crossings [] cs = cs
  crossings (d ∷ ds) cs = crossings ds (insert_crossing d (target_of d.query) cs)

  unfoldable pub refresh_cross_collection_roaming_collections : GeofenceRegistry → GeofenceRegistry
  unfolding crossings
  refresh_cross_collection_roaming_collections r = record r {
    cross_collection_roaming_collections =
        crossings
          (map (λ s. s.def) (values r.channels.stored) ++ map (λ s. s.def) (values r.hooks.stored))
          [];
  }

  unfoldable pub set_channel : String → GeofenceDef p → GeofenceRegistry → GeofenceRegistry
  unfolding set_stored refresh_cross_collection_roaming_collections
  set_channel name def r = refresh_cross_collection_roaming_collections (record r {
    channels = set_stored (λ s. s.def) name (record { def = def; state = no_state }) r.channels;
  })

  unfoldable pub set_hook : String → String → GeofenceDef p → GeofenceRegistry → GeofenceRegistry
  unfolding set_stored refresh_cross_collection_roaming_collections
  set_hook name endpoint def r = refresh_cross_collection_roaming_collections (record r {
    hooks =
        set_stored (λ s. s.def) name (record { endpoint = endpoint; def = def; state = no_state })
          r.hooks;
  })

  -- The collections are refreshed where a fence was removed.
  abbrev pub refreshed : GeofenceRegistry → Bool → GeofenceRegistry × Bool
  refreshed r true = (refresh_cross_collection_roaming_collections r, true)
  refreshed r false = (r, false)

  unfoldable pub del_channel : String → GeofenceRegistry → GeofenceRegistry × Bool
  unfolding del_stored refresh_cross_collection_roaming_collections
  del_channel name r =
      let (t, removed) = del_stored (λ s. s.def) name r.channels in
      refreshed (record r { channels = t }) removed

  unfoldable pub del_hook : String → GeofenceRegistry → GeofenceRegistry × Bool
  unfolding del_stored refresh_cross_collection_roaming_collections
  del_hook name r =
      let (t, removed) = del_stored (λ s. s.def) name r.hooks in
      refreshed (record r { hooks = t }) removed

  -- The subscribers stay; what they have not read yet is stale by the new generation.
  unfoldable pub clear_all : GeofenceRegistry → GeofenceRegistry
  clear_all r = record r {
    channels = no_fences;
    hooks = no_fences;
    cross_collection_roaming_collections = [];
    generation = saturating_add r.generation 1;
  }

  abbrev pub subscribed : List String → List String → GeofenceRegistry → GeofenceRegistry
  subscribed exact patterns r = record r {
    subscribers =
        r.subscribers
        ++ record { exact = exact; patterns = patterns; sender = new r.subscriber_queue_capacity }
          ∷ [];
  }

  unfoldable pub subscribe : List String → GeofenceRegistry → GeofenceRegistry
  unfolding new
  subscribe channels r = subscribed channels [] r

  unfoldable pub psubscribe : List String → GeofenceRegistry → GeofenceRegistry
  unfolding new
  psubscribe patterns r = subscribed [] patterns r

  unfoldable pub requires_exclusive_roam_path : String → GeofenceRegistry → Bool
  requires_exclusive_roam_path collection r =
      Set.contains collection r.cross_collection_roaming_collections

  unfoldable pub has_relevant_side_effects : String → GeofenceRegistry → Bool
  unfolding has_indexed_names
  has_relevant_side_effects collection r =
      has_indexed_names r.channels.by_collection collection
      || has_indexed_names r.channels.by_target_collection collection
      || has_indexed_names r.hooks.by_collection collection
      || has_indexed_names r.hooks.by_target_collection collection
